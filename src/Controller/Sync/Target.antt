-- ===== src/Controller/Sync/Target.antt =====
-- The TSecret that a successful synchronisation leaves.
use tsecret.Common.{
  ℕ, ◌+◌, true, List, [], ◌∷◌, Text, codes, Map, insert, All, ◌≡◌, refl, arith, ◌∙◌, Result, ok,
  err, text_eq, Bool-cases, Result-cases, inl, inr, subst,
}
use tsecret.Api.{
  NamespacedName, TSecret, TSecretEntry, TSecretSync, TSecretSyncData, EncryptionRef, Time,
}
use tsecret.Providers.{Provider}
use tsecret.Providers.Store.{Reader}
use tsecret.Controller.{Client}
use tsecret.Controller.Entries.{entry_valid, check_entries, ready_condition}
use tsecret.Controller.Sync.{
  Tools, done, or_stop, pull, pull_items, write_target, new_target, updated_target,
  default_encryption_ref, requeue_interval, reader, set_sync_status, succeed_sync, finish_sync,
  sync_target, reconcile_sync,
}
use tsecret.Controller.Sync.Data.{IsWorking, pull_items_step, left_by}

-- What an API server does for TSecrets: it stores what is written under its name, and a status of
-- a TSecretSync elsewhere.
pub record IsCluster {W : Type 0} (c : Client W) : Type 0 where
  pub named :
      (w : W) (k : NamespacedName) (t : TSecret)
      → c.get_tsecret w k ≡ ok t
      → (t.metadata.namespace ≡ k.namespace) × (t.metadata.name ≡ k.name)
  pub created :
      (t : TSecret) (w : W)
      → (c.create_tsecret t w).0 ≡ ok tt
      → (t' : TSecret) × (c.get_tsecret
            (c.create_tsecret t w).1
            (record { namespace = t.metadata.namespace; name = t.metadata.name })
          ≡ ok t')
        × (t'.spec ≡ t.spec)
  pub updated :
      (t : TSecret) (w : W)
      → (c.update_tsecret t w).0 ≡ ok tt
      → (t' : TSecret) × (c.get_tsecret
            (c.update_tsecret t w).1
            (record { namespace = t.metadata.namespace; name = t.metadata.name })
          ≡ ok t')
        × (t'.spec ≡ t.spec)
  pub status_apart :
      (s : TSecretSync) (w : W) (k : NamespacedName)
      → c.get_tsecret (c.update_sync_status s w).1 k ≡ c.get_tsecret w k

abbrev AllValid : Map TSecretEntry → Type 0
AllValid = All (λ kv. entry_valid kv.1 ≡ true)

insert-AllValid :
    (k : Text) (e : TSecretEntry) (es : Map TSecretEntry)
    → entry_valid e ≡ true
    → AllValid es
    → AllValid (insert k e es)
unfolding insert
insert-AllValid k e [] h hs = (h, tt)
insert-AllValid k e ((k', e') ∷ es) h (h', hs) =
    let rest = insert-AllValid k e es h hs in
    elim (Bool-cases (text_eq k' k)) [ inl q ↦ rw q (h, hs) | inr q ↦ rw q (h', rest) ]

check_entries-AllValid : (es : Map TSecretEntry) → AllValid es → check_entries es true ≡ true
unfolding check_entries
check_entries-AllValid [] h = refl
check_entries-AllValid ((k, e) ∷ es) (h, hs) = rw h (check_entries-AllValid es hs)

module _ {J : Type 0} (t : Tools J) (c : Reader) (enc_ref : EncryptionRef) (namespace : Text)
    (working : IsWorking t) where
  pull_items-AllValid :
      (n : ℕ) (p : Provider) (items : List TSecretSyncData) (entries entries' : Map TSecretEntry)
      → pull_items t c enc_ref namespace n p items entries ≡ done entries'
      → AllValid entries
      → AllValid entries'
  pull_items-AllValid n p [] entries entries' h valid =
      let same : entries ≡ entries' = unfold pull_items in cc h in subst AllValid same valid
  pull_items-AllValid n p (item ∷ items) entries entries' h valid =
      let (e, sealed, rest) =
        pull_items_step t c enc_ref namespace working n p item items entries entries' h in
      pull_items-AllValid (n + 1) (left_by t p item) items (insert item.secret_key e entries)
        entries' rest (insert-AllValid item.secret_key e entries sealed.valid valid)

or_stop-done :
    {A : Type 0} (reason : Text) (r : Result A) {a : A} → or_stop reason r ≡ done a → r ≡ ok a
or_stop-done reason (ok b) h = cc h
or_stop-done reason (err e) h = cc h

module _ {J W : Type 0} (t : Tools J) (c : Client W) (sync : TSecretSync) (namespace : Text)
    (w : W) where
  pull-AllValid :
      (entries : Map TSecretEntry)
      → IsWorking t
      → pull t c sync namespace w ≡ done entries
      → AllValid entries
  unfolding pull
  pull-AllValid entries working h =
      grind (
        arith,
        pull_items-AllValid t (reader c w) (default_encryption_ref sync) namespace working 0,
      )

  -- The target that a successful write leaves.
  write_target_lem :
      (entries : Map TSecretEntry)
      → IsCluster c
      → (write_target c sync namespace entries w).0 ≡ done tt
      → (target : TSecret) × (c.get_tsecret
            (write_target c sync namespace entries w).1
            (record { namespace = namespace; name = sync.spec.target.name })
          ≡ ok target)
        × (target.spec.entries ≡ entries)
        × (target.spec.encryption_ref ≡ default_encryption_ref sync)
  unfolding write_target new_target updated_target default_encryption_ref
  write_target_lem entries cluster h =
      let key : NamespacedName = record { namespace = namespace; name = sync.spec.target.name } in
      elim (Result-cases (c.get_tsecret w key)) [
        | inr (e, k) ↦
            let wrote : (c.create_tsecret (new_target sync namespace entries) w).0 ≡ ok tt =
              or_stop-done (codes "CreateFailed")
                (c.create_tsecret (new_target sync namespace entries) w).0
                (rw (k, write_target) at h) in
            let (target, found, spec) =
              cluster.created (new_target sync namespace entries) w wrote in
            (target, rw (k, write_target) found, rw spec refl, rw spec refl)
        | inl (old, k) ↦
            let wrote : (c.update_tsecret (updated_target sync entries old) w).0 ≡ ok tt =
              or_stop-done (codes "UpdateFailed")
                (c.update_tsecret (updated_target sync entries old) w).0
                (rw (k, write_target) at h) in
            let (target, found, spec) = cluster.updated (updated_target sync entries old) w wrote in
            let (same_namespace, same_name) = cluster.named w key old k in
            (
              target,
              rw (k, write_target) (rw (← same_namespace, ← same_name) found),
              rw spec refl,
              rw spec refl,
            )
      ]

-- Where the items of a synchronisation are pulled and the target is written, the target then holds
-- exactly the entries that were pulled, under the sync's encryption reference, and it is a target
-- that the TSecret controller marks ready; the next synchronisation follows after the requeue
-- interval.
pub synced_target :
    {J W : Type 0} (t : Tools J) (c : Client W) (key : NamespacedName) (w : W) (sync : TSecretSync)
    (entries : Map TSecretEntry) (now : Time)
    → IsWorking t
    → IsCluster c
    → c.get_sync w key ≡ ok sync
    → pull t c sync key.namespace w ≡ done entries
    → (write_target c sync key.namespace entries w).0 ≡ done tt
    → (target : TSecret) × (c.get_tsecret
          (reconcile_sync t c key w).1
          (record { namespace = key.namespace; name = sync.spec.target.name })
        ≡ ok target)
      × (target.spec.entries ≡ entries)
      × (target.spec.encryption_ref ≡ default_encryption_ref sync)
      × ((ready_condition target.spec.entries now).status ≡ true)
      × ((reconcile_sync t c key w).0 ≡ ok (requeue_interval t.parse sync.spec.refresh_interval))
unfolding reconcile_sync sync_target finish_sync succeed_sync set_sync_status ready_condition
synced_target t c key w sync entries now working cluster found pulled wrote =
    let (target, stored, holds, under) =
      write_target_lem t c sync key.namespace w entries cluster wrote in
    let valid =
      check_entries-AllValid entries
        (pull-AllValid t c sync key.namespace w entries working pulled) in
    (
      target,
      rw (found, reconcile_sync)
          (rw (pulled, sync_target)
            (rw (wrote, finish_sync) (cluster.status_apart _ _ _ ∙ stored))),
      holds,
      under,
      rw holds (rw valid refl),
      rw (found, reconcile_sync) (rw (pulled, sync_target) (rw (wrote, finish_sync) refl)),
    )
