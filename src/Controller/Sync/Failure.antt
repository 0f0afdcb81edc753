-- ===== src/Controller/Sync/Failure.antt =====
-- A synchronisation that fails before it writes: all items are pulled, or nothing is written.
use tsecret.Common.{
  ℕ, ◌+◌, List, [], ◌∷◌, ◌++◌, Text, Bytes, Map, insert, Message, ok, err, ◌≡◌, ◌≢◌, refl, sym, ◌∙◌,
  ap, Option-cases, inl, inr,
}
use tsecret.Api.{
  NamespacedName, TSecretEntry, TSecretSync, TSecretSyncData, TSecretStoreSpec, EncryptionRef,
}
use tsecret.Providers.{Provider, new_provider, get_secret}
use tsecret.Providers.Store.{Reader}
use tsecret.Keys.{resolve_key}
use tsecret.Controller.{Client, seconds}
use tsecret.Controller.Sync.{
  Tools, done, Step-cases, make_entry, pull_items, resolve_store, default_encryption_ref, reader,
  pull, fail_sync, set_sync_status, sync_target, reconcile_sync,
}
use tsecret.Controller.Sync.Data.{left_by, left_after, make_entry_inv}
use tsecret.Controller.Sync.Pulled.{Configured, pull_inv}

module _ {J : Type 0} (t : Tools J) (c : Reader) (enc_ref : EncryptionRef) (namespace : Text) where
  -- In a loop that comes to its end, the item at any place was pulled and the key was resolved.
  pull_items_pulled :
      (n : ℕ) (p : Provider) (before : List TSecretSyncData) (item : TSecretSyncData)
      (after : List TSecretSyncData) (entries entries' : Map TSecretEntry)
      → pull_items t c enc_ref namespace n p (before ++ item ∷ after) entries ≡ done entries'
      → (v : Text) × (key : Bytes) × ((get_secret t.http t.json t.env
            (left_after t p before)
            item.remote_ref.key
            item.remote_ref.property).0
          ≡ ok v)
        × (resolve_key t.http t.json t.chacha.key_size c enc_ref namespace ≡ ok key)
  unfolding pull_items make_entry
  pull_items_pulled n p [] item after entries entries' h =
      elim (Step-cases (make_entry t c enc_ref namespace n p item).0) [
        | inr (f, k) ↦ cc (h, k)
        | inl (e, k) ↦
            let (v, key, pulled, resolved, _, _) =
              make_entry_inv t c enc_ref namespace n p item e k in
            (v, key, pulled, resolved)
      ]
  pull_items_pulled n p (first ∷ before) item after entries entries' h =
      elim (Step-cases (make_entry t c enc_ref namespace n p first).0) [
        | inr (f, k) ↦ cc (h, k)
        | inl (e, k) ↦
            pull_items_pulled (n + 1) (left_by t p first) before item after
              (insert first.secret_key e entries) entries' (cc (h, k))
      ]

-- What keeps a synchronisation from its end: the store that the TSecretSync names is not resolved,
-- the factory makes no provider for it, the pull of an item fails with the provider that the items
-- before it leave, or there is an item and the encryption reference resolves to no key.
pub data Hindered {J W : Type 0} (t : Tools J) (c : Client W) (sync : TSecretSync)
    (namespace : Text) (w : W) : Type 0 where
  no_store : (e : Message) → resolve_store c sync w ≡ err e → Hindered t c sync namespace w
  no_provider :
      (spec : TSecretStoreSpec) (e : Message)
      → resolve_store c sync w ≡ ok spec
      → new_provider t.env spec.provider ≡ err e
      → Hindered t c sync namespace w
  no_value :
      (p : Provider) (before : List TSecretSyncData) (item : TSecretSyncData)
      (after : List TSecretSyncData) (e : Message)
      → Configured t c sync w p
      → sync.spec.items ≡ before ++ item ∷ after
      → (get_secret t.http t.json t.env
          (left_after t p before)
          item.remote_ref.key
          item.remote_ref.property).0
        ≡ err e
      → Hindered t c sync namespace w
  no_key :
      (item : TSecretSyncData) (items : List TSecretSyncData) (e : Message)
      → sync.spec.items ≡ item ∷ items
      → resolve_key t.http t.json t.chacha.key_size
          (reader c w)
          (default_encryption_ref sync)
          namespace
        ≡ err e
      → Hindered t c sync namespace w

module _ {J W : Type 0} (t : Tools J) (c : Client W) (sync : TSecretSync) (w : W) where
  -- The store, its credentials and the factory give one provider.
  Configured-unique : (p q : Provider) → Configured t c sync w p → Configured t c sync w q → p ≡ q
  Configured-unique p q a b =
      let specs : a.spec ≡ b.spec = cc (a.resolved, b.resolved) in
      let providers : a.spec.provider ≡ b.spec.provider = ap (λ s. s.provider) specs in
      let made : new_provider t.env a.spec.provider ≡ ok b.fresh = rw providers b.made in
      let fresh : a.fresh ≡ b.fresh = cc (a.made, made) in
      elim (Option-cases a.spec.provider.vault) [
        | inl k ↦
            a.without_vault k
            ∙ fresh
            ∙ sym (b.without_vault (ap (λ s. s.vault) (sym providers) ∙ k))
        | inr (config, k) ↦
            let first = a.with_vault config k in
            let second = b.with_vault config (ap (λ s. s.vault) (sym providers) ∙ k) in
            cc (first, second, fresh)
      ]

  Hindered-stops :
      (namespace : Text) (entries : Map TSecretEntry)
      → Hindered t c sync namespace w
      → pull t c sync namespace w ≢ done entries
  Hindered-stops namespace entries (no_store e k) h =
      let (p, made, _) = pull_inv t c sync namespace w entries h in cc (k, made.resolved)
  Hindered-stops namespace entries (no_provider spec e k k') h =
      let (p, made, _) = pull_inv t c sync namespace w entries h in
      let same : spec ≡ made.spec = cc (k, made.resolved) in
      let missing : new_provider t.env made.spec.provider ≡ err e = rw (← same) k' in
      cc (missing, made.made)
  Hindered-stops namespace entries (no_value p before item after e configured split k) h =
      let (q, made, pulled) = pull_inv t c sync namespace w entries h in
      let same = Configured-unique p q configured made in
      let (v, _, got, _) =
        pull_items_pulled t (reader c w) (default_encryption_ref sync) namespace 0 q before item
          after [] entries (rw (← split) pulled) in
      cc (k, got, same)
  Hindered-stops namespace entries (no_key item items e split k) h =
      let (q, made, pulled) = pull_inv t c sync namespace w entries h in
      let (_, key, _, resolved) =
        pull_items_pulled t (reader c w) (default_encryption_ref sync) namespace 0 q [] item items
          [] entries (rw (← split) pulled) in
      cc (k, resolved)

-- Where updates of a TSecretSync's status leave the TSecrets alone: a synchronisation of a
-- TSecretSync that is found, whose store is not resolved, or whose store's provider cannot be made,
-- or in which any one item at any place of the list cannot be pulled, or which has items and whose
-- encryption key is not resolved, leaves every TSecret of the cluster as it was, whatever the other
-- items gave, and is tried again after 60 seconds.
pub failed_sync_atomic :
    {J W : Type 0} (t : Tools J) (c : Client W) (key : NamespacedName) (w : W) (sync : TSecretSync)
    (other : NamespacedName)
    → ((s : TSecretSync) (v : W) (k : NamespacedName)
        → c.get_tsecret (c.update_sync_status s v).1 k ≡ c.get_tsecret v k)
    → c.get_sync w key ≡ ok sync
    → Hindered t c sync key.namespace w
    → ((reconcile_sync t c key w).0 ≡ ok (seconds 60))
      × (c.get_tsecret (reconcile_sync t c key w).1 other ≡ c.get_tsecret w other)
unfolding reconcile_sync sync_target fail_sync set_sync_status
failed_sync_atomic t c key w sync other quiet found hindered =
    elim (Step-cases (pull t c sync key.namespace w)) [
      | inl (entries, h) ↦ absurd (Hindered-stops t c sync w key.namespace entries hindered h)
      | inr (f, failed) ↦ (
        rw (found, reconcile_sync) (rw (failed, sync_target) refl),
        rw (found, reconcile_sync) (rw (failed, sync_target) (quiet _ w other)),
      )
    ]
