-- ===== src/Controller/Samples.antt =====
-- The theorems about pkg/controller in the small cluster.
use tsecret.Common.{
  err, wrapf, text, external, true, false, none, some, [], ◌∷◌, codes, text_eq, ◌≡◌, refl, Map,
  List, ◌++◌, Message, subst, In, inl, lookup, ok, errorf, pos, ltb_ℤ, ◌↔◌, if◌then◌else◌,
}
use tsecret.Api.{
  NamespacedName, TSecret, TSecretEntry, TSecretSyncData, EncryptionRef, Condition, VaultConfig,
}
use tsecret.Providers.{Provider, vault}
use tsecret.Controller.{Client, seconds}
use tsecret.Controller.World.{
  down, empty_objects, vault_config, vault_store, store_cluster, cluster, cluster-IsCluster, tools,
  tools_down, tools-IsWorking, db_sync, db_item,
}
use tsecret.Controller.Stores.{reconcile_store}
use tsecret.Controller.Stores.Blocked.{KeepsStores, failed_check_blocks}
use tsecret.Providers.{new_provider, health_check, get_secret, configure_provider_auth}
use tsecret.Providers.Vault.{VaultProvider}
use tsecret.Controller.Conditions.{
  set_condition, condition_of, Once, condition_of-set_condition, set_condition-Once,
}
use tsecret.Controller.Entries.{mark_ready, ready_condition}
use tsecret.Controller.Entries.Laws.{AllWellFormed, mark_ready_lem}
use tsecret.Controller.Sync.{
  resolve_store, Step, done, stop, Failed, pull, pull_items, write_target, default_encryption_ref,
  requeue_interval, reader, reconcile_sync,
}
use tsecret.Controller.Sync.Interval.{requeue_interval_bounds}
use tsecret.Controller.Sync.Failure.{no_value, failed_sync_atomic}
use tsecret.Controller.Sync.Data.{Sealed, left_after}
use tsecret.Controller.Sync.Pulled.{Configured, pull-Sealed}
use tsecret.Controller.Sync.Target.{synced_target}

abbrev ready : Condition
ready = record {
  kind = codes "Ready";
  status = true;
  last_transition_time = 1;
  reason = codes "Valid";
  message = errorf "ok" [];
}

abbrev not_ready : Condition
not_ready = record {
  kind = codes "Ready";
  status = false;
  last_transition_time = 2;
  reason = codes "Broken";
  message = errorf "no" [];
}

condition_of-set_condition_example :
    condition_of (codes "Ready") (set_condition (ready ∷ []) not_ready) ≡ (
      if text_eq not_ready.kind (codes "Ready")
      then some not_ready
      else condition_of (codes "Ready") (ready ∷ []))
condition_of-set_condition_example =
    condition_of-set_condition (ready ∷ []) not_ready (codes "Ready")

set_condition-Once_example : Once (set_condition (ready ∷ []) not_ready)
set_condition-Once_example = set_condition-Once (ready ∷ []) not_ready (tt, tt)

abbrev sync_key : NamespacedName
sync_key = record { namespace = codes "prod"; name = codes "db-sync" }

entries_of : Step (Map TSecretEntry) → Map TSecretEntry
entries_of (done entries) = entries
entries_of (stop f) = []

pulled_entries : Map TSecretEntry
unfolding entries_of
pulled_entries = entries_of (pull tools cluster db_sync (codes "prod") [])

pulled : pull tools cluster db_sync (codes "prod") [] ≡ done pulled_entries
unfolding pulled_entries pull tsecret.Controller.Sync.resolve_store text_eq
    tsecret.Providers.new_provider tsecret.Providers.Vault.new_vault_provider
    tsecret.Providers.configure_provider_auth tsecret.Providers.Vault.configure_vault_auth lookup
    pull_items tsecret.Controller.Sync.make_entry tsecret.Providers.get_secret
    tsecret.Providers.Vault.vault_get_secret tsecret.Keys.resolve_key default_encryption_ref
    tsecret.Keys.resolve_from_secret tsecret.Crypto.encrypt tsecret.Crypto.new_aead
pulled = refl

wrote : (write_target cluster db_sync (codes "prod") pulled_entries []).0 ≡ done tt
unfolding write_target
wrote = refl

synced_target_example :
    (target : TSecret) × (cluster.get_tsecret
        (reconcile_sync tools cluster sync_key []).1
        (record { namespace = codes "prod"; name = codes "db" })
      ≡ ok target)
    × (target.spec.entries ≡ pulled_entries)
    × (target.spec.encryption_ref ≡ default_encryption_ref db_sync)
    × ((ready_condition target.spec.entries 9).status ≡ true)
    × ((reconcile_sync tools cluster sync_key []).0
        ≡ ok (requeue_interval tools.parse (codes "1s")))
synced_target_example =
    synced_target tools cluster sync_key [] db_sync pulled_entries 9 tools-IsWorking
      cluster-IsCluster refl pulled wrote

abbrev master_key : EncryptionRef
master_key = record {
  provider = codes "sealed-secret";
  name = codes "tsecret-master-key";
  namespace = [];
  vault_transit = none;
}

pull-Sealed_example :
    (p : Provider) × Configured tools cluster db_sync [] p
    × (e : TSecretEntry) × (lookup (codes "password") pulled_entries ≡ some e)
    × (before : List TSecretSyncData) × (source : TSecretSyncData) × (after : List TSecretSyncData)
    × (db_item ∷ [] ≡ before ++ source ∷ after)
    × (source.secret_key ≡ codes "password")
    × Sealed tools
        (reader cluster [])
        (default_encryption_ref db_sync)
        (codes "prod")
        (left_after tools p before)
        source
        e
pull-Sealed_example =
    pull-Sealed tools cluster db_sync (codes "prod") [] pulled_entries db_item tools-IsWorking
      pulled (inl refl)

abbrev with_token : Provider
with_token =
    vault
      (record { server = codes "http://vault"; path = codes "/secret/data/"; token = codes "t" })

configured : Configured tools_down cluster db_sync [] with_token
unfolding tsecret.Controller.Sync.resolve_store text_eq tsecret.Providers.new_provider
    tsecret.Providers.Vault.new_vault_provider tsecret.Providers.configure_provider_auth
    tsecret.Providers.Vault.configure_vault_auth lookup tsecret.Common.trim_right
    tsecret.Common.trim_left
configured = record {
  spec = vault_store.spec;
  fresh =
      vault (record { server = codes "http://vault"; path = codes "/secret/data/"; token = [] });
  resolved = refl;
  made = refl;
  without_vault = λ e. cc e;
  with_vault = λ config e.
      let same : vault_config ≡ config = cc e in
      subst
        (λ (v : VaultConfig).
          configure_provider_auth (cluster.get_secret []) (codes "prod")
            (vault
              (record { server = codes "http://vault"; path = codes "/secret/data/"; token = [] }))
            v.auth
          ≡ ok with_token)
        same refl;
}

not_pulled :
    (e : Message) × ((get_secret tools_down.http tools_down.json tools_down.env with_token
        (codes "db")
        []).0
      ≡ err e)
unfolding get_secret tsecret.Providers.Vault.vault_get_secret
not_pulled = (_, refl)

failed_sync_atomic_example :
    ((reconcile_sync tools_down cluster sync_key []).0 ≡ ok (seconds 60))
    × (cluster.get_tsecret
          (reconcile_sync tools_down cluster sync_key []).1
          (record { namespace = codes "prod"; name = codes "db" })
        ≡ cluster.get_tsecret [] (record { namespace = codes "prod"; name = codes "db" }))
failed_sync_atomic_example =
    failed_sync_atomic tools_down cluster sync_key [] db_sync
      (record { namespace = codes "prod"; name = codes "db" }) (λ s v k. refl) refl
      (no_value with_token [] db_item [] not_pulled.0 configured refl not_pulled.1)

requeue_interval_bounds_example :
    (ltb_ℤ (requeue_interval (λ s. some (pos 1000000000)) (codes "1s")) (seconds 30) ≡ false)
    × (ltb_ℤ (seconds 86400) (requeue_interval (λ s. some (pos 1000000000)) (codes "1s")) ≡ false)
requeue_interval_bounds_example = requeue_interval_bounds (λ s. some (pos 1000000000)) (codes "1s")

abbrev bad_entry : TSecretEntry
bad_entry = record { value = codes "plain"; algorithm = codes "none"; key_ref = [] }

abbrev bad_tsecret : TSecret
bad_tsecret = record {
  metadata = db_sync.metadata;
  spec = record { encryption_ref = master_key; entries = (codes "k", bad_entry) ∷ [] };
  status = record { conditions = ready ∷ []; last_encrypted_at = none; key_version = [] };
}

mark_ready_lem_example :
    ((ready_condition bad_tsecret.spec.entries 5).status ≡ true
      ↔ AllWellFormed bad_tsecret.spec.entries)
    × (condition_of (codes "Ready") (mark_ready bad_tsecret 5).status.conditions ≡ (
        if text_eq (codes "Ready") (codes "Ready")
        then some (ready_condition bad_tsecret.spec.entries 5)
        else condition_of (codes "Ready") bad_tsecret.status.conditions))
mark_ready_lem_example = mark_ready_lem bad_tsecret 5 (codes "Ready")

store_cluster-KeepsStores : KeepsStores store_cluster
store_cluster-KeepsStores = record {
  stored = λ s s' w k found kept wrote. let same : w ≡ s = cc found in rw same refl;
}

abbrev no_token : Provider
no_token =
    vault (record { server = codes "http://vault"; path = codes "/secret/data/"; token = [] })

vault_made : new_provider (λ name. []) vault_store.spec.provider ≡ ok no_token
unfolding new_provider tsecret.Providers.Vault.new_vault_provider tsecret.Common.trim_right
    tsecret.Common.trim_left
vault_made = refl

vault_sick :
    (health_check down empty_objects (λ name. []) no_token).0
    ≡ err (wrapf "vault health check failed: %w" [] (external (codes "timeout")))
unfolding health_check tsecret.Providers.Vault.vault_health_check
vault_sick = refl

failed_check_blocks_example :
    ((reconcile_store down empty_objects
        (λ name. [])
        store_cluster
        5
        (record { namespace = codes "prod"; name = codes "vault" })
        vault_store).0
      ≡ ok (seconds 60))
    × (resolve_store store_cluster db_sync
          (reconcile_store down empty_objects
            (λ name. [])
            store_cluster
            5
            (record { namespace = codes "prod"; name = codes "vault" })
            vault_store).1
        ≡ err (errorf "TSecretStore %s is unavailable" (text (codes "vault") ∷ [])))
failed_check_blocks_example =
    failed_check_blocks down empty_objects (λ name. []) store_cluster 5
      (record { namespace = codes "prod"; name = codes "vault" }) vault_store vault_store no_token
      (wrapf "vault health check failed: %w" [] (external (codes "timeout"))) db_sync
      store_cluster-KeepsStores refl vault_made vault_sick refl refl refl refl
