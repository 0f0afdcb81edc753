-- ===== src/Controller/Stores/Blocked.antt =====
-- A store whose check fails, and the synchronisations that name it.
use tsecret.Common.{[], ◌∷◌, codes, text_eq, Message, ok, err, errorf, text, ◌≡◌, refl}
use tsecret.Api.{NamespacedName, TSecretStore, TSecretSync, Time}
use tsecret.Providers.Base.{Http, Json, Environ}
use tsecret.Providers.Store.{kind_store}
use tsecret.Providers.{Provider, new_provider, health_check}
use tsecret.Controller.{Client, seconds}
use tsecret.Controller.Stores.{check_store, store_with_status, set_store_status, reconcile_store}
use tsecret.Controller.Sync.{resolve_store, unavailable}

-- What an API server does for the status subresource of a TSecretStore: after an update that
-- succeeds, Get returns the stored object with the status that was sent; the rest of what was sent
-- is ignored.
pub record KeepsStores {W : Type 0} (c : Client W) : Type 0 where
  pub stored :
      (s s' : TSecretStore) (w : W) (k : NamespacedName)
      → c.get_store w k ≡ ok s
      → s'.metadata ≡ s.metadata
      → (c.update_store_status s' w).0 ≡ ok tt
      → c.get_store (c.update_store_status s' w).1 k ≡ ok (record s { status = s'.status })

resolve_unavailable :
    {W : Type 0} (c : Client W) (sync : TSecretSync) (w : W) (store : TSecretStore)
    (key : NamespacedName)
    → c.get_store w key ≡ ok store
    → store.status.status ≡ unavailable
    → sync.spec.secret_store_ref.kind ≡ kind_store
    → sync.spec.secret_store_ref.name ≡ key.name
    → sync.metadata.namespace ≡ key.namespace
    → resolve_store c sync w ≡ err (errorf "TSecretStore %s is unavailable" (text key.name ∷ []))
unfolding resolve_store text_eq
resolve_unavailable c sync w store key found down kind name namespace =
    rw (kind, resolve_store)
      (rw (name, namespace, resolve_store) (rw (found, resolve_store) (rw down refl)))

module _ {J : Type 0} (http : Http) (json : Json J) (env : Environ) where
  -- The store that is written after a check that failed with the error.
  abbrev pub marked : TSecretStore → Time → Message → TSecretStore
  marked store now e = store_with_status store now unavailable (codes "HealthCheckFailed") e

  left_world :
      {W : Type 0} (c : Client W) (now : Time) (key : NamespacedName) (w : W) (store : TSecretStore)
      (p : Provider) (e : Message)
      → c.get_store w key ≡ ok store
      → new_provider env store.spec.provider ≡ ok p
      → (health_check http json env p).0 ≡ err e
      → (reconcile_store http json env c now key w).1
        ≡ (c.update_store_status (marked store now e) w).1
  unfolding reconcile_store set_store_status check_store store_with_status
  left_world c now key w store p e found made sick =
      rw (found, reconcile_store) (rw (made, check_store) (rw (sick, check_store) refl))

  -- A store whose health check fails is marked unavailable and checked again after 60 seconds, and
  -- where the status is written, a TSecretSync that names the store no longer resolves it.
  pub failed_check_blocks :
      {W : Type 0} (c : Client W) (now : Time) (key : NamespacedName) (w : W) (store : TSecretStore)
      (p : Provider) (e : Message) (sync : TSecretSync)
      → KeepsStores c
      → c.get_store w key ≡ ok store
      → new_provider env store.spec.provider ≡ ok p
      → (health_check http json env p).0 ≡ err e
      → (c.update_store_status (marked store now e) w).0 ≡ ok tt
      → sync.spec.secret_store_ref.kind ≡ kind_store
      → sync.spec.secret_store_ref.name ≡ key.name
      → sync.metadata.namespace ≡ key.namespace
      → ((reconcile_store http json env c now key w).0 ≡ ok (seconds 60))
        × (resolve_store c sync (reconcile_store http json env c now key w).1
            ≡ err (errorf "TSecretStore %s is unavailable" (text key.name ∷ [])))
  unfolding reconcile_store check_store set_store_status store_with_status resolve_store text_eq
  failed_check_blocks c now key w store p e sync server found made sick wrote kind name namespace =
      (
        rw (found, reconcile_store) refl,
        rw (left_world c now key w store p e found made sick) (
            resolve_unavailable c sync (c.update_store_status (marked store now e) w).1
              (record store { status = (marked store now e).status }) key
              (server.stored store (marked store now e) w key found refl wrote) refl kind name
              namespace),
      )
