-- ===== src/Controller/Sync/Pulled.antt =====
-- What a synchronisation pulls, from the store that it names to the entries.
use tsecret.Common.{
  none, some, List, [], ◌∷◌, ◌++◌, Text, Map, lookup, ◌≡◌, refl, ok, In, subst, Result-cases,
  Option-cases, inl, inr,
}
use tsecret.Api.{TSecretEntry, TSecretSync, TSecretSyncData, TSecretStoreSpec, VaultConfig}
use tsecret.Providers.{Provider, new_provider, configure_provider_auth}
use tsecret.Controller.{Client}
use tsecret.Controller.Sync.{
  done, Tools, resolve_store, default_encryption_ref, reader, pull, pull_items,
}
use tsecret.Controller.Sync.Data.{Sealed, IsWorking, left_after, pull_items_lem}

-- The provider of a synchronisation: the one that the factory makes for the store that the
-- TSecretSync names, with the credentials of the store where it is a Vault.
pub record Configured {J W : Type 0} (t : Tools J) (c : Client W) (sync : TSecretSync) (w : W)
    (p : Provider) : Type 0 where
  pub spec : TSecretStoreSpec
  pub fresh : Provider
  pub resolved : resolve_store c sync w ≡ ok spec
  pub made : new_provider t.env spec.provider ≡ ok fresh
  pub without_vault : spec.provider.vault ≡ none → p ≡ fresh
  pub with_vault :
      (config : VaultConfig)
      → spec.provider.vault ≡ some config
      → configure_provider_auth (c.get_secret w) sync.metadata.namespace fresh config.auth ≡ ok p

module _ {J W : Type 0} (t : Tools J) (c : Client W) (sync : TSecretSync) (namespace : Text)
    (w : W) where
  pub pull_inv :
      (entries : Map TSecretEntry)
      → pull t c sync namespace w ≡ done entries
      → (p : Provider) × Configured t c sync w p
        × (pull_items t (reader c w) (default_encryption_ref sync) namespace 0 p sync.spec.items []
            ≡ done entries)
  unfolding pull
  pull_inv entries h = elim (Result-cases (resolve_store c sync w)) [
    | inr (e, k) ↦ cc (rw (k, pull) at h)
    | inl (spec, k) ↦
        let h1 = rw (k, pull) at h in
        elim (Result-cases (new_provider t.env spec.provider)) [
          | inr (e, k1) ↦ cc (rw (k1, pull) at h1)
          | inl (fresh, k1) ↦
              let h2 = rw (k1, pull) at h1 in
              elim (Option-cases spec.provider.vault) [
                | inl k2 ↦ (
                  fresh,
                  record {
                    spec = spec;
                    fresh = fresh;
                    resolved = k;
                    made = k1;
                    without_vault = λ _. refl;
                    with_vault = λ config e. cc (e, k2);
                  },
                  rw (k2, pull) at h2,
                )
                | inr (config, k2) ↦
                    let h3 = rw (k2, pull) at h2 in
                    let auth =
                      configure_provider_auth (c.get_secret w) sync.metadata.namespace fresh
                        config.auth in
                    elim (Result-cases auth) [
                      | inr (e, k3) ↦ cc (rw (k3, pull) at h3)
                      | inl (p, k3) ↦ (
                        p,
                        record {
                          spec = spec;
                          fresh = fresh;
                          resolved = k;
                          made = k1;
                          without_vault = λ e. cc (e, k2);
                          with_vault = λ other e.
                              let same : config ≡ other = cc (e, k2) in
                              subst
                                (λ (v : VaultConfig).
                                  configure_provider_auth (c.get_secret w) sync.metadata.namespace
                                    fresh v.auth
                                  ≡ ok p)
                                same k3;
                        },
                        rw (k3, pull) at h3,
                      )
                    ]
              ]
        ]
  ]

  -- Where ciphers, randomness and JSON keep their contracts and a synchronisation pulls its items to
  -- the end: every item has an entry under its key, which was made for the item of this key at some
  -- place of the list. That entry is valid and opens, under the key that the sync's encryption
  -- reference resolves to, to the value that GetSecret gives for that item with the provider of the
  -- store that the sync names, as the pulls of the items before that place leave it.
  pub pull-Sealed :
      (entries : Map TSecretEntry) (item : TSecretSyncData)
      → IsWorking t
      → pull t c sync namespace w ≡ done entries
      → In item sync.spec.items
      → (p : Provider) × Configured t c sync w p
        × (e : TSecretEntry) × (lookup item.secret_key entries ≡ some e)
        × (before : List TSecretSyncData) × (source : TSecretSyncData) × (after : List
            TSecretSyncData)
        × (sync.spec.items ≡ before ++ source ∷ after)
        × (source.secret_key ≡ item.secret_key)
        × Sealed t
            (reader c w)
            (default_encryption_ref sync)
            namespace
            (left_after t p before)
            source
            e
  pull-Sealed entries item working h member =
      let (p, configured, pulled) = pull_inv entries h in
      let (e, found, before, source, after, split, key, s) =
        pull_items_lem t (reader c w) (default_encryption_ref sync) namespace working p
          sync.spec.items entries item pulled member in
      (p, configured, e, found, before, source, after, split, key, s)
