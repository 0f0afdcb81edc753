-- ===== src/Providers/Store.antt =====
-- pkg/providers/store.go. The client's Get is given by one function for each kind that is read.
use tsecret.Common.{
  none, some, [], ◌∷◌, ◌||◌, Text, codes, text_eq, is_empty, Result, ok, err, errorf, text, wrap,
  ◌>>=◌, if◌then◌else◌,
}
use tsecret.Api.{
  SecretStoreRef, TSecretStoreSpec, TSecretStore, ClusterTSecretStore, NamespacedName, Secret,
}
use tsecret.Providers.Vault.{VaultProvider, new_vault_provider, configure_vault_auth}

-- client.Reader
pub record Reader : Type 0 where
  pub get_secret : NamespacedName → Result Secret
  pub get_store : NamespacedName → Result TSecretStore
  pub get_cluster_store : NamespacedName → Result ClusterTSecretStore

abbrev pub kind_store : Text
kind_store = codes "TSecretStore"

abbrev pub kind_cluster_store : Text
kind_cluster_store = codes "ClusterTSecretStore"

unfoldable pub resolve_vault_store : Reader → SecretStoreRef → Text → Result TSecretStoreSpec
resolve_vault_store c ref namespace =
    if text_eq ref.kind kind_store || is_empty ref.kind
    then (wrap "TSecretStore %s/%s not found: %w" (text namespace ∷ text ref.name ∷ [])
          (c.get_store (record { namespace = namespace; name = ref.name }))
        >>= λ store. elim store.spec.provider.vault [
          | none ↦ err (
              errorf "TSecretStore %s/%s is not a Vault store"
                (text namespace ∷ text ref.name ∷ []))
          | some _ ↦ ok store.spec
        ])
    else if text_eq ref.kind kind_cluster_store
    then (wrap "ClusterTSecretStore %s not found: %w" (text ref.name ∷ [])
          (c.get_cluster_store (record { namespace = []; name = ref.name }))
        >>= λ store. elim store.spec.provider.vault [
          | none ↦ err (errorf "ClusterTSecretStore %s is not a Vault store" (text ref.name ∷ []))
          | some _ ↦ ok store.spec
        ])
    else err (errorf "unsupported store kind: %s" (text ref.kind ∷ []))

unfoldable pub new_authenticated_vault_provider :
    Reader → TSecretStoreSpec → Text → Result VaultProvider
new_authenticated_vault_provider c spec namespace = elim spec.provider.vault [
  | none ↦ err (errorf "vault provider is not configured" [])
  | some config ↦ do
    p ← new_vault_provider config
    configure_vault_auth c.get_secret namespace p config.auth
]
