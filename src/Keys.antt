-- ===== src/Keys.antt =====
-- pkg/webhook/keyresolver.go
pub mod Laws
pub mod Samples
use tsecret.Common.{
  ℕ, Bool, true, false, ◌||◌, not, Option, none, some, [], ◌∷◌, Text, Bytes, codes, text_eq,
  is_empty, Map, lookup, length, Result, ok, err, errorf, text, num, wrap, ◌>>=◌, ◌==◌,
  if◌then◌else◌,
}
use tsecret.Api.{EncryptionRef, VaultTransitRef, SecretKeyRef, NamespacedName, Secret}
use tsecret.Providers.Base.{Http, Json}
use tsecret.Providers.Transit.{transit_decrypt}
use tsecret.Providers.Store.{Reader, resolve_vault_store, new_authenticated_vault_provider}

abbrev pub sealed_secret : Text
sealed_secret = codes "sealed-secret"

abbrev pub vault_transit : Text
vault_transit = codes "vault-transit"

unfoldable pub is_not_implemented : Text → Bool
is_not_implemented provider =
    text_eq provider (codes "aws-kms")
    || text_eq provider (codes "azure-keyvault")
    || text_eq provider (codes "gcp-kms")
    || text_eq provider (codes "vault-transit-legacy")

-- `if ns == "" { ns = namespace }`
unfoldable pub or_namespace : Text → Text → Text
or_namespace ns namespace = if is_empty ns then namespace else ns

-- `key_size` is crypto.KeySize.
module _ {J : Type 0} (http : Http) (json : Json J) (key_size : ℕ) (c : Reader) where
  unfoldable pub resolve_from_secret : Text → Text → Result Bytes
  resolve_from_secret name namespace = do
    secret ←
        wrap "failed to get encryption key secret %s/%s: %w" (text namespace ∷ text name ∷ [])
          (c.get_secret (record { namespace = namespace; name = name }))
    elim (lookup (codes "encryption-key") secret.entries) [
      | none ↦ err (
          errorf "secret %s/%s does not contain 'encryption-key' field"
            (text namespace ∷ text name ∷ []))
      | some key ↦
          if not (length key == key_size)
          then err (
              errorf "encryption key in %s/%s has wrong size: got %d bytes, need %d"
                (text namespace ∷ text name ∷ num (length key) ∷ num key_size ∷ []))
          else ok key
    ]

  -- The wrapped key is in `ciphertext`: the store, the provider, and the call of Vault.
  unwrap : EncryptionRef → VaultTransitRef → Text → Bytes → Result Bytes
  unwrap ref transit namespace ciphertext = do
    spec ← resolve_vault_store c transit.store_ref namespace
    p ← wrap "configure vault provider: %w" [] (new_authenticated_vault_provider c spec namespace)
    dek ← wrap "vault transit decrypt: %w" [] (transit_decrypt http json p ref.name ciphertext)
    (if not (length dek == key_size)
        then err (
            errorf "transit decrypted DEK has wrong size: got %d bytes, need %d"
              (num (length dek) ∷ num key_size ∷ []))
        else ok dek)

  resolve_wrapped : EncryptionRef → VaultTransitRef → Text → Result Bytes
  unfolding unwrap or_namespace
  resolve_wrapped ref transit namespace = do
    let wrapped = transit.wrapped_key_secret
    let wrapped_ns = or_namespace wrapped.namespace namespace
    secret ←
        wrap "failed to get wrapped DEK secret %s/%s: %w" (text wrapped_ns ∷ text wrapped.name ∷ [])
          (c.get_secret (record { namespace = wrapped_ns; name = wrapped.name }))
    elim (lookup wrapped.key secret.entries) [
      | none ↦ err (
          errorf "secret %s/%s does not contain key %q"
            (text wrapped_ns ∷ text wrapped.name ∷ text wrapped.key ∷ []))
      | some ciphertext ↦ unwrap ref transit namespace ciphertext
    ]

  unfoldable pub resolve_from_vault_transit : EncryptionRef → Text → Result Bytes
  unfolding resolve_wrapped
  resolve_from_vault_transit ref namespace = elim ref.vault_transit [
    | none ↦ err (errorf "vault-transit requires encryptionRef.vaultTransit" [])
    | some transit ↦
        if is_empty ref.name
        then err (errorf "vault-transit requires encryptionRef.name (Transit key name)" [])
        else resolve_wrapped ref transit namespace
  ]

  unfoldable pub resolve_key : EncryptionRef → Text → Result Bytes
  unfolding or_namespace
  resolve_key ref namespace =
      if text_eq ref.provider sealed_secret
      then resolve_from_secret ref.name (or_namespace ref.namespace namespace)
      else if text_eq ref.provider vault_transit
      then resolve_from_vault_transit ref namespace
      else if is_not_implemented ref.provider
      then err (errorf "provider %q is not implemented yet" (text ref.provider ∷ []))
      else err (errorf "unsupported key provider: %s" (text ref.provider ∷ []))
