-- ===== src/Keys/Laws.antt =====
-- Every key that the resolver returns has the size that the ciphers want.
use tsecret.Common.{ℕ, Text, Bytes, length, ok, ◌≡◌, ◌⊎◌, text_eq_iff, arith}
use tsecret.Api.{EncryptionRef, VaultTransitRef}
use tsecret.Providers.Base.{Http, Json}
use tsecret.Providers.Store.{Reader}
use tsecret.Keys.{
  resolve_from_secret, unwrap, resolve_wrapped, resolve_from_vault_transit, resolve_key,
  or_namespace, sealed_secret, vault_transit,
}

module _ {J : Type 0} (http : Http) (json : Json J) (key_size : ℕ) (c : Reader) where
  secret_size :
      (name namespace : Text) (key : Bytes)
      → resolve_from_secret http json key_size c name namespace ≡ ok key
      → length key ≡ key_size
  unfolding resolve_from_secret
  secret_size name namespace key h = ground arith

  unwrap_size :
      (ref : EncryptionRef) (transit : VaultTransitRef) (namespace : Text) (ciphertext key : Bytes)
      → unwrap http json key_size c ref transit namespace ciphertext ≡ ok key
      → length key ≡ key_size
  unfolding unwrap
  unwrap_size ref transit namespace ciphertext key h = ground arith

  wrapped_size :
      (ref : EncryptionRef) (transit : VaultTransitRef) (namespace : Text) (key : Bytes)
      → resolve_wrapped http json key_size c ref transit namespace ≡ ok key
      → length key ≡ key_size
  unfolding resolve_wrapped
  wrapped_size ref transit namespace key h = grind (arith, unwrap_size)

  transit_size :
      (ref : EncryptionRef) (namespace : Text) (key : Bytes)
      → resolve_from_vault_transit http json key_size c ref namespace ≡ ok key
      → length key ≡ key_size
  unfolding resolve_from_vault_transit
  transit_size ref namespace key h = grind (arith, wrapped_size)

  -- A key that ResolveKey returns, from a Secret or from Vault Transit, has KeySize bytes, and its
  -- reference names one of these two providers.
  pub length-resolve_key :
      (ref : EncryptionRef) (namespace : Text) (key : Bytes)
      → resolve_key http json key_size c ref namespace ≡ ok key
      → (length key ≡ key_size) × ((ref.provider ≡ sealed_secret) ⊎ (ref.provider ≡ vault_transit))
  unfolding resolve_key
  length-resolve_key ref namespace key h = ground (
    arith,
    secret_size ref.name (or_namespace ref.namespace namespace) key,
    transit_size ref namespace key,
    text_eq_iff ref.provider sealed_secret,
    text_eq_iff ref.provider vault_transit,
  )
