-- ===== src/Api/Secrets.antt =====
-- The kind TSecret.
use tsecret.Common.{Option, List, Text, Map}
use tsecret.Api.Meta.{ObjectMeta, Condition, Time}

pub record SecretKeyRef : Type 0 where
  pub name : Text
  pub key : Text
  pub namespace : Text

pub record SecretStoreRef : Type 0 where
  pub name : Text
  pub kind : Text

pub record VaultTransitRef : Type 0 where
  pub store_ref : SecretStoreRef
  pub wrapped_key_secret : SecretKeyRef

pub record EncryptionRef : Type 0 where
  pub provider : Text
  pub name : Text
  pub namespace : Text
  pub vault_transit : Option VaultTransitRef

pub record TSecretEntry : Type 0 where
  pub value : Text
  pub algorithm : Text
  pub key_ref : Text

pub record TSecretSpec : Type 0 where
  pub encryption_ref : EncryptionRef
  pub entries : Map TSecretEntry

pub record TSecretStatus : Type 0 where
  pub conditions : List Condition
  pub last_encrypted_at : Option Time
  pub key_version : Text

pub record TSecret : Type 0 where
  pub metadata : ObjectMeta
  pub spec : TSecretSpec
  pub status : TSecretStatus
