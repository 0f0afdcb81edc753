-- ===== src/Api/Syncs.antt =====
-- The kind TSecretSync.
use tsecret.Common.{ℕ, Option, List, Text}
use tsecret.Api.Meta.{ObjectMeta, Condition, Time}
use tsecret.Api.Secrets.{SecretStoreRef, EncryptionRef}

pub record TSecretSyncTarget : Type 0 where
  pub name : Text

pub record RemoteRef : Type 0 where
  pub key : Text
  pub property : Text
  pub version : Text

pub record TSecretSyncData : Type 0 where
  pub secret_key : Text
  pub remote_ref : RemoteRef

pub record TSecretSyncSpec : Type 0 where
  pub secret_store_ref : SecretStoreRef
  pub target : TSecretSyncTarget
  pub items : List TSecretSyncData
  pub refresh_interval : Text
  pub encryption_ref : Option EncryptionRef

pub record TSecretSyncStatus : Type 0 where
  pub conditions : List Condition
  pub status : Text
  pub last_synced_at : Option Time
  pub synced_generation : ℕ

pub record TSecretSync : Type 0 where
  pub metadata : ObjectMeta
  pub spec : TSecretSyncSpec
  pub status : TSecretSyncStatus
