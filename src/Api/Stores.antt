-- ===== src/Api/Stores.antt =====
-- The kinds TSecretStore and ClusterTSecretStore.
use tsecret.Common.{Bool, Option, List, Text}
use tsecret.Api.Meta.{ObjectMeta, Condition, Time}
use tsecret.Api.Secrets.{SecretKeyRef}

pub record VaultKubernetesAuth : Type 0 where
  pub mount_path : Text
  pub role : Text
  pub service_account_ref : Text

pub record VaultAppRoleAuth : Type 0 where
  pub role_id_ref : SecretKeyRef
  pub secret_id_ref : SecretKeyRef

pub record VaultAuth : Type 0 where
  pub token_secret_ref : Option SecretKeyRef
  pub kubernetes : Option VaultKubernetesAuth
  pub app_role : Option VaultAppRoleAuth

pub record VaultConfig : Type 0 where
  pub server : Text
  pub path : Text
  pub auth : VaultAuth

pub record AwsAuth : Type 0 where
  pub secret_ref : Option SecretKeyRef
  pub role : Text

pub record AwsConfig : Type 0 where
  pub region : Text
  pub auth : AwsAuth

pub record AzureAuth : Type 0 where
  pub client_id : Text
  pub client_secret_ref : Option SecretKeyRef
  pub use_managed_identity : Bool

pub record AzureConfig : Type 0 where
  pub vault_url : Text
  pub tenant_id : Text
  pub auth : AzureAuth

pub record GcpAuth : Type 0 where
  pub secret_ref : Option SecretKeyRef
  pub workload_identity : Bool

pub record GcpConfig : Type 0 where
  pub project_id : Text
  pub auth : GcpAuth

pub record OracleAuth : Type 0 where
  pub secret_ref : Option SecretKeyRef
  pub use_instance_principal : Bool

pub record OracleConfig : Type 0 where
  pub vault_id : Text
  pub region : Text
  pub auth : OracleAuth

pub record SecretStoreProvider : Type 0 where
  pub vault : Option VaultConfig
  pub aws : Option AwsConfig
  pub azure : Option AzureConfig
  pub gcp : Option GcpConfig
  pub oracle : Option OracleConfig

pub record TSecretStoreSpec : Type 0 where
  pub provider : SecretStoreProvider
  pub refresh_interval : Text

pub record TSecretStoreStatus : Type 0 where
  pub conditions : List Condition
  pub status : Text
  pub last_checked_at : Option Time

pub record TSecretStore : Type 0 where
  pub metadata : ObjectMeta
  pub spec : TSecretStoreSpec
  pub status : TSecretStoreStatus

pub record ClusterTSecretStore : Type 0 where
  pub metadata : ObjectMeta
  pub spec : TSecretStoreSpec
  pub status : TSecretStoreStatus
