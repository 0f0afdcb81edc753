-- ===== src/Providers.antt =====
-- pkg/providers.
pub mod Base
pub mod Vault
pub mod Transit
pub mod Aws
pub mod Oracle
pub mod Gcp
pub mod Azure
pub mod Store
pub mod Strings
pub mod Requests
pub mod Answers
pub mod Samples
use tsecret.Common.{Option, none, some, [], Text, Result, ok, err, errorf, if◌then◌else◌}
use tsecret.Api.{SecretStoreProvider, VaultAuth, NamespacedName, Secret}
use tsecret.Providers.Base.{Http, Json, Environ}
use tsecret.Providers.Vault.{
  VaultProvider, new_vault_provider, configure_vault_auth, vault_get_secret, vault_health_check,
}
use tsecret.Providers.Aws.{AwsProvider, new_aws_provider, aws_get_secret, aws_health_check}
use tsecret.Providers.Azure.{
  AzureProvider, new_azure_provider, azure_get_secret, azure_health_check,
}
use tsecret.Providers.Gcp.{GcpProvider, new_gcp_provider, gcp_get_secret, gcp_health_check}
use tsecret.Providers.Oracle.{
  OracleProvider, new_oracle_provider, oracle_get_secret, oracle_health_check,
}

-- The values of the interface Provider.
pub data Provider : Type 0 where
  vault : VaultProvider → Provider
  aws : AwsProvider → Provider
  azure : AzureProvider → Provider
  gcp : GcpProvider → Provider
  oracle : OracleProvider → Provider

-- A constructed provider as a value of the interface.
of_new {ℓ} : {A : Type ℓ} → (A → Provider) → Result A → Result Provider
of_new make (ok p) = ok (make p)
of_new make (err e) = err e

-- DefaultFactory.NewProvider
unfoldable pub new_provider : Environ → SecretStoreProvider → Result Provider
unfolding of_new
new_provider env config = elim config.vault [
  | some c ↦ of_new vault (new_vault_provider c)
  | none ↦ elim config.aws [
    | some c ↦ of_new aws (new_aws_provider env c)
    | none ↦ elim config.azure [
      | some c ↦ of_new azure (new_azure_provider c)
      | none ↦ elim config.gcp [
        | some c ↦ of_new gcp (new_gcp_provider c)
        | none ↦ elim config.oracle [
          | some c ↦ of_new oracle (new_oracle_provider c)
          | none ↦ err (errorf "no provider configured" [])
        ]
      ]
    ]
  ]
]

module _ {J : Type 0} (http : Http) (json : Json J) (env : Environ) where
  -- Provider.GetSecret, with the provider that the call leaves.
  unfoldable pub get_secret : Provider → Text → Text → Result Text × Provider
  get_secret (vault p) key property = (vault_get_secret http json p key property, vault p)
  get_secret (aws p) key property = (aws_get_secret http json env p key property, aws p)
  get_secret (azure p) key property =
      let (r, p') = azure_get_secret http json env p key property in (r, azure p')
  get_secret (gcp p) key property =
      let (r, p') = gcp_get_secret http json env p key property in (r, gcp p')
  get_secret (oracle p) key property = (oracle_get_secret http json env p key property, oracle p)

  -- Provider.HealthCheck, with the provider that the call leaves.
  unfoldable pub health_check : Provider → Result (Unit {0}) × Provider
  health_check (vault p) = (vault_health_check http p, vault p)
  health_check (aws p) = (aws_health_check http env p, aws p)
  health_check (azure p) = let (r, p') = azure_health_check http json env p in (r, azure p')
  health_check (gcp p) = let (r, p') = gcp_health_check http json env p in (r, gcp p')
  health_check (oracle p) = (oracle_health_check http env p, oracle p)

-- ConfigureVaultAuth, with its type assertion.
unfoldable pub configure_provider_auth :
    (NamespacedName → Result Secret) → Text → Provider → VaultAuth → Result Provider
unfolding of_new
configure_provider_auth read namespace (vault p) auth =
    of_new vault (configure_vault_auth read namespace p auth)
configure_provider_auth read namespace _ auth = err (errorf "provider is not a Vault provider" [])
