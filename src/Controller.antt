-- ===== src/Controller.antt =====
-- pkg/controller. The cluster is a world `W` with the operations of the client.
pub mod Conditions
pub mod Entries
pub mod Stores
pub mod Sync
pub mod World
pub mod Samples
use tsecret.Common.{ℕ, ◌*◌, Text, Result, ℤ, pos}
use tsecret.Api.{NamespacedName, TSecret, TSecretSync, TSecretStore, ClusterTSecretStore, Secret}

-- The client's calls. A call that writes returns the world that it leaves, whether it succeeds or
-- not.
pub record Client (W : Type 0) : Type 0 where
  pub get_tsecret : W → NamespacedName → Result TSecret
  pub get_sync : W → NamespacedName → Result TSecretSync
  pub get_store : W → NamespacedName → Result TSecretStore
  pub get_cluster_store : W → NamespacedName → Result ClusterTSecretStore
  pub get_secret : W → NamespacedName → Result Secret
  pub create_tsecret : TSecret → W → Result (Unit {0}) × W
  pub update_tsecret : TSecret → W → Result (Unit {0}) × W
  pub update_tsecret_status : TSecret → W → Result (Unit {0}) × W
  pub update_store_status : TSecretStore → W → Result (Unit {0}) × W
  pub update_sync_status : TSecretSync → W → Result (Unit {0}) × W

-- time.Duration, in nanoseconds.
abbrev pub Duration : Type 0
Duration = ℤ

abbrev pub seconds : ℕ → Duration
seconds n = pos (n * 1000000000)
