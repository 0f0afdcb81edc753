-- ===== src/Webhook/Clean.antt =====
-- References to TSecrets in a pod, those aside that collectInjections leaves alone: the sources of
-- projected volumes, and init containers with the injector's prefix.
pub mod Collect
pub mod Change
pub mod Keeps
use tsecret.Common.{
  Bool, true, false, Option, none, some, List, [], ◌∷◌, ◌≡◌, ◌⊎◌, Text, All, has_prefix,
}
use tsecret.Webhook.Types.{Volume, EnvFromSource, EnvVar, Container, Pod}
use tsecret.Webhook.Plan.{source_secret, tsecret_init_prefix}

-- The name that is given, if one is, is not the name of a TSecret.
abbrev pub Unclaimed : (Text → Bool) → Option Text → Type 0
Unclaimed has none = Unit
Unclaimed has (some secret) = has secret ≡ false

abbrev pub IsCleanVolume : (Text → Bool) → Volume → Type 0
IsCleanVolume has v = Unclaimed has v.secret

abbrev pub IsCleanEnvFrom : (Text → Bool) → EnvFromSource → Type 0
IsCleanEnvFrom has e = Unclaimed has e.secret_ref

abbrev pub IsCleanEnv : (Text → Bool) → EnvVar → Type 0
IsCleanEnv has e = Unclaimed has (source_secret e.value_from)

pub record IsCleanContainer (has : Text → Bool) (c : Container) : Type 0 where
  pub env_from : All (IsCleanEnvFrom has) c.env_from
  pub env : All (IsCleanEnv has) c.env

-- An init container with the injector's prefix, whoever wrote it, may hold references.
abbrev pub IsCleanInit : (Text → Bool) → Container → Type 0
IsCleanInit has c = (has_prefix c.name tsecret_init_prefix ≡ true) ⊎ IsCleanContainer has c

pub record IsClean (has : Text → Bool) (pod : Pod) : Type 0 where
  pub volumes : All (IsCleanVolume has) pod.volumes
  pub containers : All (IsCleanContainer has) pod.containers
  pub init_containers : All (IsCleanInit has) pod.init_containers
