-- ===== src/Webhook/Types.antt =====
-- The fields of the Kubernetes pod types that pkg/webhook/mutate.go reads or writes.
use tsecret.Common.{ℕ, Bool, Option, List, Text, Map}

pub record EmptyDir : Type 0 where
  pub medium : Text

-- `secret` is the SecretName of a secret volume, `projected` the names of the secrets among the
-- sources of a projected one.
pub record Volume : Type 0 where
  pub name : Text
  pub secret : Option Text
  pub projected : List Text
  pub empty_dir : Option EmptyDir

pub record VolumeMount : Type 0 where
  pub name : Text
  pub mount_path : Text
  pub read_only : Bool

-- `secret_ref` and `config_map_ref` are names of objects.
pub record EnvFromSource : Type 0 where
  pub prefix : Text
  pub config_map_ref : Option Text
  pub secret_ref : Option Text

pub record KeySelector : Type 0 where
  pub name : Text
  pub key : Text

pub record EnvVarSource : Type 0 where
  pub config_map_key_ref : Option KeySelector
  pub secret_key_ref : Option KeySelector

pub record EnvVar : Type 0 where
  pub name : Text
  pub value : Text
  pub value_from : Option EnvVarSource

pub record SecurityContext : Type 0 where
  pub allow_privilege_escalation : Option Bool
  pub read_only_root_filesystem : Option Bool
  pub run_as_non_root : Option Bool
  pub capabilities_drop : List Text

pub record Container : Type 0 where
  pub name : Text
  pub image : Text
  pub command : List Text
  pub args : List Text
  pub image_pull_policy : Text
  pub env_from : List EnvFromSource
  pub env : List EnvVar
  pub volume_mounts : List VolumeMount
  pub security_context : Option SecurityContext

pub record PodSecurityContext : Type 0 where
  pub fs_group : Option ℕ

-- A pod with the fields of its spec; `annotations` that are nil are the empty map.
pub record Pod : Type 0 where
  pub name : Text
  pub annotations : Map Text
  pub volumes : List Volume
  pub containers : List Container
  pub init_containers : List Container
  pub security_context : Option PodSecurityContext
