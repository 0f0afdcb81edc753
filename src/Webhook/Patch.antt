-- ===== src/Webhook/Patch.antt =====
-- The functions of pkg/webhook/mutate.go that change a pod: ensurePodFSGroup, ensureMemoryVolume,
-- ensureRuntimeInitContainer, ensureVolumeMount, and findContainer.
use tsecret.Common.{
  Bool, true, false, Option, none, some, List, [], ◌∷◌, ◌++◌, Text, codes, text_eq, is_empty,
  if◌then◌else◌,
}
use tsecret.Webhook.Types.{Pod, PodSecurityContext, Volume, Container}
use tsecret.Webhook.Plan.{TSecretInjection, tsecret_init_prefix, memory, mounts_volume}

or_group : Option PodSecurityContext → PodSecurityContext
or_group none = record { fs_group = some 65532 }
or_group (some s) = elim s.fs_group [
  | none ↦ record { fs_group = some 65532 }
  | some group ↦ record { fs_group = some group }
]

unfoldable pub ensure_pod_fs_group : Pod → Pod
unfolding or_group
ensure_pod_fs_group pod = record pod { security_context = some (or_group pod.security_context) }

unfoldable pub has_volume : Text → List Volume → Bool
has_volume name [] = false
has_volume name (v ∷ vs) = if text_eq v.name name then true else has_volume name vs

unfoldable pub ensure_memory_volume : Pod → Text → Pod
ensure_memory_volume pod name = if has_volume name pod.volumes then pod else record pod {
  volumes =
      pod.volumes
      ++ record {
        name = name;
        secret = none;
        projected = [];
        empty_dir = some (record { medium = memory });
      }
        ∷ [];
}

unfoldable pub has_container : Text → List Container → Bool
has_container name [] = false
has_container name (c ∷ cs) = if text_eq c.name name then true else has_container name cs

unfoldable pub init_name : TSecretInjection → Text
init_name plan = tsecret_init_prefix ++ plan.volume_name

unfoldable pub prefix_args : Text → List Text
prefix_args prefix = if is_empty prefix then [] else (codes "--prefix=" ++ prefix) ∷ []

unfoldable pub export_args : Bool → List Text
export_args export_env = if export_env then codes "--export-env" ∷ [] else []

unfoldable pub injector_args : TSecretInjection → Text → List Text
unfolding prefix_args export_args
injector_args plan namespace =
    (codes "--secret=" ++ plan.secret_name)
    ∷ (codes "--mount=" ++ plan.mount_path)
    ∷ (codes "--namespace=" ++ namespace)
    ∷ (prefix_args plan.prefix ++ export_args plan.export_env)

unfoldable pub injector : TSecretInjection → Text → Text → Container
unfolding injector_args init_name
injector plan image namespace = record {
  name = init_name plan;
  image = image;
  command = codes "/tsecret-inject" ∷ [];
  args = injector_args plan namespace;
  image_pull_policy = codes "IfNotPresent";
  env_from = [];
  env = [];
  volume_mounts =
      record { name = plan.volume_name; mount_path = plan.mount_path; read_only = false } ∷ [];
  security_context = some (record {
    allow_privilege_escalation = some false;
    read_only_root_filesystem = some true;
    run_as_non_root = some true;
    capabilities_drop = codes "ALL" ∷ [];
  });
}

unfoldable pub ensure_runtime_init_container : Pod → TSecretInjection → Text → Text → Pod
ensure_runtime_init_container pod plan image namespace =
    if has_container (init_name plan) pod.init_containers
    then pod
    else record pod { init_containers = pod.init_containers ++ injector plan image namespace ∷ [] }

unfoldable pub ensure_volume_mount : Text → Text → Container → Container
ensure_volume_mount volume path c = if mounts_volume volume c.volume_mounts then c else record c {
  volume_mounts =
      c.volume_mounts ++ record { name = volume; mount_path = path; read_only = true } ∷ [];
}

unfoldable pub first_container : Text → List Container → Option Container
first_container name [] = none
first_container name (c ∷ cs) = if text_eq c.name name then some c else first_container name cs

unfoldable pub find_container : Pod → Text → Option Container
find_container pod name = elim (first_container name pod.containers) [
  | some c ↦ some c
  | none ↦ first_container name pod.init_containers
]

-- A change through the pointer that findContainer returns: to the first container of the name.
unfoldable pub change_first : (Container → Container) → Text → List Container → List Container
change_first f name [] = []
change_first f name (c ∷ cs) =
    let rest = change_first f name cs in if text_eq c.name name then f c ∷ cs else c ∷ rest

unfoldable pub change_container : (Container → Container) → Text → Pod → Pod
change_container f name pod =
    if has_container name pod.containers
    then record pod { containers = change_first f name pod.containers }
    else record pod { init_containers = change_first f name pod.init_containers }
