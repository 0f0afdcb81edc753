-- ===== src/Webhook/Plan.antt =====
-- collectInjections of pkg/webhook/mutate.go: the references of a pod to TSecrets become injection
-- plans, and are taken out of the pod. `has` tells whether getTSecret finds the TSecret of a name.
pub mod Planned
pub mod Grown
pub mod Complete
use tsecret.Common.{
  Bool, true, false, ◌&&◌, not, Option, none, some, List, [], ◌∷◌, ◌++◌, Text, codes, text_eq,
  has_prefix, is_empty, Map, lookup, insert, if◌then◌else◌,
}
use tsecret.Webhook.Types.{Volume, VolumeMount, EnvFromSource, EnvVar, EnvVarSource, Container, Pod}

abbrev pub tsecret_mount_root : Text
tsecret_mount_root = codes "/var/run/tsecret"

abbrev pub tsecret_init_prefix : Text
tsecret_init_prefix = codes "tsecret-init-"

abbrev pub memory : Text
memory = codes "Memory"

unfoldable pub tsecret_volume_name : Text → Text
tsecret_volume_name secret_name = codes "tsecret-" ++ secret_name

unfoldable pub tsecret_mount_path : Text → Text
tsecret_mount_path secret_name = tsecret_mount_root ++ codes "/" ++ secret_name

-- `containers` is the set of their names.
pub record TSecretInjection : Type 0 where
  pub secret_name : Text
  pub volume_name : Text
  pub mount_path : Text
  pub prefix : Text
  pub export_env : Bool
  pub containers : List Text

unfoldable pub elem : Text → List Text → Bool
elem x [] = false
elem x (y ∷ ys) = if text_eq y x then true else elem x ys

-- appendUnique; also how a name is put into a set.
unfoldable pub append_unique : List Text → Text → List Text
unfolding elem
append_unique items value = if elem value items then items else items ++ value ∷ []

-- The key of a plan: the two names with a zero byte between them.
unfoldable pub plan_key : Text → Text → Text
plan_key volume_name secret_name = volume_name ++ 0 ∷ secret_name

-- The plan of the map, or a fresh one.
find_or_make : Option TSecretInjection → Text → Text → Text → Text → TSecretInjection
find_or_make (some plan) volume_name secret_name mount_path prefix = plan
find_or_make none volume_name secret_name mount_path prefix = record {
  secret_name = secret_name;
  volume_name = volume_name;
  mount_path = mount_path;
  prefix = prefix;
  export_env = false;
  containers = [];
}

-- A prefix or a mount path fills an empty one.
fill_in : TSecretInjection → Text → Text → TSecretInjection
fill_in plan mount_path prefix = record plan {
  mount_path = if is_empty plan.mount_path then mount_path else plan.mount_path;
  prefix = if not (is_empty prefix) && is_empty plan.prefix then prefix else plan.prefix;
}

-- getPlan: the plan that the map holds after the call.
unfoldable pub get_plan : Map TSecretInjection → Text → Text → Text → Text → TSecretInjection
unfolding find_or_make fill_in
get_plan plans volume_name secret_name mount_path prefix =
    let key = plan_key volume_name secret_name in
    fill_in (find_or_make (lookup key plans) volume_name secret_name mount_path prefix) mount_path
      prefix

unfoldable pub add_container : TSecretInjection → Text → TSecretInjection
add_container plan name = record plan { containers = append_unique plan.containers name }

-- The path of the first mount of the volume that has one.
unfoldable pub first_mount : Text → List VolumeMount → Option Text
first_mount volume [] = none
first_mount volume (m ∷ ms) =
    if text_eq m.name volume && not (is_empty m.mount_path)
    then some m.mount_path
    else first_mount volume ms

or_path : Option Text → Text → Text
or_path none path = path
or_path (some p) path = p

-- The loop over the containers goes on after a mount is found: the last container decides.
unfoldable pub volume_mount_path : Text → List Container → Text → Text
unfolding or_path
volume_mount_path volume [] path = path
volume_mount_path volume (c ∷ cs) path =
    volume_mount_path volume cs (or_path (first_mount volume c.volume_mounts) path)

unfoldable pub mounts_volume : Text → List VolumeMount → Bool
mounts_volume volume [] = false
mounts_volume volume (m ∷ ms) = if text_eq m.name volume then true else mounts_volume volume ms

unfoldable pub add_mounting : Text → List Container → TSecretInjection → TSecretInjection
add_mounting volume [] plan = plan
add_mounting volume (c ∷ cs) plan =
    add_mounting volume cs
      (if mounts_volume volume c.volume_mounts then add_container plan c.name else plan)

unfoldable pub to_memory : Volume → Volume
to_memory v = record v { secret = none; empty_dir = some (record { medium = memory }) }

-- The secret that a variable refers to.
unfoldable pub source_secret : Option EnvVarSource → Option Text
source_secret none = none
source_secret (some s) = elim s.secret_key_ref [ none ↦ none | some ref ↦ some ref.name ]

module _ (has : Text → Bool) where
  -- The plan of a secret volume.
  unfoldable pub volume_plan :
      List Container → Volume → Text → Map TSecretInjection → Map TSecretInjection
  volume_plan containers v secret plans =
      let path = volume_mount_path v.name containers (tsecret_mount_path secret) in
      let plan = get_plan plans v.name secret path [] in
      insert (plan_key v.name secret) (add_mounting v.name containers plan) plans

  -- What becomes of a volume whose secret is given.
  unfoldable pub collect_volume :
      List Container → Volume → Option Text → Map TSecretInjection → Volume × Map TSecretInjection
  collect_volume containers v none plans = (v, plans)
  collect_volume containers v (some secret) plans =
      if has secret then (to_memory v, volume_plan containers v secret plans) else (v, plans)

  unfoldable pub collect_volumes :
      List Container → List Volume → Map TSecretInjection → List Volume × Map TSecretInjection
  unfolding collect_volume
  collect_volumes containers [] plans = ([], plans)
  collect_volumes containers (v ∷ vs) plans =
      let (v', plans') = collect_volume containers v v.secret plans in
      let (vs', plans'') = collect_volumes containers vs plans' in (v' ∷ vs', plans'')

  -- The plan of a reference from the environment of a container.
  unfoldable pub env_plan : Text → Text → Text → Map TSecretInjection → Map TSecretInjection
  env_plan container secret prefix plans =
      let volume = tsecret_volume_name secret in
      let plan = get_plan plans volume secret (tsecret_mount_path secret) prefix in
      insert (plan_key volume secret) (add_container plan container) plans

  -- The name that a reference stands for, if it is to be collected.
  unfoldable pub collected : Option Text → Option Text
  collected none = none
  collected (some secret) = if has secret then some secret else none

  unfoldable pub collect_env_from :
      Text → List EnvFromSource → Map TSecretInjection → List EnvFromSource × Map TSecretInjection
  collect_env_from container [] plans = ([], plans)
  collect_env_from container (e ∷ es) plans = elim (collected e.secret_ref) [
    | none ↦ let (es', plans') = collect_env_from container es plans in (e ∷ es', plans')
    | some secret ↦ collect_env_from container es (env_plan container secret e.prefix plans)
  ]

  unfoldable pub collect_env :
      Text → List EnvVar → Map TSecretInjection → List EnvVar × Map TSecretInjection
  collect_env container [] plans = ([], plans)
  collect_env container (e ∷ es) plans = elim (collected (source_secret e.value_from)) [
    | none ↦ let (es', plans') = collect_env container es plans in (e ∷ es', plans')
    | some secret ↦ collect_env container es (env_plan container secret [] plans)
  ]

  unfoldable pub collect_from_container :
      Container → Map TSecretInjection → Container × Map TSecretInjection
  collect_from_container c plans =
      let (env_from, plans') = collect_env_from c.name c.env_from plans in
      let (env, plans'') = collect_env c.name c.env plans' in
      (record c { env_from = env_from; env = env }, plans'')

  unfoldable pub collect_containers :
      List Container → Map TSecretInjection → List Container × Map TSecretInjection
  collect_containers [] plans = ([], plans)
  collect_containers (c ∷ cs) plans =
      let (c', plans') = collect_from_container c plans in
      let (cs', plans'') = collect_containers cs plans' in (c' ∷ cs', plans'')

  -- Init containers of an earlier injection are left alone.
  unfoldable pub collect_init_containers :
      List Container → Map TSecretInjection → List Container × Map TSecretInjection
  collect_init_containers [] plans = ([], plans)
  collect_init_containers (c ∷ cs) plans =
      let (c', plans') =
        if has_prefix c.name tsecret_init_prefix
        then (c, plans)
        else collect_from_container c plans in
      let (cs', plans'') = collect_init_containers cs plans' in (c' ∷ cs', plans'')

  unfoldable pub collect_injections : Pod → Pod × Map TSecretInjection
  collect_injections pod =
      let (volumes, plans) = collect_volumes pod.containers pod.volumes [] in
      let (containers, plans') = collect_containers pod.containers plans in
      let (init_containers, plans'') = collect_init_containers pod.init_containers plans' in
      (
        record pod {
          volumes = volumes;
          containers = containers;
          init_containers = init_containers;
        },
        plans'',
      )
