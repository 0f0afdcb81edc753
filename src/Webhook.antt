-- ===== src/Webhook.antt =====
-- pkg/webhook/mutate.go: the admission handler. The iteration order over Go maps is a parameter, as
-- are the decoder, the client and the JSON encoder.
pub mod Types
pub mod Plan
pub mod Shell
pub mod Entrypoint
pub mod Patch
pub mod Realised
pub mod Clean
pub mod Samples
use tsecret.Common.{
  ℕ, Bool, true, false, Option, none, some, List, [], ◌∷◌, ◌++◌, Text, Bytes, codes, is_empty, Map,
  lookup, insert, Message, Result, ok, err, wrapf, is_ok, if◌then◌else◌, map,
}
use tsecret.Api.{NamespacedName, TSecret}
use tsecret.Webhook.Types.{Pod, Container}
use tsecret.Webhook.Plan.{TSecretInjection, append_unique, collect_injections}
use tsecret.Webhook.Entrypoint.{
  export_env_enabled, resolve_entrypoint, wrap_container_for_env_loader, load_env,
}
use tsecret.Webhook.Patch.{
  ensure_pod_fs_group, ensure_memory_volume, ensure_runtime_init_container, ensure_volume_mount,
  find_container, change_container,
}

abbrev pub default_injector_image : Text
default_injector_image = codes "tsecret:latest"

-- The order in which Go visits the plans, the containers of a plan (in either loop over them) and
-- the containers with an export plan.
pub record Ranging : Type 0 where
  pub plans : Map TSecretInjection → List TSecretInjection
  pub export_loop : TSecretInjection → List Text
  pub mount_loop : TSecretInjection → List Text
  pub exports : Map (List Text) → List (Text × List Text)

-- One round of the first loop over the containers of a plan: the loaders of a container.
add_loader : Map (List Text) → Text → Text → Map (List Text)
add_loader exports container loader = elim (lookup container exports) [
  | none ↦ insert container (loader ∷ []) exports
  | some loaders ↦ insert container (append_unique loaders loader) exports
]

unfoldable pub loader_path : TSecretInjection → Text
loader_path plan = plan.mount_path ++ codes "/load-env.sh"

unfoldable pub export_containers :
    Pod → List Text → TSecretInjection → Map (List Text) → TSecretInjection × Map (List Text)
unfolding add_loader
export_containers pod [] plan exports = (plan, exports)
export_containers pod (name ∷ names) plan exports =
    let (plan', exports') =
      if export_env_enabled pod name
      then (record plan { export_env = true }, add_loader exports name (loader_path plan))
      else (plan, exports) in
    export_containers pod names plan' exports'

unfoldable pub mount_containers : List Text → TSecretInjection → Pod → Pod
mount_containers [] plan pod = pod
mount_containers (name ∷ names) plan pod =
    mount_containers names plan
      (change_container (ensure_volume_mount plan.volume_name plan.mount_path) name pod)

module _ (r : Ranging) (image namespace : Text) where
  -- The body of the loop over the plans.
  unfoldable pub inject_plan : TSecretInjection → Pod → Map (List Text) → Pod × Map (List Text)
  inject_plan plan pod exports =
      let pod1 = ensure_memory_volume (ensure_pod_fs_group pod) plan.volume_name in
      let (plan', exports') = export_containers pod1 (r.export_loop plan) plan exports in
      let pod2 = ensure_runtime_init_container pod1 plan' image namespace in
      (mount_containers (r.mount_loop plan) plan' pod2, exports')

  unfoldable pub inject_plans :
      List TSecretInjection → Pod → Map (List Text) → Pod × Map (List Text)
  inject_plans [] pod exports = (pod, exports)
  inject_plans (plan ∷ plans) pod exports =
      let (pod', exports') = inject_plan plan pod exports in inject_plans plans pod' exports'

unfoldable pub wrap_containers : List (Text × List Text) → Pod → Result Pod
wrap_containers [] pod = ok pod
wrap_containers ((name, loaders) ∷ rest) pod = elim (find_container pod name) [
  | none ↦ wrap_containers rest pod
  | some c ↦ elim (resolve_entrypoint pod c) [
    | err e ↦ err e
    | ok entrypoint ↦
        wrap_containers rest
          (change_container (λ d. wrap_container_for_env_loader d loaders entrypoint) name pod)
  ]
]

-- What the handler makes of a pod.
pub data Mutation : Type 0 where
  untouched : Mutation
  denied : Message → Mutation
  mutated : Pod → Mutation

pub of_result : Result Pod → Mutation
of_result (ok pod) = mutated pod
of_result (err e) = denied e

unfoldable pub mutate : (Text → Bool) → Ranging → Text → Text → Pod → Mutation
unfolding of_result
mutate has r image namespace pod =
    let (pod', plans) = collect_injections has pod in
    elim plans [
      | [] ↦ untouched
      | p ∷ ps ↦
          let (pod'', exports) = inject_plans r image namespace (r.plans (p ∷ ps)) pod' [] in
          of_result (wrap_containers (r.exports exports) pod'')
    ]

pub record Request : Type 0 where
  pub namespace : Text
  pub raw : Bytes

pub data Response : Type 0 where
  errored : ℕ → Message → Response
  allowed : Response
  denied : Message → Response
  patch_from_raw : Bytes → Bytes → Response

pub record TSecretInjector : Type 0 where
  pub get : NamespacedName → Result TSecret
  pub decode : Request → Result Pod
  pub marshal : Pod → Result Bytes
  pub injector_image : Text
  pub ranging : Ranging

-- getTSecret, of which callers look only at the error.
unfoldable pub has_tsecret : TSecretInjector → Text → Text → Bool
has_tsecret i namespace name = is_ok (i.get (record { namespace = namespace; name = name }))

respond : TSecretInjector → Request → Mutation → Response
respond i req untouched = allowed
respond i req (Mutation.denied e) = Response.denied e
respond i req (mutated pod) = elim (i.marshal pod) [
  | ok marshaled ↦ patch_from_raw req.raw marshaled
  | err e ↦ errored 500 (wrapf "failed to marshal modified pod: %w" [] e)
]

unfoldable pub handle : TSecretInjector → Request → Response
unfolding respond
handle i req = elim (i.decode req) [
  | err e ↦ errored 400 (wrapf "failed to decode pod: %w" [] e)
  | ok pod ↦
      let image = if is_empty i.injector_image then default_injector_image else i.injector_image in
      respond i req (mutate (has_tsecret i req.namespace) i.ranging image req.namespace pod)
]
