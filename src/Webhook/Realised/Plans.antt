-- ===== src/Webhook/Realised/Plans.antt =====
-- What the first loop of the handler leaves for each plan.
use tsecret.Common.{
  true, List, [], ◌∷◌, ◌++◌, Text, Map, All, All-map, Reorder, Reorder-symm, All-Reorder, ◌≡◌, refl,
  Bool-cases, inl, inr, subst,
}
use tsecret.Webhook.Types.{Pod}
use tsecret.Webhook.Plan.{TSecretInjection, tsecret_init_prefix}
use tsecret.Webhook.Patch.{
  ensure_pod_fs_group, has_volume, ensure_memory_volume, has_container, init_name,
  ensure_runtime_init_container,
}
use tsecret.Webhook.Entrypoint.{export_env_enabled}
use tsecret.Webhook.Realised.{Grows, Grows-refl, Grows-trans, Mounts-Grows}
use tsecret.Webhook.Realised.Adds.{
  ensure_pod_fs_group-Grows, ensure_memory_volume-Grows, ensure_memory_volume-has, init-Grows,
  init-has,
}
use tsecret.Webhook.{Ranging, export_containers, mount_containers, inject_plan, inject_plans}
use tsecret.Webhook.Realised.Mounting.{Served, mount_containers-Grows, mount_containers-Served}

-- The volume of a plan and its init container are there, and every container of the plan that the
-- pod had mounts the volume.
pub record Realised (before pod : Pod) (plan : TSecretInjection) : Type 0 where
  pub volume : has_volume plan.volume_name pod.volumes ≡ true
  pub init : has_container (init_name plan) pod.init_containers ≡ true
  pub mounts : All (Served before pod plan.volume_name) plan.containers

pub Realised-Grows :
    (before pod pod' : Pod) (plan : TSecretInjection)
    → Grows pod pod'
    → Realised before pod plan
    → Realised before pod' plan
Realised-Grows before pod pod' plan g r = record {
  volume = g.volumes plan.volume_name r.volume;
  init = g.inits (init_name plan) r.init;
  mounts =
      All-map (Served before pod plan.volume_name) (Served before pod' plan.volume_name)
        (λ name m. elim m [
          | inl missing ↦ inl missing
          | inr there ↦ inr (Mounts-Grows pod pod' plan.volume_name name g there)
        ])
        plan.containers r.mounts;
}

-- The export of a plan changes nothing but its flag.
export-volume :
    (pod : Pod) (names : List Text) (plan : TSecretInjection) (exports : Map (List Text))
    → ((export_containers pod names plan exports).0.volume_name ≡ plan.volume_name)
unfolding export_containers
export-volume pod [] plan exports = refl
export-volume pod (name ∷ names) plan exports = elim (Bool-cases (export_env_enabled pod name)) [
  | inl e ↦ rw (e, export_containers) (export-volume pod names _ _)
  | inr e ↦ rw (e, export_containers) (export-volume pod names plan exports)
]

module _ (r : Ranging) (image namespace : Text) where
  plan-Grows :
      (plan : TSecretInjection) (pod : Pod) (exports : Map (List Text))
      → Grows pod (inject_plan r image namespace plan pod exports).0
  unfolding inject_plan
  plan-Grows plan pod exports =
      let pod1 = ensure_memory_volume (ensure_pod_fs_group pod) plan.volume_name in
      let plan' = (export_containers pod1 (r.export_loop plan) plan exports).0 in
      let pod2 = ensure_runtime_init_container pod1 plan' image namespace in
      Grows-trans pod pod1 _
        (Grows-trans pod (ensure_pod_fs_group pod) pod1 (ensure_pod_fs_group-Grows pod)
          (ensure_memory_volume-Grows (ensure_pod_fs_group pod) plan.volume_name))
        (Grows-trans pod1 pod2 _ (init-Grows pod1 plan' image namespace)
          (mount_containers-Grows (r.mount_loop plan) plan' pod2))

  plan-Realised :
      (before pod : Pod) (plan : TSecretInjection) (exports : Map (List Text))
      → Grows before pod
      → Reorder plan.containers (r.mount_loop plan)
      → Realised before (inject_plan r image namespace plan pod exports).0 plan
  unfolding inject_plan init_name
  plan-Realised before pod plan exports g order =
      let pod1 = ensure_memory_volume (ensure_pod_fs_group pod) plan.volume_name in
      let plan' = (export_containers pod1 (r.export_loop plan) plan exports).0 in
      let pod2 = ensure_runtime_init_container pod1 plan' image namespace in
      let pod3 = mount_containers (r.mount_loop plan) plan' pod2 in
      let same : plan'.volume_name ≡ plan.volume_name =
        export-volume pod1 (r.export_loop plan) plan exports in
      let late = mount_containers-Grows (r.mount_loop plan) plan' pod2 in
      let inits = init-Grows pod1 plan' image namespace in
      let early = Grows-trans before pod pod1 g (
        Grows-trans pod (ensure_pod_fs_group pod) pod1 (ensure_pod_fs_group-Grows pod)
          (ensure_memory_volume-Grows (ensure_pod_fs_group pod) plan.volume_name)) in
      record {
        volume = late.volumes plan.volume_name (
            inits.volumes plan.volume_name
              (ensure_memory_volume-has (ensure_pod_fs_group pod) plan.volume_name));
        init =
            subst (λ v. has_container (tsecret_init_prefix ++ v) pod3.init_containers ≡ true) same
              (late.inits (init_name plan') (init-has pod1 plan' image namespace));
        mounts = All-Reorder (Served before pod3 plan.volume_name) (Reorder-symm order) (
            subst (λ v. All (Served before pod3 v) (r.mount_loop plan)) same
              (mount_containers-Served (r.mount_loop plan) plan' before pod2
                (Grows-trans before pod1 pod2 early inits)));
      }

  plans-Grows :
      (plans : List TSecretInjection) (pod : Pod) (exports : Map (List Text))
      → Grows pod (inject_plans r image namespace plans pod exports).0
  unfolding inject_plans
  plans-Grows [] pod exports = Grows-refl pod
  plans-Grows (plan ∷ plans) pod exports =
      Grows-trans pod (inject_plan r image namespace plan pod exports).0 _
        (plan-Grows plan pod exports) (plans-Grows plans _ _)

  pub plans-Realised :
      (before : Pod) (plans : List TSecretInjection) (pod : Pod) (exports : Map (List Text))
      → Grows before pod
      → ((plan : TSecretInjection) → Reorder plan.containers (r.mount_loop plan))
      → All (Realised before (inject_plans r image namespace plans pod exports).0) plans
  unfolding inject_plans
  plans-Realised before [] pod exports g orders = tt
  plans-Realised before (plan ∷ plans) pod exports g orders =
      let next = inject_plan r image namespace plan pod exports in
      (
        Realised-Grows before next.0 _ plan (plans-Grows plans next.0 next.1)
            (plan-Realised before pod plan exports g (orders plan)),
        plans-Realised before plans next.0 next.1
            (Grows-trans before pod next.0 g (plan-Grows plan pod exports)) orders,
      )
