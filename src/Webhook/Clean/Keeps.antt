-- ===== src/Webhook/Clean/Keeps.antt =====
-- The rest of the handler brings no reference back, so that a mutated pod is left alone when it is
-- admitted again.
use tsecret.Common.{
  Bool, List, [], ◌∷◌, ◌≡◌, inl, inr, Text, Map, Option-cases, Result-cases, Result, ok, err, subst,
  List-cases,
}
use tsecret.Webhook.Types.{Pod}
use tsecret.Webhook.Plan.{TSecretInjection, collect_injections}
use tsecret.Webhook.Entrypoint.{resolve_entrypoint}
use tsecret.Webhook.Patch.{find_container}
use tsecret.Webhook.{
  Ranging, mount_containers, inject_plan, inject_plans, wrap_containers, untouched, mutated,
  of_result, mutate,
}
use tsecret.Webhook.Clean.{IsClean}
use tsecret.Webhook.Clean.Collect.{collect_injections-IsClean, collect_injections-fixed}
use tsecret.Webhook.Clean.Change.{
  ensure_volume_mount-IsApart, wrap-IsApart, change_container-IsClean, ensure_pod_fs_group-IsClean,
  ensure_memory_volume-IsClean, init-IsClean,
}

module _ (has : Text → Bool) where
  mount_containers-IsClean :
      (names : List Text) (plan : TSecretInjection) (pod : Pod)
      → IsClean has pod
      → IsClean has (mount_containers names plan pod)
  unfolding mount_containers
  mount_containers-IsClean [] plan pod h = h
  mount_containers-IsClean (name ∷ names) plan pod h = mount_containers-IsClean names plan _ (
      change_container-IsClean has _ (ensure_volume_mount-IsApart plan.volume_name plan.mount_path)
        name pod h)

  inject_plans-IsClean :
      (r : Ranging) (image namespace : Text) (plans : List TSecretInjection) (pod : Pod)
      (exports : Map (List Text))
      → IsClean has pod
      → IsClean has (inject_plans r image namespace plans pod exports).0
  unfolding inject_plans inject_plan
  inject_plans-IsClean r image namespace [] pod exports h = h
  inject_plans-IsClean r image namespace (plan ∷ plans) pod exports h =
      inject_plans-IsClean r image namespace plans _ _ (
        mount_containers-IsClean (r.mount_loop plan) _ _ (
          init-IsClean has _ _ image namespace (
            ensure_memory_volume-IsClean has _ plan.volume_name
              (ensure_pod_fs_group-IsClean has pod h))))

  wrap_containers-IsClean :
      (exports : List (Text × List Text)) (pod pod' : Pod)
      → IsClean has pod
      → wrap_containers exports pod ≡ ok pod'
      → IsClean has pod'
  unfolding wrap_containers
  wrap_containers-IsClean [] pod pod' h e =
      let same : pod ≡ pod' = cc e in subst (IsClean has) same h
  wrap_containers-IsClean ((name, loaders) ∷ rest) pod pod' h e =
      elim (Option-cases (find_container pod name)) [
        | inl k ↦ wrap_containers-IsClean rest pod pod' h (cc (e, k))
        | inr (c, k) ↦ elim (Result-cases (resolve_entrypoint pod c)) [
          | inr (m, q) ↦ cc (e, k, q)
          | inl (entrypoint, q) ↦
              wrap_containers-IsClean rest _ pod'
                (change_container-IsClean has _ (wrap-IsApart loaders entrypoint) name pod h)
                (cc (e, k, q))
        ]
      ]

  pub of_result_mutated : (o : Result Pod) (pod : Pod) → of_result o ≡ mutated pod → o ≡ ok pod
  unfolding of_result
  of_result_mutated (ok a) pod h = cc
  of_result_mutated (err e) pod h = cc

  -- A mutated pod has no secret volume of a TSecret, and no reference to one in the environment of a
  -- container, or of an init container whose name has not the prefix tsecret-init-. Init containers
  -- with that prefix, whoever wrote them, and the sources of projected volumes may hold references.
  pub mutate-IsClean :
      (r : Ranging) (image namespace : Text) (pod pod' : Pod)
      → mutate has r image namespace pod ≡ mutated pod'
      → IsClean has pod'
  unfolding mutate
  mutate-IsClean r image namespace pod pod' h =
      let (swept, plans) = collect_injections has pod in
      elim (List-cases (collect_injections has pod).1) [
        | inl k ↦ cc (h, k)
        | inr (p, ps, k) ↦
            let injected = inject_plans r image namespace (r.plans (p ∷ ps)) swept [] in
            let wrapped : wrap_containers (r.exports injected.1) injected.0 ≡ ok pod' =
              of_result_mutated _ pod' (cc (h, k)) in
            wrap_containers-IsClean (r.exports injected.1) injected.0 pod'
              (inject_plans-IsClean r image namespace (r.plans (p ∷ ps)) swept []
                (collect_injections-IsClean has pod))
              wrapped
      ]

  -- The handler is idempotent: a pod that it has mutated is left untouched when it is admitted
  -- again, under any namespace, image and iteration order, as long as the same TSecrets are found.
  pub mutate_twice :
      (r r' : Ranging) (image image' namespace namespace' : Text) (pod pod' : Pod)
      → mutate has r image namespace pod ≡ mutated pod'
      → mutate has r' image' namespace' pod' ≡ untouched
  unfolding mutate
  mutate_twice r r' image image' namespace namespace' pod pod' h =
      rw (collect_injections-fixed has pod' (mutate-IsClean r image namespace pod pod' h), mutate)
