-- ===== src/Webhook/Plan/Complete.antt =====
-- No reference that collectInjections looks for is missed.
use tsecret.Common.{
  Bool, true, false, Option, some, List, [], ◌∷◌, Text, Map, In, has_prefix, ◌≡◌, refl, inl, inr,
  Bool-cases, Option-cases,
}
use tsecret.Webhook.Types.{Volume, EnvFromSource, EnvVar, Container, Pod}
use tsecret.Webhook.Plan.{
  TSecretInjection, tsecret_init_prefix, tsecret_volume_name, plan_key, mounts_volume,
  source_secret, collect_volume, collect_volumes, env_plan, collected, collect_env_from,
  collect_env, collect_from_container, collect_containers, collect_init_containers,
  collect_injections,
}
use tsecret.Webhook.Plan.Planned.{
  Planned, env_plan-Planned, volume_plan-Planned, collect_env_from-Grows, collect_env-Grows,
}
use tsecret.Webhook.Plan.Grown.{
  collect_containers-Grows, collect_init_containers-Grows, collect_volumes-Grows,
}

-- The references to TSecrets of a pod that collectInjections looks for, with the key of the plan
-- and the container that they ask for: a main container that mounts a secret volume, and the
-- environment of a main container, or of an init container without the injector's prefix.
pub data RefersTo (has : Text → Bool) (pod : Pod) : Text → Text → Type 0 where
  by_volume :
      (v : Volume) (secret : Text) (c : Container)
      → In v pod.volumes
      → v.secret ≡ some secret
      → has secret ≡ true
      → In c pod.containers
      → mounts_volume v.name c.volume_mounts ≡ true
      → RefersTo has pod (plan_key v.name secret) c.name
  by_env_from :
      (c : Container) (e : EnvFromSource) (secret : Text)
      → In c pod.containers
      → In e c.env_from
      → e.secret_ref ≡ some secret
      → has secret ≡ true
      → RefersTo has pod (plan_key (tsecret_volume_name secret) secret) c.name
  by_env :
      (c : Container) (e : EnvVar) (secret : Text)
      → In c pod.containers
      → In e c.env
      → source_secret e.value_from ≡ some secret
      → has secret ≡ true
      → RefersTo has pod (plan_key (tsecret_volume_name secret) secret) c.name
  by_init_env_from :
      (c : Container) (e : EnvFromSource) (secret : Text)
      → In c pod.init_containers
      → has_prefix c.name tsecret_init_prefix ≡ false
      → In e c.env_from
      → e.secret_ref ≡ some secret
      → has secret ≡ true
      → RefersTo has pod (plan_key (tsecret_volume_name secret) secret) c.name
  by_init_env :
      (c : Container) (e : EnvVar) (secret : Text)
      → In c pod.init_containers
      → has_prefix c.name tsecret_init_prefix ≡ false
      → In e c.env
      → source_secret e.value_from ≡ some secret
      → has secret ≡ true
      → RefersTo has pod (plan_key (tsecret_volume_name secret) secret) c.name

module _ (has : Text → Bool) where
  collected-some :
      (o : Option Text) (secret : Text)
      → o ≡ some secret
      → has secret ≡ true
      → collected has o ≡ some secret
  unfolding collected
  collected-some o secret e h = rw e (rw h refl)

  collect_env_from-Planned :
      (container : Text) (es : List EnvFromSource) (plans : Map TSecretInjection)
      (e : EnvFromSource) (secret : Text)
      → In e es
      → collected has e.secret_ref ≡ some secret
      → Planned
          (plan_key (tsecret_volume_name secret) secret)
          container
          (collect_env_from has container es plans).1
  unfolding collect_env_from
  collect_env_from-Planned container [] plans e secret member h = absurd member
  collect_env_from-Planned container (d ∷ es) plans e secret (inl same) h =
      let here : collected has d.secret_ref ≡ some secret = rw same h in
      rw (here, collect_env_from)
        (collect_env_from-Grows has container es (env_plan has container secret d.prefix plans)
          (plan_key (tsecret_volume_name secret) secret) container
          (env_plan-Planned has container secret d.prefix plans))
  collect_env_from-Planned container (d ∷ es) plans e secret (inr member) h =
      elim (Option-cases (collected has d.secret_ref)) [
        | inl k ↦
            rw (k, collect_env_from) (collect_env_from-Planned container es plans e secret member h)
        | inr (other, k) ↦
            rw (k, collect_env_from)
              (collect_env_from-Planned container es (env_plan has container other d.prefix plans) e
                secret member h)
      ]

  collect_env-Planned :
      (container : Text) (es : List EnvVar) (plans : Map TSecretInjection) (e : EnvVar)
      (secret : Text)
      → In e es
      → collected has (source_secret e.value_from) ≡ some secret
      → Planned
          (plan_key (tsecret_volume_name secret) secret)
          container
          (collect_env has container es plans).1
  unfolding collect_env
  collect_env-Planned container [] plans e secret member h = absurd member
  collect_env-Planned container (d ∷ es) plans e secret (inl same) h =
      let here : collected has (source_secret d.value_from) ≡ some secret = rw same h in
      rw (here, collect_env)
        (collect_env-Grows has container es (env_plan has container secret [] plans)
          (plan_key (tsecret_volume_name secret) secret) container
          (env_plan-Planned has container secret [] plans))
  collect_env-Planned container (d ∷ es) plans e secret (inr member) h =
      elim (Option-cases (collected has (source_secret d.value_from))) [
        | inl k ↦ rw (k, collect_env) (collect_env-Planned container es plans e secret member h)
        | inr (other, k) ↦
            rw (k, collect_env)
              (collect_env-Planned container es (env_plan has container other [] plans) e secret
                member h)
      ]

  -- What a container's references make of the plans stays, whatever containers follow.
  collect_containers_at :
      (cs : List Container) (plans : Map TSecretInjection) (c : Container) (key : Text)
      → In c cs
      → ((before : Map TSecretInjection)
          → Planned key c.name (collect_from_container has c before).1)
      → Planned key c.name (collect_containers has cs plans).1
  unfolding collect_containers
  collect_containers_at [] plans c key member made = absurd member
  collect_containers_at (d ∷ cs) plans c key (inl same) made =
      collect_containers-Grows has cs (collect_from_container has d plans).1 key c.name
        (rw same (made plans))
  collect_containers_at (d ∷ cs) plans c key (inr member) made =
      collect_containers_at cs (collect_from_container has d plans).1 c key member made

  collect_init_containers_at :
      (cs : List Container) (plans : Map TSecretInjection) (c : Container) (key : Text)
      → In c cs
      → has_prefix c.name tsecret_init_prefix ≡ false
      → ((before : Map TSecretInjection)
          → Planned key c.name (collect_from_container has c before).1)
      → Planned key c.name (collect_init_containers has cs plans).1
  unfolding collect_init_containers
  collect_init_containers_at [] plans c key member own made = absurd member
  collect_init_containers_at (d ∷ cs) plans c key (inl same) own made =
      let own' : has_prefix d.name tsecret_init_prefix ≡ false = rw same own in
      rw (own', collect_init_containers)
        (collect_init_containers-Grows has cs (collect_from_container has d plans).1 key c.name
          (rw same (made plans)))
  collect_init_containers_at (d ∷ cs) plans c key (inr member) own made =
      elim (Bool-cases (has_prefix d.name tsecret_init_prefix)) [
        | inl k ↦
            rw (k, collect_init_containers)
              (collect_init_containers_at cs plans c key member own made)
        | inr k ↦
            rw (k, collect_init_containers)
              (collect_init_containers_at cs (collect_from_container has d plans).1 c key member own
                made)
      ]

  -- The plan of a reference in the environment of a container.
  env_from-Planned :
      (c : Container) (e : EnvFromSource) (secret : Text) (plans : Map TSecretInjection)
      → In e c.env_from
      → e.secret_ref ≡ some secret
      → has secret ≡ true
      → Planned
          (plan_key (tsecret_volume_name secret) secret)
          c.name
          (collect_from_container has c plans).1
  unfolding collect_from_container
  env_from-Planned c e secret plans there is_secret h =
      collect_env-Grows has c.name c.env (collect_env_from has c.name c.env_from plans).1
        (plan_key (tsecret_volume_name secret) secret) c.name
        (collect_env_from-Planned c.name c.env_from plans e secret there
          (collected-some e.secret_ref secret is_secret h))

  env-Planned :
      (c : Container) (e : EnvVar) (secret : Text) (plans : Map TSecretInjection)
      → In e c.env
      → source_secret e.value_from ≡ some secret
      → has secret ≡ true
      → Planned
          (plan_key (tsecret_volume_name secret) secret)
          c.name
          (collect_from_container has c plans).1
  unfolding collect_from_container
  env-Planned c e secret plans there is_secret h =
      collect_env-Planned c.name c.env (collect_env_from has c.name c.env_from plans).1 e secret
        there (collected-some (source_secret e.value_from) secret is_secret h)

  collect_volume-Planned :
      (cs : List Container) (v : Volume) (o : Option Text) (secret : Text)
      (plans : Map TSecretInjection) (c : Container)
      → o ≡ some secret
      → has secret ≡ true
      → In c cs
      → mounts_volume v.name c.volume_mounts ≡ true
      → Planned (plan_key v.name secret) c.name (collect_volume has cs v o plans).1
  unfolding collect_volume
  collect_volume-Planned cs v o secret plans c e h member mounts =
      rw (e, collect_volume) (rw h (volume_plan-Planned has cs v secret plans c member mounts))

  collect_volumes-Planned :
      (cs : List Container) (vs : List Volume) (plans : Map TSecretInjection) (v : Volume)
      (secret : Text) (c : Container)
      → In v vs
      → v.secret ≡ some secret
      → has secret ≡ true
      → In c cs
      → mounts_volume v.name c.volume_mounts ≡ true
      → Planned (plan_key v.name secret) c.name (collect_volumes has cs vs plans).1
  unfolding collect_volumes
  collect_volumes-Planned cs [] plans v secret c there e h member mounts = absurd there
  collect_volumes-Planned cs (u ∷ vs) plans v secret c (inr there) e h member mounts =
      collect_volumes-Planned cs vs (collect_volume has cs u u.secret plans).1 v secret c there e h
        member mounts
  collect_volumes-Planned cs (u ∷ vs) plans v secret c (inl same) e h member mounts =
      collect_volumes-Grows has cs vs (collect_volume has cs u u.secret plans).1
        (plan_key v.name secret) c.name
        (rw (← same) (
          collect_volume-Planned cs u u.secret secret plans c (rw same e) h member
            (rw same mounts)))

  -- Every reference to a TSecret that is found, from the environment of a main container or of an
  -- init container whose name has not the prefix tsecret-init-, or from a secret volume that a main
  -- container mounts, has a plan under its key, and that plan names the container. Volumes that only
  -- init containers mount are not among these references.
  pub collect_injections_complete :
      (pod : Pod) (key name : Text)
      → RefersTo has pod key name
      → Planned key name (collect_injections has pod).1
  unfolding collect_injections
  collect_injections_complete pod key name (by_volume v secret c there e h member mounts) =
      let volumes = collect_volumes has pod.containers pod.volumes [] in
      let containers = collect_containers has pod.containers volumes.1 in
      collect_init_containers-Grows has pod.init_containers containers.1 (plan_key v.name secret)
        c.name
        (collect_containers-Grows has pod.containers volumes.1 (plan_key v.name secret) c.name (
          collect_volumes-Planned pod.containers pod.volumes [] v secret c there e h member mounts))
  collect_injections_complete pod key name (by_env_from c e secret member there is_secret h) =
      let volumes = collect_volumes has pod.containers pod.volumes [] in
      let containers = collect_containers has pod.containers volumes.1 in
      let own_key = plan_key (tsecret_volume_name secret) secret in
      collect_init_containers-Grows has pod.init_containers containers.1 own_key c.name (
        collect_containers_at pod.containers volumes.1 c own_key member
          λ before. env_from-Planned c e secret before there is_secret h)
  collect_injections_complete pod key name (by_env c e secret member there is_secret h) =
      let volumes = collect_volumes has pod.containers pod.volumes [] in
      let containers = collect_containers has pod.containers volumes.1 in
      let own_key = plan_key (tsecret_volume_name secret) secret in
      collect_init_containers-Grows has pod.init_containers containers.1 own_key c.name (
        collect_containers_at pod.containers volumes.1 c own_key member
          λ before. env-Planned c e secret before there is_secret h)
  collect_injections_complete pod key name
        (by_init_env_from c e secret member own there is_secret h) =
      let volumes = collect_volumes has pod.containers pod.volumes [] in
      collect_init_containers_at pod.init_containers
        (collect_containers has pod.containers volumes.1).1 c
        (plan_key (tsecret_volume_name secret) secret) member own
        (λ before. env_from-Planned c e secret before there is_secret h)
  collect_injections_complete pod key name (by_init_env c e secret member own there is_secret h) =
      let volumes = collect_volumes has pod.containers pod.volumes [] in
      collect_init_containers_at pod.init_containers
        (collect_containers has pod.containers volumes.1).1 c
        (plan_key (tsecret_volume_name secret) secret) member own
        (λ before. env-Planned c e secret before there is_secret h)
