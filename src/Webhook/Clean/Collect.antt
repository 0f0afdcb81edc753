-- ===== src/Webhook/Clean/Collect.antt =====
-- collectInjections leaves no reference, and leaves a pod without references as it is.
use tsecret.Common.{
  Bool, Option, none, some, List, [], ◌∷◌, ◌≡◌, refl, inl, inr, Text, All, Map, has_prefix,
  Bool-cases, Option-cases, arith, if◌then◌else◌,
}
use tsecret.Webhook.Types.{Volume, EnvFromSource, EnvVar, Container, Pod}
use tsecret.Webhook.Plan.{
  TSecretInjection, collected, collect_volume, collect_volumes, collect_env_from, collect_env,
  collect_from_container, collect_containers, collect_init_containers, collect_injections,
  to_memory, source_secret, tsecret_init_prefix,
}
use tsecret.Webhook.Clean.{
  Unclaimed, IsCleanVolume, IsCleanEnvFrom, IsCleanEnv, IsCleanContainer, IsCleanInit, IsClean,
}

module _ (has : Text → Bool) where
  Unclaimed-of_none : (o : Option Text) → collected has o ≡ none → Unclaimed has o
  unfolding collected
  Unclaimed-of_none none h = tt
  Unclaimed-of_none (some s) h = ground arith

  none_of_Unclaimed : (o : Option Text) → Unclaimed has o → collected has o ≡ none
  unfolding collected
  none_of_Unclaimed none h = refl
  none_of_Unclaimed (some s) h = ground arith

  collect_env_from-IsClean :
      (name : Text) (es : List EnvFromSource) (plans : Map TSecretInjection)
      → All (IsCleanEnvFrom has) (collect_env_from has name es plans).0
  unfolding collect_env_from
  collect_env_from-IsClean name [] plans = tt
  collect_env_from-IsClean name (e ∷ es) plans = elim (Option-cases (collected has e.secret_ref)) [
    | inl h ↦
        rw (h, collect_env_from) (Unclaimed-of_none _ h, collect_env_from-IsClean name es plans)
    | inr (s, h) ↦ rw (h, collect_env_from) (collect_env_from-IsClean name es _)
  ]

  collect_env-IsClean :
      (name : Text) (es : List EnvVar) (plans : Map TSecretInjection)
      → All (IsCleanEnv has) (collect_env has name es plans).0
  unfolding collect_env
  collect_env-IsClean name [] plans = tt
  collect_env-IsClean name (e ∷ es) plans =
      elim (Option-cases (collected has (source_secret e.value_from))) [
        | inl h ↦ rw (h, collect_env) (Unclaimed-of_none _ h, collect_env-IsClean name es plans)
        | inr (s, h) ↦ rw (h, collect_env) (collect_env-IsClean name es _)
      ]

  collect_from_container-IsClean :
      (c : Container) (plans : Map TSecretInjection)
      → IsCleanContainer has (collect_from_container has c plans).0
  unfolding collect_from_container
  collect_from_container-IsClean c plans = record {
    env_from = collect_env_from-IsClean c.name c.env_from plans;
    env = collect_env-IsClean c.name c.env _;
  }

  collect_containers-IsClean :
      (cs : List Container) (plans : Map TSecretInjection)
      → All (IsCleanContainer has) (collect_containers has cs plans).0
  unfolding collect_containers
  collect_containers-IsClean [] plans = tt
  collect_containers-IsClean (c ∷ cs) plans =
      (collect_from_container-IsClean c plans, collect_containers-IsClean cs _)

  collect_init_containers-IsClean :
      (cs : List Container) (plans : Map TSecretInjection)
      → All (IsCleanInit has) (collect_init_containers has cs plans).0
  unfolding collect_init_containers
  collect_init_containers-IsClean [] plans = tt
  collect_init_containers-IsClean (c ∷ cs) plans =
      elim (Bool-cases (has_prefix c.name tsecret_init_prefix)) [
        | inl h ↦ rw h (inl h, collect_init_containers-IsClean cs _)
        | inr h ↦
            rw h
              (inr (collect_from_container-IsClean c plans), collect_init_containers-IsClean cs _)
      ]

  collect_volume-IsClean :
      (cs : List Container) (v : Volume) (plans : Map TSecretInjection)
      → IsCleanVolume has (collect_volume has cs v v.secret plans).0
  unfolding collect_volume to_memory
  collect_volume-IsClean cs v plans = of_secret v.secret refl
    where
      of_secret :
          (o : Option Text) → v.secret ≡ o → IsCleanVolume has (collect_volume has cs v o plans).0
      of_secret none e = rw e tt
      of_secret (some s) e = elim (Bool-cases (has s)) [ inl h ↦ rw h tt | inr h ↦ rw h (rw e h) ]

  collect_volumes-IsClean :
      (cs : List Container) (vs : List Volume) (plans : Map TSecretInjection)
      → All (IsCleanVolume has) (collect_volumes has cs vs plans).0
  unfolding collect_volumes
  collect_volumes-IsClean cs [] plans = tt
  collect_volumes-IsClean cs (v ∷ vs) plans =
      (collect_volume-IsClean cs v plans, collect_volumes-IsClean cs vs _)

  -- What collectInjections leaves holds no reference to a TSecret.
  pub collect_injections-IsClean : (pod : Pod) → IsClean has (collect_injections has pod).0
  unfolding collect_injections
  collect_injections-IsClean pod = record {
    volumes = collect_volumes-IsClean pod.containers pod.volumes [];
    containers = collect_containers-IsClean pod.containers _;
    init_containers = collect_init_containers-IsClean pod.init_containers _;
  }

  collect_env_from-fixed :
      (name : Text) (es : List EnvFromSource) (plans : Map TSecretInjection)
      → All (IsCleanEnvFrom has) es
      → collect_env_from has name es plans ≡ (es, plans)
  unfolding collect_env_from
  collect_env_from-fixed name [] plans h = refl
  collect_env_from-fixed name (e ∷ es) plans (he, h) =
      rw (none_of_Unclaimed e.secret_ref he, collect_env_from)
        (rw (collect_env_from-fixed name es plans h))

  collect_env-fixed :
      (name : Text) (es : List EnvVar) (plans : Map TSecretInjection)
      → All (IsCleanEnv has) es
      → collect_env has name es plans ≡ (es, plans)
  unfolding collect_env
  collect_env-fixed name [] plans h = refl
  collect_env-fixed name (e ∷ es) plans (he, h) =
      rw (none_of_Unclaimed (source_secret e.value_from) he, collect_env)
        (rw (collect_env-fixed name es plans h))

  collect_from_container-fixed :
      (c : Container) (plans : Map TSecretInjection)
      → IsCleanContainer has c
      → collect_from_container has c plans ≡ (c, plans)
  unfolding collect_from_container
  collect_from_container-fixed c plans h = rw (
    collect_env_from-fixed c.name c.env_from plans h.env_from,
    collect_env-fixed c.name c.env plans h.env,
  )

  collect_containers-fixed :
      (cs : List Container) (plans : Map TSecretInjection)
      → All (IsCleanContainer has) cs
      → collect_containers has cs plans ≡ (cs, plans)
  unfolding collect_containers
  collect_containers-fixed [] plans h = refl
  collect_containers-fixed (c ∷ cs) plans (hc, h) =
      rw (collect_from_container-fixed c plans hc, collect_containers-fixed cs plans h)

  init-fixed :
      (c : Container) (plans : Map TSecretInjection)
      → IsCleanInit has c
      → (if has_prefix c.name tsecret_init_prefix
          then (c, plans)
          else collect_from_container has c plans)
        ≡ (c, plans)
  init-fixed c plans (inl skipped) = rw skipped
  init-fixed c plans (inr clean) = elim (Bool-cases (has_prefix c.name tsecret_init_prefix)) [
    | inl skipped ↦ rw skipped
    | inr fresh ↦ rw fresh (collect_from_container-fixed c plans clean)
  ]

  collect_init_containers-fixed :
      (cs : List Container) (plans : Map TSecretInjection)
      → All (IsCleanInit has) cs
      → collect_init_containers has cs plans ≡ (cs, plans)
  unfolding collect_init_containers
  collect_init_containers-fixed [] plans h = refl
  collect_init_containers-fixed (c ∷ cs) plans (hc, h) =
      rw (init-fixed c plans hc, collect_init_containers-fixed cs plans h)

  collect_volume-fixed :
      (cs : List Container) (v : Volume) (o : Option Text) (plans : Map TSecretInjection)
      → Unclaimed has o
      → collect_volume has cs v o plans ≡ (v, plans)
  unfolding collect_volume
  collect_volume-fixed cs v none plans h = refl
  collect_volume-fixed cs v (some s) plans h = rw h

  collect_volumes-fixed :
      (cs : List Container) (vs : List Volume) (plans : Map TSecretInjection)
      → All (IsCleanVolume has) vs
      → collect_volumes has cs vs plans ≡ (vs, plans)
  unfolding collect_volumes
  collect_volumes-fixed cs [] plans h = refl
  collect_volumes-fixed cs (v ∷ vs) plans (hv, h) =
      rw (collect_volume-fixed cs v v.secret plans hv, collect_volumes-fixed cs vs plans h)

  -- A pod without references is left as it is, with no plan.
  pub collect_injections-fixed :
      (pod : Pod) → IsClean has pod → collect_injections has pod ≡ (pod, [])
  unfolding collect_injections
  collect_injections-fixed pod h = rw (
    collect_volumes-fixed pod.containers pod.volumes [] h.volumes,
    collect_containers-fixed pod.containers [] h.containers,
    collect_init_containers-fixed pod.init_containers [] h.init_containers,
  )
