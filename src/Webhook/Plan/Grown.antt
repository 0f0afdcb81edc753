-- ===== src/Webhook/Plan/Grown.antt =====
-- The steps of collectInjections keep the containers that the plans name.
use tsecret.Common.{
  Bool, Option, none, some, List, [], ◌∷◌, Text, Map, has_prefix, inl, inr, Bool-cases,
}
use tsecret.Webhook.Types.{Volume, Container}
use tsecret.Webhook.Plan.{
  TSecretInjection, tsecret_init_prefix, collect_volume, collect_volumes, collect_env_from,
  collect_from_container, collect_containers, collect_init_containers,
}
use tsecret.Webhook.Plan.Planned.{
  Grows, volume_plan-Grows, collect_env_from-Grows, collect_env-Grows,
}

module _ (has : Text → Bool) where
  pub collect_from_container-Grows :
      (c : Container) (plans : Map TSecretInjection)
      → Grows plans (collect_from_container has c plans).1
  unfolding collect_from_container
  collect_from_container-Grows c plans key name planned =
      collect_env-Grows has c.name c.env (collect_env_from has c.name c.env_from plans).1 key name
        (collect_env_from-Grows has c.name c.env_from plans key name planned)

  pub collect_containers-Grows :
      (cs : List Container) (plans : Map TSecretInjection)
      → Grows plans (collect_containers has cs plans).1
  unfolding collect_containers
  collect_containers-Grows [] plans key name planned = planned
  collect_containers-Grows (c ∷ cs) plans key name planned =
      collect_containers-Grows cs (collect_from_container has c plans).1 key name
        (collect_from_container-Grows c plans key name planned)

  pub collect_init_containers-Grows :
      (cs : List Container) (plans : Map TSecretInjection)
      → Grows plans (collect_init_containers has cs plans).1
  unfolding collect_init_containers
  collect_init_containers-Grows [] plans key name planned = planned
  collect_init_containers-Grows (c ∷ cs) plans key name planned =
      elim (Bool-cases (has_prefix c.name tsecret_init_prefix)) [
        | inl k ↦
            rw (k, collect_init_containers)
              (collect_init_containers-Grows cs plans key name planned)
        | inr k ↦
            rw (k, collect_init_containers)
              (collect_init_containers-Grows cs (collect_from_container has c plans).1 key name
                (collect_from_container-Grows c plans key name planned))
      ]

  pub collect_volume-Grows :
      (cs : List Container) (v : Volume) (o : Option Text) (plans : Map TSecretInjection)
      → Grows plans (collect_volume has cs v o plans).1
  unfolding collect_volume
  collect_volume-Grows cs v none plans key name planned = planned
  collect_volume-Grows cs v (some secret) plans key name planned = elim (Bool-cases (has secret)) [
    | inl k ↦ rw k (volume_plan-Grows has cs v secret plans key name planned)
    | inr k ↦ rw k planned
  ]

  pub collect_volumes-Grows :
      (cs : List Container) (vs : List Volume) (plans : Map TSecretInjection)
      → Grows plans (collect_volumes has cs vs plans).1
  unfolding collect_volumes
  collect_volumes-Grows cs [] plans key name planned = planned
  collect_volumes-Grows cs (v ∷ vs) plans key name planned =
      collect_volumes-Grows cs vs (collect_volume has cs v v.secret plans).1 key name
        (collect_volume-Grows cs v v.secret plans key name planned)
