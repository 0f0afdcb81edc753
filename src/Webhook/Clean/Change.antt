-- ===== src/Webhook/Clean/Change.antt =====
-- The functions that change a pod bring no reference to a TSecret into it.
use tsecret.Common.{
  Bool, List, [], ◌∷◌, ◌≡◌, inl, inr, Text, All, All-append, has_prefix-append, text_eq, Bool-cases,
  arith,
}
use tsecret.Webhook.Types.{Container, Pod}
use tsecret.Webhook.Plan.{TSecretInjection, tsecret_init_prefix}
use tsecret.Webhook.Entrypoint.{wrap_container_for_env_loader}
use tsecret.Webhook.Patch.{
  ensure_pod_fs_group, has_volume, ensure_memory_volume, has_container, init_name, injector,
  ensure_runtime_init_container, ensure_volume_mount, change_first, change_container,
}
use tsecret.Webhook.Clean.{IsCleanVolume, IsCleanContainer, IsCleanInit, IsClean}

-- A change to a container that concerns neither its name nor its environment.
pub record IsApart (f : Container → Container) : Type 0 where
  pub name : (c : Container) → (f c).name ≡ c.name
  pub env_from : (c : Container) → (f c).env_from ≡ c.env_from
  pub env : (c : Container) → (f c).env ≡ c.env

pub ensure_volume_mount-IsApart : (volume path : Text) → IsApart (ensure_volume_mount volume path)
unfolding ensure_volume_mount
ensure_volume_mount-IsApart volume path = record {
  name = λ c. ground arith;
  env_from = λ c. ground arith;
  env = λ c. ground arith;
}

pub wrap-IsApart :
    (loaders : List Text) (entrypoint : Text)
    → IsApart (λ c. wrap_container_for_env_loader c loaders entrypoint)
unfolding wrap_container_for_env_loader
wrap-IsApart loaders entrypoint = record {
  name = λ c. ground arith;
  env_from = λ c. ground arith;
  env = λ c. ground arith;
}

pub change_first-All {ℓ} :
    (P : Container → Type ℓ) (f : Container → Container) (keep : (c : Container) → P c → P (f c))
    (name : Text) (cs : List Container)
    → All P cs
    → All P (change_first f name cs)
unfolding change_first
change_first-All P f keep name [] h = tt
change_first-All P f keep name (c ∷ cs) (hc, h) =
    let rest = change_first-All P f keep name cs h in
    elim (Bool-cases (text_eq c.name name)) [
      | inl e ↦ rw e (keep c hc, h)
      | inr e ↦ rw e (hc, rest)
    ]

module _ (has : Text → Bool) where
  apart-IsCleanContainer :
      (f : Container → Container)
      → IsApart f
      → (c : Container) → IsCleanContainer has c
      → IsCleanContainer has (f c)
  apart-IsCleanContainer f apart c h = record {
    env_from = rw (apart.env_from c) h.env_from;
    env = rw (apart.env c) h.env;
  }

  apart-IsCleanInit :
      (f : Container → Container)
      → IsApart f
      → (c : Container) → IsCleanInit has c
      → IsCleanInit has (f c)
  apart-IsCleanInit f apart c (inl e) = inl (rw (apart.name c) e)
  apart-IsCleanInit f apart c (inr h) = inr (apart-IsCleanContainer f apart c h)

  pub change_container-IsClean :
      (f : Container → Container)
      → IsApart f
      → (name : Text) (pod : Pod) → IsClean has pod
      → IsClean has (change_container f name pod)
  unfolding change_container
  change_container-IsClean f apart name pod h =
      elim (Bool-cases (has_container name pod.containers)) [
        | inl e ↦ rw e (record {
          volumes = h.volumes;
          containers =
              change_first-All _ f (apart-IsCleanContainer f apart) name pod.containers
                h.containers;
          init_containers = h.init_containers;
        })
        | inr e ↦ rw e (record {
          volumes = h.volumes;
          containers = h.containers;
          init_containers =
              change_first-All _ f (apart-IsCleanInit f apart) name pod.init_containers
                h.init_containers;
        })
      ]

  pub ensure_pod_fs_group-IsClean :
      (pod : Pod) → IsClean has pod → IsClean has (ensure_pod_fs_group pod)
  unfolding ensure_pod_fs_group
  ensure_pod_fs_group-IsClean pod h = record {
    volumes = h.volumes;
    containers = h.containers;
    init_containers = h.init_containers;
  }

  pub ensure_memory_volume-IsClean :
      (pod : Pod) (name : Text) → IsClean has pod → IsClean has (ensure_memory_volume pod name)
  unfolding ensure_memory_volume
  ensure_memory_volume-IsClean pod name h = elim (Bool-cases (has_volume name pod.volumes)) [
    | inl e ↦ rw e h
    | inr e ↦ rw e (record {
      volumes = All-append (IsCleanVolume has) pod.volumes _ h.volumes (tt, tt);
      containers = h.containers;
      init_containers = h.init_containers;
    })
  ]

  pub init-IsClean :
      (pod : Pod) (plan : TSecretInjection) (image namespace : Text)
      → IsClean has pod
      → IsClean has (ensure_runtime_init_container pod plan image namespace)
  unfolding ensure_runtime_init_container injector
  init-IsClean pod plan image namespace h =
      elim (Bool-cases (has_container (init_name plan) pod.init_containers)) [
        | inl e ↦ rw e h
        | inr e ↦ rw e (record {
          volumes = h.volumes;
          containers = h.containers;
          init_containers =
              All-append (IsCleanInit has) pod.init_containers _ h.init_containers
                (inl (has_prefix-append tsecret_init_prefix plan.volume_name), tt);
        })
      ]
