-- ===== src/Webhook/Realised/Made.antt =====
-- Where the volumes and the init containers of a mutated pod come from.
use tsecret.Common.{
  Bool, false, none, some, List, [], ◌∷◌, ◌++◌, Text, Map, codes, All, All-append, In, In-Reorder,
  Reorder, Reorder-symm, ok, ◌≡◌, ◌⊎◌, refl, subst, arith, inl, inr, Bool-cases, Option-cases,
  Result-cases,
}
use tsecret.Webhook.Types.{Volume, Container, Pod}
use tsecret.Webhook.Plan.{TSecretInjection, mounts_volume}
use tsecret.Webhook.Patch.{
  ensure_pod_fs_group, has_volume, ensure_memory_volume, has_container, init_name, injector,
  injector_args, ensure_runtime_init_container, ensure_volume_mount, find_container,
  change_container,
}
use tsecret.Webhook.Entrypoint.{
  export_env_enabled, resolve_entrypoint, already_wrapped, wrap_container_for_env_loader,
}
use tsecret.Webhook.Clean.Change.{change_first-All}
use tsecret.Webhook.Realised.{Wider, Wider-refl}
use tsecret.Webhook.Realised.Mounting.{mount-Wider}
use tsecret.Webhook.{
  Ranging, export_containers, mount_containers, inject_plan, inject_plans, wrap_containers,
}

-- The later container is the earlier one with more mounts; it runs the same command, or a shell
-- that the handler has put around it.
pub record Kept (a c : Container) : Type 0 where
  pub name : c.name ≡ a.name
  pub image : c.image ≡ a.image
  pub mounts : Wider a c
  pub runs :
      ((c.command ≡ a.command) × (c.args ≡ a.args))
      ⊎ (c.command ≡ codes "/bin/sh" ∷ codes "-c" ∷ [])

Kept-refl : (c : Container) → Kept c c
Kept-refl c = record { name = refl; image = refl; mounts = Wider-refl c; runs = inl (refl, refl) }

mount-Kept :
    (volume path : Text) (a c : Container) → Kept a c → Kept a (ensure_volume_mount volume path c)
unfolding ensure_volume_mount Wider
mount-Kept volume path a c k =
    let wider = mount-Wider volume path c in
    record {
      name = ground (arith, k.name);
      image = ground (arith, k.image);
      mounts = λ v m. wider v (k.mounts v m);
      runs = elim (Bool-cases (mounts_volume volume c.volume_mounts)) [
        | inl e ↦ rw e k.runs
        | inr e ↦ rw e k.runs
      ];
    }

wrap-Kept :
    (loaders : List Text) (entrypoint : Text) (a c : Container)
    → Kept a c
    → Kept a (wrap_container_for_env_loader c loaders entrypoint)
unfolding wrap_container_for_env_loader Wider
wrap-Kept loaders entrypoint a c k = elim (Bool-cases (already_wrapped c)) [
  | inl e ↦ rw (e, wrap_container_for_env_loader) k
  | inr e ↦
      rw (e, wrap_container_for_env_loader)
        (record { name = k.name; image = k.image; mounts = k.mounts; runs = inr refl })
]

-- A container that runs the injector for a plan, with the plan's volume at its mount path.
pub record IsInjector (plan : TSecretInjection) (own namespace : Text) (c : Container)
    : Type 0 where
  pub name : c.name ≡ codes "tsecret-init-" ++ plan.volume_name
  pub image : c.image ≡ own
  pub command : c.command ≡ codes "/tsecret-inject" ∷ []
  pub args : c.args ≡ injector_args plan namespace
  pub mounts :
      c.volume_mounts
      ≡ record { name = plan.volume_name; mount_path = plan.mount_path; read_only = false } ∷ []

injector-IsInjector :
    (plan : TSecretInjection) (image namespace : Text)
    → IsInjector plan image namespace (injector plan image namespace)
unfolding injector init_name
injector-IsInjector plan image namespace = record {
  name = refl;
  image = refl;
  command = refl;
  args = refl;
  mounts = refl;
}

module _ (before : Pod) (plans : List TSecretInjection) (image namespace : Text) where
  -- A volume was there, or it is the memory volume of a plan.
  pub VolumeMade : Volume → Type 0
  VolumeMade v =
      In v before.volumes
      ⊎ ((plan : TSecretInjection) × In plan plans
          × (v ≡ record {
            name = plan.volume_name;
            secret = none;
            projected = [];
            empty_dir = some (record { medium = codes "Memory" });
          }))

  -- An init container was there, or it is the injector of a plan, with an export flag.
  pub InitMade : Container → Type 0
  InitMade c =
      (a : Container) × Kept a c
      × (In a before.init_containers
          ⊎ ((plan : TSecretInjection) × (export_env : Bool) × In plan plans
              × IsInjector (record plan { export_env = export_env }) image namespace a))

  pub record Made (pod : Pod) : Type 0 where
    pub volumes : All VolumeMade pod.volumes
    pub init_containers : All InitMade pod.init_containers

  change-Made :
      (f : Container → Container)
      → ((a c : Container) → Kept a c → Kept a (f c))
      → (name : Text) (pod : Pod) → Made pod
      → Made (change_container f name pod)
  unfolding change_container InitMade
  change-Made f keep name pod h = elim (Bool-cases (has_container name pod.containers)) [
    | inl e ↦
        rw (e, change_container)
          (record { volumes = h.volumes; init_containers = h.init_containers })
    | inr e ↦
        rw (e, change_container)
          (record {
            volumes = h.volumes;
            init_containers =
                change_first-All InitMade f (λ c (a, k, from). (a, keep a c k, from)) name
                  pod.init_containers h.init_containers;
          })
  ]

  mount_containers-Made :
      (names : List Text) (plan : TSecretInjection) (pod : Pod)
      → Made pod
      → Made (mount_containers names plan pod)
  unfolding mount_containers
  mount_containers-Made [] plan pod h = h
  mount_containers-Made (name ∷ names) plan pod h =
      mount_containers-Made names plan _
        (change-Made _ (mount-Kept plan.volume_name plan.mount_path) name pod h)

  pub wrap_containers-Made :
      (exports : List (Text × List Text)) (pod pod' : Pod)
      → wrap_containers exports pod ≡ ok pod'
      → Made pod
      → Made pod'
  unfolding wrap_containers
  wrap_containers-Made [] pod pod' e h = let same : pod ≡ pod' = cc e in subst Made same h
  wrap_containers-Made ((name, loaders) ∷ rest) pod pod' e h =
      elim (Option-cases (find_container pod name)) [
        | inl k ↦ wrap_containers-Made rest pod pod' (cc (e, k)) h
        | inr (c, k) ↦ elim (Result-cases (resolve_entrypoint pod c)) [
          | inr (m, q) ↦ cc (e, k, q)
          | inl (entrypoint, q) ↦
              wrap_containers-Made rest _ pod' (cc (e, k, q))
                (change-Made _ (wrap-Kept loaders entrypoint) name pod h)
        ]
      ]

  -- The first loop over a plan's containers sets at most its export flag.
  export_lem :
      (pod : Pod) (names : List Text) (plan : TSecretInjection) (exports : Map (List Text))
      → (flag : Bool) × ((export_containers pod names plan exports).0
          ≡ record plan { export_env = flag })
  unfolding export_containers
  export_lem pod [] plan exports = (plan.export_env, refl)
  export_lem pod (name ∷ names) plan exports = elim (Bool-cases (export_env_enabled pod name)) [
    | inl e ↦
        rw (e, export_containers) (export_lem pod names (record plan { export_env = Bool.true }) _)
    | inr e ↦ rw (e, export_containers) (export_lem pod names plan exports)
  ]

  memory-Made :
      (pod : Pod) (plan : TSecretInjection)
      → In plan plans
      → Made pod
      → Made (ensure_memory_volume (ensure_pod_fs_group pod) plan.volume_name)
  unfolding ensure_memory_volume ensure_pod_fs_group VolumeMade
  memory-Made pod plan member h = elim (Bool-cases (has_volume plan.volume_name pod.volumes)) [
    | inl e ↦ rw e (record { volumes = h.volumes; init_containers = h.init_containers })
    | inr e ↦ rw e (record {
      volumes = All-append VolumeMade pod.volumes _ h.volumes (inr (plan, member, refl), tt);
      init_containers = h.init_containers;
    })
  ]

  init-Made :
      (pod : Pod) (plan plan' : TSecretInjection) (flag : Bool)
      → In plan plans
      → plan' ≡ record plan { export_env = flag }
      → Made pod
      → Made (ensure_runtime_init_container pod plan' image namespace)
  unfolding ensure_runtime_init_container InitMade
  init-Made pod plan plan' flag member same h =
      elim (Bool-cases (has_container (init_name plan') pod.init_containers)) [
        | inl e ↦ rw (e, ensure_runtime_init_container) h
        | inr e ↦
            rw (e, ensure_runtime_init_container)
              (record {
                volumes = h.volumes;
                init_containers = All-append InitMade pod.init_containers _ h.init_containers (
                  (
                    injector plan' image namespace,
                    Kept-refl _,
                    inr (
                      plan,
                      flag,
                      member,
                      subst
                          (λ (p : TSecretInjection).
                            IsInjector p image namespace (injector plan' image namespace))
                          same (injector-IsInjector plan' image namespace),
                    ),
                  ),
                  tt,
                );
              })
      ]

  pub inject_plans-Made :
      (r : Ranging) (visited : List TSecretInjection) (pod : Pod) (exports : Map (List Text))
      → All (λ (plan : TSecretInjection). In plan plans) visited
      → Made pod
      → Made (inject_plans r image namespace visited pod exports).0
  unfolding inject_plans inject_plan
  inject_plans-Made r [] pod exports members h = h
  inject_plans-Made r (plan ∷ visited) pod exports (member, members) h =
      let pod1 = ensure_memory_volume (ensure_pod_fs_group pod) plan.volume_name in
      let plan' = (export_containers pod1 (r.export_loop plan) plan exports).0 in
      let (flag, same) = export_lem pod1 (r.export_loop plan) plan exports in
      inject_plans-Made r visited _ _ members (
        mount_containers-Made (r.mount_loop plan) plan' _
          (init-Made pod1 plan plan' flag member same (memory-Made pod plan member h)))

every : {A : Type 0} (P : A → Type 0) (xs : List A) → ((x : A) → In x xs → P x) → All P xs
every P [] h = tt
every P (x ∷ xs) h = (h x (inl refl), every P xs (λ y m. h y (inr m)))

pub members-All :
    (xs ys : List TSecretInjection) → Reorder ys xs → All (λ (x : TSecretInjection). In x ys) xs
members-All xs ys order =
    every (λ (x : TSecretInjection). In x ys) xs (λ x m. In-Reorder x (Reorder-symm order) m)

-- A pod itself is made of what it has.
pub Made-refl :
    (pod : Pod) (plans : List TSecretInjection) (image namespace : Text)
    → Made pod plans image namespace pod
unfolding VolumeMade InitMade
Made-refl pod plans image namespace = record {
  volumes = every (VolumeMade pod plans image namespace) pod.volumes (λ v m. inl m);
  init_containers =
      every (InitMade pod plans image namespace) pod.init_containers
        (λ c m. (c, Kept-refl c, inl m));
}
