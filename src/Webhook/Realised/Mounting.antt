-- ===== src/Webhook/Realised/Mounting.antt =====
-- The loop over the containers of a plan, which adds its mounts.
use tsecret.Common.{
  true, false, none, some, List, [], ◌∷◌, Text, text_eq, All, ◌≡◌, ◌⊎◌, refl, ap, ◌∙◌, arith,
  Bool-cases, Option-cases, inl, inr,
}
use tsecret.Webhook.Types.{Pod, Container}
use tsecret.Webhook.Plan.{TSecretInjection, mounts_volume}
use tsecret.Webhook.Patch.{
  has_container, ensure_volume_mount, first_container, find_container, change_first,
  change_container,
}
use tsecret.Webhook.Realised.{
  Wider, Mounts, Grows, Grows-refl, Grows-trans, Mounts-Grows, change_container-Grows,
}
use tsecret.Webhook.Realised.Adds.{mounts_volume-append, mounts_volume-last}
use tsecret.Webhook.{mount_containers}

mount-name :
    (volume path : Text) (c : Container) → (ensure_volume_mount volume path c).name ≡ c.name
unfolding ensure_volume_mount
mount-name volume path c = elim (Bool-cases (mounts_volume volume c.volume_mounts)) [
  | inl e ↦ rw (e, ensure_volume_mount) refl
  | inr e ↦ rw (e, ensure_volume_mount) refl
]

pub mount-Wider : (volume path : Text) (c : Container) → Wider c (ensure_volume_mount volume path c)
unfolding ensure_volume_mount Wider
mount-Wider volume path c v h = elim (Bool-cases (mounts_volume volume c.volume_mounts)) [
  | inl e ↦ rw (e, ensure_volume_mount) h
  | inr e ↦ rw (e, ensure_volume_mount) (mounts_volume-append v c.volume_mounts _ h)
]

mount-has :
    (volume path : Text) (c : Container)
    → mounts_volume volume (ensure_volume_mount volume path c).volume_mounts ≡ true
unfolding ensure_volume_mount
mount-has volume path c = elim (Bool-cases (mounts_volume volume c.volume_mounts)) [
  | inl e ↦ rw (e, ensure_volume_mount) e
  | inr e ↦ rw (e, ensure_volume_mount) (mounts_volume-last volume c.volume_mounts _ refl)
]

first-has :
    (name : Text) (cs : List Container) (c : Container)
    → first_container name cs ≡ some c
    → has_container name cs ≡ true
unfolding first_container has_container
first-has name [] c h = cc h
first-has name (d ∷ cs) c h = ground (arith, first-has name cs c)

first-has_none :
    (name : Text) (cs : List Container)
    → first_container name cs ≡ none
    → has_container name cs ≡ false
unfolding first_container has_container
first-has_none name [] h = refl
first-has_none name (d ∷ cs) h = ground (arith, first-has_none name cs)

module _ (f : Container → Container) (kept : (c : Container) → (f c).name ≡ c.name) where
  first-changed :
      (name : Text) (cs : List Container) (c : Container)
      → first_container name cs ≡ some c
      → first_container name (change_first f name cs) ≡ some (f c)
  unfolding first_container change_first
  first-changed name [] c h = cc h
  first-changed name (d ∷ cs) c h = elim (Bool-cases (text_eq d.name name)) [
    | inl e ↦
        let same : d ≡ c = cc (rw (e, first_container) at h) in
        let named : text_eq (f d).name name ≡ true = ap (λ n. text_eq n name) (kept d) ∙ e in
        rw (e, change_first) (rw named (ap (λ a. some (f a)) same))
    | inr e ↦ rw (e, change_first) (rw e (first-changed name cs c (rw (e, first_container) at h)))
  ]

  find-changed :
      (name : Text) (pod : Pod) (c : Container)
      → find_container pod name ≡ some c
      → find_container (change_container f name pod) name ≡ some (f c)
  unfolding change_container find_container
  find-changed name pod c h = elim (Option-cases (first_container name pod.containers)) [
    | inl missing ↦
        rw (first-has_none name pod.containers missing, change_container)
          (rw (missing, find_container)
            (first-changed name pod.init_containers c (rw (missing, find_container) at h)))
    | inr (b, first) ↦
        let same : b ≡ c = cc (rw (first, find_container) at h) in
        rw (first-has name pod.containers b first, change_container)
          (rw (first-changed name pod.containers b first, find_container)
            (ap (λ a. some (f a)) same))
  ]

pub mount_containers-Grows :
    (names : List Text) (plan : TSecretInjection) (pod : Pod)
    → Grows pod (mount_containers names plan pod)
unfolding mount_containers
mount_containers-Grows [] plan pod = Grows-refl pod
mount_containers-Grows (name ∷ names) plan pod =
    let f = ensure_volume_mount plan.volume_name plan.mount_path in
    Grows-trans pod _ _
      (change_container-Grows f (mount-name plan.volume_name plan.mount_path)
        (mount-Wider plan.volume_name plan.mount_path) name pod)
      (mount_containers-Grows names plan (change_container f name pod))

-- The container of the name, if the pod had one, mounts the volume.
abbrev pub Served : Pod → Pod → Text → Text → Type 0
Served before pod volume name = (find_container before name ≡ none) ⊎ Mounts pod volume name

pub mount_containers-Served :
    (names : List Text) (plan : TSecretInjection) (before pod : Pod)
    → Grows before pod
    → All (Served before (mount_containers names plan pod) plan.volume_name) names
unfolding mount_containers Mounts
mount_containers-Served [] plan before pod g = tt
mount_containers-Served (name ∷ names) plan before pod g =
    let f = ensure_volume_mount plan.volume_name plan.mount_path in
    let pod1 = change_container f name pod in
    let g1 =
      change_container-Grows f (mount-name plan.volume_name plan.mount_path)
        (mount-Wider plan.volume_name plan.mount_path) name pod in
    (
      elim (Option-cases (find_container before name)) [
        | inl missing ↦ inl missing
        | inr (c, found) ↦
            let (d, found', _) = g.found name c found in
            inr (
              Mounts-Grows pod1 (mount_containers names plan pod1) plan.volume_name name
                (mount_containers-Grows names plan pod1)
                (
                  f d,
                  find-changed f (mount-name plan.volume_name plan.mount_path) name pod d found',
                  mount-has plan.volume_name plan.mount_path d,
                ))
      ],
      mount_containers-Served names plan before pod1 (Grows-trans before pod pod1 g g1),
    )
