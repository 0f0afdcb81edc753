-- ===== src/Webhook/Realised.antt =====
-- What the steps of the handler on a pod keep: volumes, init containers and mounts.
pub mod Adds
pub mod Mounting
pub mod Plans
pub mod Made
pub mod Whole
use tsecret.Common.{
  Bool, true, false, Option, none, some, List, [], ◌∷◌, ◌++◌, Text, Map, text_eq, text_eq_iff, All,
  All-map, All-append, Reorder, All-Reorder, In, In-Reorder, ◌≡◌, ◌≢◌, refl, sym, ap, ◌∙◌, arith,
  if◌then◌else◌, Bool-cases, Option-cases, inl, inr, subst,
}
use tsecret.Webhook.Types.{Pod, Container, Volume, VolumeMount}
use tsecret.Webhook.Plan.{TSecretInjection, mounts_volume}
use tsecret.Webhook.Patch.{
  ensure_pod_fs_group, has_volume, ensure_memory_volume, has_container, init_name, injector,
  ensure_runtime_init_container, ensure_volume_mount, first_container, find_container, change_first,
  change_container,
}
use tsecret.Webhook.{Ranging, export_containers, mount_containers, inject_plan, inject_plans}

-- The later container mounts at least the volumes of the earlier one.
unfoldable pub Wider : Container → Container → Type 0
Wider c d =
    (volume : Text)
    → mounts_volume volume c.volume_mounts ≡ true
    → mounts_volume volume d.volume_mounts ≡ true

-- The container that is found under a name mounts the volume.
unfoldable pub Mounts : Pod → Text → Text → Type 0
Mounts pod volume name =
    (c : Container) × (find_container pod name ≡ some c)
    × (mounts_volume volume c.volume_mounts ≡ true)

-- What a step on a pod keeps.
pub record Grows (pod pod' : Pod) : Type 0 where
  pub volumes :
      (name : Text) → has_volume name pod.volumes ≡ true → has_volume name pod'.volumes ≡ true
  pub inits :
      (name : Text)
      → has_container name pod.init_containers ≡ true
      → has_container name pod'.init_containers ≡ true
  pub found :
      (name : Text) (c : Container)
      → find_container pod name ≡ some c
      → (d : Container) × (find_container pod' name ≡ some d) × Wider c d

pub Wider-refl : (c : Container) → Wider c c
unfolding Wider
Wider-refl c volume h = h

pub Grows-refl : (pod : Pod) → Grows pod pod
Grows-refl pod = record {
  volumes = λ name h. h;
  inits = λ name h. h;
  found = λ name c e. (c, e, Wider-refl c);
}

pub Grows-trans : (a b c : Pod) → Grows a b → Grows b c → Grows a c
unfolding Wider
Grows-trans a b c g h = record {
  volumes = λ name e. h.volumes name (g.volumes name e);
  inits = λ name e. h.inits name (g.inits name e);
  found = λ name k e.
      let (k1, e1, w1) = g.found name k e in
      let (k2, e2, w2) = h.found name k1 e1 in (k2, e2, λ volume m. w2 volume (w1 volume m));
}

pub Mounts-Grows :
    (pod pod' : Pod) (volume name : Text)
    → Grows pod pod'
    → Mounts pod volume name
    → Mounts pod' volume name
unfolding Mounts Wider
Mounts-Grows pod pod' volume name g (c, e, m) =
    let (d, e', w) = g.found name c e in (d, e', w volume m)

module _ (f : Container → Container) (kept : (c : Container) → (f c).name ≡ c.name)
    (wider : (c : Container) → Wider c (f c)) where
  has_container-change_first :
      (n name : Text) (cs : List Container)
      → has_container n (change_first f name cs) ≡ has_container n cs
  unfolding has_container change_first
  has_container-change_first n name [] = refl
  has_container-change_first n name (c ∷ cs) =
      ground (arith, kept c, has_container-change_first n name cs)

  first_container-none :
      (n name : Text) (cs : List Container)
      → first_container n cs ≡ none
      → first_container n (change_first f name cs) ≡ none
  unfolding first_container change_first
  first_container-none n name [] h = refl
  first_container-none n name (c ∷ cs) h = ground (arith, kept c, first_container-none n name cs)

  first_container-change_first :
      (n name : Text) (cs : List Container) (c : Container)
      → first_container n cs ≡ some c
      → (d : Container) × (first_container n (change_first f name cs) ≡ some d) × Wider c d
  unfolding first_container change_first
  first_container-change_first n name [] c h = cc h
  first_container-change_first n name (b ∷ cs) c h = elim (Bool-cases (text_eq b.name n)) [
    | inl e ↦
        let same : b ≡ c = cc (rw (e, first_container) at h) in
        elim (Bool-cases (text_eq b.name name)) [
          | inl k ↦ (
            f b,
            rw (k, change_first) (rw (kept b) (rw e refl)),
            subst (λ a. Wider a (f b)) same (wider b),
          )
          | inr k ↦
              (b, rw (k, change_first) (rw e refl), subst (λ a. Wider a b) same (Wider-refl b))
        ]
    | inr e ↦
        let h1 = rw (e, first_container) at h in
        let (d, found, w) = first_container-change_first n name cs c h1 in
        elim (Bool-cases (text_eq b.name name)) [
          | inl k ↦ (c, rw (k, change_first) (rw (kept b) (rw e h1)), Wider-refl c)
          | inr k ↦ (d, rw (k, change_first) (rw e found), w)
        ]
  ]

  pub change_container-Grows : (name : Text) (pod : Pod) → Grows pod (change_container f name pod)
  unfolding change_container find_container
  change_container-Grows name pod = elim (Bool-cases (has_container name pod.containers)) [
    | inl e ↦
        rw (e, change_container)
          (record {
            volumes = λ n h. h;
            inits = λ n h. h;
            found = λ n c k. elim (Option-cases (first_container n pod.containers)) [
              | inl missing ↦ (
                c,
                rw (first_container-none n name pod.containers missing, find_container)
                    (rw (missing, find_container) at k),
                Wider-refl c,
              )
              | inr (b, first) ↦
                  let same : b ≡ c = cc (rw (first, find_container) at k) in
                  let (d, found, w) = first_container-change_first n name pod.containers b first in
                  (d, rw (found, find_container) refl, subst (λ a. Wider a d) same w)
            ];
          })
    | inr e ↦
        rw (e, change_container)
          (record {
            volumes = λ n h. h;
            inits = λ n h. has_container-change_first n name pod.init_containers ∙ h;
            found = λ n c k. elim (Option-cases (first_container n pod.containers)) [
              | inl missing ↦
                  let (d, found, w) =
                    first_container-change_first n name pod.init_containers c
                      (rw (missing, find_container) at k) in
                  (d, rw (missing, find_container) found, w)
              | inr (b, first) ↦
                  (c, rw (first, find_container) (rw (first, find_container) at k), Wider-refl c)
            ];
          })
  ]
