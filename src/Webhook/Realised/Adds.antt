-- ===== src/Webhook/Realised/Adds.antt =====
-- The steps that add the volume and the init container of a plan.
use tsecret.Common.{
  true, some, List, [], ◌∷◌, ◌++◌, Text, text_eq_iff, ◌≡◌, refl, arith, Bool-cases, Option-cases,
  inl, inr,
}
use tsecret.Webhook.Types.{Pod, Container, Volume, VolumeMount}
use tsecret.Webhook.Plan.{TSecretInjection, mounts_volume}
use tsecret.Webhook.Patch.{
  ensure_pod_fs_group, has_volume, ensure_memory_volume, has_container, init_name, injector,
  ensure_runtime_init_container, first_container, find_container,
}
use tsecret.Webhook.Realised.{Grows, Grows-refl, Wider-refl}

has_volume-append :
    (name : Text) (vs ws : List Volume)
    → has_volume name vs ≡ true
    → has_volume name (vs ++ ws) ≡ true
unfolding has_volume
has_volume-append name [] ws h = cc h
has_volume-append name (v ∷ vs) ws h = ground (arith, has_volume-append name vs ws)

has_volume-last :
    (name : Text) (vs : List Volume) (v : Volume)
    → v.name ≡ name
    → has_volume name (vs ++ v ∷ []) ≡ true
unfolding has_volume
has_volume-last name [] v h = ground (arith, text_eq_iff v.name name)
has_volume-last name (u ∷ vs) v h = ground (arith, has_volume-last name vs v)

has_container-append :
    (name : Text) (cs ds : List Container)
    → has_container name cs ≡ true
    → has_container name (cs ++ ds) ≡ true
unfolding has_container
has_container-append name [] ds h = cc h
has_container-append name (c ∷ cs) ds h = ground (arith, has_container-append name cs ds)

has_container-last :
    (name : Text) (cs : List Container) (c : Container)
    → c.name ≡ name
    → has_container name (cs ++ c ∷ []) ≡ true
unfolding has_container
has_container-last name [] c h = ground (arith, text_eq_iff c.name name)
has_container-last name (d ∷ cs) c h = ground (arith, has_container-last name cs c)

first_container-append :
    (name : Text) (cs ds : List Container) (c : Container)
    → first_container name cs ≡ some c
    → first_container name (cs ++ ds) ≡ some c
unfolding first_container
first_container-append name [] ds c h = cc h
first_container-append name (d ∷ cs) ds c h = ground (arith, first_container-append name cs ds c)

pub mounts_volume-append :
    (volume : Text) (ms ns : List VolumeMount)
    → mounts_volume volume ms ≡ true
    → mounts_volume volume (ms ++ ns) ≡ true
unfolding mounts_volume
mounts_volume-append volume [] ns h = cc h
mounts_volume-append volume (m ∷ ms) ns h = ground (arith, mounts_volume-append volume ms ns)

pub mounts_volume-last :
    (volume : Text) (ms : List VolumeMount) (m : VolumeMount)
    → m.name ≡ volume
    → mounts_volume volume (ms ++ m ∷ []) ≡ true
unfolding mounts_volume
mounts_volume-last volume [] m h = ground (arith, text_eq_iff m.name volume)
mounts_volume-last volume (n ∷ ms) m h = ground (arith, mounts_volume-last volume ms m)

pub ensure_pod_fs_group-Grows : (pod : Pod) → Grows pod (ensure_pod_fs_group pod)
unfolding ensure_pod_fs_group find_container
ensure_pod_fs_group-Grows pod = record {
  volumes = λ name h. h;
  inits = λ name h. h;
  found = λ name c e. (c, e, Wider-refl c);
}

pub ensure_memory_volume-Grows :
    (pod : Pod) (name : Text) → Grows pod (ensure_memory_volume pod name)
unfolding ensure_memory_volume find_container
ensure_memory_volume-Grows pod name = elim (Bool-cases (has_volume name pod.volumes)) [
  | inl e ↦ rw (e, ensure_memory_volume) (Grows-refl pod)
  | inr e ↦
      rw (e, ensure_memory_volume)
        (record {
          volumes = λ n h. has_volume-append n pod.volumes _ h;
          inits = λ n h. h;
          found = λ n c k. (c, k, Wider-refl c);
        })
]

pub ensure_memory_volume-has :
    (pod : Pod) (name : Text) → has_volume name (ensure_memory_volume pod name).volumes ≡ true
unfolding ensure_memory_volume
ensure_memory_volume-has pod name = elim (Bool-cases (has_volume name pod.volumes)) [
  | inl e ↦ rw (e, ensure_memory_volume) e
  | inr e ↦ rw (e, ensure_memory_volume) (has_volume-last name pod.volumes _ refl)
]

pub init-Grows :
    (pod : Pod) (plan : TSecretInjection) (image namespace : Text)
    → Grows pod (ensure_runtime_init_container pod plan image namespace)
unfolding ensure_runtime_init_container find_container
init-Grows pod plan image namespace =
    elim (Bool-cases (has_container (init_name plan) pod.init_containers)) [
      | inl e ↦ rw (e, ensure_runtime_init_container) (Grows-refl pod)
      | inr e ↦
          rw (e, ensure_runtime_init_container)
            (record {
              volumes = λ n h. h;
              inits = λ n h. has_container-append n pod.init_containers _ h;
              found = λ n c k. elim (Option-cases (first_container n pod.containers)) [
                | inl missing ↦ (
                  c,
                  rw (missing, find_container)
                      (first_container-append n pod.init_containers _ c
                        (rw (missing, find_container) at k)),
                  Wider-refl c,
                )
                | inr (b, first) ↦
                    (c, rw (first, find_container) (rw (first, find_container) at k), Wider-refl c)
              ];
            })
    ]

pub init-has :
    (pod : Pod) (plan : TSecretInjection) (image namespace : Text)
    → has_container
        (init_name plan)
        (ensure_runtime_init_container pod plan image namespace).init_containers
      ≡ true
unfolding ensure_runtime_init_container injector
init-has pod plan image namespace =
    elim (Bool-cases (has_container (init_name plan) pod.init_containers)) [
      | inl e ↦ rw (e, ensure_runtime_init_container) e
      | inr e ↦
          rw (e, ensure_runtime_init_container)
            (has_container-last (init_name plan) pod.init_containers _ refl)
    ]
