-- ===== src/Webhook/Plan/Planned.antt =====
-- Which containers the injection plans of a pod name.
use tsecret.Common.{
  Bool, true, some, List, [], ◌∷◌, ◌++◌, Text, text_eq, text_eq_iff, text_eq_refl, Map, lookup,
  insert, lookup-insert, In, ◌≡◌, refl, arith, inl, inr, Bool-cases, Option-cases, ◌∙◌,
}
use tsecret.Webhook.Types.{Volume, EnvFromSource, EnvVar, Container}
use tsecret.Webhook.Plan.{
  TSecretInjection, tsecret_volume_name, tsecret_mount_path, elem, append_unique, plan_key,
  find_or_make, fill_in, get_plan, add_container, mounts_volume, add_mounting, volume_mount_path,
  source_secret, volume_plan, env_plan, collected, collect_env_from, collect_env,
}

-- The plan of a key is there, and names a container.
pub record Planned (key name : Text) (plans : Map TSecretInjection) : Type 0 where
  pub plan : TSecretInjection
  pub found : lookup key plans ≡ some plan
  pub names : elem name plan.containers ≡ true

elem-append : (x : Text) (xs ys : List Text) → elem x xs ≡ true → elem x (xs ++ ys) ≡ true
unfolding elem
elem-append x [] ys h = cc h
elem-append x (y ∷ xs) ys h = ground (arith, elem-append x xs ys)

elem-last : (x : Text) (xs : List Text) → elem x (xs ++ x ∷ []) ≡ true
unfolding elem
elem-last x [] = ground (arith, text_eq_refl x)
elem-last x (y ∷ xs) = ground (arith, elem-last x xs)

append_unique-keeps :
    (x y : Text) (xs : List Text) → elem x xs ≡ true → elem x (append_unique xs y) ≡ true
unfolding append_unique
append_unique-keeps x y xs h = ground (arith, elem-append x xs (y ∷ []))

append_unique-has : (x : Text) (xs : List Text) → elem x (append_unique xs x) ≡ true
unfolding append_unique
append_unique-has x xs = ground (arith, elem-last x xs)

-- The plans still name every container that they named.
abbrev pub Grows : Map TSecretInjection → Map TSecretInjection → Type 0
Grows plans plans' = (key name : Text) → Planned key name plans → Planned key name plans'

get_plan_held :
    (plans : Map TSecretInjection) (volume secret path prefix : Text) (plan : TSecretInjection)
    → lookup (plan_key volume secret) plans ≡ some plan
    → (get_plan plans volume secret path prefix).containers ≡ plan.containers
unfolding get_plan find_or_make fill_in
get_plan_held plans volume secret path prefix plan h = rw h refl

-- A plan that is put in place of getPlan's grows the plans, if it names the containers of that one.
insert-Grows :
    (plans : Map TSecretInjection) (volume secret path prefix : Text) (new : TSecretInjection)
    → ((name : Text)
        → elem name (get_plan plans volume secret path prefix).containers ≡ true
        → elem name new.containers ≡ true)
    → Grows plans (insert (plan_key volume secret) new plans)
insert-Grows plans volume secret path prefix new more key name planned =
    elim (Bool-cases (text_eq (plan_key volume secret) key)) [
      | inr other ↦ record {
        plan = planned.plan;
        found = lookup-insert (plan_key volume secret) key new plans ∙ rw other planned.found;
        names = planned.names;
      }
      | inl same ↦
          let key_is : plan_key volume secret ≡ key =
            (text_eq_iff (plan_key volume secret) key).0 same in
          let held : lookup (plan_key volume secret) plans ≡ some planned.plan =
            rw key_is planned.found in
          record {
            plan = new;
            found = lookup-insert (plan_key volume secret) key new plans ∙ rw same refl;
            names = more name (
                rw (get_plan_held plans volume secret path prefix planned.plan held) planned.names);
          }
    ]

add_mounting-keeps :
    (volume name : Text) (cs : List Container) (plan : TSecretInjection)
    → elem name plan.containers ≡ true
    → elem name (add_mounting volume cs plan).containers ≡ true
unfolding add_mounting add_container
add_mounting-keeps volume name [] plan h = h
add_mounting-keeps volume name (c ∷ cs) plan h =
    elim (Bool-cases (mounts_volume volume c.volume_mounts)) [
      | inr e ↦ rw (e, add_mounting) (add_mounting-keeps volume name cs plan h)
      | inl e ↦
          rw (e, add_mounting)
            (add_mounting-keeps volume name cs (add_container plan c.name)
              (append_unique-keeps name c.name plan.containers h))
    ]

add_mounting-has :
    (volume : Text) (cs : List Container) (plan : TSecretInjection) (c : Container)
    → In c cs
    → mounts_volume volume c.volume_mounts ≡ true
    → elem c.name (add_mounting volume cs plan).containers ≡ true
unfolding add_mounting add_container
add_mounting-has volume [] plan c member h = absurd member
add_mounting-has volume (d ∷ cs) plan c (inl same) h =
    let mounts : mounts_volume volume d.volume_mounts ≡ true = rw same h in
    rw (mounts, add_mounting)
      (add_mounting-keeps volume c.name cs (add_container plan d.name)
        (rw same (append_unique-has c.name plan.containers)))
add_mounting-has volume (d ∷ cs) plan c (inr member) h =
    elim (Bool-cases (mounts_volume volume d.volume_mounts)) [
      | inr e ↦ rw (e, add_mounting) (add_mounting-has volume cs plan c member h)
      | inl e ↦
          rw (e, add_mounting) (add_mounting-has volume cs (add_container plan d.name) c member h)
    ]

module _ (has : Text → Bool) where
  pub env_plan-Grows :
      (container secret prefix : Text) (plans : Map TSecretInjection)
      → Grows plans (env_plan has container secret prefix plans)
  unfolding env_plan add_container
  env_plan-Grows container secret prefix plans =
      insert-Grows plans (tsecret_volume_name secret) secret (tsecret_mount_path secret) prefix _
        (λ name h. append_unique-keeps name container _ h)

  pub env_plan-Planned :
      (container secret prefix : Text) (plans : Map TSecretInjection)
      → Planned
          (plan_key (tsecret_volume_name secret) secret)
          container
          (env_plan has container secret prefix plans)
  unfolding env_plan add_container
  env_plan-Planned container secret prefix plans =
      let key = plan_key (tsecret_volume_name secret) secret in
      let plan =
        get_plan plans (tsecret_volume_name secret) secret (tsecret_mount_path secret) prefix in
      record {
        plan = add_container plan container;
        found =
            lookup-insert key key (add_container plan container) plans ∙ rw (text_eq_refl key) refl;
        names = append_unique-has container plan.containers;
      }

  pub volume_plan-Grows :
      (cs : List Container) (v : Volume) (secret : Text) (plans : Map TSecretInjection)
      → Grows plans (volume_plan has cs v secret plans)
  unfolding volume_plan
  volume_plan-Grows cs v secret plans =
      insert-Grows plans v.name secret (volume_mount_path v.name cs (tsecret_mount_path secret)) []
        _ (λ name h. add_mounting-keeps v.name name cs _ h)

  pub volume_plan-Planned :
      (cs : List Container) (v : Volume) (secret : Text) (plans : Map TSecretInjection)
      (c : Container)
      → In c cs
      → mounts_volume v.name c.volume_mounts ≡ true
      → Planned (plan_key v.name secret) c.name (volume_plan has cs v secret plans)
  unfolding volume_plan
  volume_plan-Planned cs v secret plans c member mounts =
      let key = plan_key v.name secret in
      let plan =
        get_plan plans v.name secret (volume_mount_path v.name cs (tsecret_mount_path secret)) [] in
      record {
        plan = add_mounting v.name cs plan;
        found =
            lookup-insert key key (add_mounting v.name cs plan) plans ∙ rw (text_eq_refl key) refl;
        names = add_mounting-has v.name cs plan c member mounts;
      }

  pub collect_env_from-Grows :
      (container : Text) (es : List EnvFromSource) (plans : Map TSecretInjection)
      → Grows plans (collect_env_from has container es plans).1
  unfolding collect_env_from
  collect_env_from-Grows container [] plans key name planned = planned
  collect_env_from-Grows container (e ∷ es) plans key name planned =
      elim (Option-cases (collected has e.secret_ref)) [
        | inl k ↦
            rw (k, collect_env_from) (collect_env_from-Grows container es plans key name planned)
        | inr (secret, k) ↦
            rw (k, collect_env_from)
              (collect_env_from-Grows container es (env_plan has container secret e.prefix plans)
                key name (env_plan-Grows container secret e.prefix plans key name planned))
      ]

  pub collect_env-Grows :
      (container : Text) (es : List EnvVar) (plans : Map TSecretInjection)
      → Grows plans (collect_env has container es plans).1
  unfolding collect_env
  collect_env-Grows container [] plans key name planned = planned
  collect_env-Grows container (e ∷ es) plans key name planned =
      elim (Option-cases (collected has (source_secret e.value_from))) [
        | inl k ↦ rw (k, collect_env) (collect_env-Grows container es plans key name planned)
        | inr (secret, k) ↦
            rw (k, collect_env)
              (collect_env-Grows container es (env_plan has container secret [] plans) key name
                (env_plan-Grows container secret [] plans key name planned))
      ]
