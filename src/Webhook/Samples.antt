-- ===== src/Webhook/Samples.antt =====
-- The theorems about pkg/webhook at a concrete pod, which reads the TSecret "db" as a volume and
-- in its environment.
use tsecret.Common.{
  inl, Bool, true, none, some, [], ◌∷◌, Text, codes, text_eq, ◌≡◌, refl, map, ok, lookup, insert,
  has_prefix, contains,
}
use tsecret.Webhook.Types.{Container, Pod}
use tsecret.Webhook.Plan.{TSecretInjection, collect_injections, append_unique, elem}
use tsecret.Webhook.Entrypoint.{
  resolve_entrypoint, wrap_container_for_env_loader, given, is_blank, annot_entrypoint,
  export_env_enabled, already_wrapped,
}
use tsecret.Webhook.Entrypoint.Laws.{wrap_twice, resolve_entrypoint-words}
use tsecret.Webhook.Plan.{plan_key, tsecret_volume_name, collect_injections, source_secret}
use tsecret.Webhook.Plan.Planned.{Planned}
use tsecret.Webhook.Plan.Complete.{by_env, collect_injections_complete}
use tsecret.Webhook.Shell.{shell_join}
use tsecret.Webhook.Shell.Words.{shell_words, shell_words-shell_join}
use tsecret.Webhook.Clean.{IsClean}
use tsecret.Webhook.Clean.Keeps.{mutate-IsClean, mutate_twice}
use tsecret.Webhook.Realised.Plans.{Realised}
use tsecret.Webhook.Realised.Made.{Made}
use tsecret.Webhook.{Ranging, Mutation, mutated, untouched, mutate, loader_path}

abbrev has_db : Text → Bool
unfolding text_eq
has_db = text_eq (codes "db")

-- The maps are visited as they stand.
abbrev in_order : Ranging
in_order = record {
  plans = map (λ kv. kv.1);
  export_loop = λ plan. plan.containers;
  mount_loop = λ plan. plan.containers;
  exports = λ exports. exports;
}

abbrev app : Container
app = record {
  name = codes "app";
  image = codes "app:1";
  command = codes "/bin/app" ∷ [];
  args = codes "it's" ∷ [];
  image_pull_policy = [];
  env_from =
      record { prefix = []; config_map_ref = none; secret_ref = some (codes "db") }
      ∷ record { prefix = []; config_map_ref = none; secret_ref = some (codes "plain") }
      ∷ [];
  env =
      record {
        name = codes "PASSWORD";
        value = [];
        value_from = some (record {
          config_map_key_ref = none;
          secret_key_ref = some (record { name = codes "db"; key = codes "password" });
        });
      }
      ∷ [];
  volume_mounts =
      record { name = codes "creds"; mount_path = codes "/creds"; read_only = true } ∷ [];
  security_context = none;
}

abbrev pod : Pod
pod = record {
  name = codes "web";
  annotations = (codes "tsecret.io/export-env", codes "true") ∷ [];
  volumes =
      record { name = codes "creds"; secret = some (codes "db"); projected = []; empty_dir = none }
      ∷ [];
  containers = app ∷ [];
  init_containers = [];
  security_context = none;
}

pod_of : Mutation → Pod
pod_of (mutated p) = p
pod_of _ = pod

admitted : Pod
unfolding pod_of
admitted = pod_of (mutate has_db in_order (codes "tsecret:1") (codes "prod") pod)

admitted_lem : mutate has_db in_order (codes "tsecret:1") (codes "prod") pod ≡ mutated admitted
unfolding admitted mutate collect_injections tsecret.Webhook.Plan.collect_init_containers
    tsecret.Webhook.Plan.collect_containers tsecret.Webhook.Plan.collect_from_container
    tsecret.Webhook.Plan.collect_env tsecret.Webhook.Plan.collected
    tsecret.Webhook.Plan.source_secret has_db tsecret.Webhook.Plan.env_plan insert
    tsecret.Webhook.Plan.collect_env_from tsecret.Webhook.Plan.collect_volumes
    tsecret.Webhook.Plan.volume_plan tsecret.Webhook.Plan.plan_key
    tsecret.Webhook.Plan.tsecret_volume_name tsecret.Webhook.wrap_containers
    tsecret.Webhook.inject_plans lookup contains has_prefix text_eq already_wrapped
    tsecret.Webhook.Entrypoint.equal_fold_true export_env_enabled given is_blank
    tsecret.Webhook.Entrypoint.own_command resolve_entrypoint
    tsecret.Webhook.Entrypoint.source_loaders wrap_container_for_env_loader
    tsecret.Webhook.Patch.change_container tsecret.Webhook.Patch.change_first
    tsecret.Webhook.Patch.ensure_memory_volume tsecret.Webhook.Patch.ensure_pod_fs_group
    tsecret.Webhook.Patch.ensure_runtime_init_container tsecret.Webhook.Patch.ensure_volume_mount
    tsecret.Webhook.Patch.find_container tsecret.Webhook.Patch.first_container
    tsecret.Webhook.Patch.has_container tsecret.Webhook.Patch.has_volume
    tsecret.Webhook.Patch.init_name tsecret.Webhook.Patch.injector
    tsecret.Webhook.Patch.injector_args tsecret.Webhook.Plan.add_container
    tsecret.Webhook.Plan.add_mounting append_unique tsecret.Webhook.Plan.collect_volume elem
    tsecret.Webhook.Plan.first_mount tsecret.Webhook.Plan.get_plan
    tsecret.Webhook.Plan.mounts_volume tsecret.Webhook.Plan.to_memory
    tsecret.Webhook.Plan.tsecret_mount_path tsecret.Webhook.Plan.volume_mount_path pod_of
    tsecret.Webhook.Shell.replace_quotes shell_join tsecret.Webhook.Shell.shell_quote
    tsecret.Webhook.add_loader tsecret.Webhook.export_containers tsecret.Webhook.inject_plan
    loader_path tsecret.Webhook.mount_containers tsecret.Webhook.of_result
admitted_lem = refl

mutate-IsClean_example : IsClean has_db admitted
mutate-IsClean_example =
    mutate-IsClean has_db in_order (codes "tsecret:1") (codes "prod") pod admitted admitted_lem

mutate_twice_example :
    mutate has_db in_order (codes "tsecret:2") (codes "test") admitted ≡ untouched
mutate_twice_example =
    mutate_twice has_db in_order in_order (codes "tsecret:1") (codes "tsecret:2") (codes "prod")
      (codes "test") pod admitted admitted_lem

shell_words-shell_join_example :
    shell_words (shell_join (codes "it's" ∷ [] ∷ codes "a b" ∷ []))
    ≡ some (codes "it's" ∷ [] ∷ codes "a b" ∷ [])
shell_words-shell_join_example = shell_words-shell_join (codes "it's" ∷ [] ∷ codes "a b" ∷ [])

abbrev db_plan : TSecretInjection
db_plan = record {
  secret_name = codes "db";
  volume_name = codes "tsecret-db";
  mount_path = codes "/var/run/tsecret/db";
  prefix = [];
  export_env = true;
  containers = codes "app" ∷ [];
}

wrap_twice_example :
    wrap_container_for_env_loader
      (wrap_container_for_env_loader app (loader_path db_plan ∷ []) (codes "/bin/app"))
      (codes "/other/load-env.sh" ∷ [])
      (codes "/bin/other")
    ≡ wrap_container_for_env_loader app (loader_path db_plan ∷ []) (codes "/bin/app")
wrap_twice_example =
    wrap_twice app db_plan [] (codes "/other/load-env.sh" ∷ []) (codes "/bin/app")
      (codes "/bin/other")

resolve_entrypoint-words_example :
    (entrypoint : Text) × (resolve_entrypoint pod app ≡ ok entrypoint)
    × (shell_words entrypoint ≡ some (codes "/bin/app" ∷ codes "it's" ∷ []))
unfolding given lookup text_eq
resolve_entrypoint-words_example = resolve_entrypoint-words pod app refl refl (λ h. cc h)

collect_injections_complete_example :
    Planned
      (plan_key (tsecret_volume_name (codes "db")) (codes "db"))
      (codes "app")
      (collect_injections has_db pod).1
unfolding has_db text_eq source_secret
collect_injections_complete_example =
    collect_injections_complete has_db pod
      (plan_key (tsecret_volume_name (codes "db")) (codes "db")) (codes "app")
      (by_env app
        (record {
          name = codes "PASSWORD";
          value = [];
          value_from = some (record {
            config_map_key_ref = none;
            secret_key_ref = some (record { name = codes "db"; key = codes "password" });
          });
        })
        (codes "db") (inl refl) (inl refl) refl refl)
