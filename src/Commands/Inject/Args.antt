-- ===== src/Commands/Inject/Args.antt =====
-- The arguments that the webhook gives to the init container, read by the command.
use tsecret.Common.{
  Bool, true, false, [], ◌∷◌, ◌++◌, Text, codes, text_eq, Map, lookup, insert, cut, ◌≡◌, refl,
}
use tsecret.Webhook.Plan.{TSecretInjection}
use tsecret.Webhook.Patch.{injector_args, prefix_args, export_args}
use tsecret.Commands.Flags.{parsed, parse_flags, read_flag, value_of}
use tsecret.Commands.Inject.{Options, options, inject_flags}

-- The options of a plan.
abbrev pub planned : TSecretInjection → Text → Options
planned plan namespace = record {
  secret_name = plan.secret_name;
  mount_path = plan.mount_path;
  namespace = namespace;
  prefix = plan.prefix;
  export_env = plan.export_env;
}

args_read :
    (secret mount namespace prefix : Text) (export_env : Bool)
    → (values : Map Text) × (parse_flags inject_flags
          ((codes "--secret=" ++ secret)
            ∷ (codes "--mount=" ++ mount)
            ∷ (codes "--namespace=" ++ namespace)
            ∷ (prefix_args prefix ++ export_args export_env))
          []
        ≡ parsed values [])
      × (options values ≡ record {
        secret_name = secret;
        mount_path = mount;
        namespace = namespace;
        prefix = prefix;
        export_env = export_env;
      })
unfolding parse_flags read_flag lookup insert cut text_eq prefix_args export_args options value_of
args_read secret mount namespace [] false = (_, refl, refl)
args_read secret mount namespace [] true = (_, refl, refl)
args_read secret mount namespace (c ∷ prefix) false = (_, refl, refl)
args_read secret mount namespace (c ∷ prefix) true = (_, refl, refl)

-- The flags of the init container are read back as the plan's secret, path, prefix and export and
-- the pod's namespace, whatever characters these have.
pub options-injector_args :
    (plan : TSecretInjection) (namespace : Text)
    → (values : Map Text) × (parse_flags inject_flags (injector_args plan namespace) []
        ≡ parsed values [])
      × (options values ≡ planned plan namespace)
unfolding injector_args
options-injector_args plan namespace =
    args_read plan.secret_name plan.mount_path namespace plan.prefix plan.export_env
