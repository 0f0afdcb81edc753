-- ===== src/Commands/Inject.antt =====
-- cmd/inject/main.go. The environment variable POD_NAMESPACE, the configuration in the cluster, the
-- client and the file system are parameters; the time limit of 30 seconds is left out.
pub mod Args
pub mod Exit
use tsecret.Common.{
  ℕ, Bool, true, false, ◌||◌, Option, none, some, List, [], ◌∷◌, Text, Bytes, codes, text_eq,
  is_empty, Map, Result, ok, err, if◌then◌else◌,
}
use tsecret.Api.{NamespacedName, TSecret, TSecretEntry}
use tsecret.Crypto.{Chacha}
use tsecret.Keys.{resolve_key}
use tsecret.Providers.Base.{Http, Json}
use tsecret.Providers.Store.{Reader}
use tsecret.Inject.Files.{FileSystem}
use tsecret.Inject.Writer.{Run, done, stopped, crashed, write}
use tsecret.Commands.Flags.{
  Kind, of_text, of_bool, Flags, parsed, bad_flags, help, parse_flags, value_of,
}

abbrev pub inject_flags : Map Kind
inject_flags =
    (codes "secret", of_text)
    ∷ (codes "mount", of_text)
    ∷ (codes "namespace", of_text)
    ∷ (codes "prefix", of_text)
    ∷ (codes "export-env", of_bool)
    ∷ []

pub record Options : Type 0 where
  pub secret_name : Text
  pub mount_path : Text
  pub namespace : Text
  pub prefix : Text
  pub export_env : Bool

-- The variables behind flag.Parse.
unfoldable pub options : Map Text → Options
unfolding value_of
options values = record {
  secret_name = value_of (codes "secret") [] values;
  mount_path = value_of (codes "mount") [] values;
  namespace = value_of (codes "namespace") [] values;
  prefix = value_of (codes "prefix") [] values;
  export_env = text_eq (value_of (codes "export-env") (codes "false") values) (codes "true");
}

-- The clients that are made in the cluster.
pub record Access : Type 0 where
  pub get_tsecret : NamespacedName → Result TSecret
  pub reader : Reader

-- The exit code behind Write; a panic ends a program of Go with 2.
unfoldable pub exit_code : Run Unit → ℕ
exit_code (done _) = 0
exit_code (stopped e) = 1
exit_code crashed = 2

module _ {J W Config : Type 0} (http : Http) (json : Json J) (c : Chacha) (f : FileSystem W)
    (range : Map TSecretEntry → Map TSecretEntry) (pod_namespace : Text)
    (in_cluster_config : Result Config) (new_client : Config → Result Access) where
  -- Behind the checks of the flags.
  unfoldable pub run_inject : Options → Text → W → ℕ × W
  unfolding exit_code
  run_inject o namespace w = elim in_cluster_config [
    | err e ↦ (1, w)
    | ok config ↦ elim (new_client config) [
      | err e ↦ (1, w)
      | ok client ↦
          let (r, w') =
            write f c client.get_tsecret (resolve_key http json c.key_size client.reader) range
              namespace o.secret_name o.mount_path o.prefix o.export_env w in
          (exit_code r, w')
    ]
  ]

  unfoldable pub check_options : Options → W → ℕ × W
  unfolding run_inject
  check_options o w =
      if is_empty o.secret_name || is_empty o.mount_path
      then (2, w)
      else let namespace = if is_empty o.namespace then pod_namespace else o.namespace in
        if is_empty namespace then (2, w) else run_inject o namespace w

  -- main
  unfoldable pub inject_main : List Text → W → ℕ × W
  unfolding check_options options
  inject_main args w = elim (parse_flags inject_flags args []) [
    | parsed values rest ↦ check_options (options values) w
    | bad_flags ↦ (2, w)
    | help ↦ (0, w)
  ]
