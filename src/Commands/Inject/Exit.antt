-- ===== src/Commands/Inject/Exit.antt =====
-- The init container that the webhook adds, from its arguments to the files and its exit code.
use tsecret.Common.{
  ℕ, true, false, Text, Bytes, is_empty, Map, length, Result, ok, All, Pairwise, Reorder, subst,
  ◌≡◌, refl, sym, arith, ap, ◌∙◌, Bool-cases, inl, inr,
}
use tsecret.Api.{TSecret, TSecretEntry}
use tsecret.Crypto.{Chacha}
use tsecret.Keys.{resolve_key}
use tsecret.Keys.Laws.{length-resolve_key}
use tsecret.Providers.Base.{Http, Json}
use tsecret.Webhook.Plan.{TSecretInjection}
use tsecret.Webhook.Patch.{injector}
use tsecret.Inject.Files.{FileSystem, IsFileSystem}
use tsecret.Inject.Writer.Entries.{Plain, Apart, Spares}
use tsecret.Inject.Writer.Mounted.{Mounted, write-Mounted}
use tsecret.Inject.Writer.{Run, done, stopped, crashed, loader_name, write}
use tsecret.Commands.Inject.{Access, Options, exit_code, run_inject, check_options, inject_main}
use tsecret.Commands.Inject.Args.{options-injector_args, planned}

exit_code-zero : (r : Run Unit) → exit_code r ≡ 0 → r ≡ done tt
unfolding exit_code
exit_code-zero (done _) h = refl
exit_code-zero (stopped e) h = cc h
exit_code-zero crashed h = cc h

module _ {J W Config : Type 0} (http : Http) (json : Json J) (c : Chacha) (f : FileSystem W)
    (range : Map TSecretEntry → Map TSecretEntry) (pod_namespace : Text)
    (in_cluster_config : Result Config) (new_client : Config → Result Access)
    (plan : TSecretInjection) (image namespace : Text) where
  main-planned :
      (w : W)
      → inject_main http json c f range pod_namespace in_cluster_config new_client
          (injector plan image namespace).args
          w
        ≡ check_options http json c f range pod_namespace in_cluster_config new_client
            (planned plan namespace)
            w
  unfolding inject_main injector
  main-planned w =
      let (values, read, same) = options-injector_args plan namespace in
      rw (read, inject_main)
        (ap (λ o. check_options http json c f range pod_namespace in_cluster_config new_client o w)
          same)

  -- What a run of the command with the plan's arguments comes to, where the clients are made.
  pub main_lem :
      (w : W) (config : Config) (client : Access)
      → is_empty namespace ≡ false
      → is_empty plan.secret_name ≡ false
      → is_empty plan.mount_path ≡ false
      → in_cluster_config ≡ ok config
      → new_client config ≡ ok client
      → inject_main http json c f range pod_namespace in_cluster_config new_client
          (injector plan image namespace).args
          w
        ≡ (
          exit_code
              (write f c client.get_tsecret
                (resolve_key http json c.key_size client.reader)
                range
                namespace
                plan.secret_name
                plan.mount_path
                plan.prefix
                plan.export_env
                w).0,
          (write f c client.get_tsecret
              (resolve_key http json c.key_size client.reader)
              range
              namespace
              plan.secret_name
              plan.mount_path
              plan.prefix
              plan.export_env
              w).1,
        )
  unfolding check_options run_inject
  main_lem w config client given secret mount made connected =
      main-planned w
      ∙ rw (secret, mount, check_options)
          (rw (given, given) (rw (made, run_inject) (rw connected refl)))

  needs_options :
      (o : Options) (w : W)
      → (check_options http json c f range pod_namespace in_cluster_config new_client o w).0 ≡ 0
      → (is_empty o.secret_name ≡ false) × (is_empty o.mount_path ≡ false)
  unfolding check_options
  needs_options o w h = elim (Bool-cases (is_empty o.secret_name)) [
    | inl e ↦ absurd (omega (arith, rw (e, check_options) at h))
    | inr e ↦ elim (Bool-cases (is_empty o.mount_path)) [
      | inl e' ↦ absurd (omega (arith, rw (e, e', check_options) at h))
      | inr e' ↦ (e, e')
    ]
  ]

  -- On a file system that keeps its contract, where the pod's namespace is known, the client of the
  -- cluster finds the plan's TSecret, its entries have different keys, the names of their files have
  -- no slash and, with export, are not load-env.sh: if the init container that the webhook adds for
  -- the plan exits with 0, in whatever order the entries are visited, then a key of KeySize bytes was
  -- resolved, every entry's file under the plan's mount path holds the plaintext that Decrypt gives
  -- for it under this key, with export load-env.sh holds the script of the sorted names, and every
  -- other file of a plain name in the folder is as it was.
  pub exit-Mounted :
      (w : W) (config : Config) (client : Access) (t : TSecret)
      → IsFileSystem f
      → ((m : Map TSecretEntry) → Reorder m (range m))
      → in_cluster_config ≡ ok config
      → new_client config ≡ ok client
      → client.get_tsecret (record { namespace = namespace; name = plan.secret_name }) ≡ ok t
      → is_empty namespace ≡ false
      → All (Plain plan.prefix) t.spec.entries
      → Pairwise Apart t.spec.entries
      → (plan.export_env ≡ true → All (Spares plan.prefix loader_name) t.spec.entries)
      → (inject_main http json c f range pod_namespace in_cluster_config new_client
          (injector plan image namespace).args
          w).0
        ≡ 0
      → (key : Bytes) × (resolve_key http json c.key_size client.reader t.spec.encryption_ref
            namespace
          ≡ ok key)
        × (length key ≡ c.key_size)
        × Mounted f c key plan.mount_path plan.prefix plan.export_env t.spec.entries w
            (inject_main http json c f range pod_namespace in_cluster_config new_client
              (injector plan image namespace).args
              w).1
  exit-Mounted w config client t laws visits made connected got given plains apart free h =
      let (secret, mount) =
        needs_options (planned plan namespace) w
          (ap (λ (r : ℕ × W). r.0) (sym (main-planned w)) ∙ h) in
      let e = main_lem w config client given secret mount made connected in
      let resolve = resolve_key http json c.key_size client.reader in
      let (key, resolved, mounted) =
        write-Mounted f c client.get_tsecret resolve range namespace plan.secret_name
          plan.mount_path plan.prefix plan.export_env w t laws visits got plains apart free
          (exit_code-zero _ (ap (λ (r : ℕ × W). r.0) (sym e) ∙ h)) in
      (
        key,
        resolved,
        (length-resolve_key http json c.key_size client.reader t.spec.encryption_ref namespace key
            resolved).0,
        subst
            (λ (r : ℕ × W).
              Mounted f c key plan.mount_path plan.prefix plan.export_env t.spec.entries w r.1)
            (sym e) mounted,
      )
