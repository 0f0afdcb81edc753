-- ===== src/Webhook/Entrypoint/Laws.antt =====
-- What the wrapper around a container's command does.
use tsecret.Common.{
  true, false, none, some, List, [], ◌∷◌, ◌++◌, Text, codes, contains, contains_infix, has_prefix,
  lookup, ok, ◌≡◌, refl, arith, Bool-cases, inl, inr, ◌≢◌,
}
use tsecret.Webhook.Types.{Container, Pod}
use tsecret.Webhook.Plan.{TSecretInjection}
use tsecret.Webhook.{loader_path}
use tsecret.Webhook.Shell.{shell_join}
use tsecret.Webhook.Shell.Words.{shell_words, shell_words-shell_join}
use tsecret.Webhook.Entrypoint.{
  annot_entrypoint, given, own_command, resolve_entrypoint, load_env, already_wrapped,
  source_loaders, wrap_container_for_env_loader,
}

contains_behind : (a s sub : Text) → contains s sub ≡ true → contains (a ++ s) sub ≡ true
unfolding contains
contains_behind [] s sub h = h
contains_behind (c ∷ a) s sub h = ground (arith, contains_behind a s sub h)

has_prefix_before : (s b sub : Text) → has_prefix s sub ≡ true → has_prefix (s ++ b) sub ≡ true
unfolding has_prefix
has_prefix_before [] [] [] h = refl
has_prefix_before [] (c ∷ b) [] h = refl
has_prefix_before [] b (d ∷ sub) h = cc h
has_prefix_before (c ∷ s) b [] h = refl
has_prefix_before (c ∷ s) b (d ∷ sub) h = ground (arith, has_prefix_before s b sub)

contains_before : (s b sub : Text) → contains s sub ≡ true → contains (s ++ b) sub ≡ true
unfolding contains
contains_before [] [] sub h = h
contains_before [] (c ∷ b) sub h = ground (arith, has_prefix_before [] (c ∷ b) sub)
contains_before (c ∷ s) b sub h =
    ground (arith, has_prefix_before (c ∷ s) b sub, contains_before s b sub)

-- The path of a loader names the script.
loader_contained : (dir : Text) → contains (dir ++ codes "/load-env.sh") load_env ≡ true
loader_contained dir =
    contains_behind dir (codes "/load-env.sh") load_env (contains_infix (b'/' ∷ []) load_env [])

wrapped_contained :
    (c : Container) (plan : TSecretInjection) (loaders : List Text) (entrypoint : Text)
    → already_wrapped c ≡ false
    → already_wrapped (wrap_container_for_env_loader c (loader_path plan ∷ loaders) entrypoint)
      ≡ true
unfolding wrap_container_for_env_loader already_wrapped source_loaders loader_path
wrapped_contained c plan loaders entrypoint h =
    let loader = plan.mount_path ++ codes "/load-env.sh" in
    let sourced = source_loaders loaders in
    rw h (
      contains_behind (codes "set -a; . ")
        (loader ++ codes "; " ++ sourced ++ codes "set +a; exec " ++ entrypoint) load_env
        (contains_before (loader ++ codes "; " ++ sourced ++ codes "set +a; exec ") entrypoint
          load_env
          (contains_before (loader ++ codes "; " ++ sourced) (codes "set +a; exec ") load_env (
            contains_before (loader ++ codes "; ") sourced load_env
              (contains_before loader (codes "; ") load_env (loader_contained plan.mount_path))))))

-- A container that has been wrapped with the loader of a plan is left as it is, whatever loaders
-- and entrypoint the next admission finds.
pub wrap_twice :
    (c : Container) (plan : TSecretInjection) (loaders loaders' : List Text)
    (entrypoint entrypoint' : Text)
    → wrap_container_for_env_loader
        (wrap_container_for_env_loader c (loader_path plan ∷ loaders) entrypoint)
        loaders'
        entrypoint'
      ≡ wrap_container_for_env_loader c (loader_path plan ∷ loaders) entrypoint
unfolding wrap_container_for_env_loader
wrap_twice c plan loaders loaders' entrypoint entrypoint' = elim (Bool-cases (already_wrapped c)) [
  | inl h ↦ rw h (rw h refl)
  | inr h ↦ rw (wrapped_contained c plan loaders entrypoint h) refl
]

-- Where no annotation gives an entrypoint and the container has a command or arguments, what is
-- executed is read by the shell as exactly that command with these arguments.
pub resolve_entrypoint-words :
    (pod : Pod) (c : Container)
    → given (lookup (annot_entrypoint ++ b'.' ∷ c.name) pod.annotations) ≡ none
    → given (lookup annot_entrypoint pod.annotations) ≡ none
    → c.command ++ c.args ≢ []
    → (entrypoint : Text) × (resolve_entrypoint pod c ≡ ok entrypoint)
      × (shell_words entrypoint ≡ some (c.command ++ c.args))
unfolding resolve_entrypoint own_command
resolve_entrypoint-words pod c own shared some_command =
    (shell_join (c.command ++ c.args), ground arith, shell_words-shell_join (c.command ++ c.args))
