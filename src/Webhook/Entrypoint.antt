-- ===== src/Webhook/Entrypoint.antt =====
-- The annotations of pkg/webhook/mutate.go: exportEnvEnabled, resolveEntrypoint, and the wrapper
-- around the command of a container.
pub mod Laws
use tsecret.Common.{
  ℕ, Bool, true, false, ◌&&◌, ◌||◌, not, Option, none, some, List, [], ◌∷◌, ◌++◌, Text, codes,
  text_eq, contains, is_empty, Map, lookup, Message, Result, ok, err, errorf, text, ltb, leb, ◌==◌,
  ◌+◌, if◌then◌else◌,
}
use tsecret.Webhook.Types.{Container, Pod}
use tsecret.Webhook.Shell.{shell_join}

abbrev pub annot_export_env : Text
annot_export_env = codes "tsecret.io/export-env"

abbrev pub annot_entrypoint : Text
annot_entrypoint = codes "tsecret.io/entrypoint"

-- strings.EqualFold with "true": no character outside ASCII folds to one of its letters.
fold_char : ℕ → ℕ
fold_char c = if leb b'A' c && leb c b'Z' then c + 32 else c

fold : Text → Text
unfolding fold_char
fold [] = []
fold (c ∷ s) = fold_char c ∷ fold s

unfoldable pub equal_fold_true : Text → Bool
unfolding fold
equal_fold_true v = text_eq (fold v) (codes "true")

unfoldable pub export_env_enabled : Pod → Text → Bool
export_env_enabled pod container =
    elim (lookup (annot_export_env ++ b'.' ∷ container) pod.annotations) [
      | some v ↦ equal_fold_true v
      | none ↦ elim (lookup annot_export_env pod.annotations) [
        | some v ↦ equal_fold_true v
        | none ↦ false
      ]
    ]

is_space : ℕ → Bool
is_space c = c == 32 || (leb 9 c && leb c 13)

-- strings.TrimSpace(s) == "": every character is white space of Unicode, in UTF-8.
unfoldable pub is_blank : Text → Bool
unfolding is_space
is_blank [] = true
is_blank (a ∷ []) = is_space a
is_blank (a ∷ b ∷ []) = (is_space a && is_space b) || (a == 0xc2 && (b == 0x85 || b == 0xa0))
is_blank (a ∷ b ∷ c ∷ s) =
    let one = is_blank (b ∷ c ∷ s) in
    let two = is_blank (c ∷ s) in
    let three = is_blank s in
    if is_space a
    then one
    else if a == 0xc2 && (b == 0x85 || b == 0xa0)
    then two
    else if (a == 0xe1 && b == 0x9a && c == 0x80)
        || (a == 0xe2
            && ((b == 0x80 && (leb 0x80 c && leb c 0x8a || c == 0xa8 || c == 0xa9 || c == 0xaf))
                || (b == 0x81 && c == 0x9f)))
        || (a == 0xe3 && b == 0x80 && c == 0x80)
    then three
    else false

-- An annotation counts unless it is missing or blank.
unfoldable pub given : Option Text → Option Text
given none = none
given (some v) = if is_blank v then none else some v

-- What is left where no annotation gives an entrypoint.
unfoldable pub own_command : Container → Result Text
own_command c = elim (c.command ++ c.args) [
  | [] ↦ err (
      errorf
        "tsecret.io/export-env enabled for container %q but no entrypoint found: set annotation %s.%s or %s, or define container command/args"
        (text c.name ∷ text annot_entrypoint ∷ text c.name ∷ text annot_entrypoint ∷ []))
  | p ∷ ps ↦ ok (shell_join (p ∷ ps))
]

unfoldable pub resolve_entrypoint : Pod → Container → Result Text
unfolding given own_command
resolve_entrypoint pod c =
    elim (given (lookup (annot_entrypoint ++ b'.' ∷ c.name) pod.annotations)) [
      | some v ↦ ok v
      | none ↦ elim (given (lookup annot_entrypoint pod.annotations)) [
        | some v ↦ ok v
        | none ↦ own_command c
      ]
    ]

abbrev pub load_env : Text
load_env = codes "load-env.sh"

unfoldable pub already_wrapped : Container → Bool
already_wrapped c = elim c.args [ [] ↦ false | a ∷ _ ↦ contains a load_env ]

-- `. loader; ` for each loader
unfoldable pub source_loaders : List Text → Text
source_loaders [] = []
source_loaders (l ∷ ls) = codes ". " ++ l ++ codes "; " ++ source_loaders ls

unfoldable pub wrap_container_for_env_loader : Container → List Text → Text → Container
wrap_container_for_env_loader c loaders entrypoint = if already_wrapped c then c else record c {
  command = codes "/bin/sh" ∷ codes "-c" ∷ [];
  args = (codes "set -a; " ++ source_loaders loaders ++ codes "set +a; exec " ++ entrypoint) ∷ [];
}
