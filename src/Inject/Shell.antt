-- ===== src/Inject/Shell.antt =====
-- What a POSIX shell makes of load-env.sh, independent of the code that writes it: a description of
-- the lines `export NAME="$(cat FILE)"`, of comments and of empty lines. Every other line is not
-- covered, nor is a FILE with a character that a shell might treat as special, a file that holds a
-- NUL byte, or a NAME that has a meaning of its own to the shell, to the loader or to `cat`: after
-- an assignment to PATH the next line may find no `cat`. The environment is taken to stay within
-- what the system lets a process have.
use tsecret.Common.{
  ℕ, Bool, true, false, ◌&&◌, ◌||◌, Option, none, some, List, [], ◌∷◌, ◌++◌, Text, Bytes, codes,
  Map, insert, cut, has_prefix, drop_prefix, is_empty, slash, leb, ◌==◌, if◌then◌else◌, Lacks, ◌≡◌,
  ◌≢◌, refl, arith, reverse, text_eq,
}

is_letter : ℕ → Bool
is_letter c = leb b'a' c && leb c b'z' || (leb b'A' c && leb c b'Z') || c == b'_'

is_digit : ℕ → Bool
is_digit c = leb b'0' c && leb c b'9'

-- A character of a name of a variable.
unfoldable pub is_name_char : ℕ → Bool
unfolding is_letter is_digit
is_name_char c = is_letter c || is_digit c

-- A character of a path that stands for itself.
unfoldable pub is_path_char : ℕ → Bool
unfolding is_name_char
is_path_char c = is_name_char c || c == slash || c == b'-' || c == b'.'

unfoldable pub all_chars : (ℕ → Bool) → Text → Bool
all_chars p [] = true
all_chars p (c ∷ s) = p c && all_chars p s

-- The name of a variable.
unfoldable pub is_identifier : Text → Bool
unfolding is_letter is_name_char all_chars
is_identifier [] = false
is_identifier (c ∷ s) = is_letter c && all_chars is_name_char s

drop_newlines : Text → Text
drop_newlines [] = []
drop_newlines (c ∷ s) = let rest = drop_newlines s in if c == 10 then rest else c ∷ s

-- A command substitution drops the newlines at the end of what the command writes.
unfoldable pub substituted : Bytes → Bytes
unfolding drop_newlines
substituted s = reverse (drop_newlines (reverse s))

-- The name and the path of `NAME="$(cat PATH)"`.
unfoldable pub read_assignment : Text → Option (Text × Text)
read_assignment s = elim (cut b'=' s) [
  | none ↦ none
  | some (name, rest) ↦
      if is_identifier name && has_prefix rest (codes "\"$(cat ")
      then elim (cut b')' (drop_prefix rest (codes "\"$(cat "))) [
        | none ↦ none
        | some (path, end) ↦
            if all_chars is_path_char path && text_eq end (codes "\"")
            then some (name, path)
            else none
      ]
      else none
]

-- The variables that the shell, the loader or the C library read or set.
abbrev special_names : List Text
special_names =
    codes "PATH"
    ∷ codes "ENV"
    ∷ codes "IFS"
    ∷ codes "LANG"
    ∷ codes "LANGUAGE"
    ∷ codes "NLSPATH"
    ∷ codes "PWD"
    ∷ codes "OLDPWD"
    ∷ codes "PPID"
    ∷ codes "UID"
    ∷ codes "EUID"
    ∷ codes "GROUPS"
    ∷ codes "LINENO"
    ∷ codes "OPTARG"
    ∷ codes "OPTIND"
    ∷ codes "OPTERR"
    ∷ codes "RANDOM"
    ∷ codes "SRANDOM"
    ∷ codes "SECONDS"
    ∷ codes "SHELLOPTS"
    ∷ codes "SHLVL"
    ∷ codes "DIRSTACK"
    ∷ codes "FUNCNAME"
    ∷ codes "HISTCMD"
    ∷ codes "COMP_WORDBREAKS"
    ∷ codes "POSIXLY_CORRECT"
    ∷ codes "GCONV_PATH"
    ∷ codes "LOCPATH"
    ∷ codes "TMPDIR"
    ∷ codes "_"
    ∷ []

one_of : Text → List Text → Bool
one_of name [] = false
one_of name (t ∷ ts) = text_eq name t || one_of name ts

unfoldable pub is_special : Text → Bool
unfolding one_of
is_special name =
    one_of name special_names
    || has_prefix name (codes "LD_")
    || has_prefix name (codes "LC_")
    || has_prefix name (codes "BASH")
    || has_prefix name (codes "EPOCH")
    || has_prefix name (codes "MALLOC_")
    || has_prefix name (codes "GLIBC_")

unfoldable pub has_nul : Bytes → Bool
has_nul [] = false
has_nul (c ∷ s) = c == 0 || has_nul s

-- A file that is not there gives the empty text.
unfoldable pub cat : (Text → Option Bytes) → Text → Bytes
cat files path = elim (files path) [ none ↦ [] | some s ↦ s ]

unfoldable pub run_line : (Text → Option Bytes) → Text → Map Bytes → Option (Map Bytes)
unfolding read_assignment cat substituted
run_line files line env =
    if is_empty line || has_prefix line (codes "#")
    then some env
    else if has_prefix line (codes "export ")
    then elim (read_assignment (drop_prefix line (codes "export "))) [
      | none ↦ none
      | some (name, path) ↦
          if is_special name || has_nul (cat files path)
          then none
          else some (insert name (substituted (cat files path)) env)
    ]
    else none

first_line : ℕ → List Text → List Text
first_line c [] = (c ∷ []) ∷ []
first_line c (l ∷ ls) = (c ∷ l) ∷ ls

unfoldable pub lines_of : Text → List Text
unfolding first_line
lines_of [] = [] ∷ []
lines_of (c ∷ s) = let rest = lines_of s in if c == 10 then [] ∷ rest else first_line c rest

unfoldable pub run_lines : (Text → Option Bytes) → List Text → Map Bytes → Option (Map Bytes)
unfolding run_line
run_lines files [] env = some env
run_lines files (l ∷ ls) env = elim (run_line files l env) [
  | none ↦ none
  | some env' ↦ run_lines files ls env'
]

-- `. script` in the environment `env`, with the files as they are.
unfoldable pub source_script : (Text → Option Bytes) → Text → Map Bytes → Option (Map Bytes)
unfolding run_lines lines_of
source_script files script env = run_lines files (lines_of script) env

pub path_char-apart : (c : ℕ) → is_path_char c ≡ true → (c ≢ b')') × (c ≢ 10) × (c ≢ b'=')
unfolding is_path_char is_name_char is_letter is_digit
path_char-apart c h = (λ e. cc (rw e at h), λ e. cc (rw e at h), λ e. cc (rw e at h))

-- The characters of a name stand for themselves in a path.
pub name_char-path_char : (c : ℕ) → is_name_char c ≡ true → is_path_char c ≡ true
unfolding is_path_char
name_char-path_char c h = rw h refl

both : (a b : Bool) → (a && b) ≡ true → (a ≡ true) × (b ≡ true)
both true b h = (refl, h)
both false b h = cc h

weaken : (s : Text) → all_chars is_name_char s ≡ true → all_chars is_path_char s ≡ true
unfolding all_chars
weaken [] h = refl
weaken (c ∷ s) h =
    let (here, rest) = both (is_name_char c) (all_chars is_name_char s) h in
    rw (name_char-path_char c here, weaken s rest) refl

pub identifier_chars : (s : Text) → is_identifier s ≡ true → all_chars is_path_char s ≡ true
unfolding is_identifier all_chars is_name_char
identifier_chars [] h = refl
identifier_chars (c ∷ s) h =
    let (here, rest) = both (is_letter c) (all_chars is_name_char s) h in
    let letter : is_name_char c ≡ true = rw (here, is_name_char) refl in
    weaken (c ∷ s) (rw (letter, all_chars) rest)

pub slash_chars :
    (s : Text) → all_chars is_path_char s ≡ true → all_chars is_path_char (slash ∷ s) ≡ true
unfolding all_chars is_path_char is_name_char is_letter is_digit
slash_chars s h = h

pub path-Lacks :
    (s : Text) → all_chars is_path_char s ≡ true → Lacks b')' s × Lacks 10 s × Lacks b'=' s
unfolding all_chars
path-Lacks [] h = (tt, tt, tt)
path-Lacks (c ∷ s) h =
    let (here, rest) = both (is_path_char c) (all_chars is_path_char s) h in
    let (paren, newline, equals) = path_char-apart c here in
    let (parens, newlines, equal_signs) = path-Lacks s rest in
    ((paren, parens), (newline, newlines), (equals, equal_signs))

pub all_chars-append :
    (p : ℕ → Bool) (s t : Text)
    → all_chars p s ≡ true
    → all_chars p t ≡ true
    → all_chars p (s ++ t) ≡ true
unfolding all_chars
all_chars-append p [] t h k = k
all_chars-append p (c ∷ s) t h k = ground (arith, all_chars-append p s t)

pub lines_of-append : (l s : Text) → Lacks 10 l → lines_of (l ++ 10 ∷ s) ≡ l ∷ lines_of s
unfolding lines_of first_line
lines_of-append [] s h = refl
lines_of-append (c ∷ l) s (ne, h) = ground (arith, lines_of-append l s h)
