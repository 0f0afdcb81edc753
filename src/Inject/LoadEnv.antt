-- ===== src/Inject/LoadEnv.antt =====
-- load-env.sh, run by a shell.
use tsecret.Common.{
  ℕ, true, false, Option, some, List, [], ◌∷◌, ◌++◌, Text, Bytes, codes, Map, insert, lookup,
  lookup-insert, cut-append, has_prefix, has_prefix-append, drop_prefix, drop_prefix-append, slash,
  All, All-append, Lacks, ◌≡◌, ◌≢◌, refl, ap, ◌∙◌, arith, append_assoc, text_eq, sort_strings,
  Reorder-sort_strings, All-Reorder, Bool-cases, inl, inr, In, text_eq_iff,
}
use tsecret.Inject.Shell.{
  is_path_char, all_chars, is_identifier, is_special, has_nul, substituted, read_assignment, cat,
  run_line, lines_of, run_lines, source_script, identifier_chars, path-Lacks, slash_chars,
  all_chars-append, lines_of-append,
}
use tsecret.Inject.Writer.{env_script, export_line, export_lines}

-- The line of a name, without its end.
abbrev assignment : Text → Text → Text
assignment mount name =
    name ++ b'=' ∷ (codes "\"$(cat " ++ ((mount ++ slash ∷ name) ++ b')' ∷ codes "\""))

lines-cons :
    (mount name : Text) (names : List Text)
    → export_lines mount (name ∷ names)
      ≡ (codes "export " ++ assignment mount name) ++ 10 ∷ export_lines mount names
unfolding export_lines export_line
lines-cons mount name names = simp append_assoc

read_assignment-assignment :
    (mount name : Text)
    → is_identifier name ≡ true
    → all_chars is_path_char mount ≡ true
    → read_assignment (assignment mount name) ≡ some (name, mount ++ slash ∷ name)
unfolding read_assignment text_eq
read_assignment-assignment mount name identifier plain =
    let chars = identifier_chars name identifier in
    let path = all_chars-append is_path_char mount (slash ∷ name) plain (slash_chars name chars) in
    let (_, _, no_equals) = path-Lacks name chars in
    let (no_paren, _, _) = path-Lacks (mount ++ slash ∷ name) path in
    let rest = (mount ++ slash ∷ name) ++ b')' ∷ codes "\"" in
    rw (cut-append b'=' name (codes "\"$(cat " ++ rest) no_equals, read_assignment)
      (rw (identifier, has_prefix-append (codes "\"$(cat ") rest)
        (rw
          (
            drop_prefix-append (codes "\"$(cat ") rest,
            cut-append b')' (mount ++ slash ∷ name) (codes "\"") no_paren,
          )
          (rw path refl)))

-- A name that a shell may export from its file in the folder.
pub record Sourceable (files : Text → Option Bytes) (mount name : Text) : Type 0 where
  pub identifier : is_identifier name ≡ true
  pub ordinary : is_special name ≡ false
  pub no_nul : has_nul (cat files (mount ++ slash ∷ name)) ≡ false

-- The value of a name whose file is in the folder.
abbrev value : (Text → Option Bytes) → Text → Text → Bytes
value files mount name = substituted (cat files (mount ++ slash ∷ name))

run_line-assignment :
    (files : Text → Option Bytes) (mount name : Text) (env : Map Bytes)
    → Sourceable files mount name
    → all_chars is_path_char mount ≡ true
    → run_line files (codes "export " ++ assignment mount name) env
      ≡ some (insert name (value files mount name) env)
unfolding run_line has_prefix drop_prefix
run_line-assignment files mount name env s plain =
    rw (read_assignment-assignment mount name s.identifier plain, run_line)
      (rw (s.ordinary, s.no_nul) refl)

pub assign : (Text → Option Bytes) → Text → List Text → Map Bytes → Map Bytes
assign files mount [] env = env
assign files mount (name ∷ names) env =
    assign files mount names (insert name (value files mount name) env)

run_line-empty : (files : Text → Option Bytes) (env : Map Bytes) → run_line files [] env ≡ some env
unfolding run_line
run_line-empty files env = refl

assignment-Lacks :
    (mount name : Text)
    → is_identifier name ≡ true
    → all_chars is_path_char mount ≡ true
    → Lacks 10 (codes "export " ++ assignment mount name)
assignment-Lacks mount name identifier plain =
    let chars = identifier_chars name identifier in
    let path = all_chars-append is_path_char mount (slash ∷ name) plain (slash_chars name chars) in
    let no_newline = λ (c : ℕ). c ≢ 10 in
    let path_lacks =
      All-append no_newline (mount ++ slash ∷ name) (b')' ∷ codes "\"")
        (path-Lacks (mount ++ slash ∷ name) path).1 (omega arith) in
    let value_lacks = All-append no_newline (codes "=\"$(cat ") _ (omega arith) path_lacks in
    All-append no_newline (codes "export ") _ (omega arith)
      (All-append no_newline name _ (path-Lacks name chars).1 value_lacks)

run-exports :
    (files : Text → Option Bytes) (mount : Text) (names : List Text) (env : Map Bytes)
    → All (Sourceable files mount) names
    → all_chars is_path_char mount ≡ true
    → run_lines files (lines_of (export_lines mount names)) env
      ≡ some (assign files mount names env)
unfolding run_lines lines_of export_lines assign
run-exports files mount [] env sourceable plain = rw (run_line-empty files env) refl
run-exports files mount (name ∷ names) env (sourceable, others) plain =
    let line = codes "export " ++ assignment mount name in
    ap (λ s. run_lines files (lines_of s) env) (lines-cons mount name names)
    ∙ ap (λ ls. run_lines files ls env)
        (lines_of-append line (export_lines mount names)
          (assignment-Lacks mount name sourceable.identifier plain))
    ∙ rw (run_line-assignment files mount name env sourceable plain, run_lines)
        (run-exports files mount names (insert name (value files mount name) env) others plain)

-- The script that is written runs, and assigns the value of each name's file.
pub source-env_script :
    (files : Text → Option Bytes) (mount : Text) (names : List Text) (env : Map Bytes)
    → All (Sourceable files mount) names
    → all_chars is_path_char mount ≡ true
    → source_script files (env_script mount names) env
      ≡ some (assign files mount (sort_strings names) env)
unfolding source_script env_script run_lines run_line has_prefix
source-env_script files mount names env sourceable plain =
    let sorted = sort_strings names in
    ap (λ ls. run_lines files ls env)
      (lines_of-append (codes "#!/bin/sh") (export_lines mount sorted) (omega arith))
    ∙ run-exports files mount sorted env
        (All-Reorder (Sourceable files mount) (Reorder-sort_strings names) sourceable) plain

assign_keeps :
    (files : Text → Option Bytes) (mount k : Text) (names : List Text) (env : Map Bytes)
    → lookup k env ≡ some (value files mount k)
    → lookup k (assign files mount names env) ≡ some (value files mount k)
unfolding assign
assign_keeps files mount k [] env h = h
assign_keeps files mount k (name ∷ names) env h =
    assign_keeps files mount k names (insert name (value files mount name) env)
      (elim (Bool-cases (text_eq name k)) [
        | inl e ↦
            lookup-insert name k (value files mount name) env
            ∙ rw e (ap (λ n. some (value files mount n)) ((text_eq_iff name k).0 e))
        | inr e ↦ lookup-insert name k (value files mount name) env ∙ rw e h
      ])

pub lookup-assign :
    (files : Text → Option Bytes) (mount k : Text) (names : List Text) (env : Map Bytes)
    → In k names
    → lookup k (assign files mount names env) ≡ some (value files mount k)
unfolding assign
lookup-assign files mount k [] env m = elim m [ ]
lookup-assign files mount k (name ∷ names) env (inl same) =
    assign_keeps files mount k names (insert name (value files mount name) env) (
      lookup-insert name k (value files mount name) env
      ∙ rw ((text_eq_iff name k).1 same) (ap (λ n. some (value files mount n)) same))
lookup-assign files mount k (name ∷ names) env (inr m) =
    lookup-assign files mount k names (insert name (value files mount name) env) m

pub assign_spares :
    (files : Text → Option Bytes) (mount k : Text) (names : List Text) (env : Map Bytes)
    → All (λ (name : Text). name ≢ k) names
    → lookup k (assign files mount names env) ≡ lookup k env
unfolding assign
assign_spares files mount k [] env h = refl
assign_spares files mount k (name ∷ names) env (ne, h) =
    assign_spares files mount k names (insert name (value files mount name) env) h
    ∙ ground (arith, lookup-insert name k (value files mount name) env, text_eq_iff name k)
