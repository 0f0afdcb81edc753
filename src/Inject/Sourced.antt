-- ===== src/Inject/Sourced.antt =====
-- A mount whose load-env.sh is sourced by a shell.
use tsecret.Common.{
  true, false, Option, none, some, List, [], ◌∷◌, ◌++◌, Text, Bytes, Map, lookup, slash, All, In,
  In-Reorder, Reorder-sort_strings, All-Reorder, ◌≡◌, ◌≢◌, refl, sym, ap, ◌∙◌, inl, inr,
  sort_strings, append_assoc,
}
use tsecret.Api.{TSecretEntry}
use tsecret.Crypto.{Chacha, plain, decrypt}
use tsecret.Inject.Path.{join, base, join-plain, IsPlainName}
use tsecret.Inject.Files.{File, FileSystem}
use tsecret.Inject.Shell.{
  is_path_char, all_chars, is_identifier, is_special, has_nul, substituted, cat, source_script,
}
use tsecret.Inject.LoadEnv.{Sourceable, assign, source-env_script, lookup-assign, assign_spares}
use tsecret.Inject.Writer.{loader_name}
use tsecret.Inject.Writer.Entries.{Opened, Plain, Spares}
use tsecret.Inject.Writer.Mounted.{Mounted, file_names}

-- The contents of the files, as a process sees them that may read them.
abbrev pub contents : {W : Type 0} → FileSystem W → W → Text → Option Bytes
contents f w path = elim (f.stat path w) [ none ↦ none | some g ↦ some g.content ]

-- The name of the entry's file is the name of a variable without a meaning of its own.
abbrev pub Exportable : Text → Text × TSecretEntry → Type 0
Exportable prefix entry =
    (is_identifier (prefix ++ entry.0) ≡ true) × (is_special (prefix ++ entry.0) ≡ false)

-- A plaintext of the entry has no NUL byte.
abbrev pub WithoutNul : Chacha → Bytes → Text × TSecretEntry → Type 0
WithoutNul c key entry = (s : Bytes) → decrypt c entry.1.value key ≡ plain s → has_nul s ≡ false

-- The variable of the entry is its plaintext without newlines at the end.
pub record Exported (c : Chacha) (key : Bytes) (prefix : Text) (env : Map Bytes)
    (entry : Text × TSecretEntry) : Type 0 where
  pub plaintext : Bytes
  pub opens : decrypt c entry.1.value key ≡ plain plaintext
  pub set : lookup (prefix ++ entry.0) env ≡ some (substituted plaintext)

other_file_names :
    (prefix k : Text) (es : Map TSecretEntry)
    → All (Spares prefix k) es
    → All (λ (name : Text). name ≢ k) (file_names prefix es)
other_file_names prefix k [] h = tt
other_file_names prefix k (x ∷ es) (ne, h) = (ne, other_file_names prefix k es h)

module _ {W : Type 0} (f : FileSystem W) (c : Chacha) (key : Bytes) (mount prefix : Text)
    (clean_mount : base mount ≡ mount ++ slash ∷ []) (w : W) where
  -- The path that the script writes for a file is the path of the file.
  script_path : (name : Text) → IsPlainName name → join mount name ≡ mount ++ slash ∷ name
  script_path name k =
      join-plain mount name k
      ∙ ap (λ b. b ++ name) clean_mount
      ∙ append_assoc mount (slash ∷ []) name

  cat-Opened :
      (x : Text × TSecretEntry)
      → Plain prefix x
      → (o : Opened f c key mount prefix w x)
      → cat (contents f w) (mount ++ slash ∷ (prefix ++ x.0)) ≡ o.plaintext
  unfolding cat
  cat-Opened x k o =
      let found : f.stat (mount ++ slash ∷ (prefix ++ x.0)) w ≡ some o.file =
        ap (λ path. f.stat path w) (sym (script_path (prefix ++ x.0) k)) ∙ o.found in
      rw (found, cat) o.held

  files-Sourceable :
      (es : Map TSecretEntry)
      → All (Plain prefix) es
      → All (Opened f c key mount prefix w) es
      → All (Exportable prefix) es
      → All (WithoutNul c key) es
      → All (Sourceable (contents f w) mount) (file_names prefix es)
  files-Sourceable [] plains opened exportable texts = tt
  files-Sourceable (x ∷ es) (k, plains) (o, opened) (e, exportable) (no_nul, texts) = (
    record {
      identifier = e.0;
      ordinary = e.1;
      no_nul = ap has_nul (cat-Opened x k o) ∙ no_nul o.plaintext o.opens;
    },
    files-Sourceable es plains opened exportable texts,
  )

  set_variables :
      (names : List Text) (env : Map Bytes) (es : Map TSecretEntry)
      → All (Plain prefix) es
      → All (Opened f c key mount prefix w) es
      → ((name : Text) → In name (file_names prefix es) → In name names)
      → All (Exported c key prefix (assign (contents f w) mount names env)) es
  set_variables names env [] plains opened listed = tt
  set_variables names env (x ∷ es) (k, plains) (o, opened) listed = (
    record {
      plaintext = o.plaintext;
      opens = o.opens;
      set =
          lookup-assign (contents f w) mount (prefix ++ x.0) names env
            (listed (prefix ++ x.0) (inl refl))
          ∙ ap (λ s. some (substituted s)) (cat-Opened x k o);
    },
    set_variables names env es plains opened (λ name m. listed name (inr m)),
  )

-- On a mount that is as promised with export, with a mount path that is clean and not the root and
-- has only letters, digits and _ - . /, where the names of the files have no slash and are names of
-- variables other than `other` without a meaning of their own to the shell (so not PATH), and no
-- plaintext has a NUL byte: load-env.sh is there, and a shell as described that sources it in any
-- environment goes through and leaves an environment in which each entry's name is set to the
-- plaintext that Decrypt gives for the entry, without the newlines at its end, and `other` is as it
-- was.
pub source-Mounted :
    {W : Type 0} (f : FileSystem W) (c : Chacha) (key : Bytes) (mount prefix : Text)
    (entries : Map TSecretEntry) (w w' : W) (env : Map Bytes) (other : Text)
    → Mounted f c key mount prefix true entries w w'
    → base mount ≡ mount ++ slash ∷ []
    → all_chars is_path_char mount ≡ true
    → All (Plain prefix) entries
    → All (Exportable prefix) entries
    → All (WithoutNul c key) entries
    → All (Spares prefix other) entries
    → (script : File) × (env' : Map Bytes) × (f.stat (join mount loader_name) w' ≡ some script)
      × (source_script (contents f w') script.content env ≡ some env')
      × All (Exported c key prefix env') entries
      × (lookup other env' ≡ lookup other env)
source-Mounted f c key mount prefix entries w w' env other mounted clean_mount plain_mount plains
      exportable texts spares =
    let (script, found, held) = mounted.loader refl in
    let names = file_names prefix entries in
    let sorted = sort_strings names in
    let order = Reorder-sort_strings names in
    (
      script,
      assign (contents f w') mount sorted env,
      found,
      ap (λ s. source_script (contents f w') s env) held
          ∙ source-env_script (contents f w') mount names env
              (files-Sourceable f c key mount prefix clean_mount w' entries plains mounted.opened
                exportable texts)
              plain_mount,
      set_variables f c key mount prefix clean_mount w' sorted env entries plains mounted.opened
          (λ name m. In-Reorder name order m),
      assign_spares (contents f w') mount other sorted env (
          All-Reorder (λ (name : Text). name ≢ other) order
            (other_file_names prefix other entries spares)),
    )
