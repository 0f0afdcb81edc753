-- ===== src/Inject/Writer.antt =====
-- pkg/inject/writer.go: Write is `write`, its loop `write_entries` with the body `write_entry`, and
-- WriteEnvLoader is `write_env_loader`. The client's Get, the KeyResolver, the files and the order
-- in which Go ranges over the data are parameters; Decrypt may panic, so a run has three outcomes.
pub mod Entries
pub mod Mounted
pub mod Again
pub mod Twice
use tsecret.Common.{
  ℕ, Bool, true, false, none, some, List, [], ◌∷◌, ◌++◌, Text, Bytes, codes, Map, map, Result, ok,
  err, Message, wrapf, text, if◌then◌else◌, sort_strings, String,
}
use tsecret.Api.{NamespacedName, EncryptionRef, TSecret, TSecretEntry}
use tsecret.Crypto.{Chacha, Decrypted, plain, failed, panics, decrypt}
use tsecret.Inject.Path.{join}
use tsecret.Inject.Files.{FileSystem}

pub data Run (A : Type 0) : Type 0 where
  done : A → Run A
  stopped : Message → Run A
  crashed : Run A

-- `if err != nil { return fmt.Errorf(format, target, err) }` behind a write, with what is returned.
pub of_write : {A : Type 0} → String → List Text → A → Result (Unit {0}) → Run A
of_write format args a (ok _) = done a
of_write format args a (err e) = stopped (wrapf format (map text args) e)

-- `if err != nil { return err }` behind a step that changes the files.
unfoldable pub after : {W A B : Type 0} → Run A × W → (A → W → Run B × W) → Run B × W
after (done a, w) next = next a w
after (stopped e, w) next = (stopped e, w)
after (crashed, w) next = (crashed, w)

-- What becomes of MkdirAll.
pub made : {W : Type 0} → Result (Unit {0}) × W → Run Unit × W
made (ok _, w) = (done tt, w)
made (err e, w) = (stopped (wrapf "create mount path: %w" [] e), w)

abbrev pub loader_name : Text
loader_name = codes "load-env.sh"

unfoldable pub export_line : Text → Text → Text
export_line mount name =
    codes "export "
    ++ (name ++ (codes "=\"$(cat " ++ (mount ++ (codes "/" ++ (name ++ codes ")\"\n")))))

unfoldable pub export_lines : Text → List Text → Text
unfolding export_line
export_lines mount [] = []
export_lines mount (name ∷ names) = export_line mount name ++ export_lines mount names

-- The text of load-env.sh
unfoldable pub env_script : Text → List Text → Text
unfolding export_lines
env_script mount names = codes "#!/bin/sh\n" ++ export_lines mount (sort_strings names)

module _ {W : Type 0} (f : FileSystem W) where
  unfoldable pub write_env_loader : Text → List Text → W → Run Unit × W
  unfolding of_write
  write_env_loader mount names w =
      let (r, w') = f.write_file (join mount loader_name) (env_script mount names) 320 w in
      (of_write "write load-env.sh: %w" [] tt r, w')

  module _ (c : Chacha) (key : Bytes) (mount prefix : Text) where
    -- The body of the loop, with the name of the file.
    unfoldable pub write_entry : Text → TSecretEntry → W → Run Text × W
    unfolding of_write
    write_entry data_key entry w = elim (decrypt c entry.value key) [
      | plain plaintext ↦
          let target = join mount (prefix ++ data_key) in
          let (r, w') = f.write_file target plaintext 256 w in
          (of_write "write file %q: %w" (target ∷ []) (prefix ++ data_key) r, w')
      | failed e ↦ (stopped (wrapf "decrypt key %q: %w" (text data_key ∷ []) e), w)
      | panics ↦ (crashed, w)
    ]

    -- The loop over the entries as they are visited, with the names of the files.
    unfoldable pub write_entries : Map TSecretEntry → W → Run (List Text) × W
    unfolding after write_entry
    write_entries [] w = (done [], w)
    write_entries ((data_key, entry) ∷ es) w =
        after (write_entry data_key entry w)
          (λ name w1. after (write_entries es w1) (λ names w2. (done (name ∷ names), w2)))

  -- The client's Get, the KeyResolver, and the order of a visit of a map.
  module _ (c : Chacha) (get : NamespacedName → Result TSecret)
      (resolve : EncryptionRef → Text → Result Bytes)
      (range : Map TSecretEntry → Map TSecretEntry) where
    -- Behind the Get and the key.
    unfoldable pub write_files : Map TSecretEntry → Bytes → Text → Text → Bool → W → Run Unit × W
    unfolding made write_entries write_env_loader
    write_files entries key mount prefix export_env w =
        after (made (f.mkdir_all mount 448 w)) (λ _ w1.
          after (write_entries c key mount prefix (range entries) w1)
            (λ names w2. if export_env then write_env_loader mount names w2 else (done tt, w2)))

    unfoldable pub write : Text → Text → Text → Text → Bool → W → Run Unit × W
    write namespace name mount prefix export_env w =
        elim (get (record { namespace = namespace; name = name })) [
          | ok t ↦ elim (resolve t.spec.encryption_ref namespace) [
            | ok key ↦ write_files t.spec.entries key mount prefix export_env w
            | err e ↦ (stopped (wrapf "resolve encryption key: %w" [] e), w)
          ]
          | err e ↦ (stopped (wrapf "get TSecret %s/%s: %w" (text namespace ∷ text name ∷ []) e), w)
        ]
