-- ===== src/Commands/Encrypt.antt =====
-- cmd/encrypt/main.go. os.ReadFile and the reader of random bytes are parameters: `rand i` serves
-- the pair at place `i`. Besides the exit code a run leaves the lines that it prints.
pub mod Lines
pub mod Run
use tsecret.Common.{
  ℕ, suc, Bool, true, false, not, Option, none, some, List, [], ◌∷◌, ◌++◌, Text, Bytes, codes,
  is_empty, Map, cut, length, Result, ok, err, errorf, num, ◌>>=◌, ◌==◌, if◌then◌else◌,
}
use tsecret.Crypto.{Chacha, encrypt, corrupt, algorithm_xchacha}
use tsecret.Crypto.Base64
use tsecret.Commands.Flags.{Kind, of_text, Flags, parsed, bad_flags, help, parse_flags, value_of}

abbrev pub encrypt_flags : Map Kind
encrypt_flags =
    (codes "key-file", of_text) ∷ (codes "key-b64", of_text) ∷ (codes "algorithm", of_text) ∷ []

unfoldable pub split_pair : Text → Option (Text × Text)
split_pair arg = cut b'=' arg

module _ (c : Chacha) where
  unfoldable pub load_key_file : (Text → Result Bytes) → Text → Result Bytes
  load_key_file read_file key_file = do
    contents ← read_file key_file
    (if not (length contents == c.key_size)
        then err (
            errorf "key-file must be %d bytes, got %d"
              (num c.key_size ∷ num (length contents) ∷ []))
        else ok contents)

  unfoldable pub load_key_b64 : Text → Result Bytes
  load_key_b64 key_b64 = elim (Base64.std_decode key_b64) [
    | none ↦ err corrupt
    | some contents ↦
        if not (length contents == c.key_size)
        then err (
            errorf "key-b64 must decode to %d bytes, got %d"
              (num c.key_size ∷ num (length contents) ∷ []))
        else ok contents
  ]

  unfoldable pub load_key : (Text → Result Bytes) → Text → Text → Result Bytes
  unfolding load_key_file load_key_b64
  load_key read_file key_file key_b64 =
      if not (is_empty key_file)
      then load_key_file read_file key_file
      else if not (is_empty key_b64)
      then load_key_b64 key_b64
      else err (errorf "provide -key-file or -key-b64" [])

  module _ (rand : ℕ → ℕ → Result Bytes) where
    -- The loop over the pairs.
    unfoldable pub encrypt_pairs : Bytes → Text → List Text → ℕ → ℕ × List Text
    unfolding split_pair
    encrypt_pairs key algo [] i = (0, [])
    encrypt_pairs key algo (arg ∷ args) i =
        let (code, lines) = encrypt_pairs key algo args (suc i) in
        elim (split_pair arg) [
          | none ↦ (2, [])
          | some (name, value) ↦ elim (encrypt c (rand i) value key algo) [
            | err e ↦ (1, [])
            | ok enc ↦ (code, (name ++ b'=' ∷ enc) ∷ lines)
          ]
        ]

    unfoldable pub run_encrypt : (Text → Result Bytes) → Map Text → List Text → ℕ × List Text
    unfolding value_of encrypt_pairs
    run_encrypt read_file values [] = (2, [])
    run_encrypt read_file values (arg ∷ args) =
        elim (load_key read_file (value_of (codes "key-file") [] values)
          (value_of (codes "key-b64") [] values)) [
            | err e ↦ (1, [])
            | ok key ↦
                encrypt_pairs key (value_of (codes "algorithm") algorithm_xchacha values)
                  (arg ∷ args) 0
          ]

    -- main
    unfoldable pub encrypt_main : (Text → Result Bytes) → List Text → ℕ × List Text
    unfolding run_encrypt
    encrypt_main read_file args = elim (parse_flags encrypt_flags args []) [
      | parsed values rest ↦ run_encrypt read_file values rest
      | bad_flags ↦ (2, [])
      | help ↦ (0, [])
    ]
