-- ===== src/Commands/Encrypt/Run.antt =====
-- A run of the command with a key on its command line.
use tsecret.Common.{
  ℕ, suc, true, false, some, List, [], ◌∷◌, ◌++◌, Text, Bytes, codes, is_empty, Map, cut, lookup,
  insert, has_prefix, text_eq, length, Result, ok, ◌≡◌, refl, ap, ◌∙◌, arith, All, cut,
}
use tsecret.Crypto.{Chacha, IsChacha, is_supported, algorithm_xchacha}
use tsecret.Crypto.Base64
use tsecret.Crypto.Base64.RoundTrip.{IsByte, std_decode-encode}
use tsecret.Crypto.RoundTrip.{Reads, decrypt-encrypt}
use tsecret.Commands.Flags.{Kind, parsed, parse_flags, read_flag, positional, value_of}
use tsecret.Commands.Encrypt.Lines.{Lines, pairs-Lines}
use tsecret.Commands.Encrypt.{
  encrypt_flags, split_pair, load_key_b64, load_key, encrypt_pairs, run_encrypt, encrypt_main,
}

-- An argument that has a `=`.
pub record IsPair (arg : Text) : Type 0 where
  pub name : Text
  pub value : Bytes
  pub split : cut b'=' arg ≡ some (name, value)
  pub bytes : All IsByte value

pairs_deliver :
    (c : Chacha) (rand : ℕ → ℕ → Result Bytes) (key : Bytes) (algo : Text) (args : List Text)
    (i : ℕ)
    → IsChacha c
    → ((j : ℕ) → Reads (rand j))
    → length key ≡ c.key_size
    → is_supported algo ≡ true
    → All IsPair args
    → (encrypt_pairs c rand key algo args i).0 ≡ 0
unfolding encrypt_pairs split_pair
pairs_deliver c rand key algo [] i sound reads sized supported pairs = refl
pairs_deliver c rand key algo (arg ∷ args) i sound reads sized supported (p, pairs) =
    let (enc, sealed, _, _) =
      decrypt-encrypt c (rand i) p.value key algo sound (reads i) p.bytes sized supported in
    rw (p.split, encrypt_pairs)
      (rw sealed (pairs_deliver c rand key algo args (suc i) sound reads sized supported pairs))

free_arg :
    (formal : Map Kind) (arg : Text)
    → has_prefix arg (codes "-") ≡ false
    → read_flag formal arg ≡ positional
unfolding read_flag has_prefix
free_arg formal [] h = refl
free_arg formal (c ∷ []) h = refl
free_arg formal (c ∷ d ∷ []) h = ground arith
free_arg formal (c ∷ d ∷ e ∷ s) h = ground arith

-- The arguments begin at the first one that is not a flag.
parse_flags-free :
    (formal : Map Kind) (arg : Text) (args : List Text) (values : Map Text)
    → has_prefix arg (codes "-") ≡ false
    → parse_flags formal (arg ∷ args) values ≡ parsed values (arg ∷ args)
unfolding parse_flags
parse_flags-free formal arg [] values h = rw (free_arg formal arg h, parse_flags) refl
parse_flags-free formal arg (t ∷ args) values h = rw (free_arg formal arg h, parse_flags) refl

key_flag :
    (value arg : Text) (args : List Text)
    → parse_flags encrypt_flags ((codes "--key-b64=" ++ value) ∷ arg ∷ args) []
      ≡ parse_flags encrypt_flags (arg ∷ args) ((codes "key-b64", value) ∷ [])
unfolding parse_flags read_flag lookup insert cut text_eq
key_flag value arg args = refl

load_key-encode :
    (c : Chacha) (read_file : Text → Result Bytes) (key : Bytes)
    → All IsByte key
    → is_empty key ≡ false
    → length key ≡ c.key_size
    → load_key c read_file [] (Base64.std_encode key) ≡ ok key
unfolding load_key load_key_b64
load_key-encode c read_file key bytes given sized =
    rw (Base64.std_encode-given key given, load_key)
      (rw (std_decode-encode key bytes, load_key_b64) (ground arith))

-- With ciphers that keep their contract and a working source of randomness, a key of KeySize
-- bytes, at least one, in base64 after --key-b64= and at least one pair behind it, the first of
-- which does not start with a dash: the command exits with 0 and prints for every pair a line that
-- decrypts under the key to the pair's value.
pub encrypt_main_delivers :
    (c : Chacha) (rand : ℕ → ℕ → Result Bytes) (read_file : Text → Result Bytes) (key : Bytes)
    (arg : Text) (args : List Text)
    → IsChacha c
    → ((j : ℕ) → Reads (rand j))
    → All IsByte key
    → is_empty key ≡ false
    → length key ≡ c.key_size
    → has_prefix arg (codes "-") ≡ false
    → All IsPair (arg ∷ args)
    → All (All IsByte) (arg ∷ args)
    → (lines : List Text) × (encrypt_main c rand read_file
          ((codes "--key-b64=" ++ Base64.std_encode key) ∷ arg ∷ args)
        ≡ (0, lines))
      × Lines c key (arg ∷ args) lines
unfolding encrypt_main run_encrypt value_of lookup text_eq is_supported
encrypt_main_delivers c rand read_file key arg args sound reads bytes given sized free pairs
      arg_bytes =
    let run = encrypt_pairs c rand key algorithm_xchacha (arg ∷ args) 0 in
    let zero_exit =
      pairs_deliver c rand key algorithm_xchacha (arg ∷ args) 0 sound reads sized refl pairs in
    let flags =
      key_flag (Base64.std_encode key) arg args
      ∙ parse_flags-free encrypt_flags arg args ((codes "key-b64", Base64.std_encode key) ∷ [])
          free in
    (
      run.1,
      rw (flags, encrypt_main)
          (rw (load_key-encode c read_file key bytes given sized, run_encrypt)
            (ap (λ code. (code, run.1)) zero_exit)),
      pairs-Lines c rand key algorithm_xchacha (arg ∷ args) 0 sound reads arg_bytes zero_exit,
    )
