-- ===== src/Commands/Encrypt/Lines.antt =====
-- The lines that the command prints.
use tsecret.Common.{
  ℕ, suc, List, [], ◌∷◌, ◌++◌, Text, Bytes, codes, Map, cut, cut_sound, length, Result, ok, ◌≡◌,
  ◌≢◌, ◌⊎◌, refl, arith, All, Lacks, Option-cases, Result-cases, inl, inr, subst,
}
use tsecret.Crypto.{Chacha, IsChacha, encrypt, decrypt, plain, new_aead}
use tsecret.Crypto.Base64.RoundTrip.{IsByte}
use tsecret.Crypto.RoundTrip.{Reads, decrypt-encrypt}
use tsecret.Crypto.Sound.{new_aead_sound}
use tsecret.Commands.Flags.{parsed, help, parse_flags, value_of}
use tsecret.Commands.Flags.Rest.{Flags-cases, parse_flags-All}
use tsecret.Commands.Encrypt.{
  encrypt_flags, split_pair, load_key_file, load_key_b64, load_key, encrypt_pairs, run_encrypt,
  encrypt_main,
}

-- A line that seals the value of a pair under its name.
pub record Seals (c : Chacha) (key : Bytes) (arg line : Text) : Type 0 where
  pub name : Text
  pub value : Bytes
  pub enc : Text
  pub pair : arg ≡ name ++ b'=' ∷ value
  pub first : Lacks b'=' name
  pub printed : line ≡ name ++ b'=' ∷ enc
  pub opens : decrypt c enc key ≡ plain value

-- One line for each pair, in their order.
pub data Lines (c : Chacha) (key : Bytes) : List Text → List Text → Type 0 where
  no_lines : Lines c key [] []
  line_of :
      {arg line : Text} {args lines : List Text}
      → Seals c key arg line
      → Lines c key args lines
      → Lines c key (arg ∷ args) (line ∷ lines)

encrypt_sound :
    (c : Chacha) (rand : ℕ → Result Bytes) (value key : Bytes) (algorithm enc : Text)
    → IsChacha c
    → Reads rand
    → All IsByte value
    → encrypt c rand value key algorithm ≡ ok enc
    → decrypt c enc key ≡ plain value
unfolding encrypt
encrypt_sound c rand value key algorithm enc sound reads bytes h =
    elim (Result-cases (new_aead c key algorithm)) [
      | inl (a, made) ↦
          let (supported, sized) = new_aead_sound c key algorithm a made in
          let (enc', sealed, _, opens) =
            decrypt-encrypt c rand value key algorithm sound reads bytes sized supported in
          let same : enc' ≡ enc = cc (h, sealed) in
          subst (λ (e : Text). decrypt c e key ≡ plain value) same opens
      | inr (e, refused) ↦ cc (rw (refused, encrypt) at h)
    ]

tail_bytes : (name value : Text) → All IsByte (name ++ b'=' ∷ value) → All IsByte value
tail_bytes [] value (_, h) = h
tail_bytes (c ∷ name) value (_, h) = tail_bytes name value h

-- The loop that ends with 0 has printed a line for each pair.
pub pairs-Lines :
    (c : Chacha) (rand : ℕ → ℕ → Result Bytes) (key : Bytes) (algo : Text) (args : List Text)
    (i : ℕ)
    → IsChacha c
    → ((j : ℕ) → Reads (rand j))
    → All (All IsByte) args
    → (encrypt_pairs c rand key algo args i).0 ≡ 0
    → Lines c key args (encrypt_pairs c rand key algo args i).1
unfolding encrypt_pairs split_pair
pairs-Lines c rand key algo [] i sound reads bytes h = no_lines
pairs-Lines c rand key algo (arg ∷ args) i sound reads (here, bytes) h =
    let rest = pairs-Lines c rand key algo args (suc i) sound reads bytes in
    elim (Option-cases (cut b'=' arg)) [
      | inl e ↦ absurd (omega (arith, rw (e, encrypt_pairs) at h))
      | inr ((name, value), e) ↦
          let (pair, first) = cut_sound b'=' arg name value e in
          let h1 = rw (e, encrypt_pairs) at h in
          elim (Result-cases (encrypt c (rand i) value key algo)) [
            | inl (enc, e') ↦
                rw (e, encrypt_pairs)
                  (rw e' (
                    line_of
                      (record {
                        name = name;
                        value = value;
                        enc = enc;
                        pair = pair;
                        first = first;
                        printed = refl;
                        opens =
                            encrypt_sound c (rand i) value key algo enc sound (reads i)
                              (tail_bytes name value (subst (All IsByte) pair here)) e';
                      })
                      (rest (rw e' at h1))))
            | inr (m, e') ↦ absurd (omega (arith, rw e' at h1))
          ]
    ]

load_key_file_size :
    (c : Chacha) (read_file : Text → Result Bytes) (path : Text) (key : Bytes)
    → load_key_file c read_file path ≡ ok key
    → length key ≡ c.key_size
unfolding load_key_file
load_key_file_size c read_file path key h = ground arith

load_key_b64_size :
    (c : Chacha) (key_b64 : Text) (key : Bytes)
    → load_key_b64 c key_b64 ≡ ok key
    → length key ≡ c.key_size
unfolding load_key_b64
load_key_b64_size c key_b64 key h = ground arith

load_key_size :
    (c : Chacha) (read_file : Text → Result Bytes) (path key_b64 : Text) (key : Bytes)
    → load_key c read_file path key_b64 ≡ ok key
    → length key ≡ c.key_size
unfolding load_key
load_key_size c read_file path key_b64 key h =
    ground (arith, load_key_file_size c read_file path key, load_key_b64_size c key_b64 key)

-- What a run with parsed flags that exits with 0 has loaded and printed.
pub record Delivered (c : Chacha) (read_file : Text → Result Bytes) (values : Map Text)
    (rest lines : List Text) : Type 0 where
  pub key : Bytes
  pub loaded :
      load_key c read_file
        (value_of (codes "key-file") [] values)
        (value_of (codes "key-b64") [] values)
      ≡ ok key
  pub sized : length key ≡ c.key_size
  pub given : rest ≢ []
  pub printed : Lines c key rest lines

run_encrypt-Delivered :
    (c : Chacha) (rand : ℕ → ℕ → Result Bytes) (read_file : Text → Result Bytes) (values : Map Text)
    (rest : List Text)
    → IsChacha c
    → ((j : ℕ) → Reads (rand j))
    → All (All IsByte) rest
    → (run_encrypt c rand read_file values rest).0 ≡ 0
    → Delivered c read_file values rest (run_encrypt c rand read_file values rest).1
unfolding run_encrypt
run_encrypt-Delivered c rand read_file values [] sound reads bytes h = absurd (omega arith)
run_encrypt-Delivered c rand read_file values (arg ∷ more) sound reads bytes h =
    elim (Result-cases (
      load_key c read_file (value_of (codes "key-file") [] values)
        (value_of (codes "key-b64") [] values))) [
          | inl (key, e) ↦
              rw (e, run_encrypt)
                (record {
                  key = key;
                  loaded = e;
                  sized = load_key_size c read_file _ _ key e;
                  given = λ none_left. cc none_left;
                  printed =
                      pairs-Lines c rand key _ (arg ∷ more) 0 sound reads bytes
                        (rw (e, run_encrypt) at h);
                })
          | inr (m, e) ↦ absurd (omega (arith, rw (e, run_encrypt) at h))
        ]

-- With ciphers that keep their contract, a working source of randomness and arguments of bytes: a
-- run that exits with 0 was asked for help and has printed no line for a pair; or its flags parse,
-- it has loaded a key of KeySize bytes, there is at least one pair behind the flags, and it has
-- printed one line for each pair, in their order, which is the pair's name up to its first `=` and
-- a value that decrypts under the key to what stands behind it.
pub encrypt_main-Lines :
    (c : Chacha) (rand : ℕ → ℕ → Result Bytes) (read_file : Text → Result Bytes) (args : List Text)
    → IsChacha c
    → ((j : ℕ) → Reads (rand j))
    → All (All IsByte) args
    → (encrypt_main c rand read_file args).0 ≡ 0
    → ((parse_flags encrypt_flags args [] ≡ help) × ((encrypt_main c rand read_file args).1 ≡ []))
      ⊎ ((values : Map Text) × (rest : List Text) × (parse_flags encrypt_flags args []
            ≡ parsed values rest)
          × Delivered c read_file values rest (encrypt_main c rand read_file args).1)
unfolding encrypt_main
encrypt_main-Lines c rand read_file args sound reads bytes h =
    elim (Flags-cases (parse_flags encrypt_flags args [])) [
      | inl (values, rest, e) ↦ inr (
        values,
        rest,
        e,
        rw (e, encrypt_main)
            (run_encrypt-Delivered c rand read_file values rest sound reads
              (parse_flags-All (All IsByte) encrypt_flags args [] values rest e bytes)
              (rw (e, encrypt_main) at h)),
      )
      | inr (inl e) ↦ absurd (omega (arith, rw (e, encrypt_main) at h))
      | inr (inr e) ↦ inl (e, rw (e, encrypt_main) refl)
    ]
