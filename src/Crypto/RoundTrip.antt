-- ===== src/Crypto/RoundTrip.antt =====
-- A value that `Encrypt` returns is valid and decrypts to its plaintext.
use tsecret.Common.{
  ℕ, true, List, [], ◌∷◌, ◌++◌, ◌≡◌, Bytes, Text, text_eq, text_eq_iff, has_prefix-append,
  drop_prefix-append, split_n, split_n-append, ap, ◌∙◌, length, All, All-append, Lacks, Result, ok,
  arith, ◌⊎◌, inl, inr,
}
use tsecret.Crypto.Base64
use tsecret.Crypto.Base64.RoundTrip.{
  IsByte, std_decode-encode, raw_decode-encode, raw_encode-Lacks, raw_encode-IsByte,
}
use tsecret.Crypto.{
  Aead, Chacha, IsAead, IsChacha, Parsed, plain, opened, new_aead, wire, encrypt, parse_parts,
  parse_value, parse_encrypted_value, decrypt, is_supported, is_valid_encrypted_value,
  algorithm_xchacha, algorithm_chacha, ciphertext_prefix,
}

parts-wire :
    (algorithm nonce64 rest : Text)
    → Lacks b':' algorithm
    → Lacks b':' nonce64
    → split_n b':' 3 (algorithm ++ b':' ∷ (nonce64 ++ b':' ∷ rest))
      ≡ algorithm ∷ nonce64 ∷ rest ∷ []
unfolding split_n
parts-wire algorithm nonce64 rest ha hn =
    split_n-append b':' 1 algorithm _ ha
    ∙ ap (λ (parts : List Text). algorithm ∷ parts) (split_n-append b':' 0 nonce64 rest hn)

parse_parts-raw :
    (algorithm : Text) (nonce ciphertext : Bytes)
    → All IsByte nonce
    → All IsByte ciphertext
    → parse_parts (algorithm ∷ Base64.raw_encode nonce ∷ Base64.raw_encode ciphertext ∷ [])
      ≡ ok (record { algorithm = algorithm; nonce = nonce; ciphertext = ciphertext })
unfolding parse_parts
parse_parts-raw algorithm nonce ciphertext hn hc =
    rw (raw_decode-encode nonce hn, raw_decode-encode ciphertext hc)

parse_value-wire :
    (algorithm : Text) (nonce ciphertext : Bytes)
    → Lacks b':' algorithm
    → All IsByte nonce
    → All IsByte ciphertext
    → parse_value (wire algorithm nonce ciphertext)
      ≡ ok (record { algorithm = algorithm; nonce = nonce; ciphertext = ciphertext })
unfolding parse_value wire
parse_value-wire algorithm nonce ciphertext ha hn hc =
    let body =
      algorithm ++ b':' ∷ (Base64.raw_encode nonce ++ b':' ∷ Base64.raw_encode ciphertext) in
    rw
      (
        has_prefix-append ciphertext_prefix body,
        drop_prefix-append ciphertext_prefix body,
        parts-wire algorithm (Base64.raw_encode nonce) _ ha (raw_encode-Lacks nonce hn),
      )
      (parse_parts-raw algorithm nonce ciphertext hn hc)

wire-IsByte :
    (algorithm : Text) (nonce ciphertext : Bytes)
    → All IsByte algorithm
    → All IsByte nonce
    → All IsByte ciphertext
    → All IsByte (wire algorithm nonce ciphertext)
unfolding wire
wire-IsByte algorithm nonce ciphertext ha hn hc =
    let colon : IsByte b':' = omega arith in
    let nonce64 = raw_encode-IsByte nonce hn in
    let tail : All IsByte (Base64.raw_encode nonce ++ b':' ∷ Base64.raw_encode ciphertext) =
      All-append IsByte (Base64.raw_encode nonce) _ nonce64
        (colon, raw_encode-IsByte ciphertext hc) in
    All-append IsByte ciphertext_prefix _ (omega arith)
      (All-append IsByte algorithm _ ha (colon, tail))

-- The parser reads back what the wire format was made from.
pub parse-wire :
    (algorithm : Text) (nonce ciphertext : Bytes)
    → All IsByte algorithm
    → Lacks b':' algorithm
    → All IsByte nonce
    → All IsByte ciphertext
    → parse_encrypted_value (Base64.std_encode (wire algorithm nonce ciphertext))
      ≡ ok (record { algorithm = algorithm; nonce = nonce; ciphertext = ciphertext })
unfolding parse_encrypted_value
parse-wire algorithm nonce ciphertext ha hl hn hc =
    rw
      (std_decode-encode (wire algorithm nonce ciphertext)
        (wire-IsByte algorithm nonce ciphertext ha hn hc))
      (parse_value-wire algorithm nonce ciphertext hl hn hc)

pub supported_cases :
    (algorithm : Text)
    → is_supported algorithm ≡ true
    → (algorithm ≡ algorithm_xchacha) ⊎ (algorithm ≡ algorithm_chacha)
unfolding is_supported
supported_cases algorithm h =
    ground (arith, text_eq_iff algorithm algorithm_xchacha, text_eq_iff algorithm algorithm_chacha)

pub supported_text :
    (algorithm : Text) → is_supported algorithm ≡ true → All IsByte algorithm × Lacks b':' algorithm
supported_text algorithm h = elim (supported_cases algorithm h) [
  | inl e ↦ rw e (omega arith)
  | inr e ↦ rw e (omega arith)
]

module _ (c : Chacha) (key : Bytes) (sized : length key ≡ c.key_size) (a : Aead) where
  new_aead_x : c.new_x key ≡ ok a → new_aead c key algorithm_xchacha ≡ ok a
  unfolding new_aead text_eq
  new_aead_x h = ground arith

  new_aead_lem : c.new key ≡ ok a → new_aead c key algorithm_chacha ≡ ok a
  unfolding new_aead text_eq
  new_aead_lem h = ground arith

-- An accepted algorithm has a cipher for every key of the right size.
pub supported_aead :
    (c : Chacha) (key : Bytes) (algorithm : Text)
    → IsChacha c
    → length key ≡ c.key_size
    → is_supported algorithm ≡ true
    → (a : Aead) × (new_aead c key algorithm ≡ ok a) × IsAead a
supported_aead c key algorithm sound sized h = elim (supported_cases algorithm h) [
  | inl e ↦
      let (a, made, laws) = sound.new_x_lem key sized in
      (a, rw e (new_aead_x c key sized a made), laws)
  | inr e ↦
      let (a, made, laws) = sound.new_lem key sized in
      (a, rw e (new_aead_lem c key sized a made), laws)
]

encrypt_lem :
    (c : Chacha) (rand : ℕ → Result Bytes) (plaintext key nonce : Bytes) (algorithm : Text)
    (a : Aead)
    → new_aead c key algorithm ≡ ok a
    → rand a.nonce_size ≡ ok nonce
    → encrypt c rand plaintext key algorithm
      ≡ ok (Base64.std_encode (wire algorithm nonce (a.seal nonce plaintext)))
unfolding encrypt
encrypt_lem c rand plaintext key nonce algorithm a made read = rw (made, read)

decrypt_lem :
    (c : Chacha) (value : Text) (plaintext key : Bytes) (p : Parsed) (a : Aead)
    → parse_encrypted_value value ≡ ok p
    → new_aead c key p.algorithm ≡ ok a
    → a.unseal p.nonce p.ciphertext ≡ opened plaintext
    → decrypt c value key ≡ plain plaintext
unfolding decrypt
decrypt_lem c value plaintext key p a parsed made open_ok = ground arith

-- What rand.Reader gives: `n` bytes where `n` are asked for.
pub record Reads (rand : ℕ → Result Bytes) : Type 0 where
  pub bytes : (n : ℕ) → (s : Bytes) × (rand n ≡ ok s) × (length s ≡ n) × All IsByte s

-- With a working source of randomness, ciphers that keep their contract, a supported algorithm, a
-- key of KeySize bytes and a plaintext of bytes, `Encrypt` returns a value, which is a valid
-- encrypted value and which `Decrypt` takes back to the plaintext under the same key.
pub decrypt-encrypt :
    (c : Chacha) (rand : ℕ → Result Bytes) (plaintext key : Bytes) (algorithm : Text)
    → IsChacha c
    → Reads rand
    → All IsByte plaintext
    → length key ≡ c.key_size
    → is_supported algorithm ≡ true
    → (value : Text) × (encrypt c rand plaintext key algorithm ≡ ok value)
      × (is_valid_encrypted_value value ≡ true)
      × (decrypt c value key ≡ plain plaintext)
unfolding is_valid_encrypted_value
decrypt-encrypt c rand plaintext key algorithm sound reads bytes sized h =
    let (a, made, laws) = supported_aead c key algorithm sound sized h in
    let (nonce, read, fits, nonce_bytes) = reads.bytes a.nonce_size in
    let ciphertext = a.seal nonce plaintext in
    let (spelled, no_colon) = supported_text algorithm h in
    let parsed =
      parse-wire algorithm nonce ciphertext spelled no_colon nonce_bytes
        (laws.seal-IsByte nonce plaintext nonce_bytes bytes) in
    (
      Base64.std_encode (wire algorithm nonce ciphertext),
      encrypt_lem c rand plaintext key nonce algorithm a made read,
      rw (parsed, is_valid_encrypted_value) h,
      decrypt_lem c _ plaintext key _ a parsed made (laws.unseal-seal nonce plaintext fits),
    )
