-- ===== src/Crypto/Sound.antt =====
-- What `Decrypt` and the parser accept, and a nonce of the wrong size.
use tsecret.Common.{
  true, some, List, [], ◌∷◌, ◌++◌, ◌≡◌, ◌≢◌, refl, Bytes, Text, has_prefix, drop_prefix, split_n,
  length, All, Lacks, ok, arith, ◌⊎◌, inl, inr, Result-cases, Option-cases, split_three_sound,
  drop_prefix_sound, ap, Message, subst, sym, ◌∙◌,
}
use tsecret.Crypto.Base64
use tsecret.Crypto.Base64.RoundTrip.{IsByte}
use tsecret.Crypto.RoundTrip.{parse-wire, supported_text, supported_aead}
use tsecret.Crypto.{
  Aead, Chacha, IsAead, IsChacha, Parsed, plain, failed, panics, Opened, opened, refused, panicked,
  of_opened, new_aead, wire, parse_parts, parse_value, parse_encrypted_value, decrypt_parsed,
  decrypt, is_supported, is_valid_encrypted_value, ciphertext_prefix,
}

pub new_aead_sound :
    (c : Chacha) (key : Bytes) (algorithm : Text) (a : Aead)
    → new_aead c key algorithm ≡ ok a
    → (is_supported algorithm ≡ true) × (length key ≡ c.key_size)
unfolding new_aead is_supported
new_aead_sound c key algorithm a h = ground arith

-- How a decryption that reaches the cipher came about.
pub record Reached (c : Chacha) (value : Text) (key : Bytes) (o : Opened) : Type 0 where
  pub p : Parsed
  pub a : Aead
  pub parsed : parse_encrypted_value value ≡ ok p
  pub made : new_aead c key p.algorithm ≡ ok a
  pub answered : a.unseal p.nonce p.ciphertext ≡ o

decrypt_cases :
    (c : Chacha) (value : Text) (key : Bytes)
    → ((o : Opened) × Reached c value key o × (decrypt c value key ≡ of_opened o))
      ⊎ ((e : Message) × (decrypt c value key ≡ failed e))
unfolding decrypt decrypt_parsed
decrypt_cases c value key = elim (Result-cases (parse_encrypted_value value)) [
  | inr (e, h) ↦ inr (e, rw (h, decrypt))
  | inl (p, h) ↦ elim (Result-cases (new_aead c key p.algorithm)) [
    | inr (e, k) ↦ inr (e, rw (h, decrypt) (rw (k, decrypt_parsed)))
    | inl (a, k) ↦ inl (
      a.unseal p.nonce p.ciphertext,
      record { p = p; a = a; parsed = h; made = k; answered = refl },
      rw (h, decrypt) (rw (k, decrypt_parsed)),
    )
  ]
]

of_opened_plain : (o : Opened) (s : Bytes) → of_opened o ≡ plain s → o ≡ opened s
unfolding of_opened
of_opened_plain (opened t) s h = cc
of_opened_plain (refused e) s h = cc
of_opened_plain panicked s h = cc

-- `Decrypt` returns a plaintext only where the value parses, the key has KeySize bytes, the
-- algorithm is supported, and the cipher of that algorithm and key opens the parsed nonce and
-- ciphertext to that plaintext.
pub decrypt_sound :
    (c : Chacha) (value : Text) (key plaintext : Bytes)
    → decrypt c value key ≡ plain plaintext
    → (r : Reached c value key (opened plaintext)) × (is_supported r.p.algorithm ≡ true)
      × (length key ≡ c.key_size)
decrypt_sound c value key plaintext h = elim (decrypt_cases c value key) [
  | inl (o, r, e) ↦
      let answered : r.a.unseal r.p.nonce r.p.ciphertext ≡ opened plaintext =
        r.answered ∙ of_opened_plain o plaintext (sym e ∙ h) in
      let (supported, sized) = new_aead_sound c key r.p.algorithm r.a r.made in
      (
        record { p = r.p; a = r.a; parsed = r.parsed; made = r.made; answered = answered },
        supported,
        sized,
      )
  | inr (e, k) ↦ cc
]

new_aead-IsAead :
    (c : Chacha) (key : Bytes) (algorithm : Text) (a : Aead)
    → IsChacha c
    → new_aead c key algorithm ≡ ok a
    → IsAead a
new_aead-IsAead c key algorithm a sound made =
    let (supported, sized) = new_aead_sound c key algorithm a made in
    let (a', made', laws) = supported_aead c key algorithm sound sized supported in
    let same : a' ≡ a = cc (made, made') in subst IsAead same laws

-- A nonce of the wrong size is not rejected: where ciphers keep their contract and the algorithm
-- and the key have a cipher, the value that is written with such a nonce counts as a valid
-- encrypted value, and `Decrypt` of it panics.
pub decrypt_bad_nonce :
    (c : Chacha) (key nonce ciphertext : Bytes) (algorithm : Text) (a : Aead)
    → new_aead c key algorithm ≡ ok a
    → IsChacha c
    → All IsByte nonce
    → All IsByte ciphertext
    → length nonce ≢ a.nonce_size
    → (is_valid_encrypted_value (Base64.std_encode (wire algorithm nonce ciphertext)) ≡ true)
      × (decrypt c (Base64.std_encode (wire algorithm nonce ciphertext)) key ≡ panics)
unfolding of_opened is_valid_encrypted_value decrypt
decrypt_bad_nonce c key nonce ciphertext algorithm a made sound nonce_bytes bytes wrong =
    let laws = new_aead-IsAead c key algorithm a sound made in
    let (supported, _) = new_aead_sound c key algorithm a made in
    let (spelled, no_colon) = supported_text algorithm supported in
    let parsed = parse-wire algorithm nonce ciphertext spelled no_colon nonce_bytes bytes in
    (
      rw (is_valid_encrypted_value, parsed) supported,
      rw (decrypt, parsed, decrypt_parsed, made, laws.bad_nonce nonce ciphertext wrong),
    )

parse_parts_sound :
    (parts : List Text) (p : Parsed)
    → parse_parts parts ≡ ok p
    → (nonce64 : Text) × (ciphertext64 : Text) × (parts ≡ p.algorithm ∷ nonce64 ∷ ciphertext64 ∷ [])
      × (Base64.raw_decode nonce64 ≡ some p.nonce)
      × (Base64.raw_decode ciphertext64 ≡ some p.ciphertext)
unfolding parse_parts
parse_parts_sound (algorithm ∷ nonce64 ∷ ciphertext64 ∷ []) p h =
    (nonce64, ciphertext64, ground arith, ground arith, ground arith)
parse_parts_sound [] p h = cc
parse_parts_sound (x ∷ []) p h = cc
parse_parts_sound (x ∷ y ∷ []) p h = cc
parse_parts_sound (x ∷ y ∷ z ∷ w ∷ r) p h = cc

parse_value_sound :
    (value : Text) (p : Parsed)
    → parse_value value ≡ ok p
    → (has_prefix value ciphertext_prefix ≡ true)
      × (parse_parts (split_n b':' 3 (drop_prefix value ciphertext_prefix)) ≡ ok p)
unfolding parse_value
parse_value_sound value p h = ground arith

-- What the parser accepts: standard base64 of a text that is the prefix, the algorithm, and the
-- unpadded base64 of the nonce and of the ciphertext, with a colon between them; neither the
-- algorithm nor the written nonce holds a colon.
pub parse_sound :
    (encrypted : Text) (p : Parsed)
    → parse_encrypted_value encrypted ≡ ok p
    → (nonce64 : Text) × (ciphertext64 : Text) × (Base64.std_decode encrypted
        ≡ some (ciphertext_prefix ++ (p.algorithm ++ b':' ∷ (nonce64 ++ b':' ∷ ciphertext64))))
      × Lacks b':' p.algorithm
      × Lacks b':' nonce64
      × (Base64.raw_decode nonce64 ≡ some p.nonce)
      × (Base64.raw_decode ciphertext64 ≡ some p.ciphertext)
unfolding parse_encrypted_value
parse_sound encrypted p h = elim (Option-cases (Base64.std_decode encrypted)) [
  | inl e ↦ cc (h, e)
  | inr (value, e) ↦
      let (prefixed, parts) = parse_value_sound value p (cc (h, e)) in
      let (nonce64, ciphertext64, split, nonce_is, ciphertext_is) = parse_parts_sound _ p parts in
      let body = drop_prefix value ciphertext_prefix in
      let (body_is, no_colon, no_colon') =
        split_three_sound b':' body p.algorithm nonce64 ciphertext64 split in
      let value_is = drop_prefix_sound value ciphertext_prefix prefixed in
      (
        nonce64,
        ciphertext64,
        e ∙ ap some (value_is ∙ ap (λ (t : Text). ciphertext_prefix ++ t) body_is),
        no_colon,
        no_colon',
        nonce_is,
        ciphertext_is,
      )
]
