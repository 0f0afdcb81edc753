-- ===== src/Crypto/Samples.antt =====
-- The theorems about pkg/crypto at concrete inputs, with ciphers that do not hide anything.
use tsecret.Common.{
  ℕ, zero, suc, text_eq, has_prefix, drop_prefix, split_n, cut, true, [], ◌∷◌, ◌++◌, ◌≡◌, refl,
  Bytes, Text, codes, length, All, Lacks, Result, ok, ◌==◌, if◌then◌else◌, arith, replicate,
  length-replicate, some,
}
use tsecret.Crypto.Base64
use tsecret.Crypto.Base64.RoundTrip.{IsByte}
use tsecret.Crypto.RoundTrip.{Reads, decrypt-encrypt}
use tsecret.Crypto.Sound.{Reached, decrypt_sound, decrypt_bad_nonce, parse_sound}
use tsecret.Crypto.{
  Aead, Chacha, IsAead, IsChacha, Parsed, plain, panics, opened, panicked, new_aead, wire, encrypt,
  decrypt, is_supported, is_valid_encrypted_value, parse_encrypted_value, algorithm_xchacha,
  ciphertext_prefix,
}

-- A cipher that sends every plaintext to itself.
abbrev clear : ℕ → Aead
clear size = record {
  nonce_size = size;
  seal = λ nonce s. s;
  unseal = λ nonce s. if length nonce == size then opened s else panicked;
}

clear-IsAead : (size : ℕ) → IsAead (clear size)
clear-IsAead size = record {
  seal-IsByte = λ nonce s hn hs. hs;
  unseal-seal = λ nonce s h. ground arith;
  bad_nonce = λ nonce s h. ground arith;
}

abbrev pub clear_chacha : Chacha
clear_chacha = record { key_size = 32; new_x = λ key. ok (clear 24); new = λ key. ok (clear 12) }

pub clear_chacha-IsChacha : IsChacha clear_chacha
clear_chacha-IsChacha = record {
  new_x_lem = λ key h. (clear 24, refl, clear-IsAead 24);
  new_lem = λ key h. (clear 12, refl, clear-IsAead 12);
}

abbrev pub zeros : ℕ → Result Bytes
zeros n = ok (replicate n 0)

replicate-IsByte : (n : ℕ) → All IsByte (replicate n 0)
replicate-IsByte zero = tt
replicate-IsByte (suc n) = (omega arith, replicate-IsByte n)

pub zeros-Reads : Reads zeros
zeros-Reads = record {
  bytes = λ n. (replicate n 0, refl, length-replicate n 0, replicate-IsByte n);
}

abbrev pub zero_key : Bytes
zero_key = replicate 32 0

decrypt-encrypt_example :
    (value : Text) × (encrypt clear_chacha zeros (codes "hunter2") zero_key algorithm_xchacha
      ≡ ok value)
    × (is_valid_encrypted_value value ≡ true)
    × (decrypt clear_chacha value zero_key ≡ plain (codes "hunter2"))
unfolding is_supported text_eq
decrypt-encrypt_example =
    decrypt-encrypt clear_chacha zeros (codes "hunter2") zero_key algorithm_xchacha
      clear_chacha-IsChacha zeros-Reads (omega arith) refl refl

-- A value with a nonce of 24 bytes.
abbrev pub sealed : Text
unfolding wire Base64.std_encode Base64.raw_encode
sealed = Base64.std_encode (wire algorithm_xchacha (replicate 24 0) (codes "hunter2"))

pub sealed_plain : decrypt clear_chacha sealed zero_key ≡ plain (codes "hunter2")
unfolding decrypt parse_encrypted_value new_aead split_n cut has_prefix drop_prefix text_eq sealed
    Base64.std_decode Base64.raw_decode
sealed_plain = refl

decrypt_sound_example :
    (r : Reached clear_chacha sealed zero_key (opened (codes "hunter2"))) × (is_supported
        r.p.algorithm
      ≡ true)
    × (length zero_key ≡ 32)
decrypt_sound_example = decrypt_sound clear_chacha sealed zero_key (codes "hunter2") sealed_plain

decrypt_bad_nonce_example :
    (is_valid_encrypted_value
        (Base64.std_encode (wire algorithm_xchacha (7 ∷ []) (codes "hunter2")))
      ≡ true)
    × (decrypt clear_chacha
          (Base64.std_encode (wire algorithm_xchacha (7 ∷ []) (codes "hunter2")))
          zero_key
        ≡ panics)
unfolding new_aead text_eq
decrypt_bad_nonce_example =
    decrypt_bad_nonce clear_chacha zero_key (7 ∷ []) (codes "hunter2") algorithm_xchacha (clear 24)
      refl clear_chacha-IsChacha (omega arith) (omega arith) (omega arith)

abbrev sealed_parts : Parsed
sealed_parts = record {
  algorithm = algorithm_xchacha;
  nonce = replicate 24 0;
  ciphertext = codes "hunter2";
}

parse_sound_example :
    (nonce64 : Text) × (ciphertext64 : Text) × (Base64.std_decode sealed
      ≡ some (ciphertext_prefix ++ (algorithm_xchacha ++ b':' ∷ (nonce64 ++ b':' ∷ ciphertext64))))
    × Lacks b':' algorithm_xchacha
    × Lacks b':' nonce64
    × (Base64.raw_decode nonce64 ≡ some (replicate 24 0))
    × (Base64.raw_decode ciphertext64 ≡ some (codes "hunter2"))
unfolding parse_encrypted_value split_n cut has_prefix drop_prefix sealed Base64.std_decode
    Base64.raw_decode
parse_sound_example = parse_sound sealed sealed_parts refl
