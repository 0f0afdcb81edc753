-- ===== src/Crypto.antt =====
-- pkg/crypto/encrypt.go. The ciphers of golang.org/x/crypto/chacha20poly1305 and the reader
-- crypto/rand are parameters: `Chacha`, and a function from a size to the bytes that are read.
pub mod Base64
pub mod RoundTrip
pub mod Sound
pub mod Samples
use tsecret.Common.{
  ℕ, String, Bool, true, false, ◌||◌, not, Option, none, some, List, [], ◌∷◌, ◌++◌, ◌≡◌, ◌≢◌, Bytes,
  Text, codes, text_eq, has_prefix, drop_prefix, split_n, length, All, Result, ok, err, errorf,
  wrapf, external, text, num, texts, wrap, ◌>>=◌, Message, ◌==◌, if◌then◌else◌,
}
use tsecret.Crypto.Base64
use tsecret.Crypto.Base64.RoundTrip.{IsByte}

abbrev pub algorithm_xchacha : Text
algorithm_xchacha = codes "xchacha20-poly1305"

abbrev pub algorithm_chacha : Text
algorithm_chacha = codes "chacha20-poly1305"

abbrev pub ciphertext_prefix : Text
ciphertext_prefix = codes "tsecret:"

abbrev pub supported_algorithms : List Text
supported_algorithms = algorithm_xchacha ∷ algorithm_chacha ∷ []

unfoldable pub is_supported : Text → Bool
is_supported algorithm = text_eq algorithm algorithm_xchacha || text_eq algorithm algorithm_chacha

-- What `Open` of a cipher does: a plaintext, an error, or a panic.
pub data Opened : Type 0 where
  opened : Bytes → Opened
  refused : Message → Opened
  panicked : Opened

pub record Aead : Type 0 where
  pub nonce_size : ℕ
  pub seal : Bytes → Bytes → Bytes
  pub unseal : Bytes → Bytes → Opened

-- The package chacha20poly1305: its KeySize, `NewX` and `New`.
pub record Chacha : Type 0 where
  pub key_size : ℕ
  pub new_x : Bytes → Result Aead
  pub new : Bytes → Result Aead

-- What the package documents of a cipher.
pub record IsAead (a : Aead) : Type 0 where
  pub seal-IsByte :
      (nonce plaintext : Bytes)
      → All IsByte nonce
      → All IsByte plaintext
      → All IsByte (a.seal nonce plaintext)
  pub unseal-seal :
      (nonce plaintext : Bytes)
      → length nonce ≡ a.nonce_size
      → a.unseal nonce (a.seal nonce plaintext) ≡ opened plaintext
  pub bad_nonce :
      (nonce ciphertext : Bytes)
      → length nonce ≢ a.nonce_size
      → a.unseal nonce ciphertext ≡ panicked

pub record IsChacha (c : Chacha) : Type 0 where
  pub new_x_lem :
      (key : Bytes) → length key ≡ c.key_size → (a : Aead) × (c.new_x key ≡ ok a) × IsAead a
  pub new_lem : (key : Bytes) → length key ≡ c.key_size → (a : Aead) × (c.new key ≡ ok a) × IsAead a

unfoldable pub new_aead : Chacha → Bytes → Text → Result Aead
new_aead c key algorithm =
    if not (length key == c.key_size)
    then err (
        errorf "%s requires %d-byte key, got %d"
          (text algorithm ∷ num c.key_size ∷ num (length key) ∷ []))
    else if text_eq algorithm algorithm_xchacha
    then wrap "failed to create XChaCha20-Poly1305: %w" [] (c.new_x key)
    else if text_eq algorithm algorithm_chacha
    then wrap "failed to create ChaCha20-Poly1305: %w" [] (c.new key)
    else err (
        errorf "unsupported algorithm: %s (supported: %v)"
          (text algorithm ∷ texts supported_algorithms ∷ []))

-- tsecret:<algorithm>:<base64(nonce)>:<base64(ciphertext+tag)>
pub wire : Text → Bytes → Bytes → Text
wire algorithm nonce ciphertext =
    ciphertext_prefix
    ++ (algorithm ++ b':' ∷ (Base64.raw_encode nonce ++ b':' ∷ Base64.raw_encode ciphertext))

-- `rand n` is the outcome of reading `n` bytes from rand.Reader.
unfoldable pub encrypt : Chacha → (ℕ → Result Bytes) → Bytes → Bytes → Text → Result Text
unfolding wire
encrypt c rand plaintext key algorithm = do
  aead ← new_aead c key algorithm
  nonce ← wrap "failed to generate nonce: %w" [] (rand aead.nonce_size)
  let ciphertext = aead.seal nonce plaintext
  ok (Base64.std_encode (wire algorithm nonce ciphertext))

abbrev pub corrupt : Message
corrupt = external (codes "illegal base64 data")

or_corrupt : String → Option Bytes → Result Bytes
or_corrupt format none = err (wrapf format [] corrupt)
or_corrupt format (some s) = ok s

pub record Parsed : Type 0 where
  pub algorithm : Text
  pub nonce : Bytes
  pub ciphertext : Bytes

-- The three parts behind the prefix.
parse_parts : List Text → Result Parsed
unfolding or_corrupt
parse_parts (algorithm ∷ nonce64 ∷ ciphertext64 ∷ []) = do
  nonce ← or_corrupt "failed to decode nonce: %w" (Base64.raw_decode nonce64)
  ciphertext ← or_corrupt "failed to decode ciphertext: %w" (Base64.raw_decode ciphertext64)
  ok (record { algorithm = algorithm; nonce = nonce; ciphertext = ciphertext })
parse_parts parts = err (
    errorf "invalid ciphertext format: expected 3 parts after prefix, got %d"
      (num (length parts) ∷ []))

parse_value : Text → Result Parsed
unfolding parse_parts
parse_value value =
    if has_prefix value ciphertext_prefix
    then parse_parts (split_n b':' 3 (drop_prefix value ciphertext_prefix))
    else err (errorf "invalid ciphertext format: missing prefix %q" (text ciphertext_prefix ∷ []))

unfoldable pub parse_encrypted_value : Text → Result Parsed
unfolding or_corrupt parse_value
parse_encrypted_value encrypted = do
  value ← or_corrupt "failed to decode outer base64: %w" (Base64.std_decode encrypted)
  parse_value value

pub data Decrypted : Type 0 where
  plain : Bytes → Decrypted
  failed : Message → Decrypted
  panics : Decrypted

of_opened : Opened → Decrypted
of_opened (opened plaintext) = plain plaintext
of_opened (refused e) =
    failed (wrapf "decryption failed (authentication error — wrong key or tampered data): %w" [] e)
of_opened panicked = panics

decrypt_parsed : Chacha → Bytes → Parsed → Decrypted
unfolding of_opened
decrypt_parsed c key p = elim (new_aead c key p.algorithm) [
  | ok aead ↦ of_opened (aead.unseal p.nonce p.ciphertext)
  | err e ↦ failed e
]

unfoldable pub decrypt : Chacha → Text → Bytes → Decrypted
unfolding decrypt_parsed
decrypt c encrypted key = elim (parse_encrypted_value encrypted) [
  | ok p ↦ decrypt_parsed c key p
  | err e ↦ failed e
]

unfoldable pub is_valid_encrypted_value : Text → Bool
is_valid_encrypted_value value = elim (parse_encrypted_value value) [
  | ok p ↦ is_supported p.algorithm
  | err e ↦ false
]
