-- ===== src/Crypto/Base64.antt =====
-- What pkg/crypto, cmd/encrypt and the providers use of encoding/base64: StdEncoding (padded) and
-- RawStdEncoding. As in Go, decoding skips line ends and does not look at the unused low bits of
-- the last character.
pub mod RoundTrip
pub mod Decoded
use tsecret.Common.{
  ℕ, ◌+◌, ◌-◌, ◌*◌, ◌/◌, ◌%◌, ◌<◌, ◌≡◌, refl, Bool, true, false, ◌&&◌, ◌||◌, Option, none, some,
  List, [], ◌∷◌, Bytes, Text, codes, ltb, leb, ◌==◌, if◌then◌else◌, is_empty,
}

abbrev pad : ℕ
pad = b'='

-- The character of a 6-bit value.
enc_char : ℕ → ℕ
enc_char v =
    if ltb v 26
    then b'A' + v
    else if ltb v 52
    then b'a' + (v - 26)
    else if ltb v 62
    then b'0' + (v - 52)
    else if v == 62
    then b'+'
    else b'/'

-- The value of a character of the alphabet.
dec_char : ℕ → Option ℕ
dec_char c =
    if leb b'A' c && leb c b'Z'
    then some (c - b'A')
    else if leb b'a' c && leb c b'z'
    then some (c - b'a' + 26)
    else if leb b'0' c && leb c b'9'
    then some (c - b'0' + 52)
    else if c == b'+'
    then some 62
    else if c == b'/'
    then some 63
    else none

-- The four 6-bit values of three bytes.
v0 : ℕ → ℕ
v0 x = x / 4

v1 : ℕ → ℕ → ℕ
v1 x y = x % 4 * 16 + y / 16

v2 : ℕ → ℕ → ℕ
v2 y z = y % 16 * 4 + z / 64

v3 : ℕ → ℕ
v3 z = z % 64

-- The padding of the last group: none at all for RawStdEncoding.
padding : Bool → Text → Text
padding true p = p
padding false p = []

encode : Bool → Bytes → Text
unfolding padding enc_char v0 v1 v2 v3
encode padded [] = []
encode padded (x ∷ []) = enc_char (v0 x) ∷ enc_char (v1 x 0) ∷ padding padded (pad ∷ pad ∷ [])
encode padded (x ∷ y ∷ []) =
    enc_char (v0 x) ∷ enc_char (v1 x y) ∷ enc_char (v2 y 0) ∷ padding padded (pad ∷ [])
encode padded (x ∷ y ∷ z ∷ s) =
    enc_char (v0 x) ∷ enc_char (v1 x y) ∷ enc_char (v2 y z) ∷ enc_char (v3 z) ∷ encode padded s

-- Line ends are skipped wherever they stand.
strip : Text → Text
strip [] = []
strip (c ∷ s) = if c == 10 || c == 13 then strip s else c ∷ strip s

byte1 : ℕ → ℕ → ℕ
byte1 a b = (a * 4 + b / 16) % 256

byte2 : ℕ → ℕ → ℕ
byte2 b c = (b % 16 * 16 + c / 4) % 256

byte3 : ℕ → ℕ → ℕ
byte3 c d = (c % 4 * 64 + d) % 256

infixl 5 ◌>>=◌
abbrev pub ◌>>=◌ {ℓ κ} : {A : Type ℓ} {B : Type κ} → Option A → (A → Option B) → Option B
none >>= f = none
some a >>= f = f a

-- The last characters of an unpadded text.
last2 : ℕ → ℕ → Option Bytes
unfolding dec_char byte1
last2 a b = do x ← dec_char a; y ← dec_char b; some (byte1 x y ∷ [])

last3 : ℕ → ℕ → ℕ → Option Bytes
unfolding dec_char byte1 byte2
last3 a b c = do x ← dec_char a; y ← dec_char b; z ← dec_char c; some (byte1 x y ∷ byte2 y z ∷ [])

-- Four characters, and the bytes of the groups behind them.
group : ℕ → ℕ → ℕ → ℕ → Option Bytes → Option Bytes
unfolding dec_char byte1 byte2 byte3
group a b c d rest = do
  x ← dec_char a
  y ← dec_char b
  z ← dec_char c
  w ← dec_char d
  r ← rest
  some (byte1 x y ∷ byte2 y z ∷ byte3 z w ∷ r)

-- A group that holds padding must be the last one.
padded_group : ℕ → ℕ → ℕ → Text → Option Bytes
unfolding last2 last3
padded_group a b c [] = if c == pad then last2 a b else last3 a b c
padded_group a b c (_ ∷ _) = none

decode_groups : Bool → Text → Option Bytes
unfolding last2 last3 group padded_group
decode_groups padded [] = some []
decode_groups padded (a ∷ []) = none
decode_groups padded (a ∷ b ∷ []) = if padded then none else last2 a b
decode_groups padded (a ∷ b ∷ c ∷ []) = if padded then none else last3 a b c
decode_groups padded (a ∷ b ∷ c ∷ d ∷ s) =
    if padded && d == pad then padded_group a b c s else group a b c d (decode_groups padded s)

decode : Bool → Text → Option Bytes
unfolding strip decode_groups
decode padded s = decode_groups padded (strip s)

-- base64.StdEncoding.EncodeToString, DecodeString
unfoldable pub std_encode : Bytes → Text
unfolding encode
std_encode = encode true

unfoldable pub std_decode : Text → Option Bytes
unfolding decode
std_decode = decode true

-- base64.RawStdEncoding.EncodeToString, DecodeString
unfoldable pub raw_encode : Bytes → Text
unfolding encode
raw_encode = encode false

unfoldable pub raw_decode : Text → Option Bytes
unfolding decode
raw_decode = decode false

-- Only the empty list of bytes has an empty text.
pub std_encode-given : (s : Bytes) → is_empty s ≡ false → is_empty (std_encode s) ≡ false
unfolding std_encode encode
std_encode-given [] h = cc h
std_encode-given (x ∷ []) h = refl
std_encode-given (x ∷ y ∷ []) h = refl
std_encode-given (x ∷ y ∷ z ∷ s) h = refl

std_samples :
    (std_encode (codes "f") ≡ codes "Zg==")
    × (std_encode (codes "foobar") ≡ codes "Zm9vYmFy")
    × (std_decode (codes "Zm9v\nYg==") ≡ some (codes "foob"))
    × (std_decode (codes "Zm9vYg") ≡ none)
    × (std_decode (codes "Zg==Zg==") ≡ none)
unfolding std_encode std_decode
std_samples = (refl, refl, refl, refl, refl)

raw_samples :
    (raw_encode (codes "foob") ≡ codes "Zm9vYg")
    × (raw_decode (codes "Zm9vYg") ≡ some (codes "foob"))
    × (raw_decode (codes "Zm9vYg==") ≡ none)
unfolding raw_encode raw_decode
raw_samples = (refl, refl, refl)
