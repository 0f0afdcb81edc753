-- ===== src/Crypto/Base64/Decoded.antt =====
-- What decoding gives is a list of bytes.
use tsecret.Common.{
  ℕ, ◌≡◌, refl, Bool, true, false, ◌&&◌, Option, none, some, [], ◌∷◌, Bytes, Text, All, arith,
  if◌then◌else◌, ◌==◌, subst,
}
use tsecret.Crypto.Base64.{
  pad, strip, dec_char, byte1, byte2, byte3, last2, last3, group, padded_group, decode_groups,
  decode, std_decode, ◌>>=◌,
}
use tsecret.Crypto.Base64.RoundTrip.{IsByte}

byte1-IsByte : (a b : ℕ) → IsByte (byte1 a b)
unfolding byte1
byte1-IsByte a b = omega arith

byte2-IsByte : (a b : ℕ) → IsByte (byte2 a b)
unfolding byte2
byte2-IsByte a b = omega arith

byte3-IsByte : (a b : ℕ) → IsByte (byte3 a b)
unfolding byte3
byte3-IsByte a b = omega arith

abbrev AreBytes : Option Bytes → Type 0
AreBytes none = Unit
AreBytes (some s) = All IsByte s

>>=-AreBytes :
    {A : Type 0} (m : Option A) (f : A → Option Bytes)
    → ((a : A) → m ≡ some a → AreBytes (f a))
    → AreBytes (m >>= f)
>>=-AreBytes none f h = tt
>>=-AreBytes (some a) f h = h a refl

last2-AreBytes : (a b : ℕ) → AreBytes (last2 a b)
unfolding last2
last2-AreBytes a b =
    >>=-AreBytes (dec_char a) _ λ x _. >>=-AreBytes (dec_char b) _ λ y _. (byte1-IsByte x y, tt)

last3-AreBytes : (a b c : ℕ) → AreBytes (last3 a b c)
unfolding last3
last3-AreBytes a b c = >>=-AreBytes (dec_char a) _ λ x _.
    >>=-AreBytes (dec_char b) _
      λ y _. >>=-AreBytes (dec_char c) _ λ z _. (byte1-IsByte x y, (byte2-IsByte y z, tt))

group-AreBytes : (a b c d : ℕ) (rest : Option Bytes) → AreBytes rest → AreBytes (group a b c d rest)
unfolding group
group-AreBytes a b c d rest h = >>=-AreBytes (dec_char a) _ λ x _.
    >>=-AreBytes (dec_char b) _ λ y _. >>=-AreBytes (dec_char c) _ λ z _.
      >>=-AreBytes (dec_char d) _ λ w _.
        >>=-AreBytes rest _
          λ r k. (byte1-IsByte x y, (byte2-IsByte y z, (byte3-IsByte z w, subst AreBytes k h)))

if-AreBytes :
    (t : Bool) (m n : Option Bytes) → AreBytes m → AreBytes n → AreBytes (if t then m else n)
if-AreBytes true m n h k = h
if-AreBytes false m n h k = k

padded_group-AreBytes : (a b c : ℕ) (s : Text) → AreBytes (padded_group a b c s)
unfolding padded_group
padded_group-AreBytes a b c [] =
    if-AreBytes (c == pad) (last2 a b) (last3 a b c) (last2-AreBytes a b) (last3-AreBytes a b c)
padded_group-AreBytes a b c (_ ∷ _) = tt

decode_groups-AreBytes : (padded : Bool) (s : Text) → AreBytes (decode_groups padded s)
unfolding decode_groups
decode_groups-AreBytes padded [] = tt
decode_groups-AreBytes padded (a ∷ []) = tt
decode_groups-AreBytes padded (a ∷ b ∷ []) =
    if-AreBytes padded none (last2 a b) tt (last2-AreBytes a b)
decode_groups-AreBytes padded (a ∷ b ∷ c ∷ []) =
    if-AreBytes padded none (last3 a b c) tt (last3-AreBytes a b c)
decode_groups-AreBytes padded (a ∷ b ∷ c ∷ d ∷ s) =
    let rest = decode_groups-AreBytes padded s in
    if-AreBytes (padded && d == pad) (padded_group a b c s) (group a b c d (decode_groups padded s))
      (padded_group-AreBytes a b c s) (group-AreBytes a b c d (decode_groups padded s) rest)

pub std_decode-IsByte : (s : Text) (b : Bytes) → std_decode s ≡ some b → All IsByte b
unfolding std_decode decode
std_decode-IsByte s b h = subst AreBytes h (decode_groups-AreBytes true (strip s))
