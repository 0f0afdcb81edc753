-- ===== src/Crypto/Base64/RoundTrip.antt =====
-- Decoding an encoding, and what an encoding is spelled with.
use tsecret.Common.{
  ℕ, ◌<◌, ◌≤◌, ◌≡◌, ◌≢◌, refl, Bool, true, false, some, [], ◌∷◌, Bytes, Text, All, Lacks, arith,
}
use tsecret.Crypto.Base64.{
  pad, enc_char, dec_char, v0, v1, v2, v3, encode, padding, strip, byte1, byte2, byte3, last2,
  last3, group, padded_group, decode_groups, decode, std_encode, std_decode, raw_encode, raw_decode,
}

abbrev pub IsByte : ℕ → Type 0
IsByte c = c < 256

dec_char-enc_char : (v : ℕ) → v < 64 → dec_char (enc_char v) ≡ some v
unfolding dec_char enc_char
dec_char-enc_char v h = ground arith

-- A character that stands in an encoding: no line end and no colon.
record IsWire (c : ℕ) : Type 0 where
  low : 43 ≤ c
  no_colon : c ≢ b':'

enc_char-IsWire : (v : ℕ) → v < 64 → IsWire (enc_char v)
unfolding enc_char
enc_char-IsWire v h = ground arith

enc_char-ne-pad : (v : ℕ) → v < 64 → enc_char v ≢ pad
unfolding enc_char
enc_char-ne-pad v h = ground arith

strip-IsWire : (s : Text) → All IsWire s → strip s ≡ s
unfolding strip
strip-IsWire [] h = refl
strip-IsWire (c ∷ s) (w, h) = ground (arith, w.low, strip-IsWire s h)

padding-IsWire : (padded : Bool) (s : Text) → All IsWire s → All IsWire (padding padded s)
unfolding padding
padding-IsWire true s h = h
padding-IsWire false s h = tt

pad-IsWire : IsWire pad
pad-IsWire = omega arith

v0_lt : (x : ℕ) → IsByte x → v0 x < 64
unfolding v0
v0_lt x h = omega arith

v1_lt : (x y : ℕ) → IsByte y → v1 x y < 64
unfolding v1
v1_lt x y h = omega arith

v2_lt : (y z : ℕ) → IsByte z → v2 y z < 64
unfolding v2
v2_lt y z h = omega arith

v3_lt : (z : ℕ) → v3 z < 64
unfolding v3
v3_lt z = omega arith

byte1_lem : (x y : ℕ) → IsByte x → IsByte y → byte1 (v0 x) (v1 x y) ≡ x
unfolding byte1 v0 v1
byte1_lem x y hx hy = omega arith

byte2_lem : (x y z : ℕ) → IsByte y → IsByte z → byte2 (v1 x y) (v2 y z) ≡ y
unfolding byte2 v1 v2
byte2_lem x y z hy hz = omega arith

byte3_lem : (y z : ℕ) → IsByte z → byte3 (v2 y z) (v3 z) ≡ z
unfolding byte3 v2 v3
byte3_lem y z hz = omega arith

last2-enc : (x : ℕ) → IsByte x → last2 (enc_char (v0 x)) (enc_char (v1 x 0)) ≡ some (x ∷ [])
unfolding last2
last2-enc x h =
    rw (dec_char-enc_char (v0 x) (v0_lt x h), dec_char-enc_char (v1 x 0) (v1_lt x 0 (omega arith)))
      (rw (byte1_lem x 0 h (omega arith)))

last3-enc :
    (x y : ℕ)
    → IsByte x
    → IsByte y
    → last3 (enc_char (v0 x)) (enc_char (v1 x y)) (enc_char (v2 y 0)) ≡ some (x ∷ y ∷ [])
unfolding last3
last3-enc x y hx hy =
    rw
      (
        dec_char-enc_char (v0 x) (v0_lt x hx),
        dec_char-enc_char (v1 x y) (v1_lt x y hy),
        dec_char-enc_char (v2 y 0) (v2_lt y 0 (omega arith)),
      )
      (rw (byte1_lem x y hx hy, byte2_lem x y 0 hy (omega arith)))

group-enc :
    (x y z : ℕ) (rest : Bytes)
    → IsByte x
    → IsByte y
    → IsByte z
    → group (enc_char (v0 x)) (enc_char (v1 x y)) (enc_char (v2 y z)) (enc_char (v3 z)) (some rest)
      ≡ some (x ∷ y ∷ z ∷ rest)
unfolding group
group-enc x y z rest hx hy hz =
    rw
      (
        dec_char-enc_char (v0 x) (v0_lt x hx),
        dec_char-enc_char (v1 x y) (v1_lt x y hy),
        dec_char-enc_char (v2 y z) (v2_lt y z hz),
        dec_char-enc_char (v3 z) (v3_lt z),
      )
      (rw (byte1_lem x y hx hy, byte2_lem x y z hy hz, byte3_lem y z hz))

encode-IsWire : (padded : Bool) (s : Bytes) → All IsByte s → All IsWire (encode padded s)
unfolding encode
encode-IsWire padded [] h = tt
encode-IsWire padded (x ∷ []) (hx, h) =
    let tail = padding-IsWire padded (pad ∷ pad ∷ []) (pad-IsWire, (pad-IsWire, tt)) in
    (enc_char-IsWire _ (v0_lt x hx), (enc_char-IsWire _ (v1_lt x 0 (omega arith)), tail))
encode-IsWire padded (x ∷ y ∷ []) (hx, (hy, h)) =
    let tail = padding-IsWire padded (pad ∷ []) (pad-IsWire, tt) in
    let third = enc_char-IsWire _ (v2_lt y 0 (omega arith)) in
    (enc_char-IsWire _ (v0_lt x hx), (enc_char-IsWire _ (v1_lt x y hy), (third, tail)))
encode-IsWire padded (x ∷ y ∷ z ∷ s) (hx, (hy, (hz, h))) =
    let third = enc_char-IsWire _ (v2_lt y z hz) in
    (
      enc_char-IsWire _ (v0_lt x hx),
      (
        enc_char-IsWire _ (v1_lt x y hy),
        (third, (enc_char-IsWire _ (v3_lt z), encode-IsWire padded s h)),
      ),
    )

decode_groups-full :
    (padded : Bool) (a b c d : ℕ) (s : Text)
    → d ≢ pad
    → decode_groups padded (a ∷ b ∷ c ∷ d ∷ s) ≡ group a b c d (decode_groups padded s)
unfolding decode_groups
decode_groups-full padded a b c d s h = ground arith

padded_group-last : (a b c : ℕ) → c ≢ pad → padded_group a b c [] ≡ last3 a b c
unfolding padded_group
padded_group-last a b c h = ground arith

encode_step :
    (padded : Bool) (x y z : ℕ) (s : Bytes)
    → All IsByte (x ∷ y ∷ z ∷ [])
    → decode_groups padded (encode padded s) ≡ some s
    → decode_groups padded (encode padded (x ∷ y ∷ z ∷ s)) ≡ some (x ∷ y ∷ z ∷ s)
unfolding encode
encode_step padded x y z s (hx, (hy, (hz, _))) ih =
    rw (decode_groups-full padded _ _ _ _ _ (enc_char-ne-pad (v3 z) (v3_lt z)), ih)
      (group-enc x y z s hx hy hz)

decode_groups-encode :
    (padded : Bool) (s : Bytes) → All IsByte s → decode_groups padded (encode padded s) ≡ some s
decode_groups-encode padded [] h = unfold encode decode_groups in refl
decode_groups-encode true (x ∷ []) (hx, h) =
    unfold encode padding decode_groups padded_group in last2-enc x hx
decode_groups-encode false (x ∷ []) (hx, h) = unfold encode padding decode_groups in last2-enc x hx
decode_groups-encode true (x ∷ y ∷ []) (hx, (hy, h)) =
    unfold encode padding decode_groups in
    rw (padded_group-last _ _ _ (enc_char-ne-pad (v2 y 0) (v2_lt y 0 (omega arith))))
      (last3-enc x y hx hy)
decode_groups-encode false (x ∷ y ∷ []) (hx, (hy, h)) =
    unfold encode padding decode_groups in last3-enc x y hx hy
decode_groups-encode padded (x ∷ y ∷ z ∷ s) (hx, (hy, (hz, h))) =
    encode_step padded x y z s (hx, (hy, (hz, tt))) (decode_groups-encode padded s h)

decode-encode :
    (padded : Bool) (s : Bytes) → All IsByte s → decode padded (encode padded s) ≡ some s
unfolding decode
decode-encode padded s h =
    rw (strip-IsWire _ (encode-IsWire padded s h)) (decode_groups-encode padded s h)

pub std_decode-encode : (s : Bytes) → All IsByte s → std_decode (std_encode s) ≡ some s
unfolding std_decode std_encode
std_decode-encode s h = decode-encode true s h

pub raw_decode-encode : (s : Bytes) → All IsByte s → raw_decode (raw_encode s) ≡ some s
unfolding raw_decode raw_encode
raw_decode-encode s h = decode-encode false s h

IsWire-Lacks : (s : Text) → All IsWire s → Lacks b':' s
IsWire-Lacks [] h = tt
IsWire-Lacks (c ∷ s) (w, h) = (w.no_colon, IsWire-Lacks s h)

pub raw_encode-Lacks : (s : Bytes) → All IsByte s → Lacks b':' (raw_encode s)
unfolding raw_encode
raw_encode-Lacks s h = IsWire-Lacks _ (encode-IsWire false s h)

enc_char-IsByte : (v : ℕ) → v < 64 → IsByte (enc_char v)
unfolding enc_char
enc_char-IsByte v h = ground arith

raw_bytes : (s : Bytes) → All IsByte s → All IsByte (encode false s)
unfolding encode padding
raw_bytes [] h = tt
raw_bytes (x ∷ []) (hx, h) =
    (enc_char-IsByte _ (v0_lt x hx), (enc_char-IsByte _ (v1_lt x 0 (omega arith)), tt))
raw_bytes (x ∷ y ∷ []) (hx, (hy, h)) =
    let third = enc_char-IsByte _ (v2_lt y 0 (omega arith)) in
    (enc_char-IsByte _ (v0_lt x hx), (enc_char-IsByte _ (v1_lt x y hy), (third, tt)))
raw_bytes (x ∷ y ∷ z ∷ s) (hx, (hy, (hz, h))) =
    let third = enc_char-IsByte _ (v2_lt y z hz) in
    let fourth = enc_char-IsByte _ (v3_lt z) in
    (
      enc_char-IsByte _ (v0_lt x hx),
      (enc_char-IsByte _ (v1_lt x y hy), (third, (fourth, raw_bytes s h))),
    )

pub raw_encode-IsByte : (s : Bytes) → All IsByte s → All IsByte (raw_encode s)
unfolding raw_encode
raw_encode-IsByte s h = raw_bytes s h
