-- ===== src/Providers/Vault/Paths.antt =====
-- The spellings of a KV mount.
use tsecret.Common.{
  ℕ, zero, suc, true, false, Text, [], ◌∷◌, ◌++◌, ◌≡◌, ◌≢◌, refl, arith, ◌∙◌, ap, sym, replicate,
  slash, trim_left, trim_right, has_suffix, trim_suffix, append-nil, reverse, reverse-append,
  reverse-reverse, has_prefix-append, drop_prefix-append,
}
use tsecret.Providers.Vault.{kv_mount, data_suffix}

abbrev pub slashes : ℕ → Text
slashes n = replicate n slash

-- The text starts with a character that is no slash.
abbrev pub Starts : Text → Type 0
Starts [] = ⊥
Starts (c ∷ s) = c ≢ slash

-- A mount that is written plainly: no slash at its ends, no "/data" at its end.
pub record IsPlain (m : Text) : Type 0 where
  pub starts : Starts m
  pub ends : Starts (reverse m)
  pub no_data : has_suffix m data_suffix ≡ false

trim_left-Starts : (n : ℕ) (s : Text) → Starts s → trim_left (slashes n ++ s) ≡ s
unfolding trim_left
trim_left-Starts zero [] h = absurd h
trim_left-Starts zero (c ∷ s) h = ground arith
trim_left-Starts (suc n) s h = ground (arith, trim_left-Starts n s h)

replicate-step : (n : ℕ) → slashes n ++ (slash ∷ []) ≡ slash ∷ slashes n
replicate-step zero = refl
replicate-step (suc n) = ap (◌∷◌ slash) (replicate-step n)

reverse-slashes : (n : ℕ) → reverse (slashes n) ≡ slashes n
reverse-slashes zero = refl
reverse-slashes (suc n) =
    reverse-append (slash ∷ []) (slashes n)
    ∙ ap (λ s. s ++ (slash ∷ [])) (reverse-slashes n)
    ∙ replicate-step n

trim_right-Starts : (s : Text) (n : ℕ) → Starts (reverse s) → trim_right (s ++ slashes n) ≡ s
unfolding trim_right
trim_right-Starts s n h =
    rw (reverse-append s (slashes n), reverse-slashes n)
      (ap reverse (trim_left-Starts n (reverse s) h) ∙ reverse-reverse s)

Starts-append : (s t : Text) → Starts s → Starts (s ++ t)
Starts-append [] t h = absurd h
Starts-append (c ∷ s) t h = h

trim_plain : (m : Text) → Starts (reverse m) → trim_right m ≡ m
trim_plain m h = ap trim_right (sym (append-nil m)) ∙ trim_right-Starts m 0 h

-- What is left of a spelling before "/data" is looked for.
trimmed :
    (m : Text) (a b : ℕ)
    → Starts m
    → Starts (reverse m)
    → trim_right (trim_left (trim_right (slashes a ++ m ++ slashes b))) ≡ m
trimmed m a b starts ends =
    let whole : Starts (reverse (slashes a ++ m)) =
      rw (reverse-append (slashes a) m) (Starts-append (reverse m) (reverse (slashes a)) ends) in
    ap (λ s. trim_right (trim_left s)) (trim_right-Starts (slashes a ++ m) b whole)
    ∙ ap trim_right (trim_left-Starts a m starts)
    ∙ trim_plain m ends

reverse-data : (m : Text) → reverse (m ++ data_suffix) ≡ reverse data_suffix ++ reverse m
reverse-data m = reverse-append m data_suffix

has_suffix-data : (m : Text) → has_suffix (m ++ data_suffix) data_suffix ≡ true
unfolding has_suffix
has_suffix-data m = rw (reverse-data m) (has_prefix-append (reverse data_suffix) (reverse m))

trim_suffix-data : (m : Text) → trim_suffix (m ++ data_suffix) data_suffix ≡ m
unfolding trim_suffix
trim_suffix-data m =
    rw (has_suffix-data m, reverse-data m)
      (ap reverse (drop_prefix-append (reverse data_suffix) (reverse m)) ∙ reverse-reverse m)

Starts-data : (m : Text) → Starts (reverse (m ++ data_suffix))
Starts-data m = rw (reverse-data m) (omega arith)

-- A plain mount, one with slashes before and behind it, and one that ends in "/data" as well all
-- stand for the plain mount.
pub kv_mount_spellings :
    (m : Text) (a b : ℕ)
    → IsPlain m
    → (kv_mount (slashes a ++ m ++ slashes b) ≡ m)
      × (kv_mount (slashes a ++ (m ++ data_suffix) ++ slashes b) ≡ m)
unfolding kv_mount
kv_mount_spellings m a b plain = (
  rw (trimmed m a b plain.starts plain.ends, plain.no_data) refl,
  rw
      (
        trimmed (m ++ data_suffix) a b (Starts-append m data_suffix plain.starts) (Starts-data m),
        has_suffix-data m,
      )
      (ap trim_right (trim_suffix-data m) ∙ trim_plain m plain.ends),
)
