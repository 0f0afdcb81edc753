-- ===== src/Common/Strings.antt =====
-- Go strings and byte slices as lists of bytes, with what the sources use of package strings.
use Prim.Native.Nat.{ℕ}
use Prim.Native.Char.{code}
use Prim.Native.String.{String}
use mathlib.Core.Path.{◌≡◌, refl}
use mathlib.Core.Logic.{inl, inr, ◌↔◌, ◌≢◌}
use mathlib.Core.Option.{Option, none, some}
use Prim.Native.Nat.{zero, suc}
use mathlib.Core.Bool.{Bool, true, false, ◌&&◌, ◌||◌}
use mathlib.Core.List.{List, [], ◌∷◌, ◌++◌, reverse}
use native.Mathlib.Omega.{arith}
use tsecret.Common.Tests.{Option-cases, if◌then◌else◌, ◌==◌}
use tsecret.Common.Lists.{All}

abbrev pub Bytes : Type 0
Bytes = List ℕ

abbrev pub Text : Type 0
Text = List ℕ

-- The bytes of an ASCII literal.
abbrev pub codes : String → Text
codes String.[] = []
codes (String.◌∷◌ c s) = code c ∷ codes s

-- `a == b` on strings.
unfoldable pub text_eq : Text → Text → Bool
text_eq [] [] = true
text_eq (a ∷ s) (b ∷ t) = a == b && text_eq s t
text_eq _ _ = false

pub text_eq_iff : (s t : Text) → (text_eq s t ≡ true) ↔ (s ≡ t)
unfolding text_eq
text_eq_iff [] [] = (λ _. refl, λ _. refl)
text_eq_iff [] (b ∷ t) = (λ h. cc, λ h. cc)
text_eq_iff (a ∷ s) [] = (λ h. cc, λ h. cc)
text_eq_iff (a ∷ s) (b ∷ t) =
    (λ h. ground (arith, (text_eq_iff s t).0), λ h. ground (arith, (text_eq_iff s t).1))

pub text_eq_refl : (s : Text) → text_eq s s ≡ true
text_eq_refl s = (text_eq_iff s s).1 refl

abbrev pub is_empty : Text → Bool
is_empty [] = true
is_empty (_ ∷ _) = false

-- strings.HasPrefix
unfoldable pub has_prefix : Text → Text → Bool
has_prefix s [] = true
has_prefix [] (p ∷ ps) = false
has_prefix (c ∷ s) (p ∷ ps) = c == p && has_prefix s ps

pub has_prefix-append : (p s : Text) → has_prefix (p ++ s) p ≡ true
unfolding has_prefix
has_prefix-append [] [] = refl
has_prefix-append [] (c ∷ s) = refl
has_prefix-append (c ∷ p) s = ground (arith, has_prefix-append p s)

-- strings.Contains
unfoldable pub contains : Text → Text → Bool
contains [] sub = has_prefix [] sub
contains (c ∷ s) sub = has_prefix (c ∷ s) sub || contains s sub

pub contains_infix : (a sub b : Text) → contains (a ++ (sub ++ b)) sub ≡ true
unfolding contains
contains_infix [] [] [] = unfold has_prefix in refl
contains_infix [] [] (c ∷ b) = unfold has_prefix in refl
contains_infix [] (d ∷ sub) b = ground (arith, has_prefix-append (d ∷ sub) b)
contains_infix (c ∷ a) sub b = ground (arith, contains_infix a sub b)

abbrev pub Lacks : ℕ → Text → Type 0
Lacks b = All (λ c. c ≢ b)

-- slices `s[len(p):]`
unfoldable pub drop_prefix : Text → Text → Text
drop_prefix s [] = s
drop_prefix [] (p ∷ ps) = []
drop_prefix (c ∷ s) (p ∷ ps) = drop_prefix s ps

pub drop_prefix-append : (p s : Text) → drop_prefix (p ++ s) p ≡ s
unfolding drop_prefix
drop_prefix-append [] [] = refl
drop_prefix-append [] (c ∷ s) = refl
drop_prefix-append (c ∷ p) s = drop_prefix-append p s

-- The text before the first `sep` and the text behind it.
unfoldable pub cut : ℕ → Text → Option (Text × Text)
cut sep [] = none
cut sep (c ∷ s) =
    let rest = cut sep s in
    if c == sep then some ([], s) else elim rest [ none ↦ none | some (a, b) ↦ some (c ∷ a, b) ]

pub cut-append : (sep : ℕ) (a s : Text) → Lacks sep a → cut sep (a ++ sep ∷ s) ≡ some (a, s)
unfolding cut
cut-append sep [] s h = ground arith
cut-append sep (c ∷ a) s (ne, h) = ground (arith, cut-append sep a s h)

pub cut-Lacks : (sep : ℕ) (s : Text) → Lacks sep s → cut sep s ≡ none
unfolding cut
cut-Lacks sep [] h = refl
cut-Lacks sep (c ∷ s) (ne, h) = ground (arith, cut-Lacks sep s h)

pub cut_sound :
    (sep : ℕ) (s a b : Text) → cut sep s ≡ some (a, b) → (s ≡ a ++ sep ∷ b) × Lacks sep a
unfolding cut
cut_sound sep [] a b h = cc
cut_sound sep (c ∷ s) [] b h = ground arith
cut_sound sep (c ∷ s) (d ∷ a) b h = ground (arith, cut_sound sep s a b)

-- strings.SplitN(s, sep, n), for a separator of one byte.
unfoldable pub split_n : ℕ → ℕ → Text → List Text
split_n sep zero s = []
split_n sep (suc zero) s = s ∷ []
split_n sep (suc (suc n)) s = elim (cut sep s) [
  | none ↦ s ∷ []
  | some (a, b) ↦ a ∷ split_n sep (suc n) b
]

pub split_n-append :
    (sep n : ℕ) (a s : Text)
    → Lacks sep a
    → split_n sep (suc (suc n)) (a ++ sep ∷ s) ≡ a ∷ split_n sep (suc n) s
unfolding split_n
split_n-append sep n a s h = rw (cut-append sep a s h, split_n)

pub drop_prefix_sound : (s p : Text) → has_prefix s p ≡ true → s ≡ p ++ drop_prefix s p
unfolding has_prefix drop_prefix
drop_prefix_sound s [] h = ground arith
drop_prefix_sound [] (c ∷ p) h = cc
drop_prefix_sound (d ∷ s) (c ∷ p) h = ground (arith, drop_prefix_sound s p)

split_n_two :
    (sep n : ℕ) (s a x : Text) (rest : List Text)
    → split_n sep (suc (suc n)) s ≡ a ∷ x ∷ rest
    → (b : Text) × (cut sep s ≡ some (a, b)) × (split_n sep (suc n) b ≡ x ∷ rest)
unfolding split_n
split_n_two sep n s a x rest h = elim (Option-cases (cut sep s)) [
  | inl e ↦ cc (h, e)
  | inr ((u, v), e) ↦ (v, cc (h, e), cc (h, e))
]

-- Three parts come from two cuts.
pub split_three_sound :
    (sep : ℕ) (s a b c : Text)
    → split_n sep 3 s ≡ a ∷ b ∷ c ∷ []
    → (s ≡ a ++ sep ∷ (b ++ sep ∷ c)) × Lacks sep a × Lacks sep b
split_three_sound sep s a b c h =
    let (r, e, k) = split_n_two sep 1 s a b (c ∷ []) h in
    let (t, e', k') = split_n_two sep 0 r b c [] k in
    let (s_is, a_lacks) = cut_sound sep s a r e in
    let (r_is, b_lacks) = cut_sound sep r b t e' in
    let t_is : t ≡ c = unfold split_n in cc k' in (rw s_is (rw r_is (rw t_is)), a_lacks, b_lacks)

abbrev pub slash : ℕ
slash = b'/'

-- strings.TrimLeft(s, "/")
unfoldable pub trim_left : Text → Text
trim_left [] = []
trim_left (c ∷ s) = let rest = trim_left s in if c == slash then rest else c ∷ s

-- strings.TrimRight(s, "/")
unfoldable pub trim_right : Text → Text
trim_right s = reverse (trim_left (reverse s))

-- strings.HasSuffix, and strings.TrimSuffix where the suffix is there.
unfoldable pub has_suffix : Text → Text → Bool
has_suffix s p = has_prefix (reverse s) (reverse p)

unfoldable pub trim_suffix : Text → Text → Text
trim_suffix s p = if has_suffix s p then reverse (drop_prefix (reverse s) (reverse p)) else s

-- strings.SplitN(s, sep, 2), where it gives two parts.
unfoldable pub cut_at : Text → Text → Option (Text × Text)
cut_at sep [] = if has_prefix [] sep then some ([], []) else none
cut_at sep (c ∷ s) =
    let rest = cut_at sep s in
    if has_prefix (c ∷ s) sep
    then some ([], drop_prefix (c ∷ s) sep)
    else elim rest [ none ↦ none | some (a, b) ↦ some (c ∷ a, b) ]
