-- ===== src/Commands/Flags/Rest.antt =====
-- What Parse leaves behind the flags.
use tsecret.Common.{List, [], ◌∷◌, Text, Map, insert, All, ◌≡◌, ◌⊎◌, inl, inr, refl, subst}
use tsecret.Commands.Flags.{
  Kind, Token, positional, terminator, malformed, asks_help, assign, needs, read_flag, Flags,
  parsed, bad_flags, help, parse_flags,
}

pub Flags-cases :
    (f : Flags)
    → ((values : Map Text) × (rest : List Text) × (f ≡ parsed values rest))
      ⊎ ((f ≡ bad_flags) ⊎ (f ≡ help))
Flags-cases (parsed values rest) = inl (values, rest, refl)
Flags-cases bad_flags = inr (inl refl)
Flags-cases help = inr (inr refl)

parsed_rest :
    (P : Text → Type 0) (values values' : Map Text) (args rest : List Text)
    → parsed values args ≡ parsed values' rest
    → All P args
    → All P rest
parsed_rest P values values' args rest h all =
    let same : args ≡ rest = cc h in subst (All P) same all

-- The arguments behind the flags are among the arguments.
pub parse_flags-All :
    (P : Text → Type 0) (formal : Map Kind) (args : List Text) (values values' : Map Text)
    (rest : List Text)
    → parse_flags formal args values ≡ parsed values' rest
    → All P args
    → All P rest
unfolding parse_flags
parse_flags-All P formal [] values values' rest h all = parsed_rest P values values' [] rest h all
parse_flags-All P formal (s ∷ []) values values' rest h (here, all) =
    by_token (read_flag formal s) refl
  where
    by_token : (token : Token) → read_flag formal s ≡ token → All P rest
    by_token positional e =
        parsed_rest P values values' (s ∷ []) rest (rw (e, parse_flags) at h) (here, tt)
    by_token terminator e = parsed_rest P values values' [] rest (rw (e, parse_flags) at h) tt
    by_token malformed e = cc (rw (e, parse_flags) at h)
    by_token asks_help e = cc (rw (e, parse_flags) at h)
    by_token (assign name value) e =
        parsed_rest P (insert name value values) values' [] rest (rw (e, parse_flags) at h) tt
    by_token (needs name) e = cc (rw (e, parse_flags) at h)
parse_flags-All P formal (s ∷ t ∷ args) values values' rest h (here, (next, all)) =
    by_token (read_flag formal s) refl
      (λ values1 k. parse_flags-All P formal (t ∷ args) values1 values' rest k (next, all))
      (λ values1 k. parse_flags-All P formal args values1 values' rest k all)
  where
    by_token :
        (token : Token)
        → read_flag formal s ≡ token
        → ((values1 : Map Text)
            → parse_flags formal (t ∷ args) values1 ≡ parsed values' rest
            → All P rest)
        → ((values1 : Map Text)
            → parse_flags formal args values1 ≡ parsed values' rest
            → All P rest)
        → All P rest
    by_token positional e behind after =
        parsed_rest P values values' (s ∷ t ∷ args) rest (rw (e, parse_flags) at h)
          (here, (next, all))
    by_token terminator e behind after =
        parsed_rest P values values' (t ∷ args) rest (rw (e, parse_flags) at h) (next, all)
    by_token malformed e behind after = cc (rw (e, parse_flags) at h)
    by_token asks_help e behind after = cc (rw (e, parse_flags) at h)
    by_token (assign name value) e behind after =
        behind (insert name value values) (rw (e, parse_flags) at h)
    by_token (needs name) e behind after = after (insert name t values) (rw (e, parse_flags) at h)
