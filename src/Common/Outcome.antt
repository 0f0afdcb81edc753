-- ===== src/Common/Outcome.antt =====
-- Results of fallible Go functions. An error, and a text that `fmt` makes, is kept as its format
-- with the arguments: rendering is not modelled.
use Prim.Native.Nat.{ℕ}
use Prim.Native.String.{String}
use mathlib.Core.Path.{◌≡◌, refl}
use mathlib.Core.Bool.{Bool, true, false}
use mathlib.Core.List.{List}
use mathlib.Core.Logic.{◌⊎◌, inl, inr}
use tsecret.Common.Strings.{Text}

pub data Arg : Type 0 where
  text : Text → Arg
  num : ℕ → Arg
  texts : List Text → Arg

-- `not_found` is an API error that `errors.IsNotFound` recognises, `external` any other error that
-- a library returns; `errorf` and `wrapf` are `fmt.Errorf` without and with a wrapped
-- error, `wrap_shown` with a wrapped error and one that is only shown.
pub data Message : Type 0 where
  not_found : Message
  external : Text → Message
  errorf : String → List Arg → Message
  wrapf : String → List Arg → Message → Message
  wrap_shown : String → Message → Message → Message

-- k8s.io/apimachinery/pkg/api/errors.IsNotFound
abbrev pub is_not_found : Message → Bool
is_not_found not_found = true
is_not_found _ = false

pub data Result {ℓ} (A : Type ℓ) : Type ℓ where
  ok : A → Result A
  err : Message → Result A

module _ {ℓ} {A : Type ℓ} where
  -- `if err != nil { return fmt.Errorf(format, args..., err) }`
  abbrev pub wrap : String → List Arg → Result A → Result A
  wrap format args (ok value) = ok value
  wrap format args (err e) = err (wrapf format args e)

  abbrev pub is_ok : Result A → Bool
  is_ok (ok value) = true
  is_ok (err e) = false

  pub Result-cases : (r : Result A) → ((value : A) × (r ≡ ok value)) ⊎ ((e : Message) × (r ≡ err e))
  Result-cases (ok value) = inl (value, refl)
  Result-cases (err e) = inr (e, refl)

-- `if err != nil { return err }`
infixl 5 ◌>>=◌
abbrev pub ◌>>=◌ {ℓ κ} : {A : Type ℓ} {B : Type κ} → Result A → (A → Result B) → Result B
err failure >>= next = err failure
ok value >>= next = next value

-- A chain that succeeds has succeeded at its first link.
pub bind_ok {ℓ κ} :
    {A : Type ℓ} {B : Type κ} (r : Result A) (next : A → Result B) (b : B)
    → (r >>= next) ≡ ok b
    → (a : A) × (r ≡ ok a) × (next a ≡ ok b)
bind_ok (ok a) next b h = (a, refl, h)
bind_ok (err e) next b h = cc h

pub wrap_ok {ℓ} :
    {A : Type ℓ} (format : String) (args : List Arg) (r : Result A) (a : A)
    → wrap format args r ≡ ok a
    → r ≡ ok a
wrap_ok format args (ok value) a h = h
wrap_ok format args (err e) a h = cc h
