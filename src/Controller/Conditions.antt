-- ===== src/Controller/Conditions.antt =====
-- setCondition of pkg/controller/tsecret_controller.go
use tsecret.Common.{
  Option, none, some, List, [], ◌∷◌, Text, text_eq, text_eq_iff, ◌≡◌, ◌≢◌, refl, arith,
  if◌then◌else◌, All, subst, Bool-cases, inl, inr,
}
use tsecret.Api.{Condition}

unfoldable pub set_condition : List Condition → Condition → List Condition
set_condition [] condition = condition ∷ []
set_condition (c ∷ cs) condition =
    if text_eq c.kind condition.kind then condition ∷ cs else c ∷ set_condition cs condition

-- The condition of a kind: the first one in the list.
unfoldable pub condition_of : Text → List Condition → Option Condition
condition_of kind [] = none
condition_of kind (c ∷ cs) = if text_eq c.kind kind then some c else condition_of kind cs

-- How often a kind stands in the list is at most once.
abbrev pub Once : List Condition → Type 0
Once [] = Unit
Once (c ∷ cs) = All (λ d. d.kind ≢ c.kind) cs × Once cs

-- After setCondition the condition of its kind is the one that was set, and that of any other kind
-- is the one that was there.
pub condition_of-set_condition :
    (cs : List Condition) (condition : Condition) (kind : Text)
    → condition_of kind (set_condition cs condition)
      ≡ (if text_eq condition.kind kind then some condition else condition_of kind cs)
unfolding set_condition condition_of
condition_of-set_condition [] condition kind = refl
condition_of-set_condition (c ∷ cs) condition kind = ground (
  arith,
  condition_of-set_condition cs condition kind,
  text_eq_iff c.kind condition.kind,
  text_eq_iff c.kind kind,
  text_eq_iff condition.kind kind,
)

set_condition-All {ℓ} :
    (P : Condition → Type ℓ) (cs : List Condition) (condition : Condition)
    → All P cs
    → P condition
    → All P (set_condition cs condition)
unfolding set_condition
set_condition-All P [] condition h p = (p, tt)
set_condition-All P (c ∷ cs) condition (hc, h) p =
    let rest = set_condition-All P cs condition h p in
    elim (Bool-cases (text_eq c.kind condition.kind)) [
      | inl e ↦ rw e (p, h)
      | inr e ↦ rw e (hc, rest)
    ]

-- A list in which every kind stands at most once stays so.
pub set_condition-Once :
    (cs : List Condition) (condition : Condition) → Once cs → Once (set_condition cs condition)
unfolding set_condition
set_condition-Once [] condition h = (tt, tt)
set_condition-Once (c ∷ cs) condition (hc, h) =
    let rest = set_condition-Once cs condition h in
    elim (Bool-cases (text_eq c.kind condition.kind)) [
      | inl e ↦
          let same : c.kind ≡ condition.kind = (text_eq_iff c.kind condition.kind).0 e in
          rw e (subst (λ k. All (λ d. d.kind ≢ k) cs) same hc, h)
      | inr e ↦
          let other : condition.kind ≢ c.kind = ground (arith, text_eq_iff c.kind condition.kind) in
          rw e (set_condition-All (λ d. d.kind ≢ c.kind) cs condition hc other, rest)
    ]
