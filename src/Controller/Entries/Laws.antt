-- ===== src/Controller/Entries/Laws.antt =====
-- When a TSecret is marked ready.
use tsecret.Common.{
  true, false, List, [], ◌∷◌, Text, codes, text_eq, text_eq_iff, Map, All, ◌≡◌, ◌↔◌, ◌⊎◌, inl, inr,
  refl, some, ok, Result-cases, Bool-cases, arith, if◌then◌else◌,
}
use tsecret.Api.{TSecret, TSecretEntry, Condition, Time}
use tsecret.Crypto.{
  Parsed, parse_encrypted_value, is_supported, is_valid_encrypted_value, algorithm_xchacha,
  algorithm_chacha,
}
use tsecret.Controller.Conditions.{set_condition, condition_of, condition_of-set_condition}
use tsecret.Controller.Entries.{entry_valid, check_entries, ready_condition, mark_ready}

abbrev pub IsAlgorithm : Text → Type 0
IsAlgorithm a = (a ≡ algorithm_xchacha) ⊎ (a ≡ algorithm_chacha)

-- The value has the wire format, and it and the entry name algorithms that are supported.
abbrev pub IsWellFormed : TSecretEntry → Type 0
IsWellFormed e =
    (p : Parsed) × (parse_encrypted_value e.value ≡ ok p)
    × IsAlgorithm p.algorithm
    × IsAlgorithm e.algorithm

entry_valid_sound : (e : TSecretEntry) → entry_valid e ≡ true → IsWellFormed e
unfolding entry_valid is_valid_encrypted_value is_supported
entry_valid_sound e h = elim (Result-cases (parse_encrypted_value e.value)) [
  | inr (m, k) ↦ ground arith
  | inl (p, k) ↦ (
    p,
    k,
    ground (
      arith,
      text_eq_iff p.algorithm algorithm_xchacha,
      text_eq_iff p.algorithm algorithm_chacha,
    ),
    ground (
      arith,
      text_eq_iff e.algorithm algorithm_xchacha,
      text_eq_iff e.algorithm algorithm_chacha,
    ),
  )
]

entry_valid_complete : (e : TSecretEntry) → IsWellFormed e → entry_valid e ≡ true
unfolding entry_valid is_valid_encrypted_value is_supported
entry_valid_complete e (p, parsed, inner, outer) = ground (
  arith,
  text_eq_iff p.algorithm algorithm_xchacha,
  text_eq_iff p.algorithm algorithm_chacha,
  text_eq_iff e.algorithm algorithm_xchacha,
  text_eq_iff e.algorithm algorithm_chacha,
)

abbrev pub AllWellFormed : Map TSecretEntry → Type 0
AllWellFormed = All (λ kv. IsWellFormed kv.1)

check_entries-false : (es : Map TSecretEntry) → check_entries es false ≡ false
unfolding check_entries
check_entries-false [] = refl
check_entries-false ((k, e) ∷ es) = ground (arith, check_entries-false es)

check_entries_sound : (es : Map TSecretEntry) → check_entries es true ≡ true → AllWellFormed es
unfolding check_entries
check_entries_sound [] h = tt
check_entries_sound ((k, e) ∷ es) h = (
  entry_valid_sound e (ground (arith, check_entries-false es)),
  check_entries_sound es (ground (arith, check_entries-false es)),
)

check_entries_complete : (es : Map TSecretEntry) → AllWellFormed es → check_entries es true ≡ true
unfolding check_entries
check_entries_complete [] h = refl
check_entries_complete ((k, e) ∷ es) (he, h) =
    ground (arith, entry_valid_complete e he, check_entries_complete es h)

ready_condition-kind :
    (es : Map TSecretEntry) (now : Time) → (ready_condition es now).kind ≡ codes "Ready"
unfolding ready_condition
ready_condition-kind es now = elim (Bool-cases (check_entries es true)) [
  | inl h ↦ rw h refl
  | inr h ↦ rw h refl
]

marked :
    (cs : List Condition) (c : Condition) (kind : Text)
    → c.kind ≡ codes "Ready"
    → condition_of kind (set_condition cs c)
      ≡ (if text_eq (codes "Ready") kind then some c else condition_of kind cs)
marked cs c kind h = rw (← h) (condition_of-set_condition cs c kind)

-- The condition Ready that Reconcile writes is true exactly when every entry has the wire format
-- with a supported algorithm in it and a supported algorithm beside it; every other condition
-- stays as it was.
pub mark_ready_lem :
    (t : TSecret) (now : Time) (kind : Text)
    → ((ready_condition t.spec.entries now).status ≡ true ↔ AllWellFormed t.spec.entries)
      × (condition_of kind (mark_ready t now).status.conditions ≡ (
          if text_eq (codes "Ready") kind
          then some (ready_condition t.spec.entries now)
          else condition_of kind t.status.conditions))
unfolding mark_ready ready_condition
mark_ready_lem t now kind = (
  (
    λ h. check_entries_sound t.spec.entries (ground arith),
    λ h. ground (arith, check_entries_complete t.spec.entries h),
  ),
  marked t.status.conditions (ready_condition t.spec.entries now) kind
      (ready_condition-kind t.spec.entries now),
)
