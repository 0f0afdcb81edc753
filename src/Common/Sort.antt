-- ===== src/Common/Sort.antt =====
-- sort.Strings: the order of Go strings is that of their bytes.
use mathlib.Core.Path.{◌≡◌, refl, ap, ◌∙◌}
use mathlib.Core.Logic.{inl, inr}
use mathlib.Core.Bool.{Bool, true, false, ◌&&◌, ◌||◌}
use mathlib.Core.List.{List, [], ◌∷◌}
use native.Mathlib.Omega.{arith}
use tsecret.Common.Tests.{ltb, ◌==◌, if◌then◌else◌, Bool-cases}
use tsecret.Common.Strings.{Text}
use tsecret.Common.Orders.{Reorder, empty, keep, swap, via, Reorder-refl}

text_le : Text → Text → Bool
text_le [] t = true
text_le (a ∷ s) [] = false
text_le (a ∷ s) (b ∷ t) = ltb a b || (a == b && text_le s t)

text_le_total : (s t : Text) → text_le s t ≡ false → text_le t s ≡ true
unfolding text_le
text_le_total [] t h = cc h
text_le_total (a ∷ s) [] h = refl
text_le_total (a ∷ s) (b ∷ t) h = ground (arith, text_le_total s t)

text_le_antisymm : (s t : Text) → text_le s t ≡ true → text_le t s ≡ true → s ≡ t
unfolding text_le
text_le_antisymm [] [] h k = refl
text_le_antisymm [] (b ∷ t) h k = cc k
text_le_antisymm (a ∷ s) [] h k = cc h
text_le_antisymm (a ∷ s) (b ∷ t) h k = ground (arith, text_le_antisymm s t)

text_le_trans : (s t u : Text) → text_le s t ≡ true → text_le t u ≡ true → text_le s u ≡ true
unfolding text_le
text_le_trans [] t u h k = refl
text_le_trans (a ∷ s) [] u h k = cc h
text_le_trans (a ∷ s) (b ∷ t) [] h k = cc k
text_le_trans (a ∷ s) (b ∷ t) (c ∷ u) h k = ground (arith, text_le_trans s t u)

insert_sorted : Text → List Text → List Text
unfolding text_le
insert_sorted s [] = s ∷ []
insert_sorted s (t ∷ ts) = if text_le s t then s ∷ t ∷ ts else t ∷ insert_sorted s ts

unfoldable pub sort_strings : List Text → List Text
unfolding insert_sorted
sort_strings [] = []
sort_strings (s ∷ ss) = insert_sorted s (sort_strings ss)

insert_sorted_comm :
    (s t : Text) (l : List Text)
    → insert_sorted s (insert_sorted t l) ≡ insert_sorted t (insert_sorted s l)
unfolding insert_sorted
insert_sorted_comm s t [] = ground (arith, text_le_total s t, text_le_antisymm s t)
insert_sorted_comm s t (u ∷ l) = ground (
  arith,
  insert_sorted_comm s t l,
  text_le_total s t,
  text_le_total t s,
  text_le_antisymm s t,
  text_le_trans s t u,
  text_le_trans t s u,
  text_le_total s u,
  text_le_total t u,
  text_le_trans s u t,
  text_le_trans t u s,
)

-- The sorted list does not depend on the order of its elements.
pub sort_strings-Reorder : {xs ys : List Text} → Reorder xs ys → sort_strings xs ≡ sort_strings ys
unfolding sort_strings
sort_strings-Reorder empty = refl
sort_strings-Reorder (keep x r) = ap (insert_sorted x) (sort_strings-Reorder r)
sort_strings-Reorder (swap x y l) = insert_sorted_comm x y (sort_strings l)
sort_strings-Reorder (via r s) = sort_strings-Reorder r ∙ sort_strings-Reorder s

-- Sorting only reorders.
insert_sorted-Reorder : (s : Text) (l : List Text) → Reorder (s ∷ l) (insert_sorted s l)
unfolding insert_sorted
insert_sorted-Reorder s [] = keep s empty
insert_sorted-Reorder s (t ∷ l) =
    let rest = insert_sorted-Reorder s l in
    elim (Bool-cases (text_le s t)) [
      | inl h ↦ rw h (Reorder-refl (s ∷ t ∷ l))
      | inr h ↦ rw h (via (swap s t l) (keep t rest))
    ]

pub Reorder-sort_strings : (l : List Text) → Reorder l (sort_strings l)
unfolding sort_strings
Reorder-sort_strings [] = empty
Reorder-sort_strings (s ∷ l) =
    via (keep s (Reorder-sort_strings l)) (insert_sorted-Reorder s (sort_strings l))
