-- ===== src/Common/Orders.antt =====
-- Lists that hold the same elements in another order: what ranging over a Go map visits.
use mathlib.Core.Logic.{◌≢◌, inl, inr}
use mathlib.Core.List.{List, [], ◌∷◌}
use tsecret.Common.Lists.{All, In}

pub data Reorder {A : Type 0} : List A → List A → Type 0 where
  empty : Reorder [] []
  keep : (x : A) {xs ys : List A} → Reorder xs ys → Reorder (x ∷ xs) (x ∷ ys)
  swap : (x y : A) (l : List A) → Reorder (x ∷ y ∷ l) (y ∷ x ∷ l)
  via : {xs ys zs : List A} → Reorder xs ys → Reorder ys zs → Reorder xs zs

module _ {A : Type 0} where
  pub Reorder-refl : (xs : List A) → Reorder xs xs
  Reorder-refl [] = empty
  Reorder-refl (x ∷ xs) = keep x (Reorder-refl xs)

  pub Reorder-symm : {xs ys : List A} → Reorder xs ys → Reorder ys xs
  Reorder-symm empty = empty
  Reorder-symm (keep x r) = keep x (Reorder-symm r)
  Reorder-symm (swap x y l) = swap y x l
  Reorder-symm (via r s) = via (Reorder-symm s) (Reorder-symm r)

  pub Reorder-ne-nil : {xs ys : List A} → Reorder xs ys → xs ≢ [] → ys ≢ []
  Reorder-ne-nil empty h = h
  Reorder-ne-nil (keep x r) h = λ e. cc e
  Reorder-ne-nil (swap x y l) h = λ e. cc e
  Reorder-ne-nil (via r s) h = Reorder-ne-nil s (Reorder-ne-nil r h)

  pub In-Reorder : (a : A) {xs ys : List A} → Reorder xs ys → In a xs → In a ys
  In-Reorder a empty m = elim m [ ]
  In-Reorder a (keep x r) (inl e) = inl e
  In-Reorder a (keep x r) (inr m) = inr (In-Reorder a r m)
  In-Reorder a (swap x y l) (inl e) = inr (inl e)
  In-Reorder a (swap x y l) (inr (inl e)) = inl e
  In-Reorder a (swap x y l) (inr (inr m)) = inr (inr m)
  In-Reorder a (via r s) m = In-Reorder a s (In-Reorder a r m)

  pub All-Reorder {κ} : (P : A → Type κ) {xs ys : List A} → Reorder xs ys → All P xs → All P ys
  All-Reorder P empty h = tt
  All-Reorder P (keep x r) (hx, h) = (hx, All-Reorder P r h)
  All-Reorder P (swap x y l) (hx, (hy, h)) = (hy, (hx, h))
  All-Reorder P (via r s) h = All-Reorder P s (All-Reorder P r h)

  -- The elements at different places are apart.
  abbrev pub Pairwise {κ} : (A → A → Type κ) → List A → Type κ
  Pairwise R [] = Unit
  Pairwise R (x ∷ xs) = All (R x) xs × Pairwise R xs

  pub Pairwise-Reorder {κ} :
      (R : A → A → Type κ)
      → ((x y : A) → R x y → R y x)
      → {xs ys : List A} → Reorder xs ys
      → Pairwise R xs
      → Pairwise R ys
  Pairwise-Reorder R symm empty h = tt
  Pairwise-Reorder R symm (keep x r) (hx, h) = (All-Reorder (R x) r hx, Pairwise-Reorder R symm r h)
  Pairwise-Reorder R symm (swap x y l) ((xy, hx), (hy, h)) = ((symm x y xy, hy), (hx, h))
  Pairwise-Reorder R symm (via r s) h = Pairwise-Reorder R symm s (Pairwise-Reorder R symm r h)
