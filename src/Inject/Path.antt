-- ===== src/Inject/Path.antt =====
-- What pkg/inject uses of path/filepath on Unix: Join, which cleans the joined path.
use tsecret.Common.{
  ℕ, Bool, true, false, ◌||◌, List, [], ◌∷◌, ◌++◌, Text, codes, text_eq, is_empty, slash, reverse,
  ◌==◌, if◌then◌else◌, ◌≡◌, ◌≢◌, refl, ap, ◌∙◌, sym, arith, Lacks, Bool-cases, inl, inr,
}

-- The elements between the slashes.
first_part : ℕ → List Text → List Text
first_part c [] = (c ∷ []) ∷ []
first_part c (p ∷ ps) = (c ∷ p) ∷ ps

parts : Text → List Text
unfolding first_part
parts [] = [] ∷ []
parts (c ∷ s) = let rest = parts s in if c == slash then [] ∷ rest else first_part c rest

abbrev dots : Text
dots = codes ".."

-- What ".." makes of the elements before it, the last one first.
up : Bool → List Text → List Text
up rooted [] = if rooted then [] else dots ∷ []
up rooted (p ∷ ps) = if text_eq p dots then dots ∷ p ∷ ps else ps

visit : Bool → List Text → Text → List Text
unfolding up
visit rooted stack p =
    if is_empty p || text_eq p (codes ".")
    then stack
    else if text_eq p dots
    then up rooted stack
    else p ∷ stack

walk : Bool → List Text → List Text → List Text
unfolding visit
walk rooted [] stack = stack
walk rooted (p ∷ ps) stack = walk rooted ps (visit rooted stack p)

-- The elements of a folder, each with the slash behind it.
folders : List Text → Text
folders [] = []
folders (p ∷ ps) = p ++ slash ∷ folders ps

-- A path from its elements, the last one first.
render : Bool → List Text → Text
unfolding folders
render true [] = slash ∷ []
render false [] = codes "."
render true (p ∷ ps) = slash ∷ (folders (reverse ps) ++ p)
render false (p ∷ ps) = folders (reverse ps) ++ p

is_rooted : Text → Bool
is_rooted [] = false
is_rooted (c ∷ _) = c == slash

-- filepath.Clean
unfoldable pub clean : Text → Text
unfolding render walk parts is_rooted
clean [] = codes "."
clean (c ∷ s) = render (is_rooted (c ∷ s)) (walk (is_rooted (c ∷ s)) (parts (c ∷ s)) [])

-- filepath.Join of two elements
unfoldable pub join : Text → Text → Text
unfolding clean
join [] [] = []
join [] (c ∷ name) = clean (c ∷ name)
join (c ∷ dir) name = clean (c ∷ dir ++ slash ∷ name)

join_samples :
    (join (codes "/run/x/") (codes "db") ≡ codes "/run/x/db")
    × (join (codes "run//./x") (codes "y") ≡ codes "run/x/y")
    × (join (codes "/run/x") (codes "../../../etc/p") ≡ codes "/etc/p")
    × (join (codes "run") (codes "../../p") ≡ codes "../p")
    × (join (codes "/run") (codes "a/../b") ≡ codes "/run/b")
    × (join (codes "run") (codes "..") ≡ codes ".")
unfolding join text_eq
join_samples = (refl, refl, refl, refl, refl, refl)

-- A name of one element.
pub record IsPlainName (name : Text) : Type 0 where
  pub given : is_empty name ≡ false
  pub no_slash : Lacks slash name
  pub no_dot : text_eq name (codes ".") ≡ false
  pub no_dots : text_eq name dots ≡ false

parts-Lacks : (name : Text) → Lacks slash name → parts name ≡ name ∷ []
unfolding parts
parts-Lacks [] h = refl
parts-Lacks (c ∷ name) (hc, h) = ground (arith, parts-Lacks name h)

first_part-append :
    (c : ℕ) (ps qs : List Text) → ps ≢ [] → first_part c (ps ++ qs) ≡ first_part c ps ++ qs
unfolding first_part
first_part-append c [] qs h = absurd (h refl)
first_part-append c (p ∷ ps) qs h = refl

first_part-ne-nil : (c : ℕ) (ps : List Text) → first_part c ps ≢ []
unfolding first_part
first_part-ne-nil c [] h = cc h
first_part-ne-nil c (p ∷ ps) h = cc h

parts-ne-nil : (s : Text) → parts s ≢ []
unfolding parts
parts-ne-nil [] h = cc h
parts-ne-nil (c ∷ s) h = elim (Bool-cases (c == slash)) [
  | inl e ↦ cc (rw (e, parts) at h)
  | inr e ↦ first_part-ne-nil c (parts s) (rw (e, parts) at h)
]

parts-append : (dir name : Text) → parts (dir ++ slash ∷ name) ≡ parts dir ++ parts name
unfolding parts
parts-append [] name = refl
parts-append (c ∷ dir) name =
    let rest = parts-append dir name in
    elim (Bool-cases (c == slash)) [
      | inl e ↦ rw e (ap (◌∷◌ []) rest)
      | inr e ↦
          rw e (
            ap (first_part c) rest
            ∙ first_part-append c (parts dir) (parts name) (parts-ne-nil dir))
    ]

walk-append :
    (rooted : Bool) (ps qs stack : List Text)
    → walk rooted (ps ++ qs) stack ≡ walk rooted qs (walk rooted ps stack)
unfolding walk
walk-append rooted [] qs stack = refl
walk-append rooted (p ∷ ps) qs stack = walk-append rooted ps qs (visit rooted stack p)

walk-plain :
    (rooted : Bool) (stack : List Text) (name : Text)
    → IsPlainName name
    → walk rooted (name ∷ []) stack ≡ name ∷ stack
unfolding walk
walk-plain rooted stack name plain = rw (plain.given, plain.no_dot) (rw plain.no_dots refl)

-- What stands before the name in a joined path.
pub base : Text → Text
unfolding parts walk is_rooted folders
base [] = []
base (c ∷ dir) =
    let stack = walk (is_rooted (c ∷ dir)) (parts (c ∷ dir)) [] in
    if is_rooted (c ∷ dir) then slash ∷ folders (reverse stack) else folders (reverse stack)

pub base_sample : base (codes "/run/db") ≡ codes "/run/db/"
unfolding base text_eq
base_sample = refl

render-cons :
    (rooted : Bool) (p : Text) (ps : List Text)
    → render rooted (p ∷ ps)
      ≡ (if rooted then slash ∷ folders (reverse ps) else folders (reverse ps)) ++ p
unfolding render
render-cons true p ps = refl
render-cons false p ps = refl

-- A plain name is joined to a folder by writing it behind the cleaned folder.
pub join-plain : (dir name : Text) → IsPlainName name → join dir name ≡ base dir ++ name
unfolding join clean base
join-plain [] [] plain = cc plain.given
join-plain [] (c ∷ name) plain =
    let flat : is_rooted (c ∷ name) ≡ false = unfold is_rooted in ground (arith, plain.no_slash) in
    ap (λ r. render r (walk r (parts (c ∷ name)) [])) flat
    ∙ ap (λ ps. render false (walk false ps [])) (parts-Lacks (c ∷ name) plain.no_slash)
    ∙ ap (render false) (walk-plain false [] (c ∷ name) plain)
join-plain (c ∷ dir) name plain =
    let rooted = is_rooted (c ∷ dir) in
    let stack = walk rooted (parts (c ∷ dir)) [] in
    ap (λ ps. render rooted (walk rooted ps []))
      (parts-append (c ∷ dir) name
        ∙ ap (λ ps. parts (c ∷ dir) ++ ps) (parts-Lacks name plain.no_slash))
    ∙ ap (render rooted)
        (walk-append rooted (parts (c ∷ dir)) (name ∷ []) [] ∙ walk-plain rooted stack name plain)
    ∙ render-cons rooted name stack

pub append_cancel : (a s t : Text) → a ++ s ≡ a ++ t → s ≡ t
append_cancel [] s t h = h
append_cancel (c ∷ a) s t h = append_cancel a s t (cc h)

-- Different plain names are different files.
pub join_injective :
    (dir name name' : Text)
    → IsPlainName name
    → IsPlainName name'
    → join dir name ≡ join dir name'
    → name ≡ name'
join_injective dir name name' plain plain' h =
    append_cancel (base dir) name name'
      (sym (join-plain dir name plain) ∙ h ∙ join-plain dir name' plain')
