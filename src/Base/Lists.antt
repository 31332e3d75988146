-- ===== src/Base/Lists.antt =====
-- Lists measured by native numbers, and predicates on lists by recursion.
use Prim.Native.Nat.{ℕ, suc, ◌+◌}
use mathlib.Core.Path.{◌≡◌, refl, ap, sym}
use mathlib.Core.Logic.{◌≢◌, ◌⊎◌, inl, inr}
use mathlib.Core.List.{List, [], ◌∷◌, ◌++◌, map}
use native.Mathlib.Omega.{arith}

module _ {ℓ} {A : Type ℓ} where
  abbrev pub length : List A → ℕ
  length [] = 0
  length (x ∷ xs) = suc (length xs)

  pub length-append : (xs ys : List A) → length (xs ++ ys) ≡ length xs + length ys
  length-append [] ys = omega arith
  length-append (x ∷ xs) ys = omega (arith, length-append xs ys)

  abbrev pub All {κ} : (A → Type κ) → List A → Type κ
  All P [] = Unit
  All P (x ∷ xs) = P x × All P xs

pub length-map {ℓ κ} :
    {A : Type ℓ} {B : Type κ} (xs : List A) (f : A → B) → length (map f xs) ≡ length xs
length-map [] f = refl
length-map (x ∷ xs) f = ap suc (length-map xs f)

module _ {ℓ κ} {A : Type ℓ} (P : A → Type κ) where
  pub All-append : (xs ys : List A) → All P xs → All P ys → All P (xs ++ ys)
  All-append [] ys hx hy = hy
  All-append (x ∷ xs) ys hx hy = (hx.0, All-append xs ys hx.1 hy)

  pub All-split : (xs ys : List A) → All P (xs ++ ys) → All P xs × All P ys
  All-split [] ys h = (tt, h)
  All-split (x ∷ xs) ys h = let r = All-split xs ys h.1 in ((h.0, r.0), r.1)

pub snoc-cases {ℓ} :
    {A : Type ℓ} (xs : List A) → (xs ≡ []) ⊎ ((ys : List A) × (y : A) × (xs ≡ ys ++ y ∷ []))
snoc-cases [] = inl refl
snoc-cases (x ∷ xs) = elim (snoc-cases xs) [
  | inl e ↦ inr ([], x, ap (◌∷◌ x) e)
  | inr (ys, y, e) ↦ inr (x ∷ ys, y, ap (◌∷◌ x) e)
]

-- `a` is no element of the list.
abbrev pub Absent : ℕ → List ℕ → Type 0
Absent a [] = Unit {0}
Absent a (x ∷ xs) = (a ≢ x) × Absent a xs

-- No element occurs twice.
abbrev pub Distinct : List ℕ → Type 0
Distinct [] = Unit {0}
Distinct (x ∷ xs) = Absent x xs × Distinct xs

pub Absent-append : (a : ℕ) (xs ys : List ℕ) → Absent a xs → Absent a ys → Absent a (xs ++ ys)
Absent-append a [] ys hx hy = hy
Absent-append a (x ∷ xs) ys hx hy = (hx.0, Absent-append a xs ys hx.1 hy)

pub Absent-split : (a : ℕ) (xs ys : List ℕ) → Absent a (xs ++ ys) → Absent a xs × Absent a ys
Absent-split a [] ys h = (tt, h)
Absent-split a (x ∷ xs) ys h = let r = Absent-split a xs ys h.1 in ((h.0, r.0), r.1)

-- The element before the end of `a ∷ xs`, and the first of `xs` or else `z`.
abbrev pub last : ℕ → List ℕ → ℕ
last a [] = a
last a (x ∷ xs) = last x xs

abbrev pub first : List ℕ → ℕ → ℕ
first [] z = z
first (x ∷ xs) z = x

pub ne-last : (a x : ℕ) (xs ys : List ℕ) → a ≢ x → Absent a (xs ++ ys) → a ≢ last x xs
ne-last a x [] ys h ab = h
ne-last a x (y ∷ xs) ys h ab = ne-last a y xs ys ab.0 ab.1

pub ne-first : (a z : ℕ) (xs ys : List ℕ) → a ≢ z → Absent a (xs ++ ys) → a ≢ first ys z
ne-first a z [] [] h ab = h
ne-first a z [] (y ∷ ys) h ab = ab.0
ne-first a z (x ∷ xs) ys h ab = ne-first a z xs ys h ab.1

pub Distinct-insert :
    (e : ℕ) (xs ys : List ℕ) → Absent e (xs ++ ys) → Distinct (xs ++ ys) → Distinct (xs ++ e ∷ ys)
Distinct-insert e [] ys ab d = (ab, d)
Distinct-insert e (x ∷ xs) ys ab d = (
  Absent-append x xs (e ∷ ys) (Absent-split x xs ys d.0).0
      ((λ q. ab.0 (sym q)), (Absent-split x xs ys d.0).1),
  Distinct-insert e xs ys ab.1 d.1,
)

pub Absent-remove : (a y : ℕ) (xs ys : List ℕ) → Absent a (xs ++ y ∷ ys) → Absent a (xs ++ ys)
Absent-remove a y [] ys h = h.1
Absent-remove a y (x ∷ xs) ys h = (h.0, Absent-remove a y xs ys h.1)

pub Distinct-remove : (y : ℕ) (xs ys : List ℕ) → Distinct (xs ++ y ∷ ys) → Distinct (xs ++ ys)
Distinct-remove y [] ys d = d.1
Distinct-remove y (x ∷ xs) ys d = (Absent-remove x y xs ys d.0, Distinct-remove y xs ys d.1)

pub last-append : (a : ℕ) (xs : List ℕ) (y : ℕ) (ys : List ℕ) → last a (xs ++ y ∷ ys) ≡ last y ys
last-append a [] y ys = refl
last-append a (x ∷ xs) y ys = last-append x xs y ys

pub Distinct-middle : (y : ℕ) (xs ys : List ℕ) → Distinct (xs ++ y ∷ ys) → Absent y xs × Absent y ys
Distinct-middle y [] ys d = (tt, d.0)
Distinct-middle y (x ∷ xs) ys d =
    let r = Distinct-middle y xs ys d.1 in
    let h = Absent-split x xs (y ∷ ys) d.0 in (((λ q. h.1.0 (sym q)), r.0), r.1)
