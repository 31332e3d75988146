-- ===== src/Links/Ring.antt =====
-- What the stores of list.h stand for: a ring that leads from a list head through its entries
-- and back, read alike in both directions.
use lab.Base.{
  ℕ, ◌≡◌, ◌≢◌, ◌↔◌, refl, sym, true, List, [], ◌∷◌, ◌++◌, Absent, Distinct, last, first, ne-last,
  ne-first, Absent-remove, Absent-append, Absent-split, Distinct-remove, Distinct-insert, arith,
}
use lab.Links.{
  Links, list_init, list_add_between, list_del_between, list_add, list_add_before, list_del,
  list_empty,
}

-- From `a` the `next` fields lead through `xs` to `z`, and the `prev` fields lead back.
abbrev pub Seg : Links → ℕ → List ℕ → ℕ → Type 0
Seg s a [] z = (s.next a ≡ z) × (s.prev z ≡ a)
Seg s a (x ∷ xs) z = (s.next a ≡ x) × (s.prev x ≡ a) × Seg s x xs z

pub Seg-append :
    (s : Links) (a : ℕ) (xs : List ℕ) (y : ℕ) (ys : List ℕ) (z : ℕ)
    → Seg s a xs y
    → Seg s y ys z
    → Seg s a (xs ++ y ∷ ys) z
Seg-append s a [] y ys z l r = (l.0, l.1, r)
Seg-append s a (x ∷ xs) y ys z l r = (l.0, l.1, Seg-append s x xs y ys z l.2 r)

pub Seg-split :
    (s : Links) (a : ℕ) (xs : List ℕ) (y : ℕ) (ys : List ℕ) (z : ℕ)
    → Seg s a (xs ++ y ∷ ys) z
    → Seg s a xs y × Seg s y ys z
Seg-split s a [] y ys z h = ((h.0, h.1), h.2)
Seg-split s a (x ∷ xs) y ys z h = let r = Seg-split s x xs y ys z h.2 in ((h.0, h.1, r.0), r.1)

pub Seg-last : (s : Links) (a : ℕ) (xs : List ℕ) (z : ℕ) → Seg s a xs z → s.next (last a xs) ≡ z
Seg-last s a [] z h = h.0
Seg-last s a (x ∷ xs) z h = Seg-last s x xs z h.2

-- Segments under an insertion after `p` and before `n`.
module _ (e p n : ℕ) (s : Links) where
  -- A segment away from the changed entries stays: `p` has its `next` changed, `n` its `prev`.
  frame-add :
      (a : ℕ) (xs : List ℕ) (z : ℕ)
      → Seg s a xs z
      → Absent e (a ∷ xs)
      → e ≢ z
      → Absent p (a ∷ xs)
      → Absent n xs
      → n ≢ z
      → Seg (list_add_between e p n s) a xs z
  unfolding list_add_between
  frame-add a [] z h ea ez pa na nz = ground arith
  frame-add a (x ∷ xs) z h ea ez pa na nz =
      (ground arith, ground arith, frame-add x xs z h.2 ea.1 ez pa.1 na.1 nz)

  frame-del :
      (a : ℕ) (xs : List ℕ) (z : ℕ)
      → Seg s a xs z
      → Absent p (a ∷ xs)
      → Absent n xs
      → n ≢ z
      → Seg (list_del_between p n s) a xs z
  unfolding list_del_between
  frame-del a [] z h pa na nz = ground arith
  frame-del a (x ∷ xs) z h pa na nz =
      (ground arith, ground arith, frame-del x xs z h.2 pa.1 na.1 nz)

module _ (s : Links) (z : ℕ) where
  add-Seg :
      (e a : ℕ) (l r : List ℕ)
      → Seg s a (l ++ r) z
      → Absent e (a ∷ l ++ r)
      → e ≢ z
      → Distinct (a ∷ l ++ r)
      → Absent z (l ++ r)
      → Seg (list_add_between e (last a l) (first r z) s) a (l ++ e ∷ r) z
  unfolding list_add_between
  add-Seg e a [] [] h ea ez d za = ground arith
  add-Seg e a [] (y ∷ r) h ea ez d za = (
    ground arith,
    ground arith,
    (ground arith, ground arith, frame-add e a y s y r z h.2 ea.1 ez d.0 d.1.0 (λ q. za.0 (sym q))),
  )
  add-Seg e a (x ∷ l) r h ea ez d za = (
    ground (arith, ne-last a x l r d.0.0 d.0.1),
    ground (arith, ne-first x z l r (λ q. za.0 (sym q)) d.1.0),
    add-Seg e x l r h.2 ea.1 ez d.1 za.1,
  )

  del-Seg :
      (y a : ℕ) (l r : List ℕ)
      → Seg s a (l ++ y ∷ r) z
      → Distinct (a ∷ l ++ y ∷ r)
      → Absent z (l ++ y ∷ r)
      → Seg (list_del_between (last a l) (first r z) s) a (l ++ r) z
  unfolding list_del_between
  del-Seg y a [] [] h d za = ground arith
  del-Seg y a [] (x ∷ r) h d za = (
    ground arith,
    ground arith,
    frame-del y a x s x r z h.2.2 d.0.1 d.1.1.0 (λ q. za.1.0 (sym q)),
  )
  del-Seg y a (x ∷ l) r h d za = (
    ground (arith, ne-last a x l (y ∷ r) d.0.0 d.0.1),
    ground (arith, ne-first x z l r (λ q. za.0 (sym q)) (Absent-remove x y l r d.1.0)),
    del-Seg y x l r h.2 d.1 za.1,
  )

  -- The two entries on either side of a cut know each other.
  next-last : (a : ℕ) (l r : List ℕ) → Seg s a (l ++ r) z → s.next (last a l) ≡ first r z
  next-last a [] [] h = h.0
  next-last a [] (y ∷ r) h = h.0
  next-last a (x ∷ l) r h = next-last x l r h.2

  prev-first : (a : ℕ) (l r : List ℕ) → Seg s a (l ++ r) z → s.prev (first r z) ≡ last a l
  prev-first a [] [] h = h.1
  prev-first a [] (y ∷ r) h = h.1
  prev-first a (x ∷ l) r h = prev-first x l r h.2

-- The list with head `list` holds the entries `xs`, in order, each once.
pub record Ring (s : Links) (list : ℕ) (xs : List ℕ) : Type 0 where
  pub seg : Seg s list xs list
  pub distinct : Distinct (list ∷ xs)

module _ {s : Links} {list : ℕ} where
  add-Ring :
      (e : ℕ) (l r : List ℕ)
      → Ring s list (l ++ r)
      → Absent e (list ∷ l ++ r)
      → Ring (list_add_between e (last list l) (first r list) s) list (l ++ e ∷ r)
  add-Ring e l r h f = record {
    seg = add-Seg s list e list l r h.seg f f.0 h.distinct h.distinct.0;
    distinct = (
      Absent-append list l (e ∷ r) (Absent-split list l r h.distinct.0).0
          ((λ q. f.0 (sym q)), (Absent-split list l r h.distinct.0).1),
      Distinct-insert e l r f.1 h.distinct.1,
    );
  }

  -- The neighbours of an entry of the ring, and of its head.
  pub next-of : (y : ℕ) (l r : List ℕ) → Ring s list (l ++ y ∷ r) → s.next y ≡ first r list
  next-of y l [] h = (Seg-split s list l y [] list h.seg).1.0
  next-of y l (x ∷ r) h = (Seg-split s list l y (x ∷ r) list h.seg).1.0

  pub prev-of : (y : ℕ) (l r : List ℕ) → Ring s list (l ++ y ∷ r) → s.prev y ≡ last list l
  prev-of y l r h = prev-first s list list l (y ∷ r) h.seg

  pub next-head : (r : List ℕ) → Ring s list r → s.next list ≡ first r list
  next-head r h = next-last s list list [] r h.seg

  -- On a well-formed list `list_add` after the entry `p` puts an entry that is not on the list, and
  -- not its head, at the place behind `p`, and leaves a well-formed list.
  pub list_add-Ring :
      (e p : ℕ) (l r : List ℕ)
      → Ring s list (l ++ r)
      → Absent e (list ∷ l ++ r)
      → p ≡ last list l
      → Ring (list_add p e s) list (l ++ e ∷ r)
  unfolding list_add
  list_add-Ring e p l r h f q = rw (q, next-last s list list l r h.seg) (add-Ring e l r h f)

  -- On a well-formed list `list_add_before` the entry `n` puts an entry that is not on the list, and
  -- not its head, at the place in front of `n`, and leaves a well-formed list.
  pub list_add_before-Ring :
      (e n : ℕ) (l r : List ℕ)
      → Ring s list (l ++ r)
      → Absent e (list ∷ l ++ r)
      → n ≡ first r list
      → Ring (list_add_before n e s) list (l ++ e ∷ r)
  unfolding list_add_before
  list_add_before-Ring e n l r h f q = rw (q, prev-first s list list l r h.seg) (add-Ring e l r h f)

  -- `list_del` of an entry of a well-formed list leaves the well-formed list of the other entries.
  pub list_del-Ring :
      (y : ℕ) (l r : List ℕ) → Ring s list (l ++ y ∷ r) → Ring (list_del y s) list (l ++ r)
  unfolding list_del
  list_del-Ring y l r h =
      rw (prev-first s list list l (y ∷ r) h.seg, next-of y l r h)
        (record {
          seg = del-Seg s list y list l r h.seg h.distinct h.distinct.0;
          distinct = (Absent-remove list y l r h.distinct.0, Distinct-remove y l r h.distinct.1);
        })

  -- `list_empty` tells that no entry is linked.
  pub list_empty_iff : (xs : List ℕ) → Ring s list xs → (list_empty list s ≡ true) ↔ (xs ≡ [])
  unfolding list_empty
  list_empty_iff [] h = ((λ _. refl), λ _. ground (arith, h.seg))
  list_empty_iff (x ∷ xs) h = ((λ e. absurd (h.distinct.0.0 (ground (arith, h.seg)))), λ e. cc)

-- `list_init` makes an entry a list of its own.
pub list_init-Ring : (t : Links) (elm : ℕ) → Ring (list_init elm t) elm []
unfolding list_init
list_init-Ring t elm = record { seg = ground arith; distinct = (tt, tt) }
