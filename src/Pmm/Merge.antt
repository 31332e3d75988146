-- ===== src/Pmm/Merge.antt =====
-- Merging a free block with its neighbours, in `default_free_pages`.
use lab.Base.{
  ℕ, ◌+◌, ◌≡◌, ◌≢◌, refl, sym, ap, ◌∙◌, subst, inl, inr, true, List, [], ◌∷◌, ◌++◌, append_assoc,
  ◌==◌, if◌then◌else◌, Bool-cases, last, first, last-append, arith,
}
use lab.Links.{list_del}
use lab.Links.Ring.{Ring, list_del-Ring, prev-of, next-of}
use lab.Pmm.Blocks.{
  Block, entries, entries-append, total, total-append, end_of, Apart, Apart-split, Apart-append,
  Apart-weaken, Absent-below, Absent-above,
}
use lab.Pmm.FreeInto.{join}
use lab.Pmm.Rep.{Rep, Sized, Sized-split, Sized-append, Sized-frame}
use lab.Pmm.{Area, free_list, absorb, merge_prev, merge_next, merge_both}

module _ (p k q m : ℕ) (l r : List Block) (a : Area) (rep : Rep a (l ++ (p, k) ∷ (q, m) ∷ r))
    (touch : p + k ≡ q) where
  parts : Apart 0 l × Apart (end_of 0 l) ((p, k) ∷ (q, m) ∷ r)
  parts = Apart-split 0 l ((p, k) ∷ (q, m) ∷ r) rep.apart

  sizes : Sized a.pages l × Sized a.pages ((p, k) ∷ (q, m) ∷ r)
  sizes = Sized-split a.pages l ((p, k) ∷ (q, m) ∷ r) rep.sized

  joined : Area
  joined = absorb p q a

  whole-Ring : Ring a.links free_list ((entries l ++ (p + 1) ∷ []) ++ (q + 1) ∷ entries r)
  whole-Ring =
      rw append_assoc
        (subst (Ring a.links free_list) (entries-append l ((p, k) ∷ (q, m) ∷ r)) rep.ring)

  total_eq : total (l ++ (p, k) ∷ (q, m) ∷ r) ≡ total l + (k + (m + total r))
  total_eq = total-append l ((p, k) ∷ (q, m) ∷ r)

  elsewhere : (x : ℕ) → x ≢ p → x ≢ q → joined.pages x ≡ a.pages x
  unfolding joined absorb
  elsewhere x np nq = ground arith

  links : joined.links ≡ list_del (q + 1) a.links
  unfolding joined absorb
  links = refl

  count : joined.nr_free ≡ a.nr_free
  unfolding joined absorb
  count = refl

  head_page : ((joined.pages p).property ≡ k + m) × ((joined.pages p).pg_property ≡ true)
  unfolding joined absorb
  head_page = ground (arith, sizes, parts, rep.small, total_eq)

  absorb-Rep : Rep (absorb p q a) (l ++ (p, k + m) ∷ r)
  unfolding joined
  absorb-Rep = record {
    ring = rw links (
        subst (Ring _ free_list) (sym (entries-append l ((p, k + m) ∷ r))) (
          rw append_assoc at
            (list_del-Ring (q + 1) (entries l ++ (p + 1) ∷ []) (entries r) whole-Ring)));
    sized =
        Sized-append joined.pages l ((p, k + m) ∷ r)
          (Sized-frame a.pages joined.pages p q l (Absent-above p 0 l parts.0 parts.1.0)
            (Absent-above q 0 l parts.0 (omega (arith, parts.1.0))) elsewhere sizes.0)
          (
            head_page.0,
            head_page.1,
            Sized-frame a.pages joined.pages p q r
                (Absent-below p (q + m) r parts.1.2.2 (omega (arith, parts.1.1)))
                (Absent-below q (q + m) r parts.1.2.2 (omega (arith, parts.1.2.1))) elsewhere
                sizes.1.2.2,
          );
    apart =
        Apart-append 0 l _ parts.0
          (parts.1.0, omega (arith, parts.1.1), Apart-weaken r (omega arith) parts.1.2.2);
    count = omega (arith, count, rep.count, total_eq, total-append l ((p, k + m) ∷ r));
    small = omega (arith, rep.small, total_eq, total-append l ((p, k + m) ∷ r));
  }

-- A block of the list, its neighbours' entries and its size.
module _ (b n : ℕ) (l r : List Block) (a : Area) (rep : Rep a (l ++ (b, n) ∷ r)) where
  block-Ring : Ring a.links free_list (entries l ++ (b + 1) ∷ entries r)
  block-Ring = subst (Ring a.links free_list) (entries-append l ((b, n) ∷ r)) rep.ring

  next_entry : a.links.next (b + 1) ≡ first (entries r) free_list
  next_entry = next-of (b + 1) (entries l) (entries r) block-Ring

  prev_entry : a.links.prev (b + 1) ≡ last free_list (entries l)
  prev_entry = prev-of (b + 1) (entries l) (entries r) block-Ring

  head_size : (a.pages b).property ≡ n
  head_size = (Sized-split a.pages l ((b, n) ∷ r) rep.sized).1.0

-- The block after `b` is joined if it touches.
merge_next-join :
    (b n : ℕ) (l r : List Block) (a : Area)
    → Rep a (l ++ (b, n) ∷ r)
    → Rep (merge_next b a) (l ++ join (b, n) r)
unfolding merge_next join
merge_next-join b n l [] a rep =
    let same : merge_next b a ≡ a = ground (arith, next_entry b n l [] a rep) in rw same rep
merge_next-join b n l ((q, m) ∷ r) a rep = elim (Bool-cases (b + n == q)) [
  | inl touch ↦
      let joins : merge_next b a ≡ absorb b q a =
        ground (arith, next_entry b n l ((q, m) ∷ r) a rep, head_size b n l ((q, m) ∷ r) a rep) in
      rw (touch, joins) (absorb-Rep b n q m l r a rep (ground arith))
  | inr apart ↦
      let same : merge_next b a ≡ a =
        ground (arith, next_entry b n l ((q, m) ∷ r) a rep, head_size b n l ((q, m) ∷ r) a rep) in
      rw (apart, same) rep
]

-- The block before `b` is joined if it touches; either way the block after is looked at next.
pub merge_both-first :
    (b n : ℕ) (r : List Block) (a : Area)
    → Rep a ((b, n) ∷ r)
    → Rep (merge_both b a) (join (b, n) r)
unfolding merge_both merge_prev
merge_both-first b n r a rep =
    let same : merge_prev b a ≡ (b, a) = ground (arith, prev_entry b n [] r a rep) in
    rw same (merge_next-join b n [] r a rep)

pub merge_both-after :
    (b n p k : ℕ) (l r : List Block) (a : Area)
    → Rep a ((l ++ (p, k) ∷ []) ++ (b, n) ∷ r)
    → Rep (merge_both b a) (l ++ (if p + k == b then join (p, k + n) r else (p, k) ∷ join (b, n) r))
unfolding merge_both merge_prev
merge_both-after b n p k l r a rep = elim (Bool-cases (p + k == b)) [
  | inl touch ↦
      let joins : merge_prev b a ≡ (p, absorb p b a) = ground (arith, before, sizes) in
      rw (touch, joins)
        (merge_next-join p (k + n) l r _ (absorb-Rep p k b n l r a rep' (ground arith)))
  | inr apart ↦
      let same : merge_prev b a ≡ (b, a) = ground (arith, before, sizes) in
      rw (apart, same) (rw append_assoc at (merge_next-join b n (l ++ (p, k) ∷ []) r a rep))
]
  where
    rep' : Rep a (l ++ (p, k) ∷ (b, n) ∷ r)
    rep' = rw append_assoc at rep

    sizes : (a.pages p).property ≡ k
    sizes = head_size p k l ((b, n) ∷ r) a rep'

    before : a.links.prev (b + 1) ≡ p + 1
    before =
        prev_entry b n (l ++ (p, k) ∷ []) r a rep
        ∙ (ap (last free_list) (entries-append l ((p, k) ∷ []))
            ∙ last-append free_list (entries l) (p + 1) [])
