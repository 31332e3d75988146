-- ===== src/Pmm/Stuck.antt =====
-- A block at the end of the free list that is its own predecessor: `list_del` has no effect on it.
use lab.Base.{
  ℕ, zero, suc, ◌+◌, ◌-◌, ◌≤◌, ◌<◌, ◌≡◌, ◌≢◌, sym, ap, ◌∙◌, List, [], ◌∷◌, some, Absent, Distinct,
  length, ok, arith, last, ne-last, append-nil,
}
use lab.Links.{Links}
use lab.Links.Ring.{Seg}
use lab.Pmm.Blocks.{Block, entries, end_of, Apart}
use lab.Pmm.Rep.{Sized}
use lab.Pmm.Reset.{Sized-below}
use lab.Pmm.{Area, free_list, first_fit, take_pages, default_alloc_pages}

-- From `a` the `next` fields lead through `xs` to `z`.
abbrev pub Forward : Links → ℕ → List ℕ → ℕ → Type 0
Forward s a [] z = s.next a ≡ z
Forward s a (x ∷ xs) z = (s.next a ≡ x) × Forward s x xs z

-- Only the last entry is led elsewhere, and an entry that the list does not hold.
pub Forward-retarget :
    (s t : Links) (b e a : ℕ) (xs : List ℕ) (z : ℕ)
    → Seg s a xs z
    → Distinct (a ∷ xs)
    → Absent b (a ∷ xs)
    → ((x : ℕ) → x ≢ last a xs → x ≢ b → t.next x ≡ s.next x)
    → t.next (last a xs) ≡ e
    → Forward t a xs e
Forward-retarget s t b e a [] z h d out same new = new
Forward-retarget s t b e a (x ∷ xs) z h d out same new = (
  same a (ne-last a x xs [] d.0.0 (rw append-nil d.0.1)) (λ q. out.0 (sym q)) ∙ h.0,
  Forward-retarget s t b e x xs z h.2 d.1 out.1 same new,
)

abbrev pub Smaller : ℕ → List Block → Type 0
Smaller n [] = Unit {0}
Smaller n ((p, k) ∷ bs) = (k < n) × Smaller n bs

-- The scan passes blocks that are too small.
pub first_fit-past :
    (fuel n le b : ℕ) (a : Area) (bs : List Block)
    → Forward a.links le (entries bs) (b + 1)
    → Sized a.pages bs
    → Smaller n bs
    → n ≤ (a.pages b).property
    → length bs < fuel
    → first_fit fuel n le a ≡ ok (some b)
unfolding first_fit
first_fit-past zero n le b a bs h s small fits lt = absurd (omega arith)
first_fit-past (suc f) n le b a [] h s small fits lt = ground arith
first_fit-past (suc f) n le b a ((p, k) ∷ bs) h s small fits lt =
    ground (arith, first_fit-past f n (p + 1) b a bs h.1 s.2 small.1 fits)

-- A state in which the page `base` heads a block of `n` pages at the end of the list, linked to
-- itself backwards, behind blocks `bs` that are smaller.
pub record Stuck (n base : ℕ) (bs : List Block) (a : Area) : Type 0 where
  pub forward : Forward a.links free_list (entries bs) (base + 1)
  pub ended : a.links.next (base + 1) ≡ free_list
  pub looped : a.links.prev (base + 1) ≡ base + 1
  pub sized : Sized a.pages bs
  pub size : (a.pages base).property ≡ n

pub Forward-same :
    (s t : Links) (a : ℕ) (xs : List ℕ) (z : ℕ)
    → ((x : ℕ) → t.next x ≡ s.next x)
    → Forward s a xs z
    → Forward t a xs z
Forward-same s t a [] z same h = same a ∙ h
Forward-same s t a (x ∷ xs) z same h = (same a ∙ h.0, Forward-same s t x xs z same h.1)

-- Taking the pages of such a block leaves every `next` field as it was.
module _ (n base : ℕ) (bs : List Block) (a : Area) (st : Stuck n base bs a) where
  next_same : (x : ℕ) → (take_pages base n a).links.next x ≡ a.links.next x
  unfolding take_pages
  next_same x = ground (arith, st.looped, st.ended, st.size)

  prev_looped : (take_pages base n a).links.prev (base + 1) ≡ base + 1
  unfolding take_pages
  prev_looped = ground (arith, st.looped, st.ended, st.size)

  taken_size : ((take_pages base n a).pages base).property ≡ n
  unfolding take_pages
  taken_size = ground (arith, st.size)

  taken_elsewhere : (q : ℕ) → q < base → (take_pages base n a).pages q ≡ a.pages q
  unfolding take_pages
  taken_elsewhere q lt = ground (arith, st.size)

  taken_count : (take_pages base n a).nr_free ≡ a.nr_free - n
  unfolding take_pages
  taken_count = ground (arith, st.size)

-- Such a block is handed out, and stays where it is.
pub alloc-Stuck :
    (fuel n base : ℕ) (bs : List Block) (a : Area)
    → Stuck n base bs a
    → 0 < n
    → end_of 0 bs ≤ base
    → Apart 0 bs
    → Smaller n bs
    → n ≤ a.nr_free
    → length bs < fuel
    → (a' : Area) × (default_alloc_pages fuel n a ≡ ok (some base, a'))
      × Stuck n base bs a'
      × (a'.nr_free ≡ a.nr_free - n)
unfolding default_alloc_pages
alloc-Stuck fuel n base bs a st pos gap ap small free enough = (
  take_pages base n a,
  ground (arith, scan),
  record {
    forward =
        Forward-same a.links (take_pages base n a).links free_list (entries bs) (base + 1)
          (next_same n base bs a st) st.forward;
    ended = next_same n base bs a st (base + 1) ∙ st.ended;
    looped = prev_looped n base bs a st;
    sized =
        Sized-below a.pages (take_pages base n a).pages 0 base bs (taken_elsewhere n base bs a st)
          ap gap st.sized;
    size = taken_size n base bs a st;
  },
  taken_count n base bs a st,
)
  where
    scan : first_fit fuel n free_list a ≡ ok (some base)
    scan =
        first_fit-past fuel n free_list base a bs st.forward st.sized small (omega (arith, st.size))
          enough
