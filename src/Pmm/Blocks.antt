-- ===== src/Pmm/Blocks.antt =====
-- The abstract view of the free list: free blocks by first page and size, in address order.
use lab.Base.{ℕ, ◌+◌, ◌≤◌, ◌<◌, ◌≡◌, refl, List, [], ◌∷◌, ◌++◌, Absent, arith}

abbrev pub Block : Type 0
Block = ℕ × ℕ

abbrev pub entries : List Block → List ℕ
entries [] = []
entries ((p, k) ∷ bs) = (p + 1) ∷ entries bs

abbrev pub total : List Block → ℕ
total [] = 0
total ((p, k) ∷ bs) = k + total bs

-- The end of the last block.
abbrev pub end_of : ℕ → List Block → ℕ
end_of lo [] = lo
end_of lo ((p, k) ∷ bs) = end_of (p + k) bs

-- From `lo` on the blocks lie in address order, apart and not empty.
abbrev pub Apart : ℕ → List Block → Type 0
Apart lo [] = Unit {0}
Apart lo ((p, k) ∷ bs) = (lo ≤ p) × (0 < k) × Apart (p + k) bs

pub entries-append : (l r : List Block) → entries (l ++ r) ≡ entries l ++ entries r
entries-append [] r = refl
entries-append ((p, k) ∷ l) r = rw (entries-append l r)

pub total-append : (l r : List Block) → total (l ++ r) ≡ total l + total r
total-append [] r = omega arith
total-append ((p, k) ∷ l) r = omega (arith, total-append l r)

pub Apart-split :
    (lo : ℕ) (l r : List Block) → Apart lo (l ++ r) → Apart lo l × Apart (end_of lo l) r
Apart-split lo [] r h = (tt, h)
Apart-split lo ((p, k) ∷ l) r h = let t = Apart-split (p + k) l r h.2 in ((h.0, h.1, t.0), t.1)

pub Apart-append :
    (lo : ℕ) (l r : List Block) → Apart lo l → Apart (end_of lo l) r → Apart lo (l ++ r)
Apart-append lo [] r h g = g
Apart-append lo ((p, k) ∷ l) r h g = (h.0, h.1, Apart-append (p + k) l r h.2 g)

pub Apart-weaken : {lo hi : ℕ} (bs : List Block) → lo ≤ hi → Apart hi bs → Apart lo bs
Apart-weaken [] h a = tt
Apart-weaken ((p, k) ∷ bs) h a = (omega arith, a.1, a.2)

pub le-end_of : (lo : ℕ) (bs : List Block) → Apart lo bs → lo ≤ end_of lo bs
le-end_of lo [] a = omega arith
le-end_of lo ((p, k) ∷ bs) a = omega (arith, le-end_of (p + k) bs a.2)

-- A page below a block, or inside the gap after one, heads no block there.
pub Absent-below : (b lo : ℕ) (bs : List Block) → Apart lo bs → b < lo → Absent (b + 1) (entries bs)
Absent-below b lo [] a h = tt
Absent-below b lo ((p, k) ∷ bs) a h = (omega arith, Absent-below b (p + k) bs a.2 (omega arith))

pub Absent-above :
    (b lo : ℕ) (bs : List Block) → Apart lo bs → end_of lo bs ≤ b → Absent (b + 1) (entries bs)
Absent-above b lo [] a h = tt
Absent-above b lo ((p, k) ∷ bs) a h =
    (omega (arith, le-end_of (p + k) bs a.2), Absent-above b (p + k) bs a.2 h)

pub Absent-head : (bs : List Block) → Absent 0 (entries bs)
Absent-head [] = tt
Absent-head ((p, k) ∷ bs) = (omega arith, Absent-head bs)

pub end_of-append : (lo : ℕ) (l : List Block) (p k : ℕ) → end_of lo (l ++ (p, k) ∷ []) ≡ p + k
end_of-append lo [] p k = refl
end_of-append lo ((x, y) ∷ l) p k = end_of-append (x + y) l p k
