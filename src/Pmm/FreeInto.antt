-- ===== src/Pmm/FreeInto.antt =====
-- The abstract effect of a free: a block put among the free blocks, joined with those it touches.
use lab.Base.{ℕ, ◌+◌, ◌≤◌, ◌<◌, ◌≡◌, refl, List, [], ◌∷◌, ◌++◌, ltb, ◌==◌, if◌then◌else◌, arith}
use lab.Pmm.Blocks.{Block, Apart, Apart-split, le-end_of}

-- The block `b` before `bs`, joined with the first of them if they touch.
unfoldable pub join : Block → List Block → List Block
join b [] = b ∷ []
join (b, n) ((p, k) ∷ bs) = if b + n == p then (b, n + k) ∷ bs else (b, n) ∷ (p, k) ∷ bs

-- The free blocks with `b` among them: in address order, joined with the blocks that it touches.
unfoldable pub free_into : Block → List Block → List Block
unfolding join
free_into b [] = b ∷ []
free_into (b, n) ((p, k) ∷ bs) =
    if p + k == b
    then join (p, k + n) bs
    else if ltb b p
    then join (b, n) ((p, k) ∷ bs)
    else (p, k) ∷ free_into (b, n) bs

-- What `free_into` does in the gap.
pub free_into-above :
    (b n : ℕ) (r : List Block) → 0 < n → Apart (b + n) r → free_into (b, n) r ≡ join (b, n) r
unfolding free_into join
free_into-above b n [] pos above = refl
free_into-above b n ((q, m) ∷ r) pos above = ground arith

head-le : (lo p k : ℕ) (l r : List Block) → Apart lo (l ++ (p, k) ∷ r) → lo ≤ p
head-le lo p k l r ap =
    let t = Apart-split lo l ((p, k) ∷ r) ap in omega (arith, le-end_of lo l t.0, t.1.0)

pub free_into-after :
    (b n lo : ℕ) (l : List Block) (p k : ℕ) (r : List Block)
    → 0 < n
    → Apart lo (l ++ (p, k) ∷ r)
    → p + k ≤ b
    → Apart (b + n) r
    → free_into (b, n) (l ++ (p, k) ∷ r)
      ≡ l ++ (if p + k == b then join (p, k + n) r else (p, k) ∷ join (b, n) r)
unfolding free_into
free_into-after b n lo [] p k r pos ap le above = ground (arith, free_into-above b n r pos above)
free_into-after b n lo ((x, y) ∷ l) p k r pos ap le above = ground (
  arith,
  free_into-after b n (x + y) l p k r pos ap.2 le above,
  head-le (x + y) p k l r ap.2,
  ap.2,
  Apart-split (x + y) l ((p, k) ∷ r) ap.2,
)
