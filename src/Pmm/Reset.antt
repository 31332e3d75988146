-- ===== src/Pmm/Reset.antt =====
-- The pages of a block that is freed: what the code asserts of them, and what it resets.
use lab.Base.{ℕ, zero, suc, ◌+◌, ◌≤◌, ◌<◌, ◌≡◌, refl, ◌⊎◌, false, List, [], ◌∷◌, update, ok, arith}
use lab.Pmm.Blocks.{Block, end_of, Apart, le-end_of}
use lab.Pmm.Rep.{Sized}
use lab.Pmm.Insert.{Below}
use lab.Pmm.{Area, Page, blank, reset_pages}

-- Neither reserved nor the head of a free block: what the code asserts of each page it frees.
abbrev pub InUse : (ℕ → Page) → ℕ → ℕ → Type 0
InUse pages base n =
    (q : ℕ)
    → base ≤ q
    → q < base + n
    → ((pages q).pg_reserved ≡ false) × ((pages q).pg_property ≡ false)

-- The pages once `n` of them from `p` on are reset.
unfoldable pub cleared : ℕ → ℕ → (ℕ → Page) → ℕ → Page
cleared zero p pages = pages
cleared (suc n) p pages =
    cleared n (p + 1) (update pages p (record blank { property = (pages p).property }))

pub cleared-outside :
    (n p : ℕ) (pages : ℕ → Page) (q : ℕ) → (q < p) ⊎ (p + n ≤ q) → cleared n p pages q ≡ pages q
unfolding cleared
cleared-outside zero p pages q h = refl
cleared-outside (suc n) p pages q h = ground (
  arith,
  cleared-outside n (p + 1) (update pages p (record blank { property = (pages p).property })) q,
)

pub reset_pages-cleared :
    (n p : ℕ) (a : Area)
    → InUse a.pages p n
    → reset_pages n p a ≡ ok (record a { pages = cleared n p a.pages })
unfolding reset_pages cleared
reset_pages-cleared zero p a h = refl
reset_pages-cleared (suc n) p a h =
    rw ((h p (omega arith) (omega arith)).0, (h p (omega arith) (omega arith)).1)
      (reset_pages-cleared n (p + 1) _ (λ q lo hi. ground (arith, h q (omega arith) (omega arith))))

-- Pages below, or from `hi` on, keep the sizes of the blocks there.
pub Sized-below :
    (pages pages' : ℕ → Page) (lo hi : ℕ) (bs : List Block)
    → ((q : ℕ) → q < hi → pages' q ≡ pages q)
    → Apart lo bs
    → end_of lo bs ≤ hi
    → Sized pages bs
    → Sized pages' bs
Sized-below pages pages' lo hi [] same ap le h = tt
Sized-below pages pages' lo hi ((p, k) ∷ bs) same ap le h =
    let e : pages' p ≡ pages p = same p (omega (arith, le-end_of (p + k) bs ap.2)) in
    (ground arith, ground arith, Sized-below pages pages' (p + k) hi bs same ap.2 le h.2)

pub Sized-from :
    (pages pages' : ℕ → Page) (lo : ℕ) (bs : List Block)
    → ((q : ℕ) → lo ≤ q → pages' q ≡ pages q)
    → Apart lo bs
    → Sized pages bs
    → Sized pages' bs
Sized-from pages pages' lo [] same ap h = tt
Sized-from pages pages' lo ((p, k) ∷ bs) same ap h =
    let e : pages' p ≡ pages p = same p ap.0 in
    (
      ground arith,
      ground arith,
      Sized-from pages pages' (p + k) bs (λ q le. same q (omega (arith, ap.0))) ap.2 h.2,
    )

pub Below-Apart : (lo b : ℕ) (bs : List Block) → Apart lo bs → end_of lo bs ≤ b → Below b bs
Below-Apart lo b [] ap le = tt
Below-Apart lo b ((p, k) ∷ bs) ap le =
    (omega (arith, le-end_of (p + k) bs ap.2), Below-Apart (p + k) b bs ap.2 le)
