-- ===== src/Kmalloc/Sizes.antt =====
-- The sizes that kmalloc gets wrong.
use lab.Base.{
  ℕ, zero, suc, ◌+◌, ◌-◌, ◌*◌, ◌/◌, ◌^◌, ◌≤◌, ◌<◌, ◌≡◌, refl, ◌∙◌, ap, false, ltb, lt→ltb, if_true,
  if_false, panic, arith,
}
use lab.Vmm.{page_size}
use lab.Kmalloc.{Slob, slob_unit, slob_alloc, halve, find_order, kmalloc}

-- A request for 4064 to 4079 bytes is small for kmalloc, but with the header too large for slob_alloc,
-- whose assertion fails: the kernel stops.
pub kmalloc-panic :
    (fuel size : ℕ) (s : Slob) → 4064 ≤ size → size < 4080 → kmalloc fuel size s ≡ panic
unfolding kmalloc slob_alloc
kmalloc-panic fuel size s lo hi =
    let large : ltb (size + slob_unit + slob_unit) page_size ≡ false = ground arith in
    if_true (ltb size (page_size - slob_unit)) _ _ (ground arith) ∙ rw large refl

pow_pos : (k : ℕ) → 1 ≤ 2 ^ k
pow_pos zero = omega arith
pow_pos (suc k) = omega (arith, pow_pos k)

halve-order :
    (fuel k r order : ℕ) → k < fuel → r < 2 ^ k → halve fuel (4096 * 2 ^ k + r) order ≡ order + k
unfolding halve
halve-order zero k r order lt small = ground (arith, lt)
halve-order (suc fuel) zero r order lt small =
    if_false (ltb 4096 (4096 * 2 ^ 0 + r)) _ _ (ground (arith, small)) ∙ omega arith
halve-order (suc fuel) (suc k) r order lt small =
    let double : 2 ^ suc k ≡ 2 * 2 ^ k = omega arith in
    let half : (4096 * 2 ^ suc k + r) / 2 ≡ 4096 * 2 ^ k + r / 2 = omega (arith, double) in
    if_true (ltb 4096 (4096 * 2 ^ suc k + r)) _ _
      (lt→ltb 4096 (4096 * 2 ^ suc k + r) (omega (arith, double, pow_pos k)))
    ∙ ap (λ n. halve fuel n (order + 1)) half
    ∙ halve-order fuel k (r / 2) (order + 1) (omega (arith, lt)) (omega (arith, double, small))
    ∙ omega arith

-- For a request of 2^k pages and r more bytes, with k below 19 and r from 1 on and below 2^k, find_order
-- gives k: the 2^k pages of the big block are smaller than the request.
pub find_order-short :
    (k r : ℕ)
    → k < 19
    → 0 < r
    → r < 2 ^ k
    → (find_order (page_size * 2 ^ k + r) ≡ k)
      × (page_size * 2 ^ find_order (page_size * 2 ^ k + r) < page_size * 2 ^ k + r)
unfolding find_order
find_order-short k r few more small =
    let e : find_order (page_size * 2 ^ k + r) ≡ k =
      halve-order 32 k r 0 (omega (arith, few)) small ∙ omega arith in
    (e, rw e (omega (arith, more)))
