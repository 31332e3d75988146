-- ===== src/Strings/Move.antt =====
-- `memmove` and `memcpy` against the copy of all bytes at once.
use lab.Base.{
  ℕ, zero, suc, ◌+◌, ◌-◌, ◌≤◌, ◌<◌, ◌≡◌, ◌⊎◌, inl, inr, ◌∙◌, ap, Bool-cases, ◌&&◌, ltb, if_true,
  if_false, update, arith,
}
use lab.Space.{Bytes, copy_bytes}
use lab.Strings.{copy_down, memcpy, memmove}

pub memcpy-copies :
    (d s n : ℕ) (mem : Bytes) (a : ℕ)
    → (d ≤ s) ⊎ (s + n ≤ d)
    → memcpy d s n mem a ≡ copy_bytes d s n mem a
unfolding memcpy
memcpy-copies d s zero mem a apart = ground arith
memcpy-copies d s (suc n) mem a apart =
    memcpy-copies (d + 1) (s + 1) n (update mem d (mem s)) a (ground arith) ∙ first apart
  where
    first :
        (d ≤ s) ⊎ (s + suc n ≤ d)
        → copy_bytes (d + 1) (s + 1) n (update mem d (mem s)) a ≡ copy_bytes d s (suc n) mem a
    first h = ground arith

copy_down-copies :
    (d s n : ℕ) (mem : Bytes) (a : ℕ)
    → s < d
    → copy_down (d + n) (s + n) n mem a ≡ copy_bytes d s n mem a
unfolding copy_down
copy_down-copies d s zero mem a lt = ground arith
copy_down-copies d s (suc n) mem a lt =
    let e : d + suc n - 1 ≡ d + n = omega arith in
    let f : s + suc n - 1 ≡ s + n = omega arith in
    let last : copy_bytes d s n (update mem (d + n) (mem (s + n))) a
        ≡ copy_bytes d s (suc n) mem a =
      ground arith in
    rw (e, f) (copy_down-copies d s n (update mem (d + n) (mem (s + n))) a lt ∙ last)

-- memmove leaves in n bytes from dst what was in n bytes from src, and every other byte as it was,
-- whether the two ranges overlap or not.
pub memmove-copies :
    (dst src n : ℕ) (mem : Bytes) (a : ℕ) → memmove dst src n mem a ≡ copy_bytes dst src n mem a
unfolding memmove
memmove-copies dst src n mem a = elim (Bool-cases (ltb src dst && ltb dst (src + n))) [
  | inl over ↦
      ap (λ f. f a) (if_true (ltb src dst && ltb dst (src + n)) _ (memcpy dst src n mem) over)
      ∙ copy_down-copies dst src n mem a (ground arith)
  | inr apart ↦
      ap (λ f. f a) (if_false (ltb src dst && ltb dst (src + n)) _ (memcpy dst src n mem) apart)
      ∙ memcpy-copies dst src n mem a (ground arith)
]
