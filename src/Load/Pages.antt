-- ===== src/Load/Pages.antt =====
-- The loops of `load_icode` over the pages of a segment: which bytes they have written so far.
use lab.Base.{
  ℕ, Bool-cases, subst, ◌+◌, ◌-◌, ◌*◌, ◌/◌, ◌≤◌, ◌<◌, ◌≡◌, ◌≢◌, refl, sym, ap, ◌∙◌, ◌⊎◌, inl, inr,
  ◌&&◌, ltb, leb, ◌==◌, if_false, lt→ltb, ltb→lt, not_ltb→le, le→leb, ==_iff, some, ok, arith,
}
use lab.Paging.{Perm, Machine, pgdir_alloc_page}
use lab.Space.{Bytes}
use lab.Load.{write_bytes}

-- The `n` pages of an area from `la` on, `pg j` for the j-th, and the memory `ms j` before it is mapped.
-- Each is mapped by `pgdir_alloc_page`, and no two are the same.
pub record Pages (fuel pgdir la n : ℕ) (perm : Perm) (pg : ℕ → ℕ) (ms : ℕ → Machine) : Type 0 where
  pub given :
      (j : ℕ)
      → j < n
      → pgdir_alloc_page fuel pgdir (la + 4096 * j) perm (ms j) ≡ ok (some (pg j), ms (j + 1))
  pub apart : (i j : ℕ) → i < n → j < n → pg i ≡ pg j → i ≡ j

-- In `new` the bytes for the addresses from `va` up to `upto` are those of `image`; all others are those
-- of `old`.
pub record Loaded (la n : ℕ) (pg : ℕ → ℕ) (image : ℕ → ℕ) (va upto : ℕ) (old new : Bytes)
    : Type 0 where
  pub inside :
      (j o : ℕ)
      → j < n
      → o < 4096
      → va ≤ la + 4096 * j + o
      → la + 4096 * j + o < upto
      → new (pg j * 4096 + o) ≡ image (la + 4096 * j + o)
  pub around :
      (j o : ℕ)
      → j < n
      → o < 4096
      → (la + 4096 * j + o < va) ⊎ (upto ≤ la + 4096 * j + o)
      → new (pg j * 4096 + o) ≡ old (pg j * 4096 + o)
  pub elsewhere : (a : ℕ) → ((j : ℕ) → j < n → pg j ≢ a / 4096) → new a ≡ old a

written :
    (dst len : ℕ) (value : ℕ → ℕ) (mem : Bytes) (a : ℕ)
    → dst ≤ a
    → a < dst + len
    → write_bytes dst len value mem a ≡ value (a - dst)
written dst len value mem a lo hi = rw (le→leb dst a lo, lt→ltb a (dst + len) hi) refl

kept :
    (dst len : ℕ) (value : ℕ → ℕ) (mem : Bytes) (a : ℕ)
    → (a < dst) ⊎ (dst + len ≤ a)
    → write_bytes dst len value mem a ≡ mem a
kept dst len value mem a out = if_false (leb dst a && ltb a (dst + len)) _ (mem a) (ground arith)

same_or_not : (i j : ℕ) → (i ≡ j) ⊎ (i ≢ j)
same_or_not i j = elim (Bool-cases (i == j)) [
  | inl e ↦ inl ((==_iff i j).0 e)
  | inr e ↦ inr (λ q. cc (e, (==_iff i j).1 q))
]

-- A write in the page `p`, at `off` and up to `end` at most, seen from the page `q`.
other_page :
    (p q off len o : ℕ) (value : ℕ → ℕ) (mem : Bytes)
    → q ≢ p
    → off + len ≤ 4096
    → o < 4096
    → write_bytes (p * 4096 + off) len value mem (q * 4096 + o) ≡ mem (q * 4096 + o)
other_page p q off len o value mem ne fits lt =
    kept (p * 4096 + off) len value mem (q * 4096 + o) (ground arith)

module _ (fuel pgdir la n va : ℕ) (perm : Perm) (pg : ℕ → ℕ) (ms : ℕ → Machine) (image : ℕ → ℕ)
    (old : Bytes) (pages : Pages fuel pgdir la n perm pg ms) where
  -- A write within the page `k`, from where the bytes end up to `upto`.
  module _ (k start upto : ℕ) (mem : Bytes) (value : ℕ → ℕ)
      (l : Loaded la n pg image va start old mem) (kn : k < n) (lo : la + 4096 * k ≤ start)
      (mid : start ≤ upto) (hi : upto ≤ la + 4096 * k + 4096) (from : va ≤ start)
      (agree : (i : ℕ) → start + i < upto → value i ≡ image (start + i)) where
    unfoldable pub after_write : Bytes
    after_write = write_bytes (pg k * 4096 + (start - (la + 4096 * k))) (upto - start) value mem

    unwritten :
        (j o : ℕ)
        → j < n
        → o < 4096
        → (la + 4096 * j + o < start) ⊎ (upto ≤ la + 4096 * j + o)
        → after_write (pg j * 4096 + o) ≡ mem (pg j * 4096 + o)
    unfolding after_write
    unwritten j o jn lt out = elim (same_or_not j k) [
      | inl e ↦
          kept (pg k * 4096 + (start - (la + 4096 * k))) (upto - start) value mem (pg j * 4096 + o)
            (ground (arith, ap pg e))
      | inr ne ↦
          other_page (pg k) (pg j) (start - (la + 4096 * k)) (upto - start) o value mem
            (λ q. ne (pages.apart j k jn kn q)) (omega arith) lt
    ]

    in_page : (j o : ℕ) → o < 4096 → start ≤ la + 4096 * j + o → la + 4096 * j + o < upto → j ≡ k
    in_page j o lt a b = omega arith

    just_written :
        (o : ℕ)
        → o < 4096
        → start ≤ la + 4096 * k + o
        → la + 4096 * k + o < upto
        → after_write (pg k * 4096 + o) ≡ image (la + 4096 * k + o)
    unfolding after_write
    just_written o lt a b =
        let i = la + 4096 * k + o - start in
        written (pg k * 4096 + (start - (la + 4096 * k))) (upto - start) value mem (pg k * 4096 + o)
          (omega arith) (omega arith)
        ∙ ap value (omega arith)
        ∙ agree i (omega arith)
        ∙ ap image (omega arith)

    begins :
        (j o : ℕ)
        → o < 4096
        → start ≤ la + 4096 * j + o
        → la + 4096 * j + o < upto
        → start ≤ la + 4096 * k + o
    begins j o lt a b = omega (arith, in_page j o lt a b)

    ends :
        (j o : ℕ)
        → o < 4096
        → start ≤ la + 4096 * j + o
        → la + 4096 * j + o < upto
        → la + 4096 * k + o < upto
    ends j o lt a b = omega (arith, in_page j o lt a b)

    outside :
        (a : ℕ)
        → pg k ≢ a / 4096
        → (a < pg k * 4096 + (start - (la + 4096 * k)))
          ⊎ (pg k * 4096 + (start - (la + 4096 * k)) + (upto - start) ≤ a)
    outside a ne = ground arith

    pub write_bytes-Loaded : Loaded la n pg image va upto old after_write
    unfolding after_write
    write_bytes-Loaded = record {
      inside = λ j o jn lt a b. elim (Bool-cases (ltb (la + 4096 * j + o) start)) [
        | inl before ↦
            unwritten j o jn lt (inl (ltb→lt _ _ before)) ∙ l.inside j o jn lt a (ltb→lt _ _ before)
        | inr new ↦
            subst (λ q. after_write (pg q * 4096 + o) ≡ image (la + 4096 * q + o))
              (sym (in_page j o lt (not_ltb→le _ _ new) b))
              (just_written o lt (begins j o lt (not_ltb→le _ _ new) b)
                (ends j o lt (not_ltb→le _ _ new) b))
      ];
      around = λ j o jn lt out. elim out [
        | inl a ↦ unwritten j o jn lt (inl (omega arith)) ∙ l.around j o jn lt (inl a)
        | inr b ↦ unwritten j o jn lt (inr b) ∙ l.around j o jn lt (inr (omega arith))
      ];
      elsewhere = λ a off.
          kept (pg k * 4096 + (start - (la + 4096 * k))) (upto - start) value mem a
            (outside a (off k kn))
          ∙ l.elsewhere a off;
    }
