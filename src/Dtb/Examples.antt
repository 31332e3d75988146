-- ===== src/Dtb/Examples.antt =====
-- A tree with a memory node of 128 MB from 0x80000000 on.
use lab.Base.{
  ℕ, ◌-◌, ◌<◌, ◌≡◌, ◌≢◌, refl, Bool, true, false, ltb, if◌then◌else◌, if_true, if_false, List, [],
  ◌∷◌, Bool-cases, inl, inr, some, ok, zero, suc, ◌+◌, ◌==◌, ==_iff, sym, ◌∙◌, arith, ltb→lt,
}
use lab.Space.{Bytes}
use lab.Strings.Copy.{char_at}
use lab.Dtb.Tree.{Item, begins, ends, prop, memory_name, reg_name, HasLiterals, IsProperty, Holds}
use lab.Dtb.Found.{HasTree, dtb_init-find_memory}
use lab.Dtb.{Literals, dtb_init}

abbrev tree_bytes : List ℕ
tree_bytes =
    208 ∷ 13 ∷ 254 ∷ 237 ∷ 0 ∷ 0 ∷ 0 ∷ 0 ∷ 0 ∷ 0 ∷ 0 ∷ 40 ∷ 0 ∷ 0 ∷ 0 ∷ 100 ∷ 0 ∷ 0 ∷ 0 ∷ 0 ∷ 0 ∷ 0
    ∷ 0 ∷ 0 ∷ 0 ∷ 0 ∷ 0 ∷ 0 ∷ 0 ∷ 0 ∷ 0 ∷ 0 ∷ 0 ∷ 0 ∷ 0 ∷ 0 ∷ 0 ∷ 0 ∷ 0 ∷ 0 ∷ 0 ∷ 0 ∷ 0 ∷ 1 ∷ 0 ∷ 0
    ∷ 0 ∷ 0 ∷ 0 ∷ 0 ∷ 0 ∷ 1 ∷ 109 ∷ 101 ∷ 109 ∷ 111 ∷ 114 ∷ 121 ∷ 0 ∷ 0 ∷ 0 ∷ 0 ∷ 0 ∷ 3 ∷ 0 ∷ 0 ∷ 0
    ∷ 16 ∷ 0 ∷ 0 ∷ 0 ∷ 0 ∷ 0 ∷ 0 ∷ 0 ∷ 0 ∷ 128 ∷ 0 ∷ 0 ∷ 0 ∷ 0 ∷ 0 ∷ 0 ∷ 0 ∷ 8 ∷ 0 ∷ 0 ∷ 0 ∷ 0 ∷ 0
    ∷ 0 ∷ 2 ∷ 0 ∷ 0 ∷ 0 ∷ 2 ∷ 0 ∷ 0 ∷ 0 ∷ 9 ∷ 114 ∷ 101 ∷ 103 ∷ 0 ∷ 109 ∷ 101 ∷ 109 ∷ 111 ∷ 114
    ∷ 121 ∷ 0 ∷ 0 ∷ 114 ∷ 101 ∷ 103 ∷ 0 ∷ []

-- The tree is at 0x82200000 in physical memory, and the literals are behind it.
abbrev tree_memory : Bytes
tree_memory a = char_at tree_bytes (a - 0xFFFFFFFFC2200000)

abbrev literals : Literals
literals = record { memory = 0xFFFFFFFFC2200068; reg = 0xFFFFFFFFC2200070 }

abbrev all_bytes : List ℕ → Bool
all_bytes [] = true
all_bytes (x ∷ xs) = if ltb x 256 then all_bytes xs else false

opposite : ◌≢◌ true false
opposite e = ground (arith, e)

-- Behind the list there are zeros.
small_at : (xs : List ℕ) (i : ℕ) → all_bytes xs ≡ true → char_at xs i < 256
small_at [] i e = omega arith
small_at (x ∷ xs) zero e = elim (Bool-cases (ltb x 256)) [
  | inl t ↦ ltb→lt x 256 t
  | inr f ↦ absurd (opposite (sym e ∙ if_false (ltb x 256) (all_bytes xs) false f))
]
small_at (x ∷ xs) (suc i) e = elim (Bool-cases (ltb x 256)) [
  | inl t ↦ small_at xs i (sym (if_true (ltb x 256) (all_bytes xs) false t) ∙ e)
  | inr f ↦ absurd (opposite (sym e ∙ if_false (ltb x 256) (all_bytes xs) false f))
]

-- Two stores that have the same numbers at the first `n` addresses.
abbrev agree : ℕ → Bytes → Bytes → Bool
agree zero f g = true
agree (suc n) f g = if f n == g n then agree n f g else false

agree-at : (n i : ℕ) (f g : Bytes) → agree n f g ≡ true → i < n → f i ≡ g i
agree-at zero i f g e lt = ground (arith, lt)
agree-at (suc n) i f g e lt = elim (Bool-cases (f n == g n)) [
  | inr d ↦ absurd (opposite (sym e ∙ if_false (f n == g n) (agree n f g) false d))
  | inl t ↦ elim (Bool-cases (i == n)) [
    | inl s ↦ cc ((==_iff i n).0 s, (==_iff (f n) (g n)).0 t)
    | inr d ↦
        agree-at n i f g (sym (if_true (f n == g n) (agree n f g) false t) ∙ e)
          (ground (arith, lt, d))
  ]
]

tree_HasLiterals : HasLiterals literals tree_memory
tree_HasLiterals = record {
  small = λ a. small_at tree_bytes (a - 0xFFFFFFFFC2200000) refl;
  memory = (
    refl,
    omega arith,
    (
      refl,
      omega arith,
      (refl, omega arith, (refl, omega arith, (refl, omega arith, (refl, omega arith, refl)))),
    ),
  );
  reg = (refl, omega arith, (refl, omega arith, (refl, omega arith, refl)));
}

abbrev value : List ℕ
value = 0 ∷ 0 ∷ 0 ∷ 0 ∷ 128 ∷ 0 ∷ 0 ∷ 0 ∷ 0 ∷ 0 ∷ 0 ∷ 0 ∷ 8 ∷ 0 ∷ 0 ∷ 0 ∷ []

abbrev tokens : List Item
tokens = begins [] ∷ begins memory_name ∷ prop 0 reg_name value ∷ ends ∷ ends ∷ []

reg_IsProperty : IsProperty 9 0xFFFFFFFFC2200064 tree_memory 0xFFFFFFFFC220003C 0 reg_name value
reg_IsProperty = record {
  token = refl;
  len = refl;
  nameoff = refl;
  inside = omega arith;
  name_text = record {
    text = (refl, omega arith, (refl, omega arith, (refl, omega arith, refl)));
    short = omega arith;
  };
  bytes = λ i lt. agree-at 16 i (λ n. tree_memory (0xFFFFFFFFC2200048 + n)) (char_at value) refl lt;
}

tree_Holds : Holds 9 0xFFFFFFFFC2200064 tree_memory 0xFFFFFFFFC2200028 tokens
tree_Holds = (
  refl,
  record { text = refl; short = omega arith },
  omega arith,
  (
    refl,
    record { text = tree_HasLiterals.memory; short = omega arith },
    omega arith,
    (reg_IsProperty, omega arith, (refl, omega arith, (refl, omega arith, (refl, omega arith)))),
  ),
)

tree_HasTree : HasTree 6 9 0x82200000 tree_memory tokens
tree_HasTree = record {
  not_null = omega arith;
  magic = refl;
  tokens = tree_Holds;
  enough = omega arith;
}

-- 128 MB from 0x80000000 on are saved.
dtb_init-find_memory_example :
    dtb_init 6 9 literals tree_memory 0x82200000 (record { memory_base = 0; memory_size = 0 })
    ≡ ok (record { memory_base = 0x80000000; memory_size = 0x8000000 })
dtb_init-find_memory_example =
    dtb_init-find_memory 6 9 0x82200000 literals tree_memory
      (record { memory_base = 0; memory_size = 0 }) (some tokens) tree_HasLiterals tree_HasTree
