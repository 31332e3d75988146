-- ===== src/Rand.antt =====
-- libs/rand.c, with do_div of libs/riscv.h. The state is the static variable `next`, of 64 bits.
use lab.Base.{ℕ, ◌+◌, ◌*◌, ◌/◌, ◌%◌, ◌^◌, ◌≤◌, ◌<◌, arith}

-- libs/stdlib.h
abbrev pub rand_max : ℕ
rand_max = 2147483647

-- The result and what `n` is afterwards; both operands are unsigned, of 64 and of 32 bits.
abbrev do_div : ℕ → ℕ → ℕ × ℕ
do_div n base = (n % (base % 2 ^ 32), n / (base % 2 ^ 32))

-- The number and the new state.
unfoldable pub rand : ℕ → ℕ × ℕ
rand next =
    let next' = (next * 0x5DEECE66D + 0xB) % 2 ^ 64 % 2 ^ 48 in
    ((do_div (next' / 2 ^ 12) (rand_max + 1)).0, next')

abbrev pub srand : ℕ → ℕ
srand seed = seed

-- The number is at most RAND_MAX, and the new state has 48 bits.
rand-bounds : (next : ℕ) → ((rand next).0 ≤ rand_max) × ((rand next).1 < 2 ^ 48)
unfolding rand
rand-bounds next = (omega arith, omega arith)
