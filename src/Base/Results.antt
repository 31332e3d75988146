-- ===== src/Base/Results.antt =====
-- Signed return codes, and the outcome of code that may fail an assertion.
use Prim.Native.Nat.{ℕ}
use mathlib.Core.Bool.{Bool, true, false}
use mathlib.Core.Path.{◌≡◌, ap}

-- `negsuc n` is -(n + 1).
pub data ℤ : Type 0 where
  pos : ℕ → ℤ
  negsuc : ℕ → ℤ

-- The outcome of kernel code: it returns, or it stops in `panic` (a failed `assert` too), or the
-- model's fuel ran out.
pub data Outcome {ℓ} (A : Type ℓ) : Type ℓ where
  ok : A → Outcome A
  panic : Outcome A
  out_of_fuel : Outcome A

-- The next step of a `do` block runs only if this one returned.
infixl 5 ◌>>=◌ ◌>>◌
abbrev pub ◌>>=◌ {ℓ ℓ'} : {S : Type ℓ} {T : Type ℓ'} → Outcome S → (S → Outcome T) → Outcome T
panic >>= next = panic
out_of_fuel >>= next = out_of_fuel
ok s >>= next = next s

-- A step that returns `s` hands it to the next.
pub run_ok {ℓ ℓ'} :
    {S : Type ℓ} {T : Type ℓ'} (o : Outcome S) (s : S) (next : S → Outcome T)
    → o ≡ ok s
    → (o >>= next) ≡ next s
run_ok o s next e = ap (λ x. x >>= next) e

-- `assert(b)`.
abbrev pub assert : Bool → Outcome (Unit {0})
assert false = panic
assert true = ok tt

abbrev pub ◌>>◌ {ℓ'} : {T : Type ℓ'} → Outcome (Unit {0}) → Outcome T → Outcome T
first >> second = first >>= (λ _. second)
