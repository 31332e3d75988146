-- ===== src/Dtb/Words.antt =====
-- The numbers of a device tree are big-endian, and memory is read little-endian.
use lab.Base.{ℕ, zero, suc, ◌+◌, ◌*◌, ◌/◌, ◌%◌, ◌^◌, ◌<◌, ◌≡◌, ◌∙◌, ap, List, [], ◌∷◌, arith}
use lab.Space.{Bytes}
use lab.Load.{read_le}
use lab.Dtb.{fdt32_to_cpu, fdt64_to_cpu, word_at}

-- The number that bytes are behind a number, the highest first.
abbrev pub number : ℕ → List ℕ → ℕ
number acc [] = acc
number acc (x ∷ xs) = number (acc * 256 + x) xs

-- The `n` bytes at an address.
abbrev pub bytes_at : ℕ → ℕ → Bytes → List ℕ
bytes_at zero a mem = []
bytes_at (suc n) a mem = mem a ∷ bytes_at n (a + 1) mem

-- Four bytes as they are read.
abbrev four : ℕ → ℕ → ℕ → ℕ → ℕ
four a b c d = a + 256 * (b + 256 * (c + 256 * (d + 0)))

swapped :
    (a b c d : ℕ)
    → a < 256
    → b < 256
    → c < 256
    → d < 256
    → fdt32_to_cpu (four a b c d) ≡ number 0 (a ∷ b ∷ c ∷ d ∷ [])
swapped a b c d la lb lc ld = omega arith

halves :
    (x l h : ℕ)
    → x ≡ l + 2 ^ 32 * h
    → l < 2 ^ 32
    → fdt64_to_cpu x ≡ fdt32_to_cpu l * 2 ^ 32 + fdt32_to_cpu h
halves x l h e lt =
    let low : x % 2 ^ 32 ≡ l = omega (arith, e, lt) in
    let high : x / 2 ^ 32 ≡ h = omega (arith, e, lt) in
    ap (λ n. fdt32_to_cpu n * 2 ^ 32 + fdt32_to_cpu (x / 2 ^ 32)) low
    ∙ ap (λ n. fdt32_to_cpu l * 2 ^ 32 + fdt32_to_cpu n) high

swapped_twice :
    (a b c d e f g h : ℕ)
    → a < 256
    → b < 256
    → c < 256
    → d < 256
    → e < 256
    → f < 256
    → g < 256
    → h < 256
    → fdt64_to_cpu (a + 256 * (b + 256 * (c + 256 * (d + 256 * four e f g h))))
      ≡ number 0 (a ∷ b ∷ c ∷ d ∷ e ∷ f ∷ g ∷ h ∷ [])
swapped_twice a b c d e f g h la lb lc ld le lf lg lh =
    let high = swapped a b c d la lb lc ld in
    let low = swapped e f g h le lf lg lh in
    halves (a + 256 * (b + 256 * (c + 256 * (d + 256 * four e f g h)))) (four a b c d)
      (four e f g h) (omega arith) (omega arith)
    ∙ ap (λ n. n * 2 ^ 32 + fdt32_to_cpu (four e f g h)) high
    ∙ ap (λ n. number 0 (a ∷ b ∷ c ∷ d ∷ []) * 2 ^ 32 + n) low
    ∙ omega arith

pub word_at-number :
    (mem : Bytes) (p : ℕ) → ((a : ℕ) → mem a < 256) → word_at mem p ≡ number 0 (bytes_at 4 p mem)
word_at-number mem p small =
    let p₁ = p + 1 in
    let p₂ = p₁ + 1 in
    let p₃ = p₂ + 1 in
    swapped (mem p) (mem p₁) (mem p₂) (mem p₃) (small p) (small p₁) (small p₂) (small p₃)

pub fdt64_to_cpu-number :
    (mem : Bytes) (p : ℕ)
    → ((a : ℕ) → mem a < 256)
    → fdt64_to_cpu (read_le 8 p mem) ≡ number 0 (bytes_at 8 p mem)
fdt64_to_cpu-number mem p small =
    let p₁ = p + 1 in
    let p₂ = p₁ + 1 in
    let p₃ = p₂ + 1 in
    let p₄ = p₃ + 1 in
    let p₅ = p₄ + 1 in
    let p₆ = p₅ + 1 in
    let p₇ = p₆ + 1 in
    swapped_twice (mem p) (mem p₁) (mem p₂) (mem p₃) (mem p₄) (mem p₅) (mem p₆) (mem p₇) (small p)
      (small p₁) (small p₂) (small p₃) (small p₄) (small p₅) (small p₆) (small p₇)
