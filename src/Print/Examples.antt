-- ===== src/Print/Examples.antt =====
-- 2026 is printed and read; "%d!" goes into a buffer of three bytes.
use lab.Base.{ℕ, ◌+◌, ◌%◌, ◌≤◌, ◌<◌, ◌≡◌, ◌⊎◌, refl, List, [], ◌∷◌, length, pos, ok, arith}
use lab.Space.{Bytes}
use lab.Strings.Copy.{char_at}
use lab.Strings.{strtol}
use lab.Print.Number.{place, printnum-strtol}
use lab.Print.Format.{vprintfmt, escape, convert}
use lab.Print.Buffer.{vsnprintf}
use lab.Print.Bounds.{end_of, vsnprintf-bounds}
use lab.Print.{word_arg, printnum, padding, read_flag}

printnum-strtol_example :
    (cs : List ℕ) × (printnum 3000 2026 10 0 32 ≡ ok cs)
    × (strtol (length cs + 1) (place 100 cs) 100 10 ≡ ok (2026, 100 + length cs))
printnum-strtol_example = printnum-strtol 3000 2026 32 100 (omega arith) (omega arith)

abbrev fmt : List ℕ
fmt = 37 ∷ 100 ∷ 33 ∷ []

abbrev text : List ℕ
text = 52 ∷ 50 ∷ 33 ∷ []

prints_42 : vprintfmt 4 fmt (word_arg 42 ∷ []) ≡ ok text
unfolding vprintfmt escape convert printnum padding read_flag
prints_42 = refl

vsnprintf-bounds_example :
    (mem' : Bytes) × (vsnprintf 4 1000 3 fmt (word_arg 42 ∷ []) (λ a. 7) ≡ ok (pos 3, mem'))
    × ((a : ℕ) → (a < 1000) ⊎ (1003 ≤ a) → mem' a ≡ 7)
    × ((i : ℕ) → i < 3 → i + 1 < 3 → mem' (1000 + i) ≡ char_at text i % 256)
    × (mem' (end_of 1000 1002 3) ≡ 0)
vsnprintf-bounds_example =
    vsnprintf-bounds 4 1000 3 fmt (word_arg 42 ∷ []) (λ a. 7) text prints_42 (omega arith)
      (omega arith) (omega arith)
