-- ===== src/Strings/Examples.antt =====
-- Five bytes moved up by two, and a short string copied.
use lab.Base.{ℕ, ◌+◌, ◌≤◌, ◌<◌, ◌≡◌, ◌⊎◌, inl, refl, ◌==◌, if◌then◌else◌, [], ◌∷◌, arith}
use lab.Space.{Bytes, copy_bytes}
use lab.Strings.Move.{memmove-copies}
use lab.Strings.Copy.{IsString, char_at, strncpy-bounds}
use lab.Strings.{memmove, strncpy}

memmove-copies_example : memmove 12 10 5 (λ a. a) 14 ≡ copy_bytes 12 10 5 (λ a. a) 14
memmove-copies_example = memmove-copies 12 10 5 (λ a. a) 14

-- "hi" at 50.
abbrev hi : Bytes
hi a = if a == 50 then 104 else if a == 51 then 105 else 0

hi-IsString : IsString hi 50 (104 ∷ 105 ∷ [])
hi-IsString = (refl, omega arith, (refl, omega arith, refl))

strncpy-bounds_example :
    ((a : ℕ) → (a < 80) ⊎ (84 ≤ a) → strncpy 80 50 4 hi a ≡ hi a)
    × ((i : ℕ) → i < 4 → strncpy 80 50 4 hi (80 + i) ≡ char_at (104 ∷ 105 ∷ []) i)
strncpy-bounds_example = strncpy-bounds 80 50 4 hi (104 ∷ 105 ∷ []) hi-IsString (inl (omega arith))
