-- ===== src/Strings/Compare.antt =====
-- `strcmp` and `strncmp` on strings.
use lab.Base.{
  ℕ, zero, suc, ◌+◌, ◌<◌, ◌≡◌, ◌≢◌, ◌⊎◌, inl, inr, refl, sym, ◌∙◌, ap, ◌==◌, ne→not_eq,
  if◌then◌else◌, if_true, if_false, Bool, true, false, ◌&&◌, not, List, [], ◌∷◌, length, ℤ, pos,
  negsuc, ok, arith, Bool-cases,
}
use lab.Space.{Bytes}
use lab.Strings.{strcmp, strncmp, difference}
use lab.Strings.Copy.{IsString}

-- Is it 0?
abbrev pub is_equal : ℤ → Bool
is_equal (pos n) = n == 0
is_equal (negsuc n) = false

abbrev pub same : List ℕ → List ℕ → Bool
same [] [] = true
same [] (d ∷ ds) = false
same (c ∷ cs) [] = false
same (c ∷ cs) (d ∷ ds) = if c == d then same cs ds else false

-- Does the first list start with the second?
abbrev pub starts_with : List ℕ → List ℕ → Bool
starts_with cs [] = true
starts_with [] (d ∷ ds) = false
starts_with (c ∷ cs) (d ∷ ds) = if c == d then starts_with cs ds else false

is_equal-difference : (a b : ℕ) → is_equal (difference a b) ≡ (a == b)
is_equal-difference a b = ground arith

-- The loops of both functions go on if the characters are the same and not the end.
goes_on : (a b : ℕ) → a ≢ 0 → a ≡ b → (not (a == 0) && (a == b)) ≡ true
goes_on a b ne e = ground arith

ends : (a b : ℕ) → a ≡ 0 → (not (a == 0) && (a == b)) ≡ false
ends a b e = ground arith

differs : (a b : ℕ) → a ≢ b → (not (a == 0) && (a == b)) ≡ false
differs a b ne = ground arith

-- The result of a comparison that stops at these characters.
stops : (a b : ℕ) → (a ≢ b) ⊎ (a ≡ 0) → (not (a == 0) && (a == b)) ≡ false
stops a b (inl ne) = differs a b ne
stops a b (inr e) = ends a b e

-- The test of two characters that are known.
same_test : (a b c d : ℕ) → a ≡ c → b ≡ d → (a == b) ≡ (c == d)
same_test a b c d e e' = cc

equal : (a b c d : ℕ) → a ≡ c → b ≡ d → (c == d) ≡ true → a ≡ b
equal a b c d e e' t = ground arith

unequal : (a b c d : ℕ) → a ≡ c → b ≡ d → (c == d) ≡ false → a ≢ b
unequal a b c d e e' t = ground arith

strcmp-stops :
    (fuel : ℕ) (mem : Bytes) (s1 s2 : ℕ)
    → (mem s1 ≢ mem s2) ⊎ (mem s1 ≡ 0)
    → (x : ℤ) × (strcmp (suc fuel) mem s1 s2 ≡ ok x) × (is_equal x ≡ (mem s1 == mem s2))
unfolding strcmp
strcmp-stops fuel mem s1 s2 why = (
  difference (mem s1) (mem s2),
  if_false (not (mem s1 == 0) && (mem s1 == mem s2)) _ _ (stops (mem s1) (mem s2) why),
  is_equal-difference (mem s1) (mem s2),
)

strcmp-next :
    (fuel : ℕ) (mem : Bytes) (s1 s2 : ℕ)
    → mem s1 ≢ 0
    → mem s1 ≡ mem s2
    → strcmp (suc fuel) mem s1 s2 ≡ strcmp fuel mem (s1 + 1) (s2 + 1)
unfolding strcmp
strcmp-next fuel mem s1 s2 ne e =
    if_true (not (mem s1 == 0) && (mem s1 == mem s2)) _ _ (goes_on (mem s1) (mem s2) ne e)

strncmp-stops :
    (mem : Bytes) (s1 s2 n : ℕ)
    → (mem s1 ≢ mem s2) ⊎ (mem s1 ≡ 0)
    → is_equal (strncmp mem s1 s2 (suc n)) ≡ (mem s1 == mem s2)
unfolding strncmp
strncmp-stops mem s1 s2 n why =
    ap is_equal
      (if_false (not (mem s1 == 0) && (mem s1 == mem s2)) _ _ (stops (mem s1) (mem s2) why))
    ∙ is_equal-difference (mem s1) (mem s2)

strncmp-next :
    (mem : Bytes) (s1 s2 n : ℕ)
    → mem s1 ≢ 0
    → mem s1 ≡ mem s2
    → strncmp mem s1 s2 (suc n) ≡ strncmp mem (s1 + 1) (s2 + 1) n
unfolding strncmp
strncmp-next mem s1 s2 n ne e =
    if_true (not (mem s1 == 0) && (mem s1 == mem s2)) _ _ (goes_on (mem s1) (mem s2) ne e)

-- With fuel for each character and the zero, strcmp returns 0 exactly for strings that are the same.
pub strcmp-same :
    (fuel : ℕ) (mem : Bytes) (s1 s2 : ℕ) (cs ds : List ℕ)
    → IsString mem s1 cs
    → IsString mem s2 ds
    → length cs < fuel
    → (x : ℤ) × (strcmp fuel mem s1 s2 ≡ ok x) × (is_equal x ≡ same cs ds)
strcmp-same zero mem s1 s2 cs ds h k lt = ground (arith, lt)
strcmp-same (suc fuel) mem s1 s2 [] [] h k lt =
    let (x, run, is) = strcmp-stops fuel mem s1 s2 (inr h) in
    (x, run, is ∙ same_test (mem s1) (mem s2) 0 0 h k)
strcmp-same (suc fuel) mem s1 s2 [] (d ∷ ds) h (e, ne, k) lt =
    let (x, run, is) = strcmp-stops fuel mem s1 s2 (inr h) in
    (x, run, is ∙ same_test (mem s1) (mem s2) 0 d h e ∙ ne→not_eq 0 d (λ z. ne (sym z)))
strcmp-same (suc fuel) mem s1 s2 (c ∷ cs) [] (e, ne, h) k lt =
    let f = ne→not_eq c 0 ne in
    let (x, run, is) = strcmp-stops fuel mem s1 s2 (inl (unequal (mem s1) (mem s2) c 0 e k f)) in
    (x, run, is ∙ same_test (mem s1) (mem s2) c 0 e k ∙ f)
strcmp-same (suc fuel) mem s1 s2 (c ∷ cs) (d ∷ ds) (e, ne, h) (e', ne', k) lt =
    elim (Bool-cases (c == d)) [
      | inl t ↦
          let (x, run, is) = strcmp-same fuel mem (s1 + 1) (s2 + 1) cs ds h k (omega (arith, lt)) in
          (
            x,
            strcmp-next fuel mem s1 s2 (λ z. ne (sym e ∙ z)) (equal (mem s1) (mem s2) c d e e' t)
                ∙ run,
            is ∙ sym (if_true (c == d) (same cs ds) false t),
          )
      | inr f ↦
          let (x, run, is) =
            strcmp-stops fuel mem s1 s2 (inl (unequal (mem s1) (mem s2) c d e e' f)) in
          (
            x,
            run,
            is
                ∙ same_test (mem s1) (mem s2) c d e e'
                ∙ f
                ∙ sym (if_false (c == d) (same cs ds) false f),
          )
    ]

-- With a count that is the length of the second string, strncmp returns 0 exactly if the first starts with it.
pub strncmp-starts_with :
    (mem : Bytes) (s1 s2 : ℕ) (cs ds : List ℕ)
    → IsString mem s1 cs
    → IsString mem s2 ds
    → is_equal (strncmp mem s1 s2 (length ds)) ≡ starts_with cs ds
unfolding strncmp
strncmp-starts_with mem s1 s2 cs [] h k = refl
strncmp-starts_with mem s1 s2 [] (d ∷ ds) h (e, ne, k) =
    strncmp-stops mem s1 s2 (length ds) (inr h)
    ∙ same_test (mem s1) (mem s2) 0 d h e
    ∙ ne→not_eq 0 d (λ z. ne (sym z))
strncmp-starts_with mem s1 s2 (c ∷ cs) (d ∷ ds) (e, ne, h) (e', ne', k) =
    elim (Bool-cases (c == d)) [
      | inl t ↦
          ap is_equal (
            strncmp-next mem s1 s2 (length ds) (λ z. ne (sym e ∙ z))
              (equal (mem s1) (mem s2) c d e e' t))
          ∙ strncmp-starts_with mem (s1 + 1) (s2 + 1) cs ds h k
          ∙ sym (if_true (c == d) (starts_with cs ds) false t)
      | inr f ↦
          strncmp-stops mem s1 s2 (length ds) (inl (unequal (mem s1) (mem s2) c d e e' f))
          ∙ same_test (mem s1) (mem s2) c d e e'
          ∙ f
          ∙ sym (if_false (c == d) (starts_with cs ds) false f)
    ]
