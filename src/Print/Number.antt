-- ===== src/Print/Number.antt =====
-- `strtol` reads what `printnum` prints.
use lab.Base.{
  ℕ, zero, suc, ◌+◌, ◌-◌, ◌*◌, ◌/◌, ◌%◌, ◌^◌, ◌≤◌, ◌<◌, ◌≡◌, refl, ◌∙◌, ap, inl, inr, Bool, true,
  false, Bool-cases, ◌||◌, ltb, leb, ◌==◌, if◌then◌else◌, if_true, if_false, run_ok, List, [], ◌∷◌,
  ◌++◌, All, All-append, length, some, ok, ◌>>=◌, arith,
}
use lab.Space.{Bytes}
use lab.Strings.Copy.{IsString, char_at}
use lab.Strings.{
  digit_value, in_base, value_of, long_mod, skip_blanks, read_sign, read_base, read_digits, strtol,
}
use lab.Print.{digit_char, padding, printnum}

-- Decimal digits.
abbrev IsDigits : List ℕ → Type 0
IsDigits cs = All (λ c. (48 ≤ c) × (c ≤ 57)) cs

-- The number that digits stand for, behind `val`, as a `long`.
value : ℕ → List ℕ → ℕ
value val [] = val
value val (c ∷ cs) = value ((val * 10 + (c - 48)) % long_mod) cs

value-append :
    (val : ℕ) (cs : List ℕ) (c : ℕ)
    → value val (cs ++ c ∷ []) ≡ (value val cs * 10 + (c - 48)) % long_mod
unfolding value
value-append val [] c = refl
value-append val (d ∷ cs) c = value-append ((val * 10 + (d - 48)) % long_mod) cs c

digit_value-digit : (c : ℕ) → 48 ≤ c → c ≤ 57 → digit_value c ≡ some (c - 48)
digit_value-digit c lo hi = ground arith

read_digits-value :
    (fuel : ℕ) (mem : Bytes) (s val : ℕ) (cs : List ℕ)
    → IsString mem s cs
    → IsDigits cs
    → length cs < fuel
    → read_digits fuel mem s 10 val ≡ ok (value val cs, s + length cs)
unfolding read_digits value
read_digits-value zero mem s val cs h d lt = ground (arith, lt)
read_digits-value (suc fuel) mem s val [] h d lt =
    let e : s ≡ s + 0 = omega arith in
    if_false (in_base (digit_value (mem s)) 10) _ _ (ap (λ c. in_base (digit_value c) 10) h)
    ∙ ap (λ x. ok (val, x)) e
read_digits-value (suc fuel) mem s val (c ∷ cs) h d lt =
    let dig = ap digit_value h.0 ∙ digit_value-digit c d.0.0 d.0.1 in
    let small : ltb (c - 48) 10 ≡ true = ground (arith, d.0.1) in
    let e : s + 1 + length cs ≡ s + suc (length cs) = omega arith in
    let val' = (val * 10 + (c - 48)) % long_mod in
    if_true (in_base (digit_value (mem s)) 10) _ _ (ap (λ o. in_base o 10) dig ∙ small)
    ∙ ap (λ o. read_digits fuel mem (s + 1) 10 ((val * 10 + value_of o) % long_mod)) dig
    ∙ read_digits-value fuel mem (s + 1) val' cs h.2 d.1 (omega (arith, lt))
    ∙ ap (λ x. ok (value val' cs, x)) e

-- A string of digits is read as its value.
strtol-value :
    (fuel : ℕ) (mem : Bytes) (s c : ℕ) (cs : List ℕ)
    → IsString mem s (c ∷ cs)
    → IsDigits (c ∷ cs)
    → length (c ∷ cs) < fuel
    → strtol fuel mem s 10 ≡ ok (value 0 (c ∷ cs), s + length (c ∷ cs))
unfolding strtol skip_blanks
strtol-value zero mem s c cs h d lt = ground (arith, lt)
strtol-value (suc fuel) mem s c cs h d lt =
    let blank : ((mem s == 32) || (mem s == 9)) ≡ false = ground (arith, h.0, d.0.0) in
    let plus : (mem s == 43) ≡ false = ground (arith, h.0, d.0.0) in
    let minus : (mem s == 45) ≡ false = ground (arith, h.0, d.0.0) in
    let sign : read_sign mem s ≡ (false, s) =
      if_false (mem s == 43) _ _ plus ∙ if_false (mem s == 45) _ _ minus in
    run_ok (skip_blanks (suc fuel) mem s) s _ (if_false ((mem s == 32) || (mem s == 9)) _ _ blank)
    ∙ ap
        (λ (r : Bool × ℕ).
          read_digits (suc fuel) mem (read_base mem r.1 10).1 (read_base mem r.1 10).0 0 >>= λ x.
          ok (if r.0 then (long_mod - x.0) % long_mod else x.0, x.1))
        sign
    ∙ run_ok (read_digits (suc fuel) mem s 10 0) (value 0 (c ∷ cs), s + length (c ∷ cs)) _
        (read_digits-value (suc fuel) mem s 0 (c ∷ cs) h d lt)

-- The number is printed as digits that stand for it.
printnum-value :
    (fuel num padc : ℕ)
    → num < fuel
    → num < long_mod
    → (c : ℕ) × (cs : List ℕ) × (printnum fuel num 10 0 padc ≡ ok (c ∷ cs))
      × IsDigits (c ∷ cs)
      × (value 0 (c ∷ cs) ≡ num)
unfolding printnum padding value
printnum-value zero num padc lt small = ground (arith, lt)
printnum-value (suc fuel) num padc lt small = elim (Bool-cases (leb 10 num)) [
  | inr low ↦ (
    digit_char (num % 10),
    [],
    if_false (leb 10 num) _ _ low,
    ((lower num, upper num), tt),
    (ground arith),
  )
  | inl high ↦
      let (c, cs, run, digits, val) =
        printnum-value fuel (num / 10) padc (ground arith) (ground arith) in
      let digit = digit_char (num % 10) in
      (
        c,
        cs ++ digit ∷ [],
        if_true (leb 10 num) _ _ high ∙ run_ok (printnum fuel (num / 10) 10 0 padc) (c ∷ cs) _ run,
        All-append (λ x. (48 ≤ x) × (x ≤ 57)) (c ∷ cs) (digit ∷ []) digits
            ((lower num, upper num), tt),
        value-append 0 (c ∷ cs) digit
            ∙ ap (λ x. (x * 10 + (digit - 48)) % long_mod) val
            ∙ last num small,
      )
]
  where
    lower : (n : ℕ) → 48 ≤ digit_char (n % 10)
    lower n = ground arith

    upper : (n : ℕ) → digit_char (n % 10) ≤ 57
    upper n = ground arith

    last : (n : ℕ) → n < long_mod → (n / 10 * 10 + (digit_char (n % 10) - 48)) % long_mod ≡ n
    last n lt' = ground arith

-- The string `cs` at `s`.
abbrev pub place : ℕ → List ℕ → Bytes
place s cs = λ a. char_at cs (a - s)

place-IsString :
    (mem : Bytes) (s : ℕ) (cs : List ℕ)
    → ((i : ℕ) → mem (s + i) ≡ char_at cs i)
    → IsDigits cs
    → IsString mem s cs
place-IsString mem s [] same d = ap mem (omega arith) ∙ same 0
place-IsString mem s (c ∷ cs) same d =
    let e : s ≡ s + 0 = omega arith in
    (
      ap mem e ∙ same 0,
      omega (arith, d.0.0),
      place-IsString mem (s + 1) cs
          (λ i. let f : s + 1 + i ≡ s + suc i = omega arith in ap mem f ∙ same (suc i)) d.1,
    )

-- For a number below 2^63, printnum in base 10, without a width, prints with fuel for more steps than
-- the number has a string of which strtol in base 10, with fuel for its characters and the zero, makes
-- the number again, with *endptr at the end of the string.
pub printnum-strtol :
    (fuel num padc s : ℕ)
    → num < fuel
    → num < 2 ^ 63
    → (cs : List ℕ) × (printnum fuel num 10 0 padc ≡ ok cs)
      × (strtol (length cs + 1) (place s cs) s 10 ≡ ok (num, s + length cs))
printnum-strtol fuel num padc s lt small =
    let (c, cs, run, digits, val) = printnum-value fuel num padc lt (omega (arith, small)) in
    (
      c ∷ cs,
      run,
      strtol-value (length (c ∷ cs) + 1) (place s (c ∷ cs)) s c cs
            (place-IsString (place s (c ∷ cs)) s (c ∷ cs)
              (λ i. let e : s + i - s ≡ i = omega arith in ap (char_at (c ∷ cs)) e) digits)
            digits (omega arith)
          ∙ ap (λ x. ok (x, s + length (c ∷ cs))) val,
    )
