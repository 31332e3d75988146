-- ===== src/Print.antt =====
-- libs/printfmt.c: printnum, and vprintfmt with its format as a list of characters and its arguments as
-- a list. What is printed is a list of characters. Where the C code reads an argument that is not
-- there, or of another kind, the model stops in `panic`.
pub mod Number
pub mod Messages
pub mod Format
pub mod Buffer
pub mod Bounds
mod Examples
use lab.Base.{
  ℕ, zero, suc, ◌+◌, ◌-◌, ◌*◌, ◌/◌, ◌%◌, ◌^◌, Bool, true, false, ◌&&◌, ◌||◌, not, ltb, leb, ◌==◌,
  if◌then◌else◌, Option, none, some, List, [], ◌∷◌, ◌++◌, map, length, ℤ, pos, negsuc, Outcome, ok,
  panic, out_of_fuel, ◌>>=◌,
}

-- "0123456789abcdef"[mod]
abbrev pub digit_char : ℕ → ℕ
digit_char d = if ltb d 10 then 48 + d else 87 + d

-- `while (-- width > 0)`
unfoldable pub padding : ℕ → ℕ → List ℕ
padding padc zero = []
padding padc (suc zero) = []
padding padc (suc (suc width)) = padc ∷ padding padc (suc width)

-- A width that is not positive is 0.
unfoldable pub printnum : ℕ → ℕ → ℕ → ℕ → ℕ → Outcome (List ℕ)
unfolding padding
printnum zero num base width padc = out_of_fuel
printnum (suc fuel) num base width padc =
    let digit = digit_char (num % base) in
    let more = (do cs ← printnum fuel (num / base) base (width - 1) padc; ok (cs ++ digit ∷ [])) in
    if leb base num then more else ok (padding padc width ++ digit ∷ [])

-- An argument: a word of 64 bits, or a string that may be NULL.
pub data Arg : Type 0 where
  word_arg : ℕ → Arg
  string_arg : Option (List ℕ) → Arg

-- The variables of an escape sequence.
pub record Spec : Type 0 where
  pub padc : ℕ
  pub width : ℤ
  pub precision : ℤ
  pub lflag : ℕ
  pub altflag : Bool

abbrev pub no_flags : Spec
no_flags = record { padc = 32; width = negsuc 0; precision = negsuc 0; lflag = 0; altflag = false }

-- The next argument, a word.
abbrev pub next_word : List Arg → Outcome (ℕ × List Arg)
next_word [] = panic
next_word (word_arg n ∷ args) = ok (n, args)
next_word (string_arg p ∷ args) = panic

-- An `int` from its bit pattern; numbers as a signed long long.
abbrev pub to_int : ℕ → ℤ
to_int n = if ltb (n % 2 ^ 32) (2 ^ 31) then pos (n % 2 ^ 32) else negsuc (2 ^ 32 - 1 - n % 2 ^ 32)

abbrev pub to_long : ℕ → ℤ
to_long n = if ltb n (2 ^ 63) then pos n else negsuc (2 ^ 64 - 1 - n)

abbrev pub is_negative : ℤ → Bool
is_negative (pos n) = false
is_negative (negsuc n) = true

abbrev pub abs : ℤ → ℕ
abs (pos n) = n
abs (negsuc n) = n + 1

-- What counts of a width: nothing if it is negative.
abbrev pub columns : ℤ → ℕ
columns (pos n) = n
columns (negsuc n) = 0

abbrev pub getuint : ℕ → ℕ → ℕ
getuint lflag n = if ltb 0 lflag then n else n % 2 ^ 32

abbrev pub getint : ℕ → ℕ → ℤ
getint lflag n = if ltb 0 lflag then to_long n else to_int n

-- `process_precision`
abbrev pub process_precision : ℤ → Spec → Spec
process_precision precision spec =
    if is_negative spec.width
    then record spec { width = precision; precision = negsuc 0 }
    else record spec { precision = precision }

-- The digits of a width or precision.
unfoldable pub read_width : ℕ → List ℕ → ℕ × List ℕ
read_width precision [] = (precision, [])
read_width precision (ch ∷ fmt) =
    let rest = read_width (precision * 10 + ch - 48) fmt in
    if leb 48 ch && leb ch 57 then rest else (precision, ch ∷ fmt)

-- The state behind a flag, a width or a precision, or none at another character.
unfoldable pub read_flag :
    ℕ → List ℕ → Spec → List Arg → Outcome (Option (List ℕ × Spec × List Arg))
unfolding read_width
read_flag ch fmt spec args =
    if ch == 45
    then ok (some (fmt, record spec { padc = 45 }, args))
    else if ch == 48
    then ok (some (fmt, record spec { padc = 48 }, args))
    else if leb 49 ch && leb ch 57
    then (let (precision, fmt') = read_width (ch - 48) fmt in
        ok (some (fmt', process_precision (pos precision) spec, args)))
    else if ch == 42
    then (do (n, args') ← next_word args; ok (some (fmt, process_precision (to_int n) spec, args')))
    else if ch == 46
    then ok
        (some (fmt, (if is_negative spec.width then record spec { width = pos 0 } else spec), args))
    else if ch == 35
    then ok (some (fmt, record spec { altflag = true }, args))
    else if ch == 108
    then ok (some (fmt, record spec { lflag = spec.lflag + 1 }, args))
    else ok none
