-- ===== src/Print/Format.antt =====
-- The conversions of vprintfmt, and its loop over the format. The fuel of `printnum` is that of a number
-- of 64 bits in base 2.
use lab.Base.{
  ℕ, zero, suc, ◌-◌, ◌%◌, ◌^◌, Bool, ◌&&◌, ◌||◌, ltb, ◌==◌, if◌then◌else◌, Option, none, some, List,
  [], ◌∷◌, ◌++◌, map, length, ℤ, pos, negsuc, Outcome, ok, panic, out_of_fuel, ◌>>=◌,
}
use lab.Print.Messages.{max_error, error_string}
use lab.Print.{
  Arg, word_arg, string_arg, Spec, no_flags, next_word, to_int, is_negative, abs, columns, getuint,
  getint, printnum, read_flag,
}

-- "error " and "(null)".
abbrev pub error_prefix : List ℕ
error_prefix = 101 ∷ 114 ∷ 114 ∷ 111 ∷ 114 ∷ 32 ∷ []

abbrev pub null_text : List ℕ
null_text = 40 ∷ 110 ∷ 117 ∷ 108 ∷ 108 ∷ 41 ∷ []

abbrev pub num_fuel : ℕ
num_fuel = 65

-- `number:`, with the number that is left to print.
abbrev pub print_number : Spec → ℕ → ℕ → Outcome (List ℕ)
print_number spec base num = printnum num_fuel num base (columns spec.width) spec.padc

-- Signed decimal.
abbrev pub print_signed : Spec → ℤ → Outcome (List ℕ)
print_signed spec num =
    if is_negative num
    then (do out ← print_number spec 10 (abs num); ok (45 ∷ out))
    else print_number spec 10 (abs num)

abbrev pub repeat : ℕ → ℕ → List ℕ
repeat zero c = []
repeat (suc n) c = c ∷ repeat n c

-- The first characters, no more than the precision.
abbrev pub cut : ℤ → List ℕ → List ℕ
cut (negsuc n) cs = cs
cut (pos zero) cs = []
cut (pos (suc n)) [] = []
cut (pos (suc n)) (c ∷ cs) = c ∷ cut (pos n) cs

abbrev pub visible : Bool → ℕ → ℕ
visible altflag ch = if altflag && (ltb ch 32 || ltb 126 ch) then 63 else ch

-- `case 's'`: padding on the left with padc, or on the right with blanks if padc is '-'.
unfoldable pub print_string : Spec → List ℕ → List ℕ
print_string spec p =
    let shown = cut spec.precision p in
    let gap = columns spec.width - length shown in
    let text = map (visible spec.altflag) shown in
    if spec.padc == 45 then text ++ repeat gap 32 else repeat gap spec.padc ++ text

abbrev pub string_of : Option (List ℕ) → List ℕ
string_of none = null_text
string_of (some p) = p

abbrev pub next_string : List Arg → Outcome (List ℕ × List Arg)
next_string [] = panic
next_string (word_arg n ∷ args) = panic
next_string (string_arg p ∷ args) = ok (string_of p, args)

-- `case 'e'`
unfoldable pub print_error : ℕ → Outcome (List ℕ)
print_error err =
    let number = (do out ← printnum num_fuel err 10 0 32; ok (error_prefix ++ out)) in
    if ltb max_error err then number else elim (error_string err) [ none ↦ number | some p ↦ ok p ]

-- What a conversion prints, and the arguments behind it; none at a character that is no conversion.
unfoldable pub convert : ℕ → Spec → List Arg → Outcome (Option (List ℕ × List Arg))
unfolding print_string print_error
convert ch spec args =
    if ch == 99
    then (do (n, args') ← next_word args; ok (some (n % 2 ^ 32 ∷ [], args')))
    else if ch == 101
    then (do
      (n, args') ← next_word args
      out ← print_error (abs (to_int n))
      ok (some (out, args')))
    else if ch == 115
    then (do (p, args') ← next_string args; ok (some (print_string spec p, args')))
    else if ch == 100
    then (do
      (n, args') ← next_word args
      out ← print_signed spec (getint spec.lflag n)
      ok (some (out, args')))
    else if ch == 117
    then (do
      (n, args') ← next_word args
      out ← print_number spec 10 (getuint spec.lflag n)
      ok (some (out, args')))
    else if ch == 111
    then (do
      (n, args') ← next_word args
      out ← print_number spec 8 (getuint spec.lflag n)
      ok (some (out, args')))
    else if ch == 112
    then (do
      (n, args') ← next_word args
      out ← print_number spec 16 n
      ok (some (48 ∷ 120 ∷ out, args')))
    else if ch == 120
    then (do
      (n, args') ← next_word args
      out ← print_number spec 16 (getuint spec.lflag n)
      ok (some (out, args')))
    else if ch == 37
    then ok (some (37 ∷ [], args))
    else ok none

-- An escape sequence: what it prints, and the format and the arguments behind it. `start` is the format
-- behind the '%', where an unknown sequence goes on.
unfoldable pub escape : ℕ → List ℕ → List ℕ → Spec → List Arg → Outcome (List ℕ × List ℕ × List Arg)
unfolding convert
escape zero start fmt spec args = out_of_fuel
escape (suc fuel) start [] spec args = ok (37 ∷ [], start, args)
escape (suc fuel) start (ch ∷ fmt) spec args = do
  flag ← read_flag ch fmt spec args
  elim flag [
    | some (fmt', spec', args') ↦ escape fuel start fmt' spec' args'
    | none ↦ (do
      done ← convert ch spec args
      elim done [ some (out, args') ↦ ok (out, fmt, args') | none ↦ ok (37 ∷ [], start, args) ])
  ]

unfoldable pub vprintfmt : ℕ → List ℕ → List Arg → Outcome (List ℕ)
unfolding escape
vprintfmt zero fmt args = out_of_fuel
vprintfmt (suc fuel) [] args = ok []
vprintfmt (suc fuel) (ch ∷ fmt) args =
    let plain = (do out ← vprintfmt fuel fmt args; ok (ch ∷ out)) in
    let escaped = (do
      (out, fmt', args') ← escape fuel fmt fmt no_flags args
      out' ← vprintfmt fuel fmt' args'
      ok (out ++ out')) in
    if ch == 37 then escaped else plain
