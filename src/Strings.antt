-- ===== src/Strings.antt =====
-- libs/string.c. Memory is the byte at each address; a loop up to a terminating zero runs on fuel, the
-- others count down. Addresses do not wrap around.
pub mod Move
pub mod Copy
pub mod Compare
mod Examples
use lab.Base.{
  ℕ, zero, suc, ◌+◌, ◌-◌, ◌*◌, ◌%◌, ◌^◌, Bool, true, false, ◌&&◌, ◌||◌, not, ltb, leb, ◌==◌,
  if◌then◌else◌, update, Option, none, some, ℤ, pos, negsuc, Outcome, ok, out_of_fuel, ◌>>=◌,
}
use lab.Space.{Bytes}

-- The loop of `strlen`, with the count.
unfoldable pub count_bytes : ℕ → Bytes → ℕ → ℕ → Outcome ℕ
count_bytes zero mem s cnt = out_of_fuel
count_bytes (suc fuel) mem s cnt =
    let rest = count_bytes fuel mem (s + 1) (cnt + 1) in if mem s == 0 then ok cnt else rest

unfoldable pub strlen : ℕ → Bytes → ℕ → Outcome ℕ
unfolding count_bytes
strlen fuel mem s = count_bytes fuel mem s 0

unfoldable pub strnlen : Bytes → ℕ → ℕ → ℕ
strnlen mem s zero = 0
strnlen mem s (suc len) = let rest = strnlen mem (s + 1) len in if mem s == 0 then 0 else rest + 1

-- The memory that `strcpy` leaves; its result is `dst`.
unfoldable pub strcpy : ℕ → ℕ → ℕ → Bytes → Outcome Bytes
strcpy zero dst src mem = out_of_fuel
strcpy (suc fuel) dst src mem =
    let mem' = update mem dst (mem src) in
    let rest = strcpy fuel (dst + 1) (src + 1) mem' in if mem src == 0 then ok mem' else rest

unfoldable pub strncpy : ℕ → ℕ → ℕ → Bytes → Bytes
strncpy dst src zero mem = mem
strncpy dst src (suc len) mem =
    let mem' = update mem dst (mem src) in
    strncpy (dst + 1) (if mem src == 0 then src else src + 1) len mem'

-- The difference of two bytes.
abbrev pub difference : ℕ → ℕ → ℤ
difference a b = if ltb a b then negsuc (b - a - 1) else pos (a - b)

unfoldable pub strcmp : ℕ → Bytes → ℕ → ℕ → Outcome ℤ
strcmp zero mem s1 s2 = out_of_fuel
strcmp (suc fuel) mem s1 s2 =
    let rest = strcmp fuel mem (s1 + 1) (s2 + 1) in
    if not (mem s1 == 0) && (mem s1 == mem s2) then rest else ok (difference (mem s1) (mem s2))

unfoldable pub strncmp : Bytes → ℕ → ℕ → ℕ → ℤ
strncmp mem s1 s2 zero = pos 0
strncmp mem s1 s2 (suc n) =
    let rest = strncmp mem (s1 + 1) (s2 + 1) n in
    if not (mem s1 == 0) && (mem s1 == mem s2) then rest else difference (mem s1) (mem s2)

unfoldable pub strchr : ℕ → Bytes → ℕ → ℕ → Outcome (Option ℕ)
strchr zero mem s c = out_of_fuel
strchr (suc fuel) mem s c =
    let rest = strchr fuel mem (s + 1) c in
    if mem s == 0 then ok none else if mem s == c then ok (some s) else rest

unfoldable pub strfind : ℕ → Bytes → ℕ → ℕ → Outcome ℕ
strfind zero mem s c = out_of_fuel
strfind (suc fuel) mem s c =
    let rest = strfind fuel mem (s + 1) c in if (mem s == 0) || (mem s == c) then ok s else rest

-- Blanks and tabs at the start of `strtol`.
unfoldable pub skip_blanks : ℕ → Bytes → ℕ → Outcome ℕ
skip_blanks zero mem s = out_of_fuel
skip_blanks (suc fuel) mem s =
    let rest = skip_blanks fuel mem (s + 1) in if (mem s == 32) || (mem s == 9) then rest else ok s

-- The sign: whether it is a minus, and what follows.
abbrev pub read_sign : Bytes → ℕ → Bool × ℕ
read_sign mem s =
    if mem s == 43 then (false, s + 1) else if mem s == 45 then (true, s + 1) else (false, s)

-- The prefix: the base, and what follows.
abbrev pub read_base : Bytes → ℕ → ℕ → ℕ × ℕ
read_base mem s base =
    if ((base == 0) || (base == 16)) && ((mem s == 48) && (mem (s + 1) == 120))
    then (16, s + 2)
    else if (base == 0) && (mem s == 48)
    then (8, s + 1)
    else if base == 0
    then (10, s)
    else (base, s)

-- The value of a digit or letter.
abbrev pub digit_value : ℕ → Option ℕ
digit_value c =
    if leb 48 c && leb c 57
    then some (c - 48)
    else if leb 97 c && leb c 122
    then some (c - 97 + 10)
    else if leb 65 c && leb c 90
    then some (c - 65 + 10)
    else none

-- Is it a digit of the base?
abbrev pub in_base : Option ℕ → ℕ → Bool
in_base none base = false
in_base (some d) base = ltb d base

abbrev pub value_of : Option ℕ → ℕ
value_of none = 0
value_of (some d) = d

-- The range of `long`, as a bit pattern.
abbrev pub long_mod : ℕ
long_mod = 2 ^ 64

-- The digits: the value, which may overflow, and what follows.
unfoldable pub read_digits : ℕ → Bytes → ℕ → ℕ → ℕ → Outcome (ℕ × ℕ)
read_digits zero mem s base val = out_of_fuel
read_digits (suc fuel) mem s base val =
    let dig = digit_value (mem s) in
    let rest = read_digits fuel mem (s + 1) base ((val * base + value_of dig) % long_mod) in
    if in_base dig base then rest else ok (val, s)

-- The value and `*endptr`.
unfoldable pub strtol : ℕ → Bytes → ℕ → ℕ → Outcome (ℕ × ℕ)
unfolding skip_blanks read_digits
strtol fuel mem s base = do
  s₁ ← skip_blanks fuel mem s
  let (neg, s₂) = read_sign mem s₁
  let (base', s₃) = read_base mem s₂ base
  (val, endptr) ← read_digits fuel mem s₃ base' 0
  ok (if neg then (long_mod - val) % long_mod else val, endptr)

unfoldable pub memset : ℕ → ℕ → ℕ → Bytes → Bytes
memset s c zero mem = mem
memset s c (suc n) mem = memset (s + 1) c n (update mem s c)

-- The loops of `memmove`: from the end, and from the start.
unfoldable pub copy_down : ℕ → ℕ → ℕ → Bytes → Bytes
copy_down d s zero mem = mem
copy_down d s (suc n) mem = copy_down (d - 1) (s - 1) n (update mem (d - 1) (mem (s - 1)))

unfoldable pub memcpy : ℕ → ℕ → ℕ → Bytes → Bytes
memcpy d s zero mem = mem
memcpy d s (suc n) mem = memcpy (d + 1) (s + 1) n (update mem d (mem s))

unfoldable pub memmove : ℕ → ℕ → ℕ → Bytes → Bytes
unfolding copy_down memcpy
memmove dst src n mem =
    if ltb src dst && ltb dst (src + n)
    then copy_down (dst + n) (src + n) n mem
    else memcpy dst src n mem

unfoldable pub memcmp : Bytes → ℕ → ℕ → ℕ → ℤ
memcmp mem v1 v2 zero = pos 0
memcmp mem v1 v2 (suc n) =
    let rest = memcmp mem (v1 + 1) (v2 + 1) n in
    if mem v1 == mem v2 then rest else difference (mem v1) (mem v2)
