-- ===== src/Strings/Copy.antt =====
-- `strlen`, `strcpy` and `strncpy` on strings.
use lab.Base.{
  ℕ, zero, suc, ◌+◌, ◌≤◌, ◌<◌, ◌≡◌, ◌≢◌, ◌⊎◌, inl, inr, refl, ◌∙◌, ap, ◌==◌, ==_refl, ne→not_eq,
  if◌then◌else◌, if_true, if_false, update, List, [], ◌∷◌, length, ok, arith,
}
use lab.Space.{Bytes}
use lab.Strings.{count_bytes, strlen, strnlen, strncpy}

-- At `s` there are the characters `cs`, and then a zero.
abbrev pub IsString : Bytes → ℕ → List ℕ → Type 0
IsString mem s [] = mem s ≡ 0
IsString mem s (c ∷ cs) = (mem s ≡ c) × (c ≢ 0) × IsString mem (s + 1) cs

count_bytes-length :
    (fuel : ℕ) (mem : Bytes) (s cnt : ℕ) (cs : List ℕ)
    → IsString mem s cs
    → length cs < fuel
    → count_bytes fuel mem s cnt ≡ ok (cnt + length cs)
unfolding count_bytes
count_bytes-length zero mem s cnt cs h lt = ground (arith, lt)
count_bytes-length (suc fuel) mem s cnt [] h lt =
    let e : cnt ≡ cnt + 0 = omega arith in if_true (mem s == 0) _ _ (ap (λ x. x == 0) h) ∙ ap ok e
count_bytes-length (suc fuel) mem s cnt (c ∷ cs) h lt =
    let e : cnt + 1 + length cs ≡ cnt + suc (length cs) = omega arith in
    if_false (mem s == 0) _ _ (ap (λ x. x == 0) h.0 ∙ ne→not_eq c 0 h.1)
    ∙ count_bytes-length fuel mem (s + 1) (cnt + 1) cs h.2 (omega (arith, lt))
    ∙ ap ok e

strnlen-short :
    (mem : Bytes) (s len : ℕ) (cs : List ℕ)
    → IsString mem s cs
    → ((length cs ≤ len) × (strnlen mem s len ≡ length cs))
      ⊎ ((len < length cs) × (strnlen mem s len ≡ len))
unfolding strnlen
strnlen-short mem s zero [] h = inl (omega arith, refl)
strnlen-short mem s zero (c ∷ cs) h = inr (omega arith, refl)
strnlen-short mem s (suc len) [] h =
    inl (omega arith, if_true (mem s == 0) _ _ (ap (λ x. x == 0) h))
strnlen-short mem s (suc len) (c ∷ cs) h =
    let live =
      if_false (mem s == 0) 0 (strnlen mem (s + 1) len + 1)
        (ap (λ x. x == 0) h.0 ∙ ne→not_eq c 0 h.1) in
    elim (strnlen-short mem (s + 1) len cs h.2) [
      | inl (le, e) ↦ inl (omega (arith, le), omega (arith, live, e))
      | inr (lt, e) ↦ inr (omega (arith, lt), omega (arith, live, e))
    ]

-- With fuel for each character and the zero strlen returns the length of the string, and strnlen
-- returns the smaller of that and its bound.
pub strlen-length :
    (fuel len : ℕ) (mem : Bytes) (s : ℕ) (cs : List ℕ)
    → IsString mem s cs
    → length cs < fuel
    → (strlen fuel mem s ≡ ok (length cs))
      × (((length cs ≤ len) × (strnlen mem s len ≡ length cs))
          ⊎ ((len < length cs) × (strnlen mem s len ≡ len)))
unfolding strlen
strlen-length fuel len mem s cs h lt =
    (count_bytes-length fuel mem s 0 cs h lt ∙ ap ok (omega arith), strnlen-short mem s len cs h)

-- The character at `i`, or zero behind the end.
abbrev pub char_at : List ℕ → ℕ → ℕ
char_at [] i = 0
char_at (c ∷ cs) zero = c
char_at (c ∷ cs) (suc i) = char_at cs i

IsString-frame :
    (mem mem' : Bytes) (s : ℕ) (cs : List ℕ)
    → ((a : ℕ) → s ≤ a → a ≤ s + length cs → mem' a ≡ mem a)
    → IsString mem s cs
    → IsString mem' s cs
IsString-frame mem mem' s [] same h = same s (omega arith) (omega arith) ∙ h
IsString-frame mem mem' s (c ∷ cs) same (e, ne, rest) = (
  same s (omega arith) (omega arith) ∙ e,
  ne,
  IsString-frame mem mem' (s + 1) cs (λ a lo hi. same a (omega (arith, lo)) (omega (arith, hi)))
      rest,
)

strncpy-outside :
    (dst src len : ℕ) (mem : Bytes) (a : ℕ)
    → (a < dst) ⊎ (dst + len ≤ a)
    → strncpy dst src len mem a ≡ mem a
unfolding strncpy
strncpy-outside dst src zero mem a out = refl
strncpy-outside dst src (suc len) mem a out =
    strncpy-outside (dst + 1) (if mem src == 0 then src else src + 1) len (update mem dst (mem src))
      a (ground arith)
    ∙ if_false (a == dst) (mem src) (mem a) (ground arith)

-- The string is apart from the destination.
abbrev pub Apart : ℕ → ℕ → ℕ → List ℕ → Type 0
Apart dst src len cs = (src + length cs < dst) ⊎ (dst + len ≤ src)

strncpy-first : (dst src len : ℕ) (mem : Bytes) → strncpy dst src (suc len) mem (dst + 0) ≡ mem src
unfolding strncpy
strncpy-first dst src len mem =
    let e : dst + 0 ≡ dst = omega arith in
    let next = (if mem src == 0 then src else src + 1) in
    ap (strncpy (dst + 1) next len (update mem dst (mem src))) e
    ∙ strncpy-outside (dst + 1) next len (update mem dst (mem src)) dst (inl (omega arith))
    ∙ if_true (dst == dst) (mem src) (mem dst) (==_refl dst)

strncpy-later :
    (dst src next len i : ℕ) (mem : Bytes)
    → (if mem src == 0 then src else src + 1) ≡ next
    → strncpy dst src (suc len) mem (dst + suc i)
      ≡ strncpy (dst + 1) next len (update mem dst (mem src)) (dst + 1 + i)
unfolding strncpy
strncpy-later dst src next len i mem e =
    let e' : dst + suc i ≡ dst + 1 + i = omega arith in
    ap (λ x. strncpy (dst + 1) x len (update mem dst (mem src)) (dst + suc i)) e
    ∙ ap (strncpy (dst + 1) next len (update mem dst (mem src))) e'

strncpy-inside :
    (dst src len : ℕ) (mem : Bytes) (cs : List ℕ) (i : ℕ)
    → IsString mem src cs
    → Apart dst src len cs
    → i < len
    → strncpy dst src len mem (dst + i) ≡ char_at cs i
unfolding strncpy
strncpy-inside dst src zero mem cs i h apart lt = ground (arith, lt)
strncpy-inside dst src (suc len) mem [] zero h apart lt = strncpy-first dst src len mem ∙ h
strncpy-inside dst src (suc len) mem [] (suc i) h apart lt =
    let mem' = update mem dst (mem src) in
    strncpy-later dst src src len i mem (if_true (mem src == 0) _ _ (ap (λ x. x == 0) h))
    ∙ strncpy-inside (dst + 1) src len mem' [] i
        (if_false (src == dst) (mem src) (mem src) (ground arith) ∙ h) (ground arith)
        (omega (arith, lt))
strncpy-inside dst src (suc len) mem (c ∷ cs) zero h apart lt = strncpy-first dst src len mem ∙ h.0
strncpy-inside dst src (suc len) mem (c ∷ cs) (suc i) h apart lt =
    let mem' = update mem dst (mem src) in
    strncpy-later dst src (src + 1) len i mem
      (if_false (mem src == 0) _ _ (ap (λ x. x == 0) h.0 ∙ ne→not_eq c 0 h.1))
    ∙ strncpy-inside (dst + 1) (src + 1) len mem' cs i
        (IsString-frame mem mem' (src + 1) cs
          (λ a lo hi. if_false (a == dst) (mem src) (mem a) (ground arith)) h.2)
        (ground arith) (omega (arith, lt))

-- If the string at src is apart from the len bytes at dst, strncpy leaves in them the characters of the
-- string, cut off at len or filled up with zeros, and writes no other byte.
pub strncpy-bounds :
    (dst src len : ℕ) (mem : Bytes) (cs : List ℕ)
    → IsString mem src cs
    → Apart dst src len cs
    → ((a : ℕ) → (a < dst) ⊎ (dst + len ≤ a) → strncpy dst src len mem a ≡ mem a)
      × ((i : ℕ) → i < len → strncpy dst src len mem (dst + i) ≡ char_at cs i)
strncpy-bounds dst src len mem cs h apart =
    (strncpy-outside dst src len mem, λ i. strncpy-inside dst src len mem cs i h apart)
