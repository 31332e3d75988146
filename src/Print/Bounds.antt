-- ===== src/Print/Bounds.antt =====
-- vsnprintf stays in its buffer.
use lab.Base.{
  ℕ, zero, suc, ◌+◌, ◌-◌, ◌%◌, ◌^◌, ◌≤◌, ◌<◌, ◌≡◌, ◌≢◌, ◌⊎◌, inl, inr, refl, ◌∙◌, ap, Bool-cases,
  ltb, lt→ltb, le→not_ltb, ◌==◌, ==_refl, ◌||◌, if◌then◌else◌, if_true, if_false, run_ok, update,
  List, [], ◌∷◌, length, pos, ok, arith,
}
use lab.Space.{Bytes}
use lab.Strings.Copy.{char_at}
use lab.Print.{Arg, to_int}
use lab.Print.Format.{vprintfmt}
use lab.Print.Buffer.{Sprintbuf, sprintputch, put_all, vsnprintf}

-- A character in a buffer with room, and in a full one.
abbrev stored : ℕ → Sprintbuf → Sprintbuf
stored ch b = record b {
  cnt = (b.cnt + 1) % 2 ^ 32;
  mem = update b.mem b.buf (ch % 256);
  buf = b.buf + 1;
}

abbrev dropped : Sprintbuf → Sprintbuf
dropped b = record b { cnt = (b.cnt + 1) % 2 ^ 32 }

put_all-stored :
    (ch : ℕ) (out : List ℕ) (b : Sprintbuf)
    → b.buf < b.ebuf
    → put_all (ch ∷ out) b ≡ put_all out (stored ch b)
unfolding put_all sprintputch
put_all-stored ch out b lt =
    ap (put_all out) (if_true (ltb b.buf b.ebuf) _ _ (lt→ltb b.buf b.ebuf lt))

put_all-dropped :
    (ch : ℕ) (out : List ℕ) (b : Sprintbuf)
    → b.ebuf ≤ b.buf
    → put_all (ch ∷ out) b ≡ put_all out (dropped b)
unfolding put_all sprintputch
put_all-dropped ch out b le =
    ap (put_all out) (if_false (ltb b.buf b.ebuf) _ _ (le→not_ltb b.buf b.ebuf le))

room_cases : (b : Sprintbuf) → (b.buf < b.ebuf) ⊎ (b.ebuf ≤ b.buf)
room_cases b = elim (Bool-cases (ltb b.buf b.ebuf)) [
  | inl e ↦ inl (ground arith)
  | inr e ↦ inr (ground arith)
]

count_next : (c n : ℕ) → ((c + 1) % 2 ^ 32 + n) % 2 ^ 32 ≡ (c + suc n) % 2 ^ 32
count_next c n = omega arith

put_all-cnt :
    (out : List ℕ) (b : Sprintbuf) → (put_all out b).cnt % 2 ^ 32 ≡ (b.cnt + length out) % 2 ^ 32
unfolding put_all
put_all-cnt [] b = omega arith
put_all-cnt (ch ∷ out) b = elim (room_cases b) [
  | inl lt ↦
      ap (λ (x : Sprintbuf). x.cnt % 2 ^ 32) (put_all-stored ch out b lt)
      ∙ put_all-cnt out (stored ch b)
      ∙ count_next b.cnt (length out)
  | inr le ↦
      ap (λ (x : Sprintbuf). x.cnt % 2 ^ 32) (put_all-dropped ch out b le)
      ∙ put_all-cnt out (dropped b)
      ∙ count_next b.cnt (length out)
]

put_all-full :
    (out : List ℕ) (b : Sprintbuf)
    → b.ebuf ≤ b.buf
    → ((put_all out b).buf ≡ b.buf) × ((put_all out b).mem ≡ b.mem)
unfolding put_all
put_all-full [] b le = (refl, refl)
put_all-full (ch ∷ out) b le =
    let rest = put_all-full out (dropped b) le in
    let e = put_all-dropped ch out b le in
    (ap (λ (x : Sprintbuf). x.buf) e ∙ rest.0, ap (λ (x : Sprintbuf). x.mem) e ∙ rest.1)

-- Where the next character would go behind `n` characters.
abbrev pub end_of : ℕ → ℕ → ℕ → ℕ
end_of buf ebuf n = if ltb (buf + n) ebuf then buf + n else ebuf

put_all-buf :
    (out : List ℕ) (b : Sprintbuf)
    → b.buf ≤ b.ebuf
    → (put_all out b).buf ≡ end_of b.buf b.ebuf (length out)
unfolding put_all
put_all-buf [] b le = ground (arith, le)
put_all-buf (ch ∷ out) b le = elim (room_cases b) [
  | inl lt ↦
      ap (λ (x : Sprintbuf). x.buf) (put_all-stored ch out b lt)
      ∙ put_all-buf out (stored ch b) (omega (arith, lt))
      ∙ ground arith
  | inr full ↦ (put_all-full (ch ∷ out) b full).0 ∙ ground (arith, le, full)
]

put_all-outside :
    (out : List ℕ) (b : Sprintbuf) (a : ℕ)
    → (a < b.buf) ⊎ (b.ebuf ≤ a)
    → (put_all out b).mem a ≡ b.mem a
unfolding put_all
put_all-outside [] b a h = refl
put_all-outside (ch ∷ out) b a h = elim (room_cases b) [
  | inl lt ↦
      ap (λ (x : Sprintbuf). x.mem a) (put_all-stored ch out b lt)
      ∙ put_all-outside out (stored ch b) a (ground (arith, h))
      ∙ if_false (a == b.buf) (ch % 256) (b.mem a) (ground (arith, h, lt))
  | inr full ↦ ap (λ f. f a) (put_all-full (ch ∷ out) b full).1
]

put_all-inside :
    (out : List ℕ) (b : Sprintbuf) (i : ℕ)
    → i < length out
    → b.buf + i < b.ebuf
    → (put_all out b).mem (b.buf + i) ≡ char_at out i % 256
unfolding put_all
put_all-inside [] b i lt room = ground (arith, lt)
put_all-inside (ch ∷ out) b zero lt room =
    let e : b.buf + 0 ≡ b.buf = omega arith in
    ap (λ (x : Sprintbuf). x.mem (b.buf + 0)) (put_all-stored ch out b (omega (arith, room)))
    ∙ ap (put_all out (stored ch b)).mem e
    ∙ put_all-outside out (stored ch b) b.buf (inl (omega arith))
    ∙ if_true (b.buf == b.buf) (ch % 256) (b.mem b.buf) (==_refl b.buf)
put_all-inside (ch ∷ out) b (suc i) lt room =
    let e : b.buf + suc i ≡ b.buf + 1 + i = omega arith in
    ap (λ (x : Sprintbuf). x.mem (b.buf + suc i)) (put_all-stored ch out b (omega (arith, room)))
    ∙ ap (put_all out (stored ch b)).mem e
    ∙ put_all-inside out (stored ch b) i (omega (arith, lt)) (omega (arith, room))

to_int-small : (n m : ℕ) → n % 2 ^ 32 ≡ m % 2 ^ 32 → m < 2 ^ 31 → to_int n ≡ pos m
to_int-small n m e small = ground arith

-- Let the buffer at str not be NULL and have size bytes, at least one, and let vprintfmt print fewer than
-- 2^31 characters. Then vsnprintf returns how many they are, changes no byte outside of the buffer, and
-- leaves in it the first of the characters, as many as fit before the last byte, and a zero behind
-- them.
pub vsnprintf-bounds :
    (fuel str size : ℕ) (fmt : List ℕ) (args : List Arg) (mem : Bytes) (out : List ℕ)
    → vprintfmt fuel fmt args ≡ ok out
    → str ≢ 0
    → 0 < size
    → length out < 2 ^ 31
    → (mem' : Bytes) × (vsnprintf fuel str size fmt args mem ≡ ok (pos (length out), mem'))
      × ((a : ℕ) → (a < str) ⊎ (str + size ≤ a) → mem' a ≡ mem a)
      × ((i : ℕ) → i < length out → i + 1 < size → mem' (str + i) ≡ char_at out i % 256)
      × (mem' (end_of str (str + size - 1) (length out)) ≡ 0)
unfolding vsnprintf
vsnprintf-bounds fuel str size fmt args mem out run ne some_room small =
    let b : Sprintbuf = record { buf = str; ebuf = str + size - 1; cnt = 0; mem = mem } in
    let b' = put_all out b in
    let last = put_all-buf out b (omega arith) in
    let end = end_of str (str + size - 1) (length out) in
    let counted : b'.cnt % 2 ^ 32 ≡ length out % 2 ^ 32 = omega (arith, put_all-cnt out b) in
    let low : str ≤ end = ground arith in
    let high : end ≤ str + size - 1 = ground arith in
    (
      update b'.mem b'.buf 0,
      if_false ((str == 0) || (size == 0)) _ _ (ground arith)
          ∙ run_ok (vprintfmt fuel fmt args) out _ run
          ∙ ap (λ r. ok (r, update b'.mem b'.buf 0))
              (to_int-small b'.cnt (length out) counted small),
      (λ a h.
          if_false (a == b'.buf) 0 (b'.mem a) (ground (arith, last, low, high, h))
          ∙ put_all-outside out b a (ground (arith, h))),
      (λ i lt room.
          if_false (str + i == b'.buf) 0 (b'.mem (str + i)) (ground (arith, last, lt, room))
          ∙ put_all-inside out b i lt (omega (arith, room))),
      if_true (end == b'.buf) 0 (b'.mem end) (ground (arith, last)),
    )
