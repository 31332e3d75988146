-- ===== src/Dtb/Found.antt =====
-- The loop over the tokens finds what the tree says.
use lab.Base.{
  ℕ, zero, suc, ◌+◌, ◌%◌, ◌^◌, ◌≤◌, ◌<◌, ◌≡◌, ◌≢◌, refl, sym, ◌∙◌, ap, Bool, true, false, ◌&&◌, leb,
  ◌==◌, if◌then◌else◌, Option, none, some, List, [], ◌∷◌, length, run_ok, ok, Outcome, arith, subst,
  ne→not_eq, ◌⊎◌, Bool-cases, inl, inr, if_true, if_false, leb→le,
}
use lab.Space.{Bytes}
use lab.Load.{read_le}
use lab.Strings.{strlen, strcmp, strncmp}
use lab.Strings.Copy.{char_at, strlen-length}
use lab.Strings.Compare.{is_equal, same, starts_with, strcmp-same, strncmp-starts_with}
use lab.Dtb.Words.{number, bytes_at, word_at-number, fdt64_to_cpu-number}
use lab.Dtb.Tree.{
  Item, begins, ends, prop, nop, memory_name, reg_name, big_endian, HasLiterals, IsName, IsProperty,
  Holds, base_and_size, find_memory,
}
use lab.Dtb.{
  Literals, Round, goes_on, found, not_found, align_down, next_word, word_at, fdt64_to_cpu,
  begin_node, is_memory_reg, property, property_at, switch_token, scan, extract_memory_info,
  PhysicalMemory, save, dtb_init, physical_memory_offset, fdt_magic,
}

next : (p : ℕ) → p + 4 < 2 ^ 64 → next_word p ≡ p + 4
next p lt = omega (arith, lt)

-- Names are found whole.
begin_node-goes_on :
    (chars : ℕ) (lit : Literals) (mem : Bytes) (a : ℕ) (b : Bool) (name : List ℕ)
    → HasLiterals lit mem
    → IsName chars mem a name
    → a + length name + 4 < 2 ^ 64
    → begin_node chars lit mem a b
      ≡ ok (
          goes_on
            (align_down (a + length name + 4))
            (if starts_with name memory_name then true else b))
unfolding begin_node
begin_node-goes_on chars lit mem a b name has is lt =
    run_ok (strlen chars mem a) (length name) _
      (strlen-length chars 0 mem a name is.text is.short).0
    ∙ ap
        (λ n.
          ok (goes_on (align_down n) (if is_equal (strncmp mem a lit.memory 6) then true else b)))
        (omega (arith, lt))
    ∙ ap (λ t. ok (goes_on (align_down (a + length name + 4)) (if t then true else b)))
        (strncmp-starts_with mem a lit.memory name memory_name is.text has.memory)

is_memory_reg-same :
    (chars : ℕ) (lit : Literals) (mem : Bytes) (a len : ℕ) (b : Bool) (name : List ℕ)
    → HasLiterals lit mem
    → IsName chars mem a name
    → is_memory_reg chars lit mem a len b ≡ ok (b && (same name reg_name && leb 16 len))
unfolding is_memory_reg
is_memory_reg-same chars lit mem a len false name has is = refl
is_memory_reg-same chars lit mem a len true name has is =
    let (x, run, e) = strcmp-same chars mem a lit.reg name reg_name is.text has.reg is.short in
    run_ok (strcmp chars mem a lit.reg) x _ run ∙ ap (λ t. ok (t && leb 16 len)) e

-- The numbers in memory are those of the value that it holds.
bytes_at-value :
    (n a m : ℕ) (mem : Bytes) (value : List ℕ)
    → ((i : ℕ) → i < length value → mem (a + i) ≡ char_at value i)
    → m + n ≤ length value
    → bytes_at n (a + m) mem ≡ bytes_at n m (char_at value)
bytes_at-value zero a m mem value h le = refl
bytes_at-value (suc n) a m mem value h le =
    let step : a + m + 1 ≡ a + (m + 1) = omega arith in
    ap (λ x. x ∷ bytes_at n (a + m + 1) mem) (h m (omega (arith, le)))
    ∙ ap (λ p. char_at value m ∷ bytes_at n p mem) step
    ∙ ap (λ xs. char_at value m ∷ xs) (bytes_at-value n a (m + 1) mem value h (omega (arith, le)))

big_endian-value :
    (a m : ℕ) (mem : Bytes) (value : List ℕ)
    → ((i : ℕ) → mem i < 256)
    → ((i : ℕ) → i < length value → mem (a + i) ≡ char_at value i)
    → m + 8 ≤ length value
    → fdt64_to_cpu (read_le 8 (a + m) mem) ≡ big_endian 8 m (char_at value)
big_endian-value a m mem value small h le =
    fdt64_to_cpu-number mem (a + m) small ∙ ap (number 0) (bytes_at-value 8 a m mem value h le)

-- What follows a property that is read.
after_property : ℕ → Bool → List ℕ → List ℕ → Round
after_property p b name value =
    if b && (same name reg_name && leb 16 (length value))
    then found (base_and_size value).0 (base_and_size value).1
    else goes_on (align_down (p + 15 + length value)) b

-- The test holds only for values of 16 bytes and more.
long : (b same : Bool) (n : ℕ) → (b && (same && leb 16 n)) ≡ true → 16 ≤ n
long false s n e = ground (arith, e)
long true false n e = ground (arith, e)
long true true n e = leb→le 16 n e

found_value :
    (mem : Bytes) (at : ℕ) (value : List ℕ)
    → ((i : ℕ) → mem i < 256)
    → ((i : ℕ) → i < length value → mem (at + i) ≡ char_at value i)
    → 16 ≤ length value
    → found (fdt64_to_cpu (read_le 8 at mem)) (fdt64_to_cpu (read_le 8 (at + 8) mem))
      ≡ found (base_and_size value).0 (base_and_size value).1
found_value mem at value small h le =
    let start : at ≡ at + 0 = omega arith in
    let base =
      ap (λ a. fdt64_to_cpu (read_le 8 a mem)) start
      ∙ big_endian-value at 0 mem value small h (omega (arith, le)) in
    let size = big_endian-value at 8 mem value small h (omega (arith, le)) in
    ap (λ n. found n (fdt64_to_cpu (read_le 8 (at + 8) mem))) base
    ∙ ap (found (big_endian 8 0 (char_at value))) size

property_at-after :
    (chars sb p offset : ℕ) (lit : Literals) (mem : Bytes) (b : Bool) (name value : List ℕ)
    → HasLiterals lit mem
    → IsProperty chars sb mem p offset name value
    → p + 15 + length value < 2 ^ 64
    → property_at chars lit sb mem b (length value) offset (p + 12)
      ≡ ok (after_property p b name value)
unfolding property_at after_property
property_at-after chars sb p offset lit mem b name value has is lt =
    let it = b && (same name reg_name && leb 16 (length value)) in
    let at = p + 12 in
    let inside : sb + offset ≡ (sb + offset) % 2 ^ 64 = omega (arith, is.inside) in
    let named : IsName chars mem ((sb + offset) % 2 ^ 64) name =
      subst (λ a. IsName chars mem a name) inside is.name_text in
    let reads = found (fdt64_to_cpu (read_le 8 at mem)) (fdt64_to_cpu (read_le 8 (at + 8) mem)) in
    let on = goes_on (align_down ((at + length value + 3) % 2 ^ 64)) b in
    run_ok (is_memory_reg chars lit mem ((sb + offset) % 2 ^ 64) (length value) b) it _
      (is_memory_reg-same chars lit mem ((sb + offset) % 2 ^ 64) (length value) b name has named)
    ∙ ap ok (elim (Bool-cases it) [
      | inl t ↦
          if_true it reads on t
          ∙ found_value mem at value has.small is.bytes
              (long b (same name reg_name) (length value) t)
          ∙ sym (if_true it (found (base_and_size value).0 (base_and_size value).1) _ t)
      | inr f ↦
          if_false it reads on f
          ∙ ap (λ n. goes_on (align_down n) b) (omega (arith, lt))
          ∙ sym (if_false it _ (goes_on (align_down (p + 15 + length value)) b) f)
    ])

-- What the loop does after a round.
follow : ℕ → ℕ → Literals → ℕ → Bytes → Round → Outcome (Option (ℕ × ℕ))
follow fuel chars lit sb mem r = elim r [
  | goes_on p b ↦ scan fuel chars lit sb mem p b
  | found base size ↦ ok (some (base, size))
  | not_found ↦ ok none
]

scan-round :
    (fuel chars sb p token : ℕ) (lit : Literals) (mem : Bytes) (b : Bool) (r : Round)
    → ((a : ℕ) → mem a < 256)
    → big_endian 4 p mem ≡ token
    → p + 4 < 2 ^ 64
    → switch_token chars lit sb mem (p + 4) b token ≡ ok r
    → scan (suc fuel) chars lit sb mem p b ≡ follow fuel chars lit sb mem r
unfolding scan follow
scan-round fuel chars sb p token lit mem b r small e lt run =
    run_ok (switch_token chars lit sb mem (next_word p) b (word_at mem p)) r
      (follow fuel chars lit sb mem)
      (ap (switch_token chars lit sb mem (next_word p) b) (word_at-number mem p small ∙ e)
        ∙ ap (λ q. switch_token chars lit sb mem q b token) (next p lt)
        ∙ run)

property-after :
    (chars sb p offset : ℕ) (lit : Literals) (mem : Bytes) (b : Bool) (name value : List ℕ)
    → HasLiterals lit mem
    → IsProperty chars sb mem p offset name value
    → p + 15 + length value < 2 ^ 64
    → property chars lit sb mem (p + 4) b ≡ ok (after_property p b name value)
unfolding property
property-after chars sb p offset lit mem b name value has is lt =
    let second : next_word (p + 4) ≡ p + 8 = omega (arith, lt) in
    let third : next_word (p + 8) ≡ p + 12 = omega (arith, lt) in
    let len = word_at-number mem (p + 4) has.small ∙ is.len in
    let nameoff = word_at-number mem (p + 8) has.small ∙ is.nameoff in
    ap
      (λ n.
        property_at chars lit sb mem b n (word_at mem (next_word (p + 4)))
          (next_word (next_word (p + 4))))
      len
    ∙ ap (λ q. property_at chars lit sb mem b (length value) (word_at mem q) (next_word q)) second
    ∙ ap (λ n. property_at chars lit sb mem b (length value) n (next_word (p + 8))) nameoff
    ∙ ap (property_at chars lit sb mem b (length value) offset) third
    ∙ property_at-after chars sb p offset lit mem b name value has is lt

scan-find_memory :
    (fuel chars sb p : ℕ) (lit : Literals) (mem : Bytes) (b : Bool) (items : List Item)
    → HasLiterals lit mem
    → Holds chars sb mem p items
    → length items < fuel
    → scan fuel chars lit sb mem p b ≡ ok (find_memory b items)
unfolding switch_token follow after_property
scan-find_memory zero chars sb p lit mem b items has h lt = ground (arith, lt)
scan-find_memory (suc fuel) chars sb p lit mem b [] has (e, in64) lt =
    scan-round fuel chars sb p 9 lit mem b not_found has.small e in64 refl
scan-find_memory (suc fuel) chars sb p lit mem b (begins name ∷ items) has (e, is, in64, h) lt =
    let b' = if starts_with name memory_name then true else b in
    let at : p + 4 + length name + 4 ≡ p + 8 + length name = omega arith in
    let run =
      begin_node-goes_on chars lit mem (p + 4) b name has is (omega (arith, in64))
      ∙ ap (λ n. ok (goes_on (align_down n) b')) at in
    scan-round fuel chars sb p 1 lit mem b (goes_on (align_down (p + 8 + length name)) b') has.small
      e (omega (arith, in64)) run
    ∙ scan-find_memory fuel chars sb (align_down (p + 8 + length name)) lit mem b' items has h
        (omega (arith, lt))
scan-find_memory (suc fuel) chars sb p lit mem b (ends ∷ items) has (e, in64, h) lt =
    scan-round fuel chars sb p 2 lit mem b (goes_on (p + 4) false) has.small e in64 refl
    ∙ scan-find_memory fuel chars sb (p + 4) lit mem false items has h (omega (arith, lt))
scan-find_memory (suc fuel) chars sb p lit mem b (nop ∷ items) has (e, in64, h) lt =
    scan-round fuel chars sb p 4 lit mem b (goes_on (p + 4) b) has.small e in64 refl
    ∙ scan-find_memory fuel chars sb (p + 4) lit mem b items has h (omega (arith, lt))
scan-find_memory (suc fuel) chars sb p lit mem b (prop offset name value ∷ items) has (is, in64, h)
      lt =
    let it = b && (same name reg_name && leb 16 (length value)) in
    let on = align_down (p + 15 + length value) in
    let rest = scan-find_memory fuel chars sb on lit mem b items has h (omega (arith, lt)) in
    scan-round fuel chars sb p 3 lit mem b (after_property p b name value) has.small is.token
      (omega (arith, in64)) (property-after chars sb p offset lit mem b name value has is in64)
    ∙ elim (Bool-cases it) [
      | inl t ↦
          ap (follow fuel chars lit sb mem) (if_true it _ (goes_on on b) t)
          ∙ ap ok (sym (if_true it (some (base_and_size value)) (find_memory b items) t))
      | inr f ↦
          ap (follow fuel chars lit sb mem)
            (if_false it (found (base_and_size value).0 (base_and_size value).1) _ f)
          ∙ rest
          ∙ ap ok (sym (if_false it (some (base_and_size value)) (find_memory b items) f))
    ]

abbrev pub tree_at : ℕ → ℕ
tree_at boot_dtb = (boot_dtb + physical_memory_offset) % 2 ^ 64

-- What the firmware hands over: a device tree with these tokens, or none that dtb_init takes.
pub record HasTree (fuel chars boot_dtb : ℕ) (mem : Bytes) (items : List Item) : Type 0 where
  pub not_null : boot_dtb ≢ 0
  pub magic : big_endian 4 (tree_at boot_dtb) mem ≡ fdt_magic
  pub tokens :
      Holds chars
        ((tree_at boot_dtb + big_endian 4 (tree_at boot_dtb + 12) mem) % 2 ^ 64)
        mem
        ((tree_at boot_dtb + big_endian 4 (tree_at boot_dtb + 8) mem) % 2 ^ 64)
        items
  pub enough : length items < fuel

abbrev pub Handed : ℕ → ℕ → ℕ → Bytes → Option (List Item) → Type 0
Handed fuel chars boot_dtb mem none =
    (boot_dtb ≡ 0) ⊎ (big_endian 4 (tree_at boot_dtb) mem ≢ fdt_magic)
Handed fuel chars boot_dtb mem (some items) = HasTree fuel chars boot_dtb mem items

abbrev pub told : Option (List Item) → Option (ℕ × ℕ)
told none = none
told (some items) = find_memory false items

-- If the firmware hands over a device tree, with names of fewer characters than `chars` and with fuel for
-- more rounds than tokens, dtb_init saves the base and the size that find_memory takes from the tokens,
-- or keeps what was saved if they tell none. Without a tree, or with another magic number, it keeps
-- what was saved too.
pub dtb_init-find_memory :
    (fuel chars boot_dtb : ℕ) (lit : Literals) (mem : Bytes) (old : PhysicalMemory)
    (tree : Option (List Item))
    → HasLiterals lit mem
    → Handed fuel chars boot_dtb mem tree
    → dtb_init fuel chars lit mem boot_dtb old ≡ ok (save old (told tree))
unfolding dtb_init extract_memory_info
dtb_init-find_memory fuel chars boot_dtb lit mem old none has (inl e) =
    if_true (boot_dtb == 0) (ok old) _ (subst (λ n. (n == 0) ≡ true) (sym e) refl)
dtb_init-find_memory fuel chars boot_dtb lit mem old none has (inr ne) =
    let at = tree_at boot_dtb in
    elim (Bool-cases (boot_dtb == 0)) [
      | inl t ↦ if_true (boot_dtb == 0) (ok old) _ t
      | inr f ↦
          if_false (boot_dtb == 0) (ok old) _ f
          ∙ if_false (word_at mem at == fdt_magic) _ (ok old) (
              ne→not_eq (word_at mem at) fdt_magic
                (λ e. ne (sym (word_at-number mem at has.small) ∙ e)))
    ]
dtb_init-find_memory fuel chars boot_dtb lit mem old (some items) has h =
    let at = tree_at boot_dtb in
    let struct_at = word_at-number mem (at + 8) has.small in
    let strings_at = word_at-number mem (at + 12) has.small in
    let sb = (at + big_endian 4 (at + 12) mem) % 2 ^ 64 in
    let p = (at + big_endian 4 (at + 8) mem) % 2 ^ 64 in
    let found = scan-find_memory fuel chars sb p lit mem false items has h.tokens h.enough in
    let run : extract_memory_info fuel chars lit mem at ≡ ok (find_memory false items) =
      ap
        (λ n.
          scan fuel chars lit ((at + n) % 2 ^ 64) mem ((at + word_at mem (at + 8)) % 2 ^ 64) false)
        strings_at
      ∙ ap (λ n. scan fuel chars lit sb mem ((at + n) % 2 ^ 64) false) struct_at
      ∙ found in
    if_false (boot_dtb == 0) (ok old) _ (ne→not_eq boot_dtb 0 h.not_null)
    ∙ if_true (word_at mem at == fdt_magic) _ (ok old) (
        subst (λ n. (n == fdt_magic) ≡ true) (sym (word_at-number mem at has.small ∙ h.magic)) refl)
    ∙ run_ok (extract_memory_info fuel chars lit mem at) (find_memory false items) _ run
