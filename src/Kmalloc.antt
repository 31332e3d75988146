-- ===== src/Kmalloc.antt =====
-- kern/mm/kmalloc.c: the SLOB allocator. Addresses count units of sizeof(slob_t), 16 bytes; 0 is NULL,
-- and the page p starts at the unit 256 p. Loops run on fuel.
pub mod Sizes
mod Examples
use lab.Base.{
  ℕ, zero, suc, ◌+◌, ◌-◌, ◌*◌, ◌/◌, ◌%◌, ◌^◌, Bool, true, false, ◌&&◌, ◌||◌, not, ltb, leb, ◌==◌,
  if◌then◌else◌, update, Option, none, some, List, [], ◌∷◌, Outcome, ok, out_of_fuel, ◌>>=◌, ◌>>◌,
  assert,
}
use lab.Vmm.{page_size}
use lab.Paging.{Machine, in_memory, alloc_pages, free_pages}

-- SLOB_UNIT and sizeof(bigblock_t).
abbrev pub slob_unit : ℕ
slob_unit = 16

abbrev pub big_size : ℕ
big_size = 24

abbrev pub slob_units : ℕ → ℕ
slob_units size = (size + slob_unit - 1) / slob_unit

abbrev pub page_units : ℕ
page_units = 256

-- A `bigblock_t` and its address.
pub record Bigblock : Type 0 where
  pub at : ℕ
  pub order : ℕ
  pub pages : ℕ

-- The fields of the blocks by address, slobfree and the list bigblocks, with the pages of the machine.
pub record Slob : Type 0 where
  pub units : ℕ → ℕ
  pub next : ℕ → ℕ
  pub slobfree : ℕ
  pub bigblocks : List Bigblock
  pub machine : Machine

abbrev pub set_units : ℕ → ℕ → Slob → Slob
set_units b n s = record s { units = update s.units b n }

abbrev pub set_next : ℕ → ℕ → Slob → Slob
set_next b n s = record s { next = update s.next b n }

-- NULL, or the first page of 2^order.
unfoldable pub slob_get_free_pages : ℕ → ℕ → Slob → Outcome (ℕ × Slob)
slob_get_free_pages fuel order s = do
  (page, m) ← alloc_pages fuel (2 ^ order) s.machine
  elim page [
    | none ↦ ok (0, record s { machine = m })
    | some p ↦ (do in_memory p m; ok (p * page_units, record s { machine = m }))
  ]

unfoldable pub slob_free_pages : ℕ → ℕ → ℕ → Slob → Outcome Slob
slob_free_pages fuel kva order s = do
  in_memory (kva / page_units) s.machine
  m ← free_pages fuel (kva / page_units) (2 ^ order) s.machine
  ok (record s { machine = m })

-- The block `b` belongs between `cur` and the next block.
abbrev pub fits_behind : ℕ → ℕ → Slob → Bool
fits_behind b cur s =
    (ltb cur b && ltb b (s.next cur)) || (leb (s.next cur) cur && (ltb cur b || ltb b (s.next cur)))

unfoldable pub find_spot : ℕ → ℕ → ℕ → Slob → Outcome ℕ
find_spot zero b cur s = out_of_fuel
find_spot (suc fuel) b cur s =
    let rest = find_spot fuel b (s.next cur) s in if fits_behind b cur s then ok cur else rest

-- `b` is joined with the block behind it, or leads to it.
abbrev pub join_next : ℕ → ℕ → Slob → Slob
join_next b cur s =
    let after = s.next cur in
    if b + s.units b == after
    then set_next b (s.next after) (set_units b (s.units b + s.units after) s)
    else set_next b after s

-- `cur` is joined with `b` behind it, or leads to it.
abbrev pub join_prev : ℕ → ℕ → Slob → Slob
join_prev b cur s =
    if cur + s.units cur == b
    then set_next cur (s.next b) (set_units cur (s.units cur + s.units b) s)
    else set_next cur b s

unfoldable pub slob_free : ℕ → ℕ → ℕ → Slob → Outcome Slob
unfolding find_spot
slob_free fuel b size s =
    let s₁ = if size == 0 then s else set_units b (slob_units size) s in
    if b == 0 then ok s else (do
      cur ← find_spot fuel b s₁.slobfree s₁
      ok (record (join_prev b cur (join_next b cur s₁)) { slobfree = cur }))

-- `ALIGN(cur, align)`, if there is an alignment, which is a power of two of bytes.
abbrev pub aligned : ℕ → ℕ → ℕ
aligned align cur =
    if align == 0 then cur else (cur * slob_unit + align - 1) / align * align / slob_unit

-- The block is cut in front, so that it starts aligned: the new prev and cur.
abbrev pub cut_head : ℕ → ℕ → ℕ → Slob → ℕ × ℕ × Slob
cut_head al prev cur s =
    let delta = al - cur in
    let s₁ = set_next al (s.next cur) (set_units al (s.units cur - delta) s) in
    if delta == 0 then (prev, cur, s) else (cur, al, set_units cur delta (set_next cur al s₁))

-- The block is unlinked, or its first `units` are cut off.
unfoldable pub take_block : ℕ → ℕ → ℕ → Slob → ℕ × Slob
take_block units prev cur s =
    let rest = cur + units in
    let s₁ = set_next prev rest s in
    let s₂ = set_units rest (s.units cur - units) s₁ in
    let s₃ = set_units cur units (set_next rest (s₂.next cur) s₂) in
    let s₄ = if s.units cur == units then set_next prev (s.next cur) s else s₃ in
    (cur, record s₄ { slobfree = prev })

-- The loop of `slob_alloc`; at the end of the list it asks for one more page.
unfoldable pub slob_scan : ℕ → ℕ → ℕ → ℕ → ℕ → Slob → Outcome (ℕ × Slob)
unfolding take_block slob_free slob_get_free_pages
slob_scan zero size align prev cur s = out_of_fuel
slob_scan (suc fuel) size align prev cur s =
    let al = aligned align cur in
    let units = slob_units size in
    let grown = (do
      (kva, s₁) ← slob_get_free_pages fuel 0 s
      s₂ ← slob_free fuel kva page_size s₁
      let rest = slob_scan fuel size align s₂.slobfree (s₂.next s₂.slobfree) s₂
      if kva == 0 then ok (0, s₁) else rest) in
    let onward = slob_scan fuel size align cur (s.next cur) s in
    if leb (units + (al - cur)) (s.units cur)
    then (let (prev', cur', s') = cut_head al prev cur s in ok (take_block units prev' cur' s'))
    else if cur == s.slobfree
    then (if size == page_size then ok (0, s) else grown)
    else onward

unfoldable pub slob_alloc : ℕ → ℕ → ℕ → Slob → Outcome (ℕ × Slob)
unfolding slob_scan
slob_alloc fuel size align s = do
  assert (ltb (size + slob_unit) page_size)
  slob_scan fuel size align s.slobfree (s.next s.slobfree) s

-- On fuel; a number of `int` is halved at most 31 times.
unfoldable pub halve : ℕ → ℕ → ℕ → ℕ
halve zero size order = order
halve (suc fuel) size order =
    let rest = halve fuel (size / 2) (order + 1) in if ltb 4096 size then rest else order

unfoldable pub find_order : ℕ → ℕ
unfolding halve
find_order size = halve 32 size 0

-- `kmalloc` of a size that is an `int` too: NULL, or the address.
unfoldable pub kmalloc_big : ℕ → ℕ → Slob → Outcome (ℕ × Slob)
unfolding slob_alloc slob_free slob_get_free_pages
kmalloc_big fuel size s = do
  (bb, s₁) ← slob_alloc fuel big_size 0 s
  if bb == 0 then ok (0, s₁) else (do
    let order = find_order size
    (pages, s₂) ← slob_get_free_pages fuel order s₁
    let block : Bigblock = record { at = bb; order = order; pages = pages }
    if pages == 0
        then (do s₃ ← slob_free fuel bb big_size s₂; ok (0, s₃))
        else ok (pages, record s₂ { bigblocks = block ∷ s₂.bigblocks }))

unfoldable pub kmalloc : ℕ → ℕ → Slob → Outcome (ℕ × Slob)
unfolding slob_alloc kmalloc_big
kmalloc fuel size s =
    if ltb size (page_size - slob_unit)
    then (do (m, s') ← slob_alloc fuel (size + slob_unit) 0 s; ok (if m == 0 then 0 else m + 1, s'))
    else kmalloc_big fuel size s

-- The block with the pages at `kva`, and the list without it.
unfoldable pub find_big : ℕ → List Bigblock → Option (Bigblock × List Bigblock)
find_big kva [] = none
find_big kva (bb ∷ bbs) =
    if bb.pages == kva
    then some (bb, bbs)
    else elim (find_big kva bbs) [ none ↦ none | some (found, others) ↦ some (found, bb ∷ others) ]

unfoldable pub kfree : ℕ → ℕ → Slob → Outcome Slob
unfolding find_big slob_free slob_free_pages
kfree fuel block s =
    let big = if block % page_units == 0 then find_big block s.bigblocks else none in
    if block == 0 then ok s else elim big [
      | none ↦ slob_free fuel (block - 1) 0 s
      | some (bb, others) ↦ (do
        s₁ ← slob_free_pages fuel block bb.order (record s { bigblocks = others })
        slob_free fuel bb.at big_size s₁)
    ]

unfoldable pub ksize : ℕ → Slob → ℕ
unfolding find_big
ksize block s =
    let big = if block % page_units == 0 then find_big block s.bigblocks else none in
    if block == 0 then 0 else elim big [
      | none ↦ s.units (block - 1) * slob_unit
      | some (bb, others) ↦ page_size * 2 ^ bb.order
    ]
