-- ===== src/Paging.antt =====
-- kern/mm/pmm.c, pmm.h and mmu.h: page tables of three levels. A page is named by its
-- physical page number (its index in `pages` and nbase), and memory is the words of all pages; a word
-- is read as a page table entry. Pages come from the allocator of `Pmm`. The TLB and barriers are not in the model.
pub mod Samples
pub mod Walk
pub mod Alloc
pub mod Insert
pub mod Frames
use lab.Base.{
  ℕ, zero, suc, ◌+◌, ◌-◌, ◌*◌, ◌/◌, ◌%◌, ◌^◌, Bool, true, false, ◌&&◌, ◌||◌, not, ltb, ◌==◌,
  if◌then◌else◌, update, Option, none, some, ℤ, pos, Outcome, ok, ◌>>=◌, ◌>>◌, assert,
}
use lab.Pmm.{Page, Area, default_alloc_pages, default_free_pages}
use lab.Vmm.{e_no_mem}

-- The permission bits PTE_R, PTE_W, PTE_X, PTE_U, PTE_G, PTE_A, PTE_D, and the two of PTE_SOFT, of
-- which the lower is PTE_COW.
pub record Perm : Type 0 where
  pub read : Bool
  pub write : Bool
  pub exec : Bool
  pub user : Bool
  pub global : Bool
  pub accessed : Bool
  pub dirty : Bool
  pub cow : Bool
  pub soft : Bool

-- `pte_t`: PTE_V, the permission bits, and the physical page number.
pub record Pte : Type 0 where
  pub valid : Bool
  pub perm : Perm
  pub page : ℕ

-- Physical memory: the page array with the free list, the words of each page, and `npage`.
pub record Machine : Type 0 where
  pub area : Area
  pub frames : ℕ → ℕ → Pte
  pub npage : ℕ

abbrev pub no_perm : Perm
no_perm = record {
  read = false;
  write = false;
  exec = false;
  user = false;
  global = false;
  accessed = false;
  dirty = false;
  cow = false;
  soft = false;
}

abbrev pub zero_pte : Pte
zero_pte = record { valid = false; perm = no_perm; page = 0 }

-- `pte_create(page2ppn(page), PTE_V | perm)`
abbrev pub pte_create : ℕ → Perm → Pte
pte_create page perm = record { valid = true; perm = perm; page = page }

-- The bits of a directory entry, PTE_U | PTE_V.
abbrev pub table_pte : ℕ → Pte
table_pte page = pte_create page (record no_perm { user = true })

-- PDX1, PDX0 and PTX.
abbrev pub pdx1 : ℕ → ℕ
pdx1 la = la / 2 ^ 30 % 512

abbrev pub pdx0 : ℕ → ℕ
pdx0 la = la / 2 ^ 21 % 512

abbrev pub ptx : ℕ → ℕ
ptx la = la / 2 ^ 12 % 512

-- The address of an entry: the page of its table and its index.
abbrev pub Slot : Type 0
Slot = ℕ × ℕ

abbrev pub entry : Machine → Slot → Pte
entry m (t, i) = m.frames t i

abbrev pub set_entry : Machine → Slot → Pte → Machine
set_entry m (t, i) pte = record m {
  frames = λ p. if p == t then update (m.frames p) i pte else m.frames p;
}

-- `memset(KADDR(page2pa(page)), 0, PGSIZE)`, and `memcpy` of a whole page.
abbrev pub clear_frame : Machine → ℕ → Machine
clear_frame m page = record m { frames = λ p. if p == page then (λ i. zero_pte) else m.frames p }

abbrev pub copy_frame : Machine → ℕ → ℕ → Machine
copy_frame m dst src = record m { frames = λ p. if p == dst then m.frames src else m.frames p }

-- The range of `int`, as a bit pattern.
abbrev pub int_mod : ℕ
int_mod = 2 ^ 32

abbrev pub page_ref : Machine → ℕ → ℕ
page_ref m page = (m.area.pages page).ref

abbrev pub set_page : Machine → ℕ → Page → Machine
set_page m page p = record m { area = record m.area { pages = update m.area.pages page p } }

abbrev pub set_page_ref : ℕ → ℕ → Machine → Machine
set_page_ref page val m = set_page m page (record (m.area.pages page) { ref = val })

abbrev pub page_ref_inc : ℕ → Machine → Machine
page_ref_inc page m = set_page_ref page ((page_ref m page + 1) % int_mod) m

abbrev pub page_ref_dec : ℕ → Machine → Machine
page_ref_dec page m = set_page_ref page ((page_ref m page + int_mod - 1) % int_mod) m

unfoldable pub alloc_pages : ℕ → ℕ → Machine → Outcome (Option ℕ × Machine)
alloc_pages fuel n m = do
  (page, area) ← default_alloc_pages fuel n m.area
  ok (page, record m { area = area })

unfoldable pub free_pages : ℕ → ℕ → ℕ → Machine → Outcome Machine
free_pages fuel base n m = do
  area ← default_free_pages fuel base n m.area
  ok (record m { area = area })

-- The check of `KADDR` and of `pa2page`.
abbrev pub in_memory : ℕ → Machine → Outcome (Unit {0})
in_memory page m = assert (ltb page m.npage)

unfoldable pub pte2page : Pte → Machine → Outcome ℕ
pte2page pte m = do assert pte.valid; in_memory pte.page m; ok pte.page

-- A level of `get_pte`: the table behind the entry at `slot`, made new if `create`.
unfoldable pub next_level : ℕ → Bool → Slot → Machine → Outcome (Option ℕ × Machine)
next_level fuel create slot m =
    if (entry m slot).valid
    then ok (some (entry m slot).page, m)
    else if not create
    then ok (none, m)
    else (do
      (page, m₁) ← alloc_pages fuel 1 m
      elim page [
        | none ↦ ok (none, m₁)
        | some p ↦ (do
          in_memory p m₁
          ok (some p, set_entry (clear_frame (set_page_ref p 1 m₁) p) slot (table_pte p)))
      ])

-- The rest of `get_pte` behind a table that may be NULL.
abbrev pub in_table :
    {A : Type 0}
    → Option ℕ × Machine
    → (ℕ → Machine → Outcome (Option A × Machine))
    → Outcome (Option A × Machine)
in_table (none, m) next = ok (none, m)
in_table (some t, m) next = do in_memory t m; next t m

unfoldable pub get_pte : ℕ → ℕ → ℕ → Bool → Machine → Outcome (Option Slot × Machine)
get_pte fuel pgdir la create m = do
  d ← next_level fuel create (pgdir, pdx1 la) m
  in_table d (λ pd0 m₁. do
    t ← next_level fuel create (pd0, pdx0 la) m₁
    in_table t (λ pt m₂. ok (some (pt, ptx la), m₂)))

unfoldable pub get_page : ℕ → ℕ → ℕ → Machine → Outcome (Option ℕ × Machine)
get_page fuel pgdir la m = do
  (ptep, m₁) ← get_pte fuel pgdir la false m
  elim ptep [
    | none ↦ ok (none, m₁)
    | some slot ↦
        if (entry m₁ slot).valid
        then (do page ← pte2page (entry m₁ slot) m₁; ok (some page, m₁))
        else ok (none, m₁)
  ]

-- `page_ref_dec(page); if (page_ref(page) == 0) free_page(page);`
unfoldable pub put_page : ℕ → ℕ → Machine → Outcome Machine
put_page fuel page m =
    let m₁ = page_ref_dec page m in
    if page_ref m₁ page == 0 then free_pages fuel page 1 m₁ else ok m₁

unfoldable pub page_remove_pte : ℕ → Slot → Machine → Outcome Machine
page_remove_pte fuel slot m =
    if (entry m slot).valid
    then (do
      page ← pte2page (entry m slot) m
      m₁ ← put_page fuel page m
      ok (set_entry m₁ slot zero_pte))
    else ok m

unfoldable pub page_remove : ℕ → ℕ → ℕ → Machine → Outcome Machine
page_remove fuel pgdir la m = do
  (ptep, m₁) ← get_pte fuel pgdir la false m
  elim ptep [ none ↦ ok m₁ | some slot ↦ page_remove_pte fuel slot m₁ ]

-- `page_insert` once it has its entry: one more reference to the page, one less to the page that was
-- mapped, and the new entry.
unfoldable pub insert_at : ℕ → ℕ → Slot → Perm → Machine → Outcome Machine
insert_at fuel page slot perm m = do
  let m₁ = page_ref_inc page m
  m₂ ←
      (if (entry m₁ slot).valid
        then (do
          p ← pte2page (entry m₁ slot) m₁
          if p == page then ok (page_ref_dec page m₁) else page_remove_pte fuel slot m₁)
        else ok m₁)
  ok (set_entry m₂ slot (pte_create page perm))

unfoldable pub page_insert : ℕ → ℕ → ℕ → ℕ → Perm → Machine → Outcome (ℤ × Machine)
page_insert fuel pgdir page la perm m = do
  (ptep, m₁) ← get_pte fuel pgdir la true m
  elim ptep [
    | none ↦ ok (e_no_mem, m₁)
    | some slot ↦ (do m₂ ← insert_at fuel page slot perm m₁; ok (pos 0, m₂))
  ]

abbrev pub is_zero : ℤ → Bool
is_zero (pos n) = n == 0
is_zero r = false

-- The end of `pgdir_alloc_page`; `pra_vaddr` is not in the model.
abbrev keep_page : ℕ → ℕ → ℤ → Machine → Outcome (Option ℕ × Machine)
keep_page fuel page ret m =
    if is_zero ret
    then (do assert (page_ref m page == 1); ok (some page, m))
    else (do m₁ ← free_pages fuel page 1 m; ok (none, m₁))

unfoldable pub pgdir_alloc_page : ℕ → ℕ → ℕ → Perm → Machine → Outcome (Option ℕ × Machine)
pgdir_alloc_page fuel pgdir la perm m = do
  (page, m₁) ← alloc_pages fuel 1 m
  elim page [
    | none ↦ ok (none, m₁)
    | some p ↦ (do (ret, m₂) ← page_insert fuel pgdir p la perm m₁; keep_page fuel p ret m₂)
  ]
