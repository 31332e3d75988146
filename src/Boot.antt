-- ===== src/Boot.antt =====
-- The start of physical memory management in kern/mm/pmm.c: what dtb_init found becomes the free list of
-- default_pmm.c. A page is its index in `pages`, and `end` is the address behind the kernel.
pub mod Memory
mod Examples
use lab.Base.{
  ℕ, zero, suc, ◌+◌, ◌-◌, ◌*◌, ◌/◌, ◌%◌, ◌^◌, not, ltb, leb, ◌==◌, if◌then◌else◌, true, Outcome, ok,
  panic, ◌>>=◌, ◌>>◌, assert,
}
use lab.Vmm.{round_down, round_up}
use lab.Pmm.{Area, set_page, default_init, default_init_memmap}
use lab.Dtb.{PhysicalMemory, physical_memory_offset}

abbrev pub pgsize : ℕ
pgsize = 4096

abbrev pub dram_base : ℕ
dram_base = 0x80000000

abbrev pub nbase : ℕ
nbase = dram_base / pgsize

abbrev pub kernbase : ℕ
kernbase = 0xFFFFFFFFC0200000

abbrev pub kerntop : ℕ
kerntop = kernbase + 0x7E00000

-- sizeof(struct Page), with its padding.
abbrev pub page_bytes : ℕ
page_bytes = 72

-- PADDR
abbrev pub paddr : ℕ → Outcome ℕ
paddr kva = if ltb kva kernbase then panic else ok (kva - physical_memory_offset)

abbrev pub pa2page : ℕ → ℕ → Outcome ℕ
pa2page npage pa =
    if leb npage (pa / pgsize) then panic else ok ((pa / pgsize + 2 ^ 64 - nbase) % 2 ^ 64)

-- `for (i = ...) SetPageReserved(pages + i)`, for `n` pages from `p` on.
unfoldable pub reserve_pages : ℕ → ℕ → Area → Area
reserve_pages zero p a = a
reserve_pages (suc n) p a =
    reserve_pages n (p + 1) (set_page a p (record (a.pages p) { pg_reserved = true }))

-- `maxpa / PGSIZE`
abbrev pub count_pages : ℕ → ℕ
count_pages mem_end = (if ltb kerntop mem_end then kerntop else mem_end) / pgsize

-- `freemem`, behind the array of `n` pages.
unfoldable pub array_end : ℕ → ℕ → Outcome ℕ
unfolding round_up
array_end end n = paddr ((round_up end pgsize + page_bytes * n) % 2 ^ 64)

-- `init_memmap(pa2page(mem_begin), (mem_end - mem_begin) / PGSIZE)`
unfoldable pub give_range : ℕ → ℕ → ℕ → ℕ → Area → Outcome (ℕ × Area)
give_range fuel npage mem_begin mem_end a = do
  base ← pa2page npage mem_begin
  area ← default_init_memmap fuel base ((mem_end + 2 ^ 64 - mem_begin) % 2 ^ 64 / pgsize) a
  ok (npage, area)

unfoldable pub give_memory : ℕ → ℕ → ℕ → ℕ → Area → Outcome (ℕ × Area)
unfolding round_down round_up give_range
give_memory fuel npage freemem mem_end a =
    if ltb freemem (round_down mem_end pgsize)
    then give_range fuel npage (round_up freemem pgsize) (round_down mem_end pgsize) a
    else ok (npage, a)

-- `npage` and the free list.
unfoldable pub page_init : ℕ → ℕ → PhysicalMemory → Area → Outcome (ℕ × Area)
unfolding array_end give_memory reserve_pages
page_init fuel end mem a = do
  assert (not (mem.memory_size == 0))
  let mem_end = (mem.memory_base + mem.memory_size) % 2 ^ 64
  let npage = count_pages mem_end
  let n = (npage + 2 ^ 64 - nbase) % 2 ^ 64
  freemem ← array_end end n
  give_memory fuel npage freemem mem_end (reserve_pages n 0 a)

-- init_pmm_manager and page_init, as pmm_init calls them.
unfoldable pub init_memory : ℕ → ℕ → PhysicalMemory → Area → Outcome (ℕ × Area)
unfolding page_init
init_memory fuel end mem a = page_init fuel end mem (default_init a)
