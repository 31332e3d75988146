-- ===== src/Pmm.antt =====
-- kern/mm/default_pmm.c: the first-fit allocator of physical pages. A page is its index in
-- `pages`; the head of `free_list` is the list entry 0 and the `page_link` of page p the entry
-- p + 1. Loops over the list run on fuel.
pub mod Blocks
pub mod Rep
pub mod Alloc
pub mod Merge
pub mod Insert
pub mod FreeInto
pub mod Reset
pub mod Free
pub mod Tail
pub mod Stuck
pub mod TailFree
pub mod DoubleAlloc
pub mod Memmap
pub mod Kept
mod Examples
use lab.Base.{
  ℕ, zero, suc, ◌+◌, ◌-◌, ◌%◌, ◌^◌, Bool, true, false, ◌&&◌, not, Option, none, some, ltb, leb,
  ◌==◌, if◌then◌else◌, update, Outcome, ok, out_of_fuel, ◌>>=◌, ◌>>◌, assert,
}
use lab.Links.{
  Links, list_init, list_add, list_add_before, list_del, list_empty, list_next, list_prev,
}

-- `struct Page`; `flags` is read and written by the two bits PG_reserved and PG_property only.
pub record Page : Type 0 where
  pub ref : ℕ
  pub pg_reserved : Bool
  pub pg_property : Bool
  pub property : ℕ
  pub page_lock : Bool

-- The page array and `free_area`.
pub record Area : Type 0 where
  pub pages : ℕ → Page
  pub links : Links
  pub nr_free : ℕ

abbrev pub free_list : ℕ
free_list = 0

abbrev pub page_link : ℕ → ℕ
page_link p = p + 1

abbrev pub le2page : ℕ → ℕ
le2page le = le - 1

-- The range of `unsigned int`, the type of `property` and `nr_free`.
abbrev pub uint_mod : ℕ
uint_mod = 2 ^ 32

abbrev pub set_page : Area → ℕ → Page → Area
set_page a p page = record a { pages = update a.pages p page }

unfoldable pub default_init : Area → Area
unfolding list_init
default_init a = record a { links = list_init free_list a.links; nr_free = 0 }

-- `p->flags = p->property = 0; set_page_ref(p, 0); lock_init(&p->page_lock)`
abbrev pub blank : Page
blank = record {
  ref = 0;
  pg_reserved = false;
  pg_property = false;
  property = 0;
  page_lock = false;
}

-- The first loop of `default_init_memmap`, over `n` pages from `p` on.
unfoldable pub claim_pages : ℕ → ℕ → Area → Outcome Area
claim_pages zero p a = ok a
claim_pages (suc n) p a = do
  assert (a.pages p).pg_reserved
  claim_pages n (p + 1) (set_page a p blank)

-- The first loop of `default_free_pages`. It leaves `property` as it was.
unfoldable pub reset_pages : ℕ → ℕ → Area → Outcome Area
reset_pages zero p a = ok a
reset_pages (suc n) p a = do
  assert (not (a.pages p).pg_reserved && not (a.pages p).pg_property)
  reset_pages n (p + 1) (set_page a p (record blank { property = (a.pages p).property }))

-- `base->property = n; SetPageProperty(base); nr_free += n`
unfoldable pub make_head : ℕ → ℕ → Area → Area
make_head base n a = record a {
  pages =
      update a.pages base (record (a.pages base) { property = n % uint_mod; pg_property = true });
  nr_free = (a.nr_free + n) % uint_mod;
}

-- The loop that looks for the place of `base`. It goes on after `list_add`.
unfoldable pub insert_scan : ℕ → ℕ → ℕ → Links → Outcome Links
unfolding list_next list_add list_add_before
insert_scan zero base le s = out_of_fuel
insert_scan (suc fuel) base le s =
    let le' = list_next le s in
    let s' = if list_next le' s == free_list then list_add le' (page_link base) s else s in
    let rest = insert_scan fuel base le' s' in
    if le' == free_list
    then ok s
    else if ltb base (le2page le')
    then ok (list_add_before le' (page_link base) s)
    else rest

unfoldable pub insert_block : ℕ → ℕ → Links → Outcome Links
unfolding insert_scan list_empty list_add
insert_block fuel base s =
    if list_empty free_list s
    then ok (list_add free_list (page_link base) s)
    else insert_scan fuel base free_list s

unfoldable pub default_init_memmap : ℕ → ℕ → ℕ → Area → Outcome Area
unfolding claim_pages make_head insert_block
default_init_memmap fuel base n a = do
  assert (ltb 0 n)
  a ← claim_pages n base a
  let a' = make_head base n a
  links ← insert_block fuel base a'.links
  ok (record a' { links = links })

-- The scan of `default_alloc_pages`: the first page on the list with `property >= n`.
unfoldable pub first_fit : ℕ → ℕ → ℕ → Area → Outcome (Option ℕ)
unfolding list_next
first_fit zero n le a = out_of_fuel
first_fit (suc fuel) n le a =
    let le' = list_next le a.links in
    let rest = first_fit fuel n le' a in
    if le' == free_list
    then ok none
    else if leb n (a.pages (le2page le')).property
    then ok (some (le2page le'))
    else rest

-- The remainder `p` of a block that is larger than the request, linked after `prev`.
unfoldable pub split_block : ℕ → ℕ → ℕ → Area → Area
unfolding list_add
split_block prev page n a =
    let p = page + n in
    record a {
      pages =
          update a.pages p
            (record (a.pages p) { property = (a.pages page).property - n; pg_property = true });
      links = list_add prev (page_link p) a.links;
    }

-- What `default_alloc_pages` does with the page that it found.
unfoldable pub take_pages : ℕ → ℕ → Area → Area
unfolding split_block list_prev list_del
take_pages page n a =
    let prev = list_prev (page_link page) a.links in
    let a' = record a { links = list_del (page_link page) a.links } in
    let a'' = if ltb n (a'.pages page).property then split_block prev page n a' else a' in
    record a'' {
      pages = update a''.pages page (record (a''.pages page) { pg_property = false });
      nr_free = a''.nr_free - n;
    }

unfoldable pub default_alloc_pages : ℕ → ℕ → Area → Outcome (Option ℕ × Area)
unfolding first_fit take_pages
default_alloc_pages fuel n a = do
  assert (ltb 0 n)
  if ltb a.nr_free n then ok (none, a) else do
    page ← first_fit fuel n free_list a
    elim page [ none ↦ ok (none, a) | some p ↦ ok (some p, take_pages p n a) ]

-- `p->property += q->property; ClearPageProperty(q); list_del(&q->page_link)`
unfoldable pub absorb : ℕ → ℕ → Area → Area
unfolding list_del
absorb p q a =
    let sum = ((a.pages p).property + (a.pages q).property) % uint_mod in
    let pages = update a.pages p (record (a.pages p) { property = sum }) in
    record a {
      pages = update pages q (record (pages q) { pg_property = false });
      links = list_del (page_link q) a.links;
    }

-- Merging with the block before; the result's first part is the new `base`.
unfoldable pub merge_prev : ℕ → Area → ℕ × Area
unfolding absorb list_prev
merge_prev base a =
    let le = list_prev (page_link base) a.links in
    let p = le2page le in
    if le == free_list
    then (base, a)
    else if p + (a.pages p).property == base
    then (p, absorb p base a)
    else (base, a)

-- Merging with the block after.
unfoldable pub merge_next : ℕ → Area → Area
unfolding absorb list_next
merge_next base a =
    let le = list_next (page_link base) a.links in
    let p = le2page le in
    if le == free_list
    then a
    else if base + (a.pages base).property == p
    then absorb base p a
    else a

unfoldable pub merge_both : ℕ → Area → Area
unfolding merge_prev merge_next
merge_both base a = let (base', a') = merge_prev base a in merge_next base' a'

unfoldable pub default_free_pages : ℕ → ℕ → ℕ → Area → Outcome Area
unfolding reset_pages make_head insert_block merge_both
default_free_pages fuel base n a = do
  assert (ltb 0 n)
  a ← reset_pages n base a
  let a' = make_head base n a
  links ← insert_block fuel base a'.links
  ok (merge_both base (record a' { links = links }))

unfoldable pub default_nr_free_pages : Area → ℕ
default_nr_free_pages a = a.nr_free
