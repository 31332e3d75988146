-- ===== src/Paging/Samples.antt =====
-- A small memory for the tests: tables, a mapped page and a free block.
use lab.Base.{ℕ, refl, true, false, ◌==◌, ◌&&◌, if◌then◌else◌, arith}
use lab.Links.{Links}
use lab.Pmm.{Page, Area}
use lab.Paging.{Pte, Machine, no_perm, zero_pte, pte_create, table_pte}
use lab.Paging.Walk.{Walks}

-- The address that page 13 is mapped at.
abbrev pub la : ℕ
la = 0x803000

abbrev pub cow_pte : Pte
cow_pte = pte_create 13 (record no_perm { read = true; user = true; cow = true })

-- Pages 10, 11 and 12 hold the tables of the parent, with `e` the entry of page 13; pages 14, 15 and
-- 16 hold those of the child.
abbrev pub words : Pte → ℕ → ℕ → Pte
words e p i =
    if (p == 10) && (i == 0)
    then table_pte 11
    else if (p == 11) && (i == 4)
    then table_pte 12
    else if (p == 12) && (i == 3)
    then e
    else if (p == 13)
    then pte_create i no_perm
    else if (p == 14) && (i == 0)
    then table_pte 15
    else if (p == 15) && (i == 4)
    then table_pte 16
    else zero_pte

abbrev pub page_of : ℕ → Page
page_of ref = record {
  ref = ref;
  pg_reserved = false;
  pg_property = false;
  property = 0;
  page_lock = false;
}

-- A block of four pages at 20 is free, and page 13 has `ref` references.
abbrev pub pages_of : ℕ → ℕ → Page
pages_of ref p =
    if p == 13
    then page_of ref
    else if p == 20
    then record (page_of 0) { pg_property = true; property = 4 }
    else if p == 11
    then page_of 1
    else page_of 0

abbrev pub one_free : Links
one_free = record { prev = λ e. if e == 0 then 21 else 0; next = λ e. if e == 0 then 21 else 0 }

abbrev pub memory : Pte → ℕ → Machine
memory e ref = record {
  area = record { pages = pages_of ref; links = one_free; nr_free = 4 };
  frames = words e;
  npage = 64;
}

-- No page is free.
abbrev pub full : Pte → ℕ → Machine
full e ref = record {
  area = record {
    pages = pages_of ref;
    links = record { prev = λ x. x; next = λ x. x };
    nr_free = 0;
  };
  frames = words e;
  npage = 64;
}

pub words-Walks :
    (e : Pte) (a : Area) → Walks (record { area = a; frames = words e; npage = 64 }) 10 la 11 12
words-Walks e a = record {
  valid1 = refl;
  table1 = refl;
  known1 = omega arith;
  valid0 = refl;
  table0 = refl;
  known0 = omega arith;
}

pub child-Walks :
    (e : Pte) (a : Area) → Walks (record { area = a; frames = words e; npage = 64 }) 14 la 15 16
child-Walks e a = record {
  valid1 = refl;
  table1 = refl;
  known1 = omega arith;
  valid0 = refl;
  table0 = refl;
  known0 = omega arith;
}
