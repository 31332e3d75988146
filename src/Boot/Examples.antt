-- ===== src/Boot/Examples.antt =====
-- 128 MB of memory from 0x80000000 on, and a kernel that ends at 0xFFFFFFFFC0216010.
use lab.Base.{◌≡◌, refl, [], ◌∷◌, ok, arith}
use lab.Pmm.Rep.{Rep}
use lab.Pmm.{Area, blank}
use lab.Dtb.{PhysicalMemory}
use lab.Boot.Memory.{Fits, init_memory-Rep}
use lab.Boot.{init_memory}

abbrev memory : PhysicalMemory
memory = record { memory_base = 0x80000000; memory_size = 0x8000000 }

abbrev no_pages : Area
no_pages = record {
  pages = λ _. blank;
  links = record { prev = λ _. 7; next = λ _. 7 };
  nr_free = 9;
}

memory_Fits : Fits 0xFFFFFFFFC0216010 memory 32768 1111
memory_Fits = record {
  not_empty = omega arith;
  low = omega arith;
  high = omega arith;
  kernel = omega arith;
  pages = refl;
  array = omega arith;
  behind = refl;
  room = omega arith;
}

init_memory-Rep_example :
    (a : Area) × (init_memory 1 0xFFFFFFFFC0216010 memory no_pages ≡ ok (557056, a))
    × Rep a ((1111, 31657) ∷ [])
init_memory-Rep_example =
    init_memory-Rep 1 0xFFFFFFFFC0216010 32768 1111 memory no_pages memory_Fits (omega arith)
