-- ===== src/Load/Examples.antt =====
-- Segments of two pages and of one, loaded into the tables of page 10.
use lab.Base.{
  ℕ, zero, suc, ◌+◌, ◌*◌, ◌%◌, ◌<◌, ◌≡◌, refl, [], none, some, Option, Outcome, ok, pos, arith,
}
use lab.Pmm.{default_alloc_pages}
use lab.Vmm.{round_down}
use lab.Paging.{
  Machine, zero_pte, pgdir_alloc_page, alloc_pages, page_insert, insert_at, get_pte, next_level,
}
use lab.Paging.Samples.{memory}
use lab.Space.{Bytes}
use lab.Load.Pages.{Pages, Loaded}
use lab.Load.Contents.{Spans, segment_image, fill_segment-Loaded}
use lab.Load.Samples.{elf_file}
use lab.Load.{ProgHdr, Image, segment_perm, segment_flags, fill_segment, elf_header, elf_magic}

magic_of_file : (elf_header elf_file).e_magic ≡ elf_magic
unfolding elf_header
magic_of_file = refl

entry_of_file : (elf_header elf_file).e_entry ≡ 0x800020
unfolding elf_header
entry_of_file = refl

abbrev header : ProgHdr
header = record {
  p_type = 1;
  p_flags = 6;
  p_offset = 0x100;
  p_va = 0x803010;
  p_filesz = 0x1008;
  p_memsz = 0x1800;
}

abbrev machine_of : Outcome (Option ℕ × Machine) → Machine
machine_of (ok (page, m)) = m
machine_of o = memory zero_pte 1

abbrev first_alloc : Outcome (Option ℕ × Machine)
first_alloc = pgdir_alloc_page 9 10 0x803000 (segment_perm (segment_flags 6)) (memory zero_pte 1)

abbrev second_alloc : Outcome (Option ℕ × Machine)
second_alloc =
    pgdir_alloc_page 9 10 0x804000 (segment_perm (segment_flags 6)) (machine_of first_alloc)

abbrev ms : ℕ → Machine
ms zero = memory zero_pte 1
ms (suc zero) = machine_of first_alloc
ms (suc (suc j)) = machine_of second_alloc

two_pages :
    (j : ℕ)
    → j < 2
    → pgdir_alloc_page 9 10 (0x803000 + 4096 * j) (segment_perm (segment_flags 6)) (ms j)
      ≡ ok (some (20 + j), ms (j + 1))
unfolding pgdir_alloc_page alloc_pages default_alloc_pages page_insert insert_at get_pte next_level
two_pages zero lt = refl
two_pages (suc zero) lt = refl
two_pages (suc (suc j)) lt = absurd (omega arith)

sample-Pages : Pages 9 10 0x803000 2 (segment_perm (segment_flags 6)) (λ j. 20 + j) ms
sample-Pages = record { given = two_pages; apart = λ i j a b e. omega arith }

sample-Spans : Spans header 0x803000 2
unfolding round_down
sample-Spans = record {
  page = refl;
  part = omega arith;
  some_bytes = omega arith;
  covered = omega arith;
  needed = omega arith;
  small = omega arith;
}

fill_segment-Loaded_example :
    (new : Bytes) × (fill_segment 3 9 10 (λ i. i % 256) header (memory zero_pte 1) (λ a. 7)
      ≡ ok (pos 0, machine_of second_alloc, new))
    × Loaded 0x803000 2
        (λ j. 20 + j)
        (segment_image (λ i. i % 256) header)
        0x803010
        (0x803010 + 0x1800)
        (λ a. 7)
        new
fill_segment-Loaded_example =
    fill_segment-Loaded 3 9 10 0x803000 2 (λ i. i % 256) (λ a. 7) header (λ j. 20 + j) ms
      sample-Spans sample-Pages (omega arith)

abbrev wrapped : ProgHdr
wrapped = record header { p_filesz = 0x10; p_memsz = 0xFFFFFFFFFFFFFFF8 }

abbrev blank : Image
blank = record {
  mm = record { mmap_list = []; mmap_cache = none; map_count = 0 };
  machine = memory zero_pte 1;
  bytes = λ a. 7;
}
