-- ===== src/Ranges/Examples.antt =====
-- `fork` on one page, and an address space that is given back.
use lab.Base.{ℕ, ◌≡◌, ◌≢◌, ◌⊎◌, refl, true, pos, Outcome, ok, arith}
use lab.Pmm.{default_free_pages}
use lab.Paging.{Pte, Machine, pte_create, no_perm, zero_pte, page_ref, set_entry, free_pages}
use lab.Paging.Samples.{la, words, memory, words-Walks, child-Walks}
use lab.Ranges.Share.{shared_perm, copy_page-shares}
use lab.Ranges.Exit.{exit_directory-in_use}
use lab.Ranges.{copy_page, next_page, exit_directory}

abbrev data_pte : Pte
data_pte = pte_create 13 (record no_perm { read = true; write = true; user = true })

copy_page-shares_example :
    (m' : Machine) × (copy_page 3 14 10 la (memory data_pte 1) ≡ ok (pos 0, next_page la, m'))
    × (m'.frames 12 3 ≡ pte_create 13 (shared_perm data_pte.perm))
    × (m'.frames 16 3 ≡ pte_create 13 (shared_perm data_pte.perm))
    × (page_ref m' 13 ≡ 2)
    × ((t i : ℕ) → ((t ≢ 12) × (t ≢ 16)) ⊎ (i ≢ 3) → m'.frames t i ≡ words data_pte t i)
    × ((q : ℕ) → q ≢ 13 → m'.area.pages q ≡ (memory data_pte 1).area.pages q)
copy_page-shares_example =
    copy_page-shares 3 14 10 la 11 12 15 16 13 (memory data_pte 1)
      (words-Walks data_pte (memory data_pte 1).area)
      (child-Walks data_pte (memory data_pte 1).area) (omega arith) refl refl (omega arith) refl

-- The memory when the directory 11 is free.
abbrev returned : Machine → Outcome Machine → Machine
returned m (ok m') = m'
returned m o = m

abbrev freed : Machine
freed = returned (memory data_pte 1) (free_pages 3 11 1 (memory data_pte 1))

frees_directory : free_pages 3 11 1 (memory data_pte 1) ≡ ok freed
unfolding free_pages default_free_pages
frees_directory = refl

exit_directory-in_use_example :
    exit_directory 3 10 0x800000 0 0x805000 (memory data_pte 1)
    ≡ ok (set_entry freed (10, 0) zero_pte)
exit_directory-in_use_example =
    exit_directory-in_use 2 10 0x800000 0 0x805000 11 12 3 (memory data_pte 1) freed refl refl
      (omega arith) refl refl refl (omega arith) (omega arith) refl frees_directory
