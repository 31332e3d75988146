-- ===== src/Release/Examples.antt =====
-- Process 4 of the sample kernel ends, the last one that uses its address space, which has no area left.
use lab.Exit.Samples.{sample-CanExit}
use lab.Base.{ℕ, ◌≡◌, refl, [], ◌∷◌, none, pos, Outcome, ok, ℤ, arith, true, false}
use lab.Pmm.{default_free_pages}
use lab.Proc.Samples.{sample}
use lab.Exit.Loop.{rev_onto}
use lab.Exit.Done.{Exited}
use lab.Pid.{max_pid}
use lab.Paging.{Pte, no_perm, pte_create, free_pages}
use lab.Paging.Samples.{memory}
use lab.Space.{Space, unmap_vmas, exit_vmas, exit_mmap, mm_destroy, put_pgdir}
use lab.Task.{Memory, World, blank_thread}
use lab.Fork.{put_space, drop_space}
use lab.Release.Ended.{last_user, exit_process-Exited}
use lab.Release.{exit_process}

abbrev data_pte : Pte
data_pte = pte_create 13 (record no_perm { read = true; write = true; user = true })

abbrev space : ℕ → Space
space mm_count = record {
  mm = record { mmap_list = []; mmap_cache = none; map_count = 0 };
  pgdir = 10;
  mm_count = mm_count;
  mm_lock = false;
}

abbrev before : Memory
before = record { machine = memory data_pte 1; spaces = λ a. space 1; boot = 1 }

abbrev world : World
world = record {
  kernel = sample;
  hash = λ h. [];
  pids = record { last_pid = max_pid; next_safe = max_pid };
  threads = λ p. record blank_thread { mm = 1 };
  memory = before;
}

abbrev result : Outcome (ℤ × Memory) → Memory
result (ok (ret, memory')) = memory'
result o = before

abbrev dropped : Outcome (ℤ × Memory)
dropped = drop_space 9 (pos 0) 1 (put_space 1 (space 0) before.machine before)

drops : dropped ≡ ok (pos 0, result dropped)
unfolding drop_space exit_mmap unmap_vmas exit_vmas free_pages default_free_pages put_pgdir
    mm_destroy
drops = refl

exit_process-Exited_example :
    (w' : World) × (exit_process 9 (pos 3) world ≡ ok w')
    × Exited sample (pos 3) (rev_onto (6 ∷ 5 ∷ []) (3 ∷ [])) w'.kernel
    × ((w'.threads 4).mm ≡ 0)
    × (w'.memory ≡ result dropped)
exit_process-Exited_example =
    exit_process-Exited 9 (pos 3) world (result dropped) (6 ∷ 5 ∷ []) (3 ∷ []) (6 ∷ 5 ∷ [])
      (3 ∷ 2 ∷ []) sample-CanExit (last_user (result dropped) (omega arith) refl drops)
