-- ===== src/Wait/Examples.antt =====
-- `do_wait` in the sample kernel: the child 5 of the process 4 is a zombie, the child of 3 is not.
use lab.Base.{◌≡◌, ◌≢◌, refl, true, [], ◌∷◌, some, ℤ, pos, Outcome, ok, panic, out_of_fuel, arith}
use lab.Proc.Family.{Family}
use lab.Proc.{Kernel, sleeping, proc_run}
use lab.Sched.{wakeup_proc}
use lab.Proc.Samples.{sample, sample_Ring, sample-Family}
use lab.Exit.{
  wt_child, do_exit, adopt_children, adopt_child, relink_child, disown_child, give_child,
  become_zombie,
}
use lab.Exit.Samples.{sample-CanExit}
use lab.Sched.{schedule, find_next, run_next}
use lab.Wait.Codes.{StillThere, do_exit-wait_resume}
use lab.Wait.Children.{Reaped, do_wait-Reaped, do_wait-slept}
use lab.Wait.Find.{hash_proc-find_proc}
use lab.Wait.{find_proc, hash_proc, HashList, returned, slept, do_wait, wait_resume, unhash_proc}

abbrev no_hash : HashList
no_hash = λ _. []

do_wait-Reaped_example :
    (k : Kernel) × (do_wait 9 true true (pos 0) sample no_hash
      ≡ ok (returned (pos 0) (some (pos 0)) k (unhash_proc 5 sample no_hash)))
    × Reaped sample (6 ∷ []) (6 ∷ 4 ∷ 3 ∷ 2 ∷ []) k
do_wait-Reaped_example =
    do_wait-Reaped 9 true sample no_hash (6 ∷ []) 5 [] (6 ∷ []) (4 ∷ 3 ∷ 2 ∷ []) sample-Family
      (refl, tt) refl (omega arith) (omega arith) sample_Ring (omega arith)

abbrev in_three : Kernel
in_three = record sample { current = 3 }

three-Family : Family in_three.procs 3 (4 ∷ [])
three-Family = record {
  youngest = refl;
  siblings = (omega arith, refl, refl, refl, tt);
  distinct = omega arith;
}

do_wait-slept_example :
    (k : Kernel) × (do_wait 9 true true (pos 0) in_three no_hash ≡ ok (slept k))
    × ((k.procs 3).state ≡ sleeping)
    × ((k.procs 3).wait_state ≡ wt_child)
    × (k.current ≢ 3)
do_wait-slept_example =
    do_wait-slept 9 true in_three no_hash 4 [] (6 ∷ 5 ∷ 4 ∷ []) (2 ∷ []) three-Family (refl, tt)
      (omega arith) sample_Ring (omega arith) (omega arith)

-- The process 4 has the pid 3.
hash_proc-find_proc_example :
    (find_proc (pos 3) sample (hash_proc 4 sample no_hash) ≡ 4)
    × ((other : ℤ)
        → other ≢ pos 3
        → find_proc other sample (hash_proc 4 sample no_hash) ≡ find_proc other sample no_hash)
hash_proc-find_proc_example =
    hash_proc-find_proc sample no_hash 4 3 refl (omega arith) (omega arith)

-- The end of the process 4 with the code 7; then its parent 3 runs again.
abbrev left : Outcome Kernel → Kernel
left (ok k) = k
left panic = sample
left out_of_fuel = sample

abbrev without_four : Kernel
without_four = left (do_exit 9 (pos 7) sample)

abbrev back_in_three : Kernel
back_in_three = record without_four { current = 3 }

back-Family : Family back_in_three.procs 3 (4 ∷ [])
unfolding do_exit adopt_children adopt_child relink_child disown_child give_child become_zombie
    schedule find_next run_next wakeup_proc proc_run
back-Family = record {
  youngest = refl;
  siblings = (omega arith, refl, refl, refl, tt);
  distinct = omega arith;
}

four-StillThere : StillThere 4 without_four back_in_three [] [] (6 ∷ 5 ∷ []) (3 ∷ 2 ∷ [])
unfolding do_exit adopt_children adopt_child relink_child disown_child give_child become_zombie
    schedule find_next run_next wakeup_proc proc_run
four-StillThere = record {
  same_state = refl;
  same_code = refl;
  children = back-Family;
  younger = tt;
  listed = sample_Ring;
  not_idle = omega arith;
  not_init = omega arith;
  live = refl;
}

four_ends : do_exit 9 (pos 7) sample ≡ ok without_four
unfolding do_exit adopt_children adopt_child relink_child disown_child give_child become_zombie
    schedule find_next run_next wakeup_proc proc_run
four_ends = refl

do_exit-wait_resume_example :
    (k : Kernel) × (wait_resume 9 true (pos 0) back_in_three no_hash
      ≡ ok (returned (pos 0) (some (pos 7)) k (unhash_proc 4 back_in_three no_hash)))
    × Reaped back_in_three [] (6 ∷ 5 ∷ 3 ∷ 2 ∷ []) k
do_exit-wait_resume_example =
    do_exit-wait_resume 9 9 (pos 7) sample without_four back_in_three no_hash (6 ∷ 5 ∷ []) (3 ∷ [])
      (6 ∷ 5 ∷ []) (3 ∷ 2 ∷ []) [] [] (6 ∷ 5 ∷ []) (3 ∷ 2 ∷ []) sample-CanExit four_ends
      four-StillThere (omega arith)
