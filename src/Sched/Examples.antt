-- ===== src/Sched/Examples.antt =====
-- The theorems on sched.c at the sample kernel.
use lab.Base.{◌≤◌, ◌≡◌, refl, [], ◌∷◌, Outcome, ok, arith}
use lab.Proc.{Kernel}
use lab.Proc.Samples.{sample, sample_list, sample_Ring}
use lab.Sched.RoundRobin.{Scheduled, first_runnable, schedule-round_robin}
use lab.Sched.Fair.{Order, Passes, start, round, schedule-waits}
use lab.Sched.{find_next, run_next, schedule}

-- In the process 4 the next runnable one is 2.
schedule-round_robin_example :
    (k : Kernel) × (schedule 9 sample ≡ ok k)
    × Scheduled sample (first_runnable sample.procs 1 (3 ∷ 2 ∷ 6 ∷ 5 ∷ 4 ∷ [])) k
schedule-round_robin_example =
    schedule-round_robin sample 9 (6 ∷ 5 ∷ []) (3 ∷ 2 ∷ []) (omega arith) sample_Ring (omega arith)

next_is_two : first_runnable sample.procs 1 (3 ∷ 2 ∷ 6 ∷ 5 ∷ 4 ∷ []) ≡ 2
unfolding first_runnable
next_is_two = refl

abbrev kernel_of : Outcome Kernel → Kernel
kernel_of (ok k) = k
kernel_of o = sample

abbrev second : Kernel
second = kernel_of (schedule 9 sample)

-- Process 4 calls schedule, and process 2 runs.
one_round : Passes 9 4 1 sample_list 1 sample second
unfolding schedule find_next run_next
one_round =
    round {k₁ = sample} {k₂ = second}
      (record { current = refl; idle_same = refl; listed = sample_Ring; can_run = refl }) refl
      (omega arith) start

around_four : Order sample_list 4 (3 ∷ 2 ∷ 6 ∷ 5 ∷ 4 ∷ [])
around_four = record { before = 6 ∷ 5 ∷ []; behind = 3 ∷ 2 ∷ []; listed = refl; around = refl }

schedule-waits_example : 1 ≤ 4
schedule-waits_example =
    schedule-waits 9 4 1 sample_list 1 sample second (3 ∷ 2 ∷ 6 ∷ 5 ∷ []) [] (omega arith)
      (omega arith) around_four one_round
