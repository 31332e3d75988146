-- ===== src/Proc/Samples.antt =====
-- A kernel with five processes for the examples: init 2 with its child 3, whose child 4 runs and has
-- the children 6 and 5. Process 3 waits for a child.
use lab.Base.{ℕ, false, refl, List, [], ◌∷◌, update, pos, arith}
use lab.Links.{Links}
use lab.Links.Ring.{Ring}
use lab.Proc.Family.{Family}
use lab.Proc.{ProcState, sleeping, runnable, zombie, Proc, Kernel}

abbrev pub sample_proc : ProcState → ℕ → ℕ → ℕ → ℕ → Proc
sample_proc state parent cptr yptr optr = record {
  state = state;
  pid = pos parent;
  runs = 0;
  need_resched = false;
  parent = parent;
  pgdir = 7;
  flags = 0;
  exit_code = pos 0;
  wait_state = 0;
  cptr = cptr;
  yptr = yptr;
  optr = optr;
}

abbrev pub sample_procs : ℕ → Proc
sample_procs =
    update
      (update
        (update
          (update (update (λ _. sample_proc runnable 0 0 0 0) 2 (sample_proc runnable 1 3 0 0)) 3
            (record (sample_proc sleeping 2 4 0 0) { wait_state = 0x80000001 }))
          4 (sample_proc runnable 3 6 0 0))
        5 (sample_proc zombie 4 0 6 0))
      6 (sample_proc sleeping 4 0 0 5)

abbrev pub sample_links : Links
sample_links = record {
  next = update (update (update (update (update (update (λ _. 0) 0 6) 6 5) 5 4) 4 3) 3 2) 2 0;
  prev = update (update (update (update (update (update (λ _. 0) 6 0) 5 6) 4 5) 3 4) 2 3) 0 2;
}

abbrev pub sample : Kernel
sample = record {
  procs = sample_procs;
  links = sample_links;
  current = 4;
  idleproc = 1;
  initproc = 2;
  nr_process = 5;
  satp = 7;
}

abbrev pub sample_list : List ℕ
sample_list = 6 ∷ 5 ∷ 4 ∷ 3 ∷ 2 ∷ []

pub sample_Ring : Ring sample_links 0 sample_list
sample_Ring = record {
  seg = (refl, refl, (refl, refl, (refl, refl, (refl, refl, (refl, refl, (refl, refl))))));
  distinct = omega arith;
}

pub sample-Family : Family sample_procs 4 (6 ∷ 5 ∷ [])
sample-Family = record {
  youngest = refl;
  siblings = (omega arith, refl, refl, refl, (omega arith, refl, refl, refl, tt));
  distinct = omega arith;
}

pub init-Family : Family sample_procs 2 (3 ∷ [])
init-Family = record {
  youngest = refl;
  siblings = (omega arith, refl, refl, refl, tt);
  distinct = omega arith;
}
