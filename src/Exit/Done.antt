-- ===== src/Exit/Done.antt =====
-- `do_exit` as a whole.
use lab.Base.{
  ℕ, ◌+◌, ◌<◌, ◌≡◌, ◌≢◌, refl, sym, ◌∙◌, ap, subst, inl, inr, true, false, List, [], ◌∷◌, ◌++◌,
  length, Distinct, ne→not_eq, ℤ, ok, arith,
}
use lab.Links.Ring.{Ring}
use lab.Proc.Family.{Family, Siblings-frame}
use lab.Proc.Leave.{Siblings-null}
use lab.Proc.{ProcState, Proc, Kernel, null, proc_list, is_zombie, is_runnable}
use lab.Sched.RoundRobin.{first_runnable, first_runnable_cases, schedule-round_robin, Scheduled}
use lab.Sched.{schedule}
use lab.Exit.Kept.{Kept, Kept-trans, SameKin, wakeup_waiting-Kept}
use lab.Exit.Loop.{rev_onto, adopt_children-Family}
use lab.Exit.{wt_child, wakeup_waiting, become_zombie, adopt_children, do_exit}

pub Family-SameKin :
    (k k' : Kernel) (parent : ℕ) (cs : List ℕ)
    → SameKin k k'
    → Family k.procs parent cs
    → Family k'.procs parent cs
Family-SameKin k k' parent cs kin fam =
    let off = Siblings-null k.procs parent null cs fam.siblings in
    record {
      youngest = (kin parent).3 ∙ fam.youngest;
      siblings =
          Siblings-frame k.procs k'.procs parent null null null cs off off
            (λ q _ _. ((kin q).0, (kin q).1, (kin q).2)) fam.siblings;
      distinct = fam.distinct;
    }

-- What the end of the current process leaves: a zombie with its exit code and without children,
-- `heirs` as the children of `initproc`, a parent awake that waited for it, and another process
-- that runs.
pub record Exited (k : Kernel) (error_code : ℤ) (heirs : List ℕ) (k' : Kernel) : Type 0 where
  pub dead : is_zombie (k'.procs k.current).state ≡ true
  pub code : (k'.procs k.current).exit_code ≡ error_code
  pub childless : (k'.procs k.current).cptr ≡ null
  pub adopted : Family k'.procs k.initproc heirs
  pub woken :
      (k.procs (k.procs k.current).parent).wait_state ≡ wt_child
      → is_runnable (k'.procs (k.procs k.current).parent).state ≡ true
  pub elsewhere : k'.current ≢ k.current

become_zombie-kin : (e : ℤ) (k : Kernel) → SameKin k (become_zombie e k)
unfolding become_zombie
become_zombie-kin e k q = (ground arith, ground arith, ground arith, ground arith)

become_zombie-other :
    (e : ℤ) (k : Kernel) (q : ℕ) → q ≢ k.current → ((become_zombie e k).procs q ≡ k.procs q)
unfolding become_zombie
become_zombie-other e k q ne = ground arith

do_exit_run :
    (fuel : ℕ) (e : ℤ) (k k₂ k₃ k₄ : Kernel)
    → k.current ≢ k.idleproc
    → k.current ≢ k.initproc
    → wakeup_waiting ((become_zombie e k).procs k.current).parent (become_zombie e k) ≡ ok k₂
    → adopt_children fuel k₂ ≡ ok k₃
    → schedule fuel k₃ ≡ ok k₄
    → k₄.current ≢ k.current
    → do_exit fuel e k ≡ ok k₄
unfolding do_exit
do_exit_run fuel e k k₂ k₃ k₄ ni nn a b c d =
    rw
      (
        ne→not_eq k.current k.idleproc ni,
        ne→not_eq k.current k.initproc nn,
        a,
        b,
        c,
        ne→not_eq k₄.current k.current d,
      )
      refl

first_runnable-not :
    (procs : ℕ → Proc) (idle c : ℕ) (xs : List ℕ)
    → is_runnable (procs c).state ≡ false
    → c ≢ idle
    → first_runnable procs idle xs ≢ c
first_runnable-not procs idle c xs off ne e = elim (first_runnable_cases procs idle xs) [
  | inl run ↦ cc (run, off, e)
  | inr i ↦ ne (sym e ∙ i)
]

-- What holds of the state in which the process ends.
pub record CanExit (k : Kernel) (fuel : ℕ) (cs is l r : List ℕ) : Type 0 where
  pub not_idle : k.current ≢ k.idleproc
  pub not_init : k.current ≢ k.initproc
  pub not_parent : (k.procs k.current).parent ≢ k.current
  pub parent_alive : is_zombie (k.procs (k.procs k.current).parent).state ≡ false
  pub init_alive : is_zombie (k.procs k.initproc).state ≡ false
  pub children : Family k.procs k.current cs
  pub heirs : Family k.procs k.initproc is
  pub apart : Distinct (cs ++ is)
  pub listed : Ring k.links proc_list (l ++ k.current ∷ r)
  pub enough_children : length cs < fuel
  pub enough_listed : length l + length r + 1 < fuel

runnable_zombie : (s : ProcState) → is_zombie s ≡ true → is_runnable s ≡ false
runnable_zombie s e = ground arith

-- A process that is not runnable and not the idle process gives way to another one.
pub schedule_away :
    (k : Kernel) (c fuel : ℕ) (l r : List ℕ)
    → k.current ≡ c
    → c ≢ k.idleproc
    → is_runnable (k.procs c).state ≡ false
    → Ring k.links proc_list (l ++ c ∷ r)
    → length l + length r + 1 < fuel
    → (k' : Kernel) × (choice : ℕ) × (schedule fuel k ≡ ok k')
      × Scheduled k choice k'
      × (k'.current ≢ c)
schedule_away k c fuel l r e ni off ring enough =
    let (k', run, s) =
      schedule-round_robin k fuel l r (λ q. ni (sym e ∙ q))
        (subst (λ x. Ring k.links proc_list (l ++ x ∷ r)) (sym e) ring) enough in
    let queue = r ++ (l ++ k.current ∷ []) in
    (
      k',
      first_runnable k.procs k.idleproc queue,
      run,
      s,
      λ q. first_runnable-not k.procs k.idleproc c queue off ni (sym s.chosen ∙ q),
    )

-- The parent is woken if it waits.
wake_parent :
    (error_code : ℤ) (k : Kernel) (p : ℕ)
    → (k.procs k.current).parent ≡ p
    → p ≢ k.current
    → is_zombie (k.procs p).state ≡ false
    → (k' : Kernel) × (wakeup_waiting
          ((become_zombie error_code k).procs k.current).parent
          (become_zombie error_code k)
        ≡ ok k')
      × Kept (become_zombie error_code k) k'
      × SameKin (become_zombie error_code k) k'
      × ((k.procs p).wait_state ≡ wt_child → is_runnable (k'.procs p).state ≡ true)
wake_parent error_code k p e ne alive =
    let z = become_zombie error_code k in
    let same : z.procs p ≡ k.procs p = become_zombie-other error_code k p ne in
    let (k', run, kept, kin, woken) =
      wakeup_waiting-Kept p z (ap (λ x. is_zombie x.state) same ∙ alive) in
    (
      k',
      ap (λ q. wakeup_waiting q z) ((become_zombie-kin error_code k k.current).0 ∙ e) ∙ run,
      kept,
      kin,
      λ waits. woken (ap (λ x. x.wait_state) same ∙ waits),
    )

-- A process on the list of processes that is neither the idle process nor initproc, whose parent
-- and initproc are no zombies, ends: `do_exit` gives its children, in reversed order, to initproc
-- in front of its own, leaves the process a zombie with its exit code and without children, wakes
-- its parent if that waits for a child, and runs another process. Fuel is for all children and all
-- processes.
pub do_exit-Exited :
    (fuel : ℕ) (error_code : ℤ) (k : Kernel) (cs is l r : List ℕ)
    → CanExit k fuel cs is l r
    → (k' : Kernel) × (do_exit fuel error_code k ≡ ok k') × Exited k error_code (rev_onto cs is) k'
unfolding become_zombie
do_exit-Exited fuel error_code k cs is l r can =
    let c = k.current in
    let p = (k.procs c).parent in
    let z = become_zombie error_code k in
    let kin = become_zombie-kin error_code k in
    let other = become_zombie-other error_code k in
    let (k₂, wake, kept₂, kin₂, woken) =
      wake_parent error_code k p refl can.not_parent can.parent_alive in
    let children₂ = Family-SameKin z k₂ c cs kin₂ (Family-SameKin k z c cs kin can.children) in
    let heirs₂ =
      Family-SameKin z k₂ k.initproc is kin₂ (Family-SameKin k z k.initproc is kin can.heirs) in
    let init_alive₂ : is_zombie (k₂.procs k.initproc).state ≡ false =
      kept₂.zombies k.initproc
      ∙ ap (λ x. is_zombie x.state) (other k.initproc (λ q. can.not_init (sym q)))
      ∙ can.init_alive in
    let (k₃, adopt, kept₃, fam₃, none₃) =
      adopt_children-Family fuel k₂ c k.initproc cs is kept₂.current kept₂.initproc
        can.enough_children can.not_init init_alive₂
        (record { youngest = children₂.youngest; younger = null; siblings = children₂.siblings })
        heirs₂ can.apart in
    let kept = Kept-trans kept₂ kept₃ in
    let dead₃ : is_zombie (k₃.procs c).state ≡ true = kept.zombies c ∙ ground arith in
    let (k₄, choice, run, s, away) =
      schedule_away k₃ c fuel l r kept.current (λ q. can.not_idle (q ∙ kept.idleproc))
        (runnable_zombie (k₃.procs c).state dead₃)
        (subst (λ s. Ring s proc_list (l ++ c ∷ r)) (sym kept.links) can.listed)
        can.enough_listed in
    (
      k₄,
      do_exit_run fuel error_code k k₂ k₃ k₄ can.not_idle can.not_init wake adopt run away,
      record {
        dead = ap is_zombie (s.lives c).0 ∙ dead₃;
        code = (s.lives c).2 ∙ kept.exits c ∙ ground arith;
        childless = (s.kin c).3 ∙ none₃;
        adopted = Family-SameKin k₃ k₄ k.initproc (rev_onto cs is) s.kin fam₃;
        woken = λ waits. ap is_runnable (s.lives p).0 ∙ (kept₃.runnables p (woken waits)).0;
        elsewhere = away;
      },
    )
