-- ===== src/Wait/Children.antt =====
-- `do_wait` for any child: a zombie is taken out, without one the process sleeps, and without a
-- child it is told so.
use lab.Base.{
  ℕ, zero, suc, ◌+◌, ◌<◌, ◌≡◌, ◌≢◌, refl, sym, ◌∙◌, subst, Bool, true, false, if◌then◌else◌, List,
  [], ◌∷◌, ◌++◌, length, first, All, none, some, ne→not_eq, ℤ, pos, ok, arith,
}
use lab.Links.Ring.{Ring, list_del-Ring}
use lab.Proc.Family.{Siblings, Family}
use lab.Proc.Fields.{remove_links_links}
use lab.Proc.Leave.{remove_links-Family}
use lab.Proc.{Proc, Kernel, null, proc_list, is_zombie, is_runnable, remove_links, sleeping}
use lab.Sched.{schedule}
use lab.Exit.Done.{schedule_away}
use lab.Exit.{wt_child}
use lab.Wait.{
  HashList, found, alive, find_zombie, find_child, returned, slept, reap, fall_asleep, wait_round,
  do_wait, unhash_proc,
}

-- No zombie among the processes.
abbrev pub Alive : (ℕ → Proc) → List ℕ → Type 0
Alive procs cs = All (λ c. is_zombie (procs c).state ≡ false) cs

find_zombie-found :
    (fuel : ℕ) (procs : ℕ → Proc) (parent y : ℕ) (l : List ℕ) (z : ℕ) (r : List ℕ) (haskid : Bool)
    → Siblings procs parent y (l ++ z ∷ r)
    → Alive procs l
    → is_zombie (procs z).state ≡ true
    → length l < fuel
    → find_zombie fuel procs (first (l ++ z ∷ r) null) haskid ≡ ok (found z)
unfolding find_zombie
find_zombie-found zero procs parent y l z r haskid sib live dead enough = absurd (omega arith)
find_zombie-found (suc f) procs parent y [] z r haskid sib live dead enough =
    rw (ne→not_eq z null sib.0, dead) refl
find_zombie-found (suc f) procs parent y (x ∷ l) z r haskid sib live dead enough =
    rw (ne→not_eq x null sib.0, live.0, sib.3)
      (find_zombie-found f procs parent x l z r true sib.4 live.1 dead (omega arith))

find_zombie-alive :
    (fuel : ℕ) (procs : ℕ → Proc) (parent y : ℕ) (cs : List ℕ)
    → Siblings procs parent y cs
    → Alive procs cs
    → length cs < fuel
    → find_zombie fuel procs (first cs null) true ≡ ok alive
unfolding find_zombie
find_zombie-alive zero procs parent y cs sib live enough = absurd (omega arith)
find_zombie-alive (suc f) procs parent y [] sib live enough = refl
find_zombie-alive (suc f) procs parent y (c ∷ cs) sib live enough =
    rw (ne→not_eq c null sib.0, live.0, sib.3)
      (find_zombie-alive f procs parent c cs sib.4 live.1 (omega arith))

find_zombie-child :
    (fuel : ℕ) (procs : ℕ → Proc) (parent c : ℕ) (cs : List ℕ)
    → Siblings procs parent null (c ∷ cs)
    → Alive procs (c ∷ cs)
    → length cs + 1 < fuel
    → find_zombie fuel procs c false ≡ ok alive
unfolding find_zombie
find_zombie-child zero procs parent c cs sib live enough = absurd (omega arith)
find_zombie-child (suc f) procs parent c cs sib live enough =
    rw (ne→not_eq c null sib.0, live.0, sib.3)
      (find_zombie-alive f procs parent c cs sib.4 live.1 (omega arith))

do_wait_alive :
    (fuel : ℕ) (store : Bool) (pid : ℤ) (k k' : Kernel) (hash : HashList)
    → find_child fuel pid k hash ≡ ok alive
    → schedule fuel (fall_asleep k) ≡ ok k'
    → do_wait fuel store true pid k hash ≡ ok (slept k')
unfolding do_wait wait_round
do_wait_alive fuel true pid k k' hash e run = rw (e, run) refl
do_wait_alive fuel false pid k k' hash e run = rw (e, run) refl

do_wait_found :
    (fuel : ℕ) (store : Bool) (pid : ℤ) (k : Kernel) (hash : HashList) (z : ℕ)
    → find_child fuel pid k hash ≡ ok (found z)
    → z ≢ k.idleproc
    → z ≢ k.initproc
    → do_wait fuel store true pid k hash
      ≡ ok (
          returned
            (pos 0)
            (if store then some (k.procs z).exit_code else none)
            (remove_links z k)
            (unhash_proc z k hash))
unfolding do_wait wait_round reap
do_wait_found fuel true pid k hash z e ni nn =
    rw (e, ne→not_eq z k.idleproc ni, ne→not_eq z k.initproc nn) refl
do_wait_found fuel false pid k hash z e ni nn =
    rw (e, ne→not_eq z k.idleproc ni, ne→not_eq z k.initproc nn) refl

-- The current process has the children `others`, and the processes on the list are `list`.
pub record Reaped (k : Kernel) (others list : List ℕ) (k' : Kernel) : Type 0 where
  pub family : Family k'.procs k.current others
  pub listed : Ring k'.links proc_list list

-- If the current process has children and `z` is the youngest zombie among them, and neither the
-- idle process nor initproc, then `do_wait` for any child, with memory to store to and fuel for its
-- children, returns 0 with the exit code of `z` if that is asked for, takes `z` from the children, from the list of
-- processes and from its hash list, and leaves the other children and processes in order.
pub do_wait-Reaped :
    (fuel : ℕ) (store : Bool) (k : Kernel) (hash : HashList) (l : List ℕ) (z : ℕ) (r a b : List ℕ)
    → Family k.procs k.current (l ++ z ∷ r)
    → Alive k.procs l
    → is_zombie (k.procs z).state ≡ true
    → z ≢ k.idleproc
    → z ≢ k.initproc
    → Ring k.links proc_list (a ++ z ∷ b)
    → length l < fuel
    → (k' : Kernel) × (do_wait fuel store true (pos 0) k hash
        ≡ ok (
            returned
              (pos 0)
              (if store then some (k.procs z).exit_code else none)
              k'
              (unhash_proc z k hash)))
      × Reaped k (l ++ r) (a ++ b) k'
unfolding find_child
do_wait-Reaped fuel store k hash l z r a b fam live dead ni nn ring enough =
    let run =
      find_zombie-found fuel k.procs k.current null l z r false fam.siblings live dead enough in
    (
      remove_links z k,
      do_wait_found fuel store (pos 0) k hash z (rw fam.youngest run) ni nn,
      record {
        family = remove_links-Family k k.current z l r fam;
        listed =
            subst (λ s. Ring s proc_list (a ++ b)) (sym (remove_links_links z k))
              (list_del-Ring z a b ring);
      },
    )

-- If the current process, on the list of processes and not the idle one, has children and no zombie
-- among them, then `do_wait` for any child, with memory to store to and fuel for all children and
-- processes, puts it to sleep in WT_CHILD and runs another process.
pub do_wait-slept :
    (fuel : ℕ) (store : Bool) (k : Kernel) (hash : HashList) (c : ℕ) (cs a b : List ℕ)
    → Family k.procs k.current (c ∷ cs)
    → Alive k.procs (c ∷ cs)
    → k.current ≢ k.idleproc
    → Ring k.links proc_list (a ++ k.current ∷ b)
    → length cs + 1 < fuel
    → length a + length b + 1 < fuel
    → (k' : Kernel) × (do_wait fuel store true (pos 0) k hash ≡ ok (slept k'))
      × ((k'.procs k.current).state ≡ sleeping)
      × ((k'.procs k.current).wait_state ≡ wt_child)
      × (k'.current ≢ k.current)
unfolding fall_asleep find_child
do_wait-slept fuel store k hash c cs a b fam live ni ring kids enough =
    let (k', choice, run, s, away) =
      schedule_away (fall_asleep k) k.current fuel a b refl ni asleep.0 ring enough in
    let sleep : find_child fuel (pos 0) k hash ≡ ok alive =
      rw fam.youngest (find_zombie-child fuel k.procs k.current c cs fam.siblings live kids) in
    (
      k',
      do_wait_alive fuel store (pos 0) k k' hash sleep run,
      (s.lives k.current).0 ∙ asleep.1,
      (s.lives k.current).1 ∙ asleep.2,
      away,
    )
  where
    asleep :
        (is_runnable ((fall_asleep k).procs k.current).state ≡ false)
        × (((fall_asleep k).procs k.current).state ≡ sleeping)
        × (((fall_asleep k).procs k.current).wait_state ≡ wt_child)
    asleep = (ground arith, ground arith, ground arith)
