-- ===== src/Sched/RoundRobin.antt =====
-- `schedule` takes the first runnable process behind the current one, around the list.
use lab.Base.{
  true, ℕ, zero, suc, ◌+◌, ◌-◌, ◌%◌, ◌<◌, ◌≡◌, ◌≢◌, refl, sym, ap, subst, ◌∙◌, ◌⊎◌, inl, inr, false,
  List, [], ◌∷◌, ◌++◌, length, last, Absent, Absent-split, Distinct-middle, append-nil,
  if◌then◌else◌, Bool-cases, ==_iff, ne→not_eq, Outcome, ok, arith,
}
use lab.Links.{list_next}
use lab.Links.Ring.{Seg, Ring, Seg-split, Seg-last}
use lab.Proc.{Proc, Kernel, null, proc_list, is_runnable, set_proc, int_mod, proc_run}
use lab.Sched.{find_next, or_idle, run_next, schedule}

-- The first runnable process of a list, and the idle process if there is none.
unfoldable pub first_runnable : (ℕ → Proc) → ℕ → List ℕ → ℕ
first_runnable procs idle [] = idle
first_runnable procs idle (p ∷ ps) =
    if is_runnable (procs p).state then p else first_runnable procs idle ps

-- A process that `schedule` would pass over.
abbrev Stale : Kernel → ℕ → Type 0
Stale k next = or_idle k next ≡ k.idleproc

module _ (k : Kernel) (stop : ℕ) where
  -- The walk along a piece of the list that does not hold `stop`: it ends at a runnable process, or
  -- goes on behind the piece.
  find_next-walk :
      (fuel g a z next : ℕ) (xs : List ℕ)
      → fuel ≡ length xs + g
      → Seg k.links a xs z
      → Absent stop xs
      → Absent proc_list xs
      → Stale k next
      → ((p : ℕ) × (find_next fuel stop a next k ≡ ok p)
          × ((ys : List ℕ) → first_runnable k.procs k.idleproc (xs ++ ys) ≡ or_idle k p))
        ⊎ ((next' : ℕ) × (find_next fuel stop a next k ≡ find_next g stop (last a xs) next' k)
            × Stale k next'
            × ((ys : List ℕ)
                → first_runnable k.procs k.idleproc (xs ++ ys)
                  ≡ first_runnable k.procs k.idleproc ys))
  unfolding find_next first_runnable list_next
  find_next-walk fuel g a z next [] e seg s0 p0 stale =
      inr (next, ap (λ f. find_next f stop a next k) (omega arith), stale, λ ys. refl)
  find_next-walk zero g a z next (x ∷ xs) e seg s0 p0 stale = absurd (omega arith)
  find_next-walk (suc f) g a z next (x ∷ xs) e seg s0 p0 stale =
      elim (Bool-cases (is_runnable (k.procs x).state)) [
        | inl run ↦ inl (x, ground (arith, seg, p0), λ ys. ground (arith, p0))
        | inr stay ↦
            let step : find_next (suc f) stop a next k ≡ find_next f stop x x k =
              ground (arith, seg, s0, p0) in
            elim (find_next-walk f g x z x xs (omega arith) seg.2 s0.1 p0.1 (ground arith)) [
              | inl (p, run, e) ↦ inl (p, step ∙ run, λ ys. ground (arith, e ys))
              | inr (n, run, st, e) ↦ inr (n, step ∙ run, st, λ ys. ground (arith, e ys))
            ]
      ]

abbrev Finds : Kernel → List ℕ → Outcome ℕ → Type 0
Finds k queue o = (p : ℕ) × (o ≡ ok p) × (or_idle k p ≡ first_runnable k.procs k.idleproc queue)

module _ (k : Kernel) (fuel : ℕ) where
  -- From the head of the list, for the idle process.
  find_next-all :
      (xs : List ℕ)
      → Ring k.links proc_list xs
      → length xs < fuel
      → Finds k xs (find_next fuel proc_list proc_list null k)
  unfolding find_next first_runnable list_next
  find_next-all xs ring enough =
      let back = Seg-last k.links proc_list xs proc_list ring.seg in
      elim (find_next-walk k proc_list fuel (suc (fuel - length xs - 1)) proc_list proc_list null xs
        (omega arith) ring.seg ring.distinct.0 ring.distinct.0 refl) [
          | inl (p, run, e) ↦
              (p, run, sym (e []) ∙ ap (first_runnable k.procs k.idleproc) (append-nil xs))
          | inr (n, run, st, e) ↦ (
            n,
            run ∙ ground (arith, back),
            st ∙ sym (e []) ∙ ap (first_runnable k.procs k.idleproc) (append-nil xs),
          )
        ]

  -- From a process on the list, once around.
  find_next-around :
      (c : ℕ) (l r : List ℕ)
      → Ring k.links proc_list (l ++ c ∷ r)
      → length l + length r + 1 < fuel
      → Finds k (r ++ (l ++ c ∷ [])) (find_next fuel c c null k)
  unfolding find_next first_runnable list_next
  find_next-around c l r ring enough =
      let (front, back) = Seg-split k.links proc_list l c r proc_list ring.seg in
      let (c_l, c_r) = Distinct-middle c l r ring.distinct.1 in
      let (h_l, h_cr) = Absent-split proc_list l (c ∷ r) ring.distinct.0 in
      let g = fuel - length r - 1 in
      elim (find_next-walk k c fuel (suc g) c proc_list null r (omega arith) back c_r h_cr.1 refl) [
        | inl (p, run, e) ↦ (p, run, sym (e (l ++ c ∷ [])))
        | inr (n, run, st, e) ↦
            let hop : find_next (suc g) c (last c r) n k ≡ find_next g c proc_list n k =
              ground (arith, Seg-last k.links c r proc_list back, h_cr.0) in
            elim (find_next-walk k c g (suc (g - length l - 1)) proc_list c n l (omega arith) front
              c_l h_l st) [
                | inl (p, run', e') ↦ (p, run ∙ hop ∙ run', sym (e (l ++ c ∷ []) ∙ e' (c ∷ [])))
                | inr (m, run', st', e') ↦ (
                  c,
                  run ∙ hop ∙ run' ∙ ground (arith, Seg-last k.links proc_list l c front, h_cr.0),
                  ground (arith, h_cr.0) ∙ sym (e (l ++ c ∷ []) ∙ e' (c ∷ [])),
                )
              ]
      ]

-- What a call of `schedule` does if the process to run next is `choice`: it runs then, on its page
-- table, with one more run counted; the list, states and relations of the processes stay.
pub record Scheduled (k : Kernel) (choice : ℕ) (k' : Kernel) : Type 0 where
  pub chosen : k'.current ≡ choice
  pub counted : (k'.procs choice).runs ≡ ((k.procs choice).runs + 1) % int_mod
  pub paged : choice ≢ k.current → k'.satp ≡ (k.procs choice).pgdir
  pub settled : (k'.procs k.current).need_resched ≡ false
  pub listed : k'.links ≡ k.links
  pub lives :
      (q : ℕ)
      → ((k'.procs q).state ≡ (k.procs q).state)
        × ((k'.procs q).wait_state ≡ (k.procs q).wait_state)
        × ((k'.procs q).exit_code ≡ (k.procs q).exit_code)
  pub kin :
      (q : ℕ)
      → ((k'.procs q).parent ≡ (k.procs q).parent)
        × ((k'.procs q).yptr ≡ (k.procs q).yptr)
        × ((k'.procs q).optr ≡ (k.procs q).optr)
        × ((k'.procs q).cptr ≡ (k.procs q).cptr)

abbrev pub rest_current : Kernel → Kernel
rest_current k = set_proc k k.current (record (k.procs k.current) { need_resched = false })

first_runnable-rest :
    (k : Kernel) (idle : ℕ) (xs : List ℕ)
    → first_runnable (rest_current k).procs idle xs ≡ first_runnable k.procs idle xs
unfolding first_runnable
first_runnable-rest k idle [] = refl
first_runnable-rest k idle (x ∷ xs) = ground (arith, first_runnable-rest k idle xs)

run_next-Scheduled :
    (k : Kernel) (choice : ℕ) → Scheduled k choice (run_next choice (rest_current k))
unfolding run_next proc_run
run_next-Scheduled k choice = record {
  chosen = ground arith;
  counted = ground arith;
  paged = λ other. ground arith;
  settled = ground arith;
  listed = ground arith;
  lives = λ q. (ground arith, ground arith, ground arith);
  kin = λ q. (ground arith, ground arith, ground arith, ground arith);
}

pub first_runnable_cases :
    (procs : ℕ → Proc) (idle : ℕ) (xs : List ℕ)
    → (is_runnable (procs (first_runnable procs idle xs)).state ≡ true)
      ⊎ (first_runnable procs idle xs ≡ idle)
unfolding first_runnable
first_runnable_cases procs idle [] = inr refl
first_runnable_cases procs idle (x ∷ xs) = elim (Bool-cases (is_runnable (procs x).state)) [
  | inl run ↦ inl (rw run run)
  | inr stay ↦ rw stay (first_runnable_cases procs idle xs)
]

-- In the idle process, with the list of processes `xs` and fuel for all of them, `schedule` runs the
-- first runnable process of the list; the idle process goes on if there is none.
pub schedule-idle :
    (k : Kernel) (fuel : ℕ) (xs : List ℕ)
    → k.current ≡ k.idleproc
    → Ring k.links proc_list xs
    → length xs < fuel
    → (k' : Kernel) × (schedule fuel k ≡ ok k')
      × Scheduled k (first_runnable k.procs k.idleproc xs) k'
unfolding schedule
schedule-idle k fuel xs idle ring enough =
    let (p, run, e) = find_next-all (rest_current k) fuel xs ring enough in
    let choice = e ∙ first_runnable-rest k k.idleproc xs in
    (
      run_next (or_idle (rest_current k) p) (rest_current k),
      rw ((==_iff k.current k.idleproc).1 idle, run) refl,
      subst (λ c. Scheduled k c (run_next (or_idle (rest_current k) p) (rest_current k))) choice
          (run_next-Scheduled k (or_idle (rest_current k) p)),
    )

-- In a process `c` on the list of processes, with fuel for all of them, `schedule` runs the first
-- runnable process behind `c`, around the list and with `c` itself last; if there is none, the idle
-- process.
pub schedule-round_robin :
    (k : Kernel) (fuel : ℕ) (l r : List ℕ)
    → k.current ≢ k.idleproc
    → Ring k.links proc_list (l ++ k.current ∷ r)
    → length l + length r + 1 < fuel
    → (k' : Kernel) × (schedule fuel k ≡ ok k')
      × Scheduled k (first_runnable k.procs k.idleproc (r ++ (l ++ k.current ∷ []))) k'
unfolding schedule
schedule-round_robin k fuel l r other ring enough =
    let (p, run, e) = find_next-around (rest_current k) fuel k.current l r ring enough in
    let choice = e ∙ first_runnable-rest k k.idleproc (r ++ (l ++ k.current ∷ [])) in
    (
      run_next (or_idle (rest_current k) p) (rest_current k),
      rw (ne→not_eq k.current k.idleproc other, run) refl,
      subst (λ c. Scheduled k c (run_next (or_idle (rest_current k) p) (rest_current k))) choice
          (run_next-Scheduled k (or_idle (rest_current k) p)),
    )
