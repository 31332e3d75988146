-- ===== src/Exit/Kept.antt =====
-- What waking a process and moving a child leave as it was.
use lab.Base.{
  if◌then◌else◌, ℕ, ◌≡◌, ◌≢◌, refl, ◌∙◌, ap, true, false, inl, inr, ◌==◌, Bool-cases, ok, arith,
}
use lab.Proc.Store.{Same, Same-set, Same-if}
use lab.Proc.{Proc, null, runnable, set_proc, Kernel, is_zombie, is_runnable}
use lab.Sched.{wakeup_proc}
use lab.Exit.Relink.{Moved, relink_child-Moved}
use lab.Exit.{wt_child, wakeup_waiting, disown_child, give_child, relink_child, adopt_child}

-- Zombies are the same, runnable processes stay so, and the globals are the same.
pub record Kept (k k' : Kernel) : Type 0 where
  pub zombies : (q : ℕ) → is_zombie (k'.procs q).state ≡ is_zombie (k.procs q).state
  pub runnables :
      (q : ℕ)
      → is_runnable (k.procs q).state ≡ true
      → (is_runnable (k'.procs q).state ≡ true) × ((k'.procs q).wait_state ≡ (k.procs q).wait_state)
  pub exits : (q : ℕ) → (k'.procs q).exit_code ≡ (k.procs q).exit_code
  pub links : k'.links ≡ k.links
  pub current : k'.current ≡ k.current
  pub idleproc : k'.idleproc ≡ k.idleproc
  pub initproc : k'.initproc ≡ k.initproc

pub Kept-refl : (k : Kernel) → Kept k k
Kept-refl k = record {
  zombies = λ q. refl;
  runnables = λ q r. (r, refl);
  exits = λ q. refl;
  links = refl;
  current = refl;
  idleproc = refl;
  initproc = refl;
}

pub Kept-trans : {k₁ k₂ k₃ : Kernel} → Kept k₁ k₂ → Kept k₂ k₃ → Kept k₁ k₃
Kept-trans a b = record {
  zombies = λ q. b.zombies q ∙ a.zombies q;
  runnables = λ q r. let s = a.runnables q r in let t = b.runnables q s.0 in (t.0, t.1 ∙ s.1);
  exits = λ q. b.exits q ∙ a.exits q;
  links = b.links ∙ a.links;
  current = b.current ∙ a.current;
  idleproc = b.idleproc ∙ a.idleproc;
  initproc = b.initproc ∙ a.initproc;
}

-- The relations between processes are the same.
abbrev pub SameKin : Kernel → Kernel → Type 0
SameKin k k' =
    (q : ℕ)
    → ((k'.procs q).parent ≡ (k.procs q).parent)
      × ((k'.procs q).yptr ≡ (k.procs q).yptr)
      × ((k'.procs q).optr ≡ (k.procs q).optr)
      × ((k'.procs q).cptr ≡ (k.procs q).cptr)

-- A process that is no zombie is woken, and is runnable then.
wakeup_proc-Kept :
    (p : ℕ) (k : Kernel)
    → is_zombie (k.procs p).state ≡ false
    → (k' : Kernel) × (wakeup_proc p k ≡ ok k')
      × Kept k k'
      × SameKin k k'
      × (is_runnable (k'.procs p).state ≡ true)
unfolding wakeup_proc
wakeup_proc-Kept p k alive = elim (Bool-cases (is_runnable (k.procs p).state)) [
  | inl run ↦ (k, rw (alive, run), Kept-refl k, (λ q. (refl, refl, refl, refl)), run)
  | inr stay ↦ (
    set_proc k p (record (k.procs p) { state = runnable; wait_state = 0 }),
    rw (alive, stay) refl,
    record {
      zombies = λ q. ground arith;
      runnables = λ q r. (ground arith, ground arith);
      exits = λ q. ground arith;
      links = refl;
      current = refl;
      idleproc = refl;
      initproc = refl;
    },
    (λ q. (ground arith, ground arith, ground arith, ground arith)),
    ground arith,
  )
]

pub wakeup_waiting-Kept :
    (p : ℕ) (k : Kernel)
    → is_zombie (k.procs p).state ≡ false
    → (k' : Kernel) × (wakeup_waiting p k ≡ ok k')
      × Kept k k'
      × SameKin k k'
      × ((k.procs p).wait_state ≡ wt_child → is_runnable (k'.procs p).state ≡ true)
wakeup_waiting-Kept p k alive = elim (Bool-cases ((k.procs p).wait_state == wt_child)) [
  | inl waits ↦
      let (k', run, kept, kin, woken) = wakeup_proc-Kept p k alive in
      (k', rw (waits, run) refl, kept, kin, (λ e. woken))
  | inr not_so ↦
      (k, rw not_so refl, Kept-refl k, (λ q. (refl, refl, refl, refl)), λ e. ground arith)
]

-- A change of the relations only.
record SameLife (k k' : Kernel) : Type 0 where
  state : (q : ℕ) → (k'.procs q).state ≡ (k.procs q).state
  wait_state : (q : ℕ) → (k'.procs q).wait_state ≡ (k.procs q).wait_state
  exit_code : (q : ℕ) → (k'.procs q).exit_code ≡ (k.procs q).exit_code

-- `give_child` keeps a field that it does not write.
give_child-Same :
    {A : Type 0} (φ : Proc → A) (proc : ℕ) (k : Kernel)
    → ((r : Proc) (v : ℕ)
        → (φ (record r { yptr = v }) ≡ φ r)
          × (φ (record r { optr = v }) ≡ φ r)
          × (φ (record r { parent = v }) ≡ φ r)
          × (φ (record r { cptr = v }) ≡ φ r))
    → Same φ k (give_child proc k)
unfolding give_child
give_child-Same φ proc k keeps =
    let k₁ = set_proc k proc (record (k.procs proc) { yptr = null }) in
    let older = (k₁.procs k.initproc).cptr in
    let k₂ = set_proc k₁ proc (record (k₁.procs proc) { optr = older }) in
    let r₃ = record (k₂.procs older) { yptr = proc } in
    let k₃ = if older == null then k₂ else set_proc k₂ older r₃ in
    let r₄ = record (k₃.procs proc) { parent = k.initproc } in
    let k₄ = set_proc k₃ proc r₄ in
    let s₁ =
      Same-set φ k k proc (record (k.procs proc) { yptr = null }) (λ q. refl)
        (keeps (k.procs proc) null).0 in
    let s₂ =
      Same-set φ k k₁ proc (record (k₁.procs proc) { optr = older }) s₁
        (keeps (k₁.procs proc) older).1 in
    let s₃ =
      Same-if φ k (older == null) k₂ (set_proc k₂ older r₃) s₂
        (Same-set φ k k₂ older r₃ s₂ (keeps (k₂.procs older) proc).0) in
    let s₄ = Same-set φ k k₃ proc r₄ s₃ (keeps (k₃.procs proc) k.initproc).2 in
    Same-set φ k k₄ k.initproc (record (k₄.procs k.initproc) { cptr = proc }) s₄
      (keeps (k₄.procs k.initproc) proc).3

give_child-SameLife : (proc : ℕ) (k : Kernel) → SameLife k (give_child proc k)
give_child-SameLife proc k = record {
  state = give_child-Same (λ r. r.state) proc k (λ r v. (refl, refl, refl, refl));
  wait_state = give_child-Same (λ r. r.wait_state) proc k (λ r v. (refl, refl, refl, refl));
  exit_code = give_child-Same (λ r. r.exit_code) proc k (λ r v. (refl, refl, refl, refl));
}

disown_child-SameLife : (proc : ℕ) (k : Kernel) → SameLife k (disown_child proc k)
unfolding disown_child
disown_child-SameLife proc k =
    let r = record (k.procs k.current) { cptr = (k.procs proc).optr } in
    record {
      state = Same-set (λ x. x.state) k k k.current r (λ q. refl) refl;
      wait_state = Same-set (λ x. x.wait_state) k k k.current r (λ q. refl) refl;
      exit_code = Same-set (λ x. x.exit_code) k k k.current r (λ q. refl) refl;
    }

relink_child-Kept : (proc : ℕ) (k : Kernel) → Kept k (relink_child proc k)
unfolding relink_child give_child disown_child
relink_child-Kept proc k =
    let d = disown_child-SameLife proc k in
    let g = give_child-SameLife proc (disown_child proc k) in
    record {
      zombies = λ q. ap is_zombie (g.state q ∙ d.state q);
      runnables =
          λ q r. (ap is_runnable (g.state q ∙ d.state q) ∙ r, g.wait_state q ∙ d.wait_state q);
      exits = λ q. g.exit_code q ∙ d.exit_code q;
      links = globals.0;
      current = globals.1;
      idleproc = globals.2;
      initproc = globals.3;
    }
  where
    older : ℕ
    older = ((disown_child proc k).procs k.initproc).cptr

    globals :
        ((relink_child proc k).links ≡ k.links)
        × ((relink_child proc k).current ≡ k.current)
        × ((relink_child proc k).idleproc ≡ k.idleproc)
        × ((relink_child proc k).initproc ≡ k.initproc)
    globals = (ground arith, ground arith, ground arith, ground arith)

Moved-SameKin :
    (k k₁ k₂ : Kernel) (p c heir older : ℕ)
    → Moved k.procs k₁.procs p c heir older
    → SameKin k₁ k₂
    → Moved k.procs k₂.procs p c heir older
Moved-SameKin k k₁ k₂ p c heir older m kin = record {
  parent_proc = (kin p).0 ∙ m.parent_proc;
  parent_same = λ q ne. (kin q).0 ∙ m.parent_same q ne;
  optr_proc = (kin p).2 ∙ m.optr_proc;
  optr_same = λ q ne. (kin q).2 ∙ m.optr_same q ne;
  yptr_proc = λ ne. (kin p).1 ∙ m.yptr_proc ne;
  yptr_older = λ ne. (kin older).1 ∙ m.yptr_older ne;
  yptr_same = λ q ne no_older. (kin q).1 ∙ m.yptr_same q ne no_older;
  cptr_heir = (kin heir).3 ∙ m.cptr_heir;
  cptr_c = (kin c).3 ∙ m.cptr_c;
}

-- A round of the loop.
pub adopt_child-Moved :
    (proc : ℕ) (k : Kernel) (older : ℕ)
    → (k.procs k.initproc).cptr ≡ older
    → k.current ≢ k.initproc
    → is_zombie (k.procs k.initproc).state ≡ false
    → (k' : Kernel) × (adopt_child proc k ≡ ok k')
      × Kept k k'
      × Moved k.procs k'.procs proc k.current k.initproc older
unfolding adopt_child
adopt_child-Moved proc k older e other alive =
    let k₁ = relink_child proc k in
    let relinked = relink_child-Kept proc k in
    let m = relink_child-Moved proc k older e other in
    elim (Bool-cases (is_zombie (k₁.procs proc).state)) [
      | inl dead ↦
          let (k', run, kept, kin, woken) =
            wakeup_waiting-Kept k₁.initproc k₁
              (relinked.zombies k₁.initproc ∙ rw relinked.initproc alive) in
          (
            k',
            rw (dead, run) refl,
            Kept-trans relinked kept,
            Moved-SameKin k k₁ k' proc k.current k.initproc older m kin,
          )
      | inr live ↦ (k₁, rw live refl, relinked, m)
    ]
