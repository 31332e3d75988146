-- ===== src/Fork/Enter.antt =====
-- What `do_fork` does with a child that has its memory: the pid, the hash list, the links and the
-- wake-up.
use lab.Base.{
  ℕ, zero, suc, ◌<◌, ◌≡◌, refl, sym, ◌∙◌, ap, not, ◌==◌, ne→not_eq, if◌then◌else◌, if_true,
  if_false, run_ok, List, [], ◌∷◌, length, Absent, ok, arith, assert, ◌>>=◌,
}
use lab.Links.{Links, list_next, list_add}
use lab.Links.Ring.{Seg}
use lab.Proc.Store.{Same, Same-set, Same-if}
use lab.Proc.{
  Proc, Kernel, uninit, runnable, null, proc_list, set_proc, set_links, is_zombie, is_runnable,
}
use lab.Sched.{wakeup_proc}
use lab.Wait.{find_pid}
use lab.Fork.{walk_list}

pub walk_list-Seg :
    (fuel : ℕ) (s : Links) (a : ℕ) (ps : List ℕ)
    → Seg s a ps proc_list
    → Absent proc_list ps
    → length ps < fuel
    → walk_list fuel s a ≡ ok ps
unfolding walk_list list_next
walk_list-Seg zero s a ps h ab lt = ground (arith, lt)
walk_list-Seg (suc fuel) s a [] h ab lt =
    if_true (s.next a == proc_list) _ _ (ap (λ x. x == proc_list) h.0)
walk_list-Seg (suc fuel) s a (p ∷ ps) h ab lt =
    if_false (s.next a == proc_list) _ _
      (ap (λ x. x == proc_list) h.0 ∙ ne→not_eq p proc_list (λ e. ab.0 (sym e)))
    ∙ ap (λ x. walk_list fuel s x >>= λ qs. ok (x ∷ qs)) h.0
    ∙ run_ok (walk_list fuel s p) ps _ (walk_list-Seg fuel s p ps h.2 ab.1 (omega (arith, lt)))

-- `set_links` writes nothing but the pointers between processes.
pub set_links-Same :
    {A : Type 0} (φ : Proc → A) (proc : ℕ) (k : Kernel)
    → ((r : Proc) (c y o : ℕ) → φ (record r { cptr = c; yptr = y; optr = o }) ≡ φ r)
    → Same φ k (set_links proc k)
unfolding set_links
set_links-Same φ proc k h =
    let k₁ : Kernel = record k { links = list_add proc_list proc k.links } in
    let k₂ : Kernel = set_proc k₁ proc (record (k₁.procs proc) { yptr = null }) in
    let parent = (k₂.procs proc).parent in
    let older = (k₂.procs parent).cptr in
    let k₃ : Kernel = set_proc k₂ proc (record (k₂.procs proc) { optr = older }) in
    let k₄ : Kernel =
      (if older == null then k₃ else set_proc k₃ older (record (k₃.procs older) { yptr = proc })) in
    let s₂ : Same φ k k₂ =
      Same-set φ k k₁ proc (record (k₁.procs proc) { yptr = null }) (λ q. refl)
        (h (k.procs proc) _ _ _) in
    let s₃ : Same φ k k₃ =
      Same-set φ k k₂ proc (record (k₂.procs proc) { optr = older }) s₂ (h (k₂.procs proc) _ _ _) in
    let s₄ : Same φ k k₄ = Same-if φ k (older == null) k₃ _ s₃ (
      Same-set φ k k₃ older (record (k₃.procs older) { yptr = proc }) s₃
        (h (k₃.procs older) _ _ _)) in
    let r : Proc = record (k₄.procs parent) { cptr = proc } in
    let s₅ : Same φ k (set_proc k₄ parent r) =
      Same-set φ k k₄ parent r s₄ (h (k₄.procs parent) _ _ _) in
    s₅

-- A search by pid reads nothing but pids.
pub find_pid-Same :
    (pid : ℕ) (procs procs' : ℕ → Proc) (ps : List ℕ)
    → ((q : ℕ) → (procs' q).pid ≡ (procs q).pid)
    → find_pid pid procs' ps ≡ find_pid pid procs ps
unfolding find_pid
find_pid-Same pid procs procs' [] h = refl
find_pid-Same pid procs procs' (p ∷ ps) h = rw (h p, find_pid-Same pid procs procs' ps h) refl

-- A new process is woken.
pub wakeup_proc-uninit :
    (p : ℕ) (k : Kernel)
    → (k.procs p).state ≡ uninit
    → wakeup_proc p k ≡ ok (set_proc k p (record (k.procs p) { state = runnable; wait_state = 0 }))
unfolding wakeup_proc
wakeup_proc-uninit p k e =
    run_ok (assert (not (is_zombie (k.procs p).state))) tt _
      (ap (λ s. assert (not (is_zombie s))) e)
    ∙ if_false (is_runnable (k.procs p).state) _ _ (ap is_runnable e)
