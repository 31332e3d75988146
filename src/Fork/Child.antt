-- ===== src/Fork/Child.antt =====
-- The child that `do_fork` starts.
use lab.Base.{
  ℕ, ◌+◌, ◌*◌, ◌%◌, ◌≤◌, ◌<◌, ◌≡◌, ◌≢◌, refl, sym, ◌∙◌, ap, subst, ◌&&◌, ltb, ◌==◌, ne→not_eq,
  ==_refl, if◌then◌else◌, if_true, if_false, run_ok, List, [], ◌∷◌, map, length, length-map, Absent,
  ℤ, pos, some, ok, arith,
}
use lab.Links.Ring.{Ring, list_add-Ring}
use lab.Proc.Store.{Same, Same-set, field-set}
use lab.Proc.Fields.{set_links_links}
use lab.Proc.Family.{Family, set_links-Family}
use lab.Proc.{Proc, Kernel, uninit, runnable, null, int_mod, proc_list, set_proc, set_links}
use lab.Sched.{wakeup_proc}
use lab.Exit.Kept.{SameKin}
use lab.Exit.Done.{Family-SameKin}
use lab.Pid.Clear.{Unused}
use lab.Pid.Unique.{IsValid}
use lab.Pid.Room.{get_pid-Unused}
use lab.Pid.{max_pid, get_pid}
use lab.Wait.Find.{hash_proc-find_proc}
use lab.Wait.{find_proc, hash_proc, pid_hashfn}
use lab.Task.{Trapframe, Thread, World, reg_a0, reg_sp, copy_thread}
use lab.Fork.Enter.{walk_list-Seg, set_links-Same, find_pid-Same, wakeup_proc-uninit}
use lab.Fork.{walk_list, enter_proc, start_child}

-- The pids of the processes `ps`.
abbrev pub pids_of : Kernel → List ℕ → List ℤ
pids_of k ps = map (λ p. (k.procs p).pid) ps

-- The new process `p` has its parent `c`, whose children are `cs`, and is not entered anywhere; `ps` are
-- the processes on `proc_list`.
pub record IsReady (fuel p c : ℕ) (cs ps : List ℕ) (w : World) : Type 0 where
  pub parent : (w.kernel.procs p).parent ≡ c
  pub fresh : (w.kernel.procs p).state ≡ uninit
  pub not_null : p ≢ null
  pub children : Family w.kernel.procs c cs
  pub not_child : Absent p cs
  pub listed : Ring w.kernel.links proc_list ps
  pub not_listed : Absent p (proc_list ∷ ps)
  pub valid : IsValid (pids_of w.kernel ps) w.pids
  pub few : length ps + 1 < max_pid
  pub enough : max_pid * (length ps + 1) + length ps < fuel

-- The child's trap frame: the parent's, with a0 = 0 and the stack that was asked for.
pub record IsCopy (stack : ℕ) (tf t : Trapframe) : Type 0 where
  pub zero_result : t.gpr reg_a0 ≡ 0
  pub own_stack : stack ≢ 0 → t.gpr reg_sp ≡ stack
  pub same_gpr : (r : ℕ) → r ≢ reg_a0 → r ≢ reg_sp → t.gpr r ≡ tf.gpr r
  pub same_epc : t.epc ≡ tf.epc
  pub same_status : t.status ≡ tf.status

-- `p` is the youngest child of `c`, with a pid that was unused, and may run.
pub record Forked (p c pid stack : ℕ) (cs ps : List ℕ) (tf : Trapframe) (w w' : World)
    : Type 0 where
  pub low : 1 ≤ pid
  pub high : pid < max_pid
  pub unused : Unused pid (pids_of w.kernel ps)
  pub found : find_proc (pos pid) w'.kernel w'.hash ≡ p
  pub can_run : (w'.kernel.procs p).state ≡ runnable
  pub youngest : Family w'.kernel.procs c (p ∷ cs)
  pub listed : Ring w'.kernel.links proc_list (p ∷ ps)
  pub counted : w'.kernel.nr_process ≡ (w.kernel.nr_process + 1) % int_mod
  pub frame : (t : Trapframe) × ((w'.threads p).tf ≡ some t) × IsCopy stack tf t
  pub current : w'.kernel.current ≡ w.kernel.current
  pub others : (q : ℕ) → q ≢ p → w'.threads q ≡ w.threads q

copy_thread-IsCopy :
    (p stack : ℕ) (tf : Trapframe) (w : World)
    → (t : Trapframe) × (((copy_thread p stack tf w).threads p).tf ≡ some t) × IsCopy stack tf t
unfolding copy_thread
copy_thread-IsCopy p stack tf w = (
  _,
  ap (λ (x : Thread). x.tf) (if_true (p == p) _ (w.threads p) (==_refl p)),
  record {
    zero_result = refl;
    own_stack = λ ne. if_false (stack == 0) _ stack (ne→not_eq stack 0 ne);
    same_gpr = λ r a s.
        if_false (r == reg_sp) _ _ (ne→not_eq r reg_sp s)
        ∙ if_false (r == reg_a0) 0 (tf.gpr r) (ne→not_eq r reg_a0 a);
    same_epc = refl;
    same_status = refl;
  },
)

-- A write that keeps the relations between processes.
SameKin-set :
    (k : Kernel) (p : ℕ) (r : Proc)
    → r.parent ≡ (k.procs p).parent
    → r.yptr ≡ (k.procs p).yptr
    → r.optr ≡ (k.procs p).optr
    → r.cptr ≡ (k.procs p).cptr
    → SameKin k (set_proc k p r)
SameKin-set k p r a b c d q = (
  field-set (λ x. x.parent) k.procs p q r a,
  field-set (λ x. x.yptr) k.procs p q r b,
  field-set (λ x. x.optr) k.procs p q r c,
  field-set (λ x. x.cptr) k.procs p q r d,
)

-- The kernel when the child has its pid, when it is linked, and when it is woken.
abbrev with_pid : ℕ → ℕ → Kernel → Kernel
with_pid p pid k = set_proc k p (record (k.procs p) { pid = pos pid })

abbrev woken : ℕ → Kernel → Kernel
woken p k = set_proc k p (record (k.procs p) { state = runnable; wait_state = 0 })

with_pid-pid : (p pid : ℕ) (k : Kernel) → ((with_pid p pid k).procs p).pid ≡ pos pid
with_pid-pid p pid k = ap (λ (x : Proc). x.pid) (if_true (p == p) _ (k.procs p) (==_refl p))

-- Pids are the same once the child has its own.
linked-pid :
    (p pid : ℕ) (k : Kernel)
    → Same (λ x. x.pid) (with_pid p pid k) (woken p (set_links p (with_pid p pid k)))
linked-pid p pid k =
    let k₁ = with_pid p pid k in
    let k₂ = set_links p k₁ in
    Same-set (λ x. x.pid) k₁ k₂ p (record (k₂.procs p) { state = runnable; wait_state = 0 })
      (set_links-Same (λ x. x.pid) p k₁ (λ r c y o. refl)) refl

linked-found :
    (p pid : ℕ) (w : World)
    → 1 ≤ pid
    → pid < max_pid
    → find_proc
        (pos pid)
        (woken p (set_links p (with_pid p pid w.kernel)))
        (hash_proc p (with_pid p pid w.kernel) w.hash)
      ≡ p
unfolding find_proc
linked-found p pid w low high =
    let k₁ = with_pid p pid w.kernel in
    let k₃ = woken p (set_links p k₁) in
    let hash = hash_proc p k₁ w.hash in
    ap (λ x. if ltb 0 pid && ltb pid max_pid then x else null)
      (find_pid-Same pid k₁.procs k₃.procs (hash (pid_hashfn pid)) (linked-pid p pid w.kernel))
    ∙ (hash_proc-find_proc k₁ w.hash p pid (with_pid-pid p pid w.kernel) low high).0

linked-Family :
    (fuel p c pid : ℕ) (cs ps : List ℕ) (w : World)
    → IsReady fuel p c cs ps w
    → Family (woken p (set_links p (with_pid p pid w.kernel))).procs c (p ∷ cs)
linked-Family fuel p c pid cs ps w h =
    let k = w.kernel in
    let k₁ = with_pid p pid k in
    let k₂ = set_links p k₁ in
    let same = SameKin-set k p (record (k.procs p) { pid = pos pid }) refl refl refl refl in
    let parent : (k₁.procs p).parent ≡ c = (same p).0 ∙ h.parent in
    let before = Family-SameKin k k₁ c cs same h.children in
    let after =
      subst (λ x. Family k₂.procs x (p ∷ cs)) parent
        (set_links-Family k₁ p cs (subst (λ x. Family k₁.procs x cs) (sym parent) before) h.not_null
          h.not_child) in
    Family-SameKin k₂ (woken p k₂) c (p ∷ cs)
      (SameKin-set k₂ p (record (k₂.procs p) { state = runnable; wait_state = 0 }) refl refl refl
        refl)
      after

linked-Ring :
    (fuel p c pid : ℕ) (cs ps : List ℕ) (w : World)
    → IsReady fuel p c cs ps w
    → Ring (set_links p (with_pid p pid w.kernel)).links proc_list (p ∷ ps)
linked-Ring fuel p c pid cs ps w h =
    subst (λ s. Ring s proc_list (p ∷ ps)) (sym (set_links_links p (with_pid p pid w.kernel)))
      (list_add-Ring p proc_list [] ps h.listed h.not_listed refl)

set_links-current : (p : ℕ) (k : Kernel) → (set_links p k).current ≡ k.current
unfolding set_links
set_links-current p k = ground arith

-- The end of `do_fork` gives the child a pid and starts it.
pub start_child-Forked :
    (fuel p c stack : ℕ) (cs ps : List ℕ) (tf : Trapframe) (w : World)
    → IsReady fuel p c cs ps w
    → (pid : ℕ) × (w' : World) × (start_child fuel p stack tf w ≡ ok (pos pid, w'))
      × Forked p c pid stack cs ps tf w w'
unfolding start_child enter_proc copy_thread set_links
start_child-Forked fuel p c stack cs ps tf w h =
    let k = w.kernel in
    let all = pids_of k ps in
    let size : length all ≡ length ps = length-map ps (λ q. (k.procs q).pid) in
    let (v, run, low, high, unused, valid) =
      get_pid-Unused fuel all w.pids h.valid (omega (arith, size, h.few)) (rw size h.enough) in
    let pid = v.last_pid in
    let k₁ = with_pid p pid k in
    let k₂ = set_links p k₁ in
    let fresh : (k₂.procs p).state ≡ uninit =
      set_links-Same (λ x. x.state) p k₁ (λ r a y o. refl) p
      ∙ ap (λ (x : Proc). x.state) (if_true (p == p) _ (k.procs p) (==_refl p))
      ∙ h.fresh in
    let w₀ = copy_thread p stack tf w in
    let w₂ : World = record w₀ { kernel = k₂; hash = hash_proc p k₁ w.hash; pids = v } in
    let w₃ : World = record w₂ { kernel = woken p k₂ } in
    let walk =
      walk_list-Seg fuel k.links proc_list ps h.listed.seg h.listed.distinct.0
        (omega (arith, h.enough)) in
    let entered : enter_proc fuel p w₀ ≡ ok w₂ =
      run_ok (walk_list fuel k.links proc_list) ps _ walk
      ∙ run_ok (get_pid fuel all w.pids) v _ run in
    (
      pid,
      w₃,
      run_ok (enter_proc fuel p w₀) w₂ _ entered
          ∙ run_ok (wakeup_proc p k₂) (woken p k₂) _ (wakeup_proc-uninit p k₂ fresh)
          ∙ ap (λ x. ok (x, w₃)) (linked-pid p pid k p ∙ with_pid-pid p pid k),
      record {
        low = low;
        high = high;
        unused = unused;
        found = linked-found p pid w low high;
        can_run = ap (λ (x : Proc). x.state) (if_true (p == p) _ (k₂.procs p) (==_refl p));
        youngest = linked-Family fuel p c pid cs ps w h;
        listed = linked-Ring fuel p c pid cs ps w h;
        counted = refl;
        frame = copy_thread-IsCopy p stack tf w;
        current = set_links-current p k₁;
        others = λ q ne. if_false (q == p) _ (w.threads q) (ne→not_eq q p ne);
      },
    )
