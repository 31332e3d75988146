-- ===== src/Trap/Forks.antt =====
-- A user program that calls `fork`: both processes go on behind the call.
use lab.Base.{
  ℕ, subst, ◌+◌, ◌%◌, ◌^◌, ◌≤◌, ◌<◌, ◌≡◌, ◌≢◌, refl, sym, ap, ◌∙◌, ◌==◌, ==_refl, ==_iff,
  Bool-cases, inl, inr, ne→not_eq, if_true, if_false, run_ok, update, List, none, some, pos, ok,
  panic, ◌>>=◌, arith,
}
use lab.Paging.{Machine, alloc_pages}
use lab.Proc.{runnable}
use lab.Pid.{max_process, max_pid}
use lab.Wait.{find_proc}
use lab.Space.{Bytes}
use lab.Task.{Trapframe, Thread, World, Heap, reg_a0, reg_sp, kstack_pages}
use lab.Fork.Child.{Forked, IsCopy}
use lab.Fork.Made.{IsFree, HasMm}
use lab.Fork.Whole.{do_fork-Forked}
use lab.Fork.{do_fork}
use lab.Syscall.{Outside, answers, sys_fork, call, syscall, give_result, set_result, call_number}
use lab.Print.{to_int}
use lab.Trap.Dispatch.{Machinery, comes_back, skip_call, set_frame, handle_call, exception_handler}

-- The world in which the call is made.
abbrev calling : Trapframe → World → World
calling tf w = set_frame (some (skip_call tf)) w

calling-IsFree :
    (fuel p : ℕ) (cs ps : List ℕ) (tf : Trapframe) (w : World)
    → IsFree fuel p cs ps w
    → IsFree fuel p cs ps (calling tf w)
calling-IsFree fuel p cs ps tf w f = record {
  not_null = f.not_null;
  not_current = f.not_current;
  children = f.children;
  not_child = f.not_child;
  listed = f.listed;
  not_listed = f.not_listed;
  valid = f.valid;
  few = f.few;
  enough = f.enough;
}

-- The thread of the caller.
caller :
    (tf : Trapframe) (w : World)
    → (calling tf w).threads w.kernel.current
      ≡ record (w.threads w.kernel.current) { tf = some (skip_call tf) }
caller tf w =
    if_true (w.kernel.current == w.kernel.current) _ (w.threads w.kernel.current)
      (==_refl w.kernel.current)

-- The frame behind the instruction `ecall`, which has four bytes.
abbrev past_call : Trapframe → Trapframe
past_call tf = record tf { epc = (tf.epc + 4) % 2 ^ 64 }

-- The child's frame behind the call `tf`: 0 in a0, and every other register, the stack pointer too, is that
-- of the call.
pub record IsSame (tf t : Trapframe) : Type 0 where
  pub zero_result : t.gpr reg_a0 ≡ 0
  pub same_gpr : (r : ℕ) → r ≢ reg_a0 → t.gpr r ≡ tf.gpr r
  pub same_epc : t.epc ≡ tf.epc
  pub same_status : t.status ≡ tf.status

-- Both processes after the call: the child `p` and the caller `c` behind the instruction, with the results 0
-- and `pid`.
pub record Twice (p c pid : ℕ) (tf : Trapframe) (w : World) : Type 0 where
  pub low : 1 ≤ pid
  pub high : pid < max_pid
  pub found : find_proc (pos pid) w.kernel w.hash ≡ p
  pub can_run : (w.kernel.procs p).state ≡ runnable
  pub still : w.kernel.current ≡ c
  pub child : (t : Trapframe) × ((w.threads p).tf ≡ some t) × IsSame (past_call tf) t
  pub caller_frame :
      (w.threads c).tf ≡ some (record (past_call tf) { gpr = update tf.gpr reg_a0 pid })

fork_number : (n : ℕ) → n ≡ 2 → call_number (to_int n) ≡ some 2
fork_number n e = ap (λ x. call_number (to_int x)) e

syscall-forks :
    (rounds fuel pid : ℕ) (outside : Outside) (tf : Trapframe) (bytes : Bytes) (w w' : World)
    → tf.gpr reg_a0 ≡ 2
    → do_fork fuel outside.heap 0 (tf.gpr reg_sp) tf w ≡ ok (pos pid, w')
    → syscall rounds fuel outside tf bytes w
      ≡ ok (give_result w.kernel.current (answers (pos pid) none w' bytes))
unfolding syscall call sys_fork
syscall-forks rounds fuel pid outside tf bytes w w' e run =
    ap
      (λ n. elim n [
        | none ↦ panic
        | some num ↦ (do
          result ← call rounds fuel outside tf num bytes w
          ok (give_result w.kernel.current result))
      ])
      (fork_number (tf.gpr reg_a0) e)
    ∙ run_ok (sys_fork fuel outside tf bytes w) (answers (pos pid) none w' bytes) _
        (run_ok (do_fork fuel outside.heap 0 (tf.gpr reg_sp) tf w) (pos pid, w') _ run)

-- The caller's frame with the result in a0.
answered :
    (c pid : ℕ) (tf : Trapframe) (w : World)
    → (w.threads c).tf ≡ some tf
    → pid < max_pid
    → (update w.threads c (set_result (pos pid) (w.threads c)) c).tf
      ≡ some (record tf { gpr = update tf.gpr reg_a0 pid })
answered c pid tf w e lt =
    ap (λ (x : Thread). x.tf)
      (if_true (c == c) (set_result (pos pid) (w.threads c)) (w.threads c) (==_refl c))
    ∙ ap
        (λ o.
          let x : Thread = elim o [
            | none ↦ w.threads c
            | some t ↦ record (w.threads c) {
              tf = some (record t { gpr = update t.gpr reg_a0 (pid % 2 ^ 64) });
            }
          ] in
          x.tf)
        e
    ∙ ap (λ n. some (record tf { gpr = update tf.gpr reg_a0 n })) (omega arith)

-- fork asks for the caller's own stack.
IsCopy-IsSame : (tf t : Trapframe) → tf.gpr reg_sp ≢ 0 → IsCopy (tf.gpr reg_sp) tf t → IsSame tf t
IsCopy-IsSame tf t has_stack copy = record {
  zero_result = copy.zero_result;
  same_gpr = λ r ne. elim (Bool-cases (r == reg_sp)) [
    | inl e ↦
        let at : r ≡ reg_sp = (==_iff r reg_sp).0 e in
        ap t.gpr at ∙ copy.own_stack has_stack ∙ sym (ap tf.gpr at)
    | inr e ↦ copy.same_gpr r ne (λ at. ground (arith, e, at))
  ];
  same_epc = copy.same_epc;
  same_status = copy.same_status;
}

Forked-Twice :
    (p pid : ℕ) (cs ps : List ℕ) (tf : Trapframe) (w w' : World)
    → tf.gpr reg_sp ≢ 0
    → w.kernel.current ≢ p
    → Forked p w.kernel.current pid (tf.gpr reg_sp) cs ps (skip_call tf) (calling tf w) w'
    → Twice p w.kernel.current pid tf (record w' {
      threads =
          update w'.threads w.kernel.current (set_result (pos pid) (w'.threads w.kernel.current));
    })
Forked-Twice p pid cs ps tf w w' has_stack ne f =
    let c = w.kernel.current in
    let kept : (w'.threads c).tf ≡ some (skip_call tf) =
      ap (λ (x : Thread). x.tf) (f.others c ne ∙ caller tf w) in
    record {
      low = f.low;
      high = f.high;
      found = f.found;
      can_run = f.can_run;
      still = f.current;
      child =
          let (t, e, copy) = f.frame in
          (
            t,
            ap (λ (x : Thread). x.tf)
                  (if_false (p == c) _ (w'.threads p) (ne→not_eq p c (λ q. ne (sym q))))
                ∙ e,
            IsCopy-IsSame (skip_call tf) t has_stack copy,
          );
      caller_frame = answered c pid (skip_call tf) w' kept f.high;
    }

by_cause :
    (rounds fuel : ℕ) (outside : Outside) (tf : Trapframe) (c : Machinery)
    → tf.cause ≡ 8
    → exception_handler rounds fuel outside tf c ≡ handle_call rounds fuel outside tf comes_back c
unfolding exception_handler
by_cause rounds fuel outside tf c e = rw e refl

-- A program of the current process executes `ecall` with SYS_fork in a0 and a stack pointer that is not 0, and do_fork can give the child a
-- process p, a pid, a kernel stack and an address space, as do_fork-Forked asks. Then the handler of
-- the exception comes back to the caller, and both processes go on behind the `ecall`: the caller with
-- the child's pid in a0, which is from 1 on, below MAX_PID and leads find_proc to p, and the child, which
-- may run, with 0 in a0. The other registers of both are those of the call.
pub exception_handler-Twice :
    (rounds fuel p s : ℕ) (outside : Outside) (cs ps : List ℕ) (tf : Trapframe) (c : Machinery)
    (m : Machine)
    → tf.cause ≡ 8
    → tf.gpr reg_a0 ≡ 2
    → tf.gpr reg_sp ≢ 0
    → IsFree fuel p cs ps c.world
    → c.world.kernel.nr_process < max_process
    → outside.heap.proc_at ≡ some p
    → (c.world.kernel.procs c.world.kernel.current).wait_state ≡ 0
    → alloc_pages fuel kstack_pages c.world.memory.machine ≡ ok (some s, m)
    → s < m.npage
    → HasMm fuel outside.heap 0
        (c.world.threads c.world.kernel.current).mm
        (record c.world.memory { machine = m })
    → (pid : ℕ) × (c' : Machinery) × (exception_handler rounds fuel outside tf c
        ≡ ok (comes_back c'))
      × Twice p c.world.kernel.current pid tf c'.world
unfolding handle_call
exception_handler-Twice rounds fuel p s outside cs ps tf c m cause number has_stack f room e idle
      stack lt has =
    let w = c.world in
    let tf' = skip_call tf in
    let (pid, w', run, forked) =
      do_fork-Forked fuel p s 0 (tf.gpr reg_sp) outside.heap cs ps tf' (calling tf w) m
        (calling-IsFree fuel p cs ps tf w f) room e idle stack lt
        (same_mm (HasMm' fuel outside.heap m w) tf w has) in
    let back = syscall-forks rounds fuel pid outside tf' c.bytes (calling tf w) w' number run in
    let result = give_result w.kernel.current (answers (pos pid) none w' c.bytes) in
    let after : World = record w' {
      threads =
          update w'.threads w.kernel.current (set_result (pos pid) (w'.threads w.kernel.current));
    } in
    (
      pid,
      record c { world = after; bytes = c.bytes },
      by_cause rounds fuel outside tf c cause
          ∙ run_ok (syscall rounds fuel outside tf' c.bytes (calling tf w)) result _ back,
      Forked-Twice p pid cs ps tf w w' has_stack f.not_current forked,
    )
  where
    HasMm' : ℕ → Heap → Machine → World → ℕ → Type 0
    HasMm' fuel heap m w mm = HasMm fuel heap 0 mm (record w.memory { machine = m })

    same_mm :
        (P : ℕ → Type 0) (tf : Trapframe) (w : World)
        → P (w.threads w.kernel.current).mm
        → P ((calling tf w).threads w.kernel.current).mm
    same_mm P tf w h = subst P (sym (ap (λ (x : Thread). x.mm) (caller tf w))) h
