-- ===== src/Release/Ended.antt =====
-- The end of a process and of its use of an address space.
use lab.Base.{
  ℕ, ◌+◌, ◌-◌, ◌*◌, ◌%◌, ◌^◌, ◌<◌, ◌≡◌, ◌≢◌, ◌⊎◌, inl, inr, refl, ◌∙◌, ap, Bool-cases, ◌==◌,
  ==_refl, ne→not_eq, if◌then◌else◌, if_true, if_false, run_ok, update, List, ℤ, pos, ok, ◌>>=◌,
  arith,
}
use lab.Proc.{Kernel, null}
use lab.Exit.Loop.{rev_onto}
use lab.Exit.Done.{CanExit, Exited, do_exit-Exited}
use lab.Exit.{do_exit}
use lab.Vmm.{page_size}
use lab.Task.{Thread, Memory, World}
use lab.Fork.{put_space, drop_space}
use lab.Release.{leave_space, leave_mm, exit_process}

-- What becomes of the memory when a process leaves the address space `mm`: nothing without one; one user
-- less if others use it; or it is taken apart.
pub data Left (fuel mm : ℕ) (memory : Memory) : Memory → Type 0 where
  no_space : mm ≡ null → Left fuel mm memory memory
  still_used :
      mm ≢ null
      → 1 < (memory.spaces mm).mm_count
      → (memory.spaces mm).mm_count < 2 ^ 32
      → Left fuel mm memory (
          put_space mm
            (record (memory.spaces mm) { mm_count = (memory.spaces mm).mm_count - 1 })
            memory.machine
            memory)
  last_user :
      (memory' : Memory)
      → mm ≢ null
      → (memory.spaces mm).mm_count ≡ 1
      → drop_space fuel
          (pos 0)
          mm
          (put_space mm (record (memory.spaces mm) { mm_count = 0 }) memory.machine memory)
        ≡ ok (pos 0, memory')
      → Left fuel mm memory memory'

fewer : (n : ℕ) → 0 < n → n < 2 ^ 32 → (n + 2 ^ 32 - 1) % 2 ^ 32 ≡ n - 1
fewer n lo hi = omega arith

pub leave_space-Left :
    (fuel mm : ℕ) (memory memory' : Memory)
    → mm ≢ null
    → Left fuel mm memory memory'
    → leave_space fuel mm memory ≡ ok memory'
unfolding leave_space
leave_space-Left fuel mm memory memory' ne (no_space e) = elim (ne e) [ ]
leave_space-Left fuel mm memory memory' ne (still_used _ lo hi) =
    let n = (memory.spaces mm).mm_count in
    let left : ℕ → Memory =
      λ c. put_space mm (record (memory.spaces mm) { mm_count = c }) memory.machine memory in
    ap (λ c. if c == 0 then (drop_space fuel (pos 0) mm (left c) >>= λ r. ok r.1) else ok (left c))
      (fewer n (omega (arith, lo)) hi)
    ∙ if_false (n - 1 == 0) _ _ (ne→not_eq (n - 1) 0 (omega (arith, lo)))
leave_space-Left fuel mm memory memory' ne (last_user _ _ one run) =
    let n = (memory.spaces mm).mm_count in
    let left : ℕ → Memory =
      λ c. put_space mm (record (memory.spaces mm) { mm_count = c }) memory.machine memory in
    let none_left : (n + 2 ^ 32 - 1) % 2 ^ 32 ≡ 0 = omega (arith, one) in
    ap (λ c. if c == 0 then (drop_space fuel (pos 0) mm (left c) >>= λ r. ok r.1) else ok (left c))
      none_left
    ∙ run_ok (drop_space fuel (pos 0) mm (left 0)) (pos 0, memory') _ run

pub same_memory :
    (fuel mm : ℕ) (memory memory' : Memory)
    → mm ≡ null
    → Left fuel mm memory memory'
    → memory ≡ memory'
same_memory fuel mm memory memory' e (no_space _) = refl
same_memory fuel mm memory memory' e (still_used ne lo hi) = elim (ne e) [ ]
same_memory fuel mm memory memory' e (last_user _ ne one run) = elim (ne e) [ ]

pub null_cases : (n : ℕ) → (n ≡ null) ⊎ (n ≢ null)
null_cases n = elim (Bool-cases (n == null)) [
  | inl e ↦ inl (ground arith)
  | inr e ↦ inr (λ q. cc (e, ap (λ x. x == null) q))
]

-- What may exit, and what an exit leaves, do not depend on the page table in use.
pub CanExit-satp :
    (k : Kernel) (fuel satp : ℕ) (cs is l r : List ℕ)
    → CanExit k fuel cs is l r
    → CanExit (record k { satp = satp }) fuel cs is l r
CanExit-satp k fuel satp cs is l r can = record {
  not_idle = can.not_idle;
  not_init = can.not_init;
  not_parent = can.not_parent;
  parent_alive = can.parent_alive;
  init_alive = can.init_alive;
  children = can.children;
  heirs = can.heirs;
  apart = can.apart;
  listed = can.listed;
  enough_children = can.enough_children;
  enough_listed = can.enough_listed;
}

pub Exited-satp :
    (k k' : Kernel) (error_code : ℤ) (satp : ℕ) (heirs : List ℕ)
    → Exited (record k { satp = satp }) error_code heirs k'
    → Exited k error_code heirs k'
Exited-satp k k' error_code satp heirs e = record {
  dead = e.dead;
  code = e.code;
  childless = e.childless;
  adopted = e.adopted;
  woken = e.woken;
  elsewhere = e.elsewhere;
}

exit_process-starts :
    (fuel : ℕ) (error_code : ℤ) (w w₁ : World) (k : Kernel)
    → w.kernel.current ≢ w.kernel.idleproc
    → w.kernel.current ≢ w.kernel.initproc
    → leave_mm fuel w ≡ ok w₁
    → do_exit fuel error_code w₁.kernel ≡ ok k
    → exit_process fuel error_code w ≡ ok (record w₁ { kernel = k })
unfolding exit_process
exit_process-starts fuel error_code w w₁ k ni nn left run =
    if_false (w.kernel.current == w.kernel.idleproc) _ _
      (ne→not_eq w.kernel.current w.kernel.idleproc ni)
    ∙ if_false (w.kernel.current == w.kernel.initproc) _ _
        (ne→not_eq w.kernel.current w.kernel.initproc nn)
    ∙ run_ok (leave_mm fuel w) w₁ _ left
    ∙ run_ok (do_exit fuel error_code w₁.kernel) k _ run

-- The current process is neither the idle process nor init and may exit as do_exit asks, and its address
-- space is NULL, or used by others too, or is its own and exit_mmap, put_pgdir and mm_destroy succeed on
-- it with no user left. Then do_exit, with the release of the address space, ends: the process has no
-- address space any more, the memory is what is left of it in these three cases, and the process is a
-- zombie with its exit code, its children are given to init, a waiting parent is awake, and another
-- process runs.
pub exit_process-Exited :
    (fuel : ℕ) (error_code : ℤ) (w : World) (memory' : Memory) (cs is l r : List ℕ)
    → CanExit w.kernel fuel cs is l r
    → Left fuel (w.threads w.kernel.current).mm w.memory memory'
    → (w' : World) × (exit_process fuel error_code w ≡ ok w')
      × Exited w.kernel error_code (rev_onto cs is) w'.kernel
      × ((w'.threads w.kernel.current).mm ≡ null)
      × (w'.memory ≡ memory')
unfolding leave_mm
exit_process-Exited fuel error_code w memory' cs is l r can left =
    let c = w.kernel.current in
    let mm = (w.threads c).mm in
    elim (null_cases mm) [
      | inl none_there ↦
          let (k', run, exited) = do_exit-Exited fuel error_code w.kernel cs is l r can in
          (
            record w { kernel = k' },
            exit_process-starts fuel error_code w w k' can.not_idle can.not_init
                (if_true (mm == null) _ _ (ap (λ x. x == null) none_there)) run,
            exited,
            none_there,
            same_memory fuel mm w.memory memory' none_there left,
          )
      | inr there ↦
          let satp = w.memory.boot * page_size in
          let w₁ : World = record w {
            kernel = record w.kernel { satp = satp };
            threads = update w.threads c (record (w.threads c) { mm = null });
            memory = memory';
          } in
          let (k', run, exited) =
            do_exit-Exited fuel error_code w₁.kernel cs is l r
              (CanExit-satp w.kernel fuel satp cs is l r can) in
          (
            record w₁ { kernel = k' },
            exit_process-starts fuel error_code w w₁ k' can.not_idle can.not_init
                (if_false (mm == null) _ _ (ne→not_eq mm null there)
                  ∙ run_ok (leave_space fuel mm w.memory) memory' _
                      (leave_space-Left fuel mm w.memory memory' there left))
                run,
            Exited-satp w.kernel k' error_code satp (rev_onto cs is) exited,
            ap (λ (x : Thread). x.mm) (if_true (c == c) _ (w.threads c) (==_refl c)),
            refl,
          )
    ]
