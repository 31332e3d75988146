-- ===== src/Wait/Codes.antt =====
-- The exit code of a process reaches the parent that waits for it.
use lab.Base.{
  ℕ, ◌<◌, ◌≡◌, ◌≢◌, sym, ap, ◌∙◌, true, false, if_false, List, ◌∷◌, ◌++◌, length, some, ℤ, pos, ok,
}
use lab.Links.Ring.{Ring}
use lab.Vmm.{any_of}
use lab.Proc.Family.{Family}
use lab.Proc.{Kernel, proc_list, is_zombie}
use lab.Exit.Done.{CanExit, do_exit-Exited}
use lab.Exit.{do_exit}
use lab.Wait.Children.{Alive, Reaped, do_wait-Reaped}
use lab.Wait.{HashList, pf_exiting, returned, unhash_proc, wait_round, do_wait, wait_resume}

-- The process `c` is still the zombie that it was, and the process that runs now, which is not to be
-- killed, is its parent and has no younger zombie among its children `l ++ c ∷ r`.
pub record StillThere (c : ℕ) (k' k'' : Kernel) (l r a b : List ℕ) : Type 0 where
  pub same_state : (k''.procs c).state ≡ (k'.procs c).state
  pub same_code : (k''.procs c).exit_code ≡ (k'.procs c).exit_code
  pub children : Family k''.procs k''.current (l ++ c ∷ r)
  pub younger : Alive k''.procs l
  pub listed : Ring k''.links proc_list (a ++ c ∷ b)
  pub not_idle : c ≢ k''.idleproc
  pub not_init : c ≢ k''.initproc
  pub live : any_of (k''.procs k''.current).flags pf_exiting ≡ false

-- A parent that slept in do_wait goes on as if it had called it now.
resumes :
    (fuel : ℕ) (k : Kernel) (hash : HashList)
    → any_of (k.procs k.current).flags pf_exiting ≡ false
    → wait_resume fuel true (pos 0) k hash ≡ do_wait fuel true true (pos 0) k hash
unfolding wait_resume do_wait
resumes fuel k hash live =
    if_false (any_of (k.procs k.current).flags pf_exiting) _ (wait_round fuel true (pos 0) k hash)
      live

-- A process c that may exit ends with a code. Later its parent, which slept in do_wait for any
-- child, runs again; until then c is left as the zombie that do_exit made of it, and it is the youngest zombie
-- of the parent. Then do_wait returns 0 to the parent with exactly the code that c gave to do_exit,
-- and c is no longer a child, nor on the list of processes.
pub do_exit-wait_resume :
    (fuel fuel' : ℕ) (error_code : ℤ) (k k' k'' : Kernel) (hash : HashList)
    (cs is before behind l r a b : List ℕ)
    → CanExit k fuel cs is before behind
    → do_exit fuel error_code k ≡ ok k'
    → StillThere k.current k' k'' l r a b
    → length l < fuel'
    → (k₁ : Kernel) × (wait_resume fuel' true (pos 0) k'' hash
        ≡ ok (returned (pos 0) (some error_code) k₁ (unhash_proc k.current k'' hash)))
      × Reaped k'' (l ++ r) (a ++ b) k₁
do_exit-wait_resume fuel fuel' error_code k k' k'' hash cs is before behind l r a b can run there
      enough =
    let c = k.current in
    let (x, ends, exited) = do_exit-Exited fuel error_code k cs is before behind can in
    let same : x ≡ k' = cc (run, ends) in
    let dead : is_zombie (k''.procs c).state ≡ true =
      ap is_zombie there.same_state
      ∙ ap (λ (y : Kernel). is_zombie (y.procs c).state) (sym same)
      ∙ exited.dead in
    let code : (k''.procs c).exit_code ≡ error_code =
      there.same_code ∙ ap (λ (y : Kernel). (y.procs c).exit_code) (sym same) ∙ exited.code in
    let (k₁, reaped, after) =
      do_wait-Reaped fuel' true k'' hash l c r a b there.children there.younger dead there.not_idle
        there.not_init there.listed enough in
    (
      k₁,
      resumes fuel' k'' hash there.live
          ∙ reaped
          ∙ ap (λ e. ok (returned (pos 0) (some e) k₁ (unhash_proc c k'' hash))) code,
      after,
    )
