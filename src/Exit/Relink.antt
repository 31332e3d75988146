-- ===== src/Exit/Relink.antt =====
-- What a round of the loop of `do_exit` writes, field by field.
use lab.Base.{ℕ, ◌≡◌, ◌≢◌, refl, ◌∙◌, ◌&&◌, not, ◌==◌, if◌then◌else◌, arith}
use lab.Proc.{Proc, Kernel, null}
use lab.Exit.{disown_child, give_child, relink_child}

module _ (proc : ℕ) (k : Kernel) (q : ℕ) where
  give_parent :
      ((give_child proc k).procs q).parent ≡ (if q == proc then k.initproc else (k.procs q).parent)
  unfolding give_child
  give_parent = ground arith

  give_optr :
      ((give_child proc k).procs q).optr
      ≡ (if q == proc then (k.procs k.initproc).cptr else (k.procs q).optr)
  unfolding give_child
  give_optr = ground arith

  give_yptr : ((give_child proc k).procs q).yptr ≡ (
      if not ((k.procs k.initproc).cptr == null) && (q == (k.procs k.initproc).cptr)
      then proc
      else if q == proc
      then null
      else (k.procs q).yptr)
  unfolding give_child
  give_yptr = ground arith

  give_cptr :
      ((give_child proc k).procs q).cptr ≡ (if q == k.initproc then proc else (k.procs q).cptr)
  unfolding give_child
  give_cptr = ground arith

-- The child `proc` has moved from the process `c` to `heir`, whose youngest child was `older`.
pub record Moved (procs procs' : ℕ → Proc) (proc c heir older : ℕ) : Type 0 where
  pub parent_proc : (procs' proc).parent ≡ heir
  pub parent_same : (q : ℕ) → q ≢ proc → (procs' q).parent ≡ (procs q).parent
  pub optr_proc : (procs' proc).optr ≡ older
  pub optr_same : (q : ℕ) → q ≢ proc → (procs' q).optr ≡ (procs q).optr
  pub yptr_proc : older ≢ proc → (procs' proc).yptr ≡ null
  pub yptr_older : older ≢ null → (procs' older).yptr ≡ proc
  pub yptr_same : (q : ℕ) → q ≢ proc → q ≢ older → (procs' q).yptr ≡ (procs q).yptr
  pub cptr_heir : (procs' heir).cptr ≡ proc
  pub cptr_c : (procs' c).cptr ≡ (procs proc).optr

disown_cptr :
    (proc : ℕ) (k : Kernel) (q : ℕ)
    → ((disown_child proc k).procs q).cptr
      ≡ (if q == k.current then (k.procs proc).optr else (k.procs q).cptr)
unfolding disown_child
disown_cptr proc k q = ground arith

disown_rest :
    (proc : ℕ) (k : Kernel) (q : ℕ)
    → (((disown_child proc k).procs q).parent ≡ (k.procs q).parent)
      × (((disown_child proc k).procs q).optr ≡ (k.procs q).optr)
      × (((disown_child proc k).procs q).yptr ≡ (k.procs q).yptr)
      × ((disown_child proc k).initproc ≡ k.initproc)
unfolding disown_child
disown_rest proc k q = (ground arith, ground arith, ground arith, refl)

module _ (proc : ℕ) (k : Kernel) (older : ℕ) (e : (k.procs k.initproc).cptr ≡ older)
    (other : k.current ≢ k.initproc) where
  disowned_older : ((disown_child proc k).procs (disown_child proc k).initproc).cptr ≡ older
  unfolding disown_child
  disowned_older = ground arith

  pub relink_child-Moved : Moved k.procs (relink_child proc k).procs proc k.current k.initproc older
  unfolding relink_child
  relink_child-Moved =
      let d = disown_child proc k in
      record {
        parent_proc = give_parent proc d proc ∙ ground (arith, disown_rest proc k proc);
        parent_same = λ q ne. give_parent proc d q ∙ ground (arith, disown_rest proc k q);
        optr_proc = give_optr proc d proc ∙ ground (arith, disowned_older);
        optr_same = λ q ne. give_optr proc d q ∙ ground (arith, disown_rest proc k q);
        yptr_proc = λ ne. give_yptr proc d proc ∙ rw disowned_older (ground arith);
        yptr_older = λ ne. give_yptr proc d older ∙ rw disowned_older (ground arith);
        yptr_same = λ q ne no_older.
            give_yptr proc d q ∙ rw disowned_older (ground (arith, disown_rest proc k q));
        cptr_heir = give_cptr proc d k.initproc ∙ ground (arith, disown_rest proc k proc);
        cptr_c =
            give_cptr proc d k.current
            ∙ ground (arith, disown_rest proc k proc, disown_cptr proc k k.current);
      }
