-- ===== src/Proc/Fields.antt =====
-- What `set_links` and `remove_links` write, field by field.
use lab.Base.{ℕ, ◌≡◌, ◌≢◌, ◌∙◌, ◌&&◌, not, ◌==◌, if◌then◌else◌, arith}
use lab.Links.{list_del, list_add}
use lab.Proc.{proc_list, Kernel, null, set_links, remove_links}

module _ (proc : ℕ) (k : Kernel) (q : ℕ) where
  pub set_links_parent : ((set_links proc k).procs q).parent ≡ (k.procs q).parent
  unfolding set_links
  set_links_parent = ground arith

  pub set_links_optr :
      ((set_links proc k).procs q).optr
      ≡ (if q == proc then (k.procs (k.procs proc).parent).cptr else (k.procs q).optr)
  unfolding set_links
  set_links_optr = ground arith

  pub set_links_yptr : ((set_links proc k).procs q).yptr ≡ (
      if not ((k.procs (k.procs proc).parent).cptr == null)
        && (q == (k.procs (k.procs proc).parent).cptr)
      then proc
      else if q == proc
      then null
      else (k.procs q).yptr)
  unfolding set_links
  set_links_yptr = ground arith

  pub set_links_cptr :
      ((set_links proc k).procs q).cptr
      ≡ (if q == (k.procs proc).parent then proc else (k.procs q).cptr)
  unfolding set_links
  set_links_cptr = ground arith

  pub remove_links_parent : ((remove_links proc k).procs q).parent ≡ (k.procs q).parent
  unfolding remove_links
  remove_links_parent = ground arith

  pub remove_links_yptr : ((remove_links proc k).procs q).yptr ≡ (
      if not ((k.procs proc).optr == null) && (q == (k.procs proc).optr)
      then (k.procs proc).yptr
      else (k.procs q).yptr)
  unfolding remove_links
  remove_links_yptr = ground arith

  pub remove_links_optr : ((remove_links proc k).procs q).optr ≡ (
      if not ((k.procs proc).yptr == null) && (q == (k.procs proc).yptr)
      then (k.procs proc).optr
      else (k.procs q).optr)
  unfolding remove_links
  remove_links_optr = ground arith

  pub remove_links_cptr : ((remove_links proc k).procs q).cptr ≡ (
      if ((k.procs proc).yptr == null) && (q == (k.procs proc).parent)
      then (k.procs proc).optr
      else (k.procs q).cptr)
  unfolding remove_links
  remove_links_cptr = ground arith

module _ (proc : ℕ) (k : Kernel) (older : ℕ)
    (e : (k.procs (k.procs proc).parent).cptr ≡ older) where
  pub set_links_yptr_new : older ≢ proc → ((set_links proc k).procs proc).yptr ≡ null
  set_links_yptr_new ne = set_links_yptr proc k proc ∙ rw e (ground arith)

  pub set_links_yptr_older : older ≢ null → ((set_links proc k).procs older).yptr ≡ proc
  set_links_yptr_older ne = set_links_yptr proc k older ∙ rw e (ground arith)

pub remove_links_links :
    (proc : ℕ) (k : Kernel) → (remove_links proc k).links ≡ list_del proc k.links
unfolding remove_links
remove_links_links proc k = ground arith

pub set_links_links :
    (proc : ℕ) (k : Kernel) → (set_links proc k).links ≡ list_add proc_list proc k.links
unfolding set_links
set_links_links proc k = ground arith
