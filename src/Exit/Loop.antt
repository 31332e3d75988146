-- ===== src/Exit/Loop.antt =====
-- The loop of `do_exit` gives all children of the current process to `initproc`.
use lab.Base.{
  ℕ, zero, suc, ◌<◌, ◌≡◌, ◌≢◌, refl, ◌∙◌, subst, false, ◌==◌, if_true, if_false, List, [], ◌∷◌,
  ◌++◌, length, first, Absent-split, Distinct, Distinct-insert, ok, arith,
}
use lab.Proc.Family.{Family}
use lab.Proc.{Proc, Kernel, null, is_zombie}
use lab.Exit.Relink.{Moved}
use lab.Exit.Adopt.{Orphans, Moved-Orphans, Moved-Family}
use lab.Exit.Kept.{Kept, Kept-refl, Kept-trans, adopt_child-Moved}
use lab.Exit.{adopt_child, adopt_children}

-- The first list, reversed, in front of the second.
pub rev_onto : List ℕ → List ℕ → List ℕ
rev_onto [] is = is
rev_onto (c ∷ cs) is = rev_onto cs (c ∷ is)

Moved-at :
    {procs procs' : ℕ → Proc} {p c c' heir heir' older : ℕ}
    → c ≡ c'
    → heir ≡ heir'
    → Moved procs procs' p c heir older
    → Moved procs procs' p c' heir' older
Moved-at {procs = procs} {procs' = procs'} {p = p} {c = c} {c' = c'} {heir = heir} {older = older} e
      f m =
    subst (λ h. Moved procs procs' p c' h older) f
      (subst (λ x. Moved procs procs' p x heir older) e m)

adopt_children_none :
    (f : ℕ) (k : Kernel) → (k.procs k.current).cptr ≡ null → adopt_children (suc f) k ≡ ok k
unfolding adopt_children
adopt_children_none f k e = if_true ((k.procs k.current).cptr == null) (ok k) _ (ground arith)

adopt_children_some :
    (f : ℕ) (k k₁ : Kernel) (p : ℕ)
    → (k.procs k.current).cptr ≡ p
    → p ≢ null
    → adopt_child p k ≡ ok k₁
    → adopt_children (suc f) k ≡ adopt_children f k₁
unfolding adopt_children
adopt_children_some f k k₁ p e live run =
    if_false ((k.procs k.current).cptr == null) (ok k) _ (ground arith) ∙ rw (e, run) refl

pub adopt_children-Family :
    (fuel : ℕ) (k : Kernel) (c heir : ℕ) (cs is : List ℕ)
    → k.current ≡ c
    → k.initproc ≡ heir
    → length cs < fuel
    → c ≢ heir
    → is_zombie (k.procs heir).state ≡ false
    → Orphans k.procs c cs
    → Family k.procs heir is
    → Distinct (cs ++ is)
    → (k' : Kernel) × (adopt_children fuel k ≡ ok k')
      × Kept k k'
      × Family k'.procs heir (rev_onto cs is)
      × ((k'.procs c).cptr ≡ null)
unfolding rev_onto
adopt_children-Family zero k c heir cs is ec eh enough other alive orphans fam d =
    absurd (omega arith)
adopt_children-Family (suc f) k c heir [] is ec eh enough other alive orphans fam d =
    (k, adopt_children_none f k (rw ec orphans.youngest), Kept-refl k, fam, orphans.youngest)
adopt_children-Family (suc f) k c heir (p ∷ cs) is ec eh enough other alive orphans fam d =
    let live = orphans.siblings.0 in
    let (k₁, run, kept, m) =
      adopt_child-Moved p k (first is null) (rw eh fam.youngest) (rw (ec, eh) other)
        (rw eh alive) in
    let moved = Moved-at ec eh m in
    let (k₂, run', kept', fam', gone) =
      adopt_children-Family f k₁ c heir cs (p ∷ is) (kept.current ∙ ec) (kept.initproc ∙ eh)
        (omega arith) other (kept.zombies heir ∙ alive)
        (Moved-Orphans k.procs k₁.procs p c heir cs is moved orphans d)
        (Moved-Family k.procs k₁.procs p c heir is moved live fam (Absent-split p cs is d.0).1)
        (Distinct-insert p cs is d.0 d.1) in
    (
      k₂,
      adopt_children_some f k k₁ p (rw ec orphans.youngest) live run ∙ run',
      Kept-trans kept kept',
      fam',
      gone,
    )
