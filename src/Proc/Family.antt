-- ===== src/Proc/Family.antt =====
-- The children of a process: `cptr` leads to the youngest, `optr` from there to the older ones and
-- `yptr` back.
use lab.Base.{ℕ, ◌≡◌, ◌≢◌, sym, ◌∙◌, List, [], ◌∷◌, first, Absent, Distinct, arith}
use lab.Proc.Fields.{
  set_links_yptr_new, set_links_yptr_older, set_links_parent, set_links_optr, set_links_yptr,
  set_links_cptr,
}
use lab.Proc.{Proc, Kernel, null, set_links}

-- The processes `cs`, from the younger to the older, are children of `parent`; `y` is younger than
-- all of them, or NULL.
abbrev pub Siblings : (ℕ → Proc) → ℕ → ℕ → List ℕ → Type 0
Siblings procs parent y [] = Unit {0}
Siblings procs parent y (c ∷ cs) =
    (c ≢ null)
    × ((procs c).parent ≡ parent)
    × ((procs c).yptr ≡ y)
    × ((procs c).optr ≡ first cs null)
    × Siblings procs parent c cs

pub record Family (procs : ℕ → Proc) (parent : ℕ) (cs : List ℕ) : Type 0 where
  pub youngest : (procs parent).cptr ≡ first cs null
  pub siblings : Siblings procs parent null cs
  pub distinct : Distinct cs

-- Changes elsewhere.
pub Siblings-frame :
    (procs procs' : ℕ → Proc) (parent y a b : ℕ) (cs : List ℕ)
    → Absent a cs
    → Absent b cs
    → ((q : ℕ)
        → q ≢ a
        → q ≢ b
        → ((procs' q).parent ≡ (procs q).parent)
          × ((procs' q).yptr ≡ (procs q).yptr)
          × ((procs' q).optr ≡ (procs q).optr))
    → Siblings procs parent y cs
    → Siblings procs' parent y cs
Siblings-frame procs procs' parent y a b [] fa fb same h = tt
Siblings-frame procs procs' parent y a b (c ∷ cs) fa fb same (n, p, yp, op, rest) =
    let (e, f, g) = same c (λ q. fa.0 (sym q)) (λ q. fb.0 (sym q)) in
    (n, e ∙ p, f ∙ yp, g ∙ op, Siblings-frame procs procs' parent c a b cs fa.1 fb.1 same rest)

-- `set_links` of a process that is not NULL and not among the children of its parent makes it the
-- youngest child: the pointers hold the list with it in front.
pub set_links-Family :
    (k : Kernel) (proc : ℕ) (cs : List ℕ)
    → Family k.procs (k.procs proc).parent cs
    → proc ≢ null
    → Absent proc cs
    → Family (set_links proc k).procs (k.procs proc).parent (proc ∷ cs)
set_links-Family k proc [] fam ne fresh = record {
  youngest = ground (arith, set_links_cptr proc k (k.procs proc).parent);
  siblings = (
    ne,
    set_links_parent proc k proc,
    ground (arith, set_links_yptr proc k proc, fam.youngest),
    ground (arith, set_links_optr proc k proc, fam.youngest),
    tt,
  );
  distinct = (tt, tt);
}
set_links-Family k proc (c ∷ cs) fam ne fresh =
    let (nc, pc, yc, oc, rest) = fam.siblings in
    record {
      youngest = ground (arith, set_links_cptr proc k (k.procs proc).parent);
      siblings = (
        ne,
        set_links_parent proc k proc,
        set_links_yptr_new proc k c fam.youngest (λ q. fresh.0 (sym q)),
        ground (arith, set_links_optr proc k proc, fam.youngest),
        (
          nc,
          set_links_parent proc k c ∙ pc,
          set_links_yptr_older proc k c fam.youngest nc,
          ground (arith, set_links_optr proc k c, oc, fresh.0),
          Siblings-frame k.procs (set_links proc k).procs (k.procs proc).parent c proc c cs fresh.1
              fam.distinct.0
              (λ q qp qc. (
                set_links_parent proc k q,
                ground (arith, set_links_yptr proc k q, fam.youngest),
                ground (arith, set_links_optr proc k q),
              ))
              rest,
        ),
      );
      distinct = (fresh, fam.distinct);
    }
