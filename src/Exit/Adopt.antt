-- ===== src/Exit/Adopt.antt =====
-- One child moves from a family to another.
use lab.Base.{
  ℕ, ◌≡◌, ◌≢◌, sym, ◌∙◌, List, [], ◌∷◌, ◌++◌, first, Absent, Absent-split, Distinct,
  Distinct-middle,
}
use lab.Proc.Family.{Siblings, Family, Siblings-frame}
use lab.Proc.Leave.{Siblings-null}
use lab.Proc.{Proc, null}
use lab.Exit.Relink.{Moved}

-- The children that are left, while the `yptr` of the youngest may be out of date.
pub record Orphans (procs : ℕ → Proc) (c : ℕ) (cs : List ℕ) : Type 0 where
  pub youngest : (procs c).cptr ≡ first cs null
  pub younger : ℕ
  pub siblings : Siblings procs c younger cs

module _ (procs procs' : ℕ → Proc) (p c heir : ℕ) (cs is : List ℕ)
    (m : Moved procs procs' p c heir (first is null)) where
  older-Absent : Absent null cs → Distinct (cs ++ is) → Absent (first is null) cs
  older-Absent = go is
    where
      go : (is : List ℕ) → Absent null cs → Distinct (cs ++ is) → Absent (first is null) cs
      go [] n d = n
      go (o ∷ is) n d = (Distinct-middle o cs is d).0

  same_kin :
      (q : ℕ)
      → q ≢ p
      → q ≢ first is null
      → ((procs' q).parent ≡ (procs q).parent)
        × ((procs' q).yptr ≡ (procs q).yptr)
        × ((procs' q).optr ≡ (procs q).optr)
  same_kin q qp qo = (m.parent_same q qp, m.yptr_same q qp qo, m.optr_same q qp)

  pub Moved-Orphans : Orphans procs c (p ∷ cs) → Distinct (p ∷ cs ++ is) → Orphans procs' c cs
  Moved-Orphans orphans d =
      let (live, par, y, o, rest) = orphans.siblings in
      record {
        youngest = m.cptr_c ∙ o;
        younger = p;
        siblings =
            Siblings-frame procs procs' c p p (first is null) cs (Absent-split p cs is d.0).0
              (older-Absent (Siblings-null procs c p cs rest) d.1) same_kin rest;
      }

pub Moved-Family :
    (procs procs' : ℕ → Proc) (p c heir : ℕ) (is : List ℕ)
    → Moved procs procs' p c heir (first is null)
    → p ≢ null
    → Family procs heir is
    → Absent p is
    → Family procs' heir (p ∷ is)
Moved-Family procs procs' p c heir [] m live fam fresh = record {
  youngest = m.cptr_heir;
  siblings = (live, m.parent_proc, m.yptr_proc (λ q. live (sym q)), m.optr_proc, tt);
  distinct = (tt, tt);
}
Moved-Family procs procs' p c heir (o ∷ is) m live fam fresh =
    let (live_o, par, y, older, rest) = fam.siblings in
    let o_p : o ≢ p = λ q. fresh.0 (sym q) in
    record {
      youngest = m.cptr_heir;
      siblings = (
        live,
        m.parent_proc,
        m.yptr_proc o_p,
        m.optr_proc,
        (
          live_o,
          m.parent_same o o_p ∙ par,
          m.yptr_older live_o,
          m.optr_same o o_p ∙ older,
          Siblings-frame procs procs' heir o p o is fresh.1 fam.distinct.0
              (λ q qp qo. (m.parent_same q qp, m.yptr_same q qp qo, m.optr_same q qp)) rest,
        ),
      );
      distinct = (fresh, fam.distinct);
    }
