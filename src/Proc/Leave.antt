-- ===== src/Proc/Leave.antt =====
-- `remove_links` takes a process out of its family.
use lab.Base.{
  ℕ, ◌≡◌, ◌≢◌, sym, ◌∙◌, List, [], ◌∷◌, ◌++◌, last, first, ne-last, ne-first, Absent, Absent-remove,
  Distinct, Distinct-remove, arith,
}
use lab.Proc.Fields.{remove_links_parent, remove_links_optr, remove_links_yptr, remove_links_cptr}
use lab.Proc.Family.{Siblings, Family, Siblings-frame}
use lab.Proc.{Proc, Kernel, null, remove_links}

-- `procs'` is `procs` with the brothers `younger` and `older` linked to each other.
record Joined (procs procs' : ℕ → Proc) (younger older : ℕ) : Type 0 where
  parents : (q : ℕ) → (procs' q).parent ≡ (procs q).parent
  yptr_same : (q : ℕ) → q ≢ older → (procs' q).yptr ≡ (procs q).yptr
  yptr_older : older ≢ null → (procs' older).yptr ≡ younger
  optr_same : (q : ℕ) → q ≢ younger → (procs' q).optr ≡ (procs q).optr
  optr_younger : younger ≢ null → (procs' younger).optr ≡ older

module _ (procs procs' : ℕ → Proc) (parent c : ℕ) (r : List ℕ) where
  remove-Siblings :
      (y : ℕ) (l : List ℕ)
      → Joined procs procs' (last y l) (first r null)
      → Siblings procs parent y (l ++ c ∷ r)
      → Distinct (y ∷ l ++ c ∷ r)
      → Siblings procs' parent y (l ++ r)
  remove-Siblings y [] j h d = behind r j h.4 d
    where
      behind :
          (r : List ℕ)
          → Joined procs procs' y (first r null)
          → Siblings procs parent c r
          → Distinct (y ∷ c ∷ r)
          → Siblings procs' parent y r
      behind [] j h d = tt
      behind (o ∷ r) j (live, po, yo, oo, rest) d = (
        live,
        j.parents o ∙ po,
        j.yptr_older live,
        j.optr_same o (λ q. d.0.1.0 (sym q)) ∙ oo,
        Siblings-frame procs procs' parent o o y r d.1.1.0 d.0.1.1
            (λ q qo qy. (j.parents q, j.yptr_same q qo, j.optr_same q qy)) rest,
      )
  remove-Siblings y (x ∷ l) j (nx, px, yx, ox, rest) d = (
    nx,
    j.parents x ∙ px,
    j.yptr_same x (ne-first x null l r nx (Absent-remove x c l r d.1.0)) ∙ yx,
    next l j ox d.1.0,
    remove-Siblings x l j rest d.1,
  )
    where
      next :
          (l : List ℕ)
          → Joined procs procs' (last x l) (first r null)
          → (procs x).optr ≡ first (l ++ c ∷ r) null
          → Absent x (l ++ c ∷ r)
          → (procs' x).optr ≡ first (l ++ r) null
      next [] j e a = j.optr_younger nx
      next (w ∷ l) j e a = j.optr_same x (ne-last x w l (c ∷ r) a.0 a.1) ∙ e

-- Where a child stands among its brothers.
Siblings-middle :
    (procs : ℕ → Proc) (parent y c : ℕ) (l r : List ℕ)
    → Siblings procs parent y (l ++ c ∷ r)
    → ((procs c).parent ≡ parent) × ((procs c).yptr ≡ last y l) × ((procs c).optr ≡ first r null)
Siblings-middle procs parent y c [] r (n, p, yp, op, rest) = (p, yp, op)
Siblings-middle procs parent y c (x ∷ l) r (n, p, yp, op, rest) =
    Siblings-middle procs parent x c l r rest

pub Siblings-null :
    (procs : ℕ → Proc) (parent y : ℕ) (cs : List ℕ) → Siblings procs parent y cs → Absent null cs
Siblings-null procs parent y [] h = tt
Siblings-null procs parent y (c ∷ cs) (n, p, yp, op, rest) =
    ((λ q. n (sym q)), Siblings-null procs parent c cs rest)

remove_links-Joined :
    (k : Kernel) (c younger older : ℕ)
    → (k.procs c).yptr ≡ younger
    → (k.procs c).optr ≡ older
    → Joined k.procs (remove_links c k).procs younger older
remove_links-Joined k c younger older ey eo = record {
  parents = remove_links_parent c k;
  yptr_same = λ q ne. remove_links_yptr c k q ∙ rw eo (ground arith);
  yptr_older = λ n. remove_links_yptr c k older ∙ rw eo (ground arith);
  optr_same = λ q ne. remove_links_optr c k q ∙ rw ey (ground arith);
  optr_younger = λ n. remove_links_optr c k younger ∙ rw ey (ground arith);
}

remove_links_youngest :
    (k : Kernel) (parent c : ℕ) (l r : List ℕ)
    → (k.procs parent).cptr ≡ first (l ++ c ∷ r) null
    → (k.procs c).parent ≡ parent
    → (k.procs c).yptr ≡ last null l
    → (k.procs c).optr ≡ first r null
    → Absent null (l ++ c ∷ r)
    → ((remove_links c k).procs parent).cptr ≡ first (l ++ r) null
remove_links_youngest k parent c [] r e p y o ab =
    remove_links_cptr c k parent ∙ rw (y, p, o) (ground arith)
remove_links_youngest k parent c (x ∷ l) r e p y o ab =
    let some : last x l ≢ null = λ q. ne-last null x l (c ∷ r) ab.0 ab.1 (sym q) in
    remove_links_cptr c k parent ∙ rw (y, e) (ground arith)

-- `remove_links` of a child takes it out of the family of its parent, whose pointers hold the list of
-- the other children in order.
pub remove_links-Family :
    (k : Kernel) (parent c : ℕ) (l r : List ℕ)
    → Family k.procs parent (l ++ c ∷ r)
    → Family (remove_links c k).procs parent (l ++ r)
remove_links-Family k parent c l r fam =
    let (p, y, o) = Siblings-middle k.procs parent null c l r fam.siblings in
    record {
      youngest =
          remove_links_youngest k parent c l r fam.youngest p y o
            (Siblings-null k.procs parent null (l ++ c ∷ r) fam.siblings);
      siblings =
          remove-Siblings k.procs (remove_links c k).procs parent c r null l
            (remove_links-Joined k c (last null l) (first r null) y o) fam.siblings
            (Siblings-null k.procs parent null (l ++ c ∷ r) fam.siblings, fam.distinct);
      distinct = Distinct-remove c l r fam.distinct;
    }
