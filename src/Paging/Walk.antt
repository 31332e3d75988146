-- ===== src/Paging/Walk.antt =====
-- Where `get_pte` leads if the tables are there.
use lab.Base.{ℕ, ◌<◌, ◌≡◌, refl, ap, ◌∙◌, Bool, true, lt→ltb, some, ok}
use lab.Paging.{Machine, Slot, entry, pdx1, pdx0, ptx, next_level, get_pte}

-- From the directory `pgdir` the entries for `la` lead through the table `pd0` to the table `pt`.
pub record Walks (m : Machine) (pgdir la pd0 pt : ℕ) : Type 0 where
  pub valid1 : (m.frames pgdir (pdx1 la)).valid ≡ true
  pub table1 : (m.frames pgdir (pdx1 la)).page ≡ pd0
  pub known1 : pd0 < m.npage
  pub valid0 : (m.frames pd0 (pdx0 la)).valid ≡ true
  pub table0 : (m.frames pd0 (pdx0 la)).page ≡ pt
  pub known0 : pt < m.npage

pub next_level-valid :
    (fuel : ℕ) (create : Bool) (slot : Slot) (m : Machine) (t : ℕ)
    → (entry m slot).valid ≡ true
    → (entry m slot).page ≡ t
    → next_level fuel create slot m ≡ ok (some t, m)
unfolding next_level
next_level-valid fuel create slot m t v e = rw (v, e) refl

-- Then `get_pte` finds the entry, whether it may make tables or not, and changes nothing.
pub get_pte-Walks :
    (fuel pgdir la : ℕ) (create : Bool) (m : Machine) (pd0 pt : ℕ)
    → Walks m pgdir la pd0 pt
    → get_pte fuel pgdir la create m ≡ ok (some (pt, ptx la), m)
unfolding get_pte
get_pte-Walks fuel pgdir la create m pd0 pt p =
    rw
      (
        next_level-valid fuel create (pgdir, pdx1 la) m pd0 p.valid1 p.table1,
        lt→ltb pd0 m.npage p.known1,
        next_level-valid fuel create (pd0, pdx0 la) m pt p.valid0 p.table0,
        lt→ltb pt m.npage p.known0,
      )
      refl

-- The tables may be read from another machine that agrees on them.
pub Walks-frame :
    (m m' : Machine) (pgdir la pd0 pt : ℕ)
    → m'.frames pgdir (pdx1 la) ≡ m.frames pgdir (pdx1 la)
    → m'.frames pd0 (pdx0 la) ≡ m.frames pd0 (pdx0 la)
    → m'.npage ≡ m.npage
    → Walks m pgdir la pd0 pt
    → Walks m' pgdir la pd0 pt
Walks-frame m m' pgdir la pd0 pt e1 e0 en p = record {
  valid1 = ap (λ x. x.valid) e1 ∙ p.valid1;
  table1 = ap (λ x. x.page) e1 ∙ p.table1;
  known1 = rw en p.known1;
  valid0 = ap (λ x. x.valid) e0 ∙ p.valid0;
  table0 = ap (λ x. x.page) e0 ∙ p.table0;
  known0 = rw en p.known0;
}
