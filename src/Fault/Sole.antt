-- ===== src/Fault/Sole.antt =====
-- `do_pgfault` on a copy-on-write page that nobody else maps: it becomes writable where it is.
use lab.Base.{
  ℕ, ◌≤◌, ◌≡◌, ◌≢◌, ◌⊎◌, refl, sym, ◌∙◌, ap, Bool, true, false, ◌==◌, ==_refl, if◌then◌else◌,
  if_true, if_false, run_ok, some, ℤ, pos, ok, assert, arith, Bool-cases, inl, inr,
}
use lab.Vmm.{Mm, Vma, page_size, round_down}
use lab.Pmm.Kept.{SameRefs}
use lab.Paging.{Machine, Slot, entry, page_ref, ptx}
use lab.Paging.Frames.{entry-set_entry, frames-set_entry}
use lab.Fault.Cow.{CowFault, set_lock, do_pgfault-CowFault}
use lab.Fault.{unlock, leave, is_shared, make_writable, restore_write, resolve, do_pgfault}

pub lock-set_lock : (b : Bool) (p : ℕ) (m : Machine) → ((set_lock b p m).area.pages p).page_lock ≡ b
lock-set_lock b p m = ap (λ x. x.page_lock) (if_true (p == p) _ (m.area.pages p) (==_refl p))

pub ref-set_lock : (b : Bool) (p q : ℕ) (m : Machine) → page_ref (set_lock b p m) q ≡ page_ref m q
ref-set_lock b p q m = go (q == p) refl
  where
    go :
        (t : Bool)
        → (q == p) ≡ t
        → (if t then record (m.area.pages p) { page_lock = b } else m.area.pages q).ref
          ≡ page_ref m q
    go true e = ap (λ x. page_ref m x) (ground arith)
    go false e = refl

-- With the lock, `leave` returns, and the lock is free.
pub leave-locked :
    (p : ℕ) (ret : ℤ) (m : Machine)
    → (m.area.pages p).page_lock ≡ true
    → leave p ret m ≡ ok (ret, set_lock false p m)
leave-locked p ret m h =
    run_ok (unlock p m) _ _ (run_ok (assert (m.area.pages p).page_lock) tt _ (ap assert h))

-- A lock that is free at first is taken and given back.
pub set_lock-restored :
    (p : ℕ) (m m₁ : Machine)
    → (m.area.pages p).page_lock ≡ false
    → ((q : ℕ) → (m₁.area.pages q).page_lock ≡ ((set_lock true p m).area.pages q).page_lock)
    → (q : ℕ) → ((set_lock false p m₁).area.pages q).page_lock ≡ (m.area.pages q).page_lock
set_lock-restored p m m₁ h s q = elim (Bool-cases (q == p)) [
  | inl e ↦
      let same : q ≡ p = ground arith in
      ap (λ x. ((set_lock false p m₁).area.pages x).page_lock) same
      ∙ lock-set_lock false p m₁
      ∙ sym h
      ∙ ap (λ x. (m.area.pages x).page_lock) (sym same)
  | inr e ↦
      ap (λ x. x.page_lock) (if_false (q == p) _ (m₁.area.pages q) e)
      ∙ s q
      ∙ ap (λ x. x.page_lock) (if_false (q == p) _ (m.area.pages q) e)
]

pub set_lock-SameRefs :
    (p : ℕ) (m m₁ : Machine)
    → (m.area.pages p).page_lock ≡ false
    → SameRefs (set_lock true p m).area m₁.area
    → SameRefs m.area (set_lock false p m₁).area
set_lock-SameRefs p m m₁ h s q = (
  ref-set_lock false p q m₁ ∙ (s q).0 ∙ ref-set_lock true p q m,
  set_lock-restored p m m₁ h (λ r. (s r).1) q,
)

resolve-sole :
    (fuel pgdir la p : ℕ) (slot : Slot) (m : Machine)
    → page_ref m p ≤ 1
    → (m.area.pages p).page_lock ≡ true
    → resolve fuel pgdir la slot p m ≡ ok (pos 0, set_lock false p (restore_write slot m))
unfolding resolve
resolve-sole fuel pgdir la p slot m one held =
    let alone : is_shared p m ≡ false = ground arith in
    if_false (is_shared p m) _ _ alone ∙ leave-locked p (pos 0) (restore_write slot m) held

-- A write faults on page p, which the tables map copy-on-write, in a writable area, with the lock of
-- p free, and p has at most one reference. Then do_pgfault returns 0, the entry maps p writable and
-- not copy-on-write, its other bits as before, every other word of memory is unchanged, and so are the
-- reference counts and locks of all pages.
pub do_pgfault-sole :
    (fuel : ℕ) (mm mm' : Mm) (v : Vma) (pgdir error_code addr pd0 pt p : ℕ) (m : Machine)
    → CowFault mm mm' v pgdir error_code addr pd0 pt p m
    → page_ref m p ≤ 1
    → (m' : Machine) × (do_pgfault fuel (some (mm, pgdir)) error_code addr m
        ≡ ok (pos 0, some (mm', pgdir), m'))
      × (m'.frames pt (ptx (round_down addr page_size))
          ≡ make_writable (m.frames pt (ptx (round_down addr page_size))))
      × ((t i : ℕ)
          → (t ≢ pt) ⊎ (i ≢ ptx (round_down addr page_size))
          → m'.frames t i ≡ m.frames t i)
      × SameRefs m.area m'.area
do_pgfault-sole fuel mm mm' v pgdir error_code addr pd0 pt p m h one =
    let la = round_down addr page_size in
    let s : Slot = (pt, ptx la) in
    let held = set_lock true p m in
    let run =
      resolve-sole fuel pgdir la p s held (rw (ref-set_lock true p p m) one)
        (lock-set_lock true p m) in
    (
      set_lock false p (restore_write s held),
      do_pgfault-CowFault fuel mm mm' v pgdir error_code addr pd0 pt p m _ (pos 0) h run,
      entry-set_entry m s (make_writable (entry m s)),
      frames-set_entry m s (make_writable (entry m s)),
      set_lock-SameRefs p m held h.unlocked (λ q. (refl, refl)),
    )
