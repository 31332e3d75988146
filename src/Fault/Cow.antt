-- ===== src/Fault/Cow.antt =====
-- `do_pgfault` up to the check of the reference count: the way to a page that is shared
-- copy-on-write.
use lab.Base.{
  ℕ, ◌<◌, ◌≤◌, ◌≡◌, refl, ◌∙◌, ap, Bool, true, false, ◌&&◌, not, ltb, le→not_ltb, ◌==◌, ==_refl,
  if_true, if_false, run_ok, some, ℤ, ok,
}
use lab.Vmm.{Mm, Vma, page_size, round_down, any_of, vm_write, find_vma}
use lab.Paging.{Machine, Slot, entry, set_page, ptx, get_pte}
use lab.Paging.Walk.{Walks, get_pte-Walks, Walks-frame}
use lab.Paging.Insert.{pte2page-valid}
use lab.Fault.{lock, is_cow, resolve, fault_locked, fault_in, do_pgfault, pf_write}

-- The entry `slot` maps page `p` copy-on-write.
pub record IsCow (m : Machine) (slot : Slot) (p : ℕ) : Type 0 where
  pub valid : (entry m slot).valid ≡ true
  pub cow : (entry m slot).perm.cow ≡ true
  pub page : (entry m slot).page ≡ p
  pub known : p < m.npage

-- A write to `addr`, in the writable area `v`, where the tables `pd0` and `pt` of `pgdir` map page
-- `p` copy-on-write and the lock of the page is free.
pub record CowFault (mm mm' : Mm) (v : Vma) (pgdir error_code addr pd0 pt p : ℕ) (m : Machine)
    : Type 0 where
  pub found : find_vma mm addr ≡ (some v, mm')
  pub start : v.vm_start ≤ addr
  pub by_write : any_of error_code pf_write ≡ true
  pub in_writable : any_of v.vm_flags vm_write ≡ true
  pub path : Walks m pgdir (round_down addr page_size) pd0 pt
  pub mapped : IsCow m (pt, ptx (round_down addr page_size)) p
  pub unlocked : (m.area.pages p).page_lock ≡ false

-- The lock of page `p` is set to `b`.
abbrev pub set_lock : Bool → ℕ → Machine → Machine
set_lock b p m = set_page m p (record (m.area.pages p) { page_lock = b })

is_cow-IsCow : (m : Machine) (slot : Slot) (p : ℕ) → IsCow m slot p → is_cow slot m ≡ true
is_cow-IsCow m slot p h = rw (h.valid, h.cow) refl

pub fault_locked-IsCow :
    (fuel pgdir la pd0 pt p : ℕ) (m : Machine)
    → Walks m pgdir la pd0 pt
    → IsCow m (pt, ptx la) p
    → fault_locked fuel pgdir la p m ≡ resolve fuel pgdir la (pt, ptx la) p m
unfolding fault_locked
fault_locked-IsCow fuel pgdir la pd0 pt p m path h =
    run_ok (get_pte fuel pgdir la false m) _ _ (get_pte-Walks fuel pgdir la false m pd0 pt path)
    ∙ if_false (not (is_cow (pt, ptx la) m)) _ _ (ap not (is_cow-IsCow m (pt, ptx la) p h))
    ∙ run_ok _ p _ (pte2page-valid (entry m (pt, ptx la)) m p h.valid h.page h.known)
    ∙ if_true (p == p) _ _ (==_refl p)

fault_in-CowFault :
    (fuel : ℕ) (mm mm' : Mm) (v : Vma) (pgdir error_code addr pd0 pt p : ℕ) (m : Machine)
    → CowFault mm mm' v pgdir error_code addr pd0 pt p m
    → fault_in fuel v pgdir error_code addr m
      ≡ fault_locked fuel pgdir (round_down addr page_size) p (set_lock true p m)
unfolding fault_in
fault_in-CowFault fuel mm mm' v pgdir error_code addr pd0 pt p m h =
    let la = round_down addr page_size in
    let s : Slot = (pt, ptx la) in
    let c = is_cow-IsCow m s p h.mapped in
    let w = h.by_write in
    let f = h.in_writable in
    let test : (is_cow s m && (any_of error_code pf_write && any_of v.vm_flags vm_write)) ≡ true =
      cc (c, w, f) in
    run_ok (get_pte fuel pgdir la false m) _ _ (get_pte-Walks fuel pgdir la false m pd0 pt h.path)
    ∙ if_true _ _ _ test
    ∙ run_ok _ p _ (pte2page-valid (entry m s) m p h.mapped.valid h.mapped.page h.mapped.known)
    ∙ run_ok (lock p m) _ _ (if_false (m.area.pages p).page_lock _ _ h.unlocked)

-- Then `do_pgfault` does what `resolve` does with the lock.
pub do_pgfault-CowFault :
    (fuel : ℕ) (mm mm' : Mm) (v : Vma) (pgdir error_code addr pd0 pt p : ℕ) (m m' : Machine)
    (ret : ℤ)
    → CowFault mm mm' v pgdir error_code addr pd0 pt p m
    → resolve fuel pgdir
        (round_down addr page_size)
        (pt, ptx (round_down addr page_size))
        p
        (set_lock true p m)
      ≡ ok (ret, m')
    → do_pgfault fuel (some (mm, pgdir)) error_code addr m ≡ ok (ret, some (mm', pgdir), m')
unfolding do_pgfault
do_pgfault-CowFault fuel mm mm' v pgdir error_code addr pd0 pt p m m' ret h run =
    let la = round_down addr page_size in
    let held = set_lock true p m in
    let same = Walks-frame m held pgdir la pd0 pt refl refl refl h.path in
    let cow : IsCow held (pt, ptx la) p = record {
      valid = h.mapped.valid;
      cow = h.mapped.cow;
      page = h.mapped.page;
      known = h.mapped.known;
    } in
    let inside =
      fault_in-CowFault fuel mm mm' v pgdir error_code addr pd0 pt p m h
      ∙ fault_locked-IsCow fuel pgdir la pd0 pt p held same cow
      ∙ run in
    rw (do_pgfault, h.found)
      (if_false (ltb addr v.vm_start) _ _ (le→not_ltb addr v.vm_start h.start)
        ∙ run_ok (fault_in fuel v pgdir error_code addr m) (ret, m') _ inside
        ∙ ap (λ x. ok (ret, some (x.1, pgdir), m')) h.found)
