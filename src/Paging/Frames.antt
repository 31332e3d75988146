-- ===== src/Paging/Frames.antt =====
-- What writes to one entry, one page or one reference count leave as it was.
use lab.Base.{
  ℕ, ◌≡◌, ◌≢◌, ◌⊎◌, inl, inr, Bool, true, false, ◌==◌, ==_refl, ne→not_eq, if◌then◌else◌, if_true,
  if_false, update, refl, ◌∙◌, ap, arith,
}
use lab.Paging.{Pte, Machine, Slot, entry, set_entry, page_ref, set_page_ref, copy_frame}

pub entry-set_entry : (m : Machine) (s : Slot) (e : Pte) → entry (set_entry m s e) s ≡ e
entry-set_entry m s e =
    ap (λ f. f s.1)
      (if_true (s.0 == s.0) (update (m.frames s.0) s.1 e) (m.frames s.0) (==_refl s.0))
    ∙ if_true (s.1 == s.1) e (m.frames s.0 s.1) (==_refl s.1)

pub frames-set_entry :
    (m : Machine) (s : Slot) (e : Pte) (t i : ℕ)
    → (t ≢ s.0) ⊎ (i ≢ s.1)
    → (set_entry m s e).frames t i ≡ m.frames t i
frames-set_entry m s e t i (inl ne) =
    ap (λ f. f i)
      (if_false (t == s.0) (update (m.frames t) s.1 e) (m.frames t) (ne→not_eq t s.0 ne))
frames-set_entry m s e t i (inr ne) = go (t == s.0)
  where
    go : (b : Bool) → (if b then update (m.frames t) s.1 e else m.frames t) i ≡ m.frames t i
    go true = if_false (i == s.1) e (m.frames t i) (ne→not_eq i s.1 ne)
    go false = refl

pub frames-copy_frame :
    (m : Machine) (dst src t i : ℕ) → t ≢ dst → (copy_frame m dst src).frames t i ≡ m.frames t i
frames-copy_frame m dst src t i ne =
    ap (λ f. f i) (if_false (t == dst) (m.frames src) (m.frames t) (ne→not_eq t dst ne))

pub copied : (m : Machine) (dst src i : ℕ) → (copy_frame m dst src).frames dst i ≡ m.frames src i
copied m dst src i =
    ap (λ f. f i) (if_true (dst == dst) (m.frames src) (m.frames dst) (==_refl dst))

pub page_ref-set : (p val : ℕ) (m : Machine) → page_ref (set_page_ref p val m) p ≡ val
page_ref-set p val m = ap (λ x. x.ref) (if_true (p == p) _ (m.area.pages p) (==_refl p))

pub pages-set_other :
    (p val q : ℕ) (m : Machine) → q ≢ p → (set_page_ref p val m).area.pages q ≡ m.area.pages q
pages-set_other p val q m ne = if_false (q == p) _ (m.area.pages q) (ne→not_eq q p ne)

pub page_lock-set :
    (p val q : ℕ) (m : Machine)
    → ((set_page_ref p val m).area.pages q).page_lock ≡ (m.area.pages q).page_lock
page_lock-set p val q m = ground arith
