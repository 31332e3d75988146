-- ===== src/Paging/Alloc.antt =====
-- What `alloc_pages` leaves as it was.
use lab.Base.{ℕ, ◌≡◌, refl, sym, ◌∙◌, ap, Option, Outcome, ok, panic, out_of_fuel, ◌>>=◌}
use lab.Pmm.{Area, default_alloc_pages}
use lab.Pmm.Kept.{SameRefs, default_alloc_pages-SameRefs}
use lab.Paging.{Machine, alloc_pages}

pub alloc_pages-kept :
    (fuel n : ℕ) (m m₁ : Machine) (r : Option ℕ)
    → alloc_pages fuel n m ≡ ok (r, m₁)
    → (m₁.frames ≡ m.frames) × (m₁.npage ≡ m.npage) × SameRefs m.area m₁.area
unfolding alloc_pages
alloc_pages-kept fuel n m m₁ r h = go (default_alloc_pages fuel n m.area) refl h
  where
    go :
        (o : Outcome (Option ℕ × Area))
        → default_alloc_pages fuel n m.area ≡ o
        → (◌>>=◌ {T = Option ℕ × Machine} o (λ x. ok (x.0, record m { area = x.1 }))) ≡ ok (r, m₁)
        → (m₁.frames ≡ m.frames) × (m₁.npage ≡ m.npage) × SameRefs m.area m₁.area
    go panic run e = cc e
    go out_of_fuel run e = cc e
    go (ok (r', a)) run e =
        let e' : record m { area = a } ≡ m₁ = cc e in
        let s = default_alloc_pages-SameRefs fuel n m.area a r' run in
        (
          ap (λ x. x.frames) (sym e'),
          ap (λ x. x.npage) (sym e'),
          (λ q. (
            ap (λ x. (x.area.pages q).ref) (sym e') ∙ (s q).0,
            ap (λ x. (x.area.pages q).page_lock) (sym e') ∙ (s q).1,
          )),
        )
