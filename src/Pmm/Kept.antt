-- ===== src/Pmm/Kept.antt =====
-- What an allocation leaves as it was in the page array.
use lab.Base.{
  ℕ, ◌≡◌, sym, ap, subst, inl, inr, Bool-cases, ltb, Option, none, some, Outcome, ok, panic,
  out_of_fuel, ◌>>=◌, arith,
}
use lab.Pmm.{Area, free_list, first_fit, split_block, take_pages, default_alloc_pages}

-- The reference counts and locks of all pages are the same.
abbrev pub SameRefs : Area → Area → Type 0
SameRefs a a' =
    (q : ℕ)
    → ((a'.pages q).ref ≡ (a.pages q).ref) × ((a'.pages q).page_lock ≡ (a.pages q).page_lock)

take_pages-SameRefs : (p n : ℕ) (a : Area) → SameRefs a (take_pages p n a)
unfolding take_pages split_block
take_pages-SameRefs p n a q = (ground arith, ground arith)

pub default_alloc_pages-SameRefs :
    (fuel n : ℕ) (a a' : Area) (r : Option ℕ)
    → default_alloc_pages fuel n a ≡ ok (r, a')
    → SameRefs a a'
unfolding default_alloc_pages
default_alloc_pages-SameRefs fuel n a a' r h = elim (Bool-cases (ltb 0 n)) [
  | inr zero_pages ↦ cc (rw zero_pages at h)
  | inl some_pages ↦ elim (Bool-cases (ltb a.nr_free n)) [
    | inl few ↦
        let e : ◌≡◌ {A = Outcome (Option ℕ × Area)} (ok (none, a)) (ok (r, a')) =
          rw (some_pages, few) at h in
        let e' : a ≡ a' = cc e in
        λ q. (ap (λ x. (x.pages q).ref) (sym e'), ap (λ x. (x.pages q).page_lock) (sym e'))
    | inr enough ↦ go (first_fit fuel n free_list a) (rw (some_pages, enough) at h)
  ]
]
  where
    go :
        (o : Outcome (Option ℕ))
        → (◌>>=◌ {T = Option ℕ × Area} o
            (λ page. elim page [ none ↦ ok (none, a) | some p ↦ ok (some p, take_pages p n a) ]))
          ≡ ok (r, a')
        → SameRefs a a'
    go panic e = cc e
    go out_of_fuel e = cc e
    go (ok none) e =
        let e' : a ≡ a' = cc e in
        λ q. (ap (λ x. (x.pages q).ref) (sym e'), ap (λ x. (x.pages q).page_lock) (sym e'))
    go (ok (some p)) e =
        let e' : take_pages p n a ≡ a' = cc e in subst (SameRefs a) e' (take_pages-SameRefs p n a)
