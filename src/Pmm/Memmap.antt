-- ===== src/Pmm/Memmap.antt =====
-- Boot: `default_init`, and then `default_init_memmap` for the one range of free memory.
use lab.Base.{ℕ, zero, suc, ◌+◌, ◌≤◌, ◌<◌, ◌≡◌, refl, true, [], ◌∷◌, update, lt→ltb, ok, arith}
use lab.Links.{Links}
use lab.Links.Ring.{Ring, list_init-Ring}
use lab.Pmm.Rep.{Rep}
use lab.Pmm.Insert.{insert_block-Linked}
use lab.Pmm.{
  Area, Page, blank, free_list, uint_mod, claim_pages, make_head, insert_block, default_init,
  default_init_memmap,
}

-- The pages are reserved, as `page_init` leaves them.
abbrev pub Reserved : (ℕ → Page) → ℕ → ℕ → Type 0
Reserved pages base n = (q : ℕ) → base ≤ q → q < base + n → (pages q).pg_reserved ≡ true

claimed : ℕ → ℕ → (ℕ → Page) → ℕ → Page
claimed zero p pages = pages
claimed (suc n) p pages = claimed n (p + 1) (update pages p blank)

claim_pages-claimed :
    (n p : ℕ) (a : Area)
    → Reserved a.pages p n
    → claim_pages n p a ≡ ok (record a { pages = claimed n p a.pages })
unfolding claim_pages claimed
claim_pages-claimed zero p a h = refl
claim_pages-claimed (suc n) p a h =
    rw (h p (omega arith) (omega arith))
      (claim_pages-claimed n (p + 1) _ (λ q lo hi. ground (arith, h q (omega arith) (omega arith))))

headed : ℕ → ℕ → Area → Area
headed base n a = make_head base n (record a { pages = claimed n base a.pages })

memmap_run :
    (fuel base n : ℕ) (a : Area) (s : Links)
    → 0 < n
    → Reserved a.pages base n
    → insert_block fuel base a.links ≡ ok s
    → default_init_memmap fuel base n a ≡ ok (record (headed base n a) { links = s })
unfolding default_init_memmap headed
memmap_run fuel base n a s pos reserved e =
    rw (lt→ltb 0 n pos, claim_pages-claimed n base a reserved, e)

memmap_Rep :
    (base n : ℕ) (a : Area) (s : Links)
    → 0 < n
    → n < uint_mod
    → a.nr_free ≡ 0
    → Ring s free_list ((base + 1) ∷ [])
    → Rep (record (headed base n a) { links = s }) ((base, n) ∷ [])
unfolding headed make_head
memmap_Rep base n a s pos small none_free ring = record {
  ring = ring;
  sized = (ground arith, ground arith, tt);
  apart = (omega arith, pos, tt);
  count = omega (arith, none_free);
  small = omega arith;
}

-- From reserved pages, at least one and fewer than 2^32 of them, and with fuel, `default_init` and
-- `default_init_memmap` succeed and give exactly one free block: all of the pages.
pub default_init_memmap-Rep :
    (fuel base n : ℕ) (a : Area)
    → 0 < n
    → n < uint_mod
    → Reserved a.pages base n
    → 0 < fuel
    → (a' : Area) × (default_init_memmap fuel base n (default_init a) ≡ ok a')
      × Rep a' ((base, n) ∷ [])
unfolding default_init
default_init_memmap-Rep fuel base n a pos small reserved enough =
    let (s, e, ring) =
      insert_block-Linked fuel base n (default_init a).links [] []
        (list_init-Ring a.links free_list) tt tt tt pos (λ _. refl) enough in
    (
      record (headed base n (default_init a)) { links = s },
      memmap_run fuel base n (default_init a) s pos reserved e,
      memmap_Rep base n (default_init a) s pos small refl ring,
    )
