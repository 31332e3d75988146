-- ===== src/Pmm/TailFree.antt =====
-- The run of `default_free_pages` on a block above all others, step by step.
use lab.Base.{
  ℕ, ◌+◌, ◌≤◌, ◌<◌, ◌≡◌, ◌≢◌, ap, ◌∙◌, subst, inl, List, [], ◌∷◌, ◌++◌, length, lt→ltb, ok, arith,
  last, last-append,
}
use lab.Links.{Links, list_add}
use lab.Links.Ring.{Ring, next-of}
use lab.Pmm.Blocks.{
  Block, entries, entries-append, total, end_of, Apart-split, Absent-above, end_of-append,
}
use lab.Pmm.Rep.{Rep}
use lab.Pmm.Insert.{not_empty}
use lab.Pmm.Reset.{InUse, cleared, cleared-outside, reset_pages-cleared, Sized-below, Below-Apart}
use lab.Pmm.Tail.{insert_scan-last}
use lab.Pmm.{
  Area, free_list, uint_mod, insert_block, make_head, merge_both, merge_prev, merge_next,
  default_free_pages,
}
use lab.Pmm.Stuck.{Stuck, Forward-retarget}

-- The block is freed above all others, which are well formed.
module _ (fuel n base q m : ℕ) (l : List Block) (a : Area) (rep : Rep a (l ++ (q, m) ∷ []))
    (pos : 0 < n) (gap : q + m ≤ base) (used : InUse a.pages base n)
    (room : total (l ++ (q, m) ∷ []) + n < uint_mod) (enough : length l + 2 < fuel) where
  tail_links : Links
  tail_links = list_add (base + 1) (base + 1) (list_add (q + 1) (base + 1) a.links)

  headed : Area
  headed = make_head base n (record a { pages = cleared n base a.pages })

  pub freed : Area
  freed = record headed { links = tail_links }

  pub bs_end : end_of 0 (l ++ (q, m) ∷ []) ≤ base
  bs_end = omega (arith, end_of-append 0 l q m)

  bs-Ring : Ring a.links free_list (entries l ++ (q + 1) ∷ [])
  bs-Ring = subst (Ring a.links free_list) (entries-append l ((q, m) ∷ [])) rep.ring

  last_next : a.links.next (q + 1) ≡ free_list
  last_next = next-of (q + 1) (entries l) [] bs-Ring

  last_entry : last free_list (entries (l ++ (q, m) ∷ [])) ≡ q + 1
  last_entry =
      ap (last free_list) (entries-append l ((q, m) ∷ []))
      ∙ last-append free_list (entries l) (q + 1) []

  apart_le : q ≤ base
  apart_le = omega arith

  apart_ne : q ≢ base
  apart_ne = omega (arith, (Apart-split 0 l ((q, m) ∷ []) rep.apart).1)

  next_elsewhere : (x : ℕ) → x ≢ q + 1 → x ≢ base + 1 → tail_links.next x ≡ a.links.next x
  unfolding tail_links list_add
  next_elsewhere x nq nb = ground arith

  next_last : tail_links.next (q + 1) ≡ base + 1
  unfolding tail_links list_add
  next_last = ground (arith, apart_ne)

  next_base : tail_links.next (base + 1) ≡ free_list
  unfolding tail_links list_add
  next_base = ground (arith, apart_ne, last_next)

  prev_base : tail_links.prev (base + 1) ≡ base + 1
  unfolding tail_links list_add
  prev_base = ground arith

  base_size : (headed.pages base).property ≡ n
  unfolding headed make_head
  base_size = ground arith

  below_same : (x : ℕ) → x < base → headed.pages x ≡ a.pages x
  unfolding headed make_head
  below_same x lt = ground (arith, cleared-outside n base a.pages x (inl lt))

  freed_count : headed.nr_free ≡ total (l ++ (q, m) ∷ []) + n
  unfolding headed make_head
  freed_count = omega (arith, rep.count)

  pub freed-Stuck : Stuck n base (l ++ (q, m) ∷ []) freed
  unfolding freed
  freed-Stuck = record {
    forward =
        Forward-retarget a.links tail_links (base + 1) (base + 1) free_list
          (entries (l ++ (q, m) ∷ [])) free_list rep.ring.seg rep.ring.distinct
          (omega arith, Absent-above base 0 (l ++ (q, m) ∷ []) rep.apart bs_end)
          (rw last_entry next_elsewhere) (rw last_entry next_last);
    ended = next_base;
    looped = prev_base;
    sized = Sized-below a.pages headed.pages 0 base _ below_same rep.apart bs_end rep.sized;
    size = base_size;
  }

  pub freed_next : freed.links.next (q + 1) ≡ base + 1
  unfolding freed
  freed_next = next_last

  pub freed_nr_free : freed.nr_free ≡ total (l ++ (q, m) ∷ []) + n
  unfolding freed
  freed_nr_free = freed_count

  l_gap : end_of 0 l ≤ base
  l_gap = omega (arith, (Apart-split 0 l ((q, m) ∷ []) rep.apart).1.0, apart_le)

  inserts : insert_block fuel base a.links ≡ ok tail_links
  unfolding insert_block tail_links
  inserts = rw (not_empty a.links l q [] bs-Ring) (
      insert_scan-last fuel base free_list a.links l q m rep.ring.seg
        (Below-Apart 0 base l (Apart-split 0 l ((q, m) ∷ []) rep.apart).0 l_gap)
        (omega (arith, apart_le, apart_ne)) enough)

  unmerged : merge_both base freed ≡ freed
  unfolding merge_both merge_prev merge_next freed
  unmerged = ground (arith, next_base, prev_base, base_size)

  pub free_run : default_free_pages fuel base n a ≡ ok freed
  unfolding default_free_pages freed headed
  free_run = rw (lt→ltb 0 n pos, reset_pages-cleared n base a used, inserts) (ap ok unmerged)
