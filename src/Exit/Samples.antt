-- ===== src/Exit/Samples.antt =====
-- Process 4 of the sample kernel may exit.
use lab.Base.{refl, [], ◌∷◌, arith}
use lab.Proc.Samples.{sample, sample_Ring, sample-Family, init-Family}
use lab.Exit.Done.{CanExit}

pub sample-CanExit : CanExit sample 9 (6 ∷ 5 ∷ []) (3 ∷ []) (6 ∷ 5 ∷ []) (3 ∷ 2 ∷ [])
sample-CanExit = record {
  not_idle = omega arith;
  not_init = omega arith;
  not_parent = omega arith;
  parent_alive = refl;
  init_alive = refl;
  children = sample-Family;
  heirs = init-Family;
  apart = omega arith;
  listed = sample_Ring;
  enough_children = omega arith;
  enough_listed = omega arith;
}
