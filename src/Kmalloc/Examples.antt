-- ===== src/Kmalloc/Examples.antt =====
-- A request for 4070 bytes.
use lab.Base.{◌≡◌, [], panic, arith}
use lab.Paging.{zero_pte}
use lab.Paging.Samples.{memory}
use lab.Kmalloc.Sizes.{kmalloc-panic}
use lab.Kmalloc.{Slob, kmalloc}

-- At boot there is the arena only, a block of one unit.
abbrev boot : Slob
boot = record {
  units = λ b. 1;
  next = λ b. b;
  slobfree = 7;
  bigblocks = [];
  machine = memory zero_pte 1;
}

kmalloc-panic_example : kmalloc 9 4070 boot ≡ panic
kmalloc-panic_example = kmalloc-panic 9 4070 boot (omega arith) (omega arith)
