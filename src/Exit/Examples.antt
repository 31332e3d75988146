-- ===== src/Exit/Examples.antt =====
-- The end of the process 4 of the sample kernel.
use lab.Exit.Samples.{sample-CanExit}
use lab.Base.{◌≡◌, [], ◌∷◌, pos, ok}
use lab.Proc.{Kernel}
use lab.Proc.Samples.{sample}
use lab.Exit.Loop.{rev_onto}
use lab.Exit.Done.{Exited, do_exit-Exited}
use lab.Exit.{do_exit}

do_exit-Exited_example :
    (k : Kernel) × (do_exit 9 (pos 3) sample ≡ ok k)
    × Exited sample (pos 3) (rev_onto (6 ∷ 5 ∷ []) (3 ∷ [])) k
do_exit-Exited_example =
    do_exit-Exited 9 (pos 3) sample (6 ∷ 5 ∷ []) (3 ∷ []) (6 ∷ 5 ∷ []) (3 ∷ 2 ∷ []) sample-CanExit
