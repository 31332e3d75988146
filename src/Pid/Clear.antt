-- ===== src/Pid/Clear.antt =====
-- Ranges of pids that no process has.
use lab.Base.{ℕ, ◌+◌, ◌≤◌, ◌<◌, ◌⊎◌, List, [], ◌∷◌, ◌++◌, ℤ, pos, negsuc, arith}

-- No pid of the list is from `lo` on and below `hi`.
abbrev pub Clear : ℕ → ℕ → List ℤ → Type 0
Clear lo hi [] = Unit {0}
Clear lo hi (pos p ∷ ps) = ((p < lo) ⊎ (hi ≤ p)) × Clear lo hi ps
Clear lo hi (negsuc p ∷ ps) = Clear lo hi ps

-- No process has the pid.
abbrev pub Unused : ℕ → List ℤ → Type 0
Unused pid pids = Clear pid (pid + 1) pids

pub Clear-within :
    (lo hi lo' hi' : ℕ) (ps : List ℤ) → lo ≤ lo' → hi' ≤ hi → Clear lo hi ps → Clear lo' hi' ps
Clear-within lo hi lo' hi' [] a b c = tt
Clear-within lo hi lo' hi' (pos p ∷ ps) a b c =
    (ground arith, Clear-within lo hi lo' hi' ps a b c.1)
Clear-within lo hi lo' hi' (negsuc p ∷ ps) a b c = Clear-within lo hi lo' hi' ps a b c

pub Clear-snoc :
    (lo hi : ℕ) (ps : List ℤ) (p : ℤ)
    → Clear lo hi ps
    → Clear lo hi (p ∷ [])
    → Clear lo hi (ps ++ p ∷ [])
Clear-snoc lo hi [] p c d = d
Clear-snoc lo hi (pos q ∷ ps) p c d = (c.0, Clear-snoc lo hi ps p c.1 d)
Clear-snoc lo hi (negsuc q ∷ ps) p c d = Clear-snoc lo hi ps p c d

pub Clear-middle :
    (lo hi : ℕ) (l r : List ℤ) (p : ℕ) → Clear lo hi (l ++ pos p ∷ r) → (p < lo) ⊎ (hi ≤ p)
Clear-middle lo hi [] r p c = c.0
Clear-middle lo hi (pos q ∷ l) r p c = Clear-middle lo hi l r p c.1
Clear-middle lo hi (negsuc q ∷ l) r p c = Clear-middle lo hi l r p c
