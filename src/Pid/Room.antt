-- ===== src/Pid/Room.antt =====
-- Fewer processes than pids: some pid is unused.
use lab.Base.{
  ℕ, zero, suc, ◌+◌, ◌-◌, ◌≤◌, ◌<◌, ◌≡◌, ◌≢◌, subst, ok, ◌*◌, ◌⊎◌, inl, inr, List, [], ◌∷◌, length,
  ◌==◌, if◌then◌else◌, Bool-cases, ℤ, pos, negsuc, arith,
}
use lab.Pid.Clear.{Unused}
use lab.Pid.Unique.{IsValid, get_pid-Given}
use lab.Pid.{Pids, max_pid, get_pid}

without : ℕ → List ℤ → List ℤ
without pid [] = []
without pid (pos p ∷ ps) = if p == pid then without pid ps else pos p ∷ without pid ps
without pid (negsuc p ∷ ps) = negsuc p ∷ without pid ps

length-without : (pid : ℕ) (ps : List ℤ) → length (without pid ps) ≤ length ps
unfolding without
length-without pid [] = omega arith
length-without pid (pos p ∷ ps) = ground (arith, length-without pid ps)
length-without pid (negsuc p ∷ ps) = omega (arith, length-without pid ps)

Unused-cases : (pid : ℕ) (ps : List ℤ) → Unused pid ps ⊎ (length (without pid ps) < length ps)
unfolding without
Unused-cases pid [] = inl tt
Unused-cases pid (pos p ∷ ps) = elim (Bool-cases (p == pid)) [
  | inl e ↦ inr (ground (arith, length-without pid ps))
  | inr ne ↦ elim (Unused-cases pid ps) [
    | inl u ↦ inl (ground arith, u)
    | inr lt ↦ inr (ground arith)
  ]
]
Unused-cases pid (negsuc p ∷ ps) = elim (Unused-cases pid ps) [
  | inl u ↦ inl u
  | inr lt ↦ inr (omega arith)
]

Unused-without :
    (free pid : ℕ) (ps : List ℤ) → free ≢ pid → Unused free (without pid ps) → Unused free ps
unfolding without
Unused-without free pid [] ne u = tt
Unused-without free pid (pos p ∷ ps) ne u = elim (Bool-cases (p == pid)) [
  | inl e ↦ (ground arith, Unused-without free pid ps ne (ground arith))
  | inr other ↦
      let e : without pid (pos p ∷ ps) ≡ pos p ∷ without pid ps = ground arith in
      let u' = subst (Unused free) e u in (u'.0, Unused-without free pid ps ne u'.1)
]
Unused-without free pid (negsuc p ∷ ps) ne u = Unused-without free pid ps ne u

-- Among 1, ..., n there is an unused pid if there are fewer than n processes.
pub some-Unused :
    (n : ℕ) (ps : List ℤ) → length ps < n → (free : ℕ) × (1 ≤ free) × (free ≤ n) × Unused free ps
some-Unused zero ps lt = absurd (omega arith)
some-Unused (suc n) ps lt = elim (Unused-cases (suc n) ps) [
  | inl u ↦ (suc n, omega arith, omega arith, u)
  | inr less ↦
      let (free, low, high, u) = some-Unused n (without (suc n) ps) (omega arith) in
      (free, low, omega arith, Unused-without free (suc n) ps (omega arith) u)
]

-- If fewer processes than the MAX_PID - 1 pids are on the list, and between calls the pids between
-- last_pid and next_safe are unused, then `get_pid` ends, with fuel for MAX_PID walks over the list:
-- its pid is from 1 on, below MAX_PID and that of no process on the list, and the pids between it
-- and next_safe are unused again.
pub get_pid-Unused :
    (fuel : ℕ) (pids : List ℤ) (v : Pids)
    → IsValid pids v
    → length pids + 1 < max_pid
    → max_pid * (length pids + 1) + length pids < fuel
    → (v' : Pids) × (get_pid fuel pids v ≡ ok v')
      × (1 ≤ v'.last_pid)
      × (v'.last_pid < max_pid)
      × Unused v'.last_pid pids
      × IsValid pids v'
get_pid-Unused fuel pids v valid few enough =
    let (free, low, high, unused) = some-Unused (max_pid - 1) pids (omega arith) in
    get_pid-Given fuel pids free v valid low (omega arith) unused enough
