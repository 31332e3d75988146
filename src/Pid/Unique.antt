-- ===== src/Pid/Unique.antt =====
-- `get_pid` ends, and the pid is new.
use lab.Base.{
  ℕ, zero, suc, ◌+◌, ◌-◌, ◌*◌, ◌≤◌, ◌<◌, ◌≡◌, ◌≢◌, refl, sym, ap, subst, ◌∙◌, inl, inr, false, List,
  [], ◌∷◌, ◌++◌, length, length-append, leb, ◌==◌, if◌then◌else◌, Bool-cases, ℤ, pos, negsuc,
  Outcome, ok, append_assoc, append-nil, arith,
}
use lab.Pid.Clear.{Clear, Unused, Clear-within, Clear-snoc, Clear-middle}
use lab.Pid.{Pids, max_pid, pid_between, visit, scan_pids, get_pid}

-- How many times last_pid can still go up, around, before it gets to the pid `free`.
abbrev distance : ℕ → ℕ → ℕ
distance free last = if leb last free then free - last else free + max_pid - 1 - last

-- The variables within the loop, behind the pids `seen`.
record IsLoop (seen : List ℤ) (v : Pids) : Type 0 where
  low : 1 ≤ v.last_pid
  order : v.last_pid < v.next_safe
  high : v.next_safe ≤ max_pid
  clear : Clear v.last_pid v.next_safe seen

-- What one round keeps and brings closer.
abbrev Round : List ℤ → ℕ → List ℤ → Pids → List ℤ × Pids → Type 0
Round all free rest v (rest', v') =
    ((seen : List ℤ) × (all ≡ seen ++ rest') × IsLoop seen v')
    × (distance free v'.last_pid * (length all + 1) + length rest'
        < distance free v.last_pid * (length all + 1) + length rest + 1)

distance-step :
    (free last : ℕ)
    → 1 ≤ free
    → free < max_pid
    → 1 ≤ last
    → last < max_pid
    → last ≢ free
    → distance free last ≡ distance free (if leb max_pid (last + 1) then 1 else last + 1) + 1
distance-step free last one small low high other = ground arith

-- One step less weighs more than a whole new walk over the list.
closer : (d d' n r r' : ℕ) → d ≡ d' + 1 → r' ≤ n → d' * (n + 1) + r' < d * (n + 1) + r + 1
closer d d' n r r' e le = rw e (omega (arith, row))
  where
    row : (d' + 1) * (n + 1) ≡ d' * (n + 1) + (n + 1)
    row = grind arith

above-not :
    (last safe : ℕ) → leb safe (last + 1) ≡ false → safe ≤ max_pid → leb max_pid (last + 1) ≡ false
above-not last safe on high = ground arith

-- A round that goes on with the rest.
later : (all seen rest : List ℤ) (p : ℤ) → all ≡ seen ++ p ∷ rest → all ≡ (seen ++ p ∷ []) ++ rest
later all seen rest p e = e ∙ sym (append_assoc seen (p ∷ []) rest)

IsLoop-next :
    (seen : List ℤ) (p : ℤ) (v v' : Pids)
    → IsLoop seen v
    → v.last_pid ≤ v'.last_pid
    → v'.last_pid < v'.next_safe
    → v'.next_safe ≤ v.next_safe
    → Clear v'.last_pid v'.next_safe (p ∷ [])
    → IsLoop (seen ++ p ∷ []) v'
IsLoop-next seen p v v' inv up order down clear = record {
  low = omega (arith, inv.low);
  order = order;
  high = omega (arith, inv.high);
  clear =
      Clear-snoc v'.last_pid v'.next_safe seen p
        (Clear-within v.last_pid v.next_safe v'.last_pid v'.next_safe seen up down inv.clear) clear;
}

visit-Round :
    (all seen rest : List ℤ) (p : ℤ) (free : ℕ) (v : Pids)
    → all ≡ seen ++ p ∷ rest
    → 1 ≤ free
    → free < max_pid
    → Unused free all
    → IsLoop seen v
    → Round all free rest v (visit all p rest v)
visit-Round all seen rest (negsuc p) free v e one small unused inv = (
  (
    seen ++ negsuc p ∷ [],
    later all seen rest (negsuc p) e,
    IsLoop-next seen (negsuc p) v v inv (omega arith) inv.order (omega arith) tt,
  ),
  omega arith,
)
visit-Round all seen rest (pos p) free v e one small unused inv =
    let apart = Clear-middle free (free + 1) seen rest p (subst (Unused free) e unused) in
    elim (Bool-cases (p == v.last_pid)) [
      | inl same ↦
          let step =
            distance-step free v.last_pid one small inv.low (omega (arith, inv.order, inv.high))
              (ground arith) in
          elim (Bool-cases (leb v.next_safe (v.last_pid + 1))) [
            | inl again ↦
                rw (same, again)
                  (
                    (
                      [],
                      refl,
                      record {
                        low = ground arith;
                        order = ground arith;
                        high = omega arith;
                        clear = tt;
                      },
                    ),
                    closer _ _ (length all) (length rest) (length all) step (omega arith),
                  )
            | inr on ↦
                rw (same, on)
                  (
                    (
                      seen ++ pos p ∷ [],
                      later all seen rest (pos p) e,
                      IsLoop-next seen (pos p) v (record v { last_pid = v.last_pid + 1 }) inv
                          (omega arith) (ground arith) (omega arith) ((ground arith, tt)),
                    ),
                    closer _ _ (length all) (length rest) (length rest)
                        (step ∙ rw (above-not v.last_pid v.next_safe on inv.high) refl)
                        (omega (arith, ap length e, length-append seen (pos p ∷ rest))),
                  )
          ]
      | inr other ↦ elim (Bool-cases (pid_between (pos p) v)) [
        | inl between ↦
            rw (other, between)
              (
                (
                  seen ++ pos p ∷ [],
                  later all seen rest (pos p) e,
                  IsLoop-next seen (pos p) v (record v { next_safe = p }) inv (omega arith)
                      (ground arith) (ground arith) (ground arith, tt),
                ),
                omega arith,
              )
        | inr out ↦
            rw (other, out)
              (
                (
                  seen ++ pos p ∷ [],
                  later all seen rest (pos p) e,
                  IsLoop-next seen (pos p) v v inv (omega arith) inv.order (omega arith)
                      (ground (arith, inv.order), tt),
                ),
                omega arith,
              )
      ]
    ]

scan_pids-ends :
    (fuel : ℕ) (all seen rest : List ℤ) (free : ℕ) (v : Pids)
    → all ≡ seen ++ rest
    → 1 ≤ free
    → free < max_pid
    → Unused free all
    → IsLoop seen v
    → distance free v.last_pid * (length all + 1) + length rest < fuel
    → (v' : Pids) × (scan_pids fuel all rest v ≡ ok v') × IsLoop all v'
unfolding scan_pids
scan_pids-ends zero all seen rest free v e one small unused inv enough = absurd (omega arith)
scan_pids-ends (suc fuel) all seen [] free v e one small unused inv enough =
    (v, refl, subst (λ ps. IsLoop ps v) (sym (e ∙ append-nil seen)) inv)
scan_pids-ends (suc fuel) all seen (p ∷ rest) free v e one small unused inv enough =
    let ((seen', e', inv'), less) = visit-Round all seen rest p free v e one small unused inv in
    scan_pids-ends fuel all seen' (visit all p rest v).0 free (visit all p rest v).1 e' one small
      unused inv' (omega arith)

-- Between calls: the pids between the two variables are free.
pub record IsValid (pids : List ℤ) (v : Pids) : Type 0 where
  pub high : v.next_safe ≤ max_pid
  pub clear : Clear (v.last_pid + 1) v.next_safe pids

mul_mono : (a b n : ℕ) → a ≤ b → a * n ≤ b * n
mul_mono a b n le = grind arith

abbrev pub Given : List ℤ → Outcome Pids → Type 0
Given pids o =
    (v' : Pids) × (o ≡ ok v')
    × (1 ≤ v'.last_pid)
    × (v'.last_pid < max_pid)
    × Unused v'.last_pid pids
    × IsValid pids v'

-- The walk from a given last_pid.
inside-Given :
    (fuel last : ℕ) (pids : List ℤ) (free : ℕ)
    → 1 ≤ last
    → last < max_pid
    → 1 ≤ free
    → free < max_pid
    → Unused free pids
    → max_pid * (length pids + 1) + length pids < fuel
    → Given pids (scan_pids fuel pids pids (record { last_pid = last; next_safe = max_pid }))
inside-Given fuel last pids free low high one small unused enough =
    let start : Pids = record { last_pid = last; next_safe = max_pid } in
    let (v', run, inv) =
      scan_pids-ends fuel pids [] pids free start refl one small unused
        (record { low = low; order = high; high = omega arith; clear = tt })
        (omega (arith, mul_mono (distance free last) max_pid (length pids + 1) (ground arith))) in
    (
      v',
      run,
      inv.low,
      omega (arith, inv.order, inv.high),
      Clear-within v'.last_pid v'.next_safe v'.last_pid (v'.last_pid + 1) pids (omega arith)
          (omega (arith, inv.order)) inv.clear,
      record {
        high = inv.high;
        clear =
            Clear-within v'.last_pid v'.next_safe (v'.last_pid + 1) v'.next_safe pids (omega arith)
              (omega arith) inv.clear;
      },
    )

pub get_pid-Given :
    (fuel : ℕ) (pids : List ℤ) (free : ℕ) (v : Pids)
    → IsValid pids v
    → 1 ≤ free
    → free < max_pid
    → Unused free pids
    → max_pid * (length pids + 1) + length pids < fuel
    → Given pids (get_pid fuel pids v)
unfolding get_pid
get_pid-Given fuel pids free v valid one small unused enough =
    elim (Bool-cases (leb max_pid (v.last_pid + 1))) [
      | inl wrap ↦
          rw wrap
            (inside-Given fuel 1 pids free (omega arith) (omega arith) one small unused enough)
      | inr low ↦ elim (Bool-cases (leb v.next_safe (v.last_pid + 1))) [
        | inl over ↦
            rw (low, over)
              (inside-Given fuel (v.last_pid + 1) pids free (omega arith) (ground arith) one small
                unused enough)
        | inr fast ↦
            rw (low, fast)
              (
                record v { last_pid = v.last_pid + 1 },
                refl,
                omega arith,
                ground (arith, low),
                Clear-within (v.last_pid + 1) v.next_safe (v.last_pid + 1) (v.last_pid + 1 + 1) pids
                    (omega arith) (ground arith) valid.clear,
                record {
                  high = valid.high;
                  clear =
                      Clear-within (v.last_pid + 1) v.next_safe (v.last_pid + 1 + 1) v.next_safe
                        pids (omega arith) (omega arith) valid.clear;
                },
              )
      ]
    ]
