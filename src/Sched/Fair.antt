-- ===== src/Sched/Fair.antt =====
-- No process that may run waits for ever: `schedule` passes over it at most once for each other process.
use lab.Base.{
  ℕ, zero, suc, ◌+◌, ◌≤◌, ◌<◌, ◌≡◌, ◌≢◌, refl, sym, ap, subst, ◌∙◌, ◌⊎◌, inl, inr, true, List, [],
  ◌∷◌, ◌++◌, length, length-append, Absent, Absent-split, append_assoc, append-nil, Bool-cases, ok,
  arith,
}
use lab.Links.Ring.{Ring}
use lab.Proc.{Proc, Kernel, proc_list, is_runnable}
use lab.Sched.RoundRobin.{first_runnable, schedule-round_robin}
use lab.Sched.{schedule}

-- `order` is how `schedule` looks at the list `xs` in the process `c`: behind it, around, and `c` last.
pub record Order (xs : List ℕ) (c : ℕ) (order : List ℕ) : Type 0 where
  pub before : List ℕ
  pub behind : List ℕ
  pub listed : xs ≡ before ++ c ∷ behind
  pub around : order ≡ behind ++ (before ++ c ∷ [])

-- Where an element stands in two lists joined.
append-cases :
    (xs ys ahead : List ℕ) (b : ℕ) (bs : List ℕ)
    → xs ++ ys ≡ ahead ++ b ∷ bs
    → ((t : List ℕ) × (xs ≡ ahead ++ b ∷ t) × (bs ≡ t ++ ys))
      ⊎ ((t : List ℕ) × (ahead ≡ xs ++ t) × (ys ≡ t ++ b ∷ bs))
append-cases [] ys ahead b bs e = inr (ahead, refl, e)
append-cases (x ∷ xs) ys [] b bs e = inl (xs, ground (arith), ground (arith))
append-cases (x ∷ xs) ys (a ∷ ahead) b bs e = elim (append-cases xs ys ahead b bs (cc)) [
  | inl (t, p, q) ↦ inl (t, cc, q)
  | inr (t, p, q) ↦ inr (t, cc, q)
]

-- The one element of a list.
append-one :
    (c : ℕ) (ahead : List ℕ) (b : ℕ) (bs : List ℕ)
    → c ∷ [] ≡ ahead ++ b ∷ bs
    → (ahead ≡ []) × (b ≡ c) × (bs ≡ [])
append-one c [] b bs e = (refl, cc, cc)
append-one c (a ∷ []) b bs e = cc
append-one c (a ∷ x ∷ ahead) b bs e = cc

-- From a process on, the order turns.
Order-next :
    (xs : List ℕ) (c : ℕ) (ahead : List ℕ) (q : ℕ) (rest : List ℕ)
    → Order xs c (ahead ++ q ∷ rest)
    → Order xs q (rest ++ (ahead ++ q ∷ []))
Order-next xs c ahead q rest o =
    elim (append-cases o.behind (o.before ++ c ∷ []) ahead q rest (sym o.around)) [
      | inl (t, behind, e) ↦ record {
        before = o.before ++ c ∷ ahead;
        behind = t;
        listed = o.listed ∙ ap (λ x. o.before ++ c ∷ x) behind ∙ simp append_assoc;
        around = ap (λ x. x ++ (ahead ++ q ∷ [])) e ∙ simp append_assoc;
      }
      | inr (s, front, e) ↦ elim (append-cases o.before (c ∷ []) s q rest e) [
        | inl (t, before, e') ↦ record {
          before = s;
          behind = t ++ c ∷ o.behind;
          listed = o.listed ∙ ap (λ x. x ++ c ∷ o.behind) before ∙ simp append_assoc;
          around = rw (e', front) (simp append_assoc);
        }
        | inr (t, before, e') ↦
            let (none_left, same, over) = append-one c t q rest e' in
            let whole : s ≡ o.before =
              before ∙ ap (◌++◌ o.before) none_left ∙ append-nil o.before in
            record {
              before = o.before;
              behind = o.behind;
              listed = o.listed ∙ ap (λ x. o.before ++ x ∷ o.behind) (sym same);
              around = rw (over, front, whole) (simp append_assoc);
            }
      ]
    ]

-- The first runnable process of a list is the one that is known to be runnable, or stands before it.
first_runnable-before :
    (procs : ℕ → Proc) (idle : ℕ) (xs : List ℕ) (p : ℕ) (ys : List ℕ)
    → is_runnable (procs p).state ≡ true
    → (first_runnable procs idle (xs ++ p ∷ ys) ≡ p)
      ⊎ ((ahead : List ℕ) × (q : ℕ) × (rest : List ℕ) × (xs ≡ ahead ++ q ∷ rest)
          × (first_runnable procs idle (xs ++ p ∷ ys) ≡ q))
unfolding first_runnable
first_runnable-before procs idle [] p ys run = inl (rw run refl)
first_runnable-before procs idle (x ∷ xs) p ys run =
    elim (Bool-cases (is_runnable (procs x).state)) [
      | inl now ↦ inr ([], x, xs, refl, rw now refl)
      | inr stay ↦ elim (first_runnable-before procs idle xs p ys run) [
        | inl e ↦ inl (rw stay e)
        | inr (ahead, q, rest, e, f) ↦ inr (x ∷ ahead, q, rest, ap (◌∷◌ x) e, rw stay f)
      ]
    ]

-- What may happen between two calls of `schedule`: the process `p` can still run, and the list of
-- processes `xs` and the current process are the same.
pub record Works (p idle : ℕ) (xs : List ℕ) (k k' : Kernel) : Type 0 where
  pub current : k'.current ≡ k.current
  pub idle_same : k'.idleproc ≡ idle
  pub listed : Ring k'.links proc_list xs
  pub can_run : is_runnable (k'.procs p).state ≡ true

-- In `n` rounds a process works and calls `schedule`, which never chooses `p`.
pub data Passes (fuel p idle : ℕ) (xs : List ℕ) : ℕ → Kernel → Kernel → Type 0 where
  start : {k : Kernel} → Passes fuel p idle xs zero k k
  round :
      {n : ℕ} {k k₁ k₂ k' : Kernel}
      → Works p idle xs k k₁
      → schedule fuel k₁ ≡ ok k₂
      → k₂.current ≢ p
      → Passes fuel p idle xs n k₂ k'
      → Passes fuel p idle xs (suc n) k k'

not_idle : (idle c : ℕ) (xs order : List ℕ) → Absent idle xs → Order xs c order → c ≢ idle
not_idle idle c xs order ab o e =
    (Absent-split idle o.before (c ∷ o.behind) (subst (Absent idle) o.listed ab)).1.0 (sym e)

enough_for :
    (xs : List ℕ) (c : ℕ) (order : List ℕ) (o : Order xs c order) (fuel : ℕ)
    → length xs < fuel
    → length o.before + length o.behind + 1 < fuel
enough_for xs c order o fuel enough =
    omega (arith, ap length o.listed, length-append o.before (c ∷ o.behind))

-- The choice of a round, in the order of the current process.
module _ (fuel p idle : ℕ) (xs ahead rest : List ℕ) (k k₁ k₂ : Kernel) (off : Absent idle xs)
    (enough : length xs < fuel) (o : Order xs k.current (ahead ++ p ∷ rest))
    (works : Works p idle xs k k₁) (run : schedule fuel k₁ ≡ ok k₂) where
  chosen : k₂.current ≡ first_runnable k₁.procs k₁.idleproc (ahead ++ p ∷ rest)
  chosen =
      let o₁ : Order xs k₁.current (ahead ++ p ∷ rest) =
        subst (λ c. Order xs c (ahead ++ p ∷ rest)) (sym works.current) o in
      let (k'', run', s) =
        schedule-round_robin k₁ fuel o₁.before o₁.behind
          (λ e. not_idle idle k₁.current xs (ahead ++ p ∷ rest) off o₁ (e ∙ works.idle_same))
          (subst (Ring k₁.links proc_list) o₁.listed works.listed)
          (enough_for xs k₁.current (ahead ++ p ∷ rest) o₁ fuel enough) in
      let same : k₂ ≡ k'' = cc (run, run') in
      ap (λ (x : Kernel). x.current) same
      ∙ s.chosen
      ∙ ap (first_runnable k₁.procs k₁.idleproc) (sym o₁.around)

  -- Another process is chosen, and `p` stands nearer then.
  nearer :
      k₂.current ≢ p
      → (t : List ℕ) × (rest' : List ℕ) × (length t < length ahead)
        × Order xs k₂.current (t ++ p ∷ rest')
  nearer ne = elim (first_runnable-before k₁.procs k₁.idleproc ahead p rest works.can_run) [
    | inl e ↦ absurd (ne (chosen ∙ e))
    | inr (a, q, t, e, f) ↦ (
      t,
      rest ++ (a ++ q ∷ []),
      omega (arith, ap length e, length-append a (q ∷ t)),
      subst (λ c. Order xs c (t ++ p ∷ (rest ++ (a ++ q ∷ [])))) (sym (chosen ∙ f))
          (subst (Order xs q) (append_assoc t (p ∷ rest) (a ++ q ∷ [])) (
            Order-next xs k.current a q (t ++ p ∷ rest) (
              subst (Order xs k.current)
                (ap (λ x. x ++ p ∷ rest) e ∙ append_assoc a (q ∷ t) (p ∷ rest)) o))),
    )
  ]

-- The list of processes is `xs`, without the idle process, and fuel is for all of it; in the order in which `schedule` looks at it
-- from the current process on, `ahead` are the processes before `p`. While rounds go by, `p` can run and
-- the list stays the same, but processes may wake up, sleep or do anything else before they call schedule.
-- Then `schedule` chooses others at most `length ahead` times before it chooses `p`.
pub schedule-waits :
    (fuel p idle : ℕ) (xs : List ℕ) (n : ℕ) (k k' : Kernel) (ahead rest : List ℕ)
    → Absent idle xs
    → length xs < fuel
    → Order xs k.current (ahead ++ p ∷ rest)
    → Passes fuel p idle xs n k k'
    → n ≤ length ahead
schedule-waits fuel p idle xs zero k k' ahead rest off enough o start = omega arith
schedule-waits fuel p idle xs (suc n) k k' ahead rest off enough o
      (round {k₁} {k₂} works run ne more) =
    let (t, rest', lt, o') = nearer fuel p idle xs ahead rest k k₁ k₂ off enough o works run ne in
    omega (arith, schedule-waits fuel p idle xs n k₂ k' t rest' off enough o' more)
