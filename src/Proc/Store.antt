-- ===== src/Proc/Store.antt =====
-- Writes to the store of processes, seen through one field.
use lab.Base.{
  ℕ, ◌≡◌, refl, sym, ◌∙◌, ap, inl, inr, Bool, true, false, Bool-cases, ◌==◌, ==_iff, if◌then◌else◌,
  update,
}
use lab.Proc.{Proc, Kernel, set_proc}

module _ {A : Type 0} (φ : Proc → A) where
  -- A write that changes the field.
  pub field-upd :
      (f : ℕ → Proc) (p q : ℕ) (r : Proc) → φ (update f p r q) ≡ (if q == p then φ r else φ (f q))
  field-upd f p q r = elim (Bool-cases (q == p)) [
    | inl same ↦ rw same refl
    | inr other ↦ rw other refl
  ]

  field-at : (f : ℕ → Proc) (p q : ℕ) → q ≡ p → φ (f p) ≡ φ (f q)
  field-at f p q e = ap (λ x. φ (f x)) (sym e)

  -- One that does not.
  pub field-set : (f : ℕ → Proc) (p q : ℕ) (r : Proc) → φ r ≡ φ (f p) → φ (update f p r q) ≡ φ (f q)
  field-set f p q r e = field-upd f p q r ∙ go (q == p) refl
    where
      go : (b : Bool) → (q == p) ≡ b → (if b then φ r else φ (f q)) ≡ φ (f q)
      go true same = e ∙ field-at f p q ((==_iff q p).0 same)
      go false other = refl

  abbrev pub Same : Kernel → Kernel → Type 0
  Same k k' = (q : ℕ) → φ (k'.procs q) ≡ φ (k.procs q)

  pub Same-set :
      (k k' : Kernel) (p : ℕ) (r : Proc)
      → Same k k'
      → φ r ≡ φ (k'.procs p)
      → Same k (set_proc k' p r)
  Same-set k k' p r s e q = field-set k'.procs p q r e ∙ s q

  pub Same-if :
      (k : Kernel) (b : Bool) (x y : Kernel) → Same k x → Same k y → Same k (if b then x else y)
  Same-if k true x y s t = s
  Same-if k false x y s t = t
