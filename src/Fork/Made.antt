-- ===== src/Fork/Made.antt =====
-- The child while `do_fork` makes it: nothing else changes in the kernel.
use lab.Base.{
  ℕ, ◌+◌, ◌*◌, ◌<◌, ◌≡◌, ◌≢◌, ◌⊎◌, inl, inr, refl, sym, ◌∙◌, ap, subst, ◌==◌, ne→not_eq, ==_refl,
  if_true, if_false, run_ok, List, [], ◌∷◌, length, Absent, pos, ok,
}
use lab.Links.Ring.{Ring}
use lab.Proc.Family.{Family, Siblings-frame}
use lab.Proc.{Proc, Kernel, uninit, null, proc_list, set_proc}
use lab.Pid.Unique.{IsValid}
use lab.Pid.{max_pid}
use lab.Task.{Thread, Memory, World, Heap, alloc_proc}
use lab.Fork.Child.{IsReady, pids_of}
use lab.Fork.{find_mm, take_mm, copy_mm}

-- The address `p` is free for a child of the current process, whose children are `cs`; `ps` are the
-- processes on `proc_list`.
pub record IsFree (fuel p : ℕ) (cs ps : List ℕ) (w : World) : Type 0 where
  pub not_null : p ≢ null
  pub not_current : w.kernel.current ≢ p
  pub children : Family w.kernel.procs w.kernel.current cs
  pub not_child : Absent p cs
  pub listed : Ring w.kernel.links proc_list ps
  pub not_listed : Absent p (proc_list ∷ ps)
  pub valid : IsValid (pids_of w.kernel ps) w.pids
  pub few : length ps + 1 < max_pid
  pub enough : max_pid * (length ps + 1) + length ps < fuel

-- From `w` to `w'` the child `p` of `c` has been made, and nothing else in the kernel has changed.
pub record Made (p c : ℕ) (w w' : World) : Type 0 where
  pub others : (q : ℕ) → q ≢ p → w'.kernel.procs q ≡ w.kernel.procs q
  pub parent : (w'.kernel.procs p).parent ≡ c
  pub fresh : (w'.kernel.procs p).state ≡ uninit
  pub links : w'.kernel.links ≡ w.kernel.links
  pub counted : w'.kernel.nr_process ≡ w.kernel.nr_process
  pub pids : w'.pids ≡ w.pids
  pub current : w'.kernel.current ≡ w.kernel.current
  pub threads : (q : ℕ) → q ≢ p → w'.threads q ≡ w.threads q

pub pids_of-Made :
    (p c : ℕ) (w w' : World) (ps : List ℕ)
    → Made p c w w'
    → Absent p ps
    → pids_of w'.kernel ps ≡ pids_of w.kernel ps
pids_of-Made p c w w' [] m ab = refl
pids_of-Made p c w w' (q ∷ ps) m ab =
    rw (m.others q (λ e. ab.0 (sym e)), pids_of-Made p c w w' ps m ab.1) refl

pub Made-IsReady :
    (fuel p : ℕ) (cs ps : List ℕ) (w w' : World)
    → IsFree fuel p cs ps w
    → Made p w.kernel.current w w'
    → IsReady fuel p w.kernel.current cs ps w'
Made-IsReady fuel p cs ps w w' f m = record {
  parent = m.parent;
  fresh = m.fresh;
  not_null = f.not_null;
  children = record {
    youngest =
        ap (λ (x : Proc). x.cptr) (m.others w.kernel.current f.not_current) ∙ f.children.youngest;
    siblings =
        Siblings-frame w.kernel.procs w'.kernel.procs w.kernel.current null p p cs f.not_child
          f.not_child
          (λ q ne _.
            let e = m.others q ne in
            (
              ap (λ (x : Proc). x.parent) e,
              ap (λ (x : Proc). x.yptr) e,
              ap (λ (x : Proc). x.optr) e,
            ))
          f.children.siblings;
    distinct = f.children.distinct;
  };
  not_child = f.not_child;
  listed = subst (λ s. Ring s proc_list ps) (sym m.links) f.listed;
  not_listed = f.not_listed;
  valid = subst (IsValid (pids_of w'.kernel ps)) (sym m.pids) (
      subst (λ l. IsValid l w.pids) (sym (pids_of-Made p w.kernel.current w w' ps m f.not_listed.1))
        f.valid);
  few = f.few;
  enough = f.enough;
}

-- `alloc_proc`, and then the parent.
abbrev pub with_parent : ℕ → World → World
with_parent p w =
    let k = (alloc_proc p w).kernel in
    record (alloc_proc p w) { kernel = set_proc k p (record (k.procs p) { parent = k.current }) }

pub with_parent-Made : (p : ℕ) (w : World) → Made p w.kernel.current w (with_parent p w)
unfolding alloc_proc
with_parent-Made p w =
    let k : Kernel = (alloc_proc p w).kernel in
    record {
      others = λ q ne.
          if_false (q == p) _ (k.procs q) (ne→not_eq q p ne)
          ∙ if_false (q == p) _ (w.kernel.procs q) (ne→not_eq q p ne);
      parent = ap (λ (x : Proc). x.parent) (if_true (p == p) _ (k.procs p) (==_refl p));
      fresh =
          ap (λ (x : Proc). x.state) (if_true (p == p) _ (k.procs p) (==_refl p))
          ∙ ap (λ (x : Proc). x.state) (if_true (p == p) _ (w.kernel.procs p) (==_refl p));
      links = refl;
      counted = refl;
      pids = refl;
      current = refl;
      threads = λ q ne. if_false (q == p) _ (w.threads q) (ne→not_eq q p ne);
    }

-- A step that leaves the kernel alone.
pub Made-memory :
    (p c : ℕ) (w w' : World) (memory : Memory) (threads : ℕ → Thread)
    → Made p c w w'
    → ((q : ℕ) → q ≢ p → threads q ≡ w'.threads q)
    → Made p c w (record w' { memory = memory; threads = threads })
Made-memory p c w w' memory threads m same = record {
  others = m.others;
  parent = m.parent;
  fresh = m.fresh;
  links = m.links;
  counted = m.counted;
  pids = m.pids;
  current = m.current;
  threads = λ q ne. same q ne ∙ m.threads q ne;
}

pub take_mm-Made : (p c mm : ℕ) (w w' : World) → Made p c w w' → Made p c w (take_mm p mm w')
unfolding take_mm
take_mm-Made p c mm w w' m = record {
  others = λ q ne. if_false (q == p) _ (w'.kernel.procs q) (ne→not_eq q p ne) ∙ m.others q ne;
  parent =
      ap (λ (x : Proc). x.parent) (if_true (p == p) _ (w'.kernel.procs p) (==_refl p)) ∙ m.parent;
  fresh = ap (λ (x : Proc). x.state) (if_true (p == p) _ (w'.kernel.procs p) (==_refl p)) ∙ m.fresh;
  links = m.links;
  counted = m.counted;
  pids = m.pids;
  current = m.current;
  threads = λ q ne. if_false (q == p) _ (w'.threads q) (ne→not_eq q p ne) ∙ m.threads q ne;
}

-- The child's address space: none if the parent has none, or the one that `find_mm` gives.
abbrev pub HasMm : ℕ → Heap → ℕ → ℕ → Memory → Type 0
HasMm fuel heap clone_flags oldmm memory =
    (oldmm ≡ null)
    ⊎ ((mm : ℕ) × (memory' : Memory) × (oldmm ≢ null)
        × (find_mm fuel heap clone_flags oldmm memory ≡ ok (pos 0, mm, memory')))

pub copy_mm-Made :
    (fuel clone_flags p c oldmm : ℕ) (heap : Heap) (w w' : World)
    → Made p c w w'
    → (w'.threads w'.kernel.current).mm ≡ oldmm
    → HasMm fuel heap clone_flags oldmm w'.memory
    → (w'' : World) × (copy_mm fuel heap clone_flags p w' ≡ ok (pos 0, w'')) × Made p c w w''
unfolding copy_mm
copy_mm-Made fuel clone_flags p c oldmm heap w w' m e (inl none_yet) = (
  w',
  if_true ((w'.threads w'.kernel.current).mm == null) _ _ (ap (λ x. x == null) (e ∙ none_yet)),
  m,
)
copy_mm-Made fuel clone_flags p c oldmm heap w w' m e (inr (mm, memory', ne, run)) = (
  take_mm p mm (record w' { memory = memory' }),
  if_false ((w'.threads w'.kernel.current).mm == null) _ _
        (ap (λ x. x == null) e ∙ ne→not_eq oldmm null ne)
      ∙ run_ok (find_mm fuel heap clone_flags (w'.threads w'.kernel.current).mm w'.memory)
          (pos 0, mm, memory') _ (ap (λ x. find_mm fuel heap clone_flags x w'.memory) e ∙ run),
  take_mm-Made p c mm w (record w' { memory = memory' })
      (Made-memory p c w w' memory' w'.threads m (λ q ne. refl)),
)
