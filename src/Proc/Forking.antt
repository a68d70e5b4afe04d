-- ===== src/Proc/Forking.antt =====
-- `allocproc` and `fork`: the new process, and what stays as it was.
use xv6_public_os_project.Proc.Types.{
  Proc, unused, embryo, runnable, is_unused, proc_at, Kernel, Services,
}
use xv6_public_os_project.Proc.Create.{
  find_unused, claim, give_stack, allocproc, unalloc, copy_files, make_child, fork_into, fork,
}
use xv6_public_os_project.Proc.Table.{
  active, proc_at-set_self, proc_at-set_ne, FindsUnused, find_unused-Finds,
}
use xv6_public_os_project.Base.{
  ℕ, ◌<◌, ◌≡◌, ◌≢◌, refl, ap, ◌∙◌, sym, ◌⊎◌, inl, inr, true, false, not, Option, none, some, List,
  ◌==◌, set, length, length-set, arith, Bool-cases, add32, minus_one, subst,
}

-- The tables agree but for slot `i`.
abbrev pub SameBut : ℕ → List Proc → List Proc → Type 0
SameBut i ps qs = (length qs ≡ length ps) × ((j : ℕ) → j ≢ i → proc_at qs j ≡ proc_at ps j)

SameBut-set : (ps : List Proc) (i : ℕ) (p : Proc) → SameBut i ps (set ps i p)
SameBut-set ps i p = (length-set ps i p, λ j ne. proc_at-set_ne ps i j p ne)

SameBut-trans : (i : ℕ) (ps qs rs : List Proc) → SameBut i ps qs → SameBut i qs rs → SameBut i ps rs
SameBut-trans i ps qs rs h g = (g.0 ∙ h.0, λ j ne. g.1 j ne ∙ h.1 j ne)

module _ {S : Type 0} (sv : Services S) where
  -- What `allocproc` and `fork` do to the kernel: a slot that was UNUSED changes, and the pids go on.
  pub record Takes (k k' : Kernel S) (i : ℕ) : Type 0 where
    pub inside : i < length k.procs
    pub was_free : active k.procs i ≡ false
    pub rest : SameBut i k.procs k'.procs
    pub next : k'.nextpid ≡ add32 k.nextpid 1
    pub init : k'.initproc ≡ k.initproc

  -- The slot ends up free again, or it holds a new process with the next pid.
  abbrev pub Allocates : Kernel S → Kernel S → Option ℕ → Type 0
  Allocates k k' none = (k' ≡ k) ⊎ ((i : ℕ) × Takes k k' i × (active k'.procs i ≡ false))
  Allocates k k' (some i) =
      Takes k k' i
      × ((proc_at k'.procs i).state ≡ embryo)
      × ((proc_at k'.procs i).pid ≡ k.nextpid)
      × ((proc_at k'.procs i).createtime ≡ k.now)
      × ((proc_at k'.procs i).killed ≡ (proc_at k.procs i).killed)

  claim-Takes :
      (i : ℕ) (k : Kernel S)
      → i < length k.procs
      → active k.procs i ≡ false
      → Allocates k (claim sv i k) (some i)
  unfolding claim
  claim-Takes i k h free =
      let e = proc_at-set_self k.procs i _ h in
      (
        record {
          inside = h;
          was_free = free;
          rest = SameBut-set k.procs i _;
          next = refl;
          init = refl;
        },
        ap (λ (p : Proc). p.state) e,
        ap (λ (p : Proc). p.pid) e,
        ap (λ (p : Proc). p.createtime) e,
        ap (λ (p : Proc). p.killed) e,
      )

  -- A further write to the same slot.
  Takes-then :
      (k k' l : Kernel S) (i : ℕ) (p : Proc)
      → Takes k k' i
      → l.procs ≡ set k'.procs i p
      → l.nextpid ≡ k'.nextpid
      → l.initproc ≡ k'.initproc
      → Takes k l i
  Takes-then k k' l i p t e n q = record {
    inside = t.inside;
    was_free = t.was_free;
    rest =
        subst (SameBut i k.procs) (sym e)
          (SameBut-trans i k.procs k'.procs _ t.rest (SameBut-set k'.procs i p));
    next = n ∙ t.next;
    init = q ∙ t.init;
  }

  give_stack-Allocates :
      (i : ℕ) (k k' : Kernel S)
      → Allocates k k' (some i)
      → Allocates k (give_stack sv i k').0 (give_stack sv i k').1
  unfolding give_stack
  give_stack-Allocates i k k' (t, emb, pid, time, kill) =
      let h : i < length k'.procs = rw t.rest.0 t.inside in
      elim (Bool-cases ((sv.kalloc k'.layers).0 == 0)) [
        | inl e ↦
            let s =
              proc_at-set_self k'.procs i
                (record (proc_at k'.procs i) { kstack = 0; state = unused }) h in
            rw e (
              inr (
                i,
                Takes-then k k' _ i _ t refl refl refl,
                ap (λ (p : Proc). not (is_unused p.state)) s,
              ))
        | inr e ↦
            let s =
              proc_at-set_self k'.procs i
                (record (proc_at k'.procs i) {
                  kstack = (sv.kalloc k'.layers).0;
                  context_eip = sv.forkret;
                })
                h in
            rw e (
              Takes-then k k' _ i _ t refl refl refl,
              ap (λ (p : Proc). p.state) s ∙ emb,
              ap (λ (p : Proc). p.pid) s ∙ pid,
              ap (λ (p : Proc). p.createtime) s ∙ time,
              ap (λ (p : Proc). p.killed) s ∙ kill,
            )
      ]

  allocproc-at :
      (k : Kernel S) (o : Option ℕ)
      → find_unused k.procs 0 ≡ o
      → FindsUnused k.procs 0 o
      → Allocates k (allocproc sv k).0 (allocproc sv k).1
  unfolding allocproc
  allocproc-at k none e f = rw (e, allocproc) (inl refl)
  allocproc-at k (some i) e f =
      let same : i ≡ f.0 = omega (arith, f.1) in
      rw (e, allocproc)
        (give_stack-Allocates i k (claim sv i k) (
          claim-Takes i k (omega (arith, f.2))
            (subst (λ (j : ℕ). active k.procs j ≡ false) (sym same) f.3)))

  -- `allocproc` takes an UNUSED slot, which ends up EMBRYO with the next pid and the time of its
  -- creation, and with the kill mark that the slot had before; or it fails with the slot free.
  pub allocproc-Allocates : (k : Kernel S) → Allocates k (allocproc sv k).0 (allocproc sv k).1
  allocproc-Allocates k = allocproc-at k (find_unused k.procs 0) refl (find_unused-Finds k.procs)

  -- What `fork` of process `me` returns, and the kernel with it.
  pub data Forked (me : ℕ) (k : Kernel S) : Kernel S × ℕ → Type 0 where
    forked :
        (i pid : ℕ) (k' : Kernel S)
        → Takes k k' i
        → pid ≡ k.nextpid
        → (proc_at k'.procs i).state ≡ runnable
        → (proc_at k'.procs i).pid ≡ pid
        → (proc_at k'.procs i).parent ≡ some me
        → (proc_at k'.procs i).tf ≡ record (proc_at k.procs me).tf { eax = 0 }
        → (proc_at k'.procs i).sz ≡ (proc_at k.procs me).sz
        → (proc_at k'.procs i).cwd ≡ (proc_at k.procs me).cwd
        → Forked me k (k', pid)
    failed :
        (k' : Kernel S)
        → (k' ≡ k) ⊎ ((i : ℕ) × Takes k k' i × (active k'.procs i ≡ false))
        → Forked me k (k', minus_one)

  unalloc-Forked :
      (me i : ℕ) (k k' : Kernel S) → Takes k k' i → Forked me k (unalloc sv i k', minus_one)
  unfolding unalloc
  unalloc-Forked me i k k' t =
      let h : i < length k'.procs = rw t.rest.0 t.inside in
      failed _ (
        inr (
          i,
          Takes-then k k' _ i _ t refl refl refl,
          ap (λ (p : Proc). not (is_unused p.state)) (proc_at-set_self k'.procs i _ h),
        ))

  make_child-Forked :
      (me i pgdir : ℕ) (k k' : Kernel S)
      → Takes k k' i
      → (proc_at k'.procs i).pid ≡ k.nextpid
      → proc_at k'.procs me ≡ proc_at k.procs me
      → Forked me k (make_child sv me i pgdir k')
  unfolding make_child
  make_child-Forked me i pgdir k k' t pid same =
      let h : i < length k'.procs = rw t.rest.0 t.inside in
      let s =
        proc_at-set_self k'.procs i
          (let p = proc_at k'.procs me in
            record (proc_at k'.procs i) {
              pgdir = pgdir;
              sz = p.sz;
              parent = some me;
              tf = record (p.tf) { eax = 0 };
              ofile = copy_files p.ofile (proc_at k'.procs i).ofile;
              cwd = p.cwd;
              name = p.name;
              state = runnable;
            })
          h in
      forked i _ _ (Takes-then k k' _ i _ t refl refl refl) pid (ap (λ (p : Proc). p.state) s)
        (ap (λ (p : Proc). p.pid) s) (ap (λ (p : Proc). p.parent) s)
        (ap (λ (p : Proc). p.tf) s ∙ ap (λ (p : Proc). record (p.tf) { eax = 0 }) same)
        (ap (λ (p : Proc). p.sz) s ∙ ap (λ (p : Proc). p.sz) same)
        (ap (λ (p : Proc). p.cwd) s ∙ ap (λ (p : Proc). p.cwd) same)

  abbrev with_layers : Kernel S → S → Kernel S
  with_layers k s = record k { layers = s }

  Takes-layers : (k k' : Kernel S) (i : ℕ) (s : S) → Takes k k' i → Takes k (with_layers k' s) i
  Takes-layers k k' i s t = record {
    inside = t.inside;
    was_free = t.was_free;
    rest = t.rest;
    next = t.next;
    init = t.init;
  }

  fork_into-Forked :
      (me : ℕ) (k k' : Kernel S) (o : Option ℕ)
      → active k.procs me ≡ true
      → Allocates k k' o
      → Forked me k (fork_into sv me o k')
  unfolding fork_into
  fork_into-Forked me k k' none busy a = failed k' a
  fork_into-Forked me k k' (some i) busy (t, emb, pid, time, kill) =
      let c = sv.copyuvm (proc_at k'.procs me).pgdir (proc_at k'.procs me).sz k'.layers in
      let u = Takes-layers k k' i c.1 t in
      elim (Bool-cases (c.0 == 0)) [
        | inl e ↦ rw e (unalloc-Forked me i k _ u)
        | inr e ↦ rw e (make_child-Forked me i c.0 k _ u pid (t.rest.1 me other))
      ]
    where
      other : me ≢ i
      other e = ground (arith, ap (λ (x : ℕ). active k.procs x) e, t.was_free)

  -- `fork` of a process either takes an UNUSED slot for a RUNNABLE child with the next pid, the
  -- caller as parent, and the caller's registers (but for a result of 0), memory size and directory,
  -- and returns the child's pid; or it returns -1 and its slot, if it took one, is free again. No
  -- other slot changes.
  pub fork-Forked : (me : ℕ) (k : Kernel S) → active k.procs me ≡ true → Forked me k (fork sv me k)
  unfolding fork
  fork-Forked me k busy = fork_into-Forked me k _ _ busy (allocproc-Allocates k)
