-- ===== src/Proc/Create.antt =====
-- `allocproc`, `fork` and `growproc` (proc.c).
use xv6_public_os_project.Proc.Types.{
  Proc, unused, embryo, runnable, is_unused, proc_at, Kernel, Services,
}
use xv6_public_os_project.Base.{
  ℕ, ◌+◌, false, ◌&&◌, Option, none, some, List, [], ◌∷◌, ◌==◌, if◌then◌else◌, set, add32,
  minus_one, int_lt, not,
}

-- The first UNUSED slot, from slot `i` on.
unfoldable pub find_unused : List Proc → ℕ → Option ℕ
find_unused [] i = none
find_unused (p ∷ ps) i = if is_unused p.state then some i else find_unused ps (i + 1)

-- The child's file table: the parent's open files over the slot's own entries.
unfoldable pub copy_files : List ℕ → List ℕ → List ℕ
copy_files [] gs = gs
copy_files (f ∷ fs) [] = []
copy_files (f ∷ fs) (g ∷ gs) = (if f == 0 then g else f) ∷ copy_files fs gs

module _ {S : Type 0} (sv : Services S) where
  -- The slot taken, with its new fields and the next pid.
  unfoldable pub claim : ℕ → Kernel S → Kernel S
  claim i k = record k {
    procs = set k.procs i (record (proc_at k.procs i) {
      state = embryo;
      pid = k.nextpid;
      createtime = k.now;
      syscall_count = 0;
      good_syscall_count = 0;
      runtime = 0;
      sleeptime = 0;
      exittime = 0;
      priority = 60;
      estimated_burst = 5;
      last_burst_ticks = 0;
      ticks = 0;
      yield_request = false;
    });
    nextpid = add32 k.nextpid 1;
  }

  -- The kernel stack, which holds the trap frame and the context.
  unfoldable pub give_stack : ℕ → Kernel S → Kernel S × Option ℕ
  give_stack i k =
      let (stack, layers) = sv.kalloc k.layers in
      let p = proc_at k.procs i in
      if stack == 0
      then (
        record k {
          layers = layers;
          procs = set k.procs i (record p { kstack = 0; state = unused });
        },
        none,
      )
      else (
        record k {
          layers = layers;
          procs = set k.procs i (record p { kstack = stack; context_eip = sv.forkret });
        },
        some i,
      )

  -- The kernel, and the slot of the new process, if there is one.
  unfoldable pub allocproc : Kernel S → Kernel S × Option ℕ
  allocproc k = elim (find_unused k.procs 0) [
    | none ↦ (k, none)
    | some i ↦ give_stack i (claim i k)
  ]

  -- `fork` where `copyuvm` has failed: the stack is freed, and the slot is UNUSED again.
  unfoldable pub unalloc : ℕ → Kernel S → Kernel S
  unalloc i k =
      let p = proc_at k.procs i in
      record k {
        layers = sv.kfree p.kstack k.layers;
        procs = set k.procs i (record p { kstack = 0; state = unused });
      }

  -- `filedup` on each open file.
  unfoldable pub dup_files : List ℕ → S → S
  dup_files [] s = s
  dup_files (f ∷ fs) s = dup_files fs (if f == 0 then s else sv.filedup f s)

  -- `fork` from the successful `copyuvm` on: the child in slot `i` gets the parent's memory size,
  -- registers, files, directory and name, and result 0.
  unfoldable pub make_child : ℕ → ℕ → ℕ → Kernel S → Kernel S × ℕ
  make_child me i pgdir k =
      let p = proc_at k.procs me in
      let c = proc_at k.procs i in
      (
        record k {
          layers = sv.idup p.cwd (dup_files p.ofile k.layers);
          procs = set k.procs i (record c {
            pgdir = pgdir;
            sz = p.sz;
            parent = some me;
            tf = record (p.tf) { eax = 0 };
            ofile = copy_files p.ofile c.ofile;
            cwd = p.cwd;
            name = p.name;
            state = runnable;
          });
        },
        c.pid,
      )

  unfoldable pub fork_into : ℕ → Option ℕ → Kernel S → Kernel S × ℕ
  fork_into me none k = (k, minus_one)
  fork_into me (some i) k =
      let p = proc_at k.procs me in
      let (pgdir, layers) = sv.copyuvm p.pgdir p.sz k.layers in
      if pgdir == 0
      then (unalloc i (record k { layers = layers }), minus_one)
      else make_child me i pgdir (record k { layers = layers })

  -- `fork`, called by process `me`: the kernel, and the child's pid or -1.
  unfoldable pub fork : ℕ → Kernel S → Kernel S × ℕ
  fork me k = let (k', slot) = allocproc k in fork_into me slot k'

  -- The new size, or 0 when the memory cannot be had.
  unfoldable pub resize : Proc → ℕ → S → ℕ × S
  resize p n s =
      if int_lt 0 n
      then sv.allocuvm p.pgdir p.sz (add32 p.sz n) s
      else if int_lt n 0
      then sv.deallocuvm p.pgdir p.sz (add32 p.sz n) s
      else (p.sz, s)

  unfoldable pub growproc : ℕ → ℕ → Kernel S → Kernel S × ℕ
  growproc me n k =
      let p = proc_at k.procs me in
      let (sz, layers) = resize p n k.layers in
      if (sz == 0) && not (n == 0)
      then (record k { layers = layers }, minus_one)
      else (record k { layers = layers; procs = set k.procs me (record p { sz = sz }) }, 0)
