-- ===== src/Proc/Types.antt =====
-- struct proc, the process table and the kernel state that proc.c keeps, with the operations of
-- the memory and file layers that proc.c calls.
use xv6_public_os_project.Base.{
  ℕ, ◌+◌, ◌*◌, Bool, true, false, Option, none, some, List, [], ◌==◌, get_or, replicate,
}

abbrev pub nproc : ℕ
nproc = 64

abbrev pub nofile : ℕ
nofile = 16

-- enum procstate
pub data ProcState : Type 0 where
  unused embryo sleeping runnable running zombie : ProcState

abbrev pub is_unused : ProcState → Bool
is_unused unused = true
is_unused embryo = false
is_unused sleeping = false
is_unused runnable = false
is_unused running = false
is_unused zombie = false

abbrev pub is_sleeping : ProcState → Bool
is_sleeping unused = false
is_sleeping embryo = false
is_sleeping sleeping = true
is_sleeping runnable = false
is_sleeping running = false
is_sleeping zombie = false

abbrev pub is_runnable : ProcState → Bool
is_runnable unused = false
is_runnable embryo = false
is_runnable sleeping = false
is_runnable runnable = true
is_runnable running = false
is_runnable zombie = false

abbrev pub is_running : ProcState → Bool
is_running unused = false
is_running embryo = false
is_running sleeping = false
is_running runnable = false
is_running running = true
is_running zombie = false

abbrev pub is_zombie : ProcState → Bool
is_zombie unused = false
is_zombie embryo = false
is_zombie sleeping = false
is_zombie runnable = false
is_zombie running = false
is_zombie zombie = true

-- The trap frame: the register that carries a call's number and result, and the others.
pub record TrapFrame : Type 0 where
  pub eax : ℕ
  pub others : List ℕ

-- struct proc. A null pointer to a page, a file or an inode is 0; of the saved context only the
-- address is kept at which it goes on.
pub record Proc : Type 0 where
  pub sz : ℕ
  pub pgdir : ℕ
  pub kstack : ℕ
  pub state : ProcState
  pub pid : ℕ
  pub parent : Option ℕ
  pub tf : TrapFrame
  pub context_eip : ℕ
  pub chan : ℕ
  pub killed : Bool
  pub ofile : List ℕ
  pub cwd : ℕ
  pub name : List ℕ
  pub createtime : ℕ
  pub syscall_count : ℕ
  pub good_syscall_count : ℕ
  pub runtime : ℕ
  pub sleeptime : ℕ
  pub exittime : ℕ
  pub priority : ℕ
  pub estimated_burst : ℕ
  pub last_burst_ticks : ℕ
  pub ticks : ℕ
  pub yield_request : Bool

-- A slot of the zeroed process table.
abbrev pub zeroed : Proc
zeroed = record {
  sz = 0;
  pgdir = 0;
  kstack = 0;
  state = unused;
  pid = 0;
  parent = none;
  tf = record { eax = 0; others = [] };
  context_eip = 0;
  chan = 0;
  killed = false;
  ofile = replicate nofile 0;
  cwd = 0;
  name = [];
  createtime = 0;
  syscall_count = 0;
  good_syscall_count = 0;
  runtime = 0;
  sleeptime = 0;
  exittime = 0;
  priority = 0;
  estimated_burst = 0;
  last_burst_ticks = 0;
  ticks = 0;
  yield_request = false;
}

-- `ptable.proc`, the globals of proc.c, `ticks` (trap.c), the processor's `proc`, and the state `S`
-- of the memory and file layers.
pub record Kernel (S : Type 0) : Type 0 where
  pub procs : List Proc
  pub initproc : Option ℕ
  pub current_scheduler : ℕ
  pub nextpid : ℕ
  pub random_seed : ℕ
  pub now : ℕ
  pub cpu_proc : Option ℕ
  pub layers : S

-- What proc.c calls of kalloc.c, vm.c, file.c, fs.c and log.c, and two addresses. An allocation
-- returns 0 when it fails.
pub record Services (S : Type 0) : Type 0 where
  pub kalloc : S → ℕ × S
  pub kfree : ℕ → S → S
  pub copyuvm : ℕ → ℕ → S → ℕ × S
  pub freevm : ℕ → S → S
  pub allocuvm : ℕ → ℕ → ℕ → S → ℕ × S
  pub deallocuvm : ℕ → ℕ → ℕ → S → ℕ × S
  pub filedup : ℕ → S → S
  pub fileclose : ℕ → S → S
  pub idup : ℕ → S → S
  -- `begin_op(); iput(ip); end_op();`
  pub iput : ℕ → S → S
  pub forkret : ℕ
  pub ptable : ℕ

abbrev pub sizeof_proc : ℕ
sizeof_proc = 168

-- The address of a process, as a channel to sleep on; 0 is the null pointer.
abbrev pub address : {S : Type 0} → Services S → Option ℕ → ℕ
address sv none = 0
address sv (some i) = sv.ptable + i * sizeof_proc

abbrev pub is_proc : Option ℕ → ℕ → Bool
is_proc none i = false
is_proc (some j) i = j == i

abbrev pub proc_at : List Proc → ℕ → Proc
proc_at ps i = get_or ps i zeroed
