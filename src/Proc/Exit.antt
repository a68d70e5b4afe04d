-- ===== src/Proc/Exit.antt =====
-- `exit`, `wait` and `waitx` (proc.c).
use xv6_public_os_project.Proc.Types.{
  Proc, unused, zombie, is_zombie, is_proc, proc_at, Kernel, Services, address, nofile,
}
use xv6_public_os_project.Proc.Sleep.{wakeup, sleep}
use xv6_public_os_project.Base.{
  ℕ, ◌+◌, Bool, false, ◌&&◌, ◌||◌, not, Option, none, some, List, [], ◌∷◌, ◌==◌, if◌then◌else◌, set,
  sub32, minus_one, replicate,
}

-- The loop that passes the children of `me` to init: the table after it. (Its `wakeup1(initproc)`
-- changes no parent and no ZOMBIE, so it is made once, after the loop, if there is a ZOMBIE child.)
unfoldable pub abandon : Option ℕ → ℕ → List Proc → List Proc
abandon init me [] = []
abandon init me (p ∷ ps) =
    (if is_proc p.parent me then record p { parent = init } else p) ∷ abandon init me ps

unfoldable pub zombie_child : ℕ → List Proc → Bool
zombie_child me [] = false
zombie_child me (p ∷ ps) = (is_proc p.parent me && is_zombie p.state) || zombie_child me ps

-- The first ZOMBIE child of `me`, from slot `i` on.
unfoldable pub find_zombie : ℕ → List Proc → ℕ → Option ℕ
find_zombie me [] i = none
find_zombie me (p ∷ ps) i =
    if is_proc p.parent me && is_zombie p.state then some i else find_zombie me ps (i + 1)

-- `havekids`, where the scan finds no ZOMBIE.
unfoldable pub has_child : ℕ → List Proc → Bool
has_child me [] = false
has_child me (p ∷ ps) = is_proc p.parent me || has_child me ps

pub data Exited (S : Type 0) : Type 0 where
  panic : Exited S
  exited : Kernel S → Exited S

-- One scan of `wait`: it returns a pid or -1 with the kernel, or the process goes to sleep.
pub data Waited (S : Type 0) : Type 0 where
  returned : ℕ → Kernel S → Waited S
  asleep : Kernel S → Waited S

module _ {S : Type 0} (sv : Services S) where
  unfoldable pub close_files : List ℕ → S → S
  close_files [] s = s
  close_files (f ∷ fs) s = close_files fs (if f == 0 then s else sv.fileclose f s)

  -- The table part of `exit`, from the acquisition of `ptable.lock` to `sched`.
  unfoldable pub exit_table : ℕ → Kernel S → List Proc
  exit_table me k =
      let ps = wakeup (address sv (proc_at k.procs me).parent) k.procs in
      let qs = abandon k.initproc me ps in
      let rs = if zombie_child me ps then wakeup (address sv k.initproc) qs else qs in
      set rs me (record (proc_at rs me) { exittime = k.now; state = zombie })

  unfoldable pub exit : ℕ → Kernel S → Exited S
  exit me k =
      if is_proc k.initproc me
      then panic
      else let p = proc_at k.procs me in
        let layers = sv.iput p.cwd (close_files p.ofile k.layers) in
        let k' = record k {
          layers = layers;
          procs = set k.procs me (record p { ofile = replicate nofile 0; cwd = 0 });
        } in
        exited (record k' { procs = exit_table me k' })

  -- What `wait` does with the ZOMBIE in slot `i`.
  unfoldable pub reap : ℕ → Kernel S → Kernel S
  reap i k =
      let p = proc_at k.procs i in
      record k {
        layers = sv.freevm p.pgdir (sv.kfree p.kstack k.layers);
        procs = set k.procs i (record p {
          kstack = 0;
          pid = 0;
          parent = none;
          name = [];
          killed = false;
          state = unused;
        });
      }

  unfoldable pub wait : ℕ → Kernel S → Waited S
  wait me k = elim (find_zombie me k.procs 0) [
    | some i ↦ returned (proc_at k.procs i).pid (reap i k)
    | none ↦
        if not (has_child me k.procs) || (proc_at k.procs me).killed
        then returned minus_one k
        else asleep (sleep me (address sv (some me)) k).0
  ]

  -- The times that `waitx` stores for the ZOMBIE in slot `i`.
  unfoldable pub wtime : ℕ → Kernel S → ℕ
  wtime i k = let p = proc_at k.procs i in sub32 (sub32 p.exittime p.createtime) p.runtime

  unfoldable pub rtime : ℕ → Kernel S → ℕ
  rtime i k = (proc_at k.procs i).runtime

  -- `waitx`: as `wait`, with the two times where it reaps a child.
  unfoldable pub waitx : ℕ → Kernel S → Waited S × Option (ℕ × ℕ)
  waitx me k = elim (find_zombie me k.procs 0) [
    | some i ↦ (returned (proc_at k.procs i).pid (reap i k), some (wtime i k, rtime i k))
    | none ↦
        if not (has_child me k.procs) || (proc_at k.procs me).killed
        then (returned minus_one k, none)
        else (asleep (sleep me (address sv (some me)) k).0, none)
  ]
