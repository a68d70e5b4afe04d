-- ===== src/Proc/Exiting.antt =====
-- `exit` (proc.c): what it leaves in each slot, and a parent that sleeps in `wait`.
use xv6_public_os_project.Proc.Types.{
  Proc, runnable, zombie, is_sleeping, is_proc, proc_at, Kernel, Services, address, nofile,
}
use xv6_public_os_project.Proc.Sleep.{wakeup}
use xv6_public_os_project.Proc.Exit.{
  abandon, zombie_child, exit, exit_table, exited, wait, Waited, returned, asleep, close_files,
}
use xv6_public_os_project.Proc.Table.{
  proc_at-set_self, proc_at-set_ne, woken, proc_at-wakeup, length-wakeup, adopted, proc_at-abandon,
  length-abandon,
}
use xv6_public_os_project.Proc.Waiting.{Scan, reaps, gives_up, sleeps, wait-Scan}
use xv6_public_os_project.Base.{
  ℕ, ◌<◌, ◌≡◌, ◌≢◌, refl, ap, ◌∙◌, sym, ◌⊎◌, inl, inr, true, false, some, List, if◌then◌else◌, set,
  length, length-set, arith, Bool-cases, replicate, subst, ==_refl,
}

module _ {S : Type 0} (sv : Services S) (me : ℕ) (k : Kernel S) where
  abbrev parent_chan : ℕ
  parent_chan = address sv (proc_at k.procs me).parent

  -- A slot other than the caller's: woken if it sleeps on the address of the caller's parent, passed
  -- to init if it is a child, and woken if init adopts a ZOMBIE and it sleeps on init's address.
  abbrev pub left_behind : Proc → Proc
  left_behind p =
      let q = adopted k.initproc me (woken parent_chan p) in
      if zombie_child me (wakeup parent_chan k.procs) then woken (address sv k.initproc) q else q

  rest_table : List Proc
  rest_table =
      let ps = wakeup parent_chan k.procs in
      let qs = abandon k.initproc me ps in
      if zombie_child me ps then wakeup (address sv k.initproc) qs else qs

  proc_at-rest_table : (j : ℕ) → proc_at rest_table j ≡ left_behind (proc_at k.procs j)
  unfolding rest_table
  proc_at-rest_table j = elim (Bool-cases (zombie_child me (wakeup parent_chan k.procs))) [
    | inl e ↦
        rw e
          (proc_at-wakeup (address sv k.initproc) _ j ∙ ap (woken (address sv k.initproc)) passed)
    | inr e ↦ rw e passed
  ]
    where
      passed :
          proc_at (abandon k.initproc me (wakeup parent_chan k.procs)) j
          ≡ adopted k.initproc me (woken parent_chan (proc_at k.procs j))
      passed =
          proc_at-abandon k.initproc me (wakeup parent_chan k.procs) j
          ∙ ap (adopted k.initproc me) (proc_at-wakeup parent_chan k.procs j)

  length-rest_table : length rest_table ≡ length k.procs
  unfolding rest_table
  length-rest_table = elim (Bool-cases (zombie_child me (wakeup parent_chan k.procs))) [
    | inl e ↦ rw e (length-wakeup (address sv k.initproc) _ ∙ passed)
    | inr e ↦ rw e passed
  ]
    where
      passed : length (abandon k.initproc me (wakeup parent_chan k.procs)) ≡ length k.procs
      passed =
          length-abandon k.initproc me (wakeup parent_chan k.procs)
          ∙ length-wakeup parent_chan k.procs

  proc_at-exit_table_self :
      me < length k.procs
      → proc_at (exit_table sv me k) me
        ≡ record (proc_at rest_table me) { exittime = k.now; state = zombie }
  unfolding exit_table rest_table
  proc_at-exit_table_self h = proc_at-set_self rest_table me _ (rw length-rest_table h)

  proc_at-exit_table_other :
      (j : ℕ) → j ≢ me → proc_at (exit_table sv me k) j ≡ left_behind (proc_at k.procs j)
  unfolding exit_table rest_table
  proc_at-exit_table_other j ne = proc_at-set_ne rest_table me j _ ne ∙ proc_at-rest_table j

  left_behind-parent :
      (p : Proc)
      → is_proc k.initproc me ≡ false
      → (is_proc (left_behind p).parent me ≡ false)
        × (is_proc p.parent me ≡ true → (left_behind p).parent ≡ k.initproc)
        × (is_proc p.parent me ≡ false → (left_behind p).parent ≡ p.parent)
  left_behind-parent p h = (ground arith, λ e. ground arith, λ e. ground arith)

  left_behind-woken :
      (p : Proc)
      → is_sleeping p.state ≡ true
      → p.chan ≡ parent_chan
      → (left_behind p).state ≡ runnable
  left_behind-woken p s c = ground (arith, ==_refl parent_chan)

  left_behind-kept :
      (p : Proc)
      → ((left_behind p).pid ≡ p.pid)
        × ((left_behind p).killed ≡ p.killed)
        × (((left_behind p).state ≡ p.state)
            ⊎ ((is_sleeping p.state ≡ true) × ((left_behind p).state ≡ runnable)))
  left_behind-kept p = ground arith

  left_behind-files : (p : Proc) → ((left_behind p).ofile ≡ p.ofile) × ((left_behind p).cwd ≡ p.cwd)
  left_behind-files p = ground arith

-- What `exit` of process `me` leaves in the table.
pub record Exits {S : Type 0} (sv : Services S) (me : ℕ) (k k' : Kernel S) : Type 0 where
  pub gone :
      ((proc_at k'.procs me).state ≡ zombie)
      × ((proc_at k'.procs me).exittime ≡ k.now)
      × ((proc_at k'.procs me).ofile ≡ replicate nofile 0)
      × ((proc_at k'.procs me).cwd ≡ 0)
      × ((proc_at k'.procs me).pid ≡ (proc_at k.procs me).pid)
  pub no_orphans : (j : ℕ) → j ≢ me → is_proc (proc_at k'.procs j).parent me ≡ false
  pub children :
      (j : ℕ)
      → j ≢ me
      → is_proc (proc_at k.procs j).parent me ≡ true
      → (proc_at k'.procs j).parent ≡ k.initproc
  pub strangers :
      (j : ℕ)
      → j ≢ me
      → is_proc (proc_at k.procs j).parent me ≡ false
      → (proc_at k'.procs j).parent ≡ (proc_at k.procs j).parent
  pub parent_woken :
      (j : ℕ)
      → j ≢ me
      → is_sleeping (proc_at k.procs j).state ≡ true
      → (proc_at k.procs j).chan ≡ address sv (proc_at k.procs me).parent
      → (proc_at k'.procs j).state ≡ runnable
  pub kept :
      (j : ℕ)
      → j ≢ me
      → ((proc_at k'.procs j).pid ≡ (proc_at k.procs j).pid)
        × ((proc_at k'.procs j).killed ≡ (proc_at k.procs j).killed)
        × (((proc_at k'.procs j).state ≡ (proc_at k.procs j).state)
            ⊎ ((is_sleeping (proc_at k.procs j).state ≡ true)
                × ((proc_at k'.procs j).state ≡ runnable)))
  pub same_nextpid : k'.nextpid ≡ k.nextpid

module _ {S : Type 0} (sv : Services S) (me : ℕ) (k : Kernel S) where
  closed : Kernel S
  closed = record k {
    layers = sv.iput (proc_at k.procs me).cwd (close_files sv (proc_at k.procs me).ofile k.layers);
    procs = set k.procs me (record (proc_at k.procs me) { ofile = replicate nofile 0; cwd = 0 });
  }

  after_exit : Kernel S
  after_exit = record closed { procs = exit_table sv me closed }

  exit-after : is_proc k.initproc me ≡ false → exit sv me k ≡ exited after_exit
  unfolding exit after_exit closed
  exit-after h = rw h

  abbrev bare : Proc
  bare = record (proc_at k.procs me) { ofile = replicate nofile 0; cwd = 0 }

  closed_self : me < length k.procs → proc_at closed.procs me ≡ bare
  unfolding closed
  closed_self h = proc_at-set_self k.procs me bare h

  length-closed : length closed.procs ≡ length k.procs
  unfolding closed
  length-closed = length-set k.procs me bare

  after_exit-other :
      (j : ℕ) → j ≢ me → proc_at after_exit.procs j ≡ left_behind sv me closed (proc_at k.procs j)
  unfolding after_exit closed
  after_exit-other j ne =
      proc_at-exit_table_other sv me closed j ne
      ∙ ap (left_behind sv me closed) (proc_at-set_ne k.procs me j bare ne)

  after_exit_self :
      me < length k.procs
      → proc_at after_exit.procs me ≡ record (left_behind sv me closed (proc_at closed.procs me)) {
        exittime = k.now;
        state = zombie;
      }
  unfolding after_exit closed
  after_exit_self h =
      proc_at-exit_table_self sv me closed (rw (length-set k.procs me bare) h)
      ∙ ap (λ (p : Proc). record p { exittime = k.now; state = zombie })
          (proc_at-rest_table sv me closed me)

  after_exit-Exits : me < length k.procs → is_proc k.initproc me ≡ false → Exits sv me k after_exit
  after_exit-Exits h notinit = record {
    gone = (
      ap (λ (p : Proc). p.state) (after_exit_self h),
      ap (λ (p : Proc). p.exittime) (after_exit_self h),
      ap (λ (p : Proc). p.ofile) (after_exit_self h)
          ∙ (left_behind-files sv me closed (proc_at closed.procs me)).0
          ∙ ap (λ (p : Proc). p.ofile) (closed_self h),
      ap (λ (p : Proc). p.cwd) (after_exit_self h)
          ∙ (left_behind-files sv me closed (proc_at closed.procs me)).1
          ∙ ap (λ (p : Proc). p.cwd) (closed_self h),
      ap (λ (p : Proc). p.pid) (after_exit_self h)
          ∙ (left_behind-kept sv me closed (proc_at closed.procs me)).0
          ∙ ap (λ (p : Proc). p.pid) (closed_self h),
    );
    no_orphans = λ j ne.
        rw (after_exit-other j ne)
          (left_behind-parent sv me closed (proc_at k.procs j) init_kept).0;
    children = λ j ne c.
        ap (λ (p : Proc). p.parent) (after_exit-other j ne)
        ∙ (left_behind-parent sv me closed (proc_at k.procs j) init_kept).1 c
        ∙ init_same;
    strangers = λ j ne c.
        ap (λ (p : Proc). p.parent) (after_exit-other j ne)
        ∙ (left_behind-parent sv me closed (proc_at k.procs j) init_kept).2 c;
    parent_woken = λ j ne s c.
        ap (λ (p : Proc). p.state) (after_exit-other j ne)
        ∙ left_behind-woken sv me closed (proc_at k.procs j) s (c ∙ parent_same);
    kept = λ j ne. rw (after_exit-other j ne) (left_behind-kept sv me closed (proc_at k.procs j));
    same_nextpid = unfold after_exit closed in refl;
  }
    where
      init_same : closed.initproc ≡ k.initproc
      init_same = unfold closed in refl

      init_kept : is_proc closed.initproc me ≡ false
      init_kept = unfold closed in notinit

      parent_same :
          address sv (proc_at k.procs me).parent ≡ address sv (proc_at closed.procs me).parent
      parent_same = ap (λ (p : Proc). address sv p.parent) (sym (closed_self h))

  -- `exit` of a process that is not init leaves it a ZOMBIE with its pid, the time of its
  -- exit and no open file or directory; its children become init's, so that it has none left; whoever sleeps on its
  -- parent's address is RUNNABLE; nothing else of the other slots' parents, pids, kill marks and
  -- states changes, but that sleepers may be woken.
  pub exit-Exits :
      me < length k.procs
      → is_proc k.initproc me ≡ false
      → (k' : Kernel S) × (exit sv me k ≡ exited k') × Exits sv me k k'
  exit-Exits h notinit = (after_exit, exit-after notinit, after_exit-Exits h notinit)

-- Where a process that `wait` puts to sleep is to be found.
abbrev Slept : {S : Type 0} → Services S → ℕ → Waited S → Type 0
Slept sv me (asleep k') =
    (is_sleeping (proc_at k'.procs me).state ≡ true)
    × ((proc_at k'.procs me).chan ≡ address sv (some me))
Slept sv me (returned pid k') = Unit {0}

Scan-Slept :
    {S : Type 0} (sv : Services S) (me : ℕ) (k : Kernel S) (o : Waited S)
    → Scan sv me k o
    → Slept sv me o
Scan-Slept sv me k o (reaps i k' r) = tt
Scan-Slept sv me k o (gives_up d n) = tt
Scan-Slept sv me k o (sleeps j k' d c n s a others) = (rw s, a)

-- A parent that `wait` puts to sleep is RUNNABLE again as soon as a child of it exits, whatever
-- happened to the table in between, provided that it still sleeps on the channel on which `wait` put
-- it to sleep, and that the child, which is not init, still has it as its parent.
pub wait_not_lost :
    {S : Type 0} (sv : Services S) (me c : ℕ) (k k' l : Kernel S)
    → me < length k.procs
    → wait sv me k ≡ asleep k'
    → is_sleeping (proc_at l.procs me).state ≡ true
    → (proc_at l.procs me).chan ≡ (proc_at k'.procs me).chan
    → c < length l.procs
    → c ≢ me
    → (proc_at l.procs c).parent ≡ some me
    → is_proc l.initproc c ≡ false
    → (l' : Kernel S) × (exit sv c l ≡ exited l')
      × ((proc_at l'.procs me).state ≡ runnable)
      × ((proc_at l'.procs c).state ≡ zombie)
wait_not_lost sv me c k k' l h w still same hc ne par notinit =
    let slept = subst (Slept sv me) w (Scan-Slept sv me k _ (wait-Scan sv me k h)) in
    let (l', e, x) = exit-Exits sv c l hc notinit in
    (
      l',
      e,
      x.parent_woken me (λ q. ne (sym q)) still (same ∙ slept.1 ∙ ap (address sv) (sym par)),
      x.gone.0,
    )
