-- ===== src/Proc/Waiting.antt =====
-- `wait`, `waitx` and `exit` together: who is reaped, who sleeps, and who is woken.
use xv6_public_os_project.Proc.Types.{
  Proc, unused, sleeping, is_proc, proc_at, Kernel, Services, address,
}
use xv6_public_os_project.Proc.Sleep.{sleep}
use xv6_public_os_project.Proc.Exit.{find_zombie, has_child, reap, wait, Waited, returned, asleep}
use xv6_public_os_project.Proc.Table.{
  proc_at-set_self, proc_at-set_ne, is_dead_child, FindsZombie, find_zombie-Finds, has_child-true,
  has_child-false,
}
use xv6_public_os_project.Base.{
  ℕ, ◌<◌, ◌≡◌, ◌≢◌, refl, ap, sym, ◌⊎◌, inl, inr, Bool, true, false, not, ◌||◌, Option, none, some,
  if◌then◌else◌, length, arith, minus_one, subst,
}

module _ {S : Type 0} (sv : Services S) (me : ℕ) (k : Kernel S) where
  -- Slot `i` held a ZOMBIE child of `me`, and is free now: pid 0, no parent, not killed, no name
  -- and no stack. The other slots are as before.
  pub record Reaped (i : ℕ) (k' : Kernel S) : Type 0 where
    pub dead : is_dead_child me (proc_at k.procs i) ≡ true
    pub freed : (proc_at k'.procs i).state ≡ unused
    pub cleared :
        ((proc_at k'.procs i).pid ≡ 0)
        × ((proc_at k'.procs i).parent ≡ none)
        × ((proc_at k'.procs i).killed ≡ false)
        × ((proc_at k'.procs i).kstack ≡ 0)
    pub others : (j : ℕ) → j ≢ i → proc_at k'.procs j ≡ proc_at k.procs j
    pub same_nextpid : k'.nextpid ≡ k.nextpid

  abbrev pub NoneDead : Type 0
  NoneDead = (j : ℕ) → is_dead_child me (proc_at k.procs j) ≡ false

  -- The three ends of a scan of `wait`.
  pub data Scan : Waited S → Type 0 where
    reaps : (i : ℕ) (k' : Kernel S) → Reaped i k' → Scan (returned (proc_at k.procs i).pid k')
    gives_up :
        NoneDead
        → ((j : ℕ) → is_proc (proc_at k.procs j).parent me ≡ false)
          ⊎ ((proc_at k.procs me).killed ≡ true)
        → Scan (returned minus_one k)
    sleeps :
        (j : ℕ) (k' : Kernel S)
        → NoneDead
        → is_proc (proc_at k.procs j).parent me ≡ true
        → (proc_at k.procs me).killed ≡ false
        → (proc_at k'.procs me).state ≡ sleeping
        → (proc_at k'.procs me).chan ≡ address sv (some me)
        → ((i : ℕ) → i ≢ me → proc_at k'.procs i ≡ proc_at k.procs i)
        → Scan (asleep k')

  reap-Reaped :
      (i : ℕ)
      → i < length k.procs
      → is_dead_child me (proc_at k.procs i) ≡ true
      → Reaped i (reap sv i k)
  unfolding reap
  reap-Reaped i h dead =
      let e = proc_at-set_self k.procs i _ h in
      record {
        dead = dead;
        freed = ap (λ (p : Proc). p.state) e;
        cleared = (
          ap (λ (p : Proc). p.pid) e,
          ap (λ (p : Proc). p.parent) e,
          ap (λ (p : Proc). p.killed) e,
          ap (λ (p : Proc). p.kstack) e,
        );
        others = λ j ne. proc_at-set_ne k.procs i j _ ne;
        same_nextpid = refl;
      }

  sleep-Scan :
      (j : ℕ)
      → me < length k.procs
      → NoneDead
      → is_proc (proc_at k.procs j).parent me ≡ true
      → (proc_at k.procs me).killed ≡ false
      → Scan (asleep (sleep me (address sv (some me)) k).0)
  unfolding sleep
  sleep-Scan j h nd c nk =
      let e = proc_at-set_self k.procs me _ h in
      sleeps j _ nd c nk (ap (λ (p : Proc). p.state) e) (ap (λ (p : Proc). p.chan) e)
        (λ i ne. proc_at-set_ne k.procs me i _ ne)

  wait-idle :
      me < length k.procs
      → NoneDead
      → (kids killed : Bool) → has_child me k.procs ≡ kids
      → (proc_at k.procs me).killed ≡ killed
      → Scan (
          if not kids || killed
          then returned minus_one k
          else asleep (sleep me (address sv (some me)) k).0)
  wait-idle h nd false killed c e = gives_up nd (inl (λ j. has_child-false me k.procs j c))
  wait-idle h nd true true c e = gives_up nd (inr e)
  wait-idle h nd true false c e =
      sleep-Scan (has_child-true me k.procs c).0 h nd (has_child-true me k.procs c).2 e

  wait-found :
      (o : Option ℕ)
      → me < length k.procs
      → find_zombie me k.procs 0 ≡ o
      → FindsZombie me k.procs 0 o
      → Scan (wait sv me k)
  unfolding wait
  wait-found none h e f = rw (e, wait) (wait-idle h f _ _ refl refl)
  wait-found (some i) h e f =
      let same : i ≡ f.0 = omega (arith, f.1) in
      rw (e, wait)
        (reaps i (reap sv i k) (
          reap-Reaped i (omega (arith, f.2))
            (subst (λ (j : ℕ). is_dead_child me (proc_at k.procs j) ≡ true) (sym same) f.3)))

  -- `wait` reaps a ZOMBIE child and returns its pid, if there is one; else it returns -1, with
  -- nothing changed, if the caller has no child or is killed; else the caller sleeps on its own
  -- address. The other slots are as before.
  pub wait-Scan : me < length k.procs → Scan (wait sv me k)
  wait-Scan h = wait-found (find_zombie me k.procs 0) h refl (find_zombie-Finds me k.procs)
