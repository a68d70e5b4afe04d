-- ===== src/Syscall/Slices.antt =====
-- The tick counter of a process (trap.c) from its creation on: the timer interrupts that find it
-- running, and what else happens to it, in any order.
use xv6_public_os_project.Proc.Types.{Proc, is_running, proc_at, Kernel}
use xv6_public_os_project.Proc.Table.{woken, proc_at-wakeup, length-wakeup, proc_at-set_self}
use xv6_public_os_project.Proc.Sleep.{wakeup, sleep, awake, yield}
use xv6_public_os_project.Proc.Scheduler.{dispatch}
use xv6_public_os_project.Syscall.Timer.{quantum, count_tick, used_up, advance_clock, timer_tick}
use xv6_public_os_project.Base.{
  ℕ, suc, leb, ◌+◌, ◌≤◌, ◌<◌, ◌≡◌, refl, ap, ◌∙◌, sym, inl, inr, ◌↔◌, true, ◌==◌, set, word, arith,
  Bool-cases, length, length-set,
}

woken-running : (chan : ℕ) (p : Proc) → is_running p.state ≡ true → woken chan p ≡ p
woken-running chan p h = ground arith

woken-ticks : (chan : ℕ) (p : Proc) → (woken chan p).ticks ≡ p.ticks
woken-ticks chan p = ground arith

module _ {S : Type 0} (ticks_chan me : ℕ) where
  -- From `k` to `l`, in which `n` timer interrupts have found process `me` running. It sleeps, is woken
  -- and goes on; the scheduler switches to it; the other processes and the other processors do what
  -- leaves its slot alone.
  pub data Lives (k : Kernel S) : ℕ → Kernel S → Type 0 where
    starts : Lives k 0 k
    ticks :
        (n cpu : ℕ) (l : Kernel S)
        → Lives k n l
        → is_running (proc_at l.procs me).state ≡ true
        → Lives k (suc n) (timer_tick ticks_chan cpu me l).0
    sleeps : (n chan : ℕ) (l : Kernel S) → Lives k n l → Lives k n (sleep me chan l).0
    wakes :
        (n chan : ℕ) (l : Kernel S)
        → Lives k n l
        → Lives k n (record l { procs = wakeup chan l.procs })
    resumes : (n : ℕ) (l : Kernel S) → Lives k n l → Lives k n (dispatch (λ i m. m) me l)
    goes_on : (n start : ℕ) (l : Kernel S) → Lives k n l → Lives k n (awake me start l)
    yields : (n : ℕ) (l : Kernel S) → Lives k n l → Lives k n (yield me l)
    others :
        (n : ℕ) (l m : Kernel S)
        → Lives k n l
        → length m.procs ≡ length l.procs
        → proc_at m.procs me ≡ proc_at l.procs me
        → Lives k n m

  -- The counter has a slot and is `n`.
  Counts : ℕ → Kernel S → Type 0
  Counts n l = (me < length l.procs) × ((proc_at l.procs me).ticks ≡ n)

  set-Counts :
      (n : ℕ) (l m : Kernel S) (p : Proc)
      → me < length l.procs
      → m.procs ≡ set l.procs me p
      → p.ticks ≡ n
      → Counts n m
  unfolding Counts
  set-Counts n l m p h to same = rw to (
    rw (length-set l.procs me p) h,
    ap (λ (q : Proc). q.ticks) (proc_at-set_self l.procs me p h) ∙ same,
  )

  yield-Counts : (n : ℕ) (l : Kernel S) → Counts n l → Counts n (yield me l)
  unfolding yield Counts
  yield-Counts n l c = set-Counts n l (yield me l) _ c.0 refl c.1

  wakeup-Counts :
      (n chan : ℕ) (l : Kernel S) → Counts n l → Counts n (record l { procs = wakeup chan l.procs })
  unfolding Counts
  wakeup-Counts n chan l (h, e) = (
    rw (length-wakeup chan l.procs) h,
    ap (λ (q : Proc). q.ticks) (proc_at-wakeup chan l.procs me)
        ∙ woken-ticks chan (proc_at l.procs me)
        ∙ e,
  )

  clock-Counts : (n cpu : ℕ) (l : Kernel S) → Counts n l → Counts n (advance_clock ticks_chan cpu l)
  unfolding advance_clock Counts
  clock-Counts n cpu l c = elim (Bool-cases (cpu == 0)) [
    | inl e ↦ rw e (wakeup-Counts n ticks_chan l c)
    | inr e ↦ rw e c
  ]

  clock-running :
      (cpu : ℕ) (l : Kernel S)
      → is_running (proc_at l.procs me).state ≡ true
      → is_running (proc_at (advance_clock ticks_chan cpu l).procs me).state ≡ true
  unfolding advance_clock
  clock-running cpu l h = elim (Bool-cases (cpu == 0)) [
    | inl e ↦ rw e (
        ap (λ (q : Proc). is_running q.state) (proc_at-wakeup ticks_chan l.procs me)
        ∙ ap (λ (q : Proc). is_running q.state) (woken-running ticks_chan (proc_at l.procs me) h)
        ∙ h)
    | inr e ↦ rw e h
  ]

  -- The interrupt on a clock that has advanced already.
  tick-Counts :
      (n cpu : ℕ) (l m : Kernel S)
      → n + 1 < word
      → advance_clock ticks_chan cpu l ≡ m
      → is_running (proc_at m.procs me).state ≡ true
      → Counts n m
      → Counts (suc n) (timer_tick ticks_chan cpu me l).0
        × ((timer_tick ticks_chan cpu me l).1 ≡ leb quantum (n + 1))
  unfolding timer_tick Counts count_tick used_up
  tick-Counts n cpu l m small e h (lt, c) =
      let p = count_tick (proc_at m.procs me) in
      let one : p.ticks ≡ suc n = omega (arith, c) in
      let same : used_up p ≡ leb quantum (n + 1) = ground arith in
      let after = λ (q : Proc) (z : q.ticks ≡ suc n).
        set-Counts (suc n) m (record m { procs = set m.procs me q }) q lt refl z in
      elim (Bool-cases (used_up p)) [
        | inl u ↦
            rw (e, h, u)
              (
                yield-Counts (suc n)
                    (record m { procs = set m.procs me (record p { yield_request = true }) })
                    (after (record p { yield_request = true }) one),
                sym u ∙ same,
              )
        | inr u ↦ rw (e, h, u) (after p one, sym u ∙ same)
      ]

  Lives-Counts : (k l : Kernel S) (n : ℕ) → Counts 0 k → n < word → Lives k n l → Counts n l
  unfolding sleep awake dispatch Counts
  Lives-Counts k _ _ c small starts = c
  Lives-Counts k _ _ c small (ticks n cpu l r run) =
      (tick-Counts n cpu l (advance_clock ticks_chan cpu l) (omega arith) refl
        (clock-running cpu l run) (clock-Counts n cpu l (Lives-Counts k l n c (omega arith) r))).0
  Lives-Counts k _ _ c small (sleeps n chan l r) =
      let d = Lives-Counts k l n c small r in set-Counts n l (sleep me chan l).0 _ d.0 refl d.1
  Lives-Counts k _ _ c small (wakes n chan l r) =
      wakeup-Counts n chan l (Lives-Counts k l n c small r)
  Lives-Counts k _ _ c small (resumes n l r) =
      let d = Lives-Counts k l n c small r in
      set-Counts n l (dispatch (λ i m. m) me l) _ d.0 refl d.1
  Lives-Counts k _ _ c small (goes_on n start l r) =
      let d = Lives-Counts k l n c small r in set-Counts n l (awake me start l) _ d.0 refl d.1
  Lives-Counts k _ _ c small (yields n l r) = yield-Counts n l (Lives-Counts k l n c small r)
  Lives-Counts k _ _ c small (others n l m r len same) =
      let d = Lives-Counts k l n c small r in (rw len d.0, ap (λ (q : Proc). q.ticks) same ∙ d.1)

  -- Follow a process from a state in which its tick counter is 0, as `allocproc` sets it, through
  -- timer interrupts that find it running, sleeps, wake-ups, yields, switches of the scheduler to it,
  -- and whatever leaves its slot alone: none of these sets the counter back. So the next interrupt that
  -- finds it running takes the processor from it exactly if this is the fifth such interrupt or any
  -- later one, under every policy: the slice of QUANTUM ticks is given once, and each tick preempts
  -- after it, as long as the counter does not wrap.
  pub quantum_only_once :
      (cpu n : ℕ) (k l : Kernel S)
      → me < length k.procs
      → (proc_at k.procs me).ticks ≡ 0
      → Lives k n l
      → n + 1 < word
      → is_running (proc_at l.procs me).state ≡ true
      → ((proc_at l.procs me).ticks ≡ n)
        × (((timer_tick ticks_chan cpu me l).1 ≡ true) ↔ (quantum ≤ n + 1))
  unfolding Counts
  quantum_only_once cpu n k l lt zero_ticks lives small run =
      let c = Lives-Counts k l n (lt, zero_ticks) (omega arith) lives in
      let y =
        (tick-Counts n cpu l (advance_clock ticks_chan cpu l) small refl (clock-running cpu l run)
          (clock-Counts n cpu l c)).1 in
      (c.1, ((λ e. ground arith), (λ h. ground arith)))
