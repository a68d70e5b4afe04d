-- ===== src/Proc/Pids.antt =====
-- The pids of the processes, over the operations of proc.c in any order.
use xv6_public_os_project.Proc.Types.{
  Proc, running, is_unused, is_runnable, is_proc, proc_at, Kernel, Services,
}
use xv6_public_os_project.Proc.Sleep.{kill, wakeup, sleep, awake, yield}
use xv6_public_os_project.Proc.Create.{fork}
use xv6_public_os_project.Proc.Exit.{exit, wait, exited, Waited, returned, asleep}
use xv6_public_os_project.Proc.Table.{active, proc_at-set_self, proc_at-set_ne, proc_at-wakeup}
use xv6_public_os_project.Proc.Forking.{Forked, forked, failed, fork-Forked}
use xv6_public_os_project.Proc.Waiting.{Scan, reaps, gives_up, sleeps, wait-Scan}
use xv6_public_os_project.Proc.Exiting.{Exits, exit-Exits}
use xv6_public_os_project.Proc.Killing.{Kills, kill-Kills, marked}
use xv6_public_os_project.Base.{
  ℕ, ◌+◌, ◌<◌, ◌≡◌, ◌≢◌, refl, ap, ◌∙◌, sym, inl, inr, true, false, not, some, List, set, length,
  arith, subst, half_word, ℕ_discrete,
}

pub record Unique (ps : List Proc) (nextpid : ℕ) : Type 0 where
  pub distinct :
      (i j : ℕ)
      → active ps i ≡ true
      → active ps j ≡ true
      → (proc_at ps i).pid ≡ (proc_at ps j).pid
      → i ≡ j
  pub fresh : (i : ℕ) → active ps i ≡ true → (proc_at ps i).pid < nextpid

-- No process is new, and those that stay keep their pids.
abbrev Shrinks : List Proc → List Proc → Type 0
Shrinks ps qs =
    (j : ℕ) → active qs j ≡ true → (active ps j ≡ true) × ((proc_at qs j).pid ≡ (proc_at ps j).pid)

Shrinks-Unique : (ps qs : List Proc) (n : ℕ) → Shrinks ps qs → Unique ps n → Unique qs n
Shrinks-Unique ps qs n s u = record {
  distinct = λ i j a b e. u.distinct i j (s i a).0 (s j b).0 (sym (s i a).1 ∙ e ∙ (s j b).1);
  fresh = λ i a. rw (s i a).1 (u.fresh i (s i a).0);
}

-- A change of slot `i` that brings no new process.
abbrev Stays : List Proc → List Proc → ℕ → Type 0
Stays ps qs j =
    active qs j ≡ true → (active ps j ≡ true) × ((proc_at qs j).pid ≡ (proc_at ps j).pid)

Stays-same : (ps qs : List Proc) (j : ℕ) → proc_at qs j ≡ proc_at ps j → Stays ps qs j
Stays-same ps qs j e a =
    (sym (ap (λ (p : Proc). not (is_unused p.state)) e) ∙ a, ap (λ (p : Proc). p.pid) e)

one_slot-Shrinks :
    (ps qs : List Proc) (i : ℕ)
    → ((j : ℕ) → j ≢ i → proc_at qs j ≡ proc_at ps j)
    → Stays ps qs i
    → Shrinks ps qs
one_slot-Shrinks ps qs i others here j = elim (ℕ_discrete j i) [
  | yes e ↦ subst (Stays ps qs) (sym e) here
  | no ne ↦ Stays-same ps qs j (others j ne)
]

set-Shrinks :
    (ps : List Proc) (i : ℕ) (p : Proc)
    → i < length ps
    → active ps i ≡ true
    → p.pid ≡ (proc_at ps i).pid
    → Shrinks ps (set ps i p)
set-Shrinks ps i p h busy e =
    one_slot-Shrinks ps (set ps i p) i (λ j ne. proc_at-set_ne ps i j p ne)
      (λ a. (busy, ap (λ (q : Proc). q.pid) (proc_at-set_self ps i p h) ∙ e))

wakeup-Shrinks : (chan : ℕ) (ps : List Proc) → Shrinks ps (wakeup chan ps)
wakeup-Shrinks chan ps j a = ground (arith, proc_at-wakeup chan ps j)

kill-Shrinks : (pid : ℕ) (ps : List Proc) (o : List Proc × ℕ) → Kills pid ps o → Shrinks ps o.0
kill-Shrinks pid ps (qs, r) (inr (none_there, e, z)) =
    λ j. Stays-same ps qs j (ap (λ (l : List Proc). proc_at l j) e)
kill-Shrinks pid ps (qs, r) (inl (i, f, e, z)) = subst (Shrinks ps) (sym e) (
    one_slot-Shrinks ps (set ps i p) i (λ j ne. proc_at-set_ne ps i j p ne)
      (λ a. ground (arith, proc_at-set_self ps i p f.0)))
  where
    p : Proc
    p = marked (proc_at ps i)

-- A new process with the next pid in a slot that was free.
add-Unique :
    (ps qs : List Proc) (n i : ℕ)
    → ((j : ℕ) → j ≢ i → proc_at qs j ≡ proc_at ps j)
    → (active qs i ≡ true → (proc_at qs i).pid ≡ n)
    → Unique ps n
    → Unique qs (n + 1)
add-Unique ps qs n i others pid u = record {
  distinct = λ j l a b e. elim (ℕ_discrete j i) [
    | yes p ↦ elim (ℕ_discrete l i) [
      | yes q ↦ p ∙ sym q
      | no nq ↦ absurd (new_old l nq b (sym e ∙ ap (λ (x : ℕ). (proc_at qs x).pid) p) (rw (← p) a))
    ]
    | no np ↦ elim (ℕ_discrete l i) [
      | yes q ↦ absurd (new_old j np a (e ∙ ap (λ (x : ℕ). (proc_at qs x).pid) q) (rw (← q) b))
      | no nq ↦ u.distinct j l (old j np a) (old l nq b) (
          sym (ap (λ (p : Proc). p.pid) (others j np)) ∙ e ∙ ap (λ (p : Proc). p.pid) (others l nq))
    ]
  ];
  fresh = λ j a. elim (ℕ_discrete j i) [
    | yes p ↦ omega (arith, ap (λ (x : ℕ). (proc_at qs x).pid) p, pid (rw (← p) a))
    | no np ↦ omega (arith, ap (λ (p : Proc). p.pid) (others j np), u.fresh j (old j np a))
  ];
}
  where
    old : (j : ℕ) → j ≢ i → active qs j ≡ true → active ps j ≡ true
    old j np a = (Stays-same ps qs j (others j np) a).0

    new_old :
        (j : ℕ)
        → j ≢ i
        → active qs j ≡ true
        → (proc_at qs j).pid ≡ (proc_at qs i).pid
        → active qs i ≡ true
        → ⊥
    new_old j np a e b =
        omega (arith, e, pid b, ap (λ (p : Proc). p.pid) (others j np), u.fresh j (old j np a))

module _ {S : Type 0} (sv : Services S) where
  -- The operations on the process table, each by a process that exists, in any order. The clock and
  -- the other layers may change at any time, and fewer than 2 ^ 31 processes are created.
  pub data Step (k : Kernel S) : Kernel S → Type 0 where
    forks :
        (me : ℕ) → active k.procs me ≡ true → k.nextpid + 1 < half_word → Step k (fork sv me k).0
    exits :
        (me : ℕ) (k' : Kernel S)
        → me < length k.procs
        → active k.procs me ≡ true
        → is_proc k.initproc me ≡ false
        → exit sv me k ≡ exited k'
        → Step k k'
    waits :
        (me pid : ℕ) (k' : Kernel S)
        → me < length k.procs
        → wait sv me k ≡ returned pid k'
        → Step k k'
    sleeps_on :
        (me chan : ℕ) → me < length k.procs → active k.procs me ≡ true → Step k (sleep me chan k).0
    wakes : (chan : ℕ) → Step k (record k { procs = wakeup chan k.procs })
    wakes_up :
        (me ticks : ℕ) → me < length k.procs → active k.procs me ≡ true → Step k (awake me ticks k)
    yields : (me : ℕ) → me < length k.procs → active k.procs me ≡ true → Step k (yield me k)
    kills : (pid : ℕ) → Step k (record k { procs = (kill pid k.procs).0 })
    runs :
        (i : ℕ)
        → i < length k.procs
        → is_runnable (proc_at k.procs i).state ≡ true
        → Step k (record k {
          procs = set k.procs i (record (proc_at k.procs i) { state = running });
          cpu_proc = some i;
        })
    passes : (now : ℕ) (layers : S) → Step k (record k { now = now; layers = layers })

  pub data Reach (k : Kernel S) : Kernel S → Type 0 where
    here : Reach k k
    next : {l m : Kernel S} → Reach k l → Step l m → Reach k m

  abbrev pub Pids : Kernel S → Type 0
  Pids k = Unique k.procs k.nextpid

  fork-Pids :
      (me : ℕ) (k : Kernel S) (o : Kernel S × ℕ)
      → k.nextpid + 1 < half_word
      → Pids k
      → Forked sv me k o
      → Pids o.0
  fork-Pids me k o h u (forked i pid k' t e st p par tf sz cwd) =
      let n : k'.nextpid ≡ k.nextpid + 1 = omega (arith, t.next) in
      rw n (add-Unique k.procs k'.procs k.nextpid i t.rest.1 (λ a. p ∙ e) u)
  fork-Pids me k o h u (failed k' (inl e)) = rw e u
  fork-Pids me k o h u (failed k' (inr (i, t, free))) =
      let n : k'.nextpid ≡ k.nextpid + 1 = omega (arith, t.next) in
      rw n (add-Unique k.procs k'.procs k.nextpid i t.rest.1 (λ a. ground arith) u)

  exit-Pids :
      (me : ℕ) (k k' : Kernel S) → active k.procs me ≡ true → Exits sv me k k' → Pids k → Pids k'
  exit-Pids me k k' busy x u =
      rw x.same_nextpid (Shrinks-Unique k.procs k'.procs k.nextpid shrinks u)
    where
      shrinks : Shrinks k.procs k'.procs
      shrinks j = elim (ℕ_discrete j me) [
        | yes e ↦ subst (Stays k.procs k'.procs) (sym e) (λ a. (busy, x.gone.4))
        | no ne ↦ λ a. ground (arith, x.kept j ne)
      ]

  abbrev Keeps : Kernel S → Waited S → Type 0
  Keeps k (returned pid k') = Pids k'
  Keeps k (asleep k') = Unit {0}

  wait-Pids : (me : ℕ) (k : Kernel S) (o : Waited S) → Pids k → Scan sv me k o → Keeps k o
  wait-Pids me k o u (reaps i k' r) = rw r.same_nextpid (
      Shrinks-Unique k.procs k'.procs k.nextpid
        (one_slot-Shrinks k.procs k'.procs i r.others (λ a. ground (arith, r.freed))) u)
  wait-Pids me k o u (gives_up d n) = u
  wait-Pids me k o u (sleeps j k' d c nk st ch others) = tt

  exits-Pids :
      (me : ℕ) (k k' : Kernel S)
      → me < length k.procs
      → active k.procs me ≡ true
      → is_proc k.initproc me ≡ false
      → exit sv me k ≡ exited k'
      → Pids k
      → Pids k'
  exits-Pids me k k' h busy notinit e u =
      let (l, f, x) = exit-Exits sv me k h notinit in
      subst Pids (exited-injective l k' (sym f ∙ e)) (exit-Pids me k l busy x u)
    where
      exited-injective : (l k' : Kernel S) → exited l ≡ exited k' → l ≡ k'
      exited-injective l k' e = cc

  set-Pids :
      (k : Kernel S) (i : ℕ) (p : Proc)
      → i < length k.procs
      → active k.procs i ≡ true
      → p.pid ≡ (proc_at k.procs i).pid
      → Pids k
      → Unique (set k.procs i p) k.nextpid
  set-Pids k i p h busy e u =
      Shrinks-Unique k.procs (set k.procs i p) k.nextpid (set-Shrinks k.procs i p h busy e) u

  runnable-active :
      (ps : List Proc) (i : ℕ) → is_runnable (proc_at ps i).state ≡ true → active ps i ≡ true
  runnable-active ps i h = ground arith

  pub Step-Pids : {k l : Kernel S} → Pids k → Step k l → Pids l
  unfolding sleep awake yield
  Step-Pids {k} u (forks me busy h) = fork-Pids me k _ h u (fork-Forked sv me k busy)
  Step-Pids {k} u (exits me k' h busy ni e) = exits-Pids me k k' h busy ni e u
  Step-Pids {k} u (waits me pid k' h e) =
      subst (Keeps k) e (wait-Pids me k _ u (wait-Scan sv me k h))
  Step-Pids {k} u (sleeps_on me chan h busy) = set-Pids k me _ h busy refl u
  Step-Pids {k} u (wakes chan) = Shrinks-Unique k.procs _ k.nextpid (wakeup-Shrinks chan k.procs) u
  Step-Pids {k} u (wakes_up me ticks h busy) = set-Pids k me _ h busy refl u
  Step-Pids {k} u (yields me h busy) = set-Pids k me _ h busy refl u
  Step-Pids {k} u (kills pid) =
      Shrinks-Unique k.procs _ k.nextpid (kill-Shrinks pid k.procs _ (kill-Kills pid k.procs)) u
  Step-Pids {k} u (runs i h r) = set-Pids k i _ h (runnable-active k.procs i r) refl u
  Step-Pids {k} u (passes now layers) = u

  pub Reach-Pids : {k l : Kernel S} → Pids k → Reach k l → Pids l
  Reach-Pids u here = u
  Reach-Pids u (next r st) = Step-Pids (Reach-Pids u r) st

-- Let the first process, in slot `i` with pid 1, be the only one. After any sequence of forks,
-- exits, waits, sleeps, wake-ups, yields, kills and dispatches that creates fewer than 2 ^ 31
-- processes, two different slots in use hold different pids, all below `nextpid`.
pub pids-Unique :
    {S : Type 0} (sv : Services S) (k l : Kernel S) (i : ℕ)
    → ((j : ℕ) → j ≢ i → active k.procs j ≡ false)
    → (proc_at k.procs i).pid < k.nextpid
    → Reach sv k l
    → Unique l.procs l.nextpid
pids-Unique sv k l i alone small r = Reach-Pids sv start r
  where
    only : (j : ℕ) → active k.procs j ≡ true → j ≡ i
    only j a = elim (ℕ_discrete j i) [ yes e ↦ e | no ne ↦ ground (arith, alone j ne) ]

    start : Unique k.procs k.nextpid
    start = record {
      distinct = λ j m a b e. only j a ∙ sym (only m b);
      fresh = λ j a. rw (only j a) small;
    }
