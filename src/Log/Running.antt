-- ===== src/Log/Running.antt =====
-- Running file system calls and their reservations in the log (log.c): a call is the number of
-- blocks that it may still write; calls interleave in any order, each `log_write` counts as a new
-- block.
use xv6_public_os_project.Log.Device.{Store}
use xv6_public_os_project.Log.Header.{max_op_blocks, log_size}
use xv6_public_os_project.Log.Ops.{Log, begun, begin_op, ok, end_op, end_commit, log_write, initlog}
use xv6_public_os_project.Base.{
  ℕ, suc, ◌+◌, ◌*◌, ◌≤◌, ◌<◌, ◌≡◌, refl, ◌∙◌, Bool, true, List, [], ◌∷◌, ◌++◌, length,
  length-append, All, arith, half_word, subst,
}

abbrev pub sum : List ℕ → ℕ
sum [] = 0
sum (x ∷ xs) = x + sum xs

-- The log, and the blocks that each running call may still write.
pub record Running : Type 0 where
  pub log : Log
  pub calls : List ℕ

abbrev pub running : Log → List ℕ → Running
running l calls = record { log = l; calls = calls }

pub data Step (s : Running) : Running → Type 0 where
  begins : (l : Log) → begin_op s.log ≡ begun l → Step s (running l (max_op_blocks ∷ s.calls))
  writes :
      (before after : List ℕ) (k b : ℕ) (l : Log)
      → s.calls ≡ before ++ (suc k ∷ after)
      → log_write b s.log ≡ ok l
      → Step s (running l (before ++ (k ∷ after)))
  ends :
      (before after : List ℕ) (k : ℕ) (l : Log) (last : Bool)
      → s.calls ≡ before ++ (k ∷ after)
      → end_op s.log ≡ ok (l, last)
      → Step s (running l (before ++ after))
  commits : (t : Store) → s.log.committing ≡ true → Step s (running (end_commit s.log t).0 s.calls)

pub data Reach (s : Running) : Running → Type 0 where
  here : Reach s s
  next : {t u : Running} → Reach s t → Step t u → Reach s u

pub record Inv (s : Running) : Type 0 where
  pub count : s.log.outstanding ≡ length s.calls
  pub few : length s.calls ≤ 3
  pub enough : length s.log.lh + sum s.calls ≤ log_size
  pub budgets : All (λ k. k ≤ max_op_blocks) s.calls
  pub alone : s.log.committing ≡ true → length s.calls ≡ 0
  pub positive : s.log.size < half_word

pub sum-append : (xs ys : List ℕ) → sum (xs ++ ys) ≡ sum xs + sum ys
sum-append [] ys = omega arith
sum-append (x ∷ xs) ys = omega (arith, sum-append xs ys)

pub sum-le : (xs : List ℕ) → All (λ k. k ≤ max_op_blocks) xs → sum xs ≤ max_op_blocks * length xs
sum-le [] h = omega arith
sum-le (x ∷ xs) h = omega (arith, sum-le xs h.1)

-- Budgets stay small when one of them falls, and when a call is over.
lower-All :
    (xs ys : List ℕ) (k : ℕ)
    → All (λ n. n ≤ max_op_blocks) (xs ++ (suc k ∷ ys))
    → All (λ n. n ≤ max_op_blocks) (xs ++ (k ∷ ys))
lower-All [] ys k h = (omega arith, h.1)
lower-All (x ∷ xs) ys k h = (h.0, lower-All xs ys k h.1)

drop-All :
    (xs ys : List ℕ) (k : ℕ)
    → All (λ n. n ≤ max_op_blocks) (xs ++ (k ∷ ys))
    → All (λ n. n ≤ max_op_blocks) (xs ++ ys)
drop-All [] ys k h = h.1
drop-All (x ∷ xs) ys k h = (h.0, drop-All xs ys k h.1)

begins-Inv :
    (s : Running) (l : Log)
    → Inv s
    → begin_op s.log ≡ begun l
    → Inv (running l (max_op_blocks ∷ s.calls))
unfolding begin_op
begins-Inv s l v e = ground (arith, sum-le s.calls v.budgets)

writes-Inv :
    (s : Running) (before after : List ℕ) (k b : ℕ) (l : Log)
    → Inv s
    → s.calls ≡ before ++ (suc k ∷ after)
    → log_write b s.log ≡ ok l
    → Inv (running l (before ++ (k ∷ after)))
unfolding log_write
writes-Inv s before after k b l v split e = ground (
  arith,
  subst (All (λ n. n ≤ max_op_blocks)) split v.budgets,
  lower-All before after k,
  length-append before (k ∷ after),
  length-append before (suc k ∷ after),
  sum-append before (k ∷ after),
  sum-append before (suc k ∷ after),
  length-append s.log.lh (b ∷ []),
)

ends-Inv :
    (s : Running) (before after : List ℕ) (k : ℕ) (l : Log) (last : Bool)
    → Inv s
    → s.calls ≡ before ++ (k ∷ after)
    → end_op s.log ≡ ok (l, last)
    → Inv (running l (before ++ after))
unfolding end_op
ends-Inv s before after k l last v split e = ground (
  arith,
  subst (All (λ n. n ≤ max_op_blocks)) split v.budgets,
  drop-All before after k,
  length-append before (k ∷ after),
  length-append before after,
  sum-append before (k ∷ after),
  sum-append before after,
)

commits-Inv :
    (s : Running) (t : Store)
    → Inv s
    → s.log.committing ≡ true
    → Inv (running (end_commit s.log t).0 s.calls)
unfolding end_commit
commits-Inv s t v c = ground (arith, v.alone c)

pub Step-Inv : {s t : Running} → Inv s → Step s t → Inv t
Step-Inv {s} v (begins l e) = begins-Inv s l v e
Step-Inv {s} v (writes before after k b l split e) = writes-Inv s before after k b l v split e
Step-Inv {s} v (ends before after k l last split e) = ends-Inv s before after k l last v split e
Step-Inv {s} v (commits t c) = commits-Inv s t v c

pub Reach-Inv : {s t : Running} → Inv s → Reach s t → Inv t
Reach-Inv v here = v
Reach-Inv v (next r st) = Step-Inv (Reach-Inv v r) st

abbrev pub booted : ℕ → ℕ → Store → Running
booted start size t = running (initlog start size t).0 []

pub booted-Inv : (start size : ℕ) (t : Store) → size < half_word → Inv (booted start size t)
unfolding initlog
booted-Inv start size t h = ground arith

-- No call changes the size of the log.
Step-size : {s t : Running} → Step s t → t.log.size ≡ s.log.size
unfolding begin_op log_write end_op end_commit
Step-size {s} (begins l e) = ground arith
Step-size {s} (writes before after k b l split e) = ground arith
Step-size {s} (ends before after k l last split e) = ground arith
Step-size {s} (commits t c) = refl

Reach-size : {s t : Running} → Reach s t → t.log.size ≡ s.log.size
Reach-size here = refl
Reach-size (next r st) = Step-size st ∙ Reach-size r

pub booted-size :
    (start size : ℕ) (t : Store) (s : Running) → Reach (booted start size t) s → s.log.size ≡ size
unfolding initlog
booted-size start size t s r = Reach-size r
