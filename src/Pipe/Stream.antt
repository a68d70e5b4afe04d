-- ===== src/Pipe/Stream.antt =====
-- A writer and a reader of one pipe (pipe.c), whose calls interleave in any order.
use xv6_public_os_project.Pipe.{
  Pipe, pipesize, Written, wrote, pipewrite, got, piperead, pipeclose, fresh,
}
use xv6_public_os_project.Pipe.Ring.{IsValid, contents}
use xv6_public_os_project.Pipe.Transfer.{Moved, Writes, Reads, pipewrite-Writes, piperead-Reads}
use xv6_public_os_project.Base.{
  ℕ, ◌≡◌, refl, ap, ◌∙◌, Bool, true, false, List, [], ◌++◌, length, arith, subst,
}
use mathlib.Core.List.{append-nil, append_assoc}

-- `sent` are the bytes of the calls of `pipewrite` so far, less those that a failed call dropped
-- or a sleeping call (`pending`) has still to write; `received` is what `piperead` returned.
pub record Session : Type 0 where
  pub pipe : Pipe
  pub sent : List ℕ
  pub received : List ℕ
  pub pending : List ℕ

-- Each step is one call, or a sleeping call that runs on; `write` passes fresh bytes after a call
-- that has returned, `resume` makes a sleeping call again.
pub data Step (s : Session) : Session → Type 0 where
  writes :
      (killed : Bool) (n : ℕ) (addr : List ℕ) (q : Pipe)
      → s.pending ≡ []
      → pipewrite killed n addr s.pipe ≡ wrote n q
      → Step s (record s { pipe = q; sent = s.sent ++ addr })
  sleeps :
      (killed : Bool) (n : ℕ) (addr rest : List ℕ) (q : Pipe)
      → s.pending ≡ []
      → pipewrite killed n addr s.pipe ≡ Written.asleep rest q
      → Step s (record s { pipe = q; sent = s.sent ++ addr; pending = rest })
  resumes :
      (killed : Bool) (n : ℕ) (q : Pipe)
      → pipewrite killed n s.pending s.pipe ≡ wrote n q
      → Step s (record s { pipe = q; pending = [] })
  sleeps_again :
      (killed : Bool) (n : ℕ) (rest : List ℕ) (q : Pipe)
      → pipewrite killed n s.pending s.pipe ≡ Written.asleep rest q
      → Step s (record s { pipe = q; pending = rest })
  reads :
      (killed : Bool) (n : ℕ) (out : List ℕ) (q : Pipe)
      → piperead killed n s.pipe ≡ got out q
      → Step s (record s { pipe = q; received = s.received ++ out })
  closes : (writable : Bool) → Step s (record s { pipe = (pipeclose s.pipe writable).0 })

pub data Reach (s : Session) : Session → Type 0 where
  here : Reach s s
  next : {t u : Session} → Reach s t → Step t u → Reach s u

pub record Inv (s : Session) : Type 0 where
  pub valid : IsValid s.pipe
  pub stream : s.sent ≡ s.received ++ (contents s.pipe ++ s.pending)

-- A call of `pipewrite` that moves a part of `addr`, and leaves `rest`.
Moved-Inv :
    (s : Session) (addr rest : List ℕ) (q : Pipe)
    → Inv s
    → Moved addr rest s.pipe q
    → s.received ++ (contents s.pipe ++ addr) ≡ s.received ++ (contents q ++ rest)
Moved-Inv s addr rest q v m = rw (m.split, m.holds, append_assoc (contents s.pipe) m.first rest)

wrote-Moved :
    (killed : Bool) (n m : ℕ) (addr : List ℕ) (p q : Pipe)
    → IsValid p
    → pipewrite killed n addr p ≡ wrote m q
    → Moved addr [] p q
wrote-Moved killed n m addr p q v e =
    (subst (Writes killed n addr p) e (pipewrite-Writes killed n addr p v)).1

asleep-Moved :
    (killed : Bool) (n : ℕ) (addr rest : List ℕ) (p q : Pipe)
    → IsValid p
    → pipewrite killed n addr p ≡ Written.asleep rest q
    → Moved addr rest p q
asleep-Moved killed n addr rest p q v e =
    (subst (Writes killed n addr p) e (pipewrite-Writes killed n addr p v)).0

-- Fresh bytes go behind all that was sent before.
sent-more :
    (s : Session) (addr rest : List ℕ) (q : Pipe)
    → Inv s
    → s.pending ≡ []
    → Moved addr rest s.pipe q
    → s.sent ++ addr ≡ s.received ++ (contents q ++ rest)
sent-more s addr rest q v e m =
    ap (λ (l : List ℕ). l ++ addr)
      (v.stream ∙ ap (λ (l : List ℕ). s.received ++ (contents s.pipe ++ l)) e)
    ∙ append_assoc s.received (contents s.pipe ++ []) addr
    ∙ ap (λ (l : List ℕ). s.received ++ (l ++ addr)) (append-nil (contents s.pipe))
    ∙ Moved-Inv s addr rest q v m

close-Inv :
    (s : Session) (writable : Bool)
    → Inv s
    → Inv (record s { pipe = (pipeclose s.pipe writable).0 })
unfolding pipeclose
close-Inv s true v = record { valid = ground arith; stream = v.stream }
close-Inv s false v = record { valid = ground arith; stream = v.stream }

pub Step-Inv : {s t : Session} → Inv s → Step s t → Inv t
Step-Inv {s} v (writes killed n addr q e w) =
    let m = wrote-Moved killed n n addr s.pipe q v.valid w in
    record { valid = m.valid; stream = rw e (sent-more s addr [] q v e m) }
Step-Inv {s} v (sleeps killed n addr rest q e w) =
    let m = asleep-Moved killed n addr rest s.pipe q v.valid w in
    record { valid = m.valid; stream = sent-more s addr rest q v e m }
Step-Inv {s} v (resumes killed n q w) =
    let m = wrote-Moved killed n n s.pending s.pipe q v.valid w in
    record { valid = m.valid; stream = v.stream ∙ Moved-Inv s s.pending [] q v m }
Step-Inv {s} v (sleeps_again killed n rest q w) =
    let m = asleep-Moved killed n s.pending rest s.pipe q v.valid w in
    record { valid = m.valid; stream = v.stream ∙ Moved-Inv s s.pending rest q v m }
Step-Inv {s} v (reads killed n out q w) =
    let r = subst (Reads killed n s.pipe) w (piperead-Reads killed n s.pipe v.valid) in
    record {
      valid = r.0.2;
      stream =
          v.stream
          ∙ ap (λ (l : List ℕ). s.received ++ (l ++ s.pending)) r.0.0
          ∙ (simp append_assoc);
    }
Step-Inv {s} v (closes writable) = close-Inv s writable v

pub Reach-Inv : {s t : Session} → Inv s → Reach s t → Inv t
Reach-Inv v here = v
Reach-Inv v (next r st) = Step-Inv (Reach-Inv v r) st

abbrev pub opened : List ℕ → Session
opened page = record { pipe = fresh page; sent = []; received = []; pending = [] }

opened-Inv : (page : List ℕ) → length page ≡ pipesize → Inv (opened page)
unfolding fresh
opened-Inv page h = record { valid = ground arith; stream = refl }

-- In every run of a writer and a reader on a new pipe of PIPESIZE bytes, in which no `pipewrite`
-- fails: the bytes received, the bytes in the pipe and the bytes that a sleeping call has still to
-- write are, in this order, all the bytes sent.
pub stream_intact :
    (page : List ℕ) (s : Session)
    → length page ≡ pipesize
    → Reach (opened page) s
    → s.sent ≡ s.received ++ (contents s.pipe ++ s.pending)
stream_intact page s h r = (Reach-Inv (opened-Inv page h) r).stream
