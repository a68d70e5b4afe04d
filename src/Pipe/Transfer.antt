-- ===== src/Pipe/Transfer.antt =====
-- One call of `pipewrite`, `piperead` or `pipeclose`: which bytes move, and when it fails or sleeps.
use xv6_public_os_project.Pipe.{
  Pipe, pipesize, put, oldest, skip, Written, wrote, pipewrite, Got, got, copy_out, piperead,
  pipeclose,
}
use xv6_public_os_project.Pipe.Ring.{
  IsValid, contents, length-contents, put-IsValid, contents-put, skip-IsValid, contents-skip,
}
use xv6_public_os_project.Base.{
  ℕ, zero, suc, ◌<◌, ◌≡◌, ◌≢◌, refl, ap, ◌∙◌, sym, ◌⊎◌, inl, inr, Bool, true, false, not, ◌&&◌,
  ◌||◌, List, [], ◌∷◌, ◌++◌, ◌==◌, if◌then◌else◌, length, add32, arith, Bool-cases, ==_iff, dec_lt,
  ◌↔◌,
}
use mathlib.Core.List.{append-nil, append_assoc}
use Prim.Native.Nat.{min}

-- The first `k` bytes of `addr` went to the end of the pipe, and `rest` is what is left of them.
pub record Moved (addr rest : List ℕ) (p q : Pipe) : Type 0 where
  pub first : List ℕ
  pub split : addr ≡ first ++ rest
  pub valid : IsValid q
  pub holds : contents q ≡ contents p ++ first
  pub ends : (q.readopen ≡ p.readopen) × (q.writeopen ≡ p.writeopen)

-- The pipe is full, and there is a byte to write.
abbrev pub Stuck : List ℕ → Pipe → Type 0
Stuck rest q = (0 < length rest) × (length (contents q) ≡ pipesize)

-- What `pipewrite` promises of each of its ends: it writes all bytes and returns their number; it
-- sleeps on a full pipe that is open for reading; it fails on a full pipe that nobody will read,
-- or in a killed process.
abbrev pub Writes : Bool → ℕ → List ℕ → Pipe → Written → Type 0
Writes killed n addr p (wrote m q) = (m ≡ n) × Moved addr [] p q
Writes killed n addr p (Written.asleep rest q) =
    Moved addr rest p q × Stuck rest q × (p.readopen ≡ true) × (killed ≡ false)
Writes killed n addr p (Written.failed q) =
    (rest : List ℕ) × Moved addr rest p q × Stuck rest q × ((p.readopen ≡ false) ⊎ (killed ≡ true))

Moved-none : (addr : List ℕ) (p : Pipe) → IsValid p → Moved addr addr p p
Moved-none addr p v = record {
  first = [];
  split = refl;
  valid = v;
  holds = sym (append-nil (contents p));
  ends = (refl, refl);
}

Moved-put :
    (c : ℕ) (cs rest : List ℕ) (p q : Pipe)
    → contents (put p c) ≡ contents p ++ (c ∷ [])
    → Moved cs rest (put p c) q
    → Moved (c ∷ cs) rest p q
unfolding put
Moved-put c cs rest p q e m = record {
  first = c ∷ m.first;
  split = ap (λ (l : List ℕ). c ∷ l) m.split;
  valid = m.valid;
  holds =
      m.holds ∙ ap (λ (l : List ℕ). l ++ m.first) e ∙ append_assoc (contents p) (c ∷ []) m.first;
  ends = m.ends;
}

Writes-put :
    (killed : Bool) (n c : ℕ) (cs : List ℕ) (p : Pipe) (o : Written)
    → contents (put p c) ≡ contents p ++ (c ∷ [])
    → Writes killed n cs (put p c) o
    → Writes killed n (c ∷ cs) p o
unfolding put
Writes-put killed n c cs p (wrote m q) e w = (w.0, Moved-put c cs [] p q e w.1)
Writes-put killed n c cs p (Written.asleep rest q) e w =
    (Moved-put c cs rest p q e w.0, w.1, w.2, w.3)
Writes-put killed n c cs p (Written.failed q) e w = (w.0, Moved-put c cs w.0 p q e w.1, w.2, w.3)

full-Stuck :
    (c : ℕ) (cs : List ℕ) (p : Pipe)
    → IsValid p
    → p.nwrite ≡ add32 p.nread pipesize
    → Stuck (c ∷ cs) p
full-Stuck c cs p v full = (omega arith, omega (arith, length-contents p))

Stuck-Writes :
    (killed : Bool) (n c : ℕ) (cs : List ℕ) (p : Pipe) (b : Bool)
    → IsValid p
    → Stuck (c ∷ cs) p
    → (not p.readopen || killed) ≡ b
    → Writes killed n (c ∷ cs) p (if b then Written.failed p else Written.asleep (c ∷ cs) p)
Stuck-Writes killed n c cs p true v stuck e = (c ∷ cs, Moved-none (c ∷ cs) p v, stuck, ground arith)
Stuck-Writes killed n c cs p false v stuck e =
    (Moved-none (c ∷ cs) p v, stuck, ground arith, ground arith)

-- On a valid pipe `pipewrite` puts a first part of its bytes behind the bytes of the pipe, in order,
-- and keeps the pipe valid. It returns with all of them written, and their number; it sleeps on a
-- full pipe that is open for reading, in a process that is not killed; it fails on a full pipe that
-- nobody will read, or in a killed process.
pub pipewrite-Writes :
    (killed : Bool) (n : ℕ) (addr : List ℕ) (p : Pipe)
    → IsValid p
    → Writes killed n addr p (pipewrite killed n addr p)
unfolding pipewrite
pipewrite-Writes killed n [] p v = (refl, Moved-none [] p v)
pipewrite-Writes killed n (c ∷ cs) p v = elim (Bool-cases (p.nwrite == add32 p.nread pipesize)) [
  | inl full ↦
      rw full (Stuck-Writes killed n c cs p _ v (full-Stuck c cs p v ((==_iff _ _).0 full)) refl)
  | inr room ↦
      let ne : p.nwrite ≢ add32 p.nread pipesize = λ e. ground arith in
      rw room (
        Writes-put killed n c cs p _ (contents-put p c v ne)
          (pipewrite-Writes killed n cs (put p c) (put-IsValid p c v ne)))
]

-- The bytes that `copy_out` takes, and what it leaves.
abbrev Copies : ℕ → Pipe → List ℕ → Pipe → Type 0
Copies n p out q =
    (contents p ≡ out ++ contents q)
    × (length out ≡ min n (length (contents p)))
    × IsValid q
    × (q.readopen ≡ p.readopen)
    × (q.writeopen ≡ p.writeopen)

empty-contents : (p : Pipe) → p.nread ≡ p.nwrite → IsValid p → length (contents p) ≡ 0
empty-contents p e v = omega (arith, length-contents p)

Copies-skip :
    (n : ℕ) (p q : Pipe) (out : List ℕ)
    → contents p ≡ oldest p ∷ contents (skip p)
    → Copies n (skip p) out q
    → Copies (suc n) p (oldest p ∷ out) q
unfolding skip
Copies-skip n p q out e h = (
  e ∙ ap (λ (l : List ℕ). oldest p ∷ l) h.0,
  omega (arith, ap (λ (l : List ℕ). length l) e, h.1),
  h.2,
  h.3,
  h.4,
)

copy_out-Copies : (n : ℕ) (p : Pipe) → IsValid p → Copies n p (copy_out n p).0 (copy_out n p).1
unfolding copy_out
copy_out-Copies zero p v = (refl, omega arith, v, refl, refl)
copy_out-Copies (suc n) p v = elim (Bool-cases (p.nread == p.nwrite)) [
  | inl e ↦ rw e (refl, omega (arith, empty-contents p ((==_iff _ _).0 e) v), v, refl, refl)
  | inr e ↦
      let ne : p.nread ≢ p.nwrite = λ q. ground arith in
      rw e (
        Copies-skip n p _ _ (contents-skip p v ne)
          (copy_out-Copies n (skip p) (skip-IsValid p v ne)))
]

-- What `piperead` promises: it fails or sleeps only on an empty pipe that is open for writing, as
-- the process is killed or not; else it takes the oldest bytes, as many as there are up to `n`.
abbrev pub Reads : Bool → ℕ → Pipe → Got → Type 0
Reads killed n p Got.failed = (length (contents p) ≡ 0) × (p.writeopen ≡ true) × (killed ≡ true)
Reads killed n p Got.asleep = (length (contents p) ≡ 0) × (p.writeopen ≡ true) × (killed ≡ false)
Reads killed n p (got out q) =
    Copies n p out q × ((0 < length (contents p)) ⊎ (p.writeopen ≡ false))

empty_iff : (p : Pipe) → IsValid p → length (contents p) ≡ 0 → (p.nread == p.nwrite) ≡ true
empty_iff p v e = ground (arith, length-contents p)

waiting-Reads :
    (killed : Bool) (n : ℕ) (p : Pipe)
    → length (contents p) ≡ 0
    → p.writeopen ≡ true
    → Reads killed n p (if killed then Got.failed else Got.asleep)
waiting-Reads true n p e w = (e, w, refl)
waiting-Reads false n p e w = (e, w, refl)

ready-Reads :
    (p : Pipe)
    → IsValid p
    → ((p.nread == p.nwrite) && p.writeopen) ≡ false
    → (0 < length (contents p)) ⊎ (p.writeopen ≡ false)
ready-Reads p v e = elim (dec_lt 0 (length (contents p))) [
  | yes h ↦ inl h
  | no h ↦ inr (ground (arith, empty_iff p v (omega arith)))
]

-- On a valid pipe `piperead` takes the oldest bytes, as many as there are up to `n`, and leaves the
-- others, and the pipe valid. Only on an empty pipe that is open for writing it takes none: then it
-- fails in a killed process and sleeps in another.
pub piperead-Reads :
    (killed : Bool) (n : ℕ) (p : Pipe) → IsValid p → Reads killed n p (piperead killed n p)
unfolding piperead
piperead-Reads killed n p v = elim (Bool-cases ((p.nread == p.nwrite) && p.writeopen)) [
  | inl e ↦ rw e (waiting-Reads killed n p (empty-contents p (ground arith) v) (ground arith))
  | inr e ↦ rw e (copy_out-Copies n p v, ready-Reads p v e)
]

-- `pipeclose` closes the end that it is given, leaves the other end and the bytes alone, and frees
-- the page exactly if both ends are closed now.
pub pipeclose_lem :
    (p : Pipe) (writable : Bool)
    → let (q, freed) = pipeclose p writable in
      (q.writeopen ≡ (not writable && p.writeopen))
      × (q.readopen ≡ (writable && p.readopen))
      × (contents q ≡ contents p)
      × ((freed ≡ true) ↔ ((q.readopen ≡ false) × (q.writeopen ≡ false)))
unfolding pipeclose
pipeclose_lem p true = (refl, refl, refl, ground arith)
pipeclose_lem p false = (refl, refl, refl, ground arith)
