-- ===== src/Log/Reservation.antt =====
-- The reservations of `begin_op` (log.c) in use: what `log_write` and `end_op` do for a running call.
use xv6_public_os_project.Log.Running.{
  sum, sum-append, Running, Reach, Inv, Reach-Inv, booted, booted-Inv, booted-size,
}
use xv6_public_os_project.Log.Device.{Store}
use xv6_public_os_project.Log.Header.{log_size}
use xv6_public_os_project.Log.Ops.{Log, asleep, begin_op, Result, panic, ok, end_op, log_write}
use xv6_public_os_project.Base.{
  ℕ, suc, ◌+◌, ◌≤◌, ◌<◌, ◌≡◌, refl, ap, Bool, true, false, ◌||◌, List, [], ◌∷◌, ◌++◌, length,
  length-append, contains, arith, if◌then◌else◌, ◌==◌, Bool-cases, ==_refl, inl, inr, sub32,
  half_word, ltb, subst,
}

-- What `log_write` does for a running call that has not used up its MAXOPBLOCKS blocks: it panics
-- where the header lists as many numbers as the log on the disk has blocks behind its header.
abbrev pub Accepts : ℕ → ℕ → Log → Result Log → Type 0
Accepts size b l panic = (size ≤ log_size) × (size ≤ length l.lh + 1)
Accepts size b l (ok l') =
    (length l.lh + 1 < size)
    × (contains l'.lh b ≡ true)
    × (length l'.lh ≤ log_size)
    × ((p : ℕ) → contains l.lh p ≡ true → contains l'.lh p ≡ true)

contains-append :
    (xs : List ℕ) (b p : ℕ) → contains (xs ++ (b ∷ [])) p ≡ (contains xs p || (b == p))
contains-append [] b p = ground arith
contains-append (x ∷ xs) b p = ground (arith, contains-append xs b p)

abbrev listing : ℕ → Log → Log
listing b l = if contains l.lh b then l else record l { lh = l.lh ++ b ∷ [] }

log_write-short :
    (s : Running) (b : ℕ)
    → Inv s
    → length s.log.lh < log_size
    → s.log.size ≤ length s.log.lh + 1
    → log_write b s.log ≡ panic
unfolding log_write
log_write-short s b v few short = ground (arith, v.positive)

log_write-listing :
    (s : Running) (before after : List ℕ) (k b : ℕ)
    → Inv s
    → s.calls ≡ before ++ (suc k ∷ after)
    → length s.log.lh + 1 < s.log.size
    → log_write b s.log ≡ ok (listing b s.log)
unfolding log_write
log_write-listing s before after k b v split room =
    ground
      (arith, v.positive, length-append before (suc k ∷ after), sum-append before (suc k ∷ after))

listed-lt :
    (s : Running) (before after : List ℕ) (k : ℕ)
    → Inv s
    → s.calls ≡ before ++ (suc k ∷ after)
    → length s.log.lh < log_size
listed-lt s before after k v split =
    omega (arith, v.enough, ap sum split, sum-append before (suc k ∷ after))

listing-Accepts :
    (b : ℕ) (l : Log)
    → length l.lh < log_size
    → length l.lh + 1 < l.size
    → Accepts l.size b l (ok (listing b l))
listing-Accepts b l h room = elim (Bool-cases (contains l.lh b)) [
  | inl e ↦ rw e (room, e, omega arith, λ p q. q)
  | inr e ↦ rw e (
    room,
    ground (arith, contains-append l.lh b b, ==_refl b),
    omega (arith, length-append l.lh (b ∷ [])),
    λ p q. ground (arith, contains-append l.lh b p),
  )
]

log_write-Accepts :
    (s : Running) (before after : List ℕ) (k b : ℕ)
    → Inv s
    → s.calls ≡ before ++ (suc k ∷ after)
    → Accepts s.log.size b s.log (log_write b s.log)
log_write-Accepts s before after k b v split =
    let few = listed-lt s before after k v split in
    elim (Bool-cases (ltb (length s.log.lh + 1) s.log.size)) [
      | inl e ↦
          let room : length s.log.lh + 1 < s.log.size = ground arith in
          rw (log_write-listing s before after k b v split room) (listing-Accepts b s.log few room)
      | inr e ↦
          let short : s.log.size ≤ length s.log.lh + 1 = ground arith in
          rw (log_write-short s b v few short) (omega arith, short)
    ]

-- Start from `initlog` on a disk whose log has fewer than 2 ^ 31 blocks, its header among them, and let
-- calls that write at most MAXOPBLOCKS blocks each begin, write, end and commit in any order:
-- `log_write` of a call that has a block left panics exactly if the header lists as many numbers
-- already as the log has blocks behind its own header, which is never so if the log has more than
-- LOGSIZE blocks. Else it lists the block in a header of at most LOGSIZE numbers, in which every
-- number listed before is still listed.
pub log_write_safe :
    (start size : ℕ) (t : Store) (s : Running) (before after : List ℕ) (k b : ℕ)
    → size < half_word
    → Reach (booted start size t) s
    → s.calls ≡ before ++ (suc k ∷ after)
    → Accepts size b s.log (log_write b s.log)
log_write_safe start size t s before after k b h r split =
    subst (λ (n : ℕ). Accepts n b s.log (log_write b s.log)) (booted-size start size t s r)
      (log_write-Accepts s before after k b (Reach-Inv (booted-Inv start size t h) r) split)

abbrev pub none_left : List ℕ → Bool
none_left [] = true
none_left (x ∷ xs) = false

abbrev ended : Log → Bool → Log
ended l last = record l { outstanding = sub32 l.outstanding 1; committing = last }

end_op-ended :
    (s : Running) (rest : List ℕ)
    → Inv s
    → length s.calls ≡ suc (length rest)
    → end_op s.log ≡ ok (ended s.log (none_left rest), none_left rest)
unfolding end_op
end_op-ended s [] v e = ground (arith, v.alone)
end_op-ended s (x ∷ rest) v e = ground (arith, v.alone)

-- After the last call a commit is asked for, and no call begins.
abbrev pub Waits : Log → Bool → Type 0
Waits l true = begin_op l ≡ asleep
Waits l false = l.committing ≡ false

ended-Waits : (l : Log) (last : Bool) → Waits (ended l last) last
unfolding begin_op
ended-Waits l true = refl
ended-Waits l false = refl

-- In the same runs `end_op` of a running call never panics. If another call is running it asks for no
-- commit and none is under way; if no other is, it asks for a commit, and a call that begins before
-- the end of the commit sleeps.
pub end_op_safe :
    (start size : ℕ) (t : Store) (s : Running) (before after : List ℕ) (k : ℕ)
    → size < half_word
    → Reach (booted start size t) s
    → s.calls ≡ before ++ (k ∷ after)
    → (l : Log) × (end_op s.log ≡ ok (l, none_left (before ++ after)))
      × Waits l (none_left (before ++ after))
end_op_safe start size t s before after k h r split = (
  ended s.log (none_left (before ++ after)),
  end_op-ended s (before ++ after) (Reach-Inv (booted-Inv start size t h) r) (
      omega (
        arith,
        ap (λ (c : List ℕ). length c) split,
        length-append before (k ∷ after),
        length-append before after,
      )),
  ended-Waits s.log (none_left (before ++ after)),
)
