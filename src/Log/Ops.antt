-- ===== src/Log/Ops.antt =====
-- `begin_op`, `end_op`, `log_write` and `initlog` (log.c): reservations of log space. A call that
-- sleeps is the result `asleep`, and is made again when it wakes; `end_op` is its two critical
-- sections, with the call of `commit` between them.
use xv6_public_os_project.Log.Device.{Store}
use xv6_public_os_project.Log.Header.{max_op_blocks, log_size}
use xv6_public_os_project.Log.Commit.{commit, recover_from_log}
use xv6_public_os_project.Base.{
  ℕ, Bool, true, false, not, ◌||◌, List, [], ◌∷◌, ◌++◌, ◌==◌, if◌then◌else◌, int_lt, add32, sub32,
  mul32, length, contains,
}

-- struct log; `size` and `outstanding` are int patterns, and `lh` is the list of the first `n` numbers of `lh.block`.
pub record Log : Type 0 where
  pub start : ℕ
  pub size : ℕ
  pub outstanding : ℕ
  pub committing : Bool
  pub lh : List ℕ

pub data Begun : Type 0 where
  asleep : Begun
  begun : Log → Begun

-- One round of the loop of `begin_op`.
unfoldable pub begin_op : Log → Begun
begin_op l =
    if l.committing
    then asleep
    else if int_lt log_size (add32 (length l.lh) (mul32 (add32 l.outstanding 1) max_op_blocks))
    then asleep
    else begun (record l { outstanding = add32 l.outstanding 1 })

pub data Result (A : Type 0) : Type 0 where
  panic : Result A
  ok : A → Result A

-- The first critical section of `end_op`: the new state, and whether to commit. (Else it wakes
-- the sleepers of `begin_op`.)
unfoldable pub end_op : Log → Result (Log × Bool)
end_op l =
    if l.committing
    then panic
    else if sub32 l.outstanding 1 == 0
    then ok (record l { outstanding = sub32 l.outstanding 1; committing = true }, true)
    else ok (record l { outstanding = sub32 l.outstanding 1 }, false)

-- `commit` and the second critical section: the header in memory is empty again.
unfoldable pub end_commit : Log → Store → Log × Store
end_commit l s = (record l { lh = []; committing = false }, commit l.start l.lh s)

-- Record the block, unless the transaction has it already (log absorption).
unfoldable pub log_write : ℕ → Log → Result Log
log_write b l =
    if not (int_lt (length l.lh) log_size) || not (int_lt (length l.lh) (sub32 l.size 1))
    then panic
    else if int_lt l.outstanding 1
    then panic
    else ok (if contains l.lh b then l else record l { lh = l.lh ++ b ∷ [] })

-- `initlog`, from the fields of the super block.
unfoldable pub initlog : ℕ → ℕ → Store → Log × Store
initlog logstart nlog s = (
  record { start = logstart; size = nlog; outstanding = 0; committing = false; lh = [] },
  recover_from_log logstart s,
)
