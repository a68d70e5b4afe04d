-- ===== src/Log/Tests.antt =====
-- The log on a small disk: a log at block 2, and a transaction of blocks 50 and 51.
use xv6_public_os_project.Log.Device.{Block, Store}
use xv6_public_os_project.Log.Header.{decode, encode}
use xv6_public_os_project.Log.Commit.{
  commit, write_log, write_head, install_trans, read_head, recover_from_log,
}
use xv6_public_os_project.Log.Installing.{IsHome}
use xv6_public_os_project.Log.Atomic.{
  Ready, with_transaction, commit_durable, commit_atomic, restarted,
}
use xv6_public_os_project.Log.Ops.{Log, begin_op, log_write, end_op, initlog, ok}
use xv6_public_os_project.Log.Running.{running, begins, Reach, here, next, booted}
use xv6_public_os_project.Log.Reservation.{log_write_safe, end_op_safe, Accepts, Waits}
use xv6_public_os_project.Base.{
  ℕ, ◌≡◌, ◌⊎◌, refl, [], ◌∷◌, replicate, ◌==◌, if◌then◌else◌, arith, inr, true, false,
}

abbrev blank : Block
blank = replicate 128 0

abbrev store : Store
store = record {
  disk = λ b. blank;
  cache = λ b. if b == 50 then 7 ∷ [] else if b == 51 then 8 ∷ [] else blank;
  power = 4;
}

store-Ready : Ready 2 31 (50 ∷ 51 ∷ []) store
unfolding decode
store-Ready = record {
  empty = refl;
  disk_width = refl;
  cache_width = refl;
  some_block = omega arith;
  short = omega arith;
  fits = omega arith;
  homes = (inr (omega arith), (inr (omega arith), tt));
}

-- The machine stops behind the header and the first block's installation; recovery goes on.
recovered : restarted 2 (1 ∷ 0 ∷ []) 40 (commit 2 (50 ∷ 51 ∷ []) store).disk 51 ≡ 8 ∷ []
unfolding commit write_log write_head install_trans recover_from_log read_head decode encode
recovered = refl

commit_atomic_example :
    ((b : ℕ)
      → IsHome 2 31 b
      → restarted 2 (1 ∷ 0 ∷ []) 40 (commit 2 (50 ∷ 51 ∷ []) store).disk b ≡ store.disk b)
    ⊎ ((b : ℕ)
        → IsHome 2 31 b
        → restarted 2 (1 ∷ 0 ∷ []) 40 (commit 2 (50 ∷ 51 ∷ []) store).disk b
          ≡ with_transaction (50 ∷ 51 ∷ []) store b)
commit_atomic_example =
    commit_atomic 2 31 (50 ∷ 51 ∷ []) store (1 ∷ 0 ∷ []) 40 store-Ready (omega arith)

abbrev powered : Store
powered = record store { power = 9 }

powered-Ready : Ready 2 31 (50 ∷ 51 ∷ []) powered
unfolding decode
powered-Ready = record {
  empty = refl;
  disk_width = refl;
  cache_width = refl;
  some_block = omega arith;
  short = omega arith;
  fits = omega arith;
  homes = (inr (omega arith), (inr (omega arith), tt));
}

commit_durable_example : (commit 2 (50 ∷ 51 ∷ []) powered).disk 50 ≡ 7 ∷ []
commit_durable_example =
    commit_durable 2 31 (50 ∷ 51 ∷ []) powered powered-Ready (omega arith) 50 (inr (omega arith))

abbrev one_call : Log
one_call = record { start = 2; size = 30; outstanding = 1; committing = false; lh = [] }

one_call-Reach : Reach (booted 2 30 store) (running one_call (10 ∷ []))
unfolding begin_op initlog
one_call-Reach = next here (begins one_call refl)

log_write_safe_example : Accepts 30 50 one_call (log_write 50 one_call)
log_write_safe_example =
    log_write_safe 2 30 store (running one_call (10 ∷ [])) [] [] 9 50 (omega arith) one_call-Reach
      refl

end_op_safe_example : (l : Log) × (end_op one_call ≡ ok (l, true)) × Waits l true
end_op_safe_example =
    end_op_safe 2 30 store (running one_call (10 ∷ [])) [] [] 10 (omega arith) one_call-Reach refl
