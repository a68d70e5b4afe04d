-- ===== src/Syscall/Calls.antt =====
-- `sys_kill`, `sys_getpid`, `sys_sbrk` and `sys_uptime` (sysproc.c), with the result as an int
-- pattern.
use xv6_public_os_project.Proc.Types.{proc_at, Kernel, Services}
use xv6_public_os_project.Proc.Sleep.{kill}
use xv6_public_os_project.Proc.Create.{growproc}
use xv6_public_os_project.Base.{ℕ, Option, none, some, if◌then◌else◌, int_lt, minus_one}

module _ {S : Type 0} where
  unfoldable pub sys_kill : Option ℕ → Kernel S → Kernel S × ℕ
  sys_kill none k = (k, minus_one)
  sys_kill (some pid) k = let (ps, r) = kill pid k.procs in (record k { procs = ps }, r)

  unfoldable pub sys_getpid : ℕ → Kernel S → ℕ
  sys_getpid me k = (proc_at k.procs me).pid

  unfoldable pub sys_sbrk : Services S → ℕ → Option ℕ → Kernel S → Kernel S × ℕ
  sys_sbrk sv me none k = (k, minus_one)
  sys_sbrk sv me (some n) k =
      let (k', r) = growproc sv me n k in
      if int_lt r 0 then (k', minus_one) else (k', (proc_at k.procs me).sz)

  unfoldable pub sys_uptime : Kernel S → ℕ
  sys_uptime k = k.now
