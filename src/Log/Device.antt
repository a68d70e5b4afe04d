-- ===== src/Log/Device.antt =====
-- The disk under the buffer cache, as log.c sees it: `cache` is the content that `bread` returns
-- for each block, `disk` is what survives a crash. The machine stops after `power` more writes:
-- from then on nothing reaches the disk, so each value of `power` is one place of the crash.
use xv6_public_os_project.Base.{ℕ, ◌-◌, List, ◌==◌, if◌then◌else◌, update}

-- The 128 words of a block.
abbrev pub Block : Type 0
Block = List ℕ

pub record Store : Type 0 where
  pub disk : ℕ → Block
  pub cache : ℕ → Block
  pub power : ℕ

-- A change of the data of a buffer that the caller holds.
abbrev pub modify : ℕ → Block → Store → Store
modify b content s = record s { cache = update s.cache b content }

-- `bwrite` (bio.c): the buffer's data goes to its block on the disk.
abbrev pub bwrite : ℕ → Store → Store
bwrite b s =
    if s.power == 0 then s else record s { disk = update s.disk b (s.cache b); power = s.power - 1 }

-- The machine starts again: the buffers are empty, so `bread` returns what is on the disk.
abbrev pub reboot : ℕ → Store → Store
reboot power s = record { disk = s.disk; cache = s.disk; power = power }
