-- ===== src/Fs/Bitmap.antt =====
-- `balloc` and `bfree` (fs.c) on the bitmap of the blocks in use.
use xv6_public_os_project.Fs.Disk.{Data, SuperBlock, Disk, bpb, put_block, bzero}
use xv6_public_os_project.Base.{
  ℕ, zero, suc, ◌+◌, ◌-◌, ◌/◌, ◌%◌, ◌^◌, Option, none, some, ◌==◌, if◌then◌else◌, ltb, update,
}

-- Bit `k` of a byte.
unfoldable pub bit : ℕ → ℕ → ℕ
bit b zero = b % 2
bit b (suc k) = bit (b / 2) k

-- `b | 1 << k` and `b & ~(1 << k)`
unfoldable pub set_bit : ℕ → ℕ → ℕ
set_bit b k = if bit b k == 0 then b + 2 ^ k else b

unfoldable pub clear_bit : ℕ → ℕ → ℕ
clear_bit b k = if bit b k == 0 then b else b - 2 ^ k

-- BBLOCK(b, sb)
abbrev pub bblock : SuperBlock → ℕ → ℕ
bblock sb b = b / bpb + sb.bmapstart

-- The inner loop of `balloc` over the bits of one block, with `n` bits left, from bit `bi` on.
unfoldable pub find_bit : ℕ → Data → ℕ → ℕ → ℕ → Option ℕ
find_bit size d b zero bi = none
find_bit size d b (suc n) bi =
    let rest = find_bit size d b n (bi + 1) in
    if ltb (b + bi) size then if bit (d (bi / 8)) (bi % 8) == 0 then some bi else rest else none

-- The outer loop, with `n` blocks of the bitmap left. The counter `b` is an int in the source, so this
-- is the code on disks of fewer than 2 ^ 31 blocks.
unfoldable pub find_block : SuperBlock → Disk → ℕ → ℕ → Option ℕ
find_block sb s zero b = none
find_block sb s (suc n) b =
    let rest = find_block sb s n (b + bpb) in
    if ltb b sb.size
    then elim (find_bit sb.size (s.blocks (bblock sb b)) b bpb 0) [
      | none ↦ rest
      | some bi ↦ some (b + bi)
    ]
    else none

abbrev pub mark : (ℕ → ℕ → ℕ) → SuperBlock → ℕ → Disk → Disk
mark f sb b s =
    let bi = b % bpb in
    let d = s.blocks (bblock sb b) in
    put_block (bblock sb b) (update d (bi / 8) (f (d (bi / 8)) (bi % 8))) s

-- `none` is the panic, here and below. The bitmap has no more blocks than this.
unfoldable pub balloc : SuperBlock → Disk → Option (Disk × ℕ)
balloc sb s = elim (find_block sb s (sb.size / bpb + 1) 0) [
  | none ↦ none
  | some b ↦ some (bzero b (mark set_bit sb b s), b)
]

unfoldable pub bfree : SuperBlock → ℕ → Disk → Option Disk
bfree sb b s =
    if bit (s.blocks (bblock sb b) (b % bpb / 8)) (b % bpb % 8) == 0
    then none
    else some (mark clear_bit sb b s)
