-- ===== src/Fs/Cache.antt =====
-- The inode cache (fs.c): `iget`, `idup`, `ilock`, `iunlock`, `iput`, `iunlockput` and `ialloc`, with the
-- sleep lock of each inode (sleeplock.c). A pointer to an inode is its index in `icache.inode`. A
-- reference count is an int pattern.
use xv6_public_os_project.Fs.Disk.{Data, SuperBlock, Disk, put_block, half_at, put_half}
use xv6_public_os_project.Fs.Inode.{Inode, iblock, dinode_at, iupdate, read_inode}
use xv6_public_os_project.Fs.Truncate.{itrunc}
use xv6_public_os_project.Base.{
  ℕ, zero, suc, ◌+◌, ◌-◌, Bool, true, false, ◌&&◌, Option, none, some, ◌==◌, if◌then◌else◌, ltb,
  int_lt, add32, sub32, leb, update, not,
}

-- struct inode. `holder` is the process that has the sleep lock (`locked` and `pid`).
pub record Cached : Type 0 where
  pub ref : ℕ
  pub holder : Option ℕ
  pub valid : Bool
  pub inode : Inode

abbrev pub Cache : Type 0
Cache = ℕ → Cached

abbrev pub ninode : ℕ
ninode = 50

-- What a call comes to: a panic, a process that sleeps for a lock, or the result.
pub data LockResult {ℓ} (A : Type ℓ) : Type ℓ where
  panics : LockResult A
  sleeps : LockResult A
  returns : A → LockResult A

-- The loop of `iget`, over the `n` entries from `i` on: the entry that has the inode, and the first
-- that is free.
unfoldable pub find_cached : ℕ → ℕ → ℕ → ℕ → Cache → Option ℕ
find_cached zero i dev inum cs = none
find_cached (suc n) i dev inum cs =
    let rest = find_cached n (i + 1) dev inum cs in
    if int_lt 0 (cs i).ref && (cs i).inode.dev == dev && (cs i).inode.inum == inum
    then some i
    else rest

unfoldable pub find_empty : ℕ → ℕ → Cache → Option ℕ
find_empty zero i cs = none
find_empty (suc n) i cs =
    let rest = find_empty n (i + 1) cs in if (cs i).ref == 0 then some i else rest

-- `none` is the panic.
unfoldable pub iget : ℕ → ℕ → Cache → Option (Cache × ℕ)
iget dev inum cs = elim (find_cached ninode 0 dev inum cs) [
  | some i ↦ some (update cs i (record (cs i) { ref = add32 (cs i).ref 1 }), i)
  | none ↦ elim (find_empty ninode 0 cs) [
    | none ↦ none
    | some i ↦ some (
      update cs i (record (cs i) {
        ref = 1;
        valid = false;
        inode = record (cs i).inode { dev = dev; inum = inum };
      }),
      i,
    )
  ]
]

unfoldable pub idup : ℕ → Cache → Cache
idup i cs = update cs i (record (cs i) { ref = add32 (cs i).ref 1 })

unfoldable pub acquiresleep : ℕ → ℕ → Cache → LockResult Cache
acquiresleep me i cs = elim (cs i).holder [
  | some p ↦ sleeps
  | none ↦ returns (update cs i (record (cs i) { holder = some me }))
]

unfoldable pub releasesleep : ℕ → Cache → Cache
releasesleep i cs = update cs i (record (cs i) { holder = none })

unfoldable pub holdingsleep : ℕ → ℕ → Cache → Bool
holdingsleep me i cs = elim (cs i).holder [ none ↦ false | some p ↦ p == me ]

-- The part of `ilock` behind the lock.
abbrev pub load : SuperBlock → ℕ → Disk → Cache → LockResult Cache
load sb i s cs =
    let e = cs i in
    let ip = read_inode sb e.inode.dev e.inode.inum s in
    if e.valid
    then returns cs
    else if ip.kind == 0
    then panics
    else returns (update cs i (record e { valid = true; inode = ip }))

abbrev pub and_load : SuperBlock → ℕ → Disk → LockResult Cache → LockResult Cache
and_load sb i s panics = panics
and_load sb i s sleeps = sleeps
and_load sb i s (returns cs) = load sb i s cs

unfoldable pub ilock : SuperBlock → ℕ → ℕ → Disk → Cache → LockResult Cache
ilock sb me i s cs = if int_lt (cs i).ref 1 then panics else and_load sb i s (acquiresleep me i cs)

-- `none` is the panic.
unfoldable pub iunlock : ℕ → ℕ → Cache → Option Cache
iunlock me i cs =
    if not (holdingsleep me i cs)
    then none
    else if int_lt (cs i).ref 1
    then none
    else some (releasesleep i cs)

-- The end of `iput`: the lock and the reference are given up.
abbrev pub unlock_put : ℕ → Cache × Disk → Cache × Disk
unlock_put i (cs, s) =
    let ds = releasesleep i cs in (update ds i (record (ds i) { ref = sub32 (ds i).ref 1 }), s)

-- The body of `iput` under the lock: a file with no link and no other reference is freed.
unfoldable pub free_unlinked : SuperBlock → ℕ → Cache → Disk → Option (Cache × Disk)
free_unlinked sb i cs s =
    let e = cs i in
    if e.valid && e.inode.nlink == 0 && e.ref == 1
    then elim (itrunc sb e.inode s) [
      | none ↦ none
      | some (ip, t) ↦
          let jp = record ip { kind = 0 } in
          some (update cs i (record e { valid = false; inode = jp }), iupdate sb jp t)
    ]
    else some (cs, s)

abbrev pub and_put : ℕ → Option (Cache × Disk) → LockResult (Cache × Disk)
and_put i none = panics
and_put i (some w) = returns (unlock_put i w)

unfoldable pub iput : SuperBlock → ℕ → ℕ → Cache → Disk → LockResult (Cache × Disk)
iput sb me i cs s = elim (acquiresleep me i cs) [
  | panics ↦ panics
  | sleeps ↦ sleeps
  | returns ds ↦ and_put i (free_unlinked sb i ds s)
]

unfoldable pub iunlockput : SuperBlock → ℕ → ℕ → Cache → Disk → LockResult (Cache × Disk)
iunlockput sb me i cs s = elim (iunlock me i cs) [ none ↦ panics | some ds ↦ iput sb me i ds s ]

-- The 64 bytes of a struct dinode made 0.
unfoldable pub zero_dinode : ℕ → Data → Data
zero_dinode o d a = if leb o a && ltb a (o + 64) then 0 else d a

-- The loop of `ialloc`, over the `n` inodes from `inum` on: the first that is free.
unfoldable pub find_free_inode : ℕ → ℕ → SuperBlock → Disk → Option ℕ
find_free_inode zero inum sb s = none
find_free_inode (suc n) inum sb s =
    let rest = find_free_inode n (inum + 1) sb s in
    if half_at (s.blocks (iblock sb inum)) (dinode_at inum) == 0 then some inum else rest

abbrev pub with_disk : Disk → Option (Cache × ℕ) → Option (Cache × Disk × ℕ)
with_disk s none = none
with_disk s (some (cs, i)) = some (cs, s, i)

-- `ialloc`; `none` is a panic.
unfoldable pub ialloc : SuperBlock → ℕ → ℕ → Cache → Disk → Option (Cache × Disk × ℕ)
ialloc sb dev kind cs s = elim (find_free_inode (sb.ninodes - 1) 1 sb s) [
  | none ↦ none
  | some inum ↦
      let b = iblock sb inum in
      let o = dinode_at inum in
      with_disk (put_block b (put_half o kind (zero_dinode o (s.blocks b))) s) (iget dev inum cs)
]
