-- ===== src/Fs/Directory.antt =====
-- Directories (fs.c): `namecmp` and `dirlookup`. A name is a function from 0 to 13 to its bytes.
use xv6_public_os_project.Strings.{strncmp}
use xv6_public_os_project.Fs.Disk.{SuperBlock, Disk}
use xv6_public_os_project.Fs.Inode.{Inode, t_dir, Io, failed, to_device, panic, done, readi}
use xv6_public_os_project.Fs.Cache.{Cache, iget}
use xv6_public_os_project.Fs.Path.{dirsiz}
use xv6_public_os_project.Base.{
  ℕ, zero, suc, ◌+◌, ◌-◌, ◌*◌, ◌/◌, Bool, Option, none, some, List, ◌==◌, if◌then◌else◌, ltb,
  length, get_or,
}

-- Two names in memory, the second behind the first.
abbrev pub both_names : (ℕ → ℕ) → (ℕ → ℕ) → ℕ → ℕ
both_names s t a = if ltb a 14 then s a else if ltb a 28 then t (a - 14) else 0

abbrev pub namecmp : (ℕ → ℕ) → (ℕ → ℕ) → ℕ
namecmp s t = strncmp dirsiz 0 14 (both_names s t)

-- struct dirent, from the 16 bytes that `readi` returns
abbrev pub dirent_inum : List ℕ → ℕ
dirent_inum de = get_or de 0 0 + 256 * get_or de 1 0

abbrev pub dirent_name : List ℕ → ℕ → ℕ
dirent_name de i = get_or de (2 + i) 0

-- What the loop of `dirlookup` comes to: a panic, no entry, or an entry's inode and offset.
pub data DirSearch : Type 0 where
  lookup_panics : DirSearch
  absent : Inode → Disk → DirSearch
  entry : ℕ → ℕ → Inode → Disk → DirSearch

-- The test of the entry at `off`; `rest` is the rest of the loop. No directory is a device.
abbrev pub look_at : (ℕ → ℕ) → ℕ → Io (List ℕ) → (Inode → Disk → DirSearch) → DirSearch
look_at name off failed rest = lookup_panics
look_at name off (to_device d) rest = lookup_panics
look_at name off panic rest = lookup_panics
look_at name off (done de ip s) rest =
    let others = rest ip s in
    if length de == 16
    then if dirent_inum de == 0
      then others
      else if namecmp name (dirent_name de) == 0
      then entry (dirent_inum de) off ip s
      else others
    else lookup_panics

-- Each round goes on by the 16 bytes of an entry.
unfoldable pub dirlookup_loop : ℕ → (ℕ → Bool) → SuperBlock → (ℕ → ℕ) → ℕ → Inode → Disk → DirSearch
dirlookup_loop zero has sb name off ip s = absent ip s
dirlookup_loop (suc fuel) has sb name off ip s =
    if ltb off ip.size
    then look_at name off (readi has sb ip off 16 s) (dirlookup_loop fuel has sb name (off + 16))
    else absent ip s

-- `dirlookup` of a name in `dp`: the inode's index in the cache and the offset of the entry.
pub data Lookup : Type 0 where
  dirlookup_panics : Lookup
  not_found : Inode → Disk → Lookup
  found : ℕ → ℕ → Inode → Disk → Cache → Lookup

abbrev pub got : ℕ → Inode → Disk → Option (Cache × ℕ) → Lookup
got off ip s none = dirlookup_panics
got off ip s (some (cs, i)) = found i off ip s cs

unfoldable pub dirlookup : (ℕ → Bool) → SuperBlock → (ℕ → ℕ) → Inode → Disk → Cache → Lookup
dirlookup has sb name dp s cs =
    if dp.kind == t_dir
    then elim (dirlookup_loop (dp.size / 16 + 1) has sb name 0 dp s) [
      | lookup_panics ↦ dirlookup_panics
      | absent ip t ↦ not_found ip t
      | entry inum off ip t ↦ got off ip t (iget dp.dev inum cs)
    ]
    else dirlookup_panics
