-- ===== src/Fs/Linking.antt =====
-- `dirlink` (fs.c).
use xv6_public_os_project.Strings.{strncpy}
use xv6_public_os_project.Fs.Disk.{SuperBlock, Disk, zeros}
use xv6_public_os_project.Fs.Inode.{
  Inode, Io, failed, to_device, panic, done, readi, writei, get_bytes,
}
use xv6_public_os_project.Fs.Cache.{Cache, LockResult, panics, sleeps, returns, iput}
use xv6_public_os_project.Fs.Directory.{
  both_names, dirent_inum, dirlookup_panics, not_found, found, dirlookup,
}
use xv6_public_os_project.Fs.Path.{dirsiz}
use xv6_public_os_project.Base.{
  ℕ, zero, suc, ◌+◌, ◌/◌, ◌%◌, Bool, Option, none, some, List, ◌∷◌, ◌==◌, if◌then◌else◌, ltb,
  length,
}

-- The test of the entry at `off`; `rest` is the rest of the loop. `none` is the panic.
abbrev pub test_free :
    ℕ → Io (List ℕ) → (Inode → Disk → Option (ℕ × Inode × Disk)) → Option (ℕ × Inode × Disk)
test_free off failed rest = none
test_free off (to_device d) rest = none
test_free off panic rest = none
test_free off (done de ip s) rest =
    let others = rest ip s in
    if length de == 16 then if dirent_inum de == 0 then some (off, ip, s) else others else none

-- The loop: the offset of the first entry that is not in use, or of the end.
unfoldable pub find_dirent :
    ℕ → (ℕ → Bool) → SuperBlock → ℕ → Inode → Disk → Option (ℕ × Inode × Disk)
find_dirent zero has sb off ip s = some (off, ip, s)
find_dirent (suc fuel) has sb off ip s =
    if ltb off ip.size
    then test_free off (readi has sb ip off 16 s) (find_dirent fuel has sb (off + 16))
    else some (off, ip, s)

-- The new entry; `strncpy` sets all the bytes of its name.
abbrev pub new_dirent : (ℕ → ℕ) → ℕ → List ℕ
new_dirent name inum =
    inum % 256 ∷ inum / 256 % 256 ∷ get_bytes 14 0 (strncpy dirsiz 0 14 (both_names zeros name))

-- What `dirlink` comes to: a panic, a sleep for the lock of the inode that has the name, the result -1,
-- or 0.
pub data Link : Type 0 where
  link_panics : Link
  link_sleeps : Link
  is_present : Cache → Disk → Link
  linked : Inode → Disk → Link

abbrev pub put_back : LockResult (Cache × Disk) → Link
put_back panics = link_panics
put_back sleeps = link_sleeps
put_back (returns (cs, s)) = is_present cs s

-- The test of what `writei` returns.
abbrev pub written_all : Io ℕ → Link
written_all failed = link_panics
written_all (to_device d) = link_panics
written_all panic = link_panics
written_all (done n ip s) = if n == 16 then linked ip s else link_panics

abbrev pub write_dirent : (ℕ → Bool) → SuperBlock → (ℕ → ℕ) → ℕ → Option (ℕ × Inode × Disk) → Link
write_dirent has_write sb name inum none = link_panics
write_dirent has_write sb name inum (some (off, ip, s)) =
    written_all (writei has_write sb ip (new_dirent name inum) off s)

unfoldable pub dirlink :
    (ℕ → Bool) → (ℕ → Bool) → SuperBlock → ℕ → (ℕ → ℕ) → ℕ → Inode → Disk → Cache → Link
dirlink has_read has_write sb me name inum dp s cs = elim (dirlookup has_read sb name dp s cs) [
  | dirlookup_panics ↦ link_panics
  | found i off ip t ds ↦ put_back (iput sb me i ds t)
  | not_found ip t ↦
      write_dirent has_write sb name inum (find_dirent (ip.size / 16 + 1) has_read sb 0 ip t)
]
