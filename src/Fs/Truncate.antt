-- ===== src/Fs/Truncate.antt =====
-- `itrunc` (fs.c).
use xv6_public_os_project.Fs.Disk.{SuperBlock, Disk, word_at}
use xv6_public_os_project.Fs.Bitmap.{bfree}
use xv6_public_os_project.Fs.Inode.{Inode, ndirect, nindirect, iupdate}
use xv6_public_os_project.Base.{
  ℕ, zero, suc, ◌+◌, ◌*◌, Option, none, some, ◌==◌, if◌then◌else◌, update,
}

-- The first loop, over the `n` entries of `addrs` from `i` on. `none` is the panic of `bfree`.
unfoldable pub free_addrs : ℕ → ℕ → SuperBlock → Inode → Disk → Option (Inode × Disk)
free_addrs zero i sb ip s = some (ip, s)
free_addrs (suc n) i sb ip s =
    let rest = free_addrs n (i + 1) sb ip s in
    if ip.addrs i == 0 then rest else elim (bfree sb (ip.addrs i) s) [
      | none ↦ none
      | some t ↦ free_addrs n (i + 1) sb (record ip { addrs = update ip.addrs i 0 }) t
    ]

-- The second loop, over the `n` entries of the indirect block `ind` from `j` on.
unfoldable pub free_entries : ℕ → ℕ → SuperBlock → ℕ → Disk → Option Disk
free_entries zero j sb ind s = some s
free_entries (suc n) j sb ind s =
    let rest = free_entries n (j + 1) sb ind s in
    if word_at (s.blocks ind) (4 * j) == 0
    then rest
    else elim (bfree sb (word_at (s.blocks ind) (4 * j)) s) [
      | none ↦ none
      | some t ↦ free_entries n (j + 1) sb ind t
    ]

abbrev pub then_bfree : SuperBlock → ℕ → Option Disk → Option Disk
then_bfree sb b none = none
then_bfree sb b (some s) = bfree sb b s

-- The end of `itrunc`, with the disk after the loops.
abbrev pub emptied : SuperBlock → Inode → Option Disk → Option (Inode × Disk)
emptied sb ip none = none
emptied sb ip (some s) = some (record ip { size = 0 }, iupdate sb (record ip { size = 0 }) s)

unfoldable pub itrunc : SuperBlock → Inode → Disk → Option (Inode × Disk)
itrunc sb ip s = elim (free_addrs ndirect 0 sb ip s) [
  | none ↦ none
  | some (jp, t) ↦
      let ind = jp.addrs ndirect in
      if ind == 0
      then emptied sb jp (some t)
      else emptied sb (record jp { addrs = update jp.addrs ndirect 0 })
          (then_bfree sb ind (free_entries nindirect 0 sb ind t))
]
