-- ===== src/Fs/Inode.antt =====
-- Inodes (fs.c): `bmap`, `itrunc`, `iupdate`, the reading of an inode in `ilock`, `readi`, `writei`.
use xv6_public_os_project.Fs.Disk.{
  Data, SuperBlock, Disk, put_block, word_at, put_word, half_at, put_half,
}
use xv6_public_os_project.Fs.Bitmap.{balloc}
use xv6_public_os_project.Base.{
  ℕ, zero, suc, ◌+◌, ◌-◌, ◌*◌, ◌/◌, ◌%◌, Bool, ◌||◌, ◌&&◌, not, Option, none, some, List, [], ◌∷◌,
  ◌++◌, ◌==◌, if◌then◌else◌, ltb, leb, update, add32, length, take, drop,
}
use Prim.Native.Nat.{min}

-- The fields of struct inode that describe the file; `kind` is its `type`. The file's first twelve
-- blocks are in `addrs`, the others in the block `addrs 12`.
pub record Inode : Type 0 where
  pub dev : ℕ
  pub inum : ℕ
  pub kind : ℕ
  pub major : ℕ
  pub minor : ℕ
  pub nlink : ℕ
  pub size : ℕ
  pub addrs : ℕ → ℕ

abbrev pub ndirect : ℕ
ndirect = 12

abbrev pub nindirect : ℕ
nindirect = 128

abbrev pub maxfile : ℕ
maxfile = ndirect + nindirect

abbrev pub t_dir : ℕ
t_dir = 1

abbrev pub t_dev : ℕ
t_dev = 3

abbrev pub ndev : ℕ
ndev = 10

-- IBLOCK(i, sb), and where the inode lies in it.
abbrev pub iblock : SuperBlock → ℕ → ℕ
iblock sb i = i / 8 + sb.inodestart

abbrev pub dinode_at : ℕ → ℕ
dinode_at i = i % 8 * 64

-- The copy of `addrs` to the disk, of the `n` entries from `i` on.
unfoldable pub put_addrs : ℕ → ℕ → ℕ → (ℕ → ℕ) → Data → Data
put_addrs zero i o addrs d = d
put_addrs (suc n) i o addrs d = put_addrs n (i + 1) o addrs (put_word (o + 12 + 4 * i) (addrs i) d)

-- struct dinode at offset `o`
unfoldable pub put_dinode : ℕ → Inode → Data → Data
put_dinode o ip d = put_addrs 13 0 o ip.addrs (
    put_word (o + 8) ip.size (
      put_half (o + 6) ip.nlink
        (put_half (o + 4) ip.minor (put_half (o + 2) ip.major (put_half o ip.kind d)))))

unfoldable pub iupdate : SuperBlock → Inode → Disk → Disk
iupdate sb ip s =
    let b = iblock sb ip.inum in put_block b (put_dinode (dinode_at ip.inum) ip (s.blocks b)) s

-- What `ilock` reads of inode `inum`.
unfoldable pub read_inode : SuperBlock → ℕ → ℕ → Disk → Inode
read_inode sb dev inum s =
    let d = s.blocks (iblock sb inum) in
    let o = dinode_at inum in
    record {
      dev = dev;
      inum = inum;
      kind = half_at d o;
      major = half_at d (o + 2);
      minor = half_at d (o + 4);
      nlink = half_at d (o + 6);
      size = word_at d (o + 8);
      addrs = λ i. word_at d (o + 12 + 4 * i);
    }

-- The address in `addrs k`, allocated if there is none. `none` is a panic, here and below.
unfoldable pub direct : SuperBlock → ℕ → Inode → Disk → Option (Inode × Disk × ℕ)
direct sb k ip s =
    if ip.addrs k == 0
    then elim (balloc sb s) [
      | none ↦ none
      | some (t, b) ↦ some (record ip { addrs = update ip.addrs k b }, t, b)
    ]
    else some (ip, s, ip.addrs k)

-- Entry `i` of the indirect block `ind`, allocated if there is none.
unfoldable pub indirect : SuperBlock → ℕ → ℕ → Disk → Option (Disk × ℕ)
indirect sb ind i s =
    if word_at (s.blocks ind) (4 * i) == 0
    then elim (balloc sb s) [
      | none ↦ none
      | some (t, b) ↦ some (put_block ind (put_word (4 * i) b (t.blocks ind)) t, b)
    ]
    else some (s, word_at (s.blocks ind) (4 * i))

abbrev pub with_inode : Inode → Option (Disk × ℕ) → Option (Inode × Disk × ℕ)
with_inode ip none = none
with_inode ip (some (s, a)) = some (ip, s, a)

unfoldable pub bmap : SuperBlock → Inode → ℕ → Disk → Option (Inode × Disk × ℕ)
bmap sb ip bn s =
    if ltb bn ndirect
    then direct sb bn ip s
    else if ltb (bn - ndirect) nindirect
    then elim (direct sb ndirect ip s) [
      | none ↦ none
      | some (ip', t, ind) ↦ with_inode ip' (indirect sb ind (bn - ndirect) t)
    ]
    else none

-- What a read or a write comes to: the result -1, a call of the device's function, a panic, or the
-- result with the inode and the disk after it.
pub data Io (A : Type 0) : Type 0 where
  failed : Io A
  to_device : ℕ → Io A
  panic : Io A
  done : A → Inode → Disk → Io A

unfoldable pub get_bytes : ℕ → ℕ → Data → List ℕ
get_bytes zero o d = []
get_bytes (suc m) o d = d o ∷ get_bytes m (o + 1) d

unfoldable pub put_bytes : ℕ → List ℕ → Data → Data
put_bytes o [] d = d
put_bytes o (b ∷ bs) d = put_bytes (o + 1) bs (update d o b)

abbrev pub add_bytes : List ℕ → Io (List ℕ) → Io (List ℕ)
add_bytes bs failed = failed
add_bytes bs (to_device d) = to_device d
add_bytes bs panic = panic
add_bytes bs (done cs ip s) = done (bs ++ cs) ip s

-- The loop of `readi`, with `n` bytes to read at `off`. Each round reads a byte at least, so that
-- `n` rounds are enough.
unfoldable pub readi_loop : ℕ → SuperBlock → Inode → ℕ → ℕ → Disk → Io (List ℕ)
readi_loop zero sb ip off n s = done [] ip s
readi_loop (suc fuel) sb ip off n s =
    if n == 0 then done [] ip s else elim (bmap sb ip (off / 512) s) [
      | none ↦ panic
      | some (ip', t, a) ↦
          let m = min n (512 - off % 512) in
          add_bytes (get_bytes m (off % 512) (t.blocks a))
            (readi_loop fuel sb ip' (off + m) (n - m) t)
    ]

-- The guard of `readi` and `writei` for a device.
abbrev pub no_device : (ℕ → Bool) → ℕ → Bool
no_device has major = leb ndev major || not (has major)

unfoldable pub readi : (ℕ → Bool) → SuperBlock → Inode → ℕ → ℕ → Disk → Io (List ℕ)
readi has_read sb ip off n s =
    if ip.kind == t_dev
    then if no_device has_read ip.major then failed else to_device ip.major
    else if ltb ip.size off || ltb (add32 off n) off
    then failed
    else let m = if ltb ip.size (add32 off n) then ip.size - off else n in
      readi_loop m sb ip off m s

-- The loop of `writei`, with the bytes `src` to write at `off`.
unfoldable pub writei_loop : ℕ → SuperBlock → Inode → ℕ → List ℕ → Disk → Option (Inode × Disk)
writei_loop zero sb ip off src s = some (ip, s)
writei_loop (suc fuel) sb ip off src s =
    if length src == 0 then some (ip, s) else elim (bmap sb ip (off / 512) s) [
      | none ↦ none
      | some (ip', t, a) ↦
          let m = min (length src) (512 - off % 512) in
          writei_loop fuel sb ip' (off + m) (drop m src)
            (put_block a (put_bytes (off % 512) (take m src) (t.blocks a)) t)
    ]

-- The end of `writei`, with the offset behind the last byte.
abbrev pub grown : SuperBlock → ℕ → ℕ → Option (Inode × Disk) → Io ℕ
grown sb n off none = panic
grown sb n off (some (ip, s)) =
    if ltb 0 n && ltb ip.size off
    then done n (record ip { size = off }) (iupdate sb (record ip { size = off }) s)
    else done n ip s

unfoldable pub writei : (ℕ → Bool) → SuperBlock → Inode → List ℕ → ℕ → Disk → Io ℕ
writei has_write sb ip src off s =
    let n = length src in
    if ip.kind == t_dev
    then if no_device has_write ip.major then failed else to_device ip.major
    else if ltb ip.size off || ltb (add32 off n) off
    then failed
    else if ltb (maxfile * 512) (add32 off n)
    then failed
    else grown sb n (off + n) (writei_loop n sb ip off src s)
