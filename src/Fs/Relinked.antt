-- ===== src/Fs/Relinked.antt =====
-- `dirlink` and then `dirlookup` (fs.c).
use xv6_public_os_project.Fs.Disk.{SuperBlock, Disk}
use xv6_public_os_project.Fs.Inode.{Inode, t_dir, Io, failed, to_device, panic, done, writei}
use xv6_public_os_project.Fs.Content.{content}
use xv6_public_os_project.Fs.Writing.{IsFile, Writes, writei-Writes}
use xv6_public_os_project.Fs.Cache.{Cache, LockResult, panics, sleeps, returns, iget, iput}
use xv6_public_os_project.Fs.Directory.{Lookup, dirlookup_panics, not_found, found, dirlookup}
use xv6_public_os_project.Fs.Entries.{
  inum_at, name_at, IsNamed, LooksUp, dirlookup-LooksUp, namecmp-ext,
}
use xv6_public_os_project.Fs.Linking.{
  find_dirent, new_dirent, Link, link_panics, link_sleeps, is_present, linked, put_back,
  written_all, write_dirent, dirlink,
}
use xv6_public_os_project.Fs.Linked.{
  FindsFree, find_dirent-FindsFree, IsLinked, Writes-IsLinked, length-new_dirent,
}
use xv6_public_os_project.Base.{
  ℕ, ◌+◌, ◌*◌, ◌/◌, ◌%◌, ◌≤◌, ◌<◌, ◌≡◌, ◌≢◌, ap, sym, ◌∙◌, subst, Bool, Option, none, some, ◌==◌,
  ==_iff, arith, Bool-cases, inl, inr,
}

-- What `dirlink` promises where it returns 0: the name was not there, and now entry `l` has it.
abbrev Links : SuperBlock → (ℕ → ℕ) → ℕ → Inode → Disk → Link → Type 0
Links sb name inum ip s link_panics = Unit
Links sb name inum ip s link_sleeps = Unit
Links sb name inum ip s (is_present cs t) = Unit
Links sb name inum ip s (linked jp t) =
    ((j : ℕ) → 16 * j < ip.size → ¬ IsNamed (content ip s) name j)
    × ((l : ℕ) × IsLinked sb name inum ip s jp t l)

put_back-Links :
    (sb : SuperBlock) (name : ℕ → ℕ) (inum : ℕ) (ip : Inode) (s : Disk)
    (r : LockResult (Cache × Disk))
    → Links sb name inum ip s (put_back r)
put_back-Links sb name inum ip s panics = tt
put_back-Links sb name inum ip s sleeps = tt
put_back-Links sb name inum ip s (returns (cs, t)) = tt

write_dirent-Links :
    (has : ℕ → Bool) (sb : SuperBlock) (name : ℕ → ℕ) (inum : ℕ) (ip : Inode) (s : Disk)
    (o : Option (ℕ × Inode × Disk))
    → IsFile sb ip s
    → inum < 65536
    → ((j : ℕ) → 16 * j < ip.size → ¬ IsNamed (content ip s) name j)
    → FindsFree ip s o
    → Links sb name inum ip s (write_dirent has sb name inum o)
write_dirent-Links has sb name inum ip s none file small new f = absurd f
write_dirent-Links has sb name inum ip s (some (off, jp, t)) file small new
      (a, b, (l, at, le, free)) =
    rw (a, b, at)
      (go (writei has sb ip (new_dirent name inum) (16 * l) s) (
        writei-Writes has sb ip (new_dirent name inum) (16 * l) s file
          (omega (arith, length-new_dirent name inum))))
  where
    go :
        (o : Io ℕ)
        → Writes has sb ip (new_dirent name inum) (16 * l) s o
        → Links sb name inum ip s (written_all o)
    go failed w = tt
    go (to_device d) w = tt
    go panic w = tt
    go (done n kp u) w = elim (Bool-cases (n == 16)) [
      | inl e ↦ rw e (new, (l, Writes-IsLinked has sb name inum ip kp s u l n small le free w))
      | inr e ↦ rw e tt
    ]

dirlink-Links :
    (has_read has_write : ℕ → Bool) (sb : SuperBlock) (me : ℕ) (name : ℕ → ℕ) (inum : ℕ)
    (dp : Inode) (s : Disk) (cs : Cache)
    → IsFile sb dp s
    → dp.kind ≡ t_dir
    → dp.size % 16 ≡ 0
    → inum < 65536
    → Links sb name inum dp s (dirlink has_read has_write sb me name inum dp s cs)
unfolding dirlink
dirlink-Links has_read has_write sb me name inum dp s cs file dir whole small =
    go (dirlookup has_read sb name dp s cs)
      (dirlookup-LooksUp has_read sb name dp s cs file dir whole)
  where
    go :
        (o : Lookup)
        → LooksUp dp s cs name o
        → Links sb name inum dp s (elim o [
          | dirlookup_panics ↦ link_panics
          | found i off ip t ds ↦ put_back (iput sb me i ds t)
          | not_found ip t ↦
              write_dirent has_write sb name inum
                (find_dirent (ip.size / 16 + 1) has_read sb 0 ip t)
        ])
    go dirlookup_panics f = tt
    go (found i off ip t ds) f = put_back-Links sb name inum dp s (iput sb me i ds t)
    go (not_found ip t) (a, b, new) =
        rw (a, b)
          (write_dirent-Links has_write sb name inum dp s
            (find_dirent (dp.size / 16 + 1) has_read sb 0 dp s) file small new
            (find_dirent-FindsFree (dp.size / 16 + 1) 0 has_read sb dp s file whole (omega arith)
              (omega arith)))

IsNamed-same :
    (f g name : ℕ → ℕ) (j : ℕ)
    → ((p : ℕ) → 16 * j ≤ p → p < 16 * j + 16 → f p ≡ g p)
    → IsNamed f name j
    → IsNamed g name j
IsNamed-same f g name j h (n, c) = (
  λ z. n (
      omega (
        arith,
        h (16 * j) (omega arith) (omega arith),
        h (16 * j + 1) (omega arith) (omega arith),
      )),
  namecmp-ext name (name_at g j) (name_at f j)
        (λ i l. sym (h (16 * j + (2 + i)) (omega arith) (omega arith)))
      ∙ c,
)

-- No entry but the new one has the name.
IsLinked-only :
    (sb : SuperBlock) (name : ℕ → ℕ) (inum : ℕ) (ip : Inode) (s : Disk) (jp : Inode) (t : Disk)
    (l j : ℕ)
    → IsFile sb ip s
    → ip.size % 16 ≡ 0
    → ((i : ℕ) → 16 * i < ip.size → ¬ IsNamed (content ip s) name i)
    → IsLinked sb name inum ip s jp t l
    → 16 * j < jp.size
    → IsNamed (content jp t) name j
    → j ≡ l
IsLinked-only sb name inum ip s jp t l j file whole new k lt named = elim (Bool-cases (j == l)) [
  | inl e ↦ (==_iff j l).0 e
  | inr e ↦
      let inside : 16 * j < ip.size = ground (arith, k.size, k.at_end) in
      let ne : j ≢ l = λ q. ground arith in
      absurd (
        new j inside (
          IsNamed-same (content jp t) (content ip s) name j
            (λ p lo hi. k.others p (omega (arith, file.fits)) (omega arith)) named))
]

-- The new entry found by `dirlookup`.
abbrev pub FindsLink : Inode → ℕ → ℕ → Cache → Lookup → Type 0
FindsLink jp l inum ds dirlookup_panics = iget jp.dev inum ds ≡ none
FindsLink jp l inum ds (not_found kp u) = ⊥
FindsLink jp l inum ds (found i off kp u es) = (off ≡ 16 * l) × (iget jp.dev inum ds ≡ some (es, i))

-- A `dirlink` of a number from 1 to 65535 that returns 0, in a directory of whole entries that
-- is stored like a plain file (an inode that is no device, with blocks of its own for all of its
-- size, which is at most MAXFILE blocks, and whose block on the disk lies in front of the
-- bitmap; the disk has fewer than 2 ^ 31 blocks, and all of it in front of its data blocks is in
-- use), puts the name and the number into one entry, which was not in use or lies at the end,
-- and leaves the bytes of all the others. From then on `dirlookup` of the name finds that entry
-- and calls `iget` with its number, whatever the cache holds.
pub dirlookup-dirlink :
    (has_read has_write : ℕ → Bool) (sb : SuperBlock) (me : ℕ) (name : ℕ → ℕ) (inum : ℕ)
    (dp jp : Inode) (s t : Disk) (cs : Cache)
    → IsFile sb dp s
    → dp.kind ≡ t_dir
    → dp.size % 16 ≡ 0
    → 0 < inum
    → inum < 65536
    → dirlink has_read has_write sb me name inum dp s cs ≡ linked jp t
    → (l : ℕ) × IsLinked sb name inum dp s jp t l
      × ((ds : Cache) → FindsLink jp l inum ds (dirlookup has_read sb name jp t ds))
dirlookup-dirlink has_read has_write sb me name inum dp jp s t cs file dir whole pos small e =
    let (new, (l, k)) =
      subst (Links sb name inum dp s) e
        (dirlink-Links has_read has_write sb me name inum dp s cs file dir whole small) in
    (
      l,
      k,
      λ ds. go new l k ds (dirlookup has_read sb name jp t ds) (
          dirlookup-LooksUp has_read sb name jp t ds k.file (k.kind ∙ dir)
            (ground (arith, k.size, k.at_end))),
    )
  where
    go :
        ((i : ℕ) → 16 * i < dp.size → ¬ IsNamed (content dp s) name i)
        → (l : ℕ) → IsLinked sb name inum dp s jp t l
        → (ds : Cache) (o : Lookup) → LooksUp jp t ds name o
        → FindsLink jp l inum ds o
    go new l k ds dirlookup_panics (m, lt, named, none_got) =
        let same : m ≡ l = IsLinked-only sb name inum dp s jp t l m file whole new k lt named in
        ap (λ (x : ℕ). iget jp.dev x ds) (sym k.number ∙ ap (inum_at (content jp t)) (sym same))
        ∙ none_got
    go new l k ds (not_found kp u) (a, b, no_entry) =
        no_entry l (omega (arith, k.size)) (λ z. omega (arith, k.number), k.named)
    go new l k ds (found i off kp u es) (a, b, (m, at, lt, named, gets, first)) =
        let same : m ≡ l =
          IsLinked-only sb name inum dp s jp t l m file whole new k (omega arith) named in
        (
          at ∙ ap (λ (x : ℕ). 16 * x) same,
          ap (λ (x : ℕ). iget jp.dev x ds) (sym k.number ∙ ap (inum_at (content jp t)) (sym same))
              ∙ gets,
        )
