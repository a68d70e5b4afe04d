-- ===== src/Fs/Linked.antt =====
-- `dirlink` (fs.c) against the entries in the content of the directory.
use xv6_public_os_project.Strings.{strncpy}
use xv6_public_os_project.Fs.Disk.{SuperBlock, Disk, zeros}
use xv6_public_os_project.Fs.Inode.{Inode, done, readi, get_bytes}
use xv6_public_os_project.Fs.Content.{content, bytes_from, most}
use xv6_public_os_project.Fs.Splicing.{spliced}
use xv6_public_os_project.Fs.Writing.{IsFile, Writes}
use xv6_public_os_project.Fs.Reading.{readi_lem}
use xv6_public_os_project.Fs.Directory.{namecmp, both_names}
use xv6_public_os_project.Fs.Naming.{namecmp-strncpy}
use xv6_public_os_project.Fs.Entries.{inum_at, name_at}
use xv6_public_os_project.Fs.Linking.{find_dirent, new_dirent}
use xv6_public_os_project.Base.{
  ℕ, zero, suc, ◌+◌, ◌-◌, ◌*◌, ◌/◌, ◌%◌, ◌≤◌, ◌<◌, ◌≡◌, ◌⊎◌, refl, ap, sym, ◌∙◌, subst, Bool, true,
  false, ◌||◌, ◌&&◌, Option, none, some, List, ◌==◌, ==_iff, ltb, leb, length, get_or, arith, word,
  Bool-cases, inl, inr,
}
use Prim.Native.Nat.{min, max}

-- What the loop promises: an entry that is not in use, or the end of the directory.
abbrev pub FindsFree : Inode → Disk → Option (ℕ × Inode × Disk) → Type 0
FindsFree ip s none = ⊥
FindsFree ip s (some (off, jp, t)) =
    (jp ≡ ip)
    × (t ≡ s)
    × ((l : ℕ) × (off ≡ 16 * l)
        × (16 * l ≤ ip.size)
        × (16 * l < ip.size → inum_at (content ip s) l ≡ 0))

pub find_dirent-FindsFree :
    (fuel k : ℕ) (has : ℕ → Bool) (sb : SuperBlock) (ip : Inode) (s : Disk)
    → IsFile sb ip s
    → ip.size % 16 ≡ 0
    → 16 * k ≤ ip.size
    → ip.size < 16 * (k + fuel)
    → FindsFree ip s (find_dirent fuel has sb (16 * k) ip s)
unfolding find_dirent
find_dirent-FindsFree zero k has sb ip s file whole le enough = absurd (omega arith)
find_dirent-FindsFree (suc fuel) k has sb ip s file whole le enough =
    elim (Bool-cases (ltb (16 * k) ip.size)) [
      | inr e ↦ rw e (refl, refl, (k, refl, le, λ lt. absurd (ground arith)))
      | inl e ↦
          let up : 16 * (k + 1) ≡ 16 * k + 16 = omega arith in
          let fine : (ltb ip.size (16 * k) || leb word (16 * k + 16)) ≡ false =
            ground (arith, file.fits) in
          let all : min 16 (ip.size - 16 * k) ≡ 16 = ground arith in
          let bytes : readi has sb ip (16 * k) 16 s
              ≡ done (bytes_from (content ip s) (16 * k) 16) ip s =
            readi_lem has sb ip (16 * k) 16 s file (omega arith) ∙ (rw (fine, all) refl) in
          let later =
            subst (λ (x : ℕ). FindsFree ip s (find_dirent fuel has sb x ip s)) up
              (find_dirent-FindsFree fuel (k + 1) has sb ip s file whole (ground arith)
                (omega arith)) in
          rw (e, bytes)
            (elim (Bool-cases (inum_at (content ip s) k == 0)) [
              | inl z ↦ rw z (refl, refl, (k, refl, le, λ lt. (==_iff _ 0).0 z))
              | inr z ↦ rw z later
            ])
    ]

-- What `dirlink` promises of the directory after it: entry `l` has the name and the inode; every other
-- entry is as before.
pub record IsLinked (sb : SuperBlock) (name : ℕ → ℕ) (inum : ℕ) (ip : Inode) (s : Disk) (jp : Inode)
    (t : Disk) (l : ℕ) : Type 0 where
  pub file : IsFile sb jp t
  pub kind : jp.kind ≡ ip.kind
  pub dev : jp.dev ≡ ip.dev
  pub size : jp.size ≡ max ip.size (16 * l + 16)
  pub at_end : 16 * l ≤ ip.size
  pub was_free : 16 * l < ip.size → inum_at (content ip s) l ≡ 0
  pub named : namecmp name (name_at (content jp t) l) ≡ 0
  pub number : inum_at (content jp t) l ≡ inum
  pub others :
      (p : ℕ) → p < most → (p < 16 * l) ⊎ (16 * l + 16 ≤ p) → content jp t p ≡ content ip s p

get_or-get_bytes : (n o i : ℕ) (d : ℕ → ℕ) → i < n → get_or (get_bytes n o d) i 0 ≡ d (o + i)
unfolding get_bytes
get_or-get_bytes zero o i d h = absurd (omega arith)
get_or-get_bytes (suc n) o zero d h = ap d (omega arith)
get_or-get_bytes (suc n) o (suc i) d h =
    get_or-get_bytes n (o + 1) i d (omega arith) ∙ ap d (omega arith)

pub length-new_dirent : (name : ℕ → ℕ) (inum : ℕ) → length (new_dirent name inum) ≡ 16
unfolding get_bytes
length-new_dirent name inum = refl

new_dirent-name :
    (name : ℕ → ℕ) (inum i : ℕ)
    → i < 14
    → get_or (new_dirent name inum) (2 + i) 0 ≡ strncpy 14 0 14 (both_names zeros name) i
new_dirent-name name inum i h =
    let at : 2 + i ≡ suc (suc i) = omega arith in
    let from : 0 + i ≡ i = omega arith in
    let m = strncpy 14 0 14 (both_names zeros name) in
    ap (λ (x : ℕ). get_or (new_dirent name inum) x 0) at ∙ get_or-get_bytes 14 0 i m h ∙ ap m from

spliced-in :
    (off i : ℕ) (src : List ℕ) (f : ℕ → ℕ)
    → i < length src
    → spliced off src f (off + i) ≡ get_or src i 0
spliced-in off i src f h =
    let e : (leb off (off + i) && ltb (off + i) (off + length src)) ≡ true = ground arith in
    let back : off + i - off ≡ i = omega arith in rw (e, back) refl

spliced-out :
    (off p : ℕ) (src : List ℕ) (f : ℕ → ℕ)
    → (p < off) ⊎ (off + length src ≤ p)
    → spliced off src f p ≡ f p
spliced-out off p src f h =
    let e : (leb off p && ltb p (off + length src)) ≡ false = ground arith in rw e refl

pub Writes-IsLinked :
    (has : ℕ → Bool) (sb : SuperBlock) (name : ℕ → ℕ) (inum : ℕ) (ip jp : Inode) (s t : Disk)
    (l n : ℕ)
    → inum < 65536
    → 16 * l ≤ ip.size
    → (16 * l < ip.size → inum_at (content ip s) l ≡ 0)
    → Writes has sb ip (new_dirent name inum) (16 * l) s (done n jp t)
    → IsLinked sb name inum ip s jp t l
Writes-IsLinked has sb name inum ip jp s t l n small le free (len, file, bytes, size, rest) =
    let de = new_dirent name inum in
    let long = length-new_dirent name inum in
    let put : (i : ℕ) → i < 16 → content jp t (16 * l + i) ≡ get_or de i 0 = λ i h.
      bytes (16 * l + i) (omega (arith, size, long, file.fits))
      ∙ spliced-in (16 * l) i de (content ip s) (omega (arith, long)) in
    let start : 16 * l + 0 ≡ 16 * l = omega arith in
    let lo : content jp t (16 * l) ≡ inum % 256 =
      ap (content jp t) (sym start) ∙ put 0 (omega arith) in
    let hi : content jp t (16 * l + 1) ≡ inum / 256 % 256 = put 1 (omega arith) in
    record {
      file = file;
      kind = ap (λ (x : Inode). x.kind) rest;
      dev = ap (λ (x : Inode). x.dev) rest;
      size = size ∙ ap (λ (x : ℕ). max ip.size (16 * l + x)) long;
      at_end = le;
      was_free = free;
      named =
          namecmp-strncpy name (name_at (content jp t) l)
            (λ i h. put (2 + i) (omega arith) ∙ new_dirent-name name inum i h);
      number = omega (arith, lo, hi);
      others =
          λ p h away. bytes p h ∙ spliced-out (16 * l) p de (content ip s) (ground (arith, long));
    }
