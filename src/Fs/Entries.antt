-- ===== src/Fs/Entries.antt =====
-- `dirlookup` (fs.c) against the entries in the content of the directory.
use xv6_public_os_project.Strings.{strncmp}
use xv6_public_os_project.Fs.Disk.{SuperBlock, Disk}
use xv6_public_os_project.Fs.Inode.{Inode, t_dir, done, readi}
use xv6_public_os_project.Fs.Content.{content, bytes_from}
use xv6_public_os_project.Fs.Writing.{IsFile}
use xv6_public_os_project.Fs.Reading.{readi_lem}
use xv6_public_os_project.Fs.Cache.{Cache, iget}
use xv6_public_os_project.Fs.Directory.{
  namecmp, both_names, dirent_name, DirSearch, lookup_panics, absent, entry, dirlookup_loop, Lookup,
  dirlookup_panics, not_found, found, got, dirlookup, look_at,
}
use xv6_public_os_project.Base.{
  ℕ, zero, suc, ◌+◌, ◌-◌, ◌*◌, ◌/◌, ◌%◌, ◌≤◌, ◌<◌, ◌≡◌, ◌≢◌, refl, ap, ◌∙◌, subst, fun_ext, Bool,
  true, false, ◌||◌, Option, none, some, ◌==◌, ==_iff, ltb, leb, length, get_or, arith, word,
  Bool-cases, inl, inr,
}
use Prim.Native.Nat.{min}

-- Entry `k` of a directory with content `f`.
abbrev pub inum_at : (ℕ → ℕ) → ℕ → ℕ
inum_at f k = f (16 * k) + 256 * f (16 * k + 1)

abbrev pub name_at : (ℕ → ℕ) → ℕ → ℕ → ℕ
name_at f k i = f (16 * k + (2 + i))

-- The entry is in use and has the name.
abbrev pub IsNamed : (ℕ → ℕ) → (ℕ → ℕ) → ℕ → Type 0
IsNamed f name k = (inum_at f k ≢ 0) × (namecmp name (name_at f k) ≡ 0)

-- What the loop from entry `k` on promises: the first entry with the name, if there is one.
abbrev FindsName : Inode → Disk → (ℕ → ℕ) → ℕ → DirSearch → Type 0
FindsName ip s name k lookup_panics = ⊥
FindsName ip s name k (absent jp t) =
    (jp ≡ ip) × (t ≡ s) × ((j : ℕ) → k ≤ j → 16 * j < ip.size → ¬ IsNamed (content ip s) name j)
FindsName ip s name k (entry inum off jp t) =
    (jp ≡ ip)
    × (t ≡ s)
    × ((l : ℕ) × (k ≤ l)
        × (off ≡ 16 * l)
        × (off < ip.size)
        × IsNamed (content ip s) name l
        × (inum ≡ inum_at (content ip s) l)
        × ((j : ℕ) → k ≤ j → j < l → ¬ IsNamed (content ip s) name j))

length-bytes_from : (f : ℕ → ℕ) (off n : ℕ) → length (bytes_from f off n) ≡ n
length-bytes_from f off zero = refl
length-bytes_from f off (suc n) = ap suc (length-bytes_from f (off + 1) n)

get_or-bytes_from :
    (f : ℕ → ℕ) (off n i : ℕ) → i < n → get_or (bytes_from f off n) i 0 ≡ f (off + i)
get_or-bytes_from f off zero i h = absurd (omega arith)
get_or-bytes_from f off (suc n) zero h = ap f (omega arith)
get_or-bytes_from f off (suc n) (suc i) h =
    get_or-bytes_from f (off + 1) n i (omega arith) ∙ ap f (omega arith)

pub namecmp-ext : (s t u : ℕ → ℕ) → ((i : ℕ) → i < 14 → t i ≡ u i) → namecmp s t ≡ namecmp s u
namecmp-ext s t u h = ap (strncmp 14 0 14) (fun_ext (λ a. same a))
  where
    same : (a : ℕ) → both_names s t a ≡ both_names s u a
    same a = elim (Bool-cases (ltb a 14)) [
      | inl e ↦ rw e refl
      | inr e ↦ elim (Bool-cases (ltb a 28)) [
        | inl f ↦ rw (e, f) (h (a - 14) (ground arith))
        | inr f ↦ rw (e, f) refl
      ]
    ]

-- The bytes of entry `k`, as `readi` returns them.
dirent_name_lem :
    (f name : ℕ → ℕ) (k : ℕ)
    → namecmp name (dirent_name (bytes_from f (16 * k) 16)) ≡ namecmp name (name_at f k)
dirent_name_lem f name k =
    namecmp-ext name (dirent_name (bytes_from f (16 * k) 16)) (name_at f k)
      (λ i h. get_or-bytes_from f (16 * k) 16 (2 + i) (omega arith))

FindsName-skip :
    (ip : Inode) (s : Disk) (name : ℕ → ℕ) (k : ℕ) (o : DirSearch)
    → ¬ IsNamed (content ip s) name k
    → FindsName ip s name (k + 1) o
    → FindsName ip s name k o
FindsName-skip ip s name k lookup_panics no_match f = f
FindsName-skip ip s name k (absent jp t) no_match (a, b, c) = (
  a,
  b,
  λ j lo h. elim (Bool-cases (k == j)) [
    | inl e ↦
        let same : k ≡ j = ground arith in
        subst (λ (x : ℕ). ¬ IsNamed (content ip s) name x) same no_match
    | inr e ↦ c j (ground arith) h
  ],
)
FindsName-skip ip s name k (entry inum off jp t) no_match (a, b, (l, lo, at, lt, named, n, c)) = (
  a,
  b,
  (
    l,
    omega arith,
    at,
    lt,
    named,
    n,
    λ j lo h. elim (Bool-cases (k == j)) [
      | inl e ↦
          let same : k ≡ j = ground arith in
          subst (λ (x : ℕ). ¬ IsNamed (content ip s) name x) same no_match
      | inr e ↦ c j (ground arith) h
    ],
  ),
)

look_at-FindsName :
    (ip : Inode) (s : Disk) (name : ℕ → ℕ) (k : ℕ) (rest : Inode → Disk → DirSearch)
    → 16 * k < ip.size
    → FindsName ip s name (k + 1) (rest ip s)
    → FindsName ip s name k
        (look_at name (16 * k) (done (bytes_from (content ip s) (16 * k) 16) ip s) rest)
look_at-FindsName ip s name k rest lt f =
    let c = content ip s in
    let de = bytes_from c (16 * k) 16 in
    let same : namecmp name (dirent_name de) ≡ namecmp name (name_at c k) =
      dirent_name_lem c name k in
    elim (Bool-cases (inum_at c k == 0)) [
      | inl z ↦ rw z (FindsName-skip ip s name k (rest ip s) (λ y. y.0 ((==_iff _ 0).0 z)) f)
      | inr z ↦ elim (Bool-cases (namecmp name (name_at c k) == 0)) [
        | inl y ↦
            rw (z, same, y)
              (
                refl,
                refl,
                (
                  k,
                  omega arith,
                  refl,
                  lt,
                  (λ q. ground arith, (==_iff _ 0).0 y),
                  refl,
                  λ j lo hi. absurd (omega arith),
                ),
              )
        | inr y ↦ rw (z, same, y) (FindsName-skip ip s name k (rest ip s) (λ x. ground arith) f)
      ]
    ]

dirlookup_loop-FindsName :
    (fuel k : ℕ) (has : ℕ → Bool) (sb : SuperBlock) (name : ℕ → ℕ) (ip : Inode) (s : Disk)
    → IsFile sb ip s
    → ip.size % 16 ≡ 0
    → ip.size < 16 * (k + fuel)
    → FindsName ip s name k (dirlookup_loop fuel has sb name (16 * k) ip s)
unfolding dirlookup_loop
dirlookup_loop-FindsName zero k has sb name ip s file whole enough =
    (refl, refl, λ j lo h. absurd (omega arith))
dirlookup_loop-FindsName (suc fuel) k has sb name ip s file whole enough =
    elim (Bool-cases (ltb (16 * k) ip.size)) [
      | inr e ↦ rw e (refl, refl, λ j lo h. absurd (ground arith))
      | inl e ↦
          let up : 16 * (k + 1) ≡ 16 * k + 16 = omega arith in
          let fine : (ltb ip.size (16 * k) || leb word (16 * k + 16)) ≡ false =
            ground (arith, file.fits) in
          let all : min 16 (ip.size - 16 * k) ≡ 16 = ground arith in
          let bytes : readi has sb ip (16 * k) 16 s
              ≡ done (bytes_from (content ip s) (16 * k) 16) ip s =
            readi_lem has sb ip (16 * k) 16 s file (omega arith) ∙ (rw (fine, all) refl) in
          rw (e, bytes)
            (look_at-FindsName ip s name k (dirlookup_loop fuel has sb name (16 * k + 16))
              (ground arith)
              (subst
                (λ (x : ℕ). FindsName ip s name (k + 1) (dirlookup_loop fuel has sb name x ip s)) up
                (dirlookup_loop-FindsName fuel (k + 1) has sb name ip s file whole (omega arith))))
    ]

-- What `dirlookup` promises: the first entry with the name, if there is one, and `iget` of its inode.
abbrev pub LooksUp : Inode → Disk → Cache → (ℕ → ℕ) → Lookup → Type 0
LooksUp ip s cs name dirlookup_panics =
    (l : ℕ) × (16 * l < ip.size)
    × IsNamed (content ip s) name l
    × (iget ip.dev (inum_at (content ip s) l) cs ≡ none)
LooksUp ip s cs name (not_found jp t) =
    (jp ≡ ip) × (t ≡ s) × ((j : ℕ) → 16 * j < ip.size → ¬ IsNamed (content ip s) name j)
LooksUp ip s cs name (found i off jp t ds) =
    (jp ≡ ip)
    × (t ≡ s)
    × ((l : ℕ) × (off ≡ 16 * l)
        × (off < ip.size)
        × IsNamed (content ip s) name l
        × (iget ip.dev (inum_at (content ip s) l) cs ≡ some (ds, i))
        × ((j : ℕ) → j < l → ¬ IsNamed (content ip s) name j))

-- `dirlookup` in a directory of whole entries that is stored like a plain file (an inode that is
-- no device, with blocks of its own for all of its size, which is at most MAXFILE blocks, and
-- whose block on the disk lies in front of the bitmap; the disk has fewer than 2 ^ 31 blocks,
-- and all of it in front of its data blocks is in use) changes neither the inode nor the disk.
-- If an entry in use has the name, it returns the offset of the first such entry and what `iget`
-- makes of its inode; it panics only where that call of `iget` does. If there is none it returns
-- the null pointer.
pub dirlookup-LooksUp :
    (has : ℕ → Bool) (sb : SuperBlock) (name : ℕ → ℕ) (dp : Inode) (s : Disk) (cs : Cache)
    → IsFile sb dp s
    → dp.kind ≡ t_dir
    → dp.size % 16 ≡ 0
    → LooksUp dp s cs name (dirlookup has sb name dp s cs)
unfolding dirlookup
dirlookup-LooksUp has sb name dp s cs file dir whole =
    let is_dir : (dp.kind == t_dir) ≡ true = ground arith in
    rw is_dir (
      go (dirlookup_loop (dp.size / 16 + 1) has sb name 0 dp s)
        (dirlookup_loop-FindsName (dp.size / 16 + 1) 0 has sb name dp s file whole (omega arith)))
  where
    and_get :
        (l off : ℕ) (o : Option (Cache × ℕ))
        → iget dp.dev (inum_at (content dp s) l) cs ≡ o
        → off ≡ 16 * l
        → off < dp.size
        → IsNamed (content dp s) name l
        → ((j : ℕ) → 0 ≤ j → j < l → ¬ IsNamed (content dp s) name j)
        → LooksUp dp s cs name (got off dp s o)
    and_get l off none e at lt named first = (l, omega arith, named, e)
    and_get l off (some (ds, i)) e at lt named first =
        (refl, refl, (l, at, lt, named, e, λ j h. first j (omega arith) h))

    go :
        (o : DirSearch)
        → FindsName dp s name 0 o
        → LooksUp dp s cs name (elim o [
          | lookup_panics ↦ dirlookup_panics
          | absent ip t ↦ not_found ip t
          | entry inum off ip t ↦ got off ip t (iget dp.dev inum cs)
        ])
    go lookup_panics f = absurd f
    go (absent jp t) (a, b, c) = (a, b, λ j h. c j (omega arith) h)
    go (entry inum off jp t) (a, b, (l, lo, at, lt, named, n, first)) =
        rw (a, b, n)
          (and_get l off (iget dp.dev (inum_at (content dp s) l) cs) refl at lt named first)
