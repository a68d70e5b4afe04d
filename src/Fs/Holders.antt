-- ===== src/Fs/Holders.antt =====
-- The holders of references to cached inodes (fs.c), in any order of their calls.
use xv6_public_os_project.Fs.Sharing.{
  Has, Unshared, Small, Alike, Alike-refl, Alike-trans, Alike-update, Alike-Keeps, Keeps,
  Keeps-Unshared, Keeps-trans, Keeps-update, Gets, iget-Gets, iget-Unshared,
}
use xv6_public_os_project.Fs.Numbers.{SameNumber, itrunc-SameNumber}
use xv6_public_os_project.Fs.Disk.{SuperBlock, Disk}
use xv6_public_os_project.Fs.Inode.{Inode, read_inode, iupdate}
use xv6_public_os_project.Fs.Truncate.{itrunc}
use xv6_public_os_project.Fs.Cache.{
  Cache, Cached, ninode, LockResult, panics, sleeps, returns, iget, idup, acquiresleep,
  releasesleep, holdingsleep, load, and_load, ilock, iunlock, free_unlinked, and_put, iput,
}
use xv6_public_os_project.Base.{
  ℕ, ◌+◌, ◌<◌, ◌≡◌, inl, inr, refl, ap, ◌∙◌, sym, subst, false, not, ◌&&◌, Option, none, some, ◌==◌,
  int_lt, sub32, half_word, ◌-◌, ◌≤◌, ◌≢◌, suc, update, arith, Bool-cases,
}

-- A call of a process `me` on the cache and the disk. Between the calls the disk changes in any way.
pub data Step (sb : SuperBlock) (cs : Cache) : Cache → Type 0 where
  gets : (dev inum i : ℕ) (ds : Cache) → iget dev inum cs ≡ some (ds, i) → Step sb cs ds
  dups : (i : ℕ) → 0 < (cs i).ref → Step sb cs (idup i cs)
  locks : (me i : ℕ) (s : Disk) (ds : Cache) → ilock sb me i s cs ≡ returns ds → Step sb cs ds
  unlocks : (me i : ℕ) (ds : Cache) → iunlock me i cs ≡ some ds → Step sb cs ds
  puts :
      (me i : ℕ) (s t : Disk) (ds : Cache)
      → 0 < (cs i).ref
      → iput sb me i cs s ≡ returns (ds, t)
      → Step sb cs ds

-- A number of calls.
pub data Reach (sb : SuperBlock) (cs : Cache) : ℕ → Cache → Type 0 where
  here : Reach sb cs 0 cs
  next : {n : ℕ} {ds es : Cache} → Reach sb cs n ds → Step sb ds es → Reach sb cs (suc n) es

abbrev AlikeOr : Cache → LockResult Cache → Type 0
AlikeOr cs panics = Unit
AlikeOr cs sleeps = Unit
AlikeOr cs (returns ds) = Alike cs ds

acquiresleep-Alike : (me i : ℕ) (cs : Cache) → AlikeOr cs (acquiresleep me i cs)
unfolding acquiresleep
acquiresleep-Alike me i cs = go (cs i).holder refl
  where
    go : (o : Option ℕ) → (cs i).holder ≡ o → AlikeOr cs (acquiresleep me i cs)
    go none e = rw (e, acquiresleep) (Alike-update cs i _ refl refl refl)
    go (some p) e = rw (e, acquiresleep) tt

releasesleep-Alike : (i : ℕ) (cs : Cache) → Alike cs (releasesleep i cs)
unfolding releasesleep
releasesleep-Alike i cs = Alike-update cs i _ refl refl refl

load-Alike : (sb : SuperBlock) (i : ℕ) (s : Disk) (cs : Cache) → AlikeOr cs (load sb i s cs)
unfolding read_inode
load-Alike sb i s cs = elim (Bool-cases (cs i).valid) [
  | inl v ↦ rw v (Alike-refl cs)
  | inr v ↦ elim (Bool-cases ((read_inode sb (cs i).inode.dev (cs i).inode.inum s).kind == 0)) [
    | inl z ↦ rw (v, z) tt
    | inr z ↦ rw (v, z) (Alike-update cs i _ refl refl refl)
  ]
]

ilock-Alike : (sb : SuperBlock) (me i : ℕ) (s : Disk) (cs : Cache) → AlikeOr cs (ilock sb me i s cs)
unfolding ilock
ilock-Alike sb me i s cs = elim (Bool-cases (int_lt (cs i).ref 1)) [
  | inl e ↦ rw e tt
  | inr e ↦ rw e (go (acquiresleep me i cs) (acquiresleep-Alike me i cs))
]
  where
    on : (ds : Cache) → Alike cs ds → (o : LockResult Cache) → AlikeOr ds o → AlikeOr cs o
    on ds k panics l = tt
    on ds k sleeps l = tt
    on ds k (returns es) l = Alike-trans cs ds es k l

    go : (o : LockResult Cache) → AlikeOr cs o → AlikeOr cs (and_load sb i s o)
    go panics k = tt
    go sleeps k = tt
    go (returns ds) k = on ds k (load sb i s ds) (load-Alike sb i s ds)

abbrev AlikeDisk : Cache → Option (Cache × Disk) → Type 0
AlikeDisk cs none = Unit
AlikeDisk cs (some (ds, t)) = Alike cs ds

free_unlinked-Alike :
    (sb : SuperBlock) (i : ℕ) (cs : Cache) (s : Disk) → AlikeDisk cs (free_unlinked sb i cs s)
unfolding free_unlinked
free_unlinked-Alike sb i cs s =
    elim (Bool-cases ((cs i).valid && (cs i).inode.nlink == 0 && (cs i).ref == 1)) [
      | inr e ↦ rw e (Alike-refl cs)
      | inl e ↦ rw e (go (itrunc sb (cs i).inode s) (itrunc-SameNumber sb (cs i).inode s))
    ]
  where
    go :
        (o : Option (Inode × Disk))
        → SameNumber (cs i).inode o
        → AlikeDisk cs (elim o [
          | none ↦ none
          | some (ip, t) ↦ some (
            update cs i (record (cs i) { valid = false; inode = record ip { kind = 0 } }),
            iupdate sb (record ip { kind = 0 }) t,
          )
        ])
    go none h = tt
    go (some (ip, t)) (d, n) =
        Alike-update cs i (record (cs i) { valid = false; inode = record ip { kind = 0 } }) refl d n

-- What `iput` of an entry in use keeps of the cache.
abbrev Puts : Cache → Cache → Type 0
Puts cs ds = Keeps cs ds × ((j : ℕ) → (ds j).ref ≤ (cs j).ref)

abbrev PutsOr : Cache → LockResult (Cache × Disk) → Type 0
PutsOr cs panics = Unit
PutsOr cs sleeps = Unit
PutsOr cs (returns (ds, t)) = Puts cs ds

-- A reference less of entry `i`.
less-Puts :
    (cs es : Cache) (i : ℕ)
    → 0 < (cs i).ref
    → Small cs
    → Alike cs es
    → Puts cs (update es i (record (es i) { ref = sub32 (es i).ref 1 }))
unfolding Alike
less-Puts cs es i live small a =
    let one : sub32 (es i).ref 1 ≡ (cs i).ref - 1 = omega (arith, (a i).0, small i) in
    (
      Keeps-trans cs es (update es i (record (es i) { ref = sub32 (es i).ref 1 }))
          (Alike-Keeps cs es a) (Keeps-update es i _ (λ h. omega (arith, (a i).0)) refl refl),
      λ j. elim (Bool-cases (i == j)) [
        | inl q ↦
            let same : i ≡ j = ground arith in
            rw q (omega (arith, one, ap (λ (x : ℕ). (cs x).ref) same))
        | inr q ↦ rw q (omega (arith, (a j).0))
      ],
    )

iput-PutsOr :
    (sb : SuperBlock) (me i : ℕ) (cs : Cache) (s : Disk)
    → 0 < (cs i).ref
    → Small cs
    → PutsOr cs (iput sb me i cs s)
unfolding iput
iput-PutsOr sb me i cs s live small = go (acquiresleep me i cs) refl (acquiresleep-Alike me i cs)
  where
    then_put :
        (ds : Cache) (o : Option (Cache × Disk))
        → Alike cs ds
        → AlikeDisk ds o
        → PutsOr cs (and_put i o)
    then_put ds none k l = tt
    then_put ds (some (es, t)) k l =
        let fs = releasesleep i es in
        less-Puts cs fs i live small
          (Alike-trans cs ds fs k (Alike-trans ds es fs l (releasesleep-Alike i es)))

    go :
        (o : LockResult Cache)
        → acquiresleep me i cs ≡ o
        → AlikeOr cs o
        → PutsOr cs (iput sb me i cs s)
    go panics e k = rw (e, iput) tt
    go sleeps e k = rw (e, iput) tt
    go (returns ds) e k =
        rw (e, iput) (then_put ds (free_unlinked sb i ds s) k (free_unlinked-Alike sb i ds s))

iunlock-Alike : (me i : ℕ) (cs ds : Cache) → iunlock me i cs ≡ some ds → Alike cs ds
unfolding iunlock
iunlock-Alike me i cs ds e = elim (Bool-cases (not (holdingsleep me i cs))) [
  | inl a ↦ absurd (ground arith)
  | inr a ↦ elim (Bool-cases (int_lt (cs i).ref 1)) [
    | inl b ↦ absurd (ground arith)
    | inr b ↦
        let same : releasesleep i cs ≡ ds = ground arith in
        subst (Alike cs) same (releasesleep-Alike i cs)
  ]
]

-- After `n` calls: one entry for each inode, and no count above `n`.
pub record Fine (n : ℕ) (cs : Cache) : Type 0 where
  pub unshared : Unshared cs
  pub counts : (j : ℕ) → (cs j).ref ≤ n

Fine-Small : (n : ℕ) (cs : Cache) → n < half_word → Fine n cs → Small cs
Fine-Small n cs h f i = omega (arith, f.counts i)

Alike-Fine : (n : ℕ) (cs ds : Cache) → Alike cs ds → Fine n cs → Fine (suc n) ds
unfolding Alike
Alike-Fine n cs ds a f = record {
  unshared = Keeps-Unshared cs ds (Alike-Keeps cs ds a) f.unshared;
  counts = λ j. omega (arith, (a j).0, f.counts j);
}

iget-Fine :
    (n dev inum i : ℕ) (cs ds : Cache)
    → n < half_word
    → Fine n cs
    → iget dev inum cs ≡ some (ds, i)
    → Fine (suc n) ds
iget-Fine n dev inum i cs ds h f e =
    let small = Fine-Small n cs h f in
    let (lt, has, more, others, was) = subst (Gets dev inum cs) e (iget-Gets dev inum cs small) in
    record {
      unshared = iget-Unshared dev inum cs ds i small f.unshared e;
      counts = λ j. elim (Bool-cases (i == j)) [
        | inl q ↦ let same : i ≡ j = ground arith in rw (sym same) (omega (arith, more, f.counts i))
        | inr q ↦
            let ne : i ≢ j = λ x. ground arith in
            omega (arith, ap (λ (c : Cached). c.ref) (others j ne), f.counts j)
      ];
    }

idup-Fine :
    (n i : ℕ) (cs : Cache) → n < half_word → 0 < (cs i).ref → Fine n cs → Fine (suc n) (idup i cs)
unfolding idup
idup-Fine n i cs h live f = record {
  unshared = Keeps-Unshared cs _ (Keeps-update cs i _ (λ l. live) refl refl) f.unshared;
  counts = λ j. elim (Bool-cases (i == j)) [
    | inl q ↦ rw q (omega (arith, f.counts i))
    | inr q ↦ rw q (omega (arith, f.counts j))
  ];
}

Step-Fine :
    (sb : SuperBlock) (n : ℕ) (cs ds : Cache)
    → n < half_word
    → Fine n cs
    → Step sb cs ds
    → Fine (suc n) ds
Step-Fine sb n cs _ small f (gets dev inum i ds e) = iget-Fine n dev inum i cs ds small f e
Step-Fine sb n cs _ small f (dups i h) = idup-Fine n i cs small h f
Step-Fine sb n cs _ small f (locks me i s ds e) =
    Alike-Fine n cs ds (subst (AlikeOr cs) e (ilock-Alike sb me i s cs)) f
Step-Fine sb n cs _ small f (unlocks me i ds e) = Alike-Fine n cs ds (iunlock-Alike me i cs ds e) f
Step-Fine sb n cs _ small f (puts me i s t ds h e) =
    let (k, less) = subst (PutsOr cs) e (iput-PutsOr sb me i cs s h (Fine-Small n cs small f)) in
    record {
      unshared = Keeps-Unshared cs ds k f.unshared;
      counts = λ j. omega (arith, less j, f.counts j);
    }

Reach-Fine :
    (sb : SuperBlock) (cs ds : Cache) (n : ℕ)
    → n < half_word
    → Fine 0 cs
    → Reach sb cs n ds
    → Fine n ds
Reach-Fine sb cs _ _ small f here = f
Reach-Fine sb cs es _ small f (next {n = n} {ds = ds} r st) =
    Step-Fine sb n ds es (omega arith) (Reach-Fine sb cs ds n (omega arith) f r) st

-- The cache at start-up.
abbrev pub IsEmpty : Cache → Type 0
IsEmpty cs = (i : ℕ) → (cs i).ref ≡ 0

-- After fewer than 2 ^ 31 calls of `iget`, `idup`, `ilock`, `iunlock` and `iput` on an empty cache, by
-- any processes and on any disks, in which only entries in use are duplicated and put, no inode has
-- two entries in use. So `iget` of an inode that has an entry in use returns that entry, with one
-- reference more.
pub iget_shared :
    (sb : SuperBlock) (start cs : Cache) (n i dev inum : ℕ)
    → IsEmpty start
    → n < half_word
    → Reach sb start n cs
    → i < ninode
    → Has cs i dev inum
    → Unshared cs
      × ((ds : Cache) × (iget dev inum cs ≡ some (ds, i)) × ((ds i).ref ≡ (cs i).ref + 1))
iget_shared sb start cs n i dev inum empty bound r h has =
    let f =
      Reach-Fine sb start cs n bound
        (record {
          unshared = λ k j d m hk hj a b. absurd (omega (arith, empty k));
          counts = λ j. omega (arith, empty j);
        })
        r in
    let u = f.unshared in
    let small = Fine-Small n cs bound f in
    (u, go u (iget dev inum cs) refl (iget-Gets dev inum cs small))
  where
    go :
        Unshared cs
        → (o : Option (Cache × ℕ)) → iget dev inum cs ≡ o
        → Gets dev inum cs o
        → (ds : Cache) × (iget dev inum cs ≡ some (ds, i)) × ((ds i).ref ≡ (cs i).ref + 1)
    go u none e g = absurd ((g i h).1 has.1 has.2)
    go u (some (ds, j)) e (hj, got, more, others, inl there) =
        let same : j ≡ i = u j i dev inum hj h there has in
        (
          ds,
          e ∙ ap (λ (x : ℕ). some (ds, x)) same,
          subst (λ (x : ℕ). (ds x).ref ≡ (cs x).ref + 1) same more,
        )
    go u (some (ds, j)) e (hj, got, more, others, inr (free, new)) =
        absurd (new i h has.0 has.1 has.2)
