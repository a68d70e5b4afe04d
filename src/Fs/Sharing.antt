-- ===== src/Fs/Sharing.antt =====
-- The inode cache (fs.c) has one entry for each inode.
use xv6_public_os_project.Fs.Cache.{Cached, Cache, ninode, find_cached, find_empty, iget}
use xv6_public_os_project.Base.{
  ℕ, zero, suc, ◌+◌, ◌≤◌, ◌<◌, ◌≡◌, ◌≢◌, ◌⊎◌, inl, inr, refl, ap, sym, ◌∙◌, subst, false, ◌&&◌,
  Option, none, some, ◌==◌, ==_iff, ==_refl, int_lt, half_word, update, arith, Bool-cases,
}

-- Entry `i` is in use, for that inode.
abbrev pub Has : Cache → ℕ → ℕ → ℕ → Type 0
Has cs i dev inum = (0 < (cs i).ref) × ((cs i).inode.dev ≡ dev) × ((cs i).inode.inum ≡ inum)

-- No inode has two entries.
abbrev pub Unshared : Cache → Type 0
Unshared cs =
    (i j dev inum : ℕ) → i < ninode → j < ninode → Has cs i dev inum → Has cs j dev inum → i ≡ j

-- Counts that are not negative.
abbrev pub Small : Cache → Type 0
Small cs = (i : ℕ) → (cs i).ref < half_word

-- The loop over the entries from `i` on.
abbrev FindsCached : ℕ → ℕ → ℕ → ℕ → Cache → Option ℕ → Type 0
FindsCached n i dev inum cs none =
    (j : ℕ) → i ≤ j → j < i + n → 0 < (cs j).ref → (cs j).inode.dev ≡ dev → (cs j).inode.inum ≢ inum
FindsCached n i dev inum cs (some j) = (i ≤ j) × (j < i + n) × Has cs j dev inum

find_cached-FindsCached :
    (n i dev inum : ℕ) (cs : Cache)
    → Small cs
    → FindsCached n i dev inum cs (find_cached n i dev inum cs)
unfolding find_cached
find_cached-FindsCached zero i dev inum cs small = λ j lo hi. absurd (omega arith)
find_cached-FindsCached (suc n) i dev inum cs small =
    elim (Bool-cases
      (int_lt 0 (cs i).ref && (cs i).inode.dev == dev && (cs i).inode.inum == inum)) [
        | inl e ↦
            rw e (omega arith, omega arith, (ground (arith, small i), ground arith, ground arith))
        | inr e ↦ rw e (
            go e (find_cached n (i + 1) dev inum cs)
              (find_cached-FindsCached n (i + 1) dev inum cs small))
      ]
  where
    go :
        (int_lt 0 (cs i).ref && (cs i).inode.dev == dev && (cs i).inode.inum == inum) ≡ false
        → (o : Option ℕ) → FindsCached n (i + 1) dev inum cs o
        → FindsCached (suc n) i dev inum cs o
    go e none f = λ j lo hi live d q. elim (Bool-cases (i == j)) [
      | inl g ↦
          let same : i ≡ j = ground arith in
          let live' : 0 < (cs i).ref = rw same live in
          let d' : (cs i).inode.dev ≡ dev = rw same d in
          let q' : (cs i).inode.inum ≡ inum = rw same q in absurd (ground (arith, small i))
      | inr g ↦ f j (ground arith) (omega arith) live d q
    ]
    go e (some j) (lo, hi, has) = (omega arith, omega arith, has)

find_empty-lt :
    (n i j : ℕ) (cs : Cache) → find_empty n i cs ≡ some j → (i ≤ j) × (j < i + n) × ((cs j).ref ≡ 0)
unfolding find_empty
find_empty-lt zero i j cs e = ground arith
find_empty-lt (suc n) i j cs e = elim (Bool-cases ((cs i).ref == 0)) [
  | inl z ↦
      let same : i ≡ j = ground arith in
      (omega arith, omega arith, rw (sym same) ((==_iff _ 0).0 z))
  | inr z ↦
      let (lo, hi, free) = find_empty-lt n (i + 1) j cs (ground arith) in
      (omega arith, omega arith, free)
]

-- The entries in use in `ds` are in use in `cs`, for the same inodes.
unfoldable pub Keeps : Cache → Cache → Type 0
Keeps cs ds = (i dev inum : ℕ) → Has ds i dev inum → Has cs i dev inum

pub Keeps-Unshared : (cs ds : Cache) → Keeps cs ds → Unshared cs → Unshared ds
unfolding Keeps
Keeps-Unshared cs ds k u i j dev inum hi hj a b =
    u i j dev inum hi hj (k i dev inum a) (k j dev inum b)

pub Keeps-trans : (cs ds es : Cache) → Keeps cs ds → Keeps ds es → Keeps cs es
unfolding Keeps
Keeps-trans cs ds es k l i dev inum h = k i dev inum (l i dev inum h)

-- A change of one entry that keeps its inode.
pub Keeps-update :
    (cs : Cache) (i : ℕ) (e : Cached)
    → (0 < e.ref → 0 < (cs i).ref)
    → e.inode.dev ≡ (cs i).inode.dev
    → e.inode.inum ≡ (cs i).inode.inum
    → Keeps cs (update cs i e)
unfolding Keeps
Keeps-update cs i e live d n j dev inum h = elim (Bool-cases (i == j)) [
  | inl q ↦
      let same : i ≡ j = ground arith in
      let (a, b, c) = rw q at h in
      subst (λ (x : ℕ). Has cs x dev inum) same (live a, sym d ∙ b, sym n ∙ c)
  | inr q ↦ rw q at h
]

-- The entries have the same inodes and counts.
unfoldable pub Alike : Cache → Cache → Type 0
Alike cs ds =
    (i : ℕ)
    → ((ds i).ref ≡ (cs i).ref)
      × ((ds i).inode.dev ≡ (cs i).inode.dev)
      × ((ds i).inode.inum ≡ (cs i).inode.inum)

pub Alike-refl : (cs : Cache) → Alike cs cs
unfolding Alike
Alike-refl cs i = (refl, refl, refl)

pub Alike-trans : (cs ds es : Cache) → Alike cs ds → Alike ds es → Alike cs es
unfolding Alike
Alike-trans cs ds es k l i =
    let (r, d, n) = k i in let (r', d', n') = l i in (r' ∙ r, d' ∙ d, n' ∙ n)

pub Alike-update :
    (cs : Cache) (i : ℕ) (e : Cached)
    → e.ref ≡ (cs i).ref
    → e.inode.dev ≡ (cs i).inode.dev
    → e.inode.inum ≡ (cs i).inode.inum
    → Alike cs (update cs i e)
unfolding Alike
Alike-update cs i e r d n j = elim (Bool-cases (i == j)) [
  | inl q ↦
      let same : i ≡ j = ground arith in
      rw q (
        r ∙ ap (λ (x : ℕ). (cs x).ref) same,
        d ∙ ap (λ (x : ℕ). (cs x).inode.dev) same,
        n ∙ ap (λ (x : ℕ). (cs x).inode.inum) same,
      )
  | inr q ↦ rw q (refl, refl, refl)
]

pub Alike-Keeps : (cs ds : Cache) → Alike cs ds → Keeps cs ds
unfolding Alike Keeps
Alike-Keeps cs ds a i dev inum (live, d, n) =
    let (r, d', n') = a i in (omega arith, sym d' ∙ d, sym n' ∙ n)

-- What `iget` promises: the entry that it returns is for the inode, with one reference more than
-- before, or with one where it had none; the other entries are as before.
abbrev pub Gets : ℕ → ℕ → Cache → Option (Cache × ℕ) → Type 0
Gets dev inum cs none =
    (j : ℕ) → j < ninode → (0 < (cs j).ref) × ((cs j).inode.dev ≡ dev → (cs j).inode.inum ≢ inum)
Gets dev inum cs (some (ds, i)) =
    (i < ninode)
    × Has ds i dev inum
    × ((ds i).ref ≡ (cs i).ref + 1)
    × ((j : ℕ) → i ≢ j → ds j ≡ cs j)
    × (Has cs i dev inum
        ⊎ (((cs i).ref ≡ 0)
            × ((j : ℕ)
                → j < ninode
                → 0 < (cs j).ref
                → (cs j).inode.dev ≡ dev
                → (cs j).inode.inum ≢ inum)))

Gets-update :
    (dev inum : ℕ) (cs : Cache) (i : ℕ) (e : Cached)
    → i < ninode
    → e.inode.dev ≡ dev
    → e.inode.inum ≡ inum
    → e.ref ≡ (cs i).ref + 1
    → (Has cs i dev inum
        ⊎ (((cs i).ref ≡ 0)
            × ((j : ℕ)
                → j < ninode
                → 0 < (cs j).ref
                → (cs j).inode.dev ≡ dev
                → (cs j).inode.inum ≢ inum)))
    → Gets dev inum cs (some (update cs i e, i))
Gets-update dev inum cs i e h d n r was =
    let here : update cs i e i ≡ e = rw (==_refl i) refl in
    (
      h,
      rw here (omega arith, d, n),
      rw here r,
      λ j ne. let no_eq : (i == j) ≡ false = ground arith in rw no_eq refl,
      was,
    )

find_empty-none :
    (n i j : ℕ) (cs : Cache) → find_empty n i cs ≡ none → i ≤ j → j < i + n → 0 < (cs j).ref
unfolding find_empty
find_empty-none zero i j cs e lo hi = absurd (omega arith)
find_empty-none (suc n) i j cs e lo hi = elim (Bool-cases ((cs i).ref == 0)) [
  | inl z ↦ absurd (ground arith)
  | inr z ↦ elim (Bool-cases (i == j)) [
    | inl q ↦ let same : j ≡ i = ground arith in rw same (ground arith)
    | inr q ↦ find_empty-none n (i + 1) j cs (ground arith) (ground arith) (omega arith)
  ]
]

pub iget-Gets : (dev inum : ℕ) (cs : Cache) → Small cs → Gets dev inum cs (iget dev inum cs)
unfolding iget
iget-Gets dev inum cs small =
    go (find_cached ninode 0 dev inum cs) refl (find_cached-FindsCached ninode 0 dev inum cs small)
  where
    miss :
        (o : Option ℕ)
        → find_cached ninode 0 dev inum cs ≡ none
        → FindsCached ninode 0 dev inum cs none
        → find_empty ninode 0 cs ≡ o
        → Gets dev inum cs (iget dev inum cs)
    miss none e f g =
        rw (e, iget)
          (rw g (λ j h. (
            find_empty-none ninode 0 j cs g (omega arith) h,
            λ d q. f j (omega arith) h (find_empty-none ninode 0 j cs g (omega arith) h) d q,
          )))
    miss (some i) e f g =
        let (lo, hi, free) = find_empty-lt ninode 0 i cs g in
        rw (e, iget)
          (rw g (
            Gets-update dev inum cs i _ hi refl refl (omega arith)
              (inr (free, λ j h. f j (omega arith) h))))

    go :
        (o : Option ℕ)
        → find_cached ninode 0 dev inum cs ≡ o
        → FindsCached ninode 0 dev inum cs o
        → Gets dev inum cs (iget dev inum cs)
    go none e f = miss (find_empty ninode 0 cs) e f refl
    go (some i) e (lo, hi, has) =
        rw (e, iget) (Gets-update dev inum cs i _ hi has.1 has.2 (omega (arith, small i)) (inl has))

pub iget-Unshared :
    (dev inum : ℕ) (cs ds : Cache) (i : ℕ)
    → Small cs
    → Unshared cs
    → iget dev inum cs ≡ some (ds, i)
    → Unshared ds
unfolding Keeps
iget-Unshared dev inum cs ds i small u e =
    let (h, has, r, others, was) = subst (Gets dev inum cs) e (iget-Gets dev inum cs small) in
    elim was [
      | inl there ↦ Keeps-Unshared cs ds (old others there has) u
      | inr (free, new) ↦ λ k j dev' inum' hk hj a b. elim (Bool-cases (i == k)) [
        | inl p ↦ elim (Bool-cases (i == j)) [
          | inl q ↦ ground arith
          | inr q ↦
              absurd (clash others has new k j dev' inum' (ground arith) (λ x. ground arith) hj a b)
        ]
        | inr p ↦ elim (Bool-cases (i == j)) [
          | inl q ↦
              absurd (clash others has new j k dev' inum' (ground arith) (λ x. ground arith) hk b a)
          | inr q ↦
              u k j dev' inum' hk hj (rw (sym (others k (λ x. ground arith))) a)
                (rw (sym (others j (λ x. ground arith))) b)
        ]
      ]
    ]
  where
    old : ((j : ℕ) → i ≢ j → ds j ≡ cs j) → Has cs i dev inum → Has ds i dev inum → Keeps cs ds
    old others (live, d, n) (live', d', n') k dev' inum' a = elim (Bool-cases (i == k)) [
      | inl p ↦
          let same : i ≡ k = ground arith in
          let (x, y, z) = subst (λ (l : ℕ). Has ds l dev' inum') (sym same) a in
          subst (λ (l : ℕ). Has cs l dev' inum') same (live, d ∙ sym d' ∙ y, n ∙ sym n' ∙ z)
      | inr p ↦ rw (sym (others k (λ x. ground arith))) a
    ]

    clash :
        ((j : ℕ) → i ≢ j → ds j ≡ cs j)
        → Has ds i dev inum
        → ((j : ℕ)
            → j < ninode
            → 0 < (cs j).ref
            → (cs j).inode.dev ≡ dev
            → (cs j).inode.inum ≢ inum)
        → (k j dev' inum' : ℕ) → i ≡ k
        → i ≢ j
        → j < ninode
        → Has ds k dev' inum'
        → ¬ Has ds j dev' inum'
    clash others (live, d, n) new k j dev' inum' same ne hj a b =
        let (x, y, z) = subst (λ (l : ℕ). Has ds l dev' inum') (sym same) a in
        let (x', y', z') =
          subst (λ (c : Cached). (0 < c.ref) × (c.inode.dev ≡ dev') × (c.inode.inum ≡ inum'))
            (others j ne) b in
        new j hj x' (y' ∙ sym y ∙ d) (z' ∙ sym z ∙ n)
