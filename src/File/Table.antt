-- ===== src/File/Table.antt =====
-- The reference counts of the file table: what each operation does to a file that is held.
use xv6_public_os_project.File.{
  File, fd_none, blank, nfile, file_at, find_free, filealloc, filedup, fileclose, Release, nothing,
  released,
}
use xv6_public_os_project.Base.{
  ℕ, zero, suc, ◌+◌, ◌-◌, ◌<◌, ◌≡◌, ◌⊎◌, inl, inr, refl, ap, sym, Option, none, some, List, [], ◌∷◌,
  ◌==◌, ==_iff, int_lt, add32, sub32, half_word, ◌≤◌, set, length, arith, update, Bool-cases,
  get_or-set_self, get_or-set_ne, subst, replicate,
}

-- The table, and how many references each file has, in the tables of the processes and in calls.
pub record World : Type 0 where
  pub files : List File
  pub held : ℕ → ℕ

abbrev pub Counted : World → Type 0
Counted w = (i : ℕ) → (file_at w.files i).ref ≡ w.held i

held-lt : (fs : List File) (i : ℕ) → 0 < (file_at fs i).ref → i < length fs
held-lt [] i h = absurd (omega arith)
held-lt (f ∷ fs) zero h = omega arith
held-lt (f ∷ fs) (suc i) h = omega (arith, held-lt fs i h)

-- A file changed in the table.
set-Counted :
    (w : World) (f n : ℕ) (p : File)
    → Counted w
    → f < length w.files
    → p.ref ≡ n
    → Counted (record { files = set w.files f p; held = update w.held f n })
set-Counted w f n p c lt e i = elim (Bool-cases (f == i)) [
  | inl same ↦ rw (same, sym ((==_iff f i).0 same), get_or-set_self w.files f p blank lt) e
  | inr other ↦ rw (other, get_or-set_ne w.files f i p blank (λ q. ground arith)) (c i)
]

-- Where `filealloc` finds a file: in the table, with no reference.
abbrev pub Free : List File → ℕ → Type 0
Free fs i = (i < length fs) × ((file_at fs i).ref ≡ 0)

find_free-Free :
    (fs : List File) (i : ℕ) → (j : ℕ) → find_free fs i ≡ some j → (k : ℕ) × (j ≡ i + k) × Free fs k
unfolding find_free
find_free-Free [] i j e = ground arith
find_free-Free (f ∷ fs) i j e = elim (Bool-cases (f.ref == 0)) [
  | inl z ↦ (0, ground arith, (ground arith, ground arith))
  | inr nz ↦
      let (k, e', h) = find_free-Free fs (i + 1) j (ground arith) in
      (suc k, omega arith, (omega arith, h.1))
]

-- What `filealloc` promises: a file without a reference, which has one then, or none is free.
abbrev pub Allocates : List File → List File × Option ℕ → Type 0
Allocates fs (gs, none) = gs ≡ fs
Allocates fs (gs, some i) = Free fs i × (gs ≡ set fs i (record (file_at fs i) { ref = 1 }))

pub filealloc-Allocates : (fs : List File) → Allocates fs (filealloc fs)
unfolding filealloc
filealloc-Allocates fs = go (find_free fs 0) refl
  where
    go : (o : Option ℕ) → find_free fs 0 ≡ o → Allocates fs (filealloc fs)
    go none e = rw (e, filealloc) refl
    go (some j) e =
        let (k, e', h) = find_free-Free fs 0 j e in
        let same : k ≡ j = omega arith in rw (e, filealloc) (rw same at h, refl)

-- What `filedup` promises; `none` is the panic.
abbrev pub Dups : List File → ℕ → Option (List File) → Type 0
Dups fs f none = (file_at fs f).ref ≡ 0
Dups fs f (some gs) =
    (0 < (file_at fs f).ref)
    × (gs ≡ set fs f (record (file_at fs f) { ref = (file_at fs f).ref + 1 }))

filedup-Dups : (fs : List File) (f : ℕ) → (file_at fs f).ref < half_word → Dups fs f (filedup f fs)
unfolding filedup
filedup-Dups fs f small = elim (Bool-cases (int_lt (file_at fs f).ref 1)) [
  | inl e ↦ rw (e, filedup) (ground arith)
  | inr e ↦
      let one : add32 (file_at fs f).ref 1 ≡ (file_at fs f).ref + 1 = omega arith in
      rw (e, filedup) (ground arith, rw one refl)
]

-- What `fileclose` promises: it gives up one reference, and only with the last one it takes the
-- file out of use and has something to release.
abbrev pub Closes : List File → ℕ → Option (List File × Release) → Type 0
Closes fs f none = (file_at fs f).ref ≡ 0
Closes fs f (some (gs, r)) =
    ((1 < (file_at fs f).ref)
      × (r ≡ nothing)
      × (gs ≡ set fs f (record (file_at fs f) { ref = (file_at fs f).ref - 1 })))
    ⊎ (((file_at fs f).ref ≡ 1)
        × (r ≡ released (file_at fs f))
        × (gs ≡ set fs f (record (file_at fs f) { ref = 0; kind = fd_none })))

pub fileclose-Closes :
    (fs : List File) (f : ℕ) → (file_at fs f).ref < half_word → Closes fs f (fileclose f fs)
unfolding fileclose
fileclose-Closes fs f small = elim (Bool-cases (int_lt (file_at fs f).ref 1)) [
  | inl e ↦ rw (e, fileclose) (ground arith)
  | inr e ↦
      let one : sub32 (file_at fs f).ref 1 ≡ (file_at fs f).ref - 1 = ground arith in
      elim (Bool-cases (int_lt 0 (sub32 (file_at fs f).ref 1))) [
        | inl g ↦ rw (e, g, fileclose) (inl (ground arith, refl, rw one refl))
        | inr g ↦ rw (e, g, fileclose) (inr (ground arith, refl, refl))
      ]
]

-- The operations on a table in which `held` counts the references: a file is duplicated or closed
-- by a holder of a reference to it.
pub data Step (w : World) : World → Type 0 where
  allocs :
      (fs : List File) (i : ℕ)
      → filealloc w.files ≡ (fs, some i)
      → Step w (record { files = fs; held = update w.held i 1 })
  dups :
      (fs : List File) (f : ℕ)
      → 0 < w.held f
      → filedup f w.files ≡ some fs
      → Step w (record { files = fs; held = update w.held f (w.held f + 1) })
  closes :
      (fs : List File) (f : ℕ) (r : Release)
      → 0 < w.held f
      → fileclose f w.files ≡ some (fs, r)
      → Step w (record { files = fs; held = update w.held f (w.held f - 1) })

-- A number of operations.
pub data Reach (w : World) : ℕ → World → Type 0 where
  here : Reach w 0 w
  next : {n : ℕ} {v u : World} → Reach w n v → Step v u → Reach w (suc n) u

Step-Counted : {w u : World} → ((i : ℕ) → w.held i < half_word) → Counted w → Step w u → Counted u
Step-Counted {w} few c (allocs fs i e) =
    let (free, to) = subst (Allocates w.files) e (filealloc-Allocates w.files) in
    rw to (set-Counted w i 1 (record (file_at w.files i) { ref = 1 }) c free.0 refl)
Step-Counted {w} few c (dups fs f h e) =
    let d = subst (Dups w.files f) e (filedup-Dups w.files f (omega (arith, c f, few f))) in
    rw d.1 (
      set-Counted w f _ (record (file_at w.files f) { ref = (file_at w.files f).ref + 1 }) c
        (held-lt w.files f d.0) (ap (λ (n : ℕ). n + 1) (c f)))
Step-Counted {w} few c (closes fs f r h e) =
    let lt = held-lt w.files f (omega (arith, c f)) in
    elim (subst (Closes w.files f) e (fileclose-Closes w.files f (omega (arith, c f, few f)))) [
      | inl d ↦ rw d.2 (
          set-Counted w f _ (record (file_at w.files f) { ref = (file_at w.files f).ref - 1 }) c lt
            (ap (λ (n : ℕ). n - 1) (c f)))
      | inr d ↦ rw d.2 (
          set-Counted w f _ (record (file_at w.files f) { ref = 0; kind = fd_none }) c lt
            (omega (arith, c f, d.0)))
    ]

-- The references to one file are one more than the operations at most.
Step-held : {w u : World} (n : ℕ) → ((i : ℕ) → w.held i ≤ n) → Step w u → (i : ℕ) → u.held i ≤ suc n
Step-held {w} n h (allocs fs f e) i = ground (arith, h i)
Step-held {w} n h (dups fs f pos e) i = ground (arith, h i, h f)
Step-held {w} n h (closes fs f r pos e) i = ground (arith, h i, h f)

Reach-held : {w u : World} (n : ℕ) → ((i : ℕ) → w.held i ≡ 0) → Reach w n u → (i : ℕ) → u.held i ≤ n
Reach-held _ z here i = omega (arith, z i)
Reach-held _ z (next {n = n} r st) i = Step-held n (Reach-held n z r) st i

Reach-Counted :
    {w u : World} (n : ℕ)
    → n < half_word
    → ((i : ℕ) → w.held i ≡ 0)
    → Counted w
    → Reach w n u
    → Counted u
Reach-Counted _ bound z c here = c
Reach-Counted _ bound z c (next {n = n} r st) =
    Step-Counted (λ i. omega (arith, Reach-held n z r i)) (Reach-Counted n (omega arith) z c r) st

-- The table at start-up.
abbrev pub empty : World
empty = record { files = replicate nfile blank; held = λ i. 0 }

file_at-blank : (n i : ℕ) → (file_at (replicate n blank) i).ref ≡ 0
file_at-blank zero i = refl
file_at-blank (suc n) zero = refl
file_at-blank (suc n) (suc i) = file_at-blank n i

-- In the same runs `filealloc` hands out no file that is held.
pub filealloc_unshared :
    (w : World) (fs : List File) (n i : ℕ)
    → n < half_word
    → Reach empty n w
    → filealloc w.files ≡ (fs, some i)
    → w.held i ≡ 0
filealloc_unshared w fs n i bound reach e =
    let (free, to) = subst (Allocates w.files) e (filealloc-Allocates w.files) in
    omega (arith, free.1, Reach-Counted n bound (λ j. refl) (file_at-blank nfile) reach i)
