-- ===== src/File/Pipes.antt =====
-- `pipealloc` (pipe.c): two files for the ends of a new pipe. `kalloc` is the page allocator.
use xv6_public_os_project.File.{File, fd_pipe, blank, file_at, filealloc, fileclose, Release}
use xv6_public_os_project.File.Table.{Allocates, filealloc-Allocates, Closes, fileclose-Closes}
use xv6_public_os_project.Base.{
  ℕ, ◌<◌, ◌≡◌, ◌≢◌, refl, ap, sym, ◌∙◌, inl, inr, Bool, true, false, not, Option, none, some, List,
  ◌==◌, ==_iff, ==_refl, if◌then◌else◌, set, length, length-set, arith, Bool-cases, get_or-set_self,
  get_or-set_ne, get_or-set,
}

pub data PipeAlloc (S : Type 0) : Type 0 where
  panic : PipeAlloc S
  failed : List File → S → PipeAlloc S
  made : ℕ → ℕ → List File → S → PipeAlloc S

-- `fileclose` of a file that `pipealloc` has just allocated. A file without a reference has the type
-- FD_NONE, and `filealloc` leaves it so: `fileclose` has nothing to release.
unfoldable pub give_back : ℕ → List File → Option (List File)
give_back f fs = elim (fileclose f fs) [ none ↦ none | some (gs, r) ↦ some gs ]

-- One end of the pipe at `page`.
abbrev pub pipe_end : Bool → ℕ → File → File
pipe_end writing page f = record f {
  kind = fd_pipe;
  readable = not writing;
  writable = writing;
  pipe = page;
}

module _ {S : Type 0} (kalloc : S → ℕ × S) where
  abbrev pub gave_back : S → Option (List File) → PipeAlloc S
  gave_back s none = panic
  gave_back s (some fs) = failed fs s

  abbrev pub gave_back_two : S → ℕ → Option (List File) → PipeAlloc S
  gave_back_two s j none = panic
  gave_back_two s j (some fs) = gave_back s (give_back j fs)

  abbrev pub with_files : ℕ → ℕ → List File → ℕ × S → PipeAlloc S
  with_files i j fs (page, s) =
      if page == 0
      then gave_back_two s j (give_back i fs)
      else let gs = set fs i (pipe_end false page (file_at fs i)) in
        made i j (set gs j (pipe_end true page (file_at gs j))) s

  abbrev pub with_first : S → ℕ → List File × Option ℕ → PipeAlloc S
  with_first s i (fs, none) = gave_back s (give_back i fs)
  with_first s i (fs, some j) = with_files i j fs (kalloc s)

  abbrev pub with_none : S → List File × Option ℕ → PipeAlloc S
  with_none s (fs, none) = failed fs s
  with_none s (fs, some i) = with_first s i (filealloc fs)

  unfoldable pub pipealloc : List File → S → PipeAlloc S
  pipealloc fs s = with_none s (filealloc fs)

-- The reference counts of two tables are the same.
abbrev pub SameRefs : List File → List File → Type 0
SameRefs fs gs = (k : ℕ) → (file_at gs k).ref ≡ (file_at fs k).ref

-- What `pipealloc` promises: it fails with every reference count as before, or it makes a readable
-- and a writable end of one pipe of two files that had no reference, and leaves the others alone.
abbrev pub Makes : {S : Type 0} → List File → PipeAlloc S → Type 0
Makes fs panic = ⊥
Makes fs (failed gs s) = SameRefs fs gs
Makes fs (made i j gs s) =
    (i ≢ j)
    × ((file_at fs i).ref ≡ 0)
    × ((file_at fs j).ref ≡ 0)
    × ((page : ℕ) × (page ≢ 0)
        × (file_at gs i ≡ pipe_end false page (record (file_at fs i) { ref = 1 }))
        × (file_at gs j ≡ pipe_end true page (record (file_at fs j) { ref = 1 })))
    × ((k : ℕ) → i ≢ k → j ≢ k → file_at gs k ≡ file_at fs k)

-- A file put in the table, at each index.
ref-set :
    (fs : List File) (i k : ℕ) (p : File)
    → i < length fs
    → (file_at (set fs i p) k).ref ≡ (if i == k then p.ref else (file_at fs k).ref)
ref-set fs i k p lt = elim (Bool-cases (i == k)) [
  | inl e ↦ rw e (ap (λ (f : File). f.ref) (get_or-set fs i k p blank lt) ∙ rw e refl)
  | inr e ↦ rw e (ap (λ (f : File). f.ref) (get_or-set fs i k p blank lt) ∙ rw e refl)
]

-- What `give_back` promises of a file with one reference.
abbrev Returned : ℕ → List File → Option (List File) → Type 0
Returned i fs none = ⊥
Returned i fs (some gs) =
    (length gs ≡ length fs)
    × ((k : ℕ) → (file_at gs k).ref ≡ (if i == k then 0 else (file_at fs k).ref))

give_back-Returned :
    (i : ℕ) (fs : List File)
    → i < length fs
    → (file_at fs i).ref ≡ 1
    → Returned i fs (give_back i fs)
unfolding give_back
give_back-Returned i fs lt one = go (fileclose i fs) refl (fileclose-Closes fs i (omega arith))
  where
    go :
        (o : Option (List File × Release))
        → fileclose i fs ≡ o
        → Closes fs i o
        → Returned i fs (give_back i fs)
    go none e c = absurd (omega arith)
    go (some (gs, r)) e (inl c) = absurd (omega arith)
    go (some (gs, r)) e (inr c) =
        rw (e, give_back, c.2) (length-set fs i _, λ k. ref-set fs i k _ lt)

-- A file allocated: its reference, and the others'.
abbrev Taken : ℕ → List File → List File → Type 0
Taken i fs gs =
    (i < length fs) × ((file_at fs i).ref ≡ 0) × (gs ≡ set fs i (record (file_at fs i) { ref = 1 }))

Taken-ref :
    (i : ℕ) (fs gs : List File)
    → Taken i fs gs
    → (k : ℕ) → (file_at gs k).ref ≡ (if i == k then 1 else (file_at fs k).ref)
Taken-ref i fs gs t k = rw t.2 (ref-set fs i k (record (file_at fs i) { ref = 1 }) t.0)

Taken-length : (i : ℕ) (fs gs : List File) → Taken i fs gs → length gs ≡ length fs
Taken-length i fs gs t = rw t.2 (length-set fs i _)

Taken-zero :
    (i : ℕ) (fs gs : List File) → Taken i fs gs → (k : ℕ) → (i == k) ≡ true → (file_at fs k).ref ≡ 0
Taken-zero i fs gs t k e = rw (sym ((==_iff i k).0 e)) t.1

Taken-self :
    (i : ℕ) (fs gs : List File) → Taken i fs gs → file_at gs i ≡ record (file_at fs i) { ref = 1 }
Taken-self i fs gs t = rw t.2 (get_or-set_self fs i _ blank t.0)

Taken-other :
    (i : ℕ) (fs gs : List File) → Taken i fs gs → (k : ℕ) → i ≢ k → file_at gs k ≡ file_at fs k
Taken-other i fs gs t k ne = rw t.2 (get_or-set_ne fs i k _ blank ne)

-- A file taken and given back leaves every count as it was.
Returned_same :
    (i : ℕ) (fs gs hs : List File)
    → Taken i fs gs
    → ((k : ℕ) → (file_at hs k).ref ≡ (if i == k then 0 else (file_at gs k).ref))
    → SameRefs fs hs
Returned_same i fs gs hs t h k = elim (Bool-cases (i == k)) [
  | inl e ↦ h k ∙ (rw e (sym (Taken-zero i fs gs t k e)))
  | inr e ↦
      let m : (file_at gs k).ref ≡ (file_at fs k).ref = ground (arith, Taken-ref i fs gs t k) in
      h k ∙ (rw e m)
]

module _ {S : Type 0} (kalloc : S → ℕ × S) (s : S) where
  back-SameRefs :
      (i : ℕ) (fs gs : List File) → Taken i fs gs → Makes fs (gave_back kalloc s (give_back i gs))
  back-SameRefs i fs gs t = go (give_back i gs) (
      give_back-Returned i gs (omega (arith, t.0, Taken-length i fs gs t))
        (ground (arith, Taken-ref i fs gs t i, ==_refl i)))
    where
      go : (o : Option (List File)) → Returned i gs o → Makes fs (gave_back kalloc s o)
      go none r = elim r [ ]
      go (some hs) r = Returned_same i fs gs hs t r.1

  two-SameRefs :
      (i j : ℕ) (fs gs hs : List File)
      → Taken i fs gs
      → Taken j gs hs
      → i ≢ j
      → Makes fs (gave_back_two kalloc s j (give_back i hs))
  two-SameRefs i j fs gs hs t u ne = go (give_back i hs) (
      give_back-Returned i hs (omega (arith, t.0, Taken-length i fs gs t, Taken-length j gs hs u))
        (ground (arith, Taken-ref i fs gs t i, Taken-ref j gs hs u i, ==_refl i)))
    where
      go : (o : Option (List File)) → Returned i hs o → Makes fs (gave_back_two kalloc s j o)
      go none r = elim r [ ]
      go (some ks) r = go_on (give_back j ks) (
          give_back-Returned j ks (omega (arith, u.0, Taken-length j gs hs u, r.0))
            (ground (arith, r.1 j, Taken-ref j gs hs u j, ==_refl j)))
        where
          go_on : (o : Option (List File)) → Returned j ks o → Makes fs (gave_back kalloc s o)
          go_on none q = elim q [ ]
          go_on (some ls) q =
              Returned_same i fs gs ls t
                (λ k. ground (arith, q.1 k, r.1 k, Taken-ref j gs hs u k, Taken-zero j gs hs u k))

  -- The pipe's ends on two files that have been taken.
  made-Makes :
      (i j page : ℕ) (fs gs hs : List File)
      → Taken i fs gs
      → Taken j gs hs
      → i ≢ j
      → page ≢ 0
      → Makes fs (
          made i j
            (set
              (set hs i (pipe_end false page (file_at hs i)))
              j
              (pipe_end true page (file_at (set hs i (pipe_end false page (file_at hs i))) j)))
            s)
  made-Makes i j page fs gs hs t u ne nz =
      let p = pipe_end false page (file_at hs i) in
      let ms = set hs i p in
      let q = pipe_end true page (file_at ms j) in
      let len : length hs ≡ length fs = Taken-length j gs hs u ∙ Taken-length i fs gs t in
      let lt_i : i < length hs = omega (arith, t.0, len) in
      let lt_j : j < length ms = omega (arith, u.0, Taken-length j gs hs u, length-set hs i p) in
      let at_i = Taken-other j gs hs u i (λ e. ne (sym e)) ∙ Taken-self i fs gs t in
      let at_j =
        get_or-set_ne hs i j p blank ne
        ∙ Taken-self j gs hs u
        ∙ ap (λ (f : File). record f { ref = 1 }) (Taken-other i fs gs t j ne) in
      (
        ne,
        t.1,
        ap (λ (f : File). f.ref) (sym (Taken-other i fs gs t j ne)) ∙ u.1,
        (
          page,
          nz,
          get_or-set_ne ms j i q blank (λ e. ne (sym e))
              ∙ get_or-set_self hs i p blank lt_i
              ∙ ap (λ (f : File). pipe_end false page f) at_i,
          get_or-set_self ms j q blank lt_j ∙ ap (λ (f : File). pipe_end true page f) at_j,
        ),
        λ k ni nj.
            get_or-set_ne ms j k q blank nj
            ∙ get_or-set_ne hs i k p blank ni
            ∙ Taken-other j gs hs u k nj
            ∙ Taken-other i fs gs t k ni,
      )

module _ {S : Type 0} (kalloc : S → ℕ × S) where
  pages-Makes :
      (i j : ℕ) (fs gs hs : List File)
      → Taken i fs gs
      → Taken j gs hs
      → i ≢ j
      → (o : ℕ × S) → Makes fs (with_files kalloc i j hs o)
  pages-Makes i j fs gs hs t u ne (page, s) = elim (Bool-cases (page == 0)) [
    | inl e ↦ rw e (two-SameRefs kalloc s i j fs gs hs t u ne)
    | inr e ↦ rw e (made-Makes kalloc s i j page fs gs hs t u ne (λ z. ground arith))
  ]

  first-Makes :
      (s : S) (i : ℕ) (fs gs : List File)
      → Taken i fs gs
      → (o : List File × Option ℕ) → Allocates gs o
      → Makes fs (with_first kalloc s i o)
  first-Makes s i fs gs t (hs, none) a = rw a (back-SameRefs kalloc s i fs gs t)
  first-Makes s i fs gs t (hs, some j) a =
      let one : (file_at gs i).ref ≡ 1 = ground (arith, Taken-ref i fs gs t i, ==_refl i) in
      let ne : i ≢ j = λ e. omega (arith, one, a.0.1, ap (λ (k : ℕ). (file_at gs k).ref) e) in
      pages-Makes i j fs gs hs t (a.0.0, a.0.1, a.1) ne (kalloc s)

  none-Makes :
      (s : S) (fs : List File) (o : List File × Option ℕ)
      → Allocates fs o
      → Makes fs (with_none kalloc s o)
  none-Makes s fs (gs, none) a = λ k. rw a refl
  none-Makes s fs (gs, some i) a =
      first-Makes s i fs gs (a.0.0, a.0.1, a.1) (filealloc gs) (filealloc-Allocates gs)

  -- `pipealloc` never panics. It fails with every reference count as before, or it makes a readable
  -- and a writable end of one pipe, on a page that is not null, of two different files that had no
  -- reference; each has one then, and no other file changes.
  pub pipealloc-Makes : (fs : List File) (s : S) → Makes fs (pipealloc kalloc fs s)
  unfolding pipealloc
  pipealloc-Makes fs s = none-Makes s fs (filealloc fs) (filealloc-Allocates fs)
