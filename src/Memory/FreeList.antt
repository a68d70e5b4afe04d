-- ===== src/Memory/FreeList.antt =====
-- The free list as a list of pages, and what each operation makes of it.
use xv6_public_os_project.Memory.Kalloc.{
  pgsize, kernbase, phystop, pg_round_up, Kmem, fill_junk, is_bad_page, kfree, kalloc, free_loop,
  freerange,
}
use xv6_public_os_project.Base.{
  ℕ, zero, suc, ◌+◌, ◌-◌, ◌*◌, ◌/◌, ◌%◌, ◌≤◌, ◌<◌, ◌≡◌, ◌≢◌, refl, ap, ◌∙◌, sym, ◌⊎◌, inl, inr,
  true, false, Option, none, some, List, [], ◌∷◌, ◌==◌, leb, add32, update, word, All, contains,
  arith, Bool-cases, subst, ==_refl,
}

-- A page that `kfree` accepts.
pub record IsPage (end v : ℕ) : Type 0 where
  pub aligned : v % pgsize ≡ 0
  pub above : end ≤ v
  pub below : v < kernbase + phystop

-- The pointer `p` leads through exactly these pages, which are all different.
abbrev pub Chain : ℕ → (ℕ → ℕ) → ℕ → List ℕ → Type 0
Chain end w p [] = p ≡ 0
Chain end w p (v ∷ vs) = (p ≡ v) × IsPage end v × (contains vs v ≡ false) × Chain end w (w v) vs

abbrev pub Holds : ℕ → Kmem → List ℕ → Type 0
Holds end k vs = Chain end k.word_at k.freelist vs

-- A write to the words of a page that is not on the list does not break it.
Chain-write :
    (end v n : ℕ) (w : ℕ → ℕ) (p : ℕ) (vs : List ℕ)
    → v % pgsize ≡ 0
    → contains vs v ≡ false
    → Chain end w p vs
    → Chain end (update (fill_junk v w) v n) p vs
Chain-write end v n w p [] al out c = c
Chain-write end v n w p (u ∷ vs) al out (e, page, new, rest) = (
  e,
  page,
  new,
  subst (λ (x : ℕ). Chain end (update (fill_junk v w) v n) x vs) (sym same)
      (Chain-write end v n w (w u) vs al (ground arith) rest),
)
  where
    same : update (fill_junk v w) v n u ≡ w u
    same = ground (arith, page.aligned, al)

IsPage-good : (end v : ℕ) → kernbase ≤ end → IsPage end v → is_bad_page end v ≡ false
unfolding is_bad_page
IsPage-good end v h page = ground arith

good-IsPage : (end v : ℕ) → kernbase ≤ end → v < word → is_bad_page end v ≡ false → IsPage end v
unfolding is_bad_page
good-IsPage end v h small e = record {
  aligned = ground arith;
  above = ground arith;
  below = ground arith;
}

-- What `kfree` does with an address: it panics, or the page is now the first of the free list.
abbrev pub Frees : ℕ → ℕ → List ℕ → Option Kmem → Type 0
Frees end v vs none = ¬ IsPage end v
Frees end v vs (some k') = IsPage end v × Holds end k' (v ∷ vs)

-- What `kalloc` returns, and what it leaves of the free list.
abbrev pub Allocates : ℕ → List ℕ → Kmem → Kmem × ℕ → Type 0
Allocates end [] k (k', v) = (v ≡ 0) × (k' ≡ k)
Allocates end (u ∷ us) k (k', v) =
    (v ≡ u)
    × IsPage end v
    × (v ≢ 0)
    × Holds end k' us
    × (contains us v ≡ false)
    × (k'.use_lock ≡ k.use_lock)

-- The free list after `n` pages from `p` on have been put in front of it, one by one.
abbrev pub add_pages : ℕ → ℕ → List ℕ → List ℕ
add_pages zero p vs = vs
add_pages (suc n) p vs = add_pages n (p + pgsize) (p ∷ vs)

abbrev pub Outside : ℕ → ℕ → List ℕ → Type 0
Outside lo hi vs = All (λ u. (u < lo) ⊎ (hi ≤ u)) vs

Outside-new : (lo hi : ℕ) (vs : List ℕ) → lo < hi → Outside lo hi vs → contains vs lo ≡ false
Outside-new lo hi [] h o = refl
Outside-new lo hi (v ∷ vs) h o = ground (arith, Outside-new lo hi vs h o.1)

Outside-shrink : (lo lo' hi : ℕ) (vs : List ℕ) → lo ≤ lo' → Outside lo hi vs → Outside lo' hi vs
Outside-shrink lo lo' hi [] h o = tt
Outside-shrink lo lo' hi (v ∷ vs) h o = (omega arith, Outside-shrink lo lo' hi vs h o.1)

-- `freerange` has not panicked, and has left this free list.
abbrev pub Leaves : ℕ → List ℕ → Option Kmem → Type 0
Leaves end vs none = ⊥
Leaves end vs (some k') = Holds end k' vs

-- The first page at or above an address, as long as that does not wrap.
abbrev pub first_page : ℕ → ℕ
first_page v = (v + (pgsize - 1)) / pgsize * pgsize

module _ (end : ℕ) (high : kernbase ≤ end) where
  -- `kfree` panics exactly on an address that is no page of the allocator's; it puts a page that is
  -- not free in front of the free list, through the page's own first word, and the rest of the list
  -- stays intact.
  pub kfree-Frees :
      (v : ℕ) (k : Kmem) (vs : List ℕ)
      → v < word
      → contains vs v ≡ false
      → Holds end k vs
      → Frees end v vs (kfree end v k)
  unfolding kfree
  kfree-Frees v k vs small new c = elim (Bool-cases (is_bad_page end v)) [
    | inl bad ↦ rw bad (λ page. ground (arith, IsPage-good end v high page))
    | inr good ↦
        let page = good-IsPage end v high small good in
        rw good (
          page,
          (
            refl,
            page,
            new,
            subst (λ (x : ℕ). Chain end (update (fill_junk v k.word_at) v k.freelist) x vs)
                (sym (own v k))
                (Chain-write end v k.freelist k.word_at k.freelist vs page.aligned new c),
          ),
        )
  ]
    where
      own : (v : ℕ) (k : Kmem) → update (fill_junk v k.word_at) v k.freelist v ≡ k.freelist
      own v k = rw (==_refl v)

  -- `kalloc` returns the first page of the free list, which holds the others then and not that page;
  -- where no page is free it returns 0, which is no page, and changes nothing.
  pub kalloc-Allocates : (k : Kmem) (vs : List ℕ) → Holds end k vs → Allocates end vs k (kalloc k)
  unfolding kalloc
  kalloc-Allocates k [] c = (ground arith, ground arith)
  kalloc-Allocates k (v ∷ vs) (e, page, new, rest) =
      let nz : (k.freelist == 0) ≡ false = ground (arith, page.above) in
      rw nz (
        e,
        subst (IsPage end) (sym e) page,
        omega (arith, page.above),
        subst (λ (x : ℕ). Chain end k.word_at (k.word_at x) vs) (sym e) rest,
        subst (λ (x : ℕ). contains vs x ≡ false) (sym e) new,
        refl,
      )

  kfree-page :
      (v : ℕ) (k : Kmem) (vs : List ℕ) (o : Option Kmem)
      → kfree end v k ≡ o
      → IsPage end v
      → contains vs v ≡ false
      → Frees end v vs o
      → (k' : Kmem) × (kfree end v k ≡ some k') × Holds end k' (v ∷ vs)
  kfree-page v k vs none e page new f = absurd (f page)
  kfree-page v k vs (some k') e page new f = (k', e, f.1)

  free_loop-stop :
      (fuel p vend : ℕ) (k : Kmem)
      → leb (add32 p pgsize) vend ≡ false
      → free_loop (suc fuel) end p vend k ≡ some k
  unfolding free_loop
  free_loop-stop fuel p vend k e = rw (e, free_loop)

  free_loop-next :
      (fuel p vend : ℕ) (k k' : Kmem)
      → leb (add32 p pgsize) vend ≡ true
      → kfree end p k ≡ some k'
      → free_loop (suc fuel) end p vend k ≡ free_loop fuel end (add32 p pgsize) vend k'
  unfolding free_loop
  free_loop-next fuel p vend k k' e f = rw (e, f, free_loop)

  free_loop-Leaves :
      (fuel p vend n : ℕ) (k : Kmem) (vs : List ℕ)
      → n < fuel
      → p % pgsize ≡ 0
      → end ≤ p
      → p + n * pgsize ≤ vend
      → vend < p + n * pgsize + pgsize
      → vend ≤ kernbase + phystop
      → Outside p vend vs
      → Holds end k vs
      → Leaves end (add_pages n p vs) (free_loop fuel end p vend k)
  free_loop-Leaves zero p vend n k vs f al lo fit last hi out c = absurd (omega arith)
  free_loop-Leaves (suc fuel) p vend zero k vs f al lo fit last hi out c =
      subst (Leaves end vs) (sym (free_loop-stop fuel p vend k (ground arith))) c
  free_loop-Leaves (suc fuel) p vend (suc n) k vs f al lo fit last hi out c =
      let page : IsPage end p = record { aligned = al; above = lo; below = omega arith } in
      let (k', e, c') =
        kfree-page p k vs (kfree end p k) refl page (Outside-new p vend vs (omega arith) out)
          (kfree-Frees p k vs (omega arith) (Outside-new p vend vs (omega arith) out) c) in
      let near : add32 p pgsize ≡ p + pgsize = omega arith in
      subst (Leaves end (add_pages (suc n) p vs))
        (sym (
          free_loop-next fuel p vend k k' (ground arith) e
          ∙ ap (λ (x : ℕ). free_loop fuel end x vend k') near))
        (free_loop-Leaves fuel (p + pgsize) vend n k' (p ∷ vs) (omega arith) (omega arith)
          (omega arith) (omega arith) (omega arith) hi
          (omega arith, Outside-shrink p (p + pgsize) vend vs (omega arith) out) c')

  pg_round_up_lem : (v : ℕ) → v + pgsize ≤ word → pg_round_up v ≡ first_page v
  unfolding pg_round_up
  pg_round_up_lem v h = omega arith

  -- `freerange`, between the kernel's end and the top of memory, never panics, and puts every whole
  -- page of the range in front of the free list, each once, if none of them was on it.
  pub freerange-Holds :
      (vstart vend : ℕ) (k : Kmem) (vs : List ℕ)
      → end ≤ vstart
      → first_page vstart ≤ vend
      → vend ≤ kernbase + phystop
      → Outside (first_page vstart) vend vs
      → Holds end k vs
      → Leaves end
          (add_pages ((vend - first_page vstart) / pgsize) (first_page vstart) vs)
          (freerange end vstart vend k)
  unfolding freerange
  freerange-Holds vstart vend k vs lo fit hi out c = rw (pg_round_up_lem vstart (omega arith)) (
      free_loop-Leaves (vend / pgsize + 1) (first_page vstart) vend
        ((vend - first_page vstart) / pgsize) k vs (omega arith) (omega arith) (omega arith)
        (omega arith) (omega arith) hi out c)
