-- ===== src/Memory/Kalloc.antt =====
-- The operations of kalloc.c. `word_at` is the physical memory that the free pages occupy, as 32-bit
-- words at their addresses, for the free list runs through the pages; 0 is the null pointer. The
-- constants are those of memlayout.h and mmu.h; `end`, where the kernel's data ends, is the linker's.
use xv6_public_os_project.Base.{
  ℕ, zero, suc, ◌+◌, ◌-◌, ◌/◌, ◌%◌, Bool, true, false, not, ◌&&◌, ◌||◌, Option, none, some, ◌==◌,
  ltb, leb, if◌then◌else◌, sub32, add32, update,
}

abbrev pub pgsize : ℕ
pgsize = 4096

abbrev pub kernbase : ℕ
kernbase = 0x80000000

abbrev pub phystop : ℕ
phystop = 0xE000000

-- V2P(a)
abbrev pub v2p : ℕ → ℕ
v2p a = sub32 a kernbase

-- PGROUNDUP(sz): the low twelve bits of the sum are cleared.
unfoldable pub pg_round_up : ℕ → ℕ
pg_round_up sz = let a = add32 sz (pgsize - 1) in a - a % pgsize

pub record Kmem : Type 0 where
  pub use_lock : Bool
  pub freelist : ℕ
  pub word_at : ℕ → ℕ

-- `memset(v, 1, PGSIZE)`, by words.
abbrev pub fill_junk : ℕ → (ℕ → ℕ) → ℕ → ℕ
fill_junk v w a = if leb v a && ltb a (v + pgsize) then 0x01010101 else w a

-- The guard of `kfree`.
unfoldable pub is_bad_page : ℕ → ℕ → Bool
is_bad_page end v = (not (v % pgsize == 0) || ltb v end) || leb phystop (v2p v)

-- `none` is the panic.
unfoldable pub kfree : ℕ → ℕ → Kmem → Option Kmem
kfree end v k =
    if is_bad_page end v
    then none
    else some (record k { freelist = v; word_at = update (fill_junk v k.word_at) v k.freelist })

unfoldable pub kalloc : Kmem → Kmem × ℕ
kalloc k =
    if k.freelist == 0 then (k, 0) else (record k { freelist = k.word_at k.freelist }, k.freelist)

-- The loop of `freerange`, with `fuel` rounds left.
unfoldable pub free_loop : ℕ → ℕ → ℕ → ℕ → Kmem → Option Kmem
free_loop zero end p vend k = some k
free_loop (suc fuel) end p vend k = elim (leb (add32 p pgsize) vend) [
  | false ↦ some k
  | true ↦ elim (kfree end p k) [
    | none ↦ none
    | some k' ↦ free_loop fuel end (add32 p pgsize) vend k'
  ]
]

-- No more pages lie in front of `vend` than this.
unfoldable pub freerange : ℕ → ℕ → ℕ → Kmem → Option Kmem
freerange end vstart vend k = free_loop (vend / pgsize + 1) end (pg_round_up vstart) vend k

unfoldable pub kinit1 : ℕ → ℕ → ℕ → Kmem → Option Kmem
kinit1 end vstart vend k = freerange end vstart vend (record k { use_lock = false })

unfoldable pub kinit2 : ℕ → ℕ → ℕ → Kmem → Option Kmem
kinit2 end vstart vend k = elim (freerange end vstart vend k) [
  | none ↦ none
  | some k' ↦ some (record k' { use_lock = true })
]
