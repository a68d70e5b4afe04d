-- ===== src/Memory/Tests.antt =====
-- An allocator over a few pages behind a kernel that ends at 0x80200000.
use xv6_public_os_project.Memory.Kalloc.{pgsize, Kmem, kfree, kalloc, freerange}
use xv6_public_os_project.Memory.FreeList.{
  Holds, Frees, kfree-Frees, Allocates, kalloc-Allocates, Leaves, add_pages, first_page,
  freerange-Holds,
}
use xv6_public_os_project.Base.{ℕ, ◌-◌, ◌/◌, refl, false, [], ◌∷◌, arith}

abbrev end : ℕ
end = 0x80200000

abbrev empty : Kmem
empty = record { use_lock = false; freelist = 0; word_at = λ a. 0 }

abbrev one : Kmem
one = record { use_lock = false; freelist = 0x80300000; word_at = λ a. 0 }

one-Holds : Holds end one (0x80300000 ∷ [])
one-Holds = (refl, record { aligned = refl; above = omega arith; below = omega arith }, refl, refl)

kfree-Frees_example : Frees end 0x80400000 (0x80300000 ∷ []) (kfree end 0x80400000 one)
kfree-Frees_example =
    kfree-Frees end (omega arith) 0x80400000 one (0x80300000 ∷ []) (omega arith) refl one-Holds

kalloc-Allocates_example : Allocates end (0x80300000 ∷ []) one (kalloc one)
kalloc-Allocates_example = kalloc-Allocates end (omega arith) one (0x80300000 ∷ []) one-Holds

freerange-Holds_example :
    Leaves end
      (add_pages
        ((0x80408000 - first_page 0x80400001) / pgsize)
        (first_page 0x80400001)
        (0x80300000 ∷ []))
      (freerange end 0x80400001 0x80408000 one)
freerange-Holds_example =
    freerange-Holds end (omega arith) 0x80400001 0x80408000 one (0x80300000 ∷ []) (omega arith)
      (omega arith) (omega arith) (omega arith) one-Holds
