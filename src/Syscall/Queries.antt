-- ===== src/Syscall/Queries.antt =====
-- `get_uncle_count` (proc.c) and `sys_get_process_lifetime` (sysproc.c).
use xv6_public_os_project.Proc.Types.{Proc, is_unused, is_proc, proc_at}
use xv6_public_os_project.Proc.Table.{active}
use xv6_public_os_project.Base.{
  ℕ, zero, suc, ◌+◌, ◌<◌, ◌≡◌, refl, ap, ◌∙◌, true, not, ◌&&◌, Option, none, some, List, [], ◌∷◌,
  ◌==◌, if◌then◌else◌, sub32, minus_one, arith, ==_refl,
}

-- The first slot in use with the pid.
unfoldable pub find_pid : ℕ → List Proc → Option Proc
find_pid pid [] = none
find_pid pid (p ∷ ps) = if not (is_unused p.state) && p.pid == pid then some p else find_pid pid ps

-- The loop that counts the children of slot `g` from slot `i` on, but for slot `parent`.
unfoldable pub uncle_loop : ℕ → ℕ → List Proc → ℕ → ℕ
uncle_loop g parent [] i = 0
uncle_loop g parent (p ∷ ps) i =
    if (not (is_unused p.state) && is_proc p.parent g) && not (i == parent)
    then suc (uncle_loop g parent ps (i + 1))
    else uncle_loop g parent ps (i + 1)

unfoldable pub uncles_of : Option ℕ → List Proc → ℕ
uncles_of none ps = minus_one
uncles_of (some parent) ps = elim (proc_at ps parent).parent [
  | none ↦ 0
  | some g ↦ uncle_loop g parent ps 0
]

unfoldable pub get_uncle_count : ℕ → List Proc → ℕ
get_uncle_count pid ps = elim (find_pid pid ps) [
  | none ↦ minus_one
  | some p ↦ uncles_of p.parent ps
]

unfoldable pub get_process_lifetime : Option ℕ → List Proc → ℕ → ℕ
get_process_lifetime none ps now = minus_one
get_process_lifetime (some pid) ps now = elim (find_pid pid ps) [
  | none ↦ minus_one
  | some p ↦ sub32 now p.createtime
]

-- The processes whose parent is slot `g`.
abbrev pub child_count : ℕ → List Proc → ℕ
child_count g [] = 0
child_count g (p ∷ ps) =
    (if not (is_unused p.state) && is_proc p.parent g then 1 else 0) + child_count g ps

uncle_loop-past :
    (g parent : ℕ) (ps : List Proc) (i : ℕ)
    → parent < i
    → uncle_loop g parent ps i ≡ child_count g ps
unfolding uncle_loop
uncle_loop-past g parent [] i h = refl
uncle_loop-past g parent (p ∷ ps) i h = ground (arith, uncle_loop-past g parent ps (i + 1))

uncle_loop-counts :
    (g : ℕ) (ps : List Proc) (i j t : ℕ)
    → t ≡ i + j
    → active ps j ≡ true
    → is_proc (proc_at ps j).parent g ≡ true
    → uncle_loop g t ps i + 1 ≡ child_count g ps
unfolding uncle_loop
uncle_loop-counts g [] i j t e a c = ground arith
uncle_loop-counts g (p ∷ ps) i zero t e a c = ground (arith, uncle_loop-past g t ps (i + 1))
uncle_loop-counts g (p ∷ ps) i (suc j) t e a c =
    ground (arith, uncle_loop-counts g ps (i + 1) j t (omega arith) a c)

count-found :
    (pid : ℕ) (ps : List Proc) (p : Proc)
    → find_pid pid ps ≡ some p
    → get_uncle_count pid ps ≡ uncles_of p.parent ps
unfolding get_uncle_count
count-found pid ps p e = rw (e, get_uncle_count)

uncles_of-some :
    (parent g : ℕ) (ps : List Proc)
    → (proc_at ps parent).parent ≡ some g
    → uncles_of (some parent) ps ≡ uncle_loop g parent ps 0
unfolding uncles_of
uncles_of-some parent g ps c = rw (c, uncles_of)

-- For a process whose parent is in use and has a parent itself: with the parent, its uncles are all
-- the processes whose parent is the grandparent.
pub get_uncle_count_lem :
    (pid parent g : ℕ) (ps : List Proc) (p : Proc)
    → find_pid pid ps ≡ some p
    → p.parent ≡ some parent
    → active ps parent ≡ true
    → (proc_at ps parent).parent ≡ some g
    → get_uncle_count pid ps + 1 ≡ child_count g ps
get_uncle_count_lem pid parent g ps p e q a c =
    ap (λ (n : ℕ). n + 1)
      (count-found pid ps p e
        ∙ ap (λ (o : Option ℕ). uncles_of o ps) q
        ∙ uncles_of-some parent g ps c)
    ∙ uncle_loop-counts g ps 0 parent parent (omega arith) a
        (ap (λ (o : Option ℕ). is_proc o g) c ∙ ==_refl g)
