-- ===== src/Strings/Move.antt =====
-- `memmove` (string.c), and the two ways in which its ranges overlap.
use xv6_public_os_project.Strings.{Bytes, copy_up, copy_down, memmove}
use xv6_public_os_project.Base.{
  ℕ, zero, suc, ◌+◌, ◌-◌, ◌≤◌, ◌≡◌, ◌⊎◌, inl, inr, ◌&&◌, if◌then◌else◌, ltb, leb, arith, update,
  Bool-cases,
}

-- The memory after a move of the `n` bytes at `s` to `d`, all at once.
abbrev pub moved : ℕ → ℕ → ℕ → Bytes → Bytes
moved n d s m a = if leb d a && ltb a (d + n) then m (s + (a - d)) else m a

copy_up_lem :
    (n d s : ℕ) (m : Bytes) → (d ≤ s) ⊎ (s + n ≤ d) → (a : ℕ) → copy_up n d s m a ≡ moved n d s m a
unfolding copy_up
copy_up_lem zero d s m apart a = ground arith
copy_up_lem (suc n) d s m apart a =
    ground (arith, copy_up_lem n (d + 1) (s + 1) (update m d (m s)) (ground arith) a)

copy_down_lem : (n d s : ℕ) (m : Bytes) → s ≤ d → (a : ℕ) → copy_down n d s m a ≡ moved n d s m a
unfolding copy_down
copy_down_lem zero d s m le a = ground arith
copy_down_lem (suc n) d s m le a =
    ground (arith, copy_down_lem n d s (update m (d + n) (m (s + n))) le a)

-- After `memmove(d, s, n)` the `n` bytes at `d` are those that were at `s` before the call, also
-- where the ranges overlap either way, and all other bytes are as before.
pub memmove_lem : (d s n : ℕ) (m : Bytes) (a : ℕ) → memmove d s n m a ≡ moved n d s m a
unfolding memmove
memmove_lem d s n m a = elim (Bool-cases (ltb s d && ltb d (s + n))) [
  | inl e ↦ rw e (copy_down_lem n d s m (ground arith) a)
  | inr e ↦ rw e (copy_up_lem n d s m (ground arith) a)
]
