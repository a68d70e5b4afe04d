-- ===== src/Strings.antt =====
-- string.c: the routines on memory and on strings that end in a 0. The memory is a function from
-- addresses to bytes. No routine is called on a range that runs over the end of the address space.
pub mod Move
pub mod Copying
mod Tests
use xv6_public_os_project.Base.{
  ℕ, zero, suc, ◌+◌, ◌%◌, ◌&&◌, ◌||◌, Option, none, some, ◌==◌, if◌then◌else◌, ltb, sub32, update,
}

abbrev pub Bytes : Type 0
Bytes = ℕ → ℕ

-- The upward loop of `memmove`.
unfoldable pub copy_up : ℕ → ℕ → ℕ → Bytes → Bytes
copy_up zero d s m = m
copy_up (suc n) d s m = copy_up n (d + 1) (s + 1) (update m d (m s))

-- The downward loop, on the `n` bytes in front of `d + n` and `s + n`.
unfoldable pub copy_down : ℕ → ℕ → ℕ → Bytes → Bytes
copy_down zero d s m = m
copy_down (suc n) d s m = copy_down n d s (update m (d + n) (m (s + n)))

unfoldable pub memmove : ℕ → ℕ → ℕ → Bytes → Bytes
memmove d s n m = if ltb s d && ltb d (s + n) then copy_down n d s m else copy_up n d s m

-- The result of `memcmp`, as an int pattern.
unfoldable pub memcmp : ℕ → ℕ → ℕ → Bytes → ℕ
memcmp zero p q m = 0
memcmp (suc n) p q m = if m p == m q then memcmp n (p + 1) (q + 1) m else sub32 (m p) (m q)

unfoldable pub strncmp : ℕ → ℕ → ℕ → Bytes → ℕ
strncmp zero p q m = 0
strncmp (suc n) p q m =
    let rest = strncmp n (p + 1) (q + 1) m in
    if m p == 0 then sub32 (m p) (m q) else if m p == m q then rest else sub32 (m p) (m q)

-- The second loop of `strncpy`.
unfoldable pub pad : ℕ → ℕ → Bytes → Bytes
pad zero s m = m
pad (suc n) s m = pad n (s + 1) (update m s 0)

-- `strncpy`; an `n` that is not positive is 0.
unfoldable pub strncpy : ℕ → ℕ → ℕ → Bytes → Bytes
strncpy zero s t m = m
strncpy (suc n) s t m =
    let rest = strncpy n (s + 1) (t + 1) (update m s (m t)) in
    if m t == 0 then pad n (s + 1) (update m s (m t)) else rest

-- The loop of `safestrcpy` with room for `n` bytes and the end, and the end behind it.
unfoldable pub copy_end : ℕ → ℕ → ℕ → Bytes → Bytes
copy_end zero s t m = update m s 0
copy_end (suc n) s t m =
    let rest = copy_end n (s + 1) (t + 1) (update m s (m t)) in
    if m t == 0 then update (update m s (m t)) (s + 1) 0 else rest

-- `safestrcpy`; an `n` that is not positive is 0.
unfoldable pub safestrcpy : ℕ → ℕ → ℕ → Bytes → Bytes
safestrcpy zero s t m = m
safestrcpy (suc n) s t m = copy_end n s t m

-- `strlen`, of a string that ends within `fuel` bytes.
unfoldable pub strlen : ℕ → ℕ → Bytes → Option ℕ
strlen zero s m = none
strlen (suc fuel) s m = let rest = strlen fuel (s + 1) m in if m s == 0 then some 0 else next rest
  where
    next : Option ℕ → Option ℕ
    next none = none
    next (some k) = some (k + 1)
