-- ===== src/Syscall/DigitRoot.antt =====
-- `sys_find_digit_root` (sysproc.c). A negative number has no digits for the loop: its root is 0.
use xv6_public_os_project.Base.{
  ℕ, zero, suc, ◌+◌, ◌-◌, ◌*◌, ◌/◌, ◌%◌, ◌<◌, ◌≡◌, false, ◌||◌, Option, none, some, ◌==◌, ltb, leb,
  if◌then◌else◌, half_word, minus_one, arith, Bool-cases, inl, inr, ◌∙◌, ap,
}

-- The loop, with `fuel` rounds left; `none` means that they were not enough.
unfoldable pub digit_loop : ℕ → ℕ → ℕ → Option ℕ
digit_loop zero num root = none
digit_loop (suc fuel) num root =
    let n = if num == 0 then root else num in
    let r = if num == 0 then 0 else root in
    let rest = digit_loop fuel (n / 10) (r + n % 10) in
    if ltb 0 num || ltb 9 root then rest else some root

unfoldable pub rounds_enough : ℕ → ℕ
rounds_enough num = 2 * num + 1

unfoldable pub find_digit_root : Option ℕ → Option ℕ
find_digit_root none = some minus_one
find_digit_root (some num) =
    if leb half_word num then some 0 else digit_loop (rounds_enough num) num 0

-- A digit that is 0 only for 0, and congruent modulo 9.
abbrev pub IsRoot : ℕ → ℕ → Type 0
IsRoot n r = (r < 10) × (r % 9 ≡ n % 9) × (0 < n → 0 < r) × (n ≡ 0 → r ≡ 0)

digit_loop-IsRoot :
    (fuel num root : ℕ)
    → 2 * num + root < fuel
    → (r : ℕ) × (digit_loop fuel num root ≡ some r) × IsRoot (num + root) r
unfolding digit_loop
digit_loop-IsRoot zero num root h = absurd (omega arith)
digit_loop-IsRoot (suc fuel) num root h = elim (Bool-cases (num == 0)) [
  | inl z ↦ elim (Bool-cases (ltb 9 root)) [
    | inl big ↦
        let (r, e, d) = digit_loop-IsRoot fuel (root / 10) (0 + root % 10) (ground arith) in
        (r, ground (arith, e), ground arith)
    | inr small ↦ (root, ground arith, ground arith)
  ]
  | inr nz ↦
      let (r, e, d) = digit_loop-IsRoot fuel (num / 10) (root + num % 10) (ground arith) in
      (r, ground (arith, e), ground arith)
]

-- The digital root of every int that is not negative: 0 for 0, and else the number from 1 to 9 that
-- is congruent to it modulo 9. The loop always ends.
pub find_digit_root_lem :
    (num : ℕ)
    → num < half_word
    → find_digit_root (some num) ≡ some (if num == 0 then 0 else (num - 1) % 9 + 1)
unfolding find_digit_root rounds_enough
find_digit_root_lem num h =
    let (r, e, d) = digit_loop-IsRoot (2 * num + 1) num 0 (omega arith) in
    let same : r ≡ (if num == 0 then 0 else (num - 1) % 9 + 1) = ground arith in
    let small : leb half_word num ≡ false = ground arith in rw small (e ∙ ap some same)
