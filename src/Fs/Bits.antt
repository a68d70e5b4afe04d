-- ===== src/Fs/Bits.antt =====
-- The bits of a byte of the bitmap (fs.c).
use xv6_public_os_project.Fs.Bitmap.{bit, set_bit, clear_bit}
use xv6_public_os_project.Base.{
  ℕ, zero, suc, ◌+◌, ◌-◌, ◌/◌, ◌^◌, ◌≤◌, ◌<◌, ◌≡◌, inl, inr, refl, ap, sym, ◌∙◌, ◌==◌, ==_iff,
  if◌then◌else◌, arith, Bool-cases,
}

pub bit_lt : (b k : ℕ) → bit b k < 2
unfolding bit
bit_lt b zero = omega arith
bit_lt b (suc k) = bit_lt (b / 2) k

bit-add : (b k j : ℕ) → bit b k ≡ 0 → bit (b + 2 ^ k) j ≡ (if k == j then 1 else bit b j)
unfolding bit
bit-add b zero zero h = omega arith
bit-add b zero (suc j) h =
    let half : (b + 2 ^ 0) / 2 ≡ b / 2 = omega arith in ground (arith, ap (λ (x : ℕ). bit x j) half)
bit-add b (suc k) zero h = ground arith
bit-add b (suc k) (suc j) h =
    let half : (b + 2 ^ suc k) / 2 ≡ b / 2 + 2 ^ k = omega arith in
    ground (arith, ap (λ (x : ℕ). bit x j) half, bit-add (b / 2) k j h)

power-le_bit : (b k : ℕ) → bit b k ≡ 1 → 2 ^ k ≤ b
unfolding bit
power-le_bit b zero h = omega arith
power-le_bit b (suc k) h = omega (arith, power-le_bit (b / 2) k h)

bit-sub : (b k j : ℕ) → bit b k ≡ 1 → bit (b - 2 ^ k) j ≡ (if k == j then 0 else bit b j)
unfolding bit
bit-sub b zero zero h = omega arith
bit-sub b zero (suc j) h =
    let half : (b - 2 ^ 0) / 2 ≡ b / 2 = omega arith in ground (arith, ap (λ (x : ℕ). bit x j) half)
bit-sub b (suc k) zero h = ground (arith, power-le_bit (b / 2) k h)
bit-sub b (suc k) (suc j) h =
    let half : (b - 2 ^ suc k) / 2 ≡ b / 2 - 2 ^ k = omega (arith, power-le_bit (b / 2) k h) in
    ground (arith, ap (λ (x : ℕ). bit x j) half, bit-sub (b / 2) k j h)

-- A change of one bit of a byte to `v`.
abbrev pub Puts : ℕ → (ℕ → ℕ → ℕ) → Type 0
Puts v f = (b k j : ℕ) → bit (f b k) j ≡ (if k == j then v else bit b j)

same_bit : (b k j v : ℕ) → bit b k ≡ v → bit b j ≡ (if k == j then v else bit b j)
same_bit b k j v h = elim (Bool-cases (k == j)) [
  | inl e ↦ rw e (ap (λ (i : ℕ). bit b i) (sym ((==_iff k j).0 e)) ∙ h)
  | inr e ↦ rw e refl
]

pub set_bit-Puts : Puts 1 set_bit
unfolding set_bit
set_bit-Puts b k j = elim (Bool-cases (bit b k == 0)) [
  | inl e ↦ rw e (bit-add b k j ((==_iff (bit b k) 0).0 e))
  | inr e ↦ rw e (same_bit b k j 1 (ground (arith, bit_lt b k)))
]

pub clear_bit-Puts : Puts 0 clear_bit
unfolding clear_bit
clear_bit-Puts b k j = elim (Bool-cases (bit b k == 0)) [
  | inl e ↦ rw e (same_bit b k j 0 ((==_iff (bit b k) 0).0 e))
  | inr e ↦ rw e (bit-sub b k j (ground (arith, bit_lt b k)))
]
