-- ===== src/Fs/Freed.antt =====
-- The blocks that a sequence of calls of `bfree` (fs.c) has freed. The addresses are `g`, from 0 to
-- 140; an address 0 is no block.
use xv6_public_os_project.Fs.Disk.{SuperBlock, Disk}
use xv6_public_os_project.Fs.Bitmap.{bfree}
use xv6_public_os_project.Fs.Allocation.{used, first_data, Frees, bfree-Frees}
use xv6_public_os_project.Base.{
  ℕ, suc, ◌+◌, ◌≤◌, ◌<◌, ◌≡◌, ◌≢◌, refl, ap, ◌∙◌, subst, false, Option, none, some, ◌==◌, arith,
  Bool-cases, inl, inr, ltb, ==_refl,
}

-- Data blocks, no two the same.
pub record AreApart (sb : SuperBlock) (g : ℕ → ℕ) : Type 0 where
  pub in_range : (k : ℕ) → k < 141 → g k ≢ 0 → (g k < sb.size) × (first_data sb ≤ g k)
  pub apart : (k l : ℕ) → k < 141 → l < 141 → g k ≢ 0 → k ≢ l → g k ≢ g l

-- Those from `i` on are in use.
abbrev pub Ready : SuperBlock → (ℕ → ℕ) → ℕ → Disk → Type 0
Ready sb g i s = (k : ℕ) → i ≤ k → k < 141 → g k ≢ 0 → used sb s (g k) ≡ 1

-- From `s` to `t` the `n` blocks from `i` on are freed, and nothing else.
pub record Freed (sb : SuperBlock) (g : ℕ → ℕ) (n i : ℕ) (s t : Disk) : Type 0 where
  pub gone : (k : ℕ) → i ≤ k → k < i + n → g k ≢ 0 → used sb t (g k) ≡ 0
  pub kept : (c : ℕ) → ((k : ℕ) → i ≤ k → k < i + n → g k ≢ 0 → g k ≢ c) → used sb t c ≡ used sb s c
  pub bytes : (b : ℕ) → first_data sb ≤ b → (o : ℕ) → t.blocks b o ≡ s.blocks b o

module _ {sb : SuperBlock} {g : ℕ → ℕ} where
  pub Freed-Ready :
      {s t : Disk} (n i : ℕ)
      → AreApart sb g
      → Freed sb g n i s t
      → Ready sb g i s
      → i + n ≤ 141
      → Ready sb g (i + n) t
  Freed-Ready n i a f r h k lo hi nz =
      f.kept (g k) (λ l p q m. a.apart l k (omega arith) hi m (λ e. omega arith))
      ∙ r k (omega arith) hi nz

  pub Freed-append :
      {s t u : Disk} (n m i : ℕ)
      → AreApart sb g
      → i + n + m ≤ 141
      → Freed sb g n i s t
      → Freed sb g m (i + n) t u
      → Freed sb g (n + m) i s u
  Freed-append n m i a h f e = record {
    gone = λ k lo hi nz. elim (Bool-cases (ltb k (i + n))) [
      | inl c ↦
          e.kept (g k) (λ l p q z. a.apart l k (omega arith) (omega arith) z (λ x. ground arith))
          ∙ f.gone k lo (ground arith) nz
      | inr c ↦ e.gone k (ground arith) (omega arith) nz
    ];
    kept = λ c away.
        e.kept c (λ k lo hi. away k (omega arith) (omega arith))
        ∙ f.kept c (λ k lo hi. away k lo (omega arith));
    bytes = λ b h o. e.bytes b h o ∙ f.bytes b h o;
  }

  pub Freed-none :
      {s : Disk} (n i : ℕ) → ((k : ℕ) → i ≤ k → k < i + n → g k ≡ 0) → Freed sb g n i s s
  Freed-none n i z = record {
    gone = λ k lo hi nz. absurd (nz (z k lo hi));
    kept = λ c h. refl;
    bytes = λ b h o. refl;
  }

  -- `bfree` does not panic, and frees its block.
  pub Freed-bfree :
      (s : Disk) (i : ℕ)
      → AreApart sb g
      → Ready sb g i s
      → i < 141
      → g i ≢ 0
      → (t : Disk) × (bfree sb (g i) s ≡ some t) × Freed sb g 1 i s t
  Freed-bfree s i a r h nz = go (bfree sb (g i) s) refl (bfree-Frees sb (g i) s)
    where
      go :
          (o : Option Disk)
          → bfree sb (g i) s ≡ o
          → Frees sb (g i) s o
          → (t : Disk) × (bfree sb (g i) s ≡ some t) × Freed sb g 1 i s t
      go none e f = absurd (omega (arith, r i (omega arith) h nz))
      go (some t) e (was, marks, bytes, logged) = (
        t,
        e,
        record {
          gone = λ k lo hi n.
              let same : k ≡ i = omega arith in
              ap (λ (l : ℕ). used sb t (g l)) same ∙ marks (g i) ∙ (rw (==_refl (g i)) refl);
          kept = λ c away.
              let ne = away i (omega arith) (omega arith) nz in
              let no : (g i == c) ≡ false = ground arith in marks c ∙ (rw no refl);
          bytes = λ b lo o. bytes b (λ e. omega (arith, a.in_range i h nz)) o;
        },
      )

  pub Freed-cons :
      {s t u : Disk} (n i : ℕ)
      → AreApart sb g
      → i + suc n ≤ 141
      → Freed sb g 1 i s t
      → Freed sb g n (i + 1) t u
      → Freed sb g (suc n) i s u
  Freed-cons {s} {t} {u} n i a h f e =
      let len : 1 + n ≡ suc n = omega arith in
      subst (λ (m : ℕ). Freed sb g m i s u) len (Freed-append 1 n i a (omega arith) f e)
