-- ===== src/Fs/Emptying.antt =====
-- The two loops of `itrunc` (fs.c).
use xv6_public_os_project.Fs.Disk.{SuperBlock, Disk, word_at}
use xv6_public_os_project.Fs.Allocation.{first_data}
use xv6_public_os_project.Fs.Inode.{Inode}
use xv6_public_os_project.Fs.Slots.{word_at-ext}
use xv6_public_os_project.Fs.Truncate.{free_addrs, free_entries}
use xv6_public_os_project.Fs.Freed.{
  AreApart, Ready, Freed, Freed-Ready, Freed-cons, Freed-none, Freed-bfree,
}
use xv6_public_os_project.Base.{
  ℕ, zero, suc, ◌+◌, ◌*◌, ◌≤◌, ◌<◌, ◌≡◌, ◌≢◌, inl, inr, refl, ap, sym, ◌∙◌, subst, false, some,
  ◌==◌, ==_iff, if◌then◌else◌, ltb, leb, ◌&&◌, update, arith, Bool-cases,
}

module _ {sb : SuperBlock} {g : ℕ → ℕ} where
  -- The loop over `addrs`.
  pub free_addrs-Freed :
      (n i : ℕ) (ip : Inode) (s : Disk)
      → AreApart sb g
      → i + n ≤ 12
      → ((k : ℕ) → i ≤ k → k < 12 → ip.addrs k ≡ g k)
      → Ready sb g i s
      → (jp : Inode) × (t : Disk) × (free_addrs n i sb ip s ≡ some (jp, t))
        × Freed sb g n i s t
        × ((k : ℕ) → jp.addrs k ≡ (if leb i k && ltb k (i + n) then 0 else ip.addrs k))
        × (jp ≡ record ip { addrs = jp.addrs })
  unfolding free_addrs
  free_addrs-Freed zero i ip s a h same r =
      (ip, s, refl, Freed-none 0 i (λ k lo hi. absurd (omega arith)), λ k. ground arith, refl)
  free_addrs-Freed (suc n) i ip s a h same r = elim (Bool-cases (ip.addrs i == 0)) [
    | inl e ↦
        let (jp, t, runs, f, all, rest) =
          free_addrs-Freed n (i + 1) ip s a (omega arith) (λ k lo hi. same k (omega arith) hi)
            (λ k lo hi nz. r k (omega arith) hi nz) in
        let vacant : g i ≡ 0 = sym (same i (omega arith) (omega arith)) ∙ (==_iff _ 0).0 e in
        let one =
          Freed-none {s = s} 1 i (λ k lo hi. let x : k ≡ i = omega arith in ap g x ∙ vacant) in
        (jp, t, rw e runs, Freed-cons n i a (omega arith) one f, λ k. ground (arith, all k), rest)
    | inr e ↦
        let here = same i (omega arith) (omega arith) in
        let nz : g i ≢ 0 = λ z. ground arith in
        let (u, ran, one) = Freed-bfree s i a r (omega arith) nz in
        let ip' = record ip { addrs = update ip.addrs i 0 } in
        let (jp, t, runs, f, all, rest) =
          free_addrs-Freed n (i + 1) ip' u a (omega arith)
            (λ k lo hi. let ne : (i == k) ≡ false = ground arith in rw ne (same k (omega arith) hi))
            (Freed-Ready 1 i a one r (omega arith)) in
        (
          jp,
          t,
          rw (e, here, ran) runs,
          Freed-cons n i a (omega arith) one f,
          λ k. ground (arith, all k),
          rest,
        )
  ]

  -- The loop over the indirect block.
  pub free_entries-Freed :
      (n j ind : ℕ) (s : Disk)
      → AreApart sb g
      → j + n ≤ 128
      → first_data sb ≤ ind
      → ((k : ℕ) → k < 128 → word_at (s.blocks ind) (4 * k) ≡ g (12 + k))
      → Ready sb g (12 + j) s
      → (t : Disk) × (free_entries n j sb ind s ≡ some t) × Freed sb g n (12 + j) s t
  unfolding free_entries
  free_entries-Freed zero j ind s a h lo same r =
      (s, refl, Freed-none 0 (12 + j) (λ k lo hi. absurd (omega arith)))
  free_entries-Freed (suc n) j ind s a h lo same r =
      let up : 12 + (j + 1) ≡ 12 + j + 1 = omega arith in
      let here = same j (omega arith) in
      elim (Bool-cases (word_at (s.blocks ind) (4 * j) == 0)) [
        | inl e ↦
            let (t, runs, f) =
              free_entries-Freed n (j + 1) ind s a (omega arith) lo same
                (λ k l hi nz. r k (omega arith) hi nz) in
            let vacant : g (12 + j) ≡ 0 = sym here ∙ (==_iff _ 0).0 e in
            let one =
              Freed-none {s = s} 1 (12 + j)
                (λ k l hi. let x : k ≡ 12 + j = omega arith in ap g x ∙ vacant) in
            (
              t,
              rw e runs,
              Freed-cons n (12 + j) a (omega arith) one
                  (subst (λ (x : ℕ). Freed sb g n x s t) up f),
            )
        | inr e ↦
            let nz : g (12 + j) ≢ 0 = λ z. ground arith in
            let (u, ran, one) = Freed-bfree s (12 + j) a r (omega arith) nz in
            let (t, runs, f) =
              free_entries-Freed n (j + 1) ind u a (omega arith) lo
                (λ k hk.
                  word_at-ext (u.blocks ind) (s.blocks ind) (4 * k) (one.bytes ind lo) ∙ same k hk)
                (subst (λ (x : ℕ). Ready sb g x u) (sym up)
                  (Freed-Ready 1 (12 + j) a one r (omega arith))) in
            (
              t,
              rw (e, here, ran) runs,
              Freed-cons n (12 + j) a (omega arith) one
                  (subst (λ (x : ℕ). Freed sb g n x u t) up f),
            )
      ]
