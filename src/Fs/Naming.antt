-- ===== src/Fs/Naming.antt =====
-- The name that `dirlink` writes is the one that `dirlookup` compares with (fs.c, string.c).
use xv6_public_os_project.Strings.{Bytes, strncmp, strncpy, pad}
use xv6_public_os_project.Fs.Disk.{zeros}
use xv6_public_os_project.Fs.Directory.{both_names, namecmp}
use xv6_public_os_project.Base.{
  ℕ, zero, suc, ◌+◌, ◌-◌, ◌≤◌, ◌<◌, ◌≡◌, ◌≢◌, inl, inr, refl, ap, sym, ◌∙◌, true, false, ◌==◌, ltb,
  update, arith, Bool-cases,
}

pad-front : (n s a : ℕ) (m : Bytes) → a < s → pad n s m a ≡ m a
unfolding pad
pad-front zero s a m h = refl
pad-front (suc n) s a m h =
    pad-front n (s + 1) a (update m s 0) (omega arith)
    ∙ (let ne : (s == a) ≡ false = ground arith in rw ne refl)

strncpy-front : (n s t a : ℕ) (m : Bytes) → a < s → strncpy n s t m a ≡ m a
unfolding strncpy
strncpy-front zero s t a m h = refl
strncpy-front (suc n) s t a m h =
    let ne : (s == a) ≡ false = ground arith in
    let same : update m s (m t) a ≡ m a = rw ne refl in
    elim (Bool-cases (m t == 0)) [
      | inl e ↦ rw e (pad-front n (s + 1) a (update m s (m t)) (omega arith) ∙ same)
      | inr e ↦ rw e (strncpy-front n (s + 1) (t + 1) a (update m s (m t)) (omega arith) ∙ same)
    ]

-- A byte with no end in front of it is copied.
strncpy-copied :
    (n s t i : ℕ) (m : Bytes)
    → i < n
    → s + n ≤ t
    → ((j : ℕ) → j < i → m (t + j) ≢ 0)
    → strncpy n s t m (s + i) ≡ m (t + i)
unfolding strncpy
strncpy-copied zero s t i m h apart live = absurd (omega arith)
strncpy-copied (suc n) s t zero m h apart live =
    let at : s + 0 ≡ s = omega arith in
    let from : t + 0 ≡ t = omega arith in
    let here : update m s (m t) s ≡ m t = let e : (s == s) ≡ true = ground arith in rw e refl in
    rw (at, from)
      (elim (Bool-cases (m t == 0)) [
        | inl e ↦ rw e (pad-front n (s + 1) s (update m s (m t)) (omega arith) ∙ here)
        | inr e ↦ rw e (strncpy-front n (s + 1) (t + 1) s (update m s (m t)) (omega arith) ∙ here)
      ])
strncpy-copied (suc n) s t (suc i) m h apart live =
    let from : t + 0 ≡ t = omega arith in
    let first : m t ≢ 0 = λ z. live 0 (omega arith) (ap m from ∙ z) in
    let go_on : (m t == 0) ≡ false = ground arith in
    let at : s + suc i ≡ s + 1 + i = omega arith in
    let to : t + suc i ≡ t + 1 + i = omega arith in
    let kept : (j : ℕ) → update m s (m t) (t + 1 + j) ≡ m (t + 1 + j) =
      λ j. (let ne : (s == t + 1 + j) ≡ false = ground arith in rw ne refl) in
    rw (go_on, at, to)
      (strncpy-copied n (s + 1) (t + 1) i (update m s (m t)) (omega arith) (omega arith) (λ j hj z.
          live (suc j) (omega arith)
            (let step : t + suc j ≡ t + 1 + j = omega arith in ap m step ∙ sym (kept j) ∙ z))
        ∙ kept i)

-- Strings that are the same up to their end compare equal.
strncmp-same :
    (n p q : ℕ) (m : Bytes)
    → ((i : ℕ) → i < n → ((j : ℕ) → j < i → m (p + j) ≢ 0) → m (q + i) ≡ m (p + i))
    → strncmp n p q m ≡ 0
unfolding strncmp
strncmp-same zero p q m h = refl
strncmp-same (suc n) p q m h =
    let at_p : p + 0 ≡ p = omega arith in
    let at_q : q + 0 ≡ q = omega arith in
    let first : m q ≡ m p =
      ap m (sym at_q) ∙ h 0 (omega arith) (λ j l. absurd (omega arith)) ∙ ap m at_p in
    let equal : (m p == m q) ≡ true = ground arith in
    elim (Bool-cases (m p == 0)) [
      | inl e ↦ rw e (ground arith)
      | inr e ↦
          rw (e, equal)
            (strncmp-same n (p + 1) (q + 1) m (λ i l live.
              let up_q : q + 1 + i ≡ q + suc i = omega arith in
              let up_p : p + 1 + i ≡ p + suc i = omega arith in
              ap m up_q ∙ h (suc i) (omega arith) (before e live) ∙ ap m (sym up_p)))
    ]
  where
    before :
        (m p == 0) ≡ false
        → {i : ℕ} → ((j : ℕ) → j < i → m (p + 1 + j) ≢ 0)
        → (j : ℕ) → j < suc i
        → m (p + j) ≢ 0
    before e live zero l z = let at : p + 0 ≡ p = omega arith in ground (arith, ap m at)
    before e live (suc j) l z =
        let at : p + 1 + j ≡ p + suc j = omega arith in live j (omega arith) (ap m at ∙ z)

names-lo : (s t : ℕ → ℕ) (i : ℕ) → i < 14 → both_names s t i ≡ s i
names-lo s t i h = let e : ltb i 14 ≡ true = ground arith in rw e refl

names-hi : (s t : ℕ → ℕ) (i : ℕ) → i < 14 → both_names s t (14 + i) ≡ t i
names-hi s t i h =
    let e : ltb (14 + i) 14 ≡ false = ground arith in
    let f : ltb (14 + i) 28 ≡ true = ground arith in
    let back : 14 + i - 14 ≡ i = omega arith in rw (e, f, back) refl

-- The name in a new entry compares equal to the name.
pub namecmp-strncpy :
    (name g : ℕ → ℕ)
    → ((i : ℕ) → i < 14 → g i ≡ strncpy 14 0 14 (both_names zeros name) i)
    → namecmp name g ≡ 0
namecmp-strncpy name g h = strncmp-same 14 0 14 (both_names name g) (λ i l live.
    names-hi name g i l
    ∙ h i l
    ∙ (let from : i ≡ 0 + i = omega arith in ap (strncpy 14 0 14 (both_names zeros name)) from)
    ∙ strncpy-copied 14 0 14 i (both_names zeros name) l (omega arith) (λ j k z.
      let from : 0 + j ≡ j = omega arith in
      live j k (
        ap (both_names name g) from
        ∙ names-lo name g j (omega arith)
        ∙ sym (names-hi zeros name j (omega arith))
        ∙ z))
    ∙ names-hi zeros name i l
    ∙ sym (names-lo name g i l)
    ∙ (let from : i ≡ 0 + i = omega arith in ap (both_names name g) from))
