-- ===== src/Fs/Truncated.antt =====
-- `itrunc` (fs.c) against the blocks of the file.
use xv6_public_os_project.Fs.Emptying.{free_addrs-Freed, free_entries-Freed}
use xv6_public_os_project.Fs.Disk.{SuperBlock, Disk, word_at}
use xv6_public_os_project.Fs.Bitmap.{bfree}
use xv6_public_os_project.Fs.Allocation.{used, first_data}
use xv6_public_os_project.Fs.Inode.{Inode, iupdate, iblock}
use xv6_public_os_project.Fs.Blocks.{slot, Owns}
use xv6_public_os_project.Fs.Slots.{slot-lo, slot-none, slot-hi, word_at-ext}
use xv6_public_os_project.Fs.Changes.{used-front}
use xv6_public_os_project.Fs.Truncate.{free_addrs, free_entries, itrunc}
use xv6_public_os_project.Fs.Freed.{
  AreApart, Ready, Freed, Freed-Ready, Freed-append, Freed-none, Freed-bfree,
}
use xv6_public_os_project.Base.{
  ℕ, ◌+◌, ◌-◌, ◌*◌, ◌≤◌, ◌<◌, ◌≡◌, ◌≢◌, inl, inr, refl, ap, sym, ◌∙◌, false, some, ◌==◌, ==_iff,
  if◌then◌else◌, ltb, leb, ◌&&◌, update, arith, Bool-cases,
}

-- The slots in the order in which `itrunc` frees them: the indirect block is the last.
abbrev freed_at : ℕ → ℕ
freed_at k = if ltb k 12 then k else if ltb k 140 then k + 1 else 12

freed_at-lt : (k : ℕ) → k < 141 → freed_at k < 141
freed_at-lt k h = ground arith

freed_at-inj : (k l : ℕ) → k < 141 → l < 141 → k ≢ l → freed_at k ≢ freed_at l
freed_at-inj k l h g n e = ground arith

-- Where slot `k` is in that order.
freed_place : (k : ℕ) → k < 141 → (j : ℕ) × (j < 141) × (freed_at j ≡ k)
freed_place k h = elim (Bool-cases (ltb k 12)) [
  | inl e ↦ (k, h, rw e refl)
  | inr e ↦ elim (Bool-cases (k == 12)) [
    | inl f ↦ (140, omega arith, ground arith)
    | inr f ↦ (k - 1, omega arith, ground arith)
  ]
]

Owns-AreApart :
    {sb : SuperBlock} {ip : Inode} {s : Disk}
    → Owns sb ip s
    → AreApart sb (λ k. slot ip s (freed_at k))
Owns-AreApart own = record {
  in_range = λ k h nz. own.in_range (freed_at k) (freed_at-lt k h) nz;
  apart = λ k l h m nz ne.
      own.apart (freed_at k) (freed_at l) (freed_at-lt k h) (freed_at-lt l m) nz
        (freed_at-inj k l h m ne);
}

-- What `itrunc` promises of the inode and the disk after it: the file is empty and has no blocks; of
-- the bitmap, all of its blocks are free, and nothing else has changed.
pub record Truncated (sb : SuperBlock) (ip : Inode) (s : Disk) (jp : Inode) (t : Disk)
    : Type 0 where
  pub rest : jp ≡ record ip { size = 0; addrs = jp.addrs }
  pub none_left : (k : ℕ) → k < 13 → jp.addrs k ≡ 0
  pub gone : (k : ℕ) → k < 141 → slot ip s k ≢ 0 → used sb t (slot ip s k) ≡ 0
  pub kept :
      (c : ℕ) → ((k : ℕ) → k < 141 → slot ip s k ≢ 0 → slot ip s k ≢ c) → used sb t c ≡ used sb s c

-- All 141 are freed, and then the inode is written.
Freed-Truncated :
    {sb : SuperBlock} {ip jp : Inode} {s t : Disk}
    → iblock sb ip.inum < sb.bmapstart
    → Freed sb (λ k. slot ip s (freed_at k)) 141 0 s t
    → jp ≡ record ip { size = 0; addrs = jp.addrs }
    → ((k : ℕ) → k < 13 → jp.addrs k ≡ 0)
    → Truncated sb ip s jp (iupdate sb jp t)
unfolding iupdate
Freed-Truncated {sb} {ip} {jp} {s} {t} h f rest z =
    let num : jp.inum ≡ ip.inum = ap (λ (x : Inode). x.inum) rest in
    let front : iblock sb jp.inum < sb.bmapstart = rw num h in
    let same = λ (c : ℕ). used-front sb (iblock sb jp.inum) c _ t front in
    record {
      rest = rest;
      none_left = z;
      gone = λ k hk nz.
          let (j, hj, e) = freed_place k hk in
          let at_j : slot ip s (freed_at j) ≡ slot ip s k = ap (slot ip s) e in
          same (slot ip s k)
          ∙ ap (used sb t) (sym at_j)
          ∙ f.gone j (omega arith) (omega arith) (λ q. nz (sym at_j ∙ q));
      kept = λ c away.
          same c ∙ f.kept c (λ k lo hi nz. away (freed_at k) (freed_at-lt k (omega arith)) nz);
    }

itrunc-plain :
    (sb : SuperBlock) (ip jp : Inode) (s t : Disk)
    → free_addrs 12 0 sb ip s ≡ some (jp, t)
    → jp.addrs 12 ≡ 0
    → itrunc sb ip s ≡ some (record jp { size = 0 }, iupdate sb (record jp { size = 0 }) t)
unfolding itrunc
itrunc-plain sb ip jp s t e z = rw (e, itrunc) (rw z refl)

itrunc-indirect :
    (sb : SuperBlock) (ip jp : Inode) (s t u v : Disk) (ind : ℕ)
    → free_addrs 12 0 sb ip s ≡ some (jp, t)
    → jp.addrs 12 ≡ ind
    → (ind == 0) ≡ false
    → free_entries 128 0 sb ind t ≡ some u
    → bfree sb ind u ≡ some v
    → itrunc sb ip s
      ≡ some (
        record jp { size = 0; addrs = update jp.addrs 12 0 },
        iupdate sb (record jp { size = 0; addrs = update jp.addrs 12 0 }) v,
      )
unfolding itrunc
itrunc-indirect sb ip jp s t u v ind e i z f b = rw (e, itrunc) (rw i (rw z (rw f (rw b refl))))

-- `itrunc` of an inode that owns its blocks (data blocks in use, no two the same, on a disk of
-- fewer than 2 ^ 31 blocks that is in use in front of its data blocks), and whose block on the
-- disk lies in front of the bitmap, does not panic: the file is empty and has no blocks, all the
-- blocks that it had, the indirect block too, are free, and no other bit of the bitmap changes.
pub itrunc-Truncated :
    (sb : SuperBlock) (ip : Inode) (s : Disk)
    → Owns sb ip s
    → iblock sb ip.inum < sb.bmapstart
    → (jp : Inode) × (t : Disk) × (itrunc sb ip s ≡ some (jp, t)) × Truncated sb ip s jp t
unfolding itrunc
itrunc-Truncated sb ip s own h =
    let (jp, t, runs, f, all, rest) =
      free_addrs-Freed {sb = sb} {g = g} 12 0 ip s a (omega arith)
        (λ k lo hi.
          let e : freed_at k ≡ k = ground arith in
          sym (ap (slot ip s) e ∙ slot-lo ip s k (omega arith)))
        ready in
    elim (Bool-cases (ip.addrs 12 == 0)) [
      | inl e ↦ plain jp t runs f all rest ((==_iff _ 0).0 e)
      | inr e ↦ with_indirect jp t runs f all rest e
    ]
  where
    g : ℕ → ℕ
    g k = slot ip s (freed_at k)

    a : AreApart sb g
    a = Owns-AreApart own

    ready : Ready sb g 0 s
    ready k lo hi nz = own.in_use (freed_at k) (freed_at-lt k hi) nz

    no_entry : ip.addrs 12 ≡ 0 → (k : ℕ) → 12 ≤ k → k < 141 → slot ip s (freed_at k) ≡ 0
    no_entry z k lo hi = elim (Bool-cases (k == 140)) [
      | inl e ↦
          let at_12 : freed_at k ≡ 12 = ground arith in
          ap (slot ip s) at_12 ∙ slot-lo ip s 12 (omega arith) ∙ z
      | inr e ↦
          let behind : freed_at k ≡ k + 1 = ground arith in
          ap (slot ip s) behind ∙ slot-none ip s (k + 1) (omega arith) z
    ]

    entry :
        ip.addrs 12 ≢ 0
        → (k : ℕ) → k < 128
        → word_at (s.blocks (ip.addrs 12)) (4 * k) ≡ slot ip s (freed_at (12 + k))
    entry n k hk =
        let behind : freed_at (12 + k) ≡ 13 + k = ground arith in
        let back : 4 * (13 + k - 13) ≡ 4 * k = omega arith in
        sym (
          ap (slot ip s) behind
          ∙ slot-hi ip s (13 + k) (omega arith) n
          ∙ ap (λ (p : ℕ). word_at (s.blocks (ip.addrs 12)) p) back)

    plain :
        (jp : Inode) (t : Disk)
        → free_addrs 12 0 sb ip s ≡ some (jp, t)
        → Freed sb g 12 0 s t
        → ((k : ℕ) → jp.addrs k ≡ (if leb 0 k && ltb k 12 then 0 else ip.addrs k))
        → jp ≡ record ip { addrs = jp.addrs }
        → ip.addrs 12 ≡ 0
        → (jp : Inode) × (t : Disk) × (itrunc sb ip s ≡ some (jp, t)) × Truncated sb ip s jp t
    plain jp t runs f all rest z = (
      record jp { size = 0 },
      iupdate sb (record jp { size = 0 }) t,
      itrunc-plain sb ip jp s t runs (all 12 ∙ z),
      Freed-Truncated h
          (Freed-append 12 129 0 a (omega arith) f
            (Freed-none 129 12 (λ k lo hi. no_entry z k lo (omega arith))))
          (ap (λ (x : Inode). record x { size = 0 }) rest) (λ k hk. ground (arith, all k)),
    )

    with_indirect :
        (jp : Inode) (t : Disk)
        → free_addrs 12 0 sb ip s ≡ some (jp, t)
        → Freed sb g 12 0 s t
        → ((k : ℕ) → jp.addrs k ≡ (if leb 0 k && ltb k 12 then 0 else ip.addrs k))
        → jp ≡ record ip { addrs = jp.addrs }
        → (ip.addrs 12 == 0) ≡ false
        → (jp : Inode) × (t : Disk) × (itrunc sb ip s ≡ some (jp, t)) × Truncated sb ip s jp t
    with_indirect jp t runs f all rest e =
        let at_12 = slot-lo ip s 12 (omega arith) in
        let some_ind : ip.addrs 12 ≢ 0 = λ z. ground arith in
        let behind : first_data sb ≤ ip.addrs 12 =
          omega (arith, at_12, (own.in_range 12 (omega arith) (λ z. some_ind (sym at_12 ∙ z))).1) in
        let ready12 = Freed-Ready 12 0 a f ready (omega arith) in
        let (u, ran, f2) =
          free_entries-Freed {sb = sb} {g = g} 128 0 (ip.addrs 12) t a (omega arith) behind
            (λ k hk.
              word_at-ext (t.blocks (ip.addrs 12)) (s.blocks (ip.addrs 12)) (4 * k)
                (f.bytes (ip.addrs 12) behind)
              ∙ entry some_ind k hk)
            ready12 in
        let (v, frees, f3) =
          Freed-bfree u 140 a (Freed-Ready 128 12 a f2 ready12 (omega arith)) (omega arith)
            (λ z. some_ind (sym at_12 ∙ z)) in
        (
          record jp { size = 0; addrs = update jp.addrs 12 0 },
          iupdate sb (record jp { size = 0; addrs = update jp.addrs 12 0 }) v,
          itrunc-indirect sb ip jp s t u v (ip.addrs 12) runs (all 12) e ran
              (sym (ap (λ (b : ℕ). bfree sb b u) at_12) ∙ frees),
          Freed-Truncated h
              (Freed-append 12 129 0 a (omega arith) f
                (Freed-append 128 1 12 a (omega arith) f2 f3))
              (ap (λ (x : Inode). record x { size = 0; addrs = update jp.addrs 12 0 }) rest)
              (λ k hk. ground (arith, all k)),
        )
