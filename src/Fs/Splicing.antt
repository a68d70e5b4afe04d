-- ===== src/Fs/Splicing.antt =====
-- The loop of `writei` (fs.c) against the content of the file.
use xv6_public_os_project.Fs.Disk.{SuperBlock, Disk, put_block}
use xv6_public_os_project.Fs.Allocation.{used}
use xv6_public_os_project.Fs.Inode.{Inode, bmap, put_bytes, writei_loop}
use xv6_public_os_project.Fs.Blocks.{slot, Owns, Mapped}
use xv6_public_os_project.Fs.Bmap.{slot_of, MapsBlock, bmap-MapsBlock}
use xv6_public_os_project.Fs.Content.{
  most, content, content-there, Mapped-content, slot_of-lt, slot_of-ne, slot_of-inj,
}
use xv6_public_os_project.Fs.Changes.{
  put_block-slot, put_block-Owns, put_block-content, put_bytes_lem,
}
use xv6_public_os_project.Base.{
  ℕ, zero, suc, ◌+◌, ◌-◌, ◌/◌, ◌%◌, ◌≤◌, ◌<◌, ◌≡◌, ◌≢◌, inl, inr, refl, ap, sym, ◌∙◌, subst, true,
  false, ◌&&◌, Option, none, some, List, [], ◌∷◌, ◌++◌, ◌==◌, ==_iff, if◌then◌else◌, ltb, leb,
  arith, length, get_or, get_or-take, get_or-drop, take, drop, take-take_add, drop-take_add,
  length-take, length-drop, length-append, Bool-cases,
}
use Prim.Native.Nat.{min}

-- The bytes `src` put at `off`.
abbrev pub spliced : ℕ → List ℕ → (ℕ → ℕ) → ℕ → ℕ
spliced off src f p = if leb off p && ltb p (off + length src) then get_or src (p - off) 0 else f p

get_or-append :
    (xs ys : List ℕ) (i : ℕ)
    → get_or (xs ++ ys) i 0
      ≡ (if ltb i (length xs) then get_or xs i 0 else get_or ys (i - length xs) 0)
get_or-append [] ys i =
    let e : i - 0 ≡ i = omega arith in let out : ltb i 0 ≡ false = ground arith in rw (e, out) refl
get_or-append (x ∷ xs) ys zero =
    let inside : ltb 0 (length (x ∷ xs)) ≡ true = ground arith in rw inside refl
get_or-append (x ∷ xs) ys (suc i) =
    let same : ltb (suc i) (length (x ∷ xs)) ≡ ltb i (length xs) = ground arith in
    let shift : suc i - length (x ∷ xs) ≡ i - length xs = omega arith in
    rw (same, shift) (get_or-append xs ys i)

-- Bytes in two parts are as good as in one.
pub spliced-append :
    (off : ℕ) (xs ys : List ℕ) (f g : ℕ → ℕ) (p : ℕ)
    → g p ≡ spliced off xs f p
    → spliced (off + length xs) ys g p ≡ spliced off (xs ++ ys) f p
spliced-append off xs ys f g p e =
    let len = length-append xs ys in
    let shift : p - off - length xs ≡ p - (off + length xs) = omega arith in
    rw (e, get_or-append xs ys (p - off), shift, len) (ground arith)

-- What a write promises of the inode and the disk after it.
pub record Wrote (sb : SuperBlock) (ip : Inode) (s : Disk) (off : ℕ) (src : List ℕ) (ip' : Inode)
    (t : Disk) : Type 0 where
  pub owns : Owns sb ip' t
  pub bytes : (p : ℕ) → p < most → content ip' t p ≡ spliced off src (content ip s) p
  pub there : (bn : ℕ) → bn < 140 → slot ip s (slot_of bn) ≢ 0 → slot ip' t (slot_of bn) ≢ 0
  pub new : (p : ℕ) → off ≤ p → p < off + length src → slot ip' t (slot_of (p / 512)) ≢ 0
  pub rest : ip' ≡ record ip { addrs = ip'.addrs }

-- A disk with no two free blocks.
abbrev pub NearlyFull : SuperBlock → Disk → Type 0
NearlyFull sb s = (c d : ℕ) → c < sb.size → d < sb.size → used sb s c ≡ 0 → used sb s d ≡ 0 → c ≡ d

-- The loop on the first `m` bytes ends with `jp` and `t`.
abbrev pub Prefix : SuperBlock → Inode → Disk → ℕ → List ℕ → ℕ → Inode → Disk → Type 0
Prefix sb ip s off src m jp t =
    (fuel : ℕ) → m ≤ fuel → writei_loop fuel sb ip off (take m src) s ≡ some (jp, t)

abbrev pub WritesLoop : SuperBlock → Inode → Disk → ℕ → List ℕ → Option (Inode × Disk) → Type 0
WritesLoop sb ip s off src none =
    (m : ℕ) × (m < length src)
    × ((jp : Inode) × (t : Disk) × Prefix sb ip s off src m jp t
        × NearlyFull sb t
        × Wrote sb ip s off (take m src) jp t)
WritesLoop sb ip s off src (some (ip', t)) = Wrote sb ip s off src ip' t

Wrote-none :
    {sb : SuperBlock} {ip : Inode} {s : Disk} (off : ℕ) → Owns sb ip s → Wrote sb ip s off [] ip s
Wrote-none off own = record {
  owns = own;
  bytes = λ p h. ground arith;
  there = λ bn h n. n;
  new = λ p g h. absurd (omega arith);
  rest = refl;
}

-- One round of the loop, on the block that `bmap` returned.
Wrote-chunk :
    {sb : SuperBlock} {ip ip' : Inode} {s t : Disk} {a : ℕ} (off m : ℕ) (src : List ℕ)
    → off < most
    → m ≡ min (length src) (512 - off % 512)
    → Mapped sb ip s (slot_of (off / 512)) ip' t a
    → Wrote sb ip s off
        (take m src)
        ip'
        (put_block a (put_bytes (off % 512) (take m src) (t.blocks a)) t)
Wrote-chunk {sb} {ip} {ip'} {s} {t} {a} off m src lt em q =
    let bn = off / 512 in
    let k = slot_of bn in
    let hk = slot_of-lt bn (omega arith) in
    let there : slot ip' t k ≢ 0 = λ z. q.nonzero (sym q.hit ∙ z) in
    let d = put_bytes (off % 512) (take m src) (t.blocks a) in
    let u = put_block (slot ip' t k) d t in
    let slots = put_block-slot k d q.owns hk (slot_of-ne bn) there in
    let len : length (take m src) ≡ m = omega (arith, length-take m src) in
    subst (λ (c : ℕ). Wrote sb ip s off (take m src) ip' (put_block c d t)) q.hit
      (record {
        owns = put_block-Owns k d q.owns hk (slot_of-ne bn) there;
        bytes = λ p h.
            let now = put_block-content bn d q.owns (omega arith) there p h in
            let was = Mapped-content bn q p h in
            elim (Bool-cases (bn == p / 512)) [
              | inl e ↦
                  let same : p / 512 ≡ bn = ground arith in
                  let place : p % 512 - off % 512 ≡ p - off = omega arith in
                  let at : slot ip' t (slot_of (p / 512)) ≡ a =
                    ap (λ (c : ℕ). slot ip' t (slot_of c)) same ∙ q.hit in
                  ground (
                    arith,
                    now,
                    was,
                    len,
                    em,
                    put_bytes_lem (off % 512) (take m src) (t.blocks a) (p % 512),
                    content-there ip' t p a at q.nonzero,
                    ap (λ (i : ℕ). get_or (take m src) i 0) place,
                  )
              | inr e ↦ ground (arith, now, was, len, em)
            ];
        there = λ b h n z. elim (Bool-cases (bn == b)) [
          | inl e ↦ there (
              ap (λ (c : ℕ). slot ip' t (slot_of c)) ((==_iff _ _).0 e)
              ∙ sym (slots (slot_of b))
              ∙ z)
          | inr e ↦ n (
              sym (
                q.slots (slot_of b) (slot_of-lt b h) (slot_of-inj bn b (λ w. ground arith))
                  (slot_of-ne b))
              ∙ sym (slots (slot_of b))
              ∙ z)
        ];
        new = λ p g h.
            let same : p / 512 ≡ bn = omega arith in
            λ z. there (ap (λ (c : ℕ). slot ip' t (slot_of c)) (sym same) ∙ sym (slots _) ∙ z);
        rest = q.rest;
      })

-- A part, and then the others.
Wrote-append :
    {sb : SuperBlock} {ip ip' ip'' : Inode} {s t u : Disk} (off m : ℕ) (src : List ℕ)
    → m ≤ length src
    → off + length src ≤ most
    → Wrote sb ip s off (take m src) ip' t
    → Wrote sb ip' t (off + m) (drop m src) ip'' u
    → Wrote sb ip s off src ip'' u
Wrote-append {sb} {ip} {ip'} {ip''} {s} {t} {u} off m src le small w v =
    let len : length (take m src) ≡ m = omega (arith, length-take m src) in
    let left : length (drop m src) ≡ length src - m = length-drop m src in
    record {
      owns = v.owns;
      bytes = λ p h.
          let front = get_or-take m src (p - off) 0 in
          let back = get_or-drop m src (p - (off + m)) 0 in
          let place : off + m ≤ p → m + (p - (off + m)) ≡ p - off = λ g. omega arith in
          let at = λ (g : off + m ≤ p). ap (λ (i : ℕ). get_or src i 0) (place g) in
          ground (arith, w.bytes p h, v.bytes p h, len, left, front, back, at);
      there = λ bn h n. v.there bn h (w.there bn h n);
      new = λ p g h. elim (Bool-cases (ltb p (off + m))) [
        | inl e ↦ v.there (p / 512) (omega arith) (w.new p g (ground arith))
        | inr e ↦ v.new p (ground arith) (omega arith)
      ];
      rest = v.rest ∙ ap (λ (x : Inode). record x { addrs = ip''.addrs }) w.rest;
    }

writei_loop-nil :
    (fuel : ℕ) (sb : SuperBlock) (ip : Inode) (off : ℕ) (s : Disk)
    → writei_loop fuel sb ip off [] s ≡ some (ip, s)
unfolding writei_loop
writei_loop-nil zero sb ip off s = refl
writei_loop-nil (suc fuel) sb ip off s = refl

-- One round of the loop on a first part of the bytes.
Prefix-append :
    (sb : SuperBlock) (ip ip' jp : Inode) (off a m m' : ℕ) (src : List ℕ) (s t u : Disk)
    → 0 < length src
    → m ≡ min (length src) (512 - off % 512)
    → m' ≤ length src - m
    → bmap sb ip (off / 512) s ≡ some (ip', t, a)
    → Prefix sb ip'
        (put_block a (put_bytes (off % 512) (take m src) (t.blocks a)) t)
        (off + m)
        (drop m src)
        m'
        jp
        u
    → Prefix sb ip s off src (m + m') jp u
unfolding writei_loop
Prefix-append sb ip ip' jp off a m m' src s t u pos em le found p zero h = absurd (omega arith)
Prefix-append sb ip ip' jp off a m m' src s t u pos em le found p (suc fuel) h =
    let len : length (take (m + m') src) ≡ m + m' = omega (arith, length-take (m + m') src) in
    let some_left : (length (take (m + m') src) == 0) ≡ false = ground arith in
    let chunk : min (length (take (m + m') src)) (512 - off % 512) ≡ m = omega arith in
    rw (some_left, found, chunk, take-take_add m m' src, drop-take_add m m' src)
      (p fuel (omega arith))

pub writei_loop-WritesLoop :
    (fuel : ℕ) (sb : SuperBlock) (ip : Inode) (off : ℕ) (src : List ℕ) (s : Disk)
    → length src ≤ fuel
    → off + length src ≤ most
    → Owns sb ip s
    → WritesLoop sb ip s off src (writei_loop fuel sb ip off src s)
unfolding writei_loop
writei_loop-WritesLoop zero sb ip off [] s h b own = Wrote-none off own
writei_loop-WritesLoop zero sb ip off (c ∷ cs) s h b own = absurd (omega arith)
writei_loop-WritesLoop (suc fuel) sb ip off [] s h b own = Wrote-none off own
writei_loop-WritesLoop (suc fuel) sb ip off (c ∷ cs) s h b own =
    let some_left : (length (c ∷ cs) == 0) ≡ false = ground arith in
    rw some_left (
      go (c ∷ cs) (omega arith) h b (bmap sb ip (off / 512) s) refl
        (bmap-MapsBlock sb ip (off / 512) s (omega arith) own) (writei_loop-WritesLoop fuel sb))
  where
    go_on :
        {ip' : Inode} {t : Disk} (a : ℕ) (src : List ℕ) (m : ℕ) (o : Option (Inode × Disk))
        → 0 < length src
        → m ≡ min (length src) (512 - off % 512)
        → bmap sb ip (off / 512) s ≡ some (ip', t, a)
        → off + length src ≤ most
        → Wrote sb ip s off
            (take m src)
            ip'
            (put_block a (put_bytes (off % 512) (take m src) (t.blocks a)) t)
        → WritesLoop sb ip'
            (put_block a (put_bytes (off % 512) (take m src) (t.blocks a)) t)
            (off + m)
            (drop m src)
            o
        → WritesLoop sb ip s off src o
    go_on {ip'} {t} a src m none pos em found b w (m', lt, (jp, u, p, full, v)) =
        let left : length (drop m src) ≡ length src - m = length-drop m src in
        let part : length (take (m + m') src) ≡ m + m' = omega (arith, length-take (m + m') src) in
        (
          m + m',
          omega arith,
          (
            jp,
            u,
            Prefix-append sb ip ip' jp off a m m' src s t u pos em (omega arith) found p,
            full,
            Wrote-append {ip' = ip'}
                {t = put_block a (put_bytes (off % 512) (take m src) (t.blocks a)) t} off m
                (take (m + m') src) (omega arith) (omega arith) (rw (take-take_add m m' src) w)
                (rw (drop-take_add m m' src) v),
          ),
        )
    go_on a src m (some (ip'', u)) pos em found b w v = Wrote-append off m src (omega arith) b w v

    go :
        (src : List ℕ)
        → 0 < length src
        → length src ≤ suc fuel
        → off + length src ≤ most
        → (o : Option (Inode × Disk × ℕ)) → bmap sb ip (off / 512) s ≡ o
        → MapsBlock sb ip s (slot_of (off / 512)) o
        → ((ip : Inode) (off : ℕ) (src : List ℕ) (s : Disk)
            → length src ≤ fuel
            → off + length src ≤ most
            → Owns sb ip s
            → WritesLoop sb ip s off src (writei_loop fuel sb ip off src s))
        → WritesLoop sb ip s off src (elim o [
          | none ↦ none
          | some (ip', t, a) ↦
              let m = min (length src) (512 - off % 512) in
              writei_loop fuel sb ip'
                (off + m)
                (drop m src)
                (put_block a (put_bytes (off % 512) (take m src) (t.blocks a)) t)
        ])
    go src pos h b none found q later =
        (0, pos, (ip, s, λ fuel l. writei_loop-nil fuel sb ip off s, q, Wrote-none off own))
    go src pos h b (some (ip', t, a)) found q later =
        let m = min (length src) (512 - off % 512) in
        let w = Wrote-chunk off m src (omega arith) refl q in
        let left : length (drop m src) ≡ length src - m = length-drop m src in
        go_on a src m _ pos refl found b w
          (later ip' (off + m) (drop m src) _ (omega arith) (omega arith) w.owns)
