-- ===== src/Fs/Blocks.antt =====
-- The blocks of a file (fs.c). Slot `k` of an inode is entry `k` of `addrs` for the first thirteen,
-- the indirect block among them, and behind them an entry of that block.
use xv6_public_os_project.Fs.Disk.{SuperBlock, Disk, word_at}
use xv6_public_os_project.Fs.Allocation.{used, first_data, IsLaidOut, free_lt}
use xv6_public_os_project.Fs.Inode.{Inode}
use xv6_public_os_project.Base.{
  ℕ, ◌-◌, ◌*◌, ◌≤◌, ◌<◌, ◌≡◌, ◌≢◌, inl, inr, refl, ap, sym, ◌∙◌, Option, none, some, ◌==◌, ==_refl,
  if◌then◌else◌, ltb, arith, Bool-cases,
}

unfoldable pub slot : Inode → Disk → ℕ → ℕ
slot ip s k =
    if ltb k 13
    then ip.addrs k
    else if ip.addrs 12 == 0
    then 0
    else word_at (s.blocks (ip.addrs 12)) (4 * (k - 13))

-- The blocks of an inode are in use, they are data blocks, and no two slots have the same.
pub record Owns (sb : SuperBlock) (ip : Inode) (s : Disk) : Type 0 where
  pub laid : IsLaidOut sb s
  pub in_use : (k : ℕ) → k < 141 → slot ip s k ≢ 0 → used sb s (slot ip s k) ≡ 1
  pub in_range :
      (k : ℕ) → k < 141 → slot ip s k ≢ 0 → (slot ip s k < sb.size) × (first_data sb ≤ slot ip s k)
  pub apart : (k l : ℕ) → k < 141 → l < 141 → slot ip s k ≢ 0 → k ≢ l → slot ip s k ≢ slot ip s l

-- The inode and the disk `ip'`, `t` have block `b`, which was free, in slot `k`, which was empty.
pub record Grows (sb : SuperBlock) (ip : Inode) (s : Disk) (k b : ℕ) (ip' : Inode) (t : Disk)
    : Type 0 where
  pub size : b < sb.size
  pub free : used sb s b ≡ 0
  pub empty : slot ip s k ≡ 0
  pub marks : (c : ℕ) → c < sb.size → used sb t c ≡ (if b == c then 1 else used sb s c)
  pub slots : (l : ℕ) → l < 141 → slot ip' t l ≡ (if k == l then b else slot ip s l)

Grows-IsLaidOut :
    {sb : SuperBlock} {ip ip' : Inode} {s t : Disk} {k b : ℕ}
    → IsLaidOut sb s
    → Grows sb ip s k b ip' t
    → IsLaidOut sb t
Grows-IsLaidOut l g = record {
  fits = l.fits;
  small = l.small;
  meta = λ c h. ground (arith, g.marks c, l.meta c h, l.fits);
}

-- The block that was free is in no slot.
pub not_owned :
    {sb : SuperBlock} {ip : Inode} {s : Disk} (b l : ℕ)
    → Owns sb ip s
    → used sb s b ≡ 0
    → l < 141
    → b ≢ 0
    → b ≢ slot ip s l
not_owned {sb} {ip} {s} b l o free h nz e =
    omega (arith, free, ap (used sb s) e, o.in_use l h (λ z. nz (e ∙ z)))

Grows-nonzero :
    {sb : SuperBlock} {ip ip' : Inode} {s t : Disk} {k b : ℕ}
    → Owns sb ip s
    → Grows sb ip s k b ip' t
    → b ≢ 0
Grows-nonzero {sb} {ip} {ip'} {s} {t} {k} {b} o g z = omega (arith, free_lt sb s b o.laid g.free)

pub Grows-Owns :
    {sb : SuperBlock} {ip ip' : Inode} {s t : Disk} {k b : ℕ}
    → Owns sb ip s
    → Grows sb ip s k b ip' t
    → Owns sb ip' t
Grows-Owns {sb} {ip} {ip'} {s} {t} {k} {b} o g = record {
  laid = Grows-IsLaidOut o.laid g;
  in_use = λ l hl n. elim (Bool-cases (k == l)) [
    | inl e ↦
        let q : slot ip' t l ≡ b = ground (arith, g.slots l hl) in
        ap (used sb t) q ∙ g.marks b g.size ∙ (rw (==_refl b) refl)
    | inr e ↦
        let q : slot ip' t l ≡ slot ip s l = ground (arith, g.slots l hl) in
        let old : slot ip s l ≢ 0 = λ z. n (q ∙ z) in
        ap (used sb t) q
        ∙ (ground (arith, g.marks (slot ip s l) (o.in_range l hl old).0, o.in_use l hl old))
  ];
  in_range = λ l hl n. elim (Bool-cases (k == l)) [
    | inl e ↦
        let q : slot ip' t l ≡ b = ground (arith, g.slots l hl) in
        (omega (arith, q, g.size), omega (arith, q, free_lt sb s b o.laid g.free))
    | inr e ↦
        let q : slot ip' t l ≡ slot ip s l = ground (arith, g.slots l hl) in
        let r = o.in_range l hl (λ z. n (q ∙ z)) in (omega (arith, q, r.0), omega (arith, q, r.1))
  ];
  apart = λ l m hl hm n ne.
      let nz = Grows-nonzero o g in
      elim (Bool-cases (k == l)) [
        | inl e ↦ λ same. not_owned b m o g.free hm nz (ground (arith, g.slots l hl, g.slots m hm))
        | inr e ↦
            let q : slot ip' t l ≡ slot ip s l = ground (arith, g.slots l hl) in
            let old : slot ip s l ≢ 0 = λ z. n (q ∙ z) in
            elim (Bool-cases (k == m)) [
              | inl f ↦
                  λ same. not_owned b l o g.free hl nz (ground (arith, g.slots l hl, g.slots m hm))
              | inr f ↦
                  λ same. o.apart l m hl hm old ne (ground (arith, g.slots l hl, g.slots m hm))
            ]
      ];
}

-- What `bmap` promises of slot `k` (its own, or the indirect block's): its block is there now, zero
-- if it is new; the other slots but the indirect block's, and their blocks, are as before.
pub record Mapped (sb : SuperBlock) (ip : Inode) (s : Disk) (k : ℕ) (ip' : Inode) (t : Disk) (a : ℕ)
    : Type 0 where
  pub owns : Owns sb ip' t
  pub hit : slot ip' t k ≡ a
  pub nonzero : a ≢ 0
  pub slots : (l : ℕ) → l < 141 → k ≢ l → l ≢ 12 → slot ip' t l ≡ slot ip s l
  pub kept : slot ip s k ≢ 0 → a ≡ slot ip s k
  pub fresh : slot ip s k ≡ 0 → (o : ℕ) → t.blocks a o ≡ 0
  pub bytes :
      (l : ℕ)
      → l < 141
      → l ≢ 12
      → slot ip s l ≢ 0
      → (o : ℕ) → t.blocks (slot ip s l) o ≡ s.blocks (slot ip s l) o
  pub rest : ip' ≡ record ip { addrs = ip'.addrs }

unfoldable pub Maps : SuperBlock → Inode → Disk → ℕ → Option (Inode × Disk × ℕ) → Type 0
Maps sb ip s k none = (c : ℕ) → c < sb.size → used sb s c ≡ 1
Maps sb ip s k (some (ip', t, a)) = Mapped sb ip s k ip' t a

-- Nothing to do.
pub Mapped-there :
    {sb : SuperBlock} {ip : Inode} {s : Disk} {a : ℕ} (k : ℕ)
    → Owns sb ip s
    → slot ip s k ≡ a
    → a ≢ 0
    → Mapped sb ip s k ip s a
Mapped-there k o h nz = record {
  owns = o;
  hit = h;
  nonzero = nz;
  slots = λ l hl n m. refl;
  kept = λ n. sym h;
  fresh = λ z. absurd (nz (sym h ∙ z));
  bytes = λ l hl m n o. refl;
  rest = refl;
}
