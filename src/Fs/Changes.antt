-- ===== src/Fs/Changes.antt =====
-- What a change of a block does to the blocks of a file and to its content (fs.c).
use xv6_public_os_project.Fs.Content.{
  most, content, content-there, content-none, slot_of-lt, slot_of-ne, slot_of-inj,
}
use xv6_public_os_project.Fs.Disk.{Data, SuperBlock, Disk, put_block}
use xv6_public_os_project.Fs.Bitmap.{bblock}
use xv6_public_os_project.Fs.Allocation.{used, used-put_block}
use xv6_public_os_project.Fs.Inode.{Inode, put_bytes}
use xv6_public_os_project.Fs.Blocks.{slot, Owns}
use xv6_public_os_project.Fs.Slots.{slot-lo, slot-none, slot-kept}
use xv6_public_os_project.Fs.Bmap.{slot_of}
use xv6_public_os_project.Base.{
  ℕ, ◌+◌, ◌-◌, ◌/◌, ◌%◌, ◌<◌, ◌≡◌, ◌≢◌, inl, inr, refl, ap, sym, ◌∙◌, false, ◌&&◌, List, [], ◌∷◌,
  ◌==◌, ==_iff, ==_refl, if◌then◌else◌, ltb, leb, update, arith, length, get_or, get_or-cons,
  get_or-head, Bool-cases,
}

-- Without an indirect block the slots are the same on any disk.
slot-addrs : (ip : Inode) (s t : Disk) → ip.addrs 12 ≡ 0 → (l : ℕ) → slot ip t l ≡ slot ip s l
slot-addrs ip s t z l = elim (Bool-cases (ltb l 13)) [
  | inl e ↦ slot-lo ip t l (ground arith) ∙ sym (slot-lo ip s l (ground arith))
  | inr e ↦ slot-none ip t l (ground arith) z ∙ sym (slot-none ip s l (ground arith) z)
]

-- New content of a block of the file.
pub put_block-slot :
    {sb : SuperBlock} {ip : Inode} {s : Disk} (k : ℕ) (d : Data)
    → Owns sb ip s
    → k < 141
    → k ≢ 12
    → slot ip s k ≢ 0
    → (l : ℕ) → slot ip (put_block (slot ip s k) d s) l ≡ slot ip s l
put_block-slot {sb} {ip} {s} k d own h n12 n l =
    let t = put_block (slot ip s k) d s in
    elim (Bool-cases (ip.addrs 12 == 0)) [
      | inl z ↦ slot-addrs ip s t ((==_iff _ 0).0 z) l
      | inr z ↦
          let there : ip.addrs 12 ≢ 0 = λ q. ground arith in
          let ne : (slot ip s k == ip.addrs 12) ≡ false =
            ground (arith, own.apart k 12 h (omega arith) n n12, slot-lo ip s 12 (omega arith)) in
          slot-kept ip s t there (λ o. rw ne refl) l
    ]

-- The same bitmap and the same slots.
pub Owns-same :
    {sb : SuperBlock} {ip ip' : Inode} {s t : Disk}
    → Owns sb ip s
    → ((c : ℕ) → c < sb.size → used sb t c ≡ used sb s c)
    → ((l : ℕ) → slot ip' t l ≡ slot ip s l)
    → Owns sb ip' t
Owns-same {sb} {ip} {ip'} {s} {t} own marks same = record {
  laid = record {
    fits = own.laid.fits;
    small = own.laid.small;
    meta = λ c hc. marks c (omega (arith, own.laid.fits)) ∙ own.laid.meta c hc;
  };
  in_use = λ l hl nl.
      let old : slot ip s l ≢ 0 = λ z. nl (same l ∙ z) in
      ap (used sb t) (same l) ∙ marks (slot ip s l) (own.in_range l hl old).0 ∙ own.in_use l hl old;
  in_range = λ l hl nl.
      let r = own.in_range l hl (λ z. nl (same l ∙ z)) in
      (omega (arith, same l, r.0), omega (arith, same l, r.1));
  apart = λ l m hl hm nl ne e.
      own.apart l m hl hm (λ z. nl (same l ∙ z)) ne (sym (same l) ∙ e ∙ same m);
}

pub put_block-Owns :
    {sb : SuperBlock} {ip : Inode} {s : Disk} (k : ℕ) (d : Data)
    → Owns sb ip s
    → k < 141
    → k ≢ 12
    → slot ip s k ≢ 0
    → Owns sb ip (put_block (slot ip s k) d s)
put_block-Owns {sb} {ip} {s} k d own h n12 n =
    Owns-same own (λ c hc. used-put_block sb (slot ip s k) c d s hc (own.in_range k h n).1)
      (put_block-slot k d own h n12 n)

-- The content after new content of block `bn` of the file.
pub put_block-content :
    {sb : SuperBlock} {ip : Inode} {s : Disk} (bn : ℕ) (d : Data)
    → Owns sb ip s
    → bn < 140
    → slot ip s (slot_of bn) ≢ 0
    → (p : ℕ) → p < most
    → content ip (put_block (slot ip s (slot_of bn)) d s) p
      ≡ (if bn == p / 512 then d (p % 512) else content ip s p)
put_block-content {sb} {ip} {s} bn d own h n p hp =
    let k = slot_of bn in
    let t = put_block (slot ip s k) d s in
    let same = put_block-slot k d own (slot_of-lt bn h) (slot_of-ne bn) n in
    let l = slot_of (p / 512) in
    elim (Bool-cases (bn == p / 512)) [
      | inl e ↦
          let at : slot ip t l ≡ slot ip s k =
            same l ∙ ap (λ (c : ℕ). slot ip s (slot_of c)) (sym ((==_iff _ _).0 e)) in
          rw e (content-there ip t p (slot ip s k) at n ∙ (rw (==_refl (slot ip s k)) refl))
      | inr e ↦ rw e (elim (Bool-cases (slot ip s l == 0)) [
        | inl z ↦
            let vacant : slot ip s l ≡ 0 = (==_iff _ 0).0 z in
            content-none ip t p (same l ∙ vacant) ∙ sym (content-none ip s p vacant)
        | inr z ↦
            let there : slot ip s l ≢ 0 = λ q. ground arith in
            let ne : (slot ip s k == slot ip s l) ≡ false = ground (
              arith,
              own.apart k l (slot_of-lt bn h) (slot_of-lt (p / 512) (omega arith)) n
                  (slot_of-inj bn (p / 512) (λ q. ground arith)),
            ) in
            content-there ip t p (slot ip s l) (same l) there
            ∙ (rw ne refl)
            ∙ sym (content-there ip s p (slot ip s l) refl there)
      ])
    ]

pub put_bytes_lem :
    (o : ℕ) (bs : List ℕ) (d : Data) (a : ℕ)
    → put_bytes o bs d a ≡ (if leb o a && ltb a (o + length bs) then get_or bs (a - o) 0 else d a)
unfolding put_bytes
put_bytes_lem o [] d a = ground arith
put_bytes_lem o (b ∷ bs) d a =
    ground
      (arith, put_bytes_lem (o + 1) bs (update d o b) a, get_or-cons b bs o a, get_or-head b bs o a)

-- New content of a block that is none of the bitmap's and none of the file's.
pub put_block-front_slot :
    {sb : SuperBlock} {ip : Inode} {s : Disk} (b : ℕ) (d : Data)
    → Owns sb ip s
    → b < sb.bmapstart
    → (l : ℕ) → slot ip (put_block b d s) l ≡ slot ip s l
put_block-front_slot {sb} {ip} {s} b d own h l =
    let t = put_block b d s in
    elim (Bool-cases (ip.addrs 12 == 0)) [
      | inl z ↦ slot-addrs ip s t ((==_iff _ 0).0 z) l
      | inr z ↦
          let there : ip.addrs 12 ≢ 0 = λ q. ground arith in
          let at : slot ip s 12 ≡ ip.addrs 12 = slot-lo ip s 12 (omega arith) in
          let r = (own.in_range 12 (omega arith) (λ q. there (sym at ∙ q))).1 in
          let ne : (b == ip.addrs 12) ≡ false = ground (arith, at, r) in
          slot-kept ip s t there (λ o. rw ne refl) l
    ]

pub used-front :
    (sb : SuperBlock) (b c : ℕ) (d : Data) (s : Disk)
    → b < sb.bmapstart
    → used sb (put_block b d s) c ≡ used sb s c
unfolding used
used-front sb b c d s h = let ne : (b == bblock sb c) ≡ false = ground arith in rw ne refl

pub put_block-front_content :
    {sb : SuperBlock} {ip : Inode} {s : Disk} (b : ℕ) (d : Data)
    → Owns sb ip s
    → b < sb.bmapstart
    → (p : ℕ) → p < most
    → content ip (put_block b d s) p ≡ content ip s p
put_block-front_content {sb} {ip} {s} b d own h p hp =
    let t = put_block b d s in
    let l = slot_of (p / 512) in
    let same = put_block-front_slot b d own h l in
    elim (Bool-cases (slot ip s l == 0)) [
      | inl z ↦
          let vacant : slot ip s l ≡ 0 = (==_iff _ 0).0 z in
          content-none ip t p (same ∙ vacant) ∙ sym (content-none ip s p vacant)
      | inr z ↦
          let there : slot ip s l ≢ 0 = λ q. ground arith in
          let r = (own.in_range l (slot_of-lt (p / 512) (omega arith)) there).1 in
          let ne : (b == slot ip s l) ≡ false = ground (arith, r) in
          content-there ip t p (slot ip s l) same there
          ∙ (rw ne refl)
          ∙ sym (content-there ip s p (slot ip s l) refl there)
    ]
