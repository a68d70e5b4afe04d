-- ===== src/Fs/Content.antt =====
-- A file as a function from offsets to bytes, and how `bmap` and a change of a block act on it.
use xv6_public_os_project.Fs.Disk.{SuperBlock, Disk, word_at}
use xv6_public_os_project.Fs.Inode.{Inode, direct, indirect, bmap}
use xv6_public_os_project.Fs.Blocks.{slot, Mapped}
use xv6_public_os_project.Fs.Slots.{slot-lo, slot-hi, slot-none}
use xv6_public_os_project.Fs.Bmap.{slot_of}
use xv6_public_os_project.Base.{
  ℕ, zero, suc, ◌+◌, ◌-◌, ◌*◌, ◌/◌, ◌%◌, ◌<◌, ◌≡◌, ◌≢◌, inl, inr, refl, ap, sym, ◌∙◌, true, false,
  some, List, [], ◌∷◌, ◌==◌, ==_iff, if◌then◌else◌, ltb, arith, Bool-cases,
}

-- The most bytes of a file.
abbrev pub most : ℕ
most = 71680

-- The byte at offset `p`; a block that is not there is zero.
unfoldable pub content : Inode → Disk → ℕ → ℕ
content ip s p =
    if slot ip s (slot_of (p / 512)) == 0
    then 0
    else s.blocks (slot ip s (slot_of (p / 512))) (p % 512)

pub content-there :
    (ip : Inode) (s : Disk) (p a : ℕ)
    → slot ip s (slot_of (p / 512)) ≡ a
    → a ≢ 0
    → content ip s p ≡ s.blocks a (p % 512)
unfolding content
content-there ip s p a e n = let nz : (a == 0) ≡ false = ground arith in rw (e, nz) refl

pub content-none :
    (ip : Inode) (s : Disk) (p : ℕ) → slot ip s (slot_of (p / 512)) ≡ 0 → content ip s p ≡ 0
unfolding content
content-none ip s p e = rw e refl

pub slot_of-lt : (bn : ℕ) → bn < 140 → slot_of bn < 141
slot_of-lt bn h = ground arith

pub slot_of-ne : (bn : ℕ) → slot_of bn ≢ 12
slot_of-ne bn e = ground arith

pub slot_of-inj : (b c : ℕ) → b ≢ c → slot_of b ≢ slot_of c
slot_of-inj b c n e = ground arith

-- What `bmap` makes of the inode does not change the content of the file.
pub Mapped-content :
    {sb : SuperBlock} {ip ip' : Inode} {s t : Disk} {a : ℕ} (bn : ℕ)
    → Mapped sb ip s (slot_of bn) ip' t a
    → (p : ℕ) → p < most
    → content ip' t p ≡ content ip s p
Mapped-content {sb} {ip} {ip'} {s} {t} {a} bn m p h =
    let k = slot_of (p / 512) in
    let lt = slot_of-lt (p / 512) (omega arith) in
    elim (Bool-cases (bn == p / 512)) [
      | inl e ↦
          let same : slot_of bn ≡ k = ap slot_of ((==_iff _ _).0 e) in
          let now = content-there ip' t p a (ap (slot ip' t) (sym same) ∙ m.hit) m.nonzero in
          elim (Bool-cases (slot ip s k == 0)) [
            | inl z ↦
                let vacant : slot ip s k ≡ 0 = (==_iff _ 0).0 z in
                now
                ∙ m.fresh (ap (slot ip s) same ∙ vacant) (p % 512)
                ∙ sym (content-none ip s p vacant)
            | inr z ↦
                let there : slot ip s k ≢ 0 = λ q. ground arith in
                let kept =
                  m.kept (λ q. there (ap (slot ip s) (sym same) ∙ q)) ∙ ap (slot ip s) same in
                now
                ∙ ap (λ (c : ℕ). t.blocks c (p % 512)) kept
                ∙ m.bytes k lt (slot_of-ne (p / 512)) there (p % 512)
                ∙ sym (content-there ip s p (slot ip s k) refl there)
          ]
      | inr e ↦
          let other =
            m.slots k lt (slot_of-inj bn (p / 512) (λ q. ground arith)) (slot_of-ne (p / 512)) in
          elim (Bool-cases (slot ip s k == 0)) [
            | inl z ↦
                let vacant : slot ip s k ≡ 0 = (==_iff _ 0).0 z in
                content-none ip' t p (other ∙ vacant) ∙ sym (content-none ip s p vacant)
            | inr z ↦
                let there : slot ip s k ≢ 0 = λ q. ground arith in
                content-there ip' t p (slot ip s k) other there
                ∙ m.bytes k lt (slot_of-ne (p / 512)) there (p % 512)
                ∙ sym (content-there ip s p (slot ip s k) refl there)
          ]
    ]

not_zero : (a : ℕ) → a ≢ 0 → (a == 0) ≡ false
not_zero a n = ground arith

-- A block that is there is found, and nothing changes.
pub bmap-there :
    (sb : SuperBlock) (ip : Inode) (bn : ℕ) (s : Disk)
    → bn < 140
    → slot ip s (slot_of bn) ≢ 0
    → bmap sb ip bn s ≡ some (ip, s, slot ip s (slot_of bn))
unfolding bmap direct indirect
bmap-there sb ip bn s h n = elim (Bool-cases (ltb bn 12)) [
  | inl e ↦
      let at = slot-lo ip s bn (ground arith) in
      let n' : slot ip s bn ≢ 0 = rw e at n in
      let there = not_zero (ip.addrs bn) (λ z. n' (at ∙ z)) in rw (e, there, at) refl
  | inr e ↦
      let n' : slot ip s (bn + 1) ≢ 0 = rw e at n in
      let ind = not_zero (ip.addrs 12) (λ z. n' (slot-none ip s (bn + 1) (ground arith) z)) in
      let inside : ltb (bn - 12) 128 ≡ true = ground arith in
      let at : slot ip s (bn + 1) ≡ word_at (s.blocks (ip.addrs 12)) (4 * (bn - 12)) =
        slot-hi ip s (bn + 1) (ground arith) (λ z. n' (slot-none ip s (bn + 1) (ground arith) z))
        ∙ ap (λ (o : ℕ). word_at (s.blocks (ip.addrs 12)) o) (ground arith) in
      let there = not_zero (word_at (s.blocks (ip.addrs 12)) (4 * (bn - 12))) (λ z. n' (at ∙ z)) in
      rw (e, ind, inside, there, at) refl
]

-- The bytes of a function from `off` on.
abbrev pub bytes_from : (ℕ → ℕ) → ℕ → ℕ → List ℕ
bytes_from f off zero = []
bytes_from f off (suc n) = f off ∷ bytes_from f (off + 1) n
