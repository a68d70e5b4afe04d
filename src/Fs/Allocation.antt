-- ===== src/Fs/Allocation.antt =====
-- What `balloc` and `bfree` (fs.c) do to the bitmap and to the blocks.
use xv6_public_os_project.Fs.Bits.{bit_lt, Puts, set_bit-Puts, clear_bit-Puts}
use xv6_public_os_project.Fs.Disk.{Data, SuperBlock, Disk, bpb, put_block, bzero, zeros}
use xv6_public_os_project.Fs.Bitmap.{
  bit, set_bit, clear_bit, bblock, find_bit, find_block, mark, balloc, bfree,
}
use xv6_public_os_project.Base.{
  ℕ, zero, suc, ◌+◌, ◌-◌, ◌*◌, ◌/◌, ◌%◌, ◌≤◌, ◌<◌, ◌≡◌, ◌≢◌, inl, inr, refl, ap, sym, ◌∙◌, false,
  Option, none, some, ◌∷◌, ◌==◌, ==_iff, ==_refl, if◌then◌else◌, ltb, arith, half_word, Bool-cases,
}

-- The bit of block `b` in the bitmap.
unfoldable pub used : SuperBlock → Disk → ℕ → ℕ
used sb s b = bit (s.blocks (bblock sb b) (b % bpb / 8)) (b % bpb % 8)

used-mark :
    (f : ℕ → ℕ → ℕ) (v : ℕ) (sb : SuperBlock) (b c : ℕ) (s : Disk)
    → Puts v f
    → used sb (mark f sb b s) c ≡ (if b == c then v else used sb s c)
unfolding used
used-mark f v sb b c s h = elim (Bool-cases (bblock sb b == bblock sb c)) [
  | inr e ↦ let ne : (b == c) ≡ false = ground arith in rw (e, ne) refl
  | inl e ↦
      let here : bblock sb b ≡ bblock sb c = (==_iff _ _).0 e in
      elim (Bool-cases (b % bpb / 8 == c % bpb / 8)) [
        | inr i ↦ let ne : (b == c) ≡ false = ground arith in rw (e, i, ne, here) refl
        | inl i ↦
            let at : b % bpb / 8 ≡ c % bpb / 8 = (==_iff _ _).0 i in
            let k = b % bpb % 8 in
            let j = c % bpb % 8 in
            let eqs : (k == j) ≡ (b == c) = ground arith in
            rw (e, i, here, at) (h (s.blocks (bblock sb c) (c % bpb / 8)) k j ∙ (rw eqs refl))
      ]
]

-- The first block behind the bitmap.
abbrev pub first_data : SuperBlock → ℕ
first_data sb = sb.bmapstart + sb.size / bpb + 1

-- A disk whose blocks in front of the data blocks are in use.
pub record IsLaidOut (sb : SuperBlock) (s : Disk) : Type 0 where
  pub fits : first_data sb ≤ sb.size
  pub small : sb.size < half_word
  pub meta : (c : ℕ) → c < first_data sb → used sb s c ≡ 1

-- What the search in one block of the bitmap promises.
abbrev FindsBit : ℕ → Data → ℕ → ℕ → ℕ → Option ℕ → Type 0
FindsBit size d b n bi none =
    (j : ℕ) → bi ≤ j → j < bi + n → b + j < size → bit (d (j / 8)) (j % 8) ≡ 1
FindsBit size d b n bi (some j) =
    (bi ≤ j) × (j < bi + n) × (b + j < size) × (bit (d (j / 8)) (j % 8) ≡ 0)

find_bit-FindsBit :
    (size : ℕ) (d : Data) (b n bi : ℕ) → FindsBit size d b n bi (find_bit size d b n bi)
unfolding find_bit
find_bit-FindsBit size d b zero bi = λ j h k l. absurd (omega arith)
find_bit-FindsBit size d b (suc n) bi = elim (Bool-cases (ltb (b + bi) size)) [
  | inr e ↦ rw e (λ j h k l. absurd (ground arith))
  | inl e ↦ elim (Bool-cases (bit (d (bi / 8)) (bi % 8) == 0)) [
    | inl z ↦ rw (e, z) (omega arith, omega arith, ground arith, (==_iff _ _).0 z)
    | inr z ↦
        rw (e, z) (later (find_bit size d b n (bi + 1)) z (find_bit-FindsBit size d b n (bi + 1)))
  ]
]
  where
    later :
        (o : Option ℕ)
        → (bit (d (bi / 8)) (bi % 8) == 0) ≡ false
        → FindsBit size d b n (bi + 1) o
        → FindsBit size d b (suc n) bi o
    later none z h = λ j g k l. elim (Bool-cases (bi == j)) [
      | inl e ↦
          let one : bit (d (bi / 8)) (bi % 8) ≡ 1 = ground (arith, bit_lt (d (bi / 8)) (bi % 8)) in
          ap (λ (i : ℕ). bit (d (i / 8)) (i % 8)) (sym ((==_iff bi j).0 e)) ∙ one
      | inr e ↦ h j (ground arith) (omega arith) l
    ]
    later (some j) z h = (omega (arith, h.0), omega (arith, h.1), h.2, h.3)

-- What the search promises from block `b` on.
abbrev FindsBlock : SuperBlock → Disk → ℕ → ℕ → Option ℕ → Type 0
FindsBlock sb s n b none = (c : ℕ) → b ≤ c → c < b + n * 4096 → c < sb.size → used sb s c ≡ 1
FindsBlock sb s n b (some c) = (c < sb.size) × (used sb s c ≡ 0)

used_at :
    (sb : SuperBlock) (s : Disk) (b j : ℕ)
    → b % 4096 ≡ 0
    → j < 4096
    → used sb s (b + j) ≡ bit (s.blocks (bblock sb b) (j / 8)) (j % 8)
unfolding used
used_at sb s b j h lt =
    let block : (b + j) / 4096 ≡ b / 4096 = omega arith in
    let place : (b + j) % 4096 ≡ j = omega arith in rw (block, place) refl

-- One block of the bitmap, and those behind it.
find_later :
    (sb : SuperBlock) (s : Disk) (n b : ℕ) (o : Option ℕ)
    → b % 4096 ≡ 0
    → FindsBit sb.size (s.blocks (bblock sb b)) b bpb 0 none
    → FindsBlock sb s n (b + bpb) o
    → FindsBlock sb s (suc n) b o
find_later sb s n b none h f later = λ c g k l. elim (Bool-cases (ltb c (b + 4096))) [
  | inl e ↦
      let there : b + (c - b) ≡ c = omega arith in
      ap (used sb s) (sym there)
      ∙ used_at sb s b (c - b) h (ground arith)
      ∙ f (c - b) (omega arith) (ground arith) (omega arith)
  | inr e ↦ later c (ground arith) (omega arith) l
]
find_later sb s n b (some c) h f later = later

find_block-FindsBlock :
    (sb : SuperBlock) (s : Disk) (n b : ℕ)
    → b % 4096 ≡ 0
    → FindsBlock sb s n b (find_block sb s n b)
unfolding find_block
find_block-FindsBlock sb s zero b h = λ c g k l. absurd (omega arith)
find_block-FindsBlock sb s (suc n) b h = elim (Bool-cases (ltb b sb.size)) [
  | inr e ↦ rw e (λ c g k l. absurd (ground arith))
  | inl e ↦ rw e (
      go (find_bit sb.size (s.blocks (bblock sb b)) b bpb 0) refl
        (find_bit-FindsBit sb.size (s.blocks (bblock sb b)) b bpb 0)
        (find_block-FindsBlock sb s n (b + bpb) (omega arith)))
]
  where
    go :
        (o : Option ℕ)
        → find_bit sb.size (s.blocks (bblock sb b)) b bpb 0 ≡ o
        → FindsBit sb.size (s.blocks (bblock sb b)) b bpb 0 o
        → FindsBlock sb s n (b + bpb) (find_block sb s n (b + bpb))
        → FindsBlock sb s
            (suc n)
            b
            (elim o [ none ↦ find_block sb s n (b + bpb) | some bi ↦ some (b + bi) ])
    go none q f later = find_later sb s n b _ h f later
    go (some j) q f later = (f.2, used_at sb s b j h f.1 ∙ f.3)

-- What `balloc` promises.
abbrev pub Allocates : SuperBlock → Disk → Option (Disk × ℕ) → Type 0
Allocates sb s none = (c : ℕ) → c < sb.size → used sb s c ≡ 1
Allocates sb s (some (t, b)) =
    (b < sb.size)
    × (used sb s b ≡ 0)
    × ((c : ℕ) → c < sb.size → used sb t c ≡ (if b == c then 1 else used sb s c))
    × ((o : ℕ) → t.blocks b o ≡ 0)
    × ((c : ℕ) → b ≢ c → bblock sb b ≢ c → (o : ℕ) → t.blocks c o ≡ s.blocks c o)
    × (t.logged ≡ b ∷ bblock sb b ∷ s.logged)

-- A block that is free lies behind the bitmap.
pub free_lt :
    (sb : SuperBlock) (s : Disk) (b : ℕ) → IsLaidOut sb s → used sb s b ≡ 0 → first_data sb ≤ b
free_lt sb s b l h = elim (Bool-cases (ltb b (first_data sb))) [
  | inl e ↦ absurd (ground (arith, l.meta b))
  | inr e ↦ ground arith
]

-- A change of a data block is none of the bitmap.
pub used-put_block :
    (sb : SuperBlock) (b c : ℕ) (d : Data) (s : Disk)
    → c < sb.size
    → first_data sb ≤ b
    → used sb (put_block b d s) c ≡ used sb s c
unfolding used
used-put_block sb b c d s h g = let ne : (b == bblock sb c) ≡ false = ground arith in rw ne refl

-- On a disk of fewer than 2 ^ 31 blocks that is in use in front of its data blocks, `balloc`
-- panics only if every block is in use; else it returns a block that was free, all of its bytes
-- 0, and which is in use now. No other bit of the bitmap and no byte of another block outside
-- the bitmap changes, and both blocks that change are logged.
pub balloc-Allocates : (sb : SuperBlock) (s : Disk) → IsLaidOut sb s → Allocates sb s (balloc sb s)
unfolding balloc bzero
balloc-Allocates sb s l =
    go (find_block sb s (sb.size / bpb + 1) 0)
      (find_block-FindsBlock sb s (sb.size / bpb + 1) 0 refl)
  where
    go :
        (o : Option ℕ)
        → FindsBlock sb s (sb.size / bpb + 1) 0 o
        → Allocates sb s (elim o [ none ↦ none | some b ↦ some (bzero b (mark set_bit sb b s), b) ])
    go none f = λ c h. f c (omega arith) (omega arith) h
    go (some b) f = (
      f.0,
      f.1,
      λ c h.
          used-put_block sb b c zeros (mark set_bit sb b s) h (free_lt sb s b l f.1)
          ∙ used-mark set_bit 1 sb b c s set_bit-Puts,
      λ o. rw (==_refl b) refl,
      λ c nb nm o.
          let eb : (b == c) ≡ false = ground arith in
          let em : (bblock sb b == c) ≡ false = ground arith in rw (eb, em) refl,
      refl,
    )

-- What `bfree` promises of a block that is not in front of the data blocks.
abbrev pub Frees : SuperBlock → ℕ → Disk → Option Disk → Type 0
Frees sb b s none = used sb s b ≡ 0
Frees sb b s (some t) =
    (used sb s b ≡ 1)
    × ((c : ℕ) → used sb t c ≡ (if b == c then 0 else used sb s c))
    × ((c : ℕ) → bblock sb b ≢ c → (o : ℕ) → t.blocks c o ≡ s.blocks c o)
    × (t.logged ≡ bblock sb b ∷ s.logged)

-- `bfree` panics exactly on a block that is free; else the block is free now, and nothing else
-- changes in the bitmap or outside of it.
pub bfree-Frees : (sb : SuperBlock) (b : ℕ) (s : Disk) → Frees sb b s (bfree sb b s)
unfolding bfree used
bfree-Frees sb b s =
    elim (Bool-cases (bit (s.blocks (bblock sb b) (b % bpb / 8)) (b % bpb % 8) == 0)) [
      | inl e ↦ rw (e, bfree) ((==_iff _ _).0 e)
      | inr e ↦
          rw (e, bfree)
            (
              ground (arith, bit_lt (s.blocks (bblock sb b) (b % bpb / 8)) (b % bpb % 8)),
              λ c. used-mark clear_bit 0 sb b c s clear_bit-Puts,
              λ c nm o. let em : (bblock sb b == c) ≡ false = ground arith in rw em refl,
              refl,
            )
    ]
