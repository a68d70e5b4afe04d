-- ===== src/Fs/Slots.antt =====
-- The slots of an inode (fs.c) after a new entry in `addrs` or in the indirect block.
use xv6_public_os_project.Fs.Blocks.{slot}
use xv6_public_os_project.Fs.Disk.{
  Data, Disk, put_block, word_at, put_word, word_at-put_word, word_at-put_word_other,
}
use xv6_public_os_project.Fs.Inode.{Inode}
use xv6_public_os_project.Base.{
  ℕ, ◌+◌, ◌-◌, ◌*◌, ◌≤◌, ◌<◌, ◌≡◌, ◌≢◌, ◌⊎◌, inl, inr, refl, ap, sym, ◌∙◌, false, ◌==◌, ==_iff,
  ==_refl, if◌then◌else◌, ltb, update, arith, word, Bool-cases,
}

pub word_at-ext : (d e : Data) (o : ℕ) → ((a : ℕ) → d a ≡ e a) → word_at d o ≡ word_at e o
unfolding word_at
word_at-ext d e o h = omega (arith, h o, h (o + 1), h (o + 2), h (o + 3))

pub word_at-zeros : (d : Data) (o : ℕ) → ((a : ℕ) → d a ≡ 0) → word_at d o ≡ 0
unfolding word_at
word_at-zeros d o h = omega (arith, h o, h (o + 1), h (o + 2), h (o + 3))

pub slot-lo : (ip : Inode) (s : Disk) (l : ℕ) → l < 13 → slot ip s l ≡ ip.addrs l
unfolding slot
slot-lo ip s l h = ground arith

pub slot-none : (ip : Inode) (s : Disk) (l : ℕ) → 13 ≤ l → ip.addrs 12 ≡ 0 → slot ip s l ≡ 0
unfolding slot
slot-none ip s l h z = ground arith

pub slot-hi :
    (ip : Inode) (s : Disk) (l : ℕ)
    → 13 ≤ l
    → ip.addrs 12 ≢ 0
    → slot ip s l ≡ word_at (s.blocks (ip.addrs 12)) (4 * (l - 13))
unfolding slot
slot-hi ip s l h z = ground arith

-- The slots after a new block in `addrs k`.
pub slot-direct :
    (ip : Inode) (s t : Disk) (k b : ℕ)
    → k < 13
    → slot ip s k ≡ 0
    → b ≢ 0
    → ((o : ℕ) → t.blocks b o ≡ 0)
    → (ip.addrs 12 ≢ 0 → (o : ℕ) → t.blocks (ip.addrs 12) o ≡ s.blocks (ip.addrs 12) o)
    → (l : ℕ)
    → slot (record ip { addrs = update ip.addrs k b }) t l ≡ (if k == l then b else slot ip s l)
slot-direct ip s t k b h empty nz new old l =
    let ip' = record ip { addrs = update ip.addrs k b } in
    elim (Bool-cases (ltb l 13)) [
      | inl e ↦ ground (arith, slot-lo ip' t l, slot-lo ip s l)
      | inr e ↦ elim (Bool-cases (k == 12)) [
        | inl f ↦
            let was : ip.addrs 12 ≡ 0 =
              ap ip.addrs (sym ((==_iff k 12).0 f)) ∙ sym (slot-lo ip s k h) ∙ empty in
            let now : ip'.addrs 12 ≡ b = rw f refl in
            let words : word_at (t.blocks (ip'.addrs 12)) (4 * (l - 13)) ≡ 0 =
              ap (λ (c : ℕ). word_at (t.blocks c) (4 * (l - 13))) now
              ∙ word_at-zeros (t.blocks b) (4 * (l - 13)) new in
            let ne : (k == l) ≡ false = ground arith in
            rw ne (
              slot-hi ip' t l (ground arith) (λ z. nz (sym now ∙ z))
              ∙ words
              ∙ sym (slot-none ip s l (ground arith) was))
        | inr f ↦
            let now : ip'.addrs 12 ≡ ip.addrs 12 = rw f refl in
            let ne : (k == l) ≡ false = ground arith in
            rw ne (elim (Bool-cases (ip.addrs 12 == 0)) [
              | inl z ↦
                  let was : ip.addrs 12 ≡ 0 = (==_iff _ 0).0 z in
                  slot-none ip' t l (ground arith) (now ∙ was)
                  ∙ sym (slot-none ip s l (ground arith) was)
              | inr z ↦
                  let was : ip.addrs 12 ≢ 0 = λ q. ground arith in
                  slot-hi ip' t l (ground arith) (λ q. was (sym now ∙ q))
                  ∙ ap (λ (c : ℕ). word_at (t.blocks c) (4 * (l - 13))) now
                  ∙ word_at-ext (t.blocks (ip.addrs 12)) (s.blocks (ip.addrs 12)) (4 * (l - 13))
                      (old was)
                  ∙ sym (slot-hi ip s l (ground arith) was)
            ])
      ]
    ]

pub slot-kept :
    (ip : Inode) (s t : Disk)
    → ip.addrs 12 ≢ 0
    → ((o : ℕ) → t.blocks (ip.addrs 12) o ≡ s.blocks (ip.addrs 12) o)
    → (l : ℕ) → slot ip t l ≡ slot ip s l
slot-kept ip s t n old l = elim (Bool-cases (ltb l 13)) [
  | inl e ↦ slot-lo ip t l (ground arith) ∙ sym (slot-lo ip s l (ground arith))
  | inr e ↦
      slot-hi ip t l (ground arith) n
      ∙ word_at-ext (t.blocks (ip.addrs 12)) (s.blocks (ip.addrs 12)) (4 * (l - 13)) old
      ∙ sym (slot-hi ip s l (ground arith) n)
]

-- The slots after a new entry in the indirect block.
pub slot-indirect :
    (ip : Inode) (t : Disk) (i b : ℕ)
    → i < 128
    → b < word
    → ip.addrs 12 ≢ 0
    → (l : ℕ)
    → slot ip (put_block (ip.addrs 12) (put_word (4 * i) b (t.blocks (ip.addrs 12))) t) l
      ≡ (if 13 + i == l then b else slot ip t l)
slot-indirect ip t i b h small n l =
    let ind = ip.addrs 12 in
    let u = put_block ind (put_word (4 * i) b (t.blocks ind)) t in
    elim (Bool-cases (ltb l 13)) [
      | inl e ↦ ground (arith, slot-lo ip u l, slot-lo ip t l)
      | inr e ↦
          let now : u.blocks ind ≡ put_word (4 * i) b (t.blocks ind) = rw (==_refl ind) refl in
          let words =
            slot-hi ip u l (ground arith) n ∙ ap (λ (d : Data). word_at d (4 * (l - 13))) now in
          elim (Bool-cases (13 + i == l)) [
            | inl f ↦
                let same : 4 * (l - 13) ≡ 4 * i = ground arith in
                rw f (
                  words
                  ∙ ap (λ (p : ℕ). word_at (put_word (4 * i) b (t.blocks ind)) p) same
                  ∙ word_at-put_word (4 * i) b (t.blocks ind) small)
            | inr f ↦
                let far : (4 * i + 3 < 4 * (l - 13)) ⊎ (4 * (l - 13) + 3 < 4 * i) = ground arith in
                rw f (
                  words
                  ∙ word_at-put_word_other (4 * i) (4 * (l - 13)) b (t.blocks ind) far
                  ∙ sym (slot-hi ip t l (ground arith) n))
          ]
    ]
