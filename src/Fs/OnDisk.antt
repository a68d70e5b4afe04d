-- ===== src/Fs/OnDisk.antt =====
-- `iupdate` and what `ilock` reads (fs.c): an inode in its 64 bytes of a block.
use xv6_public_os_project.Fs.Disk.{
  Data, SuperBlock, Disk, word_at, put_word, half_at, put_half, word_at-put_word, put_word-other,
}
use xv6_public_os_project.Fs.Inode.{
  Inode, iblock, dinode_at, put_addrs, put_dinode, iupdate, read_inode,
}
use xv6_public_os_project.Base.{
  ℕ, zero, suc, ◌+◌, ◌*◌, ◌≤◌, ◌<◌, ◌/◌, ◌%◌, ◌≡◌, ◌≢◌, ◌⊎◌, inl, inr, refl, ap, sym, ◌∙◌, ◌==◌,
  ==_refl, ==_iff, update, arith, word, Bool-cases,
}

-- The fields fit in the shorts and uints of the disk.
pub record IsStorable (ip : Inode) : Type 0 where
  pub kind : ip.kind < 65536
  pub major : ip.major < 65536
  pub minor : ip.minor < 65536
  pub nlink : ip.nlink < 65536
  pub size : ip.size < word
  pub addrs : (i : ℕ) → i < 13 → ip.addrs i < word

put_addrs-other :
    (n i o a : ℕ) (addrs : ℕ → ℕ) (d : Data)
    → (a < o + 12 + 4 * i) ⊎ (o + 12 + 4 * (i + n) ≤ a)
    → put_addrs n i o addrs d a ≡ d a
unfolding put_addrs
put_addrs-other zero i o a addrs d h = refl
put_addrs-other (suc n) i o a addrs d h =
    put_addrs-other n (i + 1) o a addrs _ (ground arith)
    ∙ put_word-other (o + 12 + 4 * i) a (addrs i) d (ground arith)

word_at-same :
    (o : ℕ) (d e : Data) → ((a : ℕ) → o ≤ a → a < o + 4 → d a ≡ e a) → word_at d o ≡ word_at e o
unfolding word_at
word_at-same o d e h = omega (
  arith,
  h o (omega arith) (omega arith),
  h (o + 1) (omega arith) (omega arith),
  h (o + 2) (omega arith) (omega arith),
  h (o + 3) (omega arith) (omega arith),
)

half_at-same :
    (o : ℕ) (d e : Data) → ((a : ℕ) → o ≤ a → a < o + 2 → d a ≡ e a) → half_at d o ≡ half_at e o
unfolding half_at
half_at-same o d e h =
    omega (arith, h o (omega arith) (omega arith), h (o + 1) (omega arith) (omega arith))

word_at-put_addrs :
    (n i j o : ℕ) (addrs : ℕ → ℕ) (d : Data)
    → i ≤ j
    → j < i + n
    → addrs j < word
    → word_at (put_addrs n i o addrs d) (o + 12 + 4 * j) ≡ addrs j
unfolding put_addrs
word_at-put_addrs zero i j o addrs d h k small = absurd (omega arith)
word_at-put_addrs (suc n) i j o addrs d h k small = elim (Bool-cases (i == j)) [
  | inl e ↦
      let same : j ≡ i = ground arith in
      word_at-same (o + 12 + 4 * j) _ (put_word (o + 12 + 4 * i) (addrs i) d)
        (λ a g l. put_addrs-other n (i + 1) o a addrs _ (omega arith))
      ∙ ap (λ (x : ℕ). word_at (put_word (o + 12 + 4 * i) (addrs i) d) (o + 12 + 4 * x)) same
      ∙ word_at-put_word (o + 12 + 4 * i) (addrs i) d (rw (sym same) small)
      ∙ ap addrs (sym same)
  | inr e ↦ word_at-put_addrs n (i + 1) j o addrs _ (ground arith) (omega arith) small
]

half_at-put_half : (o v : ℕ) (d : Data) → v < 65536 → half_at (put_half o v d) o ≡ v
unfolding half_at put_half
half_at-put_half o v d h = ground arith

put_half-other : (o a v : ℕ) (d : Data) → (a < o) ⊎ (o + 1 < a) → put_half o v d a ≡ d a
unfolding put_half
put_half-other o a v d h = ground arith

-- The five fields in front of the addresses.
put_fields : ℕ → Inode → Data → Data
put_fields o ip d = put_word (o + 8) ip.size (
    put_half (o + 6) ip.nlink
      (put_half (o + 4) ip.minor (put_half (o + 2) ip.major (put_half o ip.kind d))))

put_fields-other :
    (o a : ℕ) (ip : Inode) (d : Data) → (a < o) ⊎ (o + 12 ≤ a) → put_fields o ip d a ≡ d a
unfolding put_fields put_word put_half
put_fields-other o a ip d h = ground arith

put_dinode-other :
    (o a : ℕ) (ip : Inode) (d : Data) → (a < o) ⊎ (o + 64 ≤ a) → put_dinode o ip d a ≡ d a
unfolding put_dinode put_fields
put_dinode-other o a ip d h =
    put_addrs-other 13 0 o a ip.addrs (put_fields o ip d) (ground arith)
    ∙ put_fields-other o a ip d (ground arith)

-- The same inode on disk: all that `ilock` reads of it.
abbrev pub SameFields : Inode → Inode → Type 0
SameFields a b =
    (a.kind ≡ b.kind)
    × (a.major ≡ b.major)
    × (a.minor ≡ b.minor)
    × (a.nlink ≡ b.nlink)
    × (a.size ≡ b.size)
    × ((i : ℕ) → i < 13 → a.addrs i ≡ b.addrs i)

half_at-put_word_other :
    (o p w : ℕ) (d : Data) → (o + 3 < p) ⊎ (p + 1 < o) → half_at (put_word o w d) p ≡ half_at d p
half_at-put_word_other o p w d h =
    half_at-same p _ d (λ a g l. put_word-other o a w d (ground arith))

half_at-put_half_other :
    (o p v : ℕ) (d : Data) → (o + 1 < p) ⊎ (p + 1 < o) → half_at (put_half o v d) p ≡ half_at d p
half_at-put_half_other o p v d h =
    half_at-same p _ d (λ a g l. put_half-other o a v d (ground arith))

-- What the five fields read as.
Reads : ℕ → Inode → Data → Type 0
Reads o ip d =
    (half_at d o ≡ ip.kind)
    × (half_at d (o + 2) ≡ ip.major)
    × (half_at d (o + 4) ≡ ip.minor)
    × (half_at d (o + 6) ≡ ip.nlink)
    × (word_at d (o + 8) ≡ ip.size)

put_fields-Reads : (o : ℕ) (ip : Inode) (d : Data) → IsStorable ip → Reads o ip (put_fields o ip d)
unfolding put_fields Reads
put_fields-Reads o ip d h =
    let d1 = put_half o ip.kind d in
    let d2 = put_half (o + 2) ip.major d1 in
    let d3 = put_half (o + 4) ip.minor d2 in
    let d4 = put_half (o + 6) ip.nlink d3 in
    let size_in =
      λ (p : ℕ) (l : p + 1 < o + 8). half_at-put_word_other (o + 8) p ip.size d4 (inr l) in
    let nlink_in =
      λ (p : ℕ) (l : p + 1 < o + 6). half_at-put_half_other (o + 6) p ip.nlink d3 (inr l) in
    let minor_in =
      λ (p : ℕ) (l : p + 1 < o + 4). half_at-put_half_other (o + 4) p ip.minor d2 (inr l) in
    (
      size_in o (omega arith)
          ∙ nlink_in o (omega arith)
          ∙ minor_in o (omega arith)
          ∙ half_at-put_half_other (o + 2) o ip.major d1 (inr (omega arith))
          ∙ half_at-put_half o ip.kind d h.kind,
      size_in (o + 2) (omega arith)
          ∙ nlink_in (o + 2) (omega arith)
          ∙ minor_in (o + 2) (omega arith)
          ∙ half_at-put_half (o + 2) ip.major d1 h.major,
      size_in (o + 4) (omega arith)
          ∙ nlink_in (o + 4) (omega arith)
          ∙ half_at-put_half (o + 4) ip.minor d2 h.minor,
      size_in (o + 6) (omega arith) ∙ half_at-put_half (o + 6) ip.nlink d3 h.nlink,
      word_at-put_word (o + 8) ip.size d4 h.size,
    )

put_dinode-fields : (o : ℕ) (ip : Inode) (d : Data) → IsStorable ip → Reads o ip (put_dinode o ip d)
unfolding put_dinode put_fields Reads
put_dinode-fields o ip d h =
    let e = put_fields o ip d in
    let front =
      λ (a : ℕ) (l : a < o + 12). put_addrs-other 13 0 o a ip.addrs e (inl (omega arith)) in
    let (kind, major, minor, nlink, size) = put_fields-Reads o ip d h in
    (
      half_at-same o _ e (λ a g l. front a (omega arith)) ∙ kind,
      half_at-same (o + 2) _ e (λ a g l. front a (omega arith)) ∙ major,
      half_at-same (o + 4) _ e (λ a g l. front a (omega arith)) ∙ minor,
      half_at-same (o + 6) _ e (λ a g l. front a (omega arith)) ∙ nlink,
      word_at-same (o + 8) _ e (λ a g l. front a (omega arith)) ∙ size,
    )

-- Two inodes lie in different blocks, or apart in the same one.
inodes_apart :
    (i j : ℕ)
    → i ≢ j
    → (i / 8 ≢ j / 8) ⊎ ((i % 8 * 64 + 64 ≤ j % 8 * 64) ⊎ (j % 8 * 64 + 64 ≤ i % 8 * 64))
inodes_apart i j n = ground arith

read_inode-same :
    (sb : SuperBlock) (dev j : ℕ) (s t : Disk)
    → ((a : ℕ)
        → dinode_at j ≤ a
        → a < dinode_at j + 64
        → s.blocks (iblock sb j) a ≡ t.blocks (iblock sb j) a)
    → SameFields (read_inode sb dev j s) (read_inode sb dev j t)
unfolding read_inode
read_inode-same sb dev j s t h = (
  half_at-same (dinode_at j) _ _ (λ a g l. h a (omega arith) (omega arith)),
  half_at-same (dinode_at j + 2) _ _ (λ a g l. h a (omega arith) (omega arith)),
  half_at-same (dinode_at j + 4) _ _ (λ a g l. h a (omega arith) (omega arith)),
  half_at-same (dinode_at j + 6) _ _ (λ a g l. h a (omega arith) (omega arith)),
  word_at-same (dinode_at j + 8) _ _ (λ a g l. h a (omega arith) (omega arith)),
  λ i l. word_at-same (dinode_at j + 12 + 4 * i) _ _ (λ a g k. h a (omega arith) (omega arith)),
)

read_inode-iupdate_other :
    (sb : SuperBlock) (dev j : ℕ) (ip : Inode) (s : Disk)
    → j ≢ ip.inum
    → SameFields (read_inode sb dev j (iupdate sb ip s)) (read_inode sb dev j s)
unfolding iupdate
read_inode-iupdate_other sb dev j ip s n = read_inode-same sb dev j (iupdate sb ip s) s (λ a g l.
    elim (Bool-cases (iblock sb ip.inum == iblock sb j)) [
      | inr e ↦ rw e refl
      | inl e ↦
          let o = dinode_at ip.inum in
          let apart : (a < o) ⊎ (o + 64 ≤ a) =
            ground (arith, inodes_apart ip.inum j (λ q. n (sym q))) in
          rw e (
            put_dinode-other o a ip (s.blocks (iblock sb ip.inum)) apart
            ∙ ap (λ (b : ℕ). s.blocks b a) ((==_iff _ _).0 e))
    ])

-- `iupdate` and then a read of the same inode give back all the fields of the inode, when they fit
-- in the shorts and uints of the disk; every other inode reads as before.
pub read_inode-iupdate :
    (sb : SuperBlock) (dev : ℕ) (ip : Inode) (s : Disk)
    → IsStorable ip
    → SameFields (read_inode sb dev ip.inum (iupdate sb ip s)) ip
      × ((j : ℕ)
          → j ≢ ip.inum
          → SameFields (read_inode sb dev j (iupdate sb ip s)) (read_inode sb dev j s))
unfolding read_inode iupdate put_dinode put_fields Reads
read_inode-iupdate sb dev ip s h =
    let b = iblock sb ip.inum in
    let o = dinode_at ip.inum in
    let now : update s.blocks b (put_dinode o ip (s.blocks b)) b ≡ put_dinode o ip (s.blocks b) =
      rw (==_refl b) refl in
    let (kind, major, minor, nlink, size) = put_dinode-fields o ip (s.blocks b) h in
    (
      rw now (
        kind,
        major,
        minor,
        nlink,
        size,
        λ i l. word_at-put_addrs 13 0 i o ip.addrs _ (omega arith) l (h.addrs i l),
      ),
      λ j n. read_inode-iupdate_other sb dev j ip s n,
    )
