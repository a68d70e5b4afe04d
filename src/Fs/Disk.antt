-- ===== src/Fs/Disk.antt =====
-- The disk that fs.c sees through the buffers: the bytes of each block, how uints and shorts lie in
-- them (fs.h), and `bzero`. A change of a buffer is followed by `log_write` of its block.
use xv6_public_os_project.Base.{
  ℕ, ◌+◌, ◌*◌, ◌/◌, ◌%◌, ◌≡◌, ◌<◌, ◌⊎◌, List, ◌∷◌, ◌==◌, if◌then◌else◌, update, word, arith,
}

abbrev pub Data : Type 0
Data = ℕ → ℕ

-- struct superblock
pub record SuperBlock : Type 0 where
  pub size : ℕ
  pub nblocks : ℕ
  pub ninodes : ℕ
  pub nlog : ℕ
  pub logstart : ℕ
  pub inodestart : ℕ
  pub bmapstart : ℕ

-- The blocks, and those that `log_write` has been called on in the transaction.
pub record Disk : Type 0 where
  pub blocks : ℕ → Data
  pub logged : List ℕ

abbrev pub bsize : ℕ
bsize = 512

-- The bits of the bitmap in a block.
abbrev pub bpb : ℕ
bpb = 4096

-- New content of a block, and `log_write`.
abbrev pub put_block : ℕ → Data → Disk → Disk
put_block b d s = record { blocks = update s.blocks b d; logged = b ∷ s.logged }

abbrev pub zeros : Data
zeros o = 0

-- `bzero`
unfoldable pub bzero : ℕ → Disk → Disk
bzero bno s = put_block bno zeros s

-- The uint at offset `o`, lowest byte first.
unfoldable pub word_at : Data → ℕ → ℕ
word_at d o = d o + 256 * d (o + 1) + 65536 * d (o + 2) + 16777216 * d (o + 3)

unfoldable pub put_word : ℕ → ℕ → Data → Data
put_word o w d a =
    if a == o
    then w % 256
    else if a == o + 1
    then w / 256 % 256
    else if a == o + 2
    then w / 65536 % 256
    else if a == o + 3
    then w / 16777216 % 256
    else d a

-- The ushort or short at offset `o`.
unfoldable pub half_at : Data → ℕ → ℕ
half_at d o = d o + 256 * d (o + 1)

unfoldable pub put_half : ℕ → ℕ → Data → Data
put_half o w d a = if a == o then w % 256 else if a == o + 1 then w / 256 % 256 else d a

put_word-lo : (o w : ℕ) (d : Data) → put_word o w d o ≡ w % 256
unfolding put_word
put_word-lo o w d = ground arith

pub word_at-put_word : (o w : ℕ) (d : Data) → w < word → word_at (put_word o w d) o ≡ w
unfolding word_at put_word
word_at-put_word o w d h = ground arith

-- Outside its four bytes nothing changes.
pub word_at-put_word_other :
    (o p w : ℕ) (d : Data) → (o + 3 < p) ⊎ (p + 3 < o) → word_at (put_word o w d) p ≡ word_at d p
unfolding word_at put_word
word_at-put_word_other o p w d h = ground arith

pub put_word-other : (o a w : ℕ) (d : Data) → (a < o) ⊎ (o + 3 < a) → put_word o w d a ≡ d a
unfolding put_word
put_word-other o a w d h = ground arith
