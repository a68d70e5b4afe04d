-- ===== src/Log/Header.antt =====
-- The header block of the log (struct logheader): word 0 is `n`, the words behind it are the
-- block numbers. In memory the header is the list of its first `n` block numbers.
use xv6_public_os_project.Log.Device.{Block}
use xv6_public_os_project.Base.{
  ℕ, zero, suc, ◌+◌, ◌*◌, ◌≤◌, ◌<◌, ◌≡◌, refl, ◌∙◌, List, [], ◌∷◌, ltb, if◌then◌else◌, length,
  get_or, set, length-set, half_word, arith, lt→ltb, get_or-set_self, get_or-set_ne,
}

-- MAXOPBLOCKS and LOGSIZE (param.h)
abbrev pub max_op_blocks : ℕ
max_op_blocks = 10

abbrev pub log_size : ℕ
log_size = max_op_blocks * 3

-- The rounds of `for (i = 0; i < n; i++)` for an int `n`.
abbrev pub rounds : ℕ → ℕ
rounds n = if ltb n half_word then n else 0

pub read_entries : Block → ℕ → ℕ → List ℕ
read_entries blk i zero = []
read_entries blk i (suc k) = get_or blk (i + 1) 0 ∷ read_entries blk (i + 1) k

-- `read_head`, on the header block's data
unfoldable pub decode : Block → List ℕ
unfolding read_entries
decode blk = read_entries blk 0 (rounds (get_or blk 0 0))

pub write_entries : List ℕ → ℕ → Block → Block
write_entries [] i blk = blk
write_entries (b ∷ bs) i blk = write_entries bs (i + 1) (set blk (i + 1) b)

-- `write_head`, on the header block's data
unfoldable pub encode : List ℕ → Block → Block
unfolding write_entries
encode lh blk = write_entries lh 0 (set blk 0 (length lh))

-- The entries leave the words in front of them alone.
get_or-write_entries :
    (bs : List ℕ) (i j : ℕ) (blk : Block)
    → j ≤ i
    → get_or (write_entries bs i blk) j 0 ≡ get_or blk j 0
unfolding write_entries
get_or-write_entries [] i j blk h = refl
get_or-write_entries (b ∷ bs) i j blk h =
    get_or-write_entries bs (i + 1) j (set blk (i + 1) b) (omega arith)
    ∙ get_or-set_ne blk (i + 1) j b 0 (omega arith)

read_entries-write_entries :
    (bs : List ℕ) (i : ℕ) (blk : Block)
    → i + length bs < length blk
    → read_entries (write_entries bs i blk) i (length bs) ≡ bs
unfolding read_entries write_entries
read_entries-write_entries [] i blk h = refl
read_entries-write_entries (b ∷ bs) i blk h =
    let rest =
      read_entries-write_entries bs (i + 1) (set blk (i + 1) b)
        (omega (arith, length-set blk (i + 1) b)) in
    λ k. first k ∷ rest k
  where
    first : get_or (write_entries bs (i + 1) (set blk (i + 1) b)) (i + 1) 0 ≡ b
    first =
        get_or-write_entries bs (i + 1) (i + 1) (set blk (i + 1) b) (omega arith)
        ∙ get_or-set_self blk (i + 1) b 0 (omega arith)

length-write_entries :
    (bs : List ℕ) (i : ℕ) (blk : Block) → length (write_entries bs i blk) ≡ length blk
unfolding write_entries
length-write_entries [] i blk = refl
length-write_entries (b ∷ bs) i blk =
    length-write_entries bs (i + 1) (set blk (i + 1) b) ∙ length-set blk (i + 1) b

pub length-encode : (lh : List ℕ) (blk : Block) → length (encode lh blk) ≡ length blk
unfolding encode
length-encode lh blk =
    length-write_entries lh 0 (set blk 0 (length lh)) ∙ length-set blk 0 (length lh)

-- What `write_head` puts into a block that has room for it, `read_head` takes out again.
pub decode-encode :
    (lh : List ℕ) (blk : Block)
    → length lh < length blk
    → length lh < half_word
    → decode (encode lh blk) ≡ lh
unfolding decode encode
decode-encode lh blk h small =
    rw (count, lt→ltb (length lh) half_word small)
      (read_entries-write_entries lh 0 (set blk 0 (length lh))
        (omega (arith, length-set blk 0 (length lh))))
  where
    count : get_or (write_entries lh 0 (set blk 0 (length lh))) 0 0 ≡ length lh
    count =
        get_or-write_entries lh 0 0 (set blk 0 (length lh)) (omega arith)
        ∙ get_or-set_self blk 0 (length lh) 0 (omega arith)
