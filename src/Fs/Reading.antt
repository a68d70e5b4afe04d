-- ===== src/Fs/Reading.antt =====
-- `readi` (fs.c) against the content of the file.
use xv6_public_os_project.Fs.Disk.{SuperBlock, Disk}
use xv6_public_os_project.Fs.Inode.{
  Inode, t_dev, get_bytes, failed, done, readi_loop, readi, writei,
}
use xv6_public_os_project.Fs.Blocks.{slot}
use xv6_public_os_project.Fs.Bmap.{slot_of}
use xv6_public_os_project.Fs.Content.{most, content, content-there, bmap-there, bytes_from}
use xv6_public_os_project.Fs.Writing.{IsFile, Writes, writei-Writes}
use xv6_public_os_project.Base.{
  ℕ, zero, suc, ◌+◌, ◌-◌, ◌*◌, ◌/◌, ◌%◌, ◌≤◌, ◌<◌, ◌≡◌, ◌≢◌, refl, ap, ◌∙◌, subst, Bool, true,
  false, ◌||◌, List, [], ◌∷◌, ◌++◌, ◌==◌, if◌then◌else◌, ltb, leb, arith, Bool-cases, add32, word,
  inl, inr, length, get_or, get_or-cons, get_or-head,
}
use Prim.Native.Nat.{min}

-- The bytes of a block of the file are those of its content.
get_bytes_lem :
    (ip : Inode) (s : Disk) (bn a m o off : ℕ)
    → slot ip s (slot_of bn) ≡ a
    → a ≢ 0
    → off ≡ bn * 512 + o
    → o + m ≤ 512
    → get_bytes m o (s.blocks a) ≡ bytes_from (content ip s) off m
unfolding get_bytes
get_bytes_lem ip s bn a zero o off e n at h = refl
get_bytes_lem ip s bn a (suc m) o off e n at h =
    let block : off / 512 ≡ bn = omega arith in
    let place : off % 512 ≡ o = omega arith in
    let here =
      content-there ip s off a (ap (λ (b : ℕ). slot ip s (slot_of b)) block ∙ e) n
      ∙ ap (s.blocks a) place in
    let rest = get_bytes_lem ip s bn a m (o + 1) (off + 1) e n (omega arith) (omega arith) in
    rw (here, rest) refl

bytes_from-append :
    (f : ℕ → ℕ) (off m n : ℕ)
    → bytes_from f off m ++ bytes_from f (off + m) n ≡ bytes_from f off (m + n)
bytes_from-append f off zero n =
    let at : off + 0 ≡ off = omega arith in let all : 0 + n ≡ n = omega arith in rw (at, all) refl
bytes_from-append f off (suc m) n =
    let all : suc m + n ≡ suc (m + n) = omega arith in
    let at : off + suc m ≡ off + 1 + m = omega arith in
    rw (all, at, bytes_from-append f (off + 1) m n) refl

-- The loop where every block is there.
readi_loop_lem :
    (fuel : ℕ) (sb : SuperBlock) (ip : Inode) (off n : ℕ) (s : Disk)
    → n ≤ fuel
    → off + n ≤ most
    → ((p : ℕ) → off ≤ p → p < off + n → slot ip s (slot_of (p / 512)) ≢ 0)
    → readi_loop fuel sb ip off n s ≡ done (bytes_from (content ip s) off n) ip s
unfolding readi_loop
readi_loop_lem zero sb ip off zero s h b there = refl
readi_loop_lem zero sb ip off (suc n) s h b there = absurd (omega arith)
readi_loop_lem (suc fuel) sb ip off zero s h b there = refl
readi_loop_lem (suc fuel) sb ip off (suc n) s h b there =
    let m = min (suc n) (512 - off % 512) in
    let nz : (suc n == 0) ≡ false = ground arith in
    let here = there off (omega arith) (omega arith) in
    let found = bmap-there sb ip (off / 512) s (omega arith) here in
    let chunk =
      get_bytes_lem ip s (off / 512) (slot ip s (slot_of (off / 512))) m (off % 512) off refl here
        (omega arith) (omega arith) in
    let rest =
      readi_loop_lem fuel sb ip (off + m) (suc n - m) s (omega arith) (omega arith)
        (λ p g l. there p (omega arith) (omega arith)) in
    let all : m + (suc n - m) ≡ suc n = omega arith in
    rw (nz, found, rest, chunk)
      (ap (λ (l : List ℕ). done l ip s)
        (bytes_from-append (content ip s) off m (suc n - m)
          ∙ ap (bytes_from (content ip s) off) all))

-- `readi` of fewer than 2 ^ 32 bytes of a plain file (an inode that is no device, with blocks of
-- its own for all of its size, which is at most MAXFILE blocks, and whose block on the disk lies
-- in front of the bitmap; the disk has fewer than 2 ^ 31 blocks, and all of it in front of its
-- data blocks is in use) never panics and changes nothing. It fails exactly where the offset
-- lies beyond the file's end or the sum with `n` wraps; else it returns the bytes from the
-- offset on, `n` of them or as many as the file has.
pub readi_lem :
    (has_read : ℕ → Bool) (sb : SuperBlock) (ip : Inode) (off n : ℕ) (s : Disk)
    → IsFile sb ip s
    → n < word
    → readi has_read sb ip off n s ≡ (
        if ltb ip.size off || leb word (off + n)
        then failed
        else done (bytes_from (content ip s) off (min n (ip.size - off))) ip s)
unfolding readi
readi_lem has_read sb ip off n s f small =
    let plain : (ip.kind == t_dev) ≡ false = ground (arith, f.plain) in
    elim (Bool-cases (ltb ip.size off || leb word (off + n))) [
      | inl e ↦
          let guard : (ltb ip.size off || ltb (add32 off n) off) ≡ true = ground (arith, f.fits) in
          rw (plain, guard, e) refl
      | inr e ↦
          let guard : (ltb ip.size off || ltb (add32 off n) off) ≡ false = ground (arith, f.fits) in
          let len : (if ltb ip.size (add32 off n) then ip.size - off else n)
              ≡ min n (ip.size - off) =
            ground (arith, f.fits) in
          let m = min n (ip.size - off) in
          rw (plain, guard, e, len)
            (readi_loop_lem m sb ip off m s (omega arith) (ground (arith, f.fits))
              (λ p g l. f.full p (ground arith)))
    ]

bytes_from-spliced :
    (f : ℕ → ℕ) (off : ℕ) (src : List ℕ)
    → ((p : ℕ) → off ≤ p → p < off + length src → f p ≡ get_or src (p - off) 0)
    → bytes_from f off (length src) ≡ src
bytes_from-spliced f off [] h = refl
bytes_from-spliced f off (c ∷ cs) h =
    let first = h off (omega arith) (omega arith) ∙ get_or-head c cs off off refl in
    let rest =
      bytes_from-spliced f (off + 1) cs
        (λ p g l. h p (omega arith) (omega arith) ∙ get_or-cons c cs off p (omega arith)) in
    rw (first, rest) refl

-- A read of what has been written: after a `writei` of fewer than 2 ^ 32 bytes to a plain file
-- (an inode that is no device, with blocks of its own for all of its size, which is at most
-- MAXFILE blocks, and whose block on the disk lies in front of the bitmap; the disk has fewer
-- than 2 ^ 31 blocks, and all of it in front of its data blocks is in use) that is done, `readi`
-- at the same offset returns the bytes of that write.
pub readi-writei :
    (has : ℕ → Bool) (sb : SuperBlock) (ip ip' : Inode) (src : List ℕ) (off n : ℕ) (s t : Disk)
    → IsFile sb ip s
    → length src < word
    → writei has sb ip src off s ≡ done n ip' t
    → readi has sb ip' off (length src) t ≡ done src ip' t
readi-writei has sb ip ip' src off n s t f small e =
    let (len, file, bytes, size, rest) =
      subst (Writes has sb ip src off s) e (writei-Writes has sb ip src off s f small) in
    let fine : (ltb ip'.size off || leb word (off + length src)) ≡ false =
      ground (arith, size, file.fits) in
    let all : min (length src) (ip'.size - off) ≡ length src = omega (arith, size) in
    let back =
      bytes_from-spliced (content ip' t) off src
        (λ p g l. ground (arith, bytes p (omega (arith, size, file.fits)))) in
    readi_lem has sb ip' off (length src) t file small ∙ (rw (fine, all, back) refl)
