-- ===== src/File/Inodes.antt =====
-- `filewrite` (file.c) on an inode, with the `writei` of fs.c as the inode layer.
use xv6_public_os_project.File.{File, fd_inode}
use xv6_public_os_project.File.Writing.{max_chunk, Outcome, panic, to_pipe, failed, did, filewrite}
use xv6_public_os_project.File.Chunks.{Stores, Written, filewrite-Written, max_chunk_eq}
use xv6_public_os_project.Fs.Disk.{SuperBlock, Disk}
use xv6_public_os_project.Fs.Inode.{Inode, Io, failed, to_device, panic, done, writei}
use xv6_public_os_project.Fs.Content.{most, content}
use xv6_public_os_project.Fs.Splicing.{spliced, spliced-append}
use xv6_public_os_project.Fs.Writing.{IsFile, Writes, writei-Writes}
use xv6_public_os_project.Base.{
  ℕ, ◌+◌, ◌≤◌, ◌<◌, ◌≡◌, ◌⊎◌, inl, inr, refl, sym, ap, ◌∙◌, true, Bool, Option, none, some, List,
  [], ◌++◌, ◌==◌, if◌then◌else◌, length, take, drop, arith, word, length-append, length-take,
}
use Prim.Native.Nat.{max}

abbrev value : Option ℕ → ℕ
value none = 0
value (some n) = n

-- What `writei` returned, with the inode and the disk after it; `none` for them where it panicked,
-- since nothing runs after that. A device's own function is not reached for a plain file.
abbrev pub returned : Inode → Disk → Io ℕ → Option ℕ × Option (Inode × Disk)
returned ip s failed = (none, some (ip, s))
returned ip s (to_device d) = (none, none)
returned ip s panic = (none, none)
returned ip s (done n jp t) = (some n, some (jp, t))

-- The call of `writei` in `filewrite`.
abbrev pub call_writei :
    (ℕ → Bool) → SuperBlock → ℕ → List ℕ → Option (Inode × Disk) → Option ℕ × Option (Inode × Disk)
call_writei has_write sb off bs none = (none, none)
call_writei has_write sb off bs (some (ip, s)) = returned ip s (writei has_write sb ip bs off s)

-- The size of a file after a write of `bs` at `off`.
abbrev extent : ℕ → List ℕ → ℕ → ℕ
extent off bs n = if length bs == 0 then n else max n (off + length bs)

-- The file holds the bytes at the offset, and else what it held.
abbrev Filled : ℕ → List ℕ → Inode → Disk → Inode → Disk → Type 0
Filled off bs ip s jp t =
    ((p : ℕ) → p < most → content jp t p ≡ spliced off bs (content ip s) p)
    × (jp.size ≡ extent off bs ip.size)

abbrev Good : SuperBlock → Option (Inode × Disk) → Type 0
Good sb none = ⊥
Good sb (some (ip, s)) = IsFile sb ip s

abbrev Stored : ℕ → List ℕ → Option (Inode × Disk) → Option (Inode × Disk) → Type 0
Stored off bs none t = ⊥
Stored off bs (some (ip, s)) none = ⊥
Stored off bs (some (ip, s)) (some (jp, t)) = Filled off bs ip s jp t

Stored-append :
    (off : ℕ) (xs ys : List ℕ) (s t u : Option (Inode × Disk))
    → Stored off xs s t
    → Stored (off + length xs) ys t u
    → Stored off (xs ++ ys) s u
Stored-append off xs ys none t u a b = absurd a
Stored-append off xs ys (some (ip, s)) none u a b = absurd a
Stored-append off xs ys (some (ip, s)) (some (jp, t)) none a b = absurd b
Stored-append off xs ys (some (ip, s)) (some (jp, t)) (some (kp, u)) (bytes, size) (bytes', size') =
    (
      λ p h. bytes' p h ∙ spliced-append off xs ys (content ip s) (content jp t) p (bytes p h),
      ground (arith, size, size', length-append xs ys),
    )

returned-all :
    (has_write : ℕ → Bool) (sb : SuperBlock) (off n : ℕ) (bs : List ℕ) (ip : Inode) (s : Disk)
    (o : Io ℕ)
    → 0 < length bs
    → Writes has_write sb ip bs off s o
    → (returned ip s o).0 ≡ some n
    → (n ≡ length bs)
      × Good sb (returned ip s o).1
      × Stored off bs (some (ip, s)) (returned ip s o).1
returned-all has_write sb off n bs ip s failed pos w e = absurd (cc)
returned-all has_write sb off n bs ip s (to_device d) pos w e = absurd w
returned-all has_write sb off n bs ip s panic pos w e = absurd (cc)
returned-all has_write sb off n bs ip s (done m jp t) pos (len, file, bytes, size, same) e =
    (omega (arith, len, ap value e), file, (bytes, ground (arith, size)))

call_writei-Stores :
    (has_write : ℕ → Bool) (sb : SuperBlock) → Stores (call_writei has_write sb) (Good sb) Stored
call_writei-Stores has_write sb = record { nil = nil; append = Stored-append; all = all }
  where
    nil : (off : ℕ) (s : Option (Inode × Disk)) → Good sb s → Stored off [] s s
    nil off none g = g
    nil off (some (ip, s)) g = (λ p h. ground arith, refl)

    all :
        (off n : ℕ) (bs : List ℕ) (s : Option (Inode × Disk))
        → 0 < length bs
        → length bs ≤ 1536
        → Good sb s
        → (call_writei has_write sb off bs s).0 ≡ some n
        → (n ≡ length bs)
          × Good sb (call_writei has_write sb off bs s).1
          × Stored off bs s (call_writei has_write sb off bs s).1
    all off n bs none pos h g e = absurd g
    all off n bs (some (ip, s)) pos h g e =
        returned-all has_write sb off n bs ip s (writei has_write sb ip bs off s) pos
          (writei-Writes has_write sb ip bs off s g (omega arith)) e

-- The bytes `chunk` are not written: they do not fit where the offset puts them, or `writei` panics.
abbrev Refused :
    (ℕ → Bool) → SuperBlock → ℕ → List ℕ → Inode → Disk → Option (Inode × Disk) → Type 0
Refused has_write sb off chunk ip s u =
    (((ip.size < off) ⊎ (most < off + length chunk)) × (u ≡ some (ip, s)))
    ⊎ ((writei has_write sb ip chunk off s ≡ panic)
        × Writes has_write sb ip chunk off s panic
        × (u ≡ none))

-- What `filewrite` comes to.
abbrev pub Filed :
    (ℕ → Bool) → SuperBlock → Inode → Disk → ℕ → List ℕ → Outcome (Option (Inode × Disk)) → Type 0
Filed has_write sb ip s off addr panic = ⊥
Filed has_write sb ip s off addr (to_pipe p) = ⊥
Filed has_write sb ip s off addr (did r end none) = ⊥
Filed has_write sb ip s off addr (did r end (some (jp, t))) =
    (r ≡ length addr) × (end ≡ off + length addr) × IsFile sb jp t × Filled off addr ip s jp t
Filed has_write sb ip s off addr (failed end u) =
    (k : ℕ) × (k < length addr)
    × (end ≡ off + k)
    × ((jp : Inode) × (t : Disk) × IsFile sb jp t
        × Filled off (take k addr) ip s jp t
        × Refused has_write sb end (take max_chunk (drop k addr)) jp t u)

returned-Refused :
    (has_write : ℕ → Bool) (sb : SuperBlock) (off : ℕ) (bs : List ℕ) (ip : Inode) (s : Disk)
    (u : Option (Inode × Disk)) (o : Io ℕ)
    → writei has_write sb ip bs off s ≡ o
    → Writes has_write sb ip bs off s o
    → returned ip s o ≡ (none, u)
    → Refused has_write sb off bs ip s u
returned-Refused has_write sb off bs ip s u failed r w e = inl (w, sym (ap (λ p. p.1) e))
returned-Refused has_write sb off bs ip s u (to_device d) r w e = absurd w
returned-Refused has_write sb off bs ip s u panic r w e = inr (r, w, sym (ap (λ p. p.1) e))
returned-Refused has_write sb off bs ip s u (done n jp t) r w e =
    let impossible : some n ≡ none = ap (λ p. p.0) e in absurd (cc)

Written-Filed :
    (has_write : ℕ → Bool) (sb : SuperBlock) (ip : Inode) (s : Disk) (off : ℕ) (addr : List ℕ)
    (o : Outcome (Option (Inode × Disk)))
    → Written (call_writei has_write sb) (Good sb) Stored (length addr) off addr (some (ip, s)) o
    → Filed has_write sb ip s off addr o
Written-Filed has_write sb ip s off addr panic w = w
Written-Filed has_write sb ip s off addr (to_pipe p) w = w
Written-Filed has_write sb ip s off addr (did r end none) (a, b, good, d) = good
Written-Filed has_write sb ip s off addr (did r end (some (jp, t))) w = w
Written-Filed has_write sb ip s off addr (failed end u) (k, lt, e, (none, good, d, fails)) =
    absurd good
Written-Filed has_write sb ip s off addr (failed end u) (k, lt, e, (some (jp, t), good, d, fails)) =
    let chunk = take max_chunk (drop k addr) in
    (
      k,
      lt,
      e,
      (
        jp,
        t,
        good,
        d,
        rw e (
            returned-Refused has_write sb (off + k) chunk jp t u _ refl
              (writei-Writes has_write sb jp chunk (off + k) t good
                (omega (arith, max_chunk_eq, length-take max_chunk (drop k addr))))
              fails),
      ),
    )

-- `filewrite` with the `writei` of fs.c, on a file open for writing whose inode is a plain file
-- (no device, with blocks of its own for all of its size, which is at most MAXFILE blocks, and
-- whose block on the disk lies in front of the bitmap; the disk has fewer than 2 ^ 31 blocks,
-- and all of it in front of its data blocks is in use), where the end of the bytes does not
-- wrap: it never panics on a short write. Either it returns the number of the bytes, and they
-- are in the file at the offset, which has advanced past them; or only the first `k` of the
-- bytes are in the file, the offset has advanced past these, and the `writei` of the next chunk
-- fails, so that -1 is returned, as the chunk begins beyond the file's end or goes beyond the
-- greatest size, or it panics, where a first part of the chunk leaves a disk that has no two
-- free blocks. With these bytes in it, before that last call: every other byte is as before, the
-- file has grown to their end if that lies behind its own, and it is a plain file still.
pub filewrite-Filed :
    (has_write : ℕ → Bool) (sb : SuperBlock) (f : File) (addr : List ℕ) (ip : Inode) (s : Disk)
    → f.writable ≡ true
    → f.kind ≡ fd_inode
    → f.off + length addr < word
    → IsFile sb ip s
    → Filed has_write sb ip s f.off addr
        (filewrite (call_writei has_write sb) f addr (some (ip, s)))
filewrite-Filed has_write sb f addr ip s w k b file = Written-Filed has_write sb ip s f.off addr _ (
    filewrite-Written (call_writei has_write sb) (Good sb) Stored (call_writei-Stores has_write sb)
      f addr (some (ip, s)) w k b file)
