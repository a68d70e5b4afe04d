-- ===== src/File/Chunks.antt =====
-- `filewrite` (file.c) on an inode, over any inode layer whose `writei` writes all or fails.
use xv6_public_os_project.File.{File, fd_inode}
use xv6_public_os_project.File.Writing.{
  max_chunk, Outcome, panic, to_pipe, failed, did, write_loop, filewrite,
}
use xv6_public_os_project.Base.{
  ℕ, zero, suc, ◌+◌, ◌≤◌, ◌<◌, ◌≡◌, refl, sym, ap, subst, true, Option, none, some, List, [], ◌∷◌,
  ◌++◌, ==_refl, ◌==◌, ltb, length, take, drop, arith, add32, word, length-take, length-drop,
  length-append, take-append-drop, take-append, drop-append,
}

-- An inode layer whose `writei`, in a good state, returns the number of the bytes or fails.
-- `Stored off bs s t` says that from `s` to `t` the bytes `bs` have been stored at `off`.
pub record Stores {S : Type 0} (writei : ℕ → List ℕ → S → Option ℕ × S) (Good : S → Type 0)
    (Stored : ℕ → List ℕ → S → S → Type 0) : Type 0 where
  pub nil : (off : ℕ) (s : S) → Good s → Stored off [] s s
  pub append :
      (off : ℕ) (xs ys : List ℕ) (s t u : S)
      → Stored off xs s t
      → Stored (off + length xs) ys t u
      → Stored off (xs ++ ys) s u
  pub all :
      (off n : ℕ) (bs : List ℕ) (s : S)
      → 0 < length bs
      → length bs ≤ 1536
      → Good s
      → (writei off bs s).0 ≡ some n
      → (n ≡ length bs) × Good (writei off bs s).1 × Stored off bs s (writei off bs s).1

pub max_chunk_eq : max_chunk ≡ 1536
unfolding max_chunk
max_chunk_eq = refl

module _ {S : Type 0} (writei : ℕ → List ℕ → S → Option ℕ × S) (Good : S → Type 0)
    (Stored : ℕ → List ℕ → S → S → Type 0) where
  -- What the loop comes to: all of the bytes are stored, or those in front of a call of `writei` that
  -- fails.
  abbrev pub Written : ℕ → ℕ → List ℕ → S → Outcome S → Type 0
  Written n off rest s panic = ⊥
  Written n off rest s (to_pipe p) = ⊥
  Written n off rest s (did r end u) =
      (r ≡ n) × (end ≡ off + length rest) × Good u × Stored off rest s u
  Written n off rest s (failed end u) =
      (k : ℕ) × (k < length rest)
      × (end ≡ off + k)
      × ((t : S) × Good t
          × Stored off (take k rest) s t
          × (writei (off + k) (take max_chunk (drop k rest)) t ≡ (none, u)))

  module _ (law : Stores writei Good Stored) where
    -- A chunk, and then the others.
    Written-append :
        (n off : ℕ) (xs ys : List ℕ) (s t : S) (o : Outcome S)
        → Stored off xs s t
        → Written n (off + length xs) ys t o
        → Written n off (xs ++ ys) s o
    Written-append n off xs ys s t panic c w = w
    Written-append n off xs ys s t (to_pipe p) c w = w
    Written-append n off xs ys s t (did r end u) c (a, b, good, d) =
        (a, omega (arith, b, length-append xs ys), good, law.append off xs ys s t u c d)
    Written-append n off xs ys s t (failed end u) c (k, lt, b, (v, good, d, fails)) =
        let at : off + (length xs + k) ≡ off + length xs + k = omega arith in
        (
          length xs + k,
          omega (arith, length-append xs ys),
          omega (arith, b),
          (
            v,
            good,
            rw (take-append xs k ys) (law.append off xs (take k ys) s t v c d),
            rw (at, drop-append xs k ys) fails,
          ),
        )

    -- One round, whose call of `writei` comes to `o`.
    round-Written :
        (fuel n : ℕ) (rest : List ℕ) (off : ℕ) (s : S) (o : Option ℕ)
        → (writei off (take max_chunk rest) s).0 ≡ o
        → 0 < length rest
        → length rest ≤ suc fuel
        → off + length rest < word
        → Good s
        → ((ys : List ℕ) (at : ℕ) (t : S)
            → length ys ≤ fuel
            → at + length ys < word
            → Good t
            → Written n at ys t (write_loop writei fuel n ys at t))
        → Written n off rest s (write_loop writei (suc fuel) n rest off s)
    unfolding write_loop
    round-Written fuel n rest off s none e pos h b good later =
        let some_left : ltb 0 (length rest) ≡ true = ground arith in
        let at : off + 0 ≡ off = omega arith in
        let xs = take max_chunk rest in
        rw (some_left, e)
          (
            0,
            pos,
            sym at,
            (
              s,
              good,
              law.nil off s good,
              rw at (ap (λ (o : Option ℕ). (o, (writei off xs s).1)) e),
            ),
          )
    round-Written fuel n rest off s (some r) e pos h b good later =
        let some_left : ltb 0 (length rest) ≡ true = ground arith in
        let xs = take max_chunk rest in
        let ys = drop max_chunk rest in
        let t = (writei off xs s).1 in
        let small : length xs ≤ 1536 = omega (arith, max_chunk_eq, length-take max_chunk rest) in
        let some_bytes : 0 < length xs = omega (arith, max_chunk_eq, length-take max_chunk rest) in
        let (all, good', stored) = law.all off r xs s some_bytes small good e in
        let test : (r == length xs) ≡ true = rw all (==_refl (length xs)) in
        let step : add32 off r ≡ off + length xs = omega (arith, all, length-take max_chunk rest) in
        let whole =
          later ys (off + length xs) t (omega (arith, max_chunk_eq, length-drop max_chunk rest))
            (omega (arith, length-take max_chunk rest, length-drop max_chunk rest)) good' in
        rw (some_left, e, test, step)
          (subst
            (λ (l : List ℕ). Written n off l s (write_loop writei fuel n ys (off + length xs) t))
            (take-append-drop max_chunk rest) (Written-append n off xs ys s t _ stored whole))

    write_loop-Written :
        (fuel n : ℕ) (rest : List ℕ) (off : ℕ) (s : S)
        → length rest ≤ fuel
        → off + length rest < word
        → Good s
        → Written n off rest s (write_loop writei fuel n rest off s)
    unfolding write_loop
    write_loop-Written zero n [] off s h b good = (refl, omega arith, good, law.nil off s good)
    write_loop-Written zero n (c ∷ cs) off s h b good = absurd (omega arith)
    write_loop-Written (suc fuel) n [] off s h b good =
        (refl, omega arith, good, law.nil off s good)
    write_loop-Written (suc fuel) n (c ∷ cs) off s h b good =
        round-Written fuel n (c ∷ cs) off s _ refl (omega arith) h b good
          (write_loop-Written fuel n)

    -- `filewrite` of an inode open for writing, in a good state of the inode layer.
    pub filewrite-Written :
        (f : File) (addr : List ℕ) (s : S)
        → f.writable ≡ true
        → f.kind ≡ fd_inode
        → f.off + length addr < word
        → Good s
        → Written (length addr) f.off addr s (filewrite writei f addr s)
    unfolding filewrite
    filewrite-Written f addr s w k b good =
        rw (w, k) (write_loop-Written (length addr) (length addr) addr f.off s (omega arith) b good)
