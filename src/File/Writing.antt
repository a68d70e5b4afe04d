-- ===== src/File/Writing.antt =====
-- `filewrite`, `fileread` and `filestat` (file.c). `writei` and `readi` stand for the inode layer: the result,
-- `none` for a negative int, and the layer's state. `n` is not negative: it counts the bytes given.
use xv6_public_os_project.File.{File, fd_none, fd_pipe, fd_inode}
use xv6_public_os_project.Base.{
  ℕ, zero, suc, ◌-◌, ◌*◌, ◌/◌, true, false, Option, none, some, List, ◌==◌, if◌then◌else◌, ltb,
  take, drop, length, add32, not,
}
use xv6_public_os_project.Log.Header.{max_op_blocks}

-- The bytes written in one transaction at most.
unfoldable pub max_chunk : ℕ
max_chunk = (max_op_blocks - 1 - 1 - 2) / 2 * 512

-- What a call comes to: a panic, `pipewrite` or `piperead` of that pipe, the result -1, or a number
-- of bytes; with the offset and the state of the inode layer after it.
pub data Outcome (S : Type 0) : Type 0 where
  panic : Outcome S
  to_pipe : ℕ → Outcome S
  failed : ℕ → S → Outcome S
  did : ℕ → ℕ → S → Outcome S

module _ {S : Type 0} (writei : ℕ → List ℕ → S → Option ℕ × S) where
  -- The loop of `filewrite`, with `fuel` rounds left and the bytes `rest` to write.
  unfoldable pub write_loop : ℕ → ℕ → List ℕ → ℕ → S → Outcome S
  write_loop zero n rest off s = if length rest == 0 then did n off s else failed off s
  write_loop (suc fuel) n rest off s =
      let (o, s') = writei off (take max_chunk rest) s in
      if ltb 0 (length rest)
      then elim o [
        | none ↦ failed off s'
        | some r ↦ elim (r == length (take max_chunk rest)) [
          | true ↦ write_loop fuel n (drop max_chunk rest) (add32 off r) s'
          | false ↦ panic
        ]
      ]
      else did n off s

  -- Every round writes a byte, so that there are no more rounds than bytes.
  unfoldable pub filewrite : File → List ℕ → S → Outcome S
  filewrite f addr s = if not f.writable then failed f.off s else elim f.kind [
    | fd_none ↦ panic
    | fd_pipe ↦ to_pipe f.pipe
    | fd_inode ↦ write_loop (length addr) (length addr) addr f.off s
  ]

unfoldable pub fileread : {S : Type 0} → (ℕ → ℕ → S → Option ℕ × S) → File → ℕ → S → Outcome S
fileread readi f n s =
    let (o, s') = readi f.off n s in
    if not f.readable then failed f.off s else elim f.kind [
      | fd_none ↦ panic
      | fd_pipe ↦ to_pipe f.pipe
      | fd_inode ↦ elim o [ none ↦ failed f.off s' | some r ↦ did r (add32 f.off r) s' ]
    ]

-- `filestat`: what `stati` reads of the inode, for an inode.
unfoldable pub filestat : {A : Type 0} → (ℕ → A) → File → Option A
filestat stati f = elim f.kind [ fd_none ↦ none | fd_pipe ↦ none | fd_inode ↦ some (stati f.ip) ]
