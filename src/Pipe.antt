-- ===== src/Pipe.antt =====
-- pipe.c: `pipewrite`, `piperead` and `pipeclose` on a pipe's ring of PIPESIZE bytes, which the
-- counters `nread` and `nwrite` index modulo 2 ^ 32. A call that sleeps ends in `asleep` with what
-- it still has to do, and is made again on that when it wakes.
pub mod Ring
pub mod Transfer
pub mod Stream
mod Tests
use xv6_public_os_project.Base.{
  ℕ, zero, suc, ◌+◌, ◌%◌, Bool, true, false, not, ◌&&◌, ◌||◌, List, [], ◌∷◌, ◌==◌, if◌then◌else◌,
  set, get_or, add32,
}

abbrev pub pipesize : ℕ
pipesize = 512

-- struct pipe, less its lock.
pub record Pipe : Type 0 where
  pub bytes : List ℕ
  pub nread : ℕ
  pub nwrite : ℕ
  pub readopen : Bool
  pub writeopen : Bool

-- The fields that `pipealloc` sets, over a fresh page.
unfoldable pub fresh : List ℕ → Pipe
fresh page = record { bytes = page; nread = 0; nwrite = 0; readopen = true; writeopen = true }

pub data Written : Type 0 where
  failed : Pipe → Written
  asleep : List ℕ → Pipe → Written
  wrote : ℕ → Pipe → Written

-- `p->data[p->nwrite++ % PIPESIZE] = c`
unfoldable pub put : Pipe → ℕ → Pipe
put p c = record p { bytes = set p.bytes (p.nwrite % pipesize) c; nwrite = add32 p.nwrite 1 }

-- `pipewrite` from the next byte on; `n` is the count that it returns at the end.
unfoldable pub pipewrite : Bool → ℕ → List ℕ → Pipe → Written
pipewrite killed n [] p = wrote n p
pipewrite killed n (c ∷ cs) p =
    if p.nwrite == add32 p.nread pipesize
    then if not p.readopen || killed then failed p else asleep (c ∷ cs) p
    else pipewrite killed n cs (put p c)

pub data Got : Type 0 where
  failed : Got
  asleep : Got
  got : List ℕ → Pipe → Got

-- `p->data[p->nread++ % PIPESIZE]`, the byte and the state after it
unfoldable pub oldest : Pipe → ℕ
oldest p = get_or p.bytes (p.nread % pipesize) 0

unfoldable pub skip : Pipe → Pipe
skip p = record p { nread = add32 p.nread 1 }

-- The copy loop of `piperead`: the bytes and the pipe after them.
unfoldable pub copy_out : ℕ → Pipe → List ℕ × Pipe
copy_out zero p = ([], p)
copy_out (suc n) p =
    if p.nread == p.nwrite
    then ([], p)
    else (oldest p ∷ (copy_out n (skip p)).0, (copy_out n (skip p)).1)

unfoldable pub piperead : Bool → ℕ → Pipe → Got
piperead killed n p =
    if (p.nread == p.nwrite) && p.writeopen
    then if killed then Got.failed else Got.asleep
    else got (copy_out n p).0 (copy_out n p).1

-- The pipe, and whether its page is freed.
unfoldable pub pipeclose : Pipe → Bool → Pipe × Bool
pipeclose p writable =
    let q = if writable then record p { writeopen = false } else record p { readopen = false } in
    (q, not q.readopen && not q.writeopen)
