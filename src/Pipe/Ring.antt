-- ===== src/Pipe/Ring.antt =====
-- The bytes that a pipe holds, oldest first, and how one `put` or `skip` changes them.
use xv6_public_os_project.Pipe.{Pipe, pipesize, put, oldest, skip}
use xv6_public_os_project.Base.{
  ℕ, zero, suc, ◌+◌, ◌%◌, ◌≤◌, ◌<◌, ◌≡◌, ◌≢◌, refl, ap, ◌∙◌, List, [], ◌∷◌, ◌++◌, length, set,
  get_or, length-set, get_or-set_self, get_or-set_ne, add32, sub32, word, arith,
}

pub record IsValid (p : Pipe) : Type 0 where
  pub size : length p.bytes ≡ pipesize
  pub nread_word : p.nread < word
  pub nwrite_word : p.nwrite < word
  pub within : sub32 p.nwrite p.nread ≤ pipesize

-- The `k` bytes from counter `i` on.
abbrev pub window : List ℕ → ℕ → ℕ → List ℕ
window bs i zero = []
window bs i (suc k) = get_or bs (i % pipesize) 0 ∷ window bs (add32 i 1) k

abbrev pub contents : Pipe → List ℕ
contents p = window p.bytes p.nread (sub32 p.nwrite p.nread)

length-window : (bs : List ℕ) (i k : ℕ) → length (window bs i k) ≡ k
length-window bs i zero = refl
length-window bs i (suc k) = ap suc (length-window bs (add32 i 1) k)

pub length-contents : (p : Pipe) → length (contents p) ≡ sub32 p.nwrite p.nread
length-contents p = length-window p.bytes p.nread (sub32 p.nwrite p.nread)

-- A byte written just behind a window makes it longer by that byte.
window-set :
    (bs : List ℕ) (c k i j : ℕ)
    → length bs ≡ pipesize
    → i < word
    → k < pipesize
    → j ≡ (i + k) % word
    → window (set bs (j % pipesize) c) i (suc k) ≡ window bs i k ++ (c ∷ [])
window-set bs c zero i j size hi hk e =
    let here : j ≡ i = omega arith in rw (here, get_or-set_self bs (i % pipesize) c 0 (omega arith))
window-set bs c (suc k) i j size hi hk e = λ t.
    get_or-set_ne bs (j % pipesize) (i % pipesize) c 0 (omega arith) t
    ∷ window-set bs c k (add32 i 1) j size (omega arith) (omega arith) (omega arith) t

pub put-IsValid :
    (p : Pipe) (c : ℕ) → IsValid p → p.nwrite ≢ add32 p.nread pipesize → IsValid (put p c)
unfolding put
put-IsValid p c v open_ = ground (arith, length-set p.bytes (p.nwrite % pipesize) c)

-- `put` on a pipe that is not full appends the byte.
pub contents-put :
    (p : Pipe) (c : ℕ)
    → IsValid p
    → p.nwrite ≢ add32 p.nread pipesize
    → contents (put p c) ≡ contents p ++ (c ∷ [])
unfolding put
contents-put p c v room =
    ap (window (set p.bytes (p.nwrite % pipesize) c) p.nread) more
    ∙ window-set p.bytes c (sub32 p.nwrite p.nread) p.nread p.nwrite v.size v.nread_word
        (omega arith) (omega arith)
  where
    more : sub32 (add32 p.nwrite 1) p.nread ≡ suc (sub32 p.nwrite p.nread)
    more = omega arith

pub skip-IsValid : (p : Pipe) → IsValid p → p.nread ≢ p.nwrite → IsValid (skip p)
unfolding skip
skip-IsValid p v some_byte = ground arith

-- On a pipe that is not empty the oldest byte is the first, and `skip` takes it away.
pub contents-skip :
    (p : Pipe) → IsValid p → p.nread ≢ p.nwrite → contents p ≡ oldest p ∷ contents (skip p)
unfolding skip oldest
contents-skip p v some_byte = ap (window p.bytes p.nread) less
  where
    less : sub32 p.nwrite p.nread ≡ suc (sub32 p.nwrite (add32 p.nread 1))
    less = omega arith
