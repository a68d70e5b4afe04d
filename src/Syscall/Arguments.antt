-- ===== src/Syscall/Arguments.antt =====
-- The arguments of system calls (syscall.c). `bytes_at` and `word_at` read the memory of the
-- process, `sz` is its size, and `esp` its stack pointer; `none` is the result -1.
use xv6_public_os_project.Base.{
  ℕ, zero, suc, ◌+◌, ◌-◌, ◌≤◌, ◌<◌, ◌≡◌, ◌≢◌, ◌⊎◌, word, Bool, true, false, ◌||◌, Option, none,
  some, ◌==◌, ==_iff, if◌then◌else◌, leb, ltb, int_lt, add32, mul32, arith, half_word, Bool-cases,
  refl, sym, ap, ◌∙◌, inl, inr,
}

unfoldable pub fetchint : (ℕ → ℕ) → ℕ → ℕ → Option ℕ
fetchint word_at sz addr =
    if leb sz addr || ltb sz (add32 addr 4) then none else some (word_at addr)

-- The loop of `fetchstr`, with `n` bytes in front of the end: how many it passes before a 0.
unfoldable pub find_end : (ℕ → ℕ) → ℕ → ℕ → ℕ → Option ℕ
find_end byte_at zero s len = none
find_end byte_at (suc n) s len =
    let rest = find_end byte_at n (s + 1) (len + 1) in if byte_at s == 0 then some len else rest

-- The length of the string; its address is `addr`.
unfoldable pub fetchstr : (ℕ → ℕ) → ℕ → ℕ → Option ℕ
fetchstr byte_at sz addr = if leb sz addr then none else find_end byte_at (sz - addr) addr 0

unfoldable pub argint : (ℕ → ℕ) → ℕ → ℕ → ℕ → Option ℕ
argint word_at sz esp n = fetchint word_at sz (add32 (add32 esp 4) (mul32 4 n))

unfoldable pub argptr : (ℕ → ℕ) → ℕ → ℕ → ℕ → ℕ → Option ℕ
argptr word_at sz esp n size = elim (argint word_at sz esp n) [
  | none ↦ none
  | some i ↦ if (int_lt size 0 || leb sz i) || ltb sz (add32 i size) then none else some i
]

-- The address of the string, and its length.
unfoldable pub argstr : (ℕ → ℕ) → (ℕ → ℕ) → ℕ → ℕ → ℕ → Option (ℕ × ℕ)
argstr word_at byte_at sz esp n = elim (argint word_at sz esp n) [
  | none ↦ none
  | some addr ↦ with_length addr (fetchstr byte_at sz addr)
]
  where
    with_length : ℕ → Option ℕ → Option (ℕ × ℕ)
    with_length addr none = none
    with_length addr (some len) = some (addr, len)

-- What `argptr` promises of a pointer to `size` bytes: it is the argument and lies inside the
-- memory of the process, or it does not lie there.
abbrev pub Points : ℕ → ℕ → Option ℕ → Option ℕ → Type 0
Points sz size none o = o ≡ none
Points sz size (some i) none = (half_word ≤ size) ⊎ (sz ≤ i) ⊎ (sz < i + size)
Points sz size (some i) (some j) = (j ≡ i) × (size < half_word) × (i + size ≤ sz)

-- `argptr`, in a process whose memory ends below 2 ^ 31: it fails if its argument cannot be read;
-- else it returns the argument if the `size` bytes there lie inside the memory of the process, and
-- fails if they do not or `size` is negative. No sum wraps.
pub argptr-Points :
    (word_at : ℕ → ℕ) (sz esp n size : ℕ)
    → sz ≤ half_word
    → size < word
    → Points sz size (argint word_at sz esp n) (argptr word_at sz esp n size)
unfolding argptr
argptr-Points word_at sz esp n size small w = go (argint word_at sz esp n)
  where
    inside :
        (i : ℕ) (b : Bool)
        → ((int_lt size 0 || leb sz i) || ltb sz (add32 i size)) ≡ b
        → Points sz size (some i) (if b then none else some i)
    inside i true e = ground arith
    inside i false e = (refl, ground arith, ground arith)

    go :
        (o : Option ℕ)
        → Points sz size o (elim o [
          | none ↦ none
          | some i ↦ if (int_lt size 0 || leb sz i) || ltb sz (add32 i size) then none else some i
        ])
    go none = refl
    go (some i) = inside i _ refl

-- What `fetchstr` promises: a first 0 inside the memory, `len` bytes on, or there is none.
abbrev pub Ends : (ℕ → ℕ) → ℕ → ℕ → Option ℕ → Type 0
Ends byte_at sz addr none = (k : ℕ) → addr + k < sz → byte_at (addr + k) ≢ 0
Ends byte_at sz addr (some len) =
    (addr + len < sz) × (byte_at (addr + len) ≡ 0) × ((k : ℕ) → k < len → byte_at (addr + k) ≢ 0)

find_end-Ends :
    (byte_at : ℕ → ℕ) (sz n s addr len : ℕ)
    → s ≡ addr + len
    → sz ≡ s + n
    → ((k : ℕ) → k < len → byte_at (addr + k) ≢ 0)
    → Ends byte_at sz addr (find_end byte_at n s len)
unfolding find_end
find_end-Ends byte_at sz zero s addr len e z h = λ k lt. h k (omega arith)
find_end-Ends byte_at sz (suc n) s addr len e z h = elim (Bool-cases (byte_at s == 0)) [
  | inl y ↦ rw y (omega arith, ap byte_at (sym e) ∙ (==_iff (byte_at s) 0).0 y, h)
  | inr y ↦ rw y (
      find_end-Ends byte_at sz n (s + 1) addr (len + 1) (omega arith) (omega arith) (λ k lt.
        elim (Bool-cases (k == len)) [
          | inl q ↦ λ b. ne_zero k y ((==_iff k len).0 q) b
          | inr q ↦ h k (ground arith)
        ]))
]
  where
    ne_zero : (k : ℕ) → (byte_at s == 0) ≡ false → k ≡ len → byte_at (addr + k) ≢ 0
    ne_zero k y q b =
        let same : byte_at s ≡ byte_at (addr + k) = ap byte_at (omega arith) in ground arith

-- `fetchstr` returns the distance to the first 0 byte from `addr` on inside the memory of the
-- process, and fails exactly if there is none, where `addr` may lie outside too.
pub fetchstr-Ends :
    (byte_at : ℕ → ℕ) (sz addr : ℕ) → Ends byte_at sz addr (fetchstr byte_at sz addr)
unfolding fetchstr
fetchstr-Ends byte_at sz addr = elim (Bool-cases (leb sz addr)) [
  | inl e ↦ rw e (λ k lt. absurd (ground arith))
  | inr e ↦ rw e (
      find_end-Ends byte_at sz (sz - addr) addr addr 0 (omega arith) (ground arith)
        (λ k lt. absurd (omega arith)))
]
