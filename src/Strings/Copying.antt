-- ===== src/Strings/Copying.antt =====
-- `strncpy`, `safestrcpy` and `strlen` on a string that lies apart from the bytes they write.
use xv6_public_os_project.Strings.{Bytes, pad, strncpy, copy_end, safestrcpy, strlen}
use xv6_public_os_project.Base.{
  get_or-cons, get_or-head, ℕ, zero, suc, ◌+◌, ◌-◌, ◌≤◌, ◌<◌, ◌≡◌, ◌≢◌, refl, ap, ◌⊎◌, false, ◌&&◌,
  some, List, [], ◌∷◌, if◌then◌else◌, ltb, leb, arith, update, length, get_or, take, ◌==◌,
}

-- The bytes `cs`, none of them 0, and then a 0 lie at `t`.
abbrev pub IsString : Bytes → ℕ → List ℕ → Type 0
IsString m t [] = m t ≡ 0
IsString m t (c ∷ cs) = (m t ≡ c) × (c ≢ 0) × IsString m (t + 1) cs

-- The `n` bytes at `s` lie apart from the string of length `len` at `t`.
abbrev pub Apart : ℕ → ℕ → ℕ → ℕ → Type 0
Apart n s t len = (s + n ≤ t) ⊎ (t + len < s)

IsString-update :
    (m : Bytes) (t a v : ℕ) (cs : List ℕ)
    → (a < t) ⊎ (t + length cs < a)
    → IsString m t cs
    → IsString (update m a v) t cs
IsString-update m t a v [] h e = ground arith
IsString-update m t a v (c ∷ cs) h e =
    (ground arith, e.1, IsString-update m (t + 1) a v cs (ground arith) e.2)

-- The memory after the bytes of the string, and zeros behind them, are put at `s`.
abbrev pub filled : ℕ → ℕ → List ℕ → Bytes → Bytes
filled n s cs m a = if leb s a && ltb a (s + n) then get_or cs (a - s) 0 else m a

pad_lem : (n s : ℕ) (m : Bytes) (a : ℕ) → pad n s m a ≡ filled n s [] m a
unfolding pad
pad_lem zero s m a = ground arith
pad_lem (suc n) s m a = ground (arith, pad_lem n (s + 1) (update m s 0) a)

filled-suc :
    (n s c : ℕ) (cs : List ℕ) (m : Bytes) (a : ℕ)
    → filled n (s + 1) cs (update m s c) a ≡ filled (suc n) s (c ∷ cs) m a
filled-suc n s c cs m a = ground (arith, get_or-cons c cs s a, get_or-head c cs s a)

-- `strncpy(s, t, n)` fills the `n` bytes at `s` with the string at `t`, up to its end or the `n`-th
-- byte, and with zeros behind it, and changes no other byte. The string lies apart from those bytes.
pub strncpy_lem :
    (n s t : ℕ) (cs : List ℕ) (m : Bytes)
    → IsString m t cs
    → Apart n s t (length cs)
    → (a : ℕ) → strncpy n s t m a ≡ filled n s cs m a
unfolding strncpy
strncpy_lem zero s t cs m h apart a = ground arith
strncpy_lem (suc n) s t [] m h apart a = rw h (ground (arith, pad_lem n (s + 1) (update m s 0) a))
strncpy_lem (suc n) s t (c ∷ cs) m h apart a =
    let m' = update m s (m t) in
    let h' = IsString-update m (t + 1) s (m t) cs (ground arith) h.2 in
    let rest = strncpy_lem n (s + 1) (t + 1) cs m' h' (ground arith) a in
    let nz : (m t == 0) ≡ false = ground arith in rw (nz, rest, h.0) (filled-suc n s c cs m a)

-- What `safestrcpy` promises of the memory `r` after a call with `n + 1` bytes of room.
pub record Copied (n s : ℕ) (cs : List ℕ) (m r : Bytes) : Type 0 where
  pub ends : IsString r s (take n cs)
  pub others : (a : ℕ) → (a < s) ⊎ (s + n < a) → r a ≡ m a

copy_end-Copied :
    (n s t : ℕ) (cs : List ℕ) (m : Bytes)
    → IsString m t cs
    → Apart (n + 1) s t (length cs)
    → Copied n s cs m (copy_end n s t m)
unfolding copy_end
copy_end-Copied zero s t cs m h apart = record { ends = ground arith; others = λ a h. ground arith }
copy_end-Copied (suc n) s t [] m h apart =
    rw h (record { ends = ground arith; others = λ a h. ground arith })
copy_end-Copied (suc n) s t (c ∷ cs) m h apart =
    let m' = update m s (m t) in
    let h' = IsString-update m (t + 1) s (m t) cs (ground arith) h.2 in
    let k = copy_end-Copied n (s + 1) (t + 1) cs m' h' (ground arith) in
    let nz : (m t == 0) ≡ false = ground arith in
    rw nz (record {
      ends = (ground (arith, k.others s), h.1, k.ends);
      others = λ a far. ground (arith, k.others a);
    })

-- `safestrcpy(s, t, n + 1)` leaves a string at `s`: the first `n` bytes of the string at `t`, or all
-- of it, and a 0 behind them. It changes nothing outside the `n + 1` bytes at `s`. The string lies
-- apart from those bytes.
pub safestrcpy-Copied :
    (n s t : ℕ) (cs : List ℕ) (m : Bytes)
    → IsString m t cs
    → Apart (n + 1) s t (length cs)
    → Copied n s cs m (safestrcpy (suc n) s t m)
unfolding safestrcpy
safestrcpy-Copied n s t cs m h apart = copy_end-Copied n s t cs m h apart

-- `strlen` of a string is its length; as many rounds as the string has bytes, with the 0, are enough.
pub strlen_lem :
    (fuel s : ℕ) (cs : List ℕ) (m : Bytes)
    → IsString m s cs
    → length cs < fuel
    → strlen fuel s m ≡ some (length cs)
unfolding strlen
strlen_lem zero s cs m h lt = absurd (omega arith)
strlen_lem (suc fuel) s [] m h lt = rw h refl
strlen_lem (suc fuel) s (c ∷ cs) m h lt =
    let nz : (m s == 0) ≡ false = ground arith in
    rw (nz, strlen_lem fuel (s + 1) cs m h.2 (omega arith)) (ap (λ (k : ℕ). some k) (omega arith))
