-- ===== src/Log/Installing.antt =====
-- What `install_trans` leaves on the disk, also where the machine stops in the middle of it.
use xv6_public_os_project.Log.Device.{Block, Store, modify, bwrite}
use xv6_public_os_project.Log.Commit.{install_trans}
use xv6_public_os_project.Base.{
  ℕ, ◌+◌, ◌-◌, ◌≤◌, ◌<◌, ◌≡◌, refl, ◌⊎◌, false, List, [], ◌∷◌, if◌then◌else◌, length, contains,
  update, All, arith,
}

-- A block outside the log, whose last block is `end`.
abbrev pub IsHome : ℕ → ℕ → ℕ → Type 0
IsHome start end b = (b < start) ⊎ (end < b)

-- The log blocks from `tail` on hold the value of each block of the transaction.
abbrev pub Logged : (ℕ → Block) → ℕ → ℕ → List ℕ → (ℕ → Block) → Type 0
Logged c start tail [] v = Unit {0}
Logged c start tail (b ∷ bs) v = (c (start + tail + 1) ≡ v b) × Logged c start (tail + 1) bs v

-- A write in front of these log blocks, or behind them, keeps them.
pub Logged-update :
    (c v : ℕ → Block) (start tail : ℕ) (bs : List ℕ) (p : ℕ) (x : Block)
    → (p ≤ start + tail) ⊎ (start + tail + length bs < p)
    → Logged c start tail bs v
    → Logged (update c p x) start tail bs v
Logged-update c v start tail [] p x out h = h
Logged-update c v start tail (b ∷ bs) p x out h =
    ground (arith, Logged-update c v start (tail + 1) bs p x)

pub power-install_trans :
    (start tail : ℕ) (bs : List ℕ) (s : Store)
    → (install_trans start tail bs s).power ≡ s.power - length bs
unfolding install_trans
power-install_trans start tail [] s = omega arith
power-install_trans start tail (b ∷ bs) s = ground (
  arith,
  power-install_trans start (tail + 1) bs (bwrite b (modify b (s.cache (start + tail + 1)) s)),
)

-- A block that is not in the transaction stays as it is.
pub disk-install_trans_other :
    (start tail : ℕ) (bs : List ℕ) (s : Store) (p : ℕ)
    → contains bs p ≡ false
    → (install_trans start tail bs s).disk p ≡ s.disk p
unfolding install_trans
disk-install_trans_other start tail [] s p h = refl
disk-install_trans_other start tail (b ∷ bs) s p h = ground (
  arith,
  disk-install_trans_other start (tail + 1) bs (bwrite b (modify b (s.cache (start + tail + 1)) s))
      p,
)

pub cache-install_trans_other :
    (start tail : ℕ) (bs : List ℕ) (s : Store) (p : ℕ)
    → contains bs p ≡ false
    → (install_trans start tail bs s).cache p ≡ s.cache p
unfolding install_trans
cache-install_trans_other start tail [] s p h = refl
cache-install_trans_other start tail (b ∷ bs) s p h = ground (
  arith,
  cache-install_trans_other start (tail + 1) bs (bwrite b (modify b (s.cache (start + tail + 1)) s))
      p,
)

-- With the power for all its writes it copies every block of the transaction home.
pub disk-install_trans :
    (start end tail : ℕ) (bs : List ℕ) (v : ℕ → Block) (s : Store) (p : ℕ)
    → length bs ≤ s.power
    → start + tail + length bs ≤ end
    → All (IsHome start end) bs
    → Logged s.cache start tail bs v
    → (install_trans start tail bs s).disk p ≡ (if contains bs p then v p else s.disk p)
unfolding install_trans
disk-install_trans start end tail [] v s p h fits out logged = refl
disk-install_trans start end tail (b ∷ bs) v s p h fits out logged = ground (
  arith,
  disk-install_trans start end (tail + 1) bs v (bwrite b (modify b (s.cache (start + tail + 1)) s))
      p,
  Logged-update s.cache v start (tail + 1) bs b (s.cache (start + tail + 1)),
)
