-- ===== src/Log/Writing.antt =====
-- What `write_log` leaves on the disk and in the buffers, also where the machine stops inside it.
use xv6_public_os_project.Log.Device.{Block, Store, modify, bwrite}
use xv6_public_os_project.Log.Commit.{write_log}
use xv6_public_os_project.Log.Installing.{IsHome, Logged}
use xv6_public_os_project.Base.{
  ℕ, ◌+◌, ◌-◌, ◌≤◌, ◌<◌, ◌≡◌, refl, ◌⊎◌, List, [], ◌∷◌, length, update, All, arith,
}

abbrev step : ℕ → ℕ → ℕ → Store → Store
step start tail b s = bwrite (start + tail + 1) (modify (start + tail + 1) (s.cache b) s)

pub power-write_log :
    (start tail : ℕ) (bs : List ℕ) (s : Store)
    → (write_log start tail bs s).power ≡ s.power - length bs
unfolding write_log
power-write_log start tail [] s = omega arith
power-write_log start tail (b ∷ bs) s =
    ground (arith, power-write_log start (tail + 1) bs (step start tail b s))

-- Only the log blocks of the transaction are written.
pub disk-write_log_other :
    (start tail : ℕ) (bs : List ℕ) (s : Store) (p : ℕ)
    → (p ≤ start + tail) ⊎ (start + tail + length bs < p)
    → (write_log start tail bs s).disk p ≡ s.disk p
unfolding write_log
disk-write_log_other start tail [] s p out = refl
disk-write_log_other start tail (b ∷ bs) s p out =
    ground (arith, disk-write_log_other start (tail + 1) bs (step start tail b s) p)

pub cache-write_log_other :
    (start tail : ℕ) (bs : List ℕ) (s : Store) (p : ℕ)
    → (p ≤ start + tail) ⊎ (start + tail + length bs < p)
    → (write_log start tail bs s).cache p ≡ s.cache p
unfolding write_log
cache-write_log_other start tail [] s p out = refl
cache-write_log_other start tail (b ∷ bs) s p out =
    ground (arith, cache-write_log_other start (tail + 1) bs (step start tail b s) p)

-- The home blocks' buffers hold the values `v`, and the log blocks are not among them.
abbrev pub Agrees : (ℕ → Block) → List ℕ → (ℕ → Block) → Type 0
Agrees c bs v = All (λ b. c b ≡ v b) bs

Agrees-update :
    (c v : ℕ → Block) (start end : ℕ) (bs : List ℕ) (p : ℕ) (x : Block)
    → start ≤ p
    → p ≤ end
    → All (IsHome start end) bs
    → Agrees c bs v
    → Agrees (update c p x) bs v
Agrees-update c v start end [] p x lo hi out h = tt
Agrees-update c v start end (b ∷ bs) p x lo hi out h =
    ground (arith, Agrees-update c v start end bs p x)

module _ (start end : ℕ) (v : ℕ → Block) where
  -- With the power for its writes it leaves the new contents in the log, on the disk too.
  pub write_log-Logged :
      (tail : ℕ) (bs : List ℕ) (s : Store)
      → length bs ≤ s.power
      → start + tail + length bs ≤ end
      → All (IsHome start end) bs
      → Agrees s.cache bs v
      → Logged (write_log start tail bs s).disk start tail bs v
  unfolding write_log
  write_log-Logged tail [] s h fits out agree = tt
  write_log-Logged tail (b ∷ bs) s h fits out agree = ground (
    arith,
    write_log-Logged (tail + 1) bs (step start tail b s),
    disk-write_log_other start (tail + 1) bs (step start tail b s) (start + tail + 1),
    Agrees-update s.cache v start end bs (start + tail + 1) (s.cache b),
  )

  pub write_log-Logged_cache :
      (tail : ℕ) (bs : List ℕ) (s : Store)
      → start + tail + length bs ≤ end
      → All (IsHome start end) bs
      → Agrees s.cache bs v
      → Logged (write_log start tail bs s).cache start tail bs v
  unfolding write_log
  write_log-Logged_cache tail [] s fits out agree = tt
  write_log-Logged_cache tail (b ∷ bs) s fits out agree = ground (
    arith,
    write_log-Logged_cache (tail + 1) bs (step start tail b s),
    cache-write_log_other start (tail + 1) bs (step start tail b s) (start + tail + 1),
    Agrees-update s.cache v start end bs (start + tail + 1) (s.cache b),
  )
