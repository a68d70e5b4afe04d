-- ===== src/Log/Atomic.antt =====
-- Commits of log.c that the machine interrupts anywhere, and the recoveries after them.
use xv6_public_os_project.Log.Device.{Block, Store, modify, bwrite}
use xv6_public_os_project.Log.Header.{decode, encode, log_size, decode-encode, length-encode}
use xv6_public_os_project.Log.Commit.{
  install_trans, write_log, write_head, recover_from_log, commit,
}
use xv6_public_os_project.Log.Installing.{IsHome, Logged, Logged-update}
use xv6_public_os_project.Log.Writing.{
  Agrees, power-write_log, disk-write_log_other, cache-write_log_other, write_log-Logged,
  write_log-Logged_cache,
}
use xv6_public_os_project.Log.Recovery.{
  Restores, Logged-agree, block_words, finished-Restores, finished-target, recover-Restores,
  recover-target,
}
use xv6_public_os_project.Base.{
  ℕ, ◌+◌, ◌-◌, ◌≤◌, ◌<◌, ◌≡◌, refl, ap, ◌∙◌, sym, ◌⊎◌, inl, inr, List, [], ◌∷◌, ◌==◌, if◌then◌else◌,
  length, contains, All, arith, dec_lt, subst, lt→ltb,
}

-- What holds when `end_op` calls `commit`: the log on the disk is empty, and `lh` lists blocks
-- outside the log, which has room for them.
pub record Ready (start end : ℕ) (lh : List ℕ) (s : Store) : Type 0 where
  pub empty : decode (s.disk start) ≡ []
  pub disk_width : length (s.disk start) ≡ block_words
  pub cache_width : length (s.cache start) ≡ block_words
  pub some_block : 0 < length lh
  pub short : length lh ≤ log_size
  pub fits : start + length lh ≤ end
  pub homes : All (IsHome start end) lh

-- The disk with the transaction applied: the buffered contents of its blocks.
abbrev pub with_transaction : List ℕ → Store → ℕ → Block
with_transaction lh s b = if contains lh b then s.cache b else s.disk b

Agrees-refl : (c : ℕ → Block) (bs : List ℕ) → Agrees c bs c
Agrees-refl c [] = tt
Agrees-refl c (b ∷ bs) = (refl, Agrees-refl c bs)

dead-write_head :
    (start : ℕ) (lh : List ℕ) (s : Store)
    → s.power ≡ 0
    → ((write_head start lh s).disk ≡ s.disk) × ((write_head start lh s).power ≡ 0)
unfolding write_head
dead-write_head start lh s h = ground arith

dead-install_trans :
    (start tail : ℕ) (bs : List ℕ) (s : Store)
    → s.power ≡ 0
    → ((install_trans start tail bs s).disk ≡ s.disk) × ((install_trans start tail bs s).power ≡ 0)
unfolding install_trans
dead-install_trans start tail [] s h = (refl, h)
dead-install_trans start tail (b ∷ bs) s h = ground (
  arith,
  dead-install_trans start (tail + 1) bs (bwrite b (modify b (s.cache (start + tail + 1)) s)),
)

module _ (start end : ℕ) (lh : List ℕ) (s : Store) (ready : Ready start end lh s) where
  open ready use {empty, disk_width, cache_width, some_block, short, fits, homes}

  abbrev logged : Store
  logged = write_log start 0 lh s

  abbrev headed : Store
  headed = write_head start lh logged

  commit-eq : commit start lh s ≡ write_head start [] (install_trans start 0 lh headed)
  unfolding commit
  commit-eq = rw (lt→ltb 0 (length lh) some_block)

  logged-home : (b : ℕ) → IsHome start end b → logged.disk b ≡ s.disk b
  logged-home b out = disk-write_log_other start 0 lh s b (omega arith)

  logged-start : logged.disk start ≡ s.disk start
  logged-start = disk-write_log_other start 0 lh s start (inl (omega arith))

  -- The machine stops before the header is on the disk.
  uncommitted : Restores start end s.cache s.disk logged.disk
  uncommitted = record {
    bs = [];
    header = ap decode logged-start ∙ empty;
    width = ap length logged-start ∙ disk_width;
    short = omega arith;
    fits = omega arith;
    homes = tt;
    logged = tt;
    target = logged-home;
  }

  uncommitted-disk : s.power ≤ length lh → (commit start lh s).disk ≡ logged.disk
  uncommitted-disk h =
      ap (λ (x : Store). x.disk) commit-eq
      ∙ (dead-write_head start [] (install_trans start 0 lh headed) installed.1).0
      ∙ installed.0
      ∙ head.0
    where
      head : (headed.disk ≡ logged.disk) × (headed.power ≡ 0)
      head = dead-write_head start lh logged (omega (arith, power-write_log start 0 lh s))

      installed :
          ((install_trans start 0 lh headed).disk ≡ headed.disk)
          × ((install_trans start 0 lh headed).power ≡ 0)
      installed = dead-install_trans start 0 lh headed head.1

  module _ (powered : length lh < s.power) where
    headed-disk :
        (p : ℕ) → headed.disk p ≡ (if start == p then encode lh (s.cache start) else logged.disk p)
    unfolding write_head
    headed-disk p = ground (
      arith,
      power-write_log start 0 lh s,
      cache-write_log_other start 0 lh s start (inl (omega arith)),
    )

    headed-start : headed.disk start ≡ encode lh (s.cache start)
    headed-start = ground (arith, headed-disk start)

    headed-target :
        (b : ℕ)
        → IsHome start end b
        → (if contains lh b then s.cache b else headed.disk b) ≡ with_transaction lh s b
    headed-target b out = ground (arith, headed-disk b, logged-home b out)

    headed-power : headed.power ≡ s.power - length lh - 1
    unfolding write_head
    headed-power = ground (arith, power-write_log start 0 lh s)

    headed-Logged : Logged headed.disk start 0 lh s.cache
    headed-Logged =
        Logged-agree logged.disk headed.disk s.cache start end 0 lh
          (λ p lo hi. ground (arith, headed-disk p)) (omega arith)
          (write_log-Logged start end s.cache 0 lh s (omega arith) (omega arith) homes
            (Agrees-refl s.cache lh))

    headed-Logged_cache : Logged headed.cache start 0 lh s.cache
    unfolding write_head
    headed-Logged_cache = ground (
      arith,
      Logged-update logged.cache s.cache start 0 lh start (encode lh (logged.cache start))
          (inl (omega arith)),
      write_log-Logged_cache start end s.cache 0 lh s (omega arith) homes (Agrees-refl s.cache lh),
    )

    headed-cache_width : length (headed.cache start) ≡ block_words
    unfolding write_head
    headed-cache_width = ground (
      arith,
      cache-write_log_other start 0 lh s start (inl (omega arith)),
      length-encode lh (s.cache start),
      length-encode lh (logged.cache start),
    )

    committed : Restores start end s.cache (with_transaction lh s) headed.disk
    committed = record {
      bs = lh;
      header =
          ap decode headed-start ∙ decode-encode lh (s.cache start) (omega arith) (omega arith);
      width = ap length headed-start ∙ length-encode lh (s.cache start) ∙ cache_width;
      short = short;
      fits = fits;
      homes = homes;
      logged = headed-Logged;
      target = headed-target;
    }

    committed-Restores : Restores start end s.cache (with_transaction lh s) (commit start lh s).disk
    unfolding committed
    committed-Restores =
        subst (λ (x : Store). Restores start end s.cache (with_transaction lh s) x.disk)
          (sym commit-eq)
          (finished-Restores start end s.cache (with_transaction lh s) headed committed
            headed-Logged_cache headed-cache_width)

  -- Wherever the machine stops inside `commit`, the disk restores to the file system before the
  -- transaction, or to the file system with all of it.
  pub commit-Restores :
      Restores start end s.cache s.disk (commit start lh s).disk
      ⊎ Restores start end s.cache (with_transaction lh s) (commit start lh s).disk
  commit-Restores = elim (dec_lt (length lh) s.power) [
    | yes h ↦ inr (committed-Restores h)
    | no h ↦ inl (
        subst (Restores start end s.cache s.disk) (sym (uncommitted-disk (omega arith)))
          uncommitted)
  ]

  -- A commit that is not interrupted has every block of the transaction in its place on the disk,
  -- and leaves every other block outside the log alone.
  pub commit_durable :
      length lh + length lh + 1 < s.power
      → (b : ℕ) → IsHome start end b
      → (commit start lh s).disk b ≡ with_transaction lh s b
  unfolding committed
  commit_durable h b out =
      ap (λ (x : Store). x.disk b) commit-eq
      ∙ finished-target start end s.cache (with_transaction lh s) headed (committed (omega arith))
          (headed-Logged_cache (omega arith)) (headed-cache_width (omega arith))
          (omega (arith, headed-power)) b out

-- The disk after the machine has started again once for each value of the list, and has stopped
-- in each of these recoveries after that many writes.
abbrev pub crashes : ℕ → List ℕ → (ℕ → Block) → ℕ → Block
crashes start [] d = d
crashes start (k ∷ ks) d =
    crashes start ks (recover_from_log start (record { disk = d; cache = d; power = k })).disk

crashes-Restores :
    (start end : ℕ) (v t d : ℕ → Block) (ks : List ℕ)
    → Restores start end v t d
    → Restores start end v t (crashes start ks d)
crashes-Restores start end v t d [] r = r
crashes-Restores start end v t d (k ∷ ks) r =
    crashes-Restores start end v t
      (recover_from_log start (record { disk = d; cache = d; power = k })).disk ks
      (recover-Restores start end v t d k r)

-- The disk after any number of broken recoveries and one that is not interrupted.
abbrev pub restarted : ℕ → List ℕ → ℕ → (ℕ → Block) → ℕ → Block
restarted start ks power d =
    (recover_from_log start
      (record { disk = crashes start ks d; cache = crashes start ks d; power = power })).disk

restarted-target :
    (start end : ℕ) (v t d : ℕ → Block) (ks : List ℕ) (power : ℕ)
    → log_size < power
    → Restores start end v t d
    → (b : ℕ) → IsHome start end b
    → restarted start ks power d b ≡ t b
restarted-target start end v t d ks power h r b out =
    recover-target start end v t (crashes start ks d) power b
      (crashes-Restores start end v t d ks r) h out

-- From a Ready state (the log on the disk is empty, and the transaction's blocks fit in the log
-- and lie outside it), stop the machine after any number `s.power` of the disk writes of `commit`,
-- stop it again in each of any number of recoveries, and let one recovery run to its end: either
-- every block outside the log is as before the transaction, or every block of the transaction has
-- its new content and every other block outside the log is as before.
pub commit_atomic :
    (start end : ℕ) (lh : List ℕ) (s : Store) (ks : List ℕ) (power : ℕ)
    → Ready start end lh s
    → log_size < power
    → ((b : ℕ)
        → IsHome start end b
        → restarted start ks power (commit start lh s).disk b ≡ s.disk b)
      ⊎ ((b : ℕ)
          → IsHome start end b
          → restarted start ks power (commit start lh s).disk b ≡ with_transaction lh s b)
commit_atomic start end lh s ks power ready h = elim (commit-Restores start end lh s ready) [
  | inl r ↦ inl (restarted-target start end s.cache s.disk _ ks power h r)
  | inr r ↦ inr (restarted-target start end s.cache (with_transaction lh s) _ ks power h r)
]
