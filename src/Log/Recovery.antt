-- ===== src/Log/Recovery.antt =====
-- Disks and what `recover_from_log` (log.c) makes of them, however often the machine stops on the way.
use xv6_public_os_project.Log.Device.{Block, Store}
use xv6_public_os_project.Log.Header.{decode, encode, log_size, decode-encode, length-encode}
use xv6_public_os_project.Log.Commit.{install_trans, write_head, read_head, recover_from_log}
use xv6_public_os_project.Log.Installing.{
  IsHome, Logged, power-install_trans, disk-install_trans_other, cache-install_trans_other,
  disk-install_trans,
}
use xv6_public_os_project.Base.{
  ℕ, ◌+◌, ◌≤◌, ◌<◌, ◌≡◌, refl, ap, ◌∙◌, sym, inl, inr, false, List, [], ◌∷◌, ◌==◌, if◌then◌else◌,
  length, contains, All, arith, Bool-cases, dec_lt, subst,
}

-- The words of a block (BSIZE / sizeof(uint))
abbrev pub block_words : ℕ
block_words = 128

pub contains-home :
    (start end : ℕ) (bs : List ℕ) (p : ℕ)
    → start ≤ p
    → p ≤ end
    → All (IsHome start end) bs
    → contains bs p ≡ false
contains-home start end [] p lo hi out = refl
contains-home start end (b ∷ bs) p lo hi out = ground (arith, contains-home start end bs p)

pub Logged-agree :
    (c c' v : ℕ → Block) (start end tail : ℕ) (bs : List ℕ)
    → ((p : ℕ) → start < p → p ≤ end → c' p ≡ c p)
    → start + tail + length bs ≤ end
    → Logged c start tail bs v
    → Logged c' start tail bs v
Logged-agree c c' v start end tail [] same fits h = h
Logged-agree c c' v start end tail (b ∷ bs) same fits h = (
  same (start + tail + 1) (omega arith) (omega arith) ∙ h.0,
  Logged-agree c c' v start end (tail + 1) bs same (omega arith) h.1,
)

-- Installing home blocks leaves the log, with its header, alone.
pub install_trans-log :
    (start end tail : ℕ) (bs : List ℕ) (s : Store)
    → All (IsHome start end) bs
    → (p : ℕ) → start ≤ p
    → p ≤ end
    → (install_trans start tail bs s).disk p ≡ s.disk p
install_trans-log start end tail bs s out p lo hi =
    disk-install_trans_other start tail bs s p (contains-home start end bs p lo hi out)

pub install_trans-Logged :
    (start end tail j : ℕ) (bs cs : List ℕ) (v : ℕ → Block) (s : Store)
    → All (IsHome start end) bs
    → start + j + length cs ≤ end
    → Logged s.disk start j cs v
    → Logged (install_trans start tail bs s).disk start j cs v
install_trans-Logged start end tail j bs cs v s out fits h =
    Logged-agree s.disk (install_trans start tail bs s).disk v start end j cs
      (λ p lo hi. install_trans-log start end tail bs s out p (omega arith) hi) fits h

-- The disk `d` restores to `t`: its log lists blocks `bs` whose logged contents are `v`.
pub record Restores (start end : ℕ) (v t d : ℕ → Block) : Type 0 where
  pub bs : List ℕ
  pub header : decode (d start) ≡ bs
  pub width : length (d start) ≡ block_words
  pub short : length bs ≤ log_size
  pub fits : start + length bs ≤ end
  pub homes : All (IsHome start end) bs
  pub logged : Logged d start 0 bs v
  pub target : (b : ℕ) → IsHome start end b → (if contains bs b then v b else d b) ≡ t b

-- The second half of a commit, and recovery: install the logged blocks, then clear the header.
module _ (start end : ℕ) (v t : ℕ → Block) (s : Store) (r : Restores start end v t s.disk)
    (cached : Logged s.cache start 0 r.bs v) (wide : length (s.cache start) ≡ block_words) where
  open r use {bs, header, width, short, fits, homes, logged, target}

  abbrev installed : Store
  installed = install_trans start 0 bs s

  keeps_log : (p : ℕ) → start ≤ p → p ≤ end → installed.disk p ≡ s.disk p
  keeps_log = install_trans-log start end 0 bs s homes

  -- The machine stops before the header is cleared.
  stopped-target :
      (b : ℕ) → IsHome start end b → (if contains bs b then v b else installed.disk b) ≡ t b
  stopped-target b out = elim (Bool-cases (contains bs b)) [
    | inl e ↦ rw e (ground (arith, target b out))
    | inr e ↦ rw e (ground (arith, target b out, disk-install_trans_other start 0 bs s b e))
  ]

  stopped : Restores start end v t installed.disk
  stopped = record {
    bs = bs;
    header = ap decode (keeps_log start (omega arith) (omega arith)) ∙ header;
    width = ap length (keeps_log start (omega arith) (omega arith)) ∙ width;
    short = short;
    fits = fits;
    homes = homes;
    logged = install_trans-Logged start end 0 0 bs bs v s homes (omega arith) logged;
    target = stopped-target;
  }

  abbrev finished : Store
  finished = write_head start [] installed

  finished-dead : s.power ≤ length bs → finished.disk ≡ installed.disk
  unfolding write_head
  finished-dead h = ground (arith, power-install_trans start 0 bs s)

  finished-disk :
      length bs < s.power
      → (p : ℕ)
      → finished.disk p ≡ (if start == p then encode [] (s.cache start) else installed.disk p)
  unfolding write_head
  finished-disk h p = ground (
    arith,
    power-install_trans start 0 bs s,
    cache-install_trans_other start 0 bs s start
        (contains-home start end bs start (omega arith) (omega arith) homes),
  )

  -- With the power for all its writes this is the disk that it restores to, with an empty log.
  pub finished-target : length bs < s.power → (b : ℕ) → IsHome start end b → finished.disk b ≡ t b
  finished-target h b out =
      ground (arith, finished-disk h b, target b out, disk-install_trans start end 0 bs v s b)

  finished-header : length bs < s.power → finished.disk start ≡ encode [] (s.cache start)
  finished-header h = ground (arith, finished-disk h start)

  cleared : length bs < s.power → Restores start end v t finished.disk
  cleared h = record {
    bs = [];
    header =
        ap decode (finished-header h)
        ∙ decode-encode [] (s.cache start) (omega arith) (omega arith);
    width = ap length (finished-header h) ∙ length-encode [] (s.cache start) ∙ wide;
    short = omega arith;
    fits = omega arith;
    homes = tt;
    logged = tt;
    target = finished-target h;
  }

  pub finished-Restores : Restores start end v t finished.disk
  finished-Restores = elim (dec_lt (length bs) s.power) [
    | yes h ↦ cleared h
    | no h ↦ subst (Restores start end v t) (sym (finished-dead (omega arith))) stopped
  ]

-- Recovery may itself stop at any of its writes: what is left restores to the same disk.
pub recover-Restores :
    (start end : ℕ) (v t d : ℕ → Block) (k : ℕ)
    → Restores start end v t d
    → Restores start end v t
        (recover_from_log start (record { disk = d; cache = d; power = k })).disk
unfolding recover_from_log read_head
recover-Restores start end v t d k r =
    rw r.header (
      finished-Restores start end v t (record { disk = d; cache = d; power = k }) r r.logged
        r.width)

-- Recovery that is not interrupted restores it.
pub recover-target :
    (start end : ℕ) (v t d : ℕ → Block) (k b : ℕ)
    → Restores start end v t d
    → log_size < k
    → IsHome start end b
    → (recover_from_log start (record { disk = d; cache = d; power = k })).disk b ≡ t b
unfolding recover_from_log read_head
recover-target start end v t d k b r h out = rw r.header (
    finished-target start end v t (record { disk = d; cache = d; power = k }) r r.logged r.width
      (omega (arith, r.short)) b out)
