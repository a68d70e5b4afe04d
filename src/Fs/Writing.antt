-- ===== src/Fs/Writing.antt =====
-- `writei` (fs.c) against the content of the file.
use xv6_public_os_project.Fs.Splicing.{
  spliced, Wrote, NearlyFull, WritesLoop, writei_loop-WritesLoop,
}
use xv6_public_os_project.Fs.Disk.{SuperBlock, Disk}
use xv6_public_os_project.Fs.Inode.{
  Inode, t_dev, iblock, put_dinode, dinode_at, iupdate, Io, failed, to_device, panic, done, grown,
  writei, writei_loop,
}
use xv6_public_os_project.Fs.Blocks.{slot, Owns}
use xv6_public_os_project.Fs.Bmap.{slot_of}
use xv6_public_os_project.Fs.Content.{most, content}
use xv6_public_os_project.Fs.Changes.{
  Owns-same, put_block-front_slot, put_block-front_content, used-front,
}
use xv6_public_os_project.Base.{
  ℕ, ◌+◌, ◌/◌, ◌≤◌, ◌<◌, ◌≡◌, ◌≢◌, ◌⊎◌, inl, inr, refl, ap, sym, ◌∙◌, Bool, false, ◌&&◌, ◌||◌,
  Option, none, some, List, take, length-take, ◌==◌, ltb, arith, length, Bool-cases, add32, word,
}
use Prim.Native.Nat.{max}

-- An inode of a file: its blocks are its own, each of those in front of its end is there, and its
-- place on the disk lies in front of the bitmap.
pub record IsFile (sb : SuperBlock) (ip : Inode) (s : Disk) : Type 0 where
  pub owns : Owns sb ip s
  pub full : (p : ℕ) → p < ip.size → slot ip s (slot_of (p / 512)) ≢ 0
  pub fits : ip.size ≤ most
  pub placed : iblock sb ip.inum < sb.bmapstart
  pub plain : ip.kind ≢ t_dev

-- The slots and the content do not depend on the size that the inode records.
sized :
    (ip : Inode) (s : Disk) (n : ℕ)
    → ((l : ℕ) → slot (record ip { size = n }) s l ≡ slot ip s l)
      × ((p : ℕ) → content (record ip { size = n }) s p ≡ content ip s p)
unfolding slot content
sized ip s n = (λ l. refl, λ p. refl)

-- What `writei` promises of a file. Where it panics, the same call with only a first part of the bytes
-- returns, and leaves a disk with no two free blocks.
abbrev pub Writes : (ℕ → Bool) → SuperBlock → Inode → List ℕ → ℕ → Disk → Io ℕ → Type 0
Writes has_write sb ip src off s failed = (ip.size < off) ⊎ (most < off + length src)
Writes has_write sb ip src off s (to_device d) = ⊥
Writes has_write sb ip src off s panic =
    (m : ℕ) × (m < length src)
    × ((jp : Inode) × (t : Disk) × (writei has_write sb ip (take m src) off s ≡ done m jp t)
        × NearlyFull sb t)
Writes has_write sb ip src off s (done n ip' t) =
    (n ≡ length src)
    × IsFile sb ip' t
    × ((p : ℕ) → p < most → content ip' t p ≡ spliced off src (content ip s) p)
    × (ip'.size ≡ max ip.size (off + length src))
    × (record ip' { size = ip.size; addrs = ip.addrs } ≡ ip)

-- The file after the loop, with the size that it has then.
Wrote-IsFile :
    {sb : SuperBlock} {ip ip' : Inode} {s t : Disk} {off : ℕ} {src : List ℕ}
    → IsFile sb ip s
    → off ≤ ip.size
    → off + length src ≤ most
    → Wrote sb ip s off src ip' t
    → (n : ℕ) → n ≤ max ip.size (off + length src)
    → IsFile sb (record ip' { size = n }) t
Wrote-IsFile {sb} {ip} {ip'} {s} {t} {off} {src} f le b w n h =
    let same = sized ip' t n in
    record {
      owns = Owns-same w.owns (λ c hc. refl) same.0;
      full = λ p hp z. elim (Bool-cases (ltb p ip.size)) [
        | inl e ↦
            w.there (p / 512) (omega (arith, f.fits)) (f.full p (ground arith)) (sym (same.0 _) ∙ z)
        | inr e ↦ w.new p (ground arith) (ground arith) (sym (same.0 _) ∙ z)
      ];
      fits = omega (arith, f.fits);
      placed = rw (ap (λ (x : Inode). x.inum) w.rest) f.placed;
      plain = λ e. f.plain (sym (ap (λ (x : Inode). x.kind) w.rest) ∙ e);
    }

-- `iupdate` changes no file's blocks.
iupdate-IsFile :
    {sb : SuperBlock} {ip : Inode} {s : Disk}
    → IsFile sb ip s
    → IsFile sb ip (iupdate sb ip s)
      × ((p : ℕ) → p < most → content ip (iupdate sb ip s) p ≡ content ip s p)
unfolding iupdate
iupdate-IsFile {sb} {ip} {s} f =
    let d = put_dinode (dinode_at ip.inum) ip (s.blocks (iblock sb ip.inum)) in
    let same = put_block-front_slot (iblock sb ip.inum) d f.owns f.placed in
    (
      record {
        owns = Owns-same f.owns (λ c hc. used-front sb (iblock sb ip.inum) c d s f.placed) same;
        full = λ p hp z. f.full p hp (sym (same (slot_of (p / 512))) ∙ z);
        fits = f.fits;
        placed = f.placed;
        plain = f.plain;
      },
      put_block-front_content (iblock sb ip.inum) d f.owns f.placed,
    )

-- `writei` behind its guards.
writei-grown :
    (has_write : ℕ → Bool) (sb : SuperBlock) (ip : Inode) (src : List ℕ) (off : ℕ) (s : Disk)
    → IsFile sb ip s
    → off ≤ ip.size
    → off + length src ≤ most
    → writei has_write sb ip src off s
      ≡ grown sb (length src) (off + length src) (writei_loop (length src) sb ip off src s)
unfolding writei
writei-grown has_write sb ip src off s f le b =
    let plain : (ip.kind == t_dev) ≡ false = ground (arith, f.plain) in
    let sum : add32 off (length src) ≡ off + length src = omega arith in
    let inside : (ltb ip.size off || ltb (off + length src) off) ≡ false = ground arith in
    let fits : ltb most (off + length src) ≡ false = ground arith in
    rw (plain, sum, inside, fits) refl

-- The end of `writei` changes nothing of the bitmap.
grown-NearlyFull :
    (sb : SuperBlock) (ip jp : Inode) (src : List ℕ) (off : ℕ) (s t : Disk)
    → IsFile sb ip s
    → off + length src ≤ most
    → Wrote sb ip s off src jp t
    → NearlyFull sb t
    → (kp : Inode) × (u : Disk) × (grown sb (length src) (off + length src) (some (jp, t))
        ≡ done (length src) kp u)
      × NearlyFull sb u
unfolding iupdate
grown-NearlyFull sb ip jp src off s t f b w full =
    let n = off + length src in
    elim (Bool-cases (ltb 0 (length src) && ltb jp.size n)) [
      | inr e ↦ (jp, t, rw e refl, full)
      | inl e ↦
          let kp = record jp { size = n } in
          let place : iblock sb kp.inum < sb.bmapstart =
            rw (ap (λ (x : Inode). x.inum) w.rest) f.placed in
          let same = λ (c : ℕ). used-front sb (iblock sb kp.inum) c _ t place in
          (
            kp,
            iupdate sb kp t,
            rw e refl,
            λ c d hc hd fc fd. full c d hc hd (sym (same c) ∙ fc) (sym (same d) ∙ fd),
          )
    ]

-- The end of `writei`, where the file has grown and where it has not.
grown-Writes :
    (has_write : ℕ → Bool) (sb : SuperBlock) (ip : Inode) (src : List ℕ) (off : ℕ) (s : Disk)
    (o : Option (Inode × Disk))
    → IsFile sb ip s
    → off ≤ ip.size
    → off + length src ≤ most
    → WritesLoop sb ip s off src o
    → Writes has_write sb ip src off s (grown sb (length src) (off + length src) o)
grown-Writes has_write sb ip src off s none f le b (m, lt, (jp, t, runs, full, w)) =
    let len : length (take m src) ≡ m = omega (arith, length-take m src) in
    let (kp, u, ends, full') =
      grown-NearlyFull sb ip jp (take m src) off s t f (omega arith) w full in
    (
      m,
      lt,
      (
        kp,
        u,
        writei-grown has_write sb ip (take m src) off s f le (omega arith)
            ∙ ap (grown sb (length (take m src)) (off + length (take m src)))
                (runs (length (take m src)) (omega arith))
            ∙ ends
            ∙ ap (λ (x : ℕ). done x kp u) len,
        full',
      ),
    )
grown-Writes has_write sb ip src off s (some (ip', t)) f le b w =
    let n = off + length src in
    let size : ip'.size ≡ ip.size = ap (λ (x : Inode). x.size) w.rest in
    let rest = ap (λ (x : Inode). record x { size = ip.size; addrs = ip.addrs }) w.rest in
    elim (Bool-cases (ltb 0 (length src) && ltb ip'.size n)) [
      | inl e ↦
          let (file, same) = iupdate-IsFile (Wrote-IsFile f le b w n (omega arith)) in
          rw e
            (refl, file, λ p hp. same p hp ∙ (sized ip' t n).1 p ∙ w.bytes p hp, ground arith, rest)
      | inr e ↦
          rw e (refl, Wrote-IsFile f le b w ip'.size (omega arith), w.bytes, ground arith, rest)
    ]

pub writei-Writes :
    (has_write : ℕ → Bool) (sb : SuperBlock) (ip : Inode) (src : List ℕ) (off : ℕ) (s : Disk)
    → IsFile sb ip s
    → length src < word
    → Writes has_write sb ip src off s (writei has_write sb ip src off s)
unfolding writei
writei-Writes has_write sb ip src off s f small =
    let plain : (ip.kind == t_dev) ≡ false = ground (arith, f.plain) in
    elim (Bool-cases (ltb ip.size off || ltb (add32 off (length src)) off)) [
      | inl e ↦ rw (plain, e) (ground (arith, f.fits))
      | inr e ↦
          let sum : add32 off (length src) ≡ off + length src = ground (arith, f.fits) in
          elim (Bool-cases (ltb most (off + length src))) [
            | inl g ↦ rw (plain, e, sum, g) (inr (ground arith))
            | inr g ↦
                rw (plain, e, sum, g)
                  (grown-Writes has_write sb ip src off s _ f (ground arith) (ground arith) (
                    writei_loop-WritesLoop (length src) sb ip off src s (omega arith) (ground arith)
                      f.owns))
          ]
    ]
