-- ===== src/Fs/Bmap.antt =====
-- `bmap` (fs.c).
use xv6_public_os_project.Fs.Blocks.{Owns, Mapped, Maps}
use xv6_public_os_project.Fs.Slots.{slot-lo}
use xv6_public_os_project.Fs.Mapping.{direct-Maps, Takes, direct-Takes, indirect-Maps}
use xv6_public_os_project.Fs.Disk.{SuperBlock, Disk}
use xv6_public_os_project.Fs.Allocation.{used}
use xv6_public_os_project.Fs.Inode.{Inode, direct, indirect, with_inode, bmap}
use xv6_public_os_project.Base.{
  ℕ, ◌+◌, ◌-◌, ◌≤◌, ◌<◌, ◌≡◌, ◌≢◌, ◌⊎◌, inl, inr, ap, sym, ◌∙◌, subst, true, Option, none, some,
  if◌then◌else◌, ltb, arith, Bool-cases,
}

-- A new indirect block, and then an entry of it.
Mapped-compose :
    {sb : SuperBlock} {ip ip' ip'' : Inode} {s t u : Disk} {k ind a : ℕ}
    → k < 141
    → k ≢ 12
    → Mapped sb ip s 12 ip' t ind
    → Mapped sb ip' t k ip'' u a
    → Mapped sb ip s k ip'' u a
Mapped-compose {sb} {ip} {ip'} {ip''} {s} {t} {u} {k} {ind} {a} h ne m q =
    let same = m.slots k h (λ e. ne (sym e)) ne in
    record {
      owns = q.owns;
      hit = q.hit;
      nonzero = q.nonzero;
      slots = λ l hl nl n12. q.slots l hl nl n12 ∙ m.slots l hl (λ e. n12 (sym e)) n12;
      kept = λ n. q.kept (λ z. n (sym same ∙ z)) ∙ same;
      fresh = λ z. q.fresh (same ∙ z);
      bytes = λ l hl n12 n o.
          let there = m.slots l hl (λ e. n12 (sym e)) n12 in
          subst (λ (c : ℕ). u.blocks c o ≡ t.blocks c o) there
            (q.bytes l hl n12 (λ z. n (sym there ∙ z)) o)
          ∙ m.bytes l hl n12 n o;
      rest = q.rest ∙ ap (λ (x : Inode). record x { addrs = ip''.addrs }) m.rest;
    }

-- What `bmap` promises: it panics only where no two blocks of the disk are free.
abbrev pub MapsBlock : SuperBlock → Inode → Disk → ℕ → Option (Inode × Disk × ℕ) → Type 0
MapsBlock sb ip s k none =
    (c d : ℕ) → c < sb.size → d < sb.size → used sb s c ≡ 0 → used sb s d ≡ 0 → c ≡ d
MapsBlock sb ip s k (some (ip', t, a)) = Mapped sb ip s k ip' t a

MapsBlock-weak :
    (sb : SuperBlock) (ip : Inode) (s : Disk) (k : ℕ) (o : Option (Inode × Disk × ℕ))
    → Maps sb ip s k o
    → MapsBlock sb ip s k o
unfolding Maps
MapsBlock-weak sb ip s k none m = λ c d h g e f. absurd (omega (arith, m c h))
MapsBlock-weak sb ip s k (some (ip', t, a)) m = m

-- The slot of block `bn` of a file.
abbrev pub slot_of : ℕ → ℕ
slot_of bn = if ltb bn 12 then bn else bn + 1

-- `bmap` of one of the 140 blocks that a file can have: it panics only where no two
-- blocks of the disk are free. Else it returns the file's block, zero if it is new, and the inode's blocks are still
-- its own; the other blocks of the file keep their places and their bytes.
pub bmap-MapsBlock :
    (sb : SuperBlock) (ip : Inode) (bn : ℕ) (s : Disk)
    → bn < 140
    → Owns sb ip s
    → MapsBlock sb ip s (slot_of bn) (bmap sb ip bn s)
unfolding bmap Maps
bmap-MapsBlock sb ip bn s h own = elim (Bool-cases (ltb bn 12)) [
  | inl e ↦
      rw (e, bmap)
        (MapsBlock-weak sb ip s bn (direct sb bn ip s) (direct-Maps sb bn ip s (ground arith) own))
  | inr e ↦
      let inside : ltb (bn - 12) 128 ≡ true = ground arith in
      rw (e, inside, bmap)
        (go (ground arith) (direct sb 12 ip s) (direct-Maps sb 12 ip s (omega arith) own)
          (direct-Takes sb 12 ip s own.laid))
]
  where
    go :
        12 ≤ bn
        → (o : Option (Inode × Disk × ℕ)) → Maps sb ip s 12 o
        → Takes sb s o
        → MapsBlock sb ip s (bn + 1) (elim o [
          | none ↦ none
          | some (ip', t, ind) ↦ with_inode ip' (indirect sb ind (bn - 12) t)
        ])
    go le none m taken = MapsBlock-weak sb ip s (bn + 1) none m
    go le (some (ip', t, ind)) m taken =
        let at_ind : ip'.addrs 12 ≡ ind = sym (slot-lo ip' t 12 (omega arith)) ∙ m.hit in
        let k : 13 + (bn - 12) ≡ bn + 1 = omega arith in
        go_on le ip' t ind (with_inode ip' (indirect sb ind (bn - 12) t)) m taken (
          subst (λ (c : ℕ). Maps sb ip' t (bn + 1) (with_inode ip' (indirect sb c (bn - 12) t)))
            at_ind
            (subst
              (λ (c : ℕ). Maps sb ip' t c (with_inode ip' (indirect sb (ip'.addrs 12) (bn - 12) t)))
              k
              (indirect-Maps sb (bn - 12) ip' t (omega arith) m.owns
                (λ z. m.nonzero (sym at_ind ∙ z)))))
      where
        go_on :
            12 ≤ bn
            → (ip' : Inode) (t : Disk) (ind : ℕ) (o : Option (Inode × Disk × ℕ))
            → Mapped sb ip s 12 ip' t ind
            → ((c : ℕ) → c < sb.size → used sb t c ≡ 1 → (used sb s c ≡ 1) ⊎ (c ≡ ind))
            → Maps sb ip' t (bn + 1) o
            → MapsBlock sb ip s (bn + 1) o
        go_on le ip' t ind none m taken q =
            λ c d hc hd fc fd. omega (arith, at_most c hc fc, at_most d hd fd)
          where
            at_most : (c : ℕ) → c < sb.size → used sb s c ≡ 0 → c ≡ ind
            at_most c hc fc = elim (taken c hc (q c hc)) [
              | inl u ↦ absurd (omega arith)
              | inr e ↦ e
            ]
        go_on le ip' t ind (some (ip'', u, a)) m taken q =
            Mapped-compose (omega arith) (λ e. omega arith) m q
