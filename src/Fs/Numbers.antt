-- ===== src/Fs/Numbers.antt =====
-- `itrunc` (fs.c) and the number of the inode.
use xv6_public_os_project.Fs.Disk.{SuperBlock, Disk}
use xv6_public_os_project.Fs.Inode.{Inode}
use xv6_public_os_project.Fs.Truncate.{free_addrs, free_entries, then_bfree, itrunc, emptied}
use xv6_public_os_project.Fs.Bitmap.{bfree}
use xv6_public_os_project.Base.{
  ℕ, zero, suc, ◌+◌, ◌≡◌, inl, inr, refl, Option, none, some, ◌==◌, update, Bool-cases,
}

-- `itrunc` keeps the number of the inode.
abbrev pub SameNumber : Inode → Option (Inode × Disk) → Type 0
SameNumber ip none = Unit
SameNumber ip (some (jp, t)) = (jp.dev ≡ ip.dev) × (jp.inum ≡ ip.inum)

free_addrs-SameNumber :
    (n i : ℕ) (sb : SuperBlock) (ip : Inode) (s : Disk) → SameNumber ip (free_addrs n i sb ip s)
unfolding free_addrs
free_addrs-SameNumber zero i sb ip s = (refl, refl)
free_addrs-SameNumber (suc n) i sb ip s = elim (Bool-cases (ip.addrs i == 0)) [
  | inl e ↦ rw e (free_addrs-SameNumber n (i + 1) sb ip s)
  | inr e ↦ rw e (
      go (free_addrs-SameNumber n (i + 1) sb (record ip { addrs = update ip.addrs i 0 }))
        (bfree sb (ip.addrs i) s))
]
  where
    go :
        ((t : Disk)
          → SameNumber ip (free_addrs n (i + 1) sb (record ip { addrs = update ip.addrs i 0 }) t))
        → (o : Option Disk)
        → SameNumber ip (elim o [
          | none ↦ none
          | some t ↦ free_addrs n (i + 1) sb (record ip { addrs = update ip.addrs i 0 }) t
        ])
    go next none = tt
    go next (some t) = next t

emptied-SameNumber :
    (sb : SuperBlock) (ip jp : Inode) (o : Option Disk)
    → (jp.dev ≡ ip.dev) × (jp.inum ≡ ip.inum)
    → SameNumber ip (emptied sb jp o)
emptied-SameNumber sb ip jp none h = tt
emptied-SameNumber sb ip jp (some t) h = h

pub itrunc-SameNumber : (sb : SuperBlock) (ip : Inode) (s : Disk) → SameNumber ip (itrunc sb ip s)
unfolding itrunc
itrunc-SameNumber sb ip s = go (free_addrs 12 0 sb ip s) refl (free_addrs-SameNumber 12 0 sb ip s)
  where
    go :
        (o : Option (Inode × Disk))
        → free_addrs 12 0 sb ip s ≡ o
        → SameNumber ip o
        → SameNumber ip (itrunc sb ip s)
    go none e h = rw (e, itrunc) tt
    go (some (jp, t)) e h = elim (Bool-cases (jp.addrs 12 == 0)) [
      | inl z ↦ rw (e, itrunc) (rw z h)
      | inr z ↦
          rw (e, itrunc)
            (rw z (
              emptied-SameNumber sb ip (record jp { addrs = update jp.addrs 12 0 })
                (then_bfree sb (jp.addrs 12) (free_entries 128 0 sb (jp.addrs 12) t)) h))
    ]
