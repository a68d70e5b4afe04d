-- ===== src/Fs/Tests.antt =====
-- A disk of 20 blocks whose bitmap is block 3, with blocks 0 to 3 in use, and an empty file.
use xv6_public_os_project.Fs.Disk.{SuperBlock, Disk}
use xv6_public_os_project.Fs.Bitmap.{bit, find_bit, find_block, balloc}
use xv6_public_os_project.Fs.Allocation.{used, IsLaidOut, Allocates, balloc-Allocates}
use xv6_public_os_project.Fs.Inode.{
  Inode, iupdate, read_inode, direct, bmap, Io, done, failed, to_device, panic, readi, writei_loop,
  writei,
}
use xv6_public_os_project.Fs.Blocks.{slot, Owns}
use xv6_public_os_project.Fs.Writing.{IsFile}
use xv6_public_os_project.Fs.Reading.{readi_lem, readi-writei}
use mathlib.Core.List.{map}
use xv6_public_os_project.Fs.OnDisk.{SameFields, read_inode-iupdate}
use xv6_public_os_project.Fs.Truncate.{itrunc}
use xv6_public_os_project.Fs.Truncated.{Truncated, itrunc-Truncated}
use xv6_public_os_project.Fs.Cache.{Cache, iget, find_cached, find_empty}
use xv6_public_os_project.Fs.Sharing.{Has, Unshared}
use xv6_public_os_project.Fs.Holders.{here, next, gets, iget_shared}
use xv6_public_os_project.Fs.Path.{
  dirsiz, skip_all, skipelem, drop_slashes, element, after_element, elements, skip_all-elements,
}
use xv6_public_os_project.Base.{
  ℕ, zero, suc, ◌<◌, ◌≡◌, refl, Bool, false, [], ◌∷◌, arith, Bool-cases, inl, inr, if◌then◌else◌,
  ◌≢◌, ◌+◌, some, none, update, take, ◌==◌, ltb,
}

abbrev pub super : SuperBlock
super = record {
  size = 20;
  nblocks = 16;
  ninodes = 8;
  nlog = 0;
  logstart = 1;
  inodestart = 2;
  bmapstart = 3;
}

abbrev pub disk : Disk
disk = record { blocks = λ b o. if b == 3 then if o == 0 then 15 else 0 else 0; logged = [] }

disk-IsLaidOut : IsLaidOut super disk
unfolding used bit
disk-IsLaidOut = record { fits = omega arith; small = omega arith; meta = meta }
  where
    meta : (c : ℕ) → c < 4 → used super disk c ≡ 1
    meta zero h = refl
    meta (suc zero) h = refl
    meta (suc (suc zero)) h = refl
    meta (suc (suc (suc zero))) h = refl
    meta (suc (suc (suc (suc c)))) h = absurd (omega arith)

balloc-Allocates_example : Allocates super disk (balloc super disk)
balloc-Allocates_example = balloc-Allocates super disk disk-IsLaidOut

abbrev pub file : Inode
file = record {
  dev = 1;
  inum = 1;
  kind = 2;
  major = 0;
  minor = 0;
  nlink = 1;
  size = 0;
  addrs = λ i. 0;
}

no_blocks : (k : ℕ) → slot file disk k ≡ 0
unfolding slot
no_blocks k = elim (Bool-cases (ltb k 13)) [ inl e ↦ rw e refl | inr e ↦ rw e refl ]

file-Owns : Owns super file disk
file-Owns = record {
  laid = disk-IsLaidOut;
  in_use = λ k h n. absurd (n (no_blocks k));
  in_range = λ k h n. absurd (n (no_blocks k));
  apart = λ k l h g n ne. absurd (n (no_blocks k));
}

pub file-IsFile : IsFile super file disk
file-IsFile = record {
  owns = file-Owns;
  full = λ p h. absurd (omega arith);
  fits = omega arith;
  placed = omega arith;
  plain = λ e. omega arith;
}

abbrev pub no_devices : ℕ → Bool
no_devices d = false

readi_example : readi no_devices super file 0 5 disk ≡ done [] file disk
readi_example = readi_lem no_devices super file 0 5 disk file-IsFile (omega arith)

abbrev inode_of : Io ℕ → Inode
inode_of (done n ip t) = ip
inode_of failed = file
inode_of (to_device d) = file
inode_of panic = file

abbrev disk_of : Io ℕ → Disk
disk_of (done n ip t) = t
disk_of failed = disk
disk_of (to_device d) = disk
disk_of panic = disk

unfoldable written : Io ℕ
written = writei no_devices super file (7 ∷ 8 ∷ []) 0 disk

written_two :
    writei no_devices super file (7 ∷ 8 ∷ []) 0 disk ≡ done 2 (inode_of written) (disk_of written)
unfolding written writei writei_loop bmap direct balloc find_block find_bit bit
written_two = refl

readi-writei_example :
    readi no_devices super (inode_of written) 0 2 (disk_of written)
    ≡ done (7 ∷ 8 ∷ []) (inode_of written) (disk_of written)
readi-writei_example =
    readi-writei no_devices super file (inode_of written) (7 ∷ 8 ∷ []) 0 2 disk (disk_of written)
      file-IsFile (omega arith) written_two

read_inode-iupdate_example :
    SameFields (read_inode super 1 1 (iupdate super file disk)) file
    × ((j : ℕ)
        → j ≢ 1
        → SameFields (read_inode super 1 j (iupdate super file disk)) (read_inode super 1 j disk))
read_inode-iupdate_example = read_inode-iupdate super 1 file disk (record {
  kind = omega arith;
  major = omega arith;
  minor = omega arith;
  nlink = omega arith;
  size = omega arith;
  addrs = λ i h. omega arith;
})

itrunc-Truncated_example :
    (jp : Inode) × (t : Disk) × (itrunc super file disk ≡ some (jp, t))
    × Truncated super file disk jp t
itrunc-Truncated_example = itrunc-Truncated super file disk file-Owns (omega arith)

abbrev pub no_cache : Cache
no_cache i = record { ref = 0; holder = none; valid = false; inode = file }

unfoldable first_got : Cache
first_got =
    update no_cache 0
      (record { ref = 1; holder = none; valid = false; inode = record file { dev = 1; inum = 1 } })

iget_first : iget 1 1 no_cache ≡ some (first_got, 0)
unfolding iget find_cached find_empty first_got
iget_first = refl

first_got-Has : Has first_got 0 1 1
unfolding first_got
first_got-Has = (omega arith, refl, refl)

iget_shared_example :
    Unshared first_got
    × ((ds : Cache) × (iget 1 1 first_got ≡ some (ds, 0)) × ((ds 0).ref ≡ (first_got 0).ref + 1))
iget_shared_example =
    iget_shared super no_cache first_got 1 0 1 1 (λ i. refl) (omega arith)
      (next here (gets 1 1 0 first_got iget_first)) (omega arith) first_got-Has

skip_all-elements_example :
    skip_all 7 (47 ∷ 47 ∷ 97 ∷ 47 ∷ 98 ∷ 98 ∷ 47 ∷ [])
    ≡ map (take dirsiz) (elements (47 ∷ 47 ∷ 97 ∷ 47 ∷ 98 ∷ 98 ∷ 47 ∷ []))
skip_all-elements_example =
    skip_all-elements 7 (47 ∷ 47 ∷ 97 ∷ 47 ∷ 98 ∷ 98 ∷ 47 ∷ []) (omega arith)

-- "//a/bb/"
two_names : skip_all 7 (47 ∷ 47 ∷ 97 ∷ 47 ∷ 98 ∷ 98 ∷ 47 ∷ []) ≡ (97 ∷ []) ∷ (98 ∷ 98 ∷ []) ∷ []
unfolding skip_all skipelem drop_slashes element after_element
two_names = refl
