-- ===== src/Fs/DirTests.antt =====
-- A directory with one entry.
use xv6_public_os_project.Strings.{strncmp, strncpy, pad}
use xv6_public_os_project.Fs.Cache.{Cache}
use xv6_public_os_project.Fs.Linking.{
  dirlink, find_dirent, Link, linked, link_panics, link_sleeps, is_present,
}
use xv6_public_os_project.Fs.Linked.{IsLinked}
use xv6_public_os_project.Fs.Relinked.{FindsLink, dirlookup-dirlink}
use xv6_public_os_project.Fs.Tests.{super, file, no_devices, no_cache}
use xv6_public_os_project.Fs.Disk.{Disk}
use xv6_public_os_project.Fs.Bitmap.{bit}
use xv6_public_os_project.Fs.Allocation.{used, IsLaidOut}
use xv6_public_os_project.Fs.Inode.{
  Inode, readi, readi_loop, writei, writei_loop, bmap, direct, get_bytes, put_bytes,
}
use xv6_public_os_project.Fs.Blocks.{slot, Owns}
use xv6_public_os_project.Fs.Writing.{IsFile}
use xv6_public_os_project.Fs.Directory.{dirlookup, dirlookup_loop}
use xv6_public_os_project.Fs.Entries.{LooksUp, dirlookup-LooksUp}
use xv6_public_os_project.Base.{
  ℕ, zero, suc, ◌<◌, ◌≡◌, refl, [], arith, Bool-cases, inl, inr, if◌then◌else◌, ◌≢◌, ◌/◌, ◌==◌, ltb,
}

-- A directory whose one entry, for inode 1, has the name "a", in the data block 4.
abbrev dir : Inode
dir = record file { inum = 2; kind = 1; size = 16; addrs = λ i. if i == 0 then 4 else 0 }

abbrev dir_disk : Disk
dir_disk = record {
  blocks = λ b o.
      if b == 3
      then if o == 0 then 31 else 0
      else if b == 4
      then if o == 0 then 1 else if o == 2 then 97 else 0
      else 0;
  logged = [];
}

dir_disk-IsLaidOut : IsLaidOut super dir_disk
unfolding used bit
dir_disk-IsLaidOut = record { fits = omega arith; small = omega arith; meta = meta }
  where
    meta : (c : ℕ) → c < 4 → used super dir_disk c ≡ 1
    meta zero h = refl
    meta (suc zero) h = refl
    meta (suc (suc zero)) h = refl
    meta (suc (suc (suc zero))) h = refl
    meta (suc (suc (suc (suc c)))) h = absurd (omega arith)

only_slot : (k : ℕ) → slot dir dir_disk k ≡ (if k == 0 then 4 else 0)
unfolding slot
only_slot zero = refl
only_slot (suc k) = elim (Bool-cases (ltb (suc k) 13)) [ inl e ↦ rw e refl | inr e ↦ ground arith ]

dir_first : (k : ℕ) → slot dir dir_disk k ≢ 0 → k ≡ 0
dir_first k n = ground (arith, only_slot k)

dir-Owns : Owns super dir dir_disk
unfolding slot used bit
dir-Owns = record {
  laid = dir_disk-IsLaidOut;
  in_use = λ k h n. let first = dir_first k n in rw first refl;
  in_range = λ k h n. ground (arith, only_slot k, dir_first k n);
  apart = λ k l h g n ne e. ground (arith, only_slot k, only_slot l, dir_first k n);
}

dir-IsFile : IsFile super dir dir_disk
dir-IsFile = record {
  owns = dir-Owns;
  full =
      λ p h. let first : p / 512 ≡ 0 = omega arith in rw first (λ z. ground (arith, only_slot 0));
  fits = omega arith;
  placed = omega arith;
  plain = λ e. omega arith;
}

abbrev name_a : ℕ → ℕ
name_a i = if i == 0 then 97 else 0

dirlookup-LooksUp_example :
    LooksUp dir dir_disk no_cache name_a (dirlookup no_devices super name_a dir dir_disk no_cache)
dirlookup-LooksUp_example =
    dirlookup-LooksUp no_devices super name_a dir dir_disk no_cache dir-IsFile refl refl

abbrev name_b : ℕ → ℕ
name_b i = if i == 0 then 98 else 0

abbrev inode_of_link : Link → Inode
inode_of_link (linked ip t) = ip
inode_of_link link_panics = dir
inode_of_link link_sleeps = dir
inode_of_link (is_present cs t) = dir

abbrev disk_of_link : Link → Disk
disk_of_link (linked ip t) = t
disk_of_link link_panics = dir_disk
disk_of_link link_sleeps = dir_disk
disk_of_link (is_present cs t) = t

unfoldable linked_b : Link
linked_b = dirlink no_devices no_devices super 1 name_b 5 dir dir_disk no_cache

linked_b_done :
    dirlink no_devices no_devices super 1 name_b 5 dir dir_disk no_cache
    ≡ linked (inode_of_link linked_b) (disk_of_link linked_b)
unfolding linked_b dirlink dirlookup dirlookup_loop find_dirent readi readi_loop writei writei_loop
    bmap direct get_bytes put_bytes strncmp strncpy pad
linked_b_done = refl

dirlookup-dirlink_example :
    (l : ℕ) × IsLinked super name_b 5 dir dir_disk
      (inode_of_link linked_b)
      (disk_of_link linked_b)
      l
    × ((ds : Cache)
        → FindsLink
            (inode_of_link linked_b)
            l
            5
            ds
            (dirlookup no_devices super name_b (inode_of_link linked_b) (disk_of_link linked_b) ds))
dirlookup-dirlink_example =
    dirlookup-dirlink no_devices no_devices super 1 name_b 5 dir (inode_of_link linked_b) dir_disk
      (disk_of_link linked_b) no_cache dir-IsFile refl refl (omega arith) (omega arith)
      linked_b_done
