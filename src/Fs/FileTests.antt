-- ===== src/Fs/FileTests.antt =====
-- `filewrite` on the empty file of Fs/Tests.
use xv6_public_os_project.Fs.Tests.{super, disk, file, file-IsFile, no_devices}
use xv6_public_os_project.File.{File, blank, fd_inode}
use xv6_public_os_project.File.Writing.{filewrite}
use xv6_public_os_project.File.Inodes.{call_writei, Filed, filewrite-Filed}
use xv6_public_os_project.Base.{refl, true, some, [], ◌∷◌, arith}

abbrev open_file : File
open_file = record blank { ref = 1; kind = fd_inode; writable = true }

filewrite-Filed_example :
    Filed no_devices super file disk 0
      (7 ∷ 8 ∷ [])
      (filewrite (call_writei no_devices super) open_file (7 ∷ 8 ∷ []) (some (file, disk)))
filewrite-Filed_example =
    filewrite-Filed no_devices super open_file (7 ∷ 8 ∷ []) file disk refl refl (omega arith)
      file-IsFile
