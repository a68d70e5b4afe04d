-- ===== src/File/Tests.antt =====
-- A file table whose first file is an inode that is held twice; an inode layer that keeps a file of
-- bytes; pages that are handed out in turn.
use xv6_public_os_project.File.{File, blank, nfile, find_free, filealloc}
use xv6_public_os_project.File.Table.{World}
use xv6_public_os_project.File.Pipes.{Makes, pipealloc, pipealloc-Makes}
use xv6_public_os_project.Base.{ℕ, ◌+◌, ◌≡◌, refl, some, List, replicate, set, update}

abbrev opened : List File
opened = set (replicate nfile blank) 0 (record blank { ref = 1 })

abbrev held_once : World
held_once = record { files = opened; held = update (λ i. 0) 0 1 }

abbrev opened_two : List File
opened_two = set opened 1 (record blank { ref = 1 })

second_file : filealloc opened ≡ (opened_two, some 1)
unfolding filealloc find_free
second_file = refl

abbrev next_page : ℕ → ℕ × ℕ
next_page n = (n, n + 4096)

pipealloc-Makes_example : Makes opened (pipealloc next_page opened 8192)
pipealloc-Makes_example = pipealloc-Makes next_page opened 8192
