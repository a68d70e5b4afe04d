-- ===== src/Log/Commit.antt =====
-- The disk writes of log.c: `write_log`, `write_head`, `install_trans`, `commit` and
-- `recover_from_log`. `start` is `log.start`, the header's block; the log blocks follow it.
use xv6_public_os_project.Log.Device.{Store, modify, bwrite}
use xv6_public_os_project.Log.Header.{decode, encode}
use xv6_public_os_project.Base.{ℕ, ◌+◌, List, [], ◌∷◌, length, if◌then◌else◌, ltb}

-- `install_trans`, from log block `tail` on
unfoldable pub install_trans : ℕ → ℕ → List ℕ → Store → Store
install_trans start tail [] s = s
install_trans start tail (b ∷ bs) s =
    install_trans start (tail + 1) bs (bwrite b (modify b (s.cache (start + tail + 1)) s))

-- `write_log`, from log block `tail` on
unfoldable pub write_log : ℕ → ℕ → List ℕ → Store → Store
write_log start tail [] s = s
write_log start tail (b ∷ bs) s =
    write_log start (tail + 1) bs
      (bwrite (start + tail + 1) (modify (start + tail + 1) (s.cache b) s))

unfoldable pub write_head : ℕ → List ℕ → Store → Store
write_head start lh s = bwrite start (modify start (encode lh (s.cache start)) s)

unfoldable pub read_head : ℕ → Store → List ℕ
read_head start s = decode (s.cache start)

-- `commit`; the header that it leaves in memory is empty.
unfoldable pub commit : ℕ → List ℕ → Store → Store
commit start lh s =
    if ltb 0 (length lh)
    then write_head start []
        (install_trans start 0 lh (write_head start lh (write_log start 0 lh s)))
    else s

-- `recover_from_log`
unfoldable pub recover_from_log : ℕ → Store → Store
recover_from_log start s = write_head start [] (install_trans start 0 (read_head start s) s)
