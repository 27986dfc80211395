-- ===== src/Bypass/Files/Duplicate.antt =====
-- `dup` of a file of Expand in src/bypass/xpn_bypass.c.
use xpn.Prelude.{ℕ, ◌<◌, ◌≡◌, refl, true, some}
use xpn.Prelude.Int.{ℤ, pos}
use xpn.Bypass.{Env, Sys, GenericFd, Xpn, Libc, call_libc}
use xpn.Bypass.Fds.{fdstable_get, is_xpn, plusxpn}
use xpn.Bypass.Init.{keep_init}
use xpn.Bypass.Files.{dup, read, write}
use xpn.Bypass.Files.Opened.{fdstable_get_below}

-- `dup` of a file of Expand gives Expand's descriptor, without an entry in the table. Where that one
-- is below PLUSXPN, reads and writes of the copy go to the C library, on whatever descriptor of the
-- process has that number.
pub read-write-dup :
    {S : Type 0} (env : Env S) (w : Sys S) (fd : ℤ) (v : GenericFd) (s : S) (r : ℕ)
    → fdstable_get w fd ≡ some v
    → is_xpn v ≡ true
    → env.xpn (Xpn.dup v.real_fd) (keep_init env w).os ≡ (s, pos r)
    → r < plusxpn
    → (w' : Sys S) × (dup env fd w ≡ some (w', pos r))
      × ((buf : ℤ) (nbyte : ℕ)
          → (read env (pos r) buf nbyte w' ≡ call_libc env (Libc.read (pos r) buf nbyte) w')
            × (write env (pos r) buf nbyte w' ≡ call_libc env (Libc.write (pos r) buf nbyte) w'))
unfolding dup read write
read-write-dup env w fd v s r at xpn copied low =
    let w' : Sys _ = record (keep_init env w) { os = s } in
    (
      w',
      rw (at, xpn, copied) refl,
      λ buf nbyte. (rw (fdstable_get_below w' r low) refl, rw (fdstable_get_below w' r low) refl),
    )
