-- ===== src/Bypass/Process.antt =====
-- The wrappers of src/bypass/xpn_bypass.c for processes, and those that leave out descriptors of
-- Expand.
use xpn.Prelude.{ℕ, some, ◌==◌, if◌then◌else◌, ◌>>=◌}
use xpn.Prelude.Int.{ℤ, pos, eq_ℤ}
use xpn.Bypass.{Env, Sys, Outcome, Xpn, Libc, call_xpn, call_libc}
use xpn.Bypass.Fds.{fdstable_get, is_xpn}

module _ {S : Type 0} (env : Env S) where
  -- `fork`
  unfoldable pub fork : Sys S → Outcome S
  fork w = call_libc env Libc.fork w >>= λ (w1, ret).
      some (if eq_ℤ ret (pos 0) then record w1 { init_called = 0 } else w1, ret)

  -- `pipe`
  unfoldable pub pipe : (pipefd : ℤ) → Sys S → Outcome S
  pipe pipefd = call_libc env (Libc.pipe pipefd)

  -- `exit`, up to the call that does not return.
  unfoldable pub exit : (status : ℤ) → Sys S → Outcome S
  exit status w =
      let destroyed =
        call_xpn env Xpn.destroy w >>= λ (w1, r). call_libc env (Libc.exit status) w1 in
      if w.init_called == 1 then destroyed else call_libc env (Libc.exit status) w

  -- The form of a wrapper that does nothing on a descriptor of Expand.
  abbrev pub unless_xpn : (fd : ℤ) (outside : Sys S → Outcome S) → Sys S → Outcome S
  unless_xpn fd outside w =
      fdstable_get w fd >>= λ v. if is_xpn v then some (w, pos 0) else outside w

  -- `fcntl`
  unfoldable pub fcntl : (fd : ℤ) (cmd : ℕ) (arg : ℤ) → Sys S → Outcome S
  fcntl fd cmd arg = unless_xpn fd (call_libc env (Libc.fcntl fd cmd arg))

  -- `fsync`
  unfoldable pub fsync : (fd : ℤ) → Sys S → Outcome S
  fsync fd = unless_xpn fd (call_libc env (Libc.fsync fd))

  -- `flock`
  unfoldable pub flock : (fd : ℤ) (operation : ℕ) → Sys S → Outcome S
  flock fd operation = unless_xpn fd (call_libc env (Libc.flock fd operation))
