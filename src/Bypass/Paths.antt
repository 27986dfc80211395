-- ===== src/Bypass/Paths.antt =====
-- The wrappers of src/bypass/xpn_bypass.c that are given a path.
use Prim.Native.Nat.{bit_and}
use xpn.Prelude.{ℕ, not, some, ◌==◌, ◌&&◌, ◌||◌, if◌then◌else◌}
use xpn.Prelude.Int.{ℤ, pos, negsuc, eq_ℤ, le_ℤ}
use xpn.Bypass.{
  Bytes, Env, Sys, Outcome, Xpn, Libc, call_xpn, call_libc, is_xpn_prefix, skip_xpn_prefix,
  stat_to_stat64,
}
use xpn.Bypass.Init.{by_path, keep_init}
use xpn.Bypass.Files.{stat_ver}

-- S_IFMT, S_IFREG and S_IFDIR; X_OK, F_OK and the three bits of execution.
abbrev pub s_ifmt : ℕ
s_ifmt = 61440

abbrev pub s_ifreg : ℕ
s_ifreg = 32768

abbrev pub s_ifdir : ℕ
s_ifdir = 16384

abbrev pub x_ok : ℕ
x_ok = 1

abbrev pub f_ok : ℕ
f_ok = 0

abbrev pub x_bits : ℕ
x_bits = 73

module _ {S : Type 0} (env : Env S) where
  -- `xpn_stat` into the program's buffer.
  unfoldable pub stat_xpn : (path : Bytes) (buf : ℤ) → Sys S → Outcome S
  stat_xpn path buf w =
      let (s, ret, st) = env.xpn_stat (skip_xpn_prefix w path) w.os in
      some (record w { os = env.store_stat buf st s }, ret)

  -- `xpn_stat` into a buffer of the wrapper, which is copied.
  unfoldable pub stat64_xpn : (path : Bytes) (buf : ℤ) → Sys S → Outcome S
  stat64_xpn path buf w =
      let (s, ret, st) = env.xpn_stat (skip_xpn_prefix w path) w.os in
      some (
        record w {
          os = if le_ℤ (pos 0) ret then env.store_stat64 buf (stat_to_stat64 st) s else s;
        },
        ret,
      )

  -- `stat`
  unfoldable pub stat : (path : Bytes) (buf : ℤ) → Sys S → Outcome S
  stat path buf = by_path env path (stat_xpn path buf) (call_libc env (Libc.stat stat_ver path buf))

  -- `statfs64`, which has `xpn_stat` fill the buffer as a `struct stat`.
  unfoldable pub statfs64 : (path : Bytes) (buf : ℤ) → Sys S → Outcome S
  statfs64 path buf = by_path env path (stat_xpn path buf) (call_libc env (Libc.statfs64 path buf))

  -- `statfs`, which does the same.
  unfoldable pub statfs : (path : Bytes) (buf : ℤ) → Sys S → Outcome S
  statfs path buf = by_path env path (stat_xpn path buf) (call_libc env (Libc.statfs path buf))

  -- `__lxstat64`
  unfoldable pub lxstat64 : (ver : ℕ) (path : Bytes) (buf : ℤ) → Sys S → Outcome S
  lxstat64 ver path buf =
      by_path env path (stat64_xpn path buf) (call_libc env (Libc.lxstat64 ver path buf))

  -- `__xstat64`
  unfoldable pub xstat64 : (ver : ℕ) (path : Bytes) (buf : ℤ) → Sys S → Outcome S
  xstat64 ver path buf =
      by_path env path (stat64_xpn path buf) (call_libc env (Libc.xstat64 ver path buf))

  -- `__lxstat`
  unfoldable pub lxstat : (ver : ℕ) (path : Bytes) (buf : ℤ) → Sys S → Outcome S
  lxstat ver path buf =
      by_path env path (stat_xpn path buf) (call_libc env (Libc.lstat ver path buf))

  -- `__xstat`
  unfoldable pub xstat : (ver : ℕ) (path : Bytes) (buf : ℤ) → Sys S → Outcome S
  xstat ver path buf = by_path env path (stat_xpn path buf) (call_libc env (Libc.stat ver path buf))

  -- `rename`
  unfoldable pub rename : (old_path new_path : Bytes) → Sys S → Outcome S
  rename old_path new_path w =
      if is_xpn_prefix w old_path && is_xpn_prefix w new_path
      then call_xpn env (Xpn.rename (skip_xpn_prefix w old_path) (skip_xpn_prefix w new_path))
          (keep_init env w)
      else call_libc env (Libc.rename old_path new_path) w

  -- `unlink`
  unfoldable pub unlink : (path : Bytes) → Sys S → Outcome S
  unlink path =
      by_path env path (λ w. call_xpn env (Xpn.unlink (skip_xpn_prefix w path)) w)
        (call_libc env (Libc.unlink path))

  -- `remove`
  unfoldable pub remove : (path : Bytes) → Sys S → Outcome S
  remove path =
      by_path env path
        (λ w.
          (let (s, ret, st) = env.xpn_stat (skip_xpn_prefix w path) w.os in
            let w1 = record w { os = s } in
            if bit_and st.st_mode s_ifmt == s_ifreg
            then call_xpn env (Xpn.unlink (skip_xpn_prefix w path)) w1
            else if bit_and st.st_mode s_ifmt == s_ifdir
            then call_xpn env (Xpn.rmdir (skip_xpn_prefix w path)) w1
            else some (w1, ret)))
        (call_libc env (Libc.remove path))

  -- `mkdir`
  unfoldable pub mkdir : (path : Bytes) (mode : ℕ) → Sys S → Outcome S
  mkdir path mode =
      by_path env path (λ w. call_xpn env (Xpn.mkdir (skip_xpn_prefix w path) mode) w)
        (call_libc env (Libc.mkdir path mode))

  -- `rmdir`
  unfoldable pub rmdir : (path : Bytes) → Sys S → Outcome S
  rmdir path =
      by_path env path (λ w. call_xpn env (Xpn.rmdir (skip_xpn_prefix w path)) w)
        (call_libc env (Libc.rmdir path))

  -- `chdir`
  unfoldable pub chdir : (path : Bytes) → Sys S → Outcome S
  chdir path =
      by_path env path (λ w. call_xpn env (Xpn.chdir (skip_xpn_prefix w path)) w)
        (call_libc env (Libc.chdir path))

  -- `chmod`
  unfoldable pub chmod : (path : Bytes) (mode : ℕ) → Sys S → Outcome S
  chmod path mode =
      by_path env path (λ w. call_xpn env (Xpn.chmod (skip_xpn_prefix w path) mode) w)
        (call_libc env (Libc.chmod path mode))

  -- `chown`
  unfoldable pub chown : (path : Bytes) (owner group : ℕ) → Sys S → Outcome S
  chown path owner group =
      by_path env path (λ w. call_xpn env (Xpn.chown (skip_xpn_prefix w path) owner group) w)
        (call_libc env (Libc.chown path owner group))

  -- `access`. Its `__lxstat64` fills a buffer of the wrapper.
  unfoldable pub access : (path : Bytes) (mode : ℕ) → Sys S → Outcome S
  access path mode =
      by_path env path
        (λ w.
          (let w1 = keep_init env w in
            let (s, ret, st) = env.xpn_stat (skip_xpn_prefix w1 path) w1.os in
            let w2 = record w1 { os = s } in
            let granted = (bit_and mode x_ok == 0) || not (bit_and st.st_mode x_bits == 0) in
            if not (eq_ℤ ret (pos 0))
            then some (w2, negsuc 0)
            else if mode == f_ok
            then some (w2, pos 0)
            else some (w2, if granted then pos 0 else negsuc 0)))
        (call_libc env (Libc.access path mode))

  -- `realpath`, and `__realpath_chk`, which does the same.
  unfoldable pub realpath : (path : Bytes) (resolved_path : ℤ) → Sys S → Outcome S
  realpath path resolved_path =
      by_path env path
        (λ w. some (record w { os = env.store_path resolved_path path w.os }, resolved_path))
        (call_libc env (Libc.realpath path resolved_path))
