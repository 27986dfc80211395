-- ===== src/Bypass/Init.antt =====
-- What the wrappers of src/bypass/xpn_bypass.c share: `xpn_adaptor_keepInit`, the choice between
-- Expand and the C library, and `dup2`, which `fdstable_put` calls.
pub mod Once
use xpn.Prelude.{
  ℕ, ◌+◌, Bool, true, false, Option, none, some, List, ◌++◌, ◌==◌, if◌then◌else◌, ◌>>=◌, length,
  replicate,
}
use xpn.Prelude.Int.{ℤ, pos, negsuc, lt_ℤ}
use xpn.Bypass.{
  Bytes, Env, Sys, GenericFd, fd_xpn, Outcome, Xpn, Libc, call_xpn, call_libc, is_xpn_prefix,
}
use xpn.Bypass.Fds.{fdstable_realloc, fdstable_get, fdstable_take, is_xpn, plusxpn}

-- MAX_DIRS
abbrev pub max_dirs : ℕ
max_dirs = 10000

-- The table that `fdsdirtable_realloc` leaves.
unfoldable pub fdsdirtable_grown : Option (List ℤ) → List ℤ
fdsdirtable_grown none = replicate max_dirs (pos 0)
fdsdirtable_grown (some table) = table ++ replicate (length table) (pos 0)

module _ {S : Type 0} where
  -- `fdsdirtable_realloc`
  unfoldable pub fdsdirtable_realloc : Sys S → Sys S
  fdsdirtable_realloc w = record w { fdsdirtable = some (fdsdirtable_grown w.fdsdirtable) }

  -- The reading of INITCALLED at the first call.
  unfoldable pub read_initcalled : Sys S → Sys S
  read_initcalled w =
      let called : ℕ = elim w.initcalled_env [ none ↦ 0 | some n ↦ n ] in
      if w.init_called_getenv
      then w
      else record w { init_called = called; init_called_getenv = true }

  -- The first half of `xpn_adaptor_keepInit`: both tables, and `xpn_init`.
  unfoldable pub start_expand : Env S → Sys S → Sys S
  start_expand env w =
      let w1 = fdsdirtable_realloc (fdstable_realloc w) in
      let (s, ret) = env.xpn Xpn.init (env.setenv 1 w1.os) in
      let s1 = env.atexit_destroy s in
      let failed = lt_ℤ ret (pos 0) in
      record w1 {
        os = if failed then env.setenv 0 s1 else env.setenv 1 s1;
        init_called = if failed then 0 else 1;
        initcalled_env = some (if failed then 0 else 1);
      }

  -- `xpn_adaptor_keepInit`, whose result no caller reads.
  unfoldable pub keep_init : Env S → Sys S → Sys S
  keep_init env w =
      let w1 = read_initcalled w in if w1.init_called == 0 then start_expand env w1 else w1

  module _ (env : Env S) where
    -- The form of a wrapper that is given a path.
    abbrev pub by_path : (path : Bytes) (inside outside : Sys S → Outcome S) → Sys S → Outcome S
    by_path path inside outside w =
        if is_xpn_prefix w path then inside (keep_init env w) else outside w

    -- The form of a wrapper that is given a descriptor.
    abbrev pub by_fd :
        (fd : ℤ) (inside : GenericFd → Sys S → Outcome S) (outside : Sys S → Outcome S)
        → Sys S
        → Outcome S
    by_fd fd inside outside w =
        fdstable_get w fd >>= λ v. if is_xpn v then inside v (keep_init env w) else outside w

    -- `dup2`
    unfoldable pub dup2 : (fd fd2 : ℤ) → Sys S → Outcome S
    dup2 fd fd2 w = fdstable_get w fd2 >>= λ v2.
        by_fd fd (λ v. call_xpn env (Xpn.dup2 v.real_fd v2.real_fd))
          (call_libc env (Libc.dup2 fd fd2)) w

    -- `fdstable_put`
    unfoldable pub fdstable_put : GenericFd → Sys S → Outcome S
    fdstable_put v w = fdstable_take w v >>= λ (w1, taken). elim taken [
      | none ↦ some (w1, negsuc 0)
      | some i ↦ dup2 v.real_fd (pos (i + plusxpn)) w1 >>= λ (w2, r). some (w2, pos (i + plusxpn))
    ]

    -- `add_xpn_file_to_fdstable`
    unfoldable pub add_xpn_file : (fd : ℤ) → Sys S → Outcome S
    add_xpn_file fd w =
        if lt_ℤ fd (pos 0)
        then some (w, fd)
        else fdstable_put (record { type = fd_xpn; real_fd = fd }) w
