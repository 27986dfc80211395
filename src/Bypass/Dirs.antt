-- ===== src/Bypass/Dirs.antt =====
-- The table of directories and the wrappers of src/bypass/xpn_bypass.c that use it.
pub mod Full
use xpn.Prelude.{
  ℕ, ◌+◌, Bool, true, false, not, Option, none, some, List, [], ◌∷◌, ◌==◌, ltb, if◌then◌else◌,
  ◌>>=◌, get_elem?, set, length,
}
use xpn.Prelude.Int.{ℤ, pos, negsuc, ◌-ℤ◌, eq_ℤ}
use xpn.Bypass.{
  Bytes, Env, Sys, GenericFd, fd_xpn, Outcome, Xpn, Libc, call_xpn, call_libc, skip_xpn_prefix,
}
use xpn.Bypass.Fds.{entries, fdstable_get, fdstable_remove, plusxpn}
use xpn.Bypass.Init.{by_path, keep_init, fdstable_put, fdsdirtable_realloc}

-- The loop of `fdsdirtable_get`, over what is left of the table: the index of an entry.
unfoldable pub find_dir : (dir : ℤ) → List ℤ → (i : ℕ) → Option ℕ
find_dir dir [] i = none
find_dir dir (d ∷ table) i =
    let rest = find_dir dir table (i + 1) in if eq_ℤ d dir then some i else rest

module _ {S : Type 0} (env : Env S) where
  -- `fdsdirtable_get`
  unfoldable pub fdsdirtable_get : Sys S → (dir : ℤ) → ℤ
  fdsdirtable_get w dir = elim (find_dir dir (entries w.fdsdirtable) 0) [
    | none ↦ negsuc 0
    | some i ↦ pos i
  ]

  -- What `fdsdirtable_put` does at the index that it found.
  unfoldable pub put_dir_at : (i : ℕ) (dir fd : ℤ) → Sys S → Outcome S
  put_dir_at i dir fd w =
      let w1 = record w {
        fdsdirtable = some (set (entries w.fdsdirtable) i dir);
        fdsdirtable_first_free = i + 1;
      } in
      fdstable_put env (record { type = fd_xpn; real_fd = fd }) w1 >>= λ (w2, vfd).
      some (record w2 { os = env.set_dir_fd dir vfd w2.os }, pos 0)

  -- What `fdsdirtable_put` does with the index that its search found. Without one, `old_size` is the
  -- size of the table of descriptors.
  unfoldable pub put_found_dir : (dir fd : ℤ) → Sys S → Option ℕ → Outcome S
  put_found_dir dir fd w (some i) = put_dir_at i dir fd w
  put_found_dir dir fd w none =
      let old_size = length (entries w.fdstable) in
      let w1 = fdsdirtable_realloc w in
      get_elem? (entries w1.fdsdirtable) old_size >>= λ d.
      (if eq_ℤ d (pos 0) then put_dir_at old_size dir fd w1 else some (w1, negsuc 0))

  -- `fdsdirtable_put`
  unfoldable pub fdsdirtable_put : (dir : ℤ) → Sys S → Outcome S
  fdsdirtable_put dir w =
      let first = w.fdsdirtable_first_free in
      put_found_dir dir (env.dir_fd dir w.os) w
        (find_dir (pos 0) (xpn.Prelude.drop first (entries w.fdsdirtable)) first)

  -- `fdsdirtable_remove`
  unfoldable pub fdsdirtable_remove : (dir : ℤ) → Sys S → Outcome S
  fdsdirtable_remove dir w = elim (find_dir dir (entries w.fdsdirtable) 0) [
    | none ↦ some (w, negsuc 0)
    | some i ↦ fdstable_remove env w (env.dir_fd dir w.os) >>= λ (w1, r). some (
      record w1 {
        os = env.set_dir_fd dir (env.dir_fd dir w1.os -ℤ pos plusxpn) w1.os;
        fdsdirtable = some (set (entries w1.fdsdirtable) i (pos 0));
        fdsdirtable_first_free =
            if ltb i w1.fdsdirtable_first_free then i else w1.fdsdirtable_first_free;
      },
      pos 0,
    )
  ]

  -- The form of a wrapper that is given a directory.
  abbrev pub by_dir : (dir : ℤ) (inside outside : Sys S → Outcome S) → Sys S → Outcome S
  by_dir dir inside outside w =
      if eq_ℤ (fdsdirtable_get w dir) (negsuc 0) then outside w else inside (keep_init env w)

  -- `opendir`
  unfoldable pub opendir : (dirname : Bytes) → Sys S → Outcome S
  opendir dirname =
      by_path env dirname
        (λ w. call_xpn env (Xpn.opendir (skip_xpn_prefix w dirname)) w >>= λ (w1, ret).
          (let put = fdsdirtable_put ret w1 >>= λ (w2, r). some (w2, ret) in
            if eq_ℤ ret (pos 0) then some (w1, ret) else put))
        (call_libc env (Libc.opendir dirname))

  -- `fdsdirtable_getfd` and `xpn_readdir` on the copy that it makes.
  unfoldable pub readdir_xpn : (dir : ℤ) → Sys S → Outcome S
  readdir_xpn dir w =
      fdstable_get w (env.dir_fd dir w.os) >>= λ v. call_xpn env (Xpn.readdir dir v.real_fd) w

  -- `readdir`
  unfoldable pub readdir : (dir : ℤ) → Sys S → Outcome S
  readdir dir = by_dir dir (readdir_xpn dir) (call_libc env (Libc.readdir dir))

  -- `readdir64`
  unfoldable pub readdir64 : (dir : ℤ) → Sys S → Outcome S
  readdir64 dir =
      by_dir dir
        (λ w. readdir_xpn dir w >>= λ (w1, aux).
          (let (s, ret) = env.store_dirent64 aux w1.os in
            if eq_ℤ aux (pos 0) then some (w1, pos 0) else some (record w1 { os = s }, ret)))
        (call_libc env (Libc.readdir64 dir))

  -- `closedir`
  unfoldable pub closedir : (dir : ℤ) → Sys S → Outcome S
  closedir dir =
      by_dir dir (λ w. fdsdirtable_remove dir w >>= λ (w1, r). call_xpn env (Xpn.closedir dir) w1)
        (call_libc env (Libc.closedir dir))
