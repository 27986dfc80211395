-- ===== src/Bypass/Intercept/Foreign.antt =====
-- Calls that have nothing to do with Expand.
use xpn.Prelude.{ℕ, false, ◌≡◌, ◌⊎◌, inl, inr, refl, sym, ap, Bool-cases, some}
use xpn.Prelude.Int.{ℤ, pos, negsuc, eq_ℤ}
use xpn.Bypass.{Bytes, Env, Sys, GenericFd, Libc, has_prefix, call_libc}
use xpn.Bypass.Fds.{fdstable_get, is_xpn}
use xpn.Bypass.Init.{dup2}
use xpn.Bypass.Files.{
  open_file, open64, open_2, creat, mkstemp, ftruncate, read, write, pread, pwrite, pread64,
  pwrite64, lseek, lseek64, fxstat, fxstat64, close, dup, fchmod,
}
use xpn.Bypass.Streams.{fopen, fdopen, fclose, ftell, rewind, feof, fread, fwrite, fseek}
use xpn.Bypass.Paths.{
  xstat, lxstat, lxstat64, xstat64, statfs, statfs64, rename, unlink, remove, rmdir, chdir, mkdir,
  chmod, access, chown, realpath,
}
use xpn.Bypass.Dirs.{fdsdirtable_get, opendir, readdir, readdir64, closedir}
use xpn.Bypass.Process.{fork, pipe, exit, fcntl, fsync, flock}
use xpn.Bypass.Intercept.{
  intercept, Subject, subject, on_path, on_paths, on_fd, on_stream, on_dir, on_fds, on_process,
  on_nothing,
}

module _ {S : Type 0} (env : Env S) where
  -- The descriptor is no virtual one of Expand.
  abbrev pub IsForeignFd : Sys S → ℤ → Type 0
  IsForeignFd w fd = (v : GenericFd) × (fdstable_get w fd ≡ some v) × (is_xpn v ≡ false)

  abbrev pub IsForeignSubject : Sys S → Subject → Type 0
  IsForeignSubject w (on_path path) = has_prefix w.prefix path ≡ false
  IsForeignSubject w (on_paths a b) =
      (has_prefix w.prefix a ≡ false) ⊎ (has_prefix w.prefix b ≡ false)
  IsForeignSubject w (on_fd fd) = IsForeignFd w fd
  IsForeignSubject w (on_stream stream) = IsForeignFd w (env.fileno stream w.os)
  IsForeignSubject w (on_dir dir) = fdsdirtable_get env w dir ≡ negsuc 0
  IsForeignSubject w (on_fds fd fd2) =
      IsForeignFd w fd × ((v : GenericFd) × (fdstable_get w fd2 ≡ some v))
  IsForeignSubject w on_process = w.init_called ≡ 0
  IsForeignSubject w on_nothing = Unit

  -- The call names no file, descriptor, stream or directory of Expand.
  abbrev pub IsForeign : Sys S → Libc → Type 0
  IsForeign w r = IsForeignSubject w (subject r)

  rename-foreign :
      (a b : Bytes) (w : Sys S)
      → (has_prefix w.prefix a ≡ false) ⊎ (has_prefix w.prefix b ≡ false)
      → rename env a b w ≡ call_libc env (Libc.rename a b) w
  unfolding rename
  rename-foreign a b w (inl h) = rw h
  rename-foreign a b w (inr h) = elim (Bool-cases (has_prefix w.prefix a)) [
    | inl yes_a ↦ rw (yes_a, h)
    | inr no_a ↦ rw no_a
  ]

  fork-child : (w : Sys S) → w.init_called ≡ 0 → fork env w ≡ call_libc env Libc.fork w
  unfolding fork
  fork-child w h =
      let (s, ret) = env.libc Libc.fork w.os in
      elim (Bool-cases (eq_ℤ ret (pos 0))) [
        | inl child ↦ rw child (ap (λ n. some (record w { os = s; init_called = n }, ret)) (sym h))
        | inr parent ↦ rw parent
      ]

  -- A call that names nothing of Expand, as `IsForeign` says, is passed on to the C library as it is,
  -- and nothing of the library changes.
  pub intercept-IsForeign :
      (rand vararg : ℕ) (w : Sys S) (r : Libc)
      → IsForeign w r
      → intercept env rand vararg r w ≡ call_libc env r w
  unfolding intercept open_file open64 open_2 creat mkstemp ftruncate read write pread pwrite
      pread64 pwrite64 lseek lseek64 xstat lxstat lxstat64 xstat64 statfs statfs64 fxstat fxstat64
      close rename unlink remove rmdir opendir chdir fopen fdopen fclose ftell rewind feof fread
      fwrite fseek mkdir chmod access readdir readdir64 closedir fork pipe dup fsync dup2 exit
      fchmod chown fcntl realpath flock
  intercept-IsForeign rand vararg w (Libc.open_file path flags mode) h = rw h
  intercept-IsForeign rand vararg w (Libc.open64 path flags mode) h = rw h
  intercept-IsForeign rand vararg w (Libc.open_2 path flags) h = rw h
  intercept-IsForeign rand vararg w (Libc.creat path mode) h = rw h
  intercept-IsForeign rand vararg w (Libc.mkstemp at template) h = rw h
  intercept-IsForeign rand vararg w (Libc.ftruncate fd length) h = let (v, e, n) = h in rw (e, n)
  intercept-IsForeign rand vararg w (Libc.read fd buf nbyte) h = let (v, e, n) = h in rw (e, n)
  intercept-IsForeign rand vararg w (Libc.write fd buf nbyte) h = let (v, e, n) = h in rw (e, n)
  intercept-IsForeign rand vararg w (Libc.pread fd buf count offset) h =
      let (v, e, n) = h in rw (e, n)
  intercept-IsForeign rand vararg w (Libc.pwrite fd buf count offset) h =
      let (v, e, n) = h in rw (e, n)
  intercept-IsForeign rand vararg w (Libc.pread64 fd buf count offset) h =
      let (v, e, n) = h in rw (e, n)
  intercept-IsForeign rand vararg w (Libc.pwrite64 fd buf count offset) h =
      let (v, e, n) = h in rw (e, n)
  intercept-IsForeign rand vararg w (Libc.lseek fd offset whence) h = let (v, e, n) = h in rw (e, n)
  intercept-IsForeign rand vararg w (Libc.lseek64 fd offset whence) h =
      let (v, e, n) = h in rw (e, n)
  intercept-IsForeign rand vararg w (Libc.stat ver path buf) h = rw h
  intercept-IsForeign rand vararg w (Libc.lstat ver path buf) h = rw h
  intercept-IsForeign rand vararg w (Libc.lxstat64 ver path buf) h = rw h
  intercept-IsForeign rand vararg w (Libc.xstat64 ver path buf) h = rw h
  intercept-IsForeign rand vararg w (Libc.statfs path buf) h = rw h
  intercept-IsForeign rand vararg w (Libc.statfs64 path buf) h = rw h
  intercept-IsForeign rand vararg w (Libc.fstat ver fd buf) h = let (v, e, n) = h in rw (e, n)
  intercept-IsForeign rand vararg w (Libc.fxstat64 ver fd buf) h = let (v, e, n) = h in rw (e, n)
  intercept-IsForeign rand vararg w (Libc.close fd) h = let (v, e, n) = h in rw (e, n)
  intercept-IsForeign rand vararg w (Libc.rename old_path new_path) h =
      rename-foreign old_path new_path w h
  intercept-IsForeign rand vararg w (Libc.unlink path) h = rw h
  intercept-IsForeign rand vararg w (Libc.remove path) h = rw h
  intercept-IsForeign rand vararg w (Libc.rmdir path) h = rw h
  intercept-IsForeign rand vararg w (Libc.opendir path) h = rw h
  intercept-IsForeign rand vararg w (Libc.chdir path) h = rw h
  intercept-IsForeign rand vararg w (Libc.fopen path mode) h = rw h
  intercept-IsForeign rand vararg w (Libc.fdopen fd mode) h = let (v, e, n) = h in rw (e, n)
  intercept-IsForeign rand vararg w (Libc.fclose stream) h = let (v, e, n) = h in rw (e, n)
  intercept-IsForeign rand vararg w (Libc.ftell stream) h = let (v, e, n) = h in rw (e, n)
  intercept-IsForeign rand vararg w (Libc.rewind stream) h = let (v, e, n) = h in rw (e, n)
  intercept-IsForeign rand vararg w (Libc.feof stream) h = let (v, e, n) = h in rw (e, n)
  intercept-IsForeign rand vararg w (Libc.fread ptr size nmemb stream) h =
      let (v, e, n) = h in rw (e, n)
  intercept-IsForeign rand vararg w (Libc.fwrite ptr size nmemb stream) h =
      let (v, e, n) = h in rw (e, n)
  intercept-IsForeign rand vararg w (Libc.fseek stream offset whence) h =
      let (v, e, n) = h in rw (e, n)
  intercept-IsForeign rand vararg w (Libc.mkdir path mode) h = rw h
  intercept-IsForeign rand vararg w (Libc.chmod path mode) h = rw h
  intercept-IsForeign rand vararg w (Libc.access path mode) h = rw h
  intercept-IsForeign rand vararg w (Libc.readdir dir) h = rw h
  intercept-IsForeign rand vararg w (Libc.readdir64 dir) h = rw h
  intercept-IsForeign rand vararg w (Libc.closedir dir) h = rw h
  intercept-IsForeign rand vararg w Libc.fork h = fork-child w h
  intercept-IsForeign rand vararg w (Libc.pipe pipefd) h = refl
  intercept-IsForeign rand vararg w (Libc.dup fd) h = let (v, e, n) = h in rw (e, n)
  intercept-IsForeign rand vararg w (Libc.fsync fd) h = let (v, e, n) = h in rw (e, n)
  intercept-IsForeign rand vararg w (Libc.dup2 fd fd2) h =
      let ((v, e, n), (v2, e2)) = h in rw (e2, e, n)
  intercept-IsForeign rand vararg w (Libc.exit status) h = rw h
  intercept-IsForeign rand vararg w (Libc.fchmod fd mode) h = let (v, e, n) = h in rw (e, n)
  intercept-IsForeign rand vararg w (Libc.chown path owner group) h = rw h
  intercept-IsForeign rand vararg w (Libc.fcntl fd cmd arg) h = let (v, e, n) = h in rw (e, n)
  intercept-IsForeign rand vararg w (Libc.realpath path resolved_path) h = rw h
  intercept-IsForeign rand vararg w (Libc.flock fd operation) h = let (v, e, n) = h in rw (e, n)
