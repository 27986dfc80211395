-- ===== src/Bypass/Intercept.antt =====
-- The library as a whole: each call of the C library by its wrapper of src/bypass/xpn_bypass.c.
pub mod Foreign
pub mod Program
use xpn.Prelude.{
  ℕ, Bool, ◌&&◌, true, false, ◌≡◌, ◌⊎◌, inl, inr, refl, none, some, Option, ◌==◌, ◌>>=◌,
  if◌then◌else◌,
}
use xpn.Prelude.Int.{ℤ, eq_ℤ}
use xpn.Bypass.{Bytes, Env, Sys, Outcome, Libc, has_prefix, call_libc}
use xpn.Bypass.Fds.{fdstable_get, is_xpn}
use xpn.Bypass.Init.{dup2}
use xpn.Bypass.Files.{
  open_file, open64, open_2, creat, mkstemp, ftruncate, read, write, pread, pwrite, pread64,
  pwrite64, lseek, lseek64, fxstat, fxstat64, close, dup, fchmod,
}
use xpn.Bypass.Streams.{fopen, fdopen, fclose, ftell, rewind, feof, fread, fwrite, fseek}
use xpn.Bypass.Paths.{
  xstat, lxstat, lxstat64, xstat64, statfs, statfs64, rename, unlink, remove, rmdir, chdir, mkdir,
  chmod, access, chown, realpath,
}
use xpn.Bypass.Dirs.{fdsdirtable_get, opendir, readdir, readdir64, closedir}
use xpn.Bypass.Process.{fork, pipe, exit, fcntl, fsync, flock}

-- What a call of the program comes to. `rand` is what `rand()` returns, and `vararg` what
-- `va_arg` reads where no mode was passed.
unfoldable pub intercept : {S : Type 0} (env : Env S) (rand vararg : ℕ) → Libc → Sys S → Outcome S
intercept env rand vararg (Libc.open_file path flags mode) = open_file env path flags mode
intercept env rand vararg (Libc.open64 path flags mode) = open64 env path flags mode
intercept env rand vararg (Libc.open_2 path flags) = open_2 env path flags vararg
intercept env rand vararg (Libc.creat path mode) = creat env path mode
intercept env rand vararg (Libc.mkstemp at template) = mkstemp env rand at template
intercept env rand vararg (Libc.ftruncate fd length) = ftruncate env fd length
intercept env rand vararg (Libc.read fd buf nbyte) = read env fd buf nbyte
intercept env rand vararg (Libc.write fd buf nbyte) = write env fd buf nbyte
intercept env rand vararg (Libc.pread fd buf count offset) = pread env fd buf count offset
intercept env rand vararg (Libc.pwrite fd buf count offset) = pwrite env fd buf count offset
intercept env rand vararg (Libc.pread64 fd buf count offset) = pread64 env fd buf count offset
intercept env rand vararg (Libc.pwrite64 fd buf count offset) = pwrite64 env fd buf count offset
intercept env rand vararg (Libc.lseek fd offset whence) = lseek env fd offset whence
intercept env rand vararg (Libc.lseek64 fd offset whence) = lseek64 env fd offset whence
intercept env rand vararg (Libc.stat ver path buf) = xstat env ver path buf
intercept env rand vararg (Libc.lstat ver path buf) = lxstat env ver path buf
intercept env rand vararg (Libc.lxstat64 ver path buf) = lxstat64 env ver path buf
intercept env rand vararg (Libc.xstat64 ver path buf) = xstat64 env ver path buf
intercept env rand vararg (Libc.statfs path buf) = statfs env path buf
intercept env rand vararg (Libc.statfs64 path buf) = statfs64 env path buf
intercept env rand vararg (Libc.fstat ver fd buf) = fxstat env ver fd buf
intercept env rand vararg (Libc.fxstat64 ver fd buf) = fxstat64 env ver fd buf
intercept env rand vararg (Libc.close fd) = close env fd
intercept env rand vararg (Libc.rename old_path new_path) = rename env old_path new_path
intercept env rand vararg (Libc.unlink path) = unlink env path
intercept env rand vararg (Libc.remove path) = remove env path
intercept env rand vararg (Libc.rmdir path) = rmdir env path
intercept env rand vararg (Libc.opendir path) = opendir env path
intercept env rand vararg (Libc.chdir path) = chdir env path
intercept env rand vararg (Libc.fopen path mode) = fopen env path mode
intercept env rand vararg (Libc.fdopen fd mode) = fdopen env fd mode
intercept env rand vararg (Libc.fclose stream) = fclose env stream
intercept env rand vararg (Libc.ftell stream) = ftell env stream
intercept env rand vararg (Libc.rewind stream) = rewind env stream
intercept env rand vararg (Libc.feof stream) = feof env stream
intercept env rand vararg (Libc.fread ptr size nmemb stream) = fread env ptr size nmemb stream
intercept env rand vararg (Libc.fwrite ptr size nmemb stream) = fwrite env ptr size nmemb stream
intercept env rand vararg (Libc.fseek stream offset whence) = fseek env stream offset whence
intercept env rand vararg (Libc.mkdir path mode) = mkdir env path mode
intercept env rand vararg (Libc.chmod path mode) = chmod env path mode
intercept env rand vararg (Libc.access path mode) = access env path mode
intercept env rand vararg (Libc.readdir dir) = readdir env dir
intercept env rand vararg (Libc.readdir64 dir) = readdir64 env dir
intercept env rand vararg (Libc.closedir dir) = closedir env dir
intercept env rand vararg Libc.fork = fork env
intercept env rand vararg (Libc.pipe pipefd) = pipe env pipefd
intercept env rand vararg (Libc.dup fd) = dup env fd
intercept env rand vararg (Libc.fsync fd) = fsync env fd
intercept env rand vararg (Libc.dup2 fd fd2) = dup2 env fd fd2
intercept env rand vararg (Libc.exit status) = exit env status
intercept env rand vararg (Libc.fchmod fd mode) = fchmod env fd mode
intercept env rand vararg (Libc.chown path owner group) = chown env path owner group
intercept env rand vararg (Libc.fcntl fd cmd arg) = fcntl env fd cmd arg
intercept env rand vararg (Libc.realpath path resolved_path) = realpath env path resolved_path
intercept env rand vararg (Libc.flock fd operation) = flock env fd operation

-- What tells a call of Expand from one of the C library.
pub data Subject : Type 0 where
  on_path : Bytes → Subject
  on_paths : Bytes → Bytes → Subject
  on_fd on_stream on_dir : ℤ → Subject
  on_fds : ℤ → ℤ → Subject
  on_process on_nothing : Subject

abbrev pub subject : Libc → Subject
subject (Libc.open_file path flags mode) = on_path path
subject (Libc.open64 path flags mode) = on_path path
subject (Libc.open_2 path flags) = on_path path
subject (Libc.creat path mode) = on_path path
subject (Libc.mkstemp at template) = on_path template
subject (Libc.ftruncate fd length) = on_fd fd
subject (Libc.read fd buf nbyte) = on_fd fd
subject (Libc.write fd buf nbyte) = on_fd fd
subject (Libc.pread fd buf count offset) = on_fd fd
subject (Libc.pwrite fd buf count offset) = on_fd fd
subject (Libc.pread64 fd buf count offset) = on_fd fd
subject (Libc.pwrite64 fd buf count offset) = on_fd fd
subject (Libc.lseek fd offset whence) = on_fd fd
subject (Libc.lseek64 fd offset whence) = on_fd fd
subject (Libc.stat ver path buf) = on_path path
subject (Libc.lstat ver path buf) = on_path path
subject (Libc.lxstat64 ver path buf) = on_path path
subject (Libc.xstat64 ver path buf) = on_path path
subject (Libc.statfs path buf) = on_path path
subject (Libc.statfs64 path buf) = on_path path
subject (Libc.fstat ver fd buf) = on_fd fd
subject (Libc.fxstat64 ver fd buf) = on_fd fd
subject (Libc.close fd) = on_fd fd
subject (Libc.rename old_path new_path) = on_paths old_path new_path
subject (Libc.unlink path) = on_path path
subject (Libc.remove path) = on_path path
subject (Libc.rmdir path) = on_path path
subject (Libc.opendir path) = on_path path
subject (Libc.chdir path) = on_path path
subject (Libc.fopen path mode) = on_path path
subject (Libc.fdopen fd mode) = on_fd fd
subject (Libc.fclose stream) = on_stream stream
subject (Libc.ftell stream) = on_stream stream
subject (Libc.rewind stream) = on_stream stream
subject (Libc.feof stream) = on_stream stream
subject (Libc.fread ptr size nmemb stream) = on_stream stream
subject (Libc.fwrite ptr size nmemb stream) = on_stream stream
subject (Libc.fseek stream offset whence) = on_stream stream
subject (Libc.mkdir path mode) = on_path path
subject (Libc.chmod path mode) = on_path path
subject (Libc.access path mode) = on_path path
subject (Libc.readdir dir) = on_dir dir
subject (Libc.readdir64 dir) = on_dir dir
subject (Libc.closedir dir) = on_dir dir
subject Libc.fork = on_process
subject (Libc.pipe pipefd) = on_nothing
subject (Libc.dup fd) = on_fd fd
subject (Libc.fsync fd) = on_fd fd
subject (Libc.dup2 fd fd2) = on_fds fd fd2
subject (Libc.exit status) = on_process
subject (Libc.fchmod fd mode) = on_fd fd
subject (Libc.chown path owner group) = on_path path
subject (Libc.fcntl fd cmd arg) = on_fd fd
subject (Libc.realpath path resolved_path) = on_path path
subject (Libc.flock fd operation) = on_fd fd
