-- ===== src/Bypass/Streams.antt =====
-- The wrappers of src/bypass/xpn_bypass.c for streams. A stream of Expand is one of the C library on
-- /dev/null that carries a virtual descriptor.
use xpn.Prelude.{
  ℕ, ◌-◌, ◌*◌, ◌/◌, ◌%◌, ◌^◌, none, some, [], ◌∷◌, ◌==◌, if◌then◌else◌, ◌>>=◌, get_or,
}
use xpn.Prelude.Int.{ℤ, pos, negsuc, eq_ℤ}
use xpn.Bypass.{Bytes, Env, Sys, Outcome, Xpn, Libc, call_xpn, call_libc, skip_xpn_prefix}
use xpn.Bypass.Fds.{fdstable_get, is_xpn}
use xpn.Bypass.Init.{by_path, by_fd, add_xpn_file}
use xpn.Bypass.Files.{seek_set, seek_cur, seek_end, close_xpn}
use xpn.Client.Rw.{to_int}

-- O_RDONLY | O_CREAT, O_WRONLY | O_CREAT | O_TRUNC, and O_RDWR | O_CREAT | O_TRUNC
abbrev pub read_flags : ℕ
read_flags = 64

abbrev pub write_flags : ℕ
write_flags = 577

abbrev pub update_flags : ℕ
update_flags = 578

-- The mode 0640.
abbrev pub file_mode : ℕ
file_mode = 416

-- "/dev/null"
abbrev pub dev_null : Bytes
dev_null = b'/' ∷ b'd' ∷ b'e' ∷ b'v' ∷ b'/' ∷ b'n' ∷ b'u' ∷ b'l' ∷ b'l' ∷ []

-- An `int` or an `ssize_t` as a `size_t` of 64 bits.
abbrev pub to_size : ℤ → ℕ
to_size (pos n) = n % 2 ^ 64
to_size (negsuc n) = 2 ^ 64 - 1 - n

module _ {S : Type 0} (env : Env S) where
  -- The form of a wrapper that is given a stream.
  abbrev pub by_stream :
      (stream : ℤ) (inside : (fd real_fd : ℤ) → Sys S → Outcome S) (outside : Sys S → Outcome S)
      → Sys S
      → Outcome S
  by_stream stream inside outside w =
      let fd = env.fileno stream w.os in by_fd env fd (λ v. inside fd v.real_fd) outside w

  -- `fdopen`
  unfoldable pub fdopen : (fd : ℤ) (mode : Bytes) → Sys S → Outcome S
  fdopen fd mode w = fdstable_get w fd >>= λ v.
      let carrier = call_libc env (Libc.fopen dev_null mode) w >>= λ (w1, fp).
      if eq_ℤ fp (pos 0) then none else some (record w1 { os = env.set_fileno fp fd w1.os }, fp) in
      if is_xpn v then carrier else call_libc env (Libc.fdopen fd mode) w

  -- `fopen`
  unfoldable pub fopen : (path mode : Bytes) → Sys S → Outcome S
  fopen path mode =
      let first = get_or mode 0 0 in
      let flags =
        if first == b'r' then read_flags else if first == b'w' then write_flags else update_flags in
      by_path env path
        (λ w.
          call_xpn env (Xpn.open_file (skip_xpn_prefix w path) flags (some file_mode)) w
          >>= λ (w1, fd). add_xpn_file env fd w1 >>= λ (w2, xpn_fd). fdopen xpn_fd mode w2)
        (call_libc env (Libc.fopen path mode))

  -- `fclose`
  unfoldable pub fclose : (stream : ℤ) → Sys S → Outcome S
  fclose stream = by_stream stream (close_xpn env) (call_libc env (Libc.fclose stream))

  -- The number of items of a transfer: `ret / size` on a `size_t`.
  abbrev pub items : (size : ℕ) → Outcome S → Outcome S
  items size moved =
      let counted = moved >>= λ (w, ret). some (w, pos (to_size ret / size)) in
      if size == 0 then none else counted

  -- `buf_size`, which is an `int`, as it is passed on.
  abbrev pub buf_size : (size nmemb : ℕ) → ℕ
  buf_size size nmemb = to_size (to_int (pos (size * nmemb)))

  -- `fread`
  unfoldable pub fread : (ptr : ℤ) (size nmemb : ℕ) (stream : ℤ) → Sys S → Outcome S
  fread ptr size nmemb stream =
      by_stream stream
        (λ fd real_fd w. items size (call_xpn env (Xpn.read real_fd ptr (buf_size size nmemb)) w))
        (call_libc env (Libc.fread ptr size nmemb stream))

  -- `fwrite`
  unfoldable pub fwrite : (ptr : ℤ) (size nmemb : ℕ) (stream : ℤ) → Sys S → Outcome S
  fwrite ptr size nmemb stream =
      by_stream stream
        (λ fd real_fd w. items size (call_xpn env (Xpn.write real_fd ptr (buf_size size nmemb)) w))
        (call_libc env (Libc.fwrite ptr size nmemb stream))

  -- `fseek`, whose result is an `int`.
  unfoldable pub fseek : (stream offset : ℤ) (whence : ℕ) → Sys S → Outcome S
  fseek stream offset whence =
      by_stream stream
        (λ fd real_fd w.
          call_xpn env (Xpn.lseek real_fd offset whence) w >>= λ (w1, ret). some (w1, to_int ret))
        (call_libc env (Libc.fseek stream offset whence))

  -- `ftell`
  unfoldable pub ftell : (stream : ℤ) → Sys S → Outcome S
  ftell stream =
      by_stream stream (λ fd real_fd. call_xpn env (Xpn.lseek real_fd (pos 0) seek_cur))
        (call_libc env (Libc.ftell stream))

  -- `rewind`, which returns nothing.
  unfoldable pub rewind : (stream : ℤ) → Sys S → Outcome S
  rewind stream =
      by_stream stream (λ fd real_fd. call_xpn env (Xpn.lseek real_fd (pos 0) seek_set))
        (call_libc env (Libc.rewind stream))

  -- `feof`: `ret` is -1 at both tests of it, which are never met. `ret1` and `ret2` are of type int.
  unfoldable pub feof : (stream : ℤ) → Sys S → Outcome S
  feof stream =
      by_stream stream
        (λ fd real_fd w. call_xpn env (Xpn.lseek real_fd (pos 0) seek_cur) w >>= λ (w1, ret1).
          call_xpn env (Xpn.lseek real_fd (pos 0) seek_end) w1 >>= λ (w2, ret2).
          some (w2, if eq_ℤ (to_int ret1) (to_int ret2) then pos 1 else pos 0))
        (call_libc env (Libc.feof stream))
