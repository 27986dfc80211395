-- ===== src/Server/Dirs.antt =====
-- The operations on directories of src/xpn_server/xpn_server_ops.c.
use xpn.Prelude.{ℕ, Bool, true, false, not, ◌&&◌, Option, none, some, ◌==◌, if◌then◌else◌, ◌>>=◌}
use xpn.Prelude.Int.{ℤ, pos, negsuc, eq_ℤ}
use xpn.Policy.Grouping.{Bytes}
use xpn.Protocol.{
  Status, PathFlags, PathMsg, CloseMsg, ReaddirMsg, opendir_req, ReaddirReq, readdir_req,
}
use xpn.Server.{Host, World, send, read_path}
use xpn.Server.Files.{answer}

-- `ret != NULL`, and the entry that is then copied; the rest of the answer was not initialised, and
-- it is `old`.
abbrev pub has_entry : Option Bytes → Bool
has_entry none = false
has_entry (some name) = true

abbrev pub entry : (old : Bytes) → Option Bytes → Bytes
entry old none = old
entry old (some name) = name

abbrev pub dir_or : (old : ℕ) → Option ℕ → ℕ
dir_or old none = 0
dir_or old (some dir) = dir

-- The number of a flag.
abbrev pub to_num : Bool → ℕ
to_num true = 1
to_num false = 0

-- -1 for a failure, and 0.
abbrev pub minus_one_if : Bool → ℤ
minus_one_if true = negsuc 0
minus_one_if false = pos 0

module _ {S : Type 0} (h : Host S) where
  unfoldable pub op_mkdir : World S → PathFlags → Option (World S)
  op_mkdir w m = read_path w m.path_len m.path >>= λ (full_path, w1).
      let (s, ret) = h.mkdir (h.clear_errno w1.host) full_path m.mode in some (answer h w1 ret s)

  -- `old` is the uninitialised `req.dir`.
  unfoldable pub op_opendir : (old : ℕ) → World S → PathFlags → Option (World S)
  op_opendir old w m = read_path w m.path_len m.path >>= λ (full_path, w1).
      let (s1, ret) = h.opendir (h.clear_errno w1.host) full_path in
      let (s2, pos_dir) = h.telldir s1 ret in
      let (s3, closed) = h.closedir s2 ret in
      let failed = not (eq_ℤ (h.errno s1) (pos 0)) in
      let opened : Status = record { ret = minus_one_if failed; server_errno = h.errno s1 } in
      some (
        if failed
        then send w1 s1 (opendir_req (record { dir = old; status = opened }))
        else if m.xpn_session == 1
        then send w1 s1 (opendir_req (record { dir = dir_or old ret; status = opened }))
        else send w1 s3 (
            opendir_req
              (record { dir = old; status = record { ret = pos_dir; server_errno = h.errno s2 } })))

  -- The position is set in a directory that could be opened.
  abbrev pub sought_dir : S → Option ℕ → ℤ → S
  sought_dir s none telldir = s
  sought_dir s (some dir) telldir = h.seekdir s (some dir) telldir

  -- With a session, the directory of the message is read; without one, the directory is opened,
  -- read at `telldir` and closed, and the status is the result of closing it. `old` is the
  -- uninitialised answer.
  unfoldable pub op_readdir : (old : ReaddirReq) → World S → ReaddirMsg → Option (World S)
  op_readdir old w m = read_path w m.path_len m.path >>= λ (full_path, w1).
      let (s1, got) = h.readdir (h.clear_errno w1.host) (some m.dir) in
      let failed = not (has_entry got) && not (eq_ℤ (h.errno s1) (pos 0)) in
      let (t1, d) = h.opendir w1.host full_path in
      let sought = sought_dir t1 d m.telldir in
      let (t2, got') = h.readdir (h.clear_errno sought) d in
      let (t3, at) = h.telldir t2 d in
      let (t4, closed) = h.closedir t3 d in
      some (
        if m.xpn_session == 1
        then send w1 s1 (
            readdir_req (record {
              end = to_num (has_entry got);
              telldir = old.telldir;
              ret = entry old.ret got;
              status = record { ret = minus_one_if failed; server_errno = h.errno s1 };
            }))
        else send w1 t4 (
            readdir_req (record {
              end = to_num (has_entry got');
              telldir = at;
              ret = entry old.ret got';
              status = record { ret = closed; server_errno = h.errno t2 };
            })))

  -- The path is not read.
  unfoldable pub op_closedir : World S → CloseMsg → Option (World S)
  op_closedir w m =
      let (s, ret) = h.closedir (h.clear_errno w.host) (some m.dir) in some (answer h w ret s)

  unfoldable pub op_rmdir : World S → PathMsg → Option (World S)
  op_rmdir w m = read_path w m.path_len m.path >>= λ (full_path, w1).
      let (s, ret) = h.rmdir (h.clear_errno w1.host) full_path in some (answer h w1 ret s)
