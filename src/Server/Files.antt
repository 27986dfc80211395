-- ===== src/Server/Files.antt =====
-- The operations on files of src/xpn_server/xpn_server_ops.c, but for reading and writing.
use xpn.Prelude.{Option, some, ◌==◌, if◌then◌else◌, ◌>>=◌}
use xpn.Prelude.Int.{ℤ, pos, lt_ℤ}
use xpn.Protocol.{status, attr_req, PathFlags, PathMsg, CloseMsg, RenameMsg}
use xpn.Server.{Host, World, send, read_path}

module _ {S : Type 0} (h : Host S) where
  -- A status with the value of `errno`.
  abbrev pub answer : World S → (ret : ℤ) → S → World S
  answer w ret s = send w s (status (record { ret = ret; server_errno = h.errno s }))

  -- What `xpn_server_op_open` and `xpn_server_op_creat` do with a file that is open: without a
  -- session it is closed again. The status was given its `errno` before that.
  abbrev pub answer_open : World S → PathFlags → (ret : ℤ) → S → World S
  answer_open w m ret s =
      let (closed, closing) = h.close s ret in
      let kept = if m.xpn_session == 0 then closed else s in
      let after = if m.file_type == 1 then h.subscribe kept m else kept in
      let result = if m.xpn_session == 0 then closing else ret in
      if lt_ℤ ret (pos 0)
      then answer w ret s
      else send w after (status (record { ret = result; server_errno = h.errno s }))

  unfoldable pub op_open : World S → PathFlags → Option (World S)
  op_open w m = read_path w m.path_len m.path >>= λ (full_path, w1).
      let (s, ret) = h.open2 (h.clear_errno w1.host) full_path m.flags m.mode in
      some (answer_open w1 m ret s)

  -- The session is read from `op_open`, a member of the same type.
  unfoldable pub op_creat : World S → PathFlags → Option (World S)
  op_creat w m = read_path w m.path_len m.path >>= λ (full_path, w1).
      let (s, ret) = h.creat (h.clear_errno w1.host) full_path m.mode in
      some (answer_open w1 m ret s)

  unfoldable pub op_close : World S → CloseMsg → Option (World S)
  op_close w m = read_path w m.path_len m.path >>= λ (full_path, w1).
      let (s, ret) = h.close (h.clear_errno w1.host) m.fd in
      let w2 = answer w1 ret s in
      some (if m.file_type == 1 then record w2 { host = h.unsubscribe s m } else w2)

  unfoldable pub op_rm : World S → PathMsg → Option (World S)
  op_rm w m = read_path w m.path_len m.path >>= λ (full_path, w1).
      let (s, ret) = h.unlink (h.clear_errno w1.host) full_path in some (answer w1 ret s)

  unfoldable pub op_rm_async : World S → PathMsg → Option (World S)
  op_rm_async w m = read_path w m.path_len m.path >>= λ (full_path, w1).
      let (s, ret) = h.unlink w1.host full_path in some (record w1 { host = s })

  unfoldable pub op_rename : World S → RenameMsg → Option (World S)
  op_rename w m = read_path w m.old_url_len m.old_url >>= λ (full_path_old, w1).
      read_path w1 m.new_url_len m.new_url >>= λ (full_path_new, w2).
      let (s, ret) = h.rename (h.clear_errno w2.host) full_path_old full_path_new in
      some (answer w2 ret s)

  unfoldable pub op_getattr : World S → PathMsg → Option (World S)
  op_getattr w m = read_path w m.path_len m.path >>= λ (full_path, w1).
      let (s, ret, attr) = h.stat (h.clear_errno w1.host) full_path in
      some (
        send w1 s (
          attr_req (record {
            attr = attr;
            status = ret;
            status_req = record { ret = ret; server_errno = h.errno s };
          })))
