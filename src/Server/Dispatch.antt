-- ===== src/Server/Dispatch.antt =====
-- `xpn_server_do_operation` of src/xpn_server/xpn_server_ops.c.
pub mod Answers
use xpn.Prelude.{ℕ, Bool, true, false, Option, none, some, List, [], ◌∷◌, ◌>>=◌}
use xpn.Prelude.Int.{ℤ}
use xpn.Policy.Grouping.{Bytes}
use xpn.Protocol.{
  Op, Fields, Token, request, reply, byte, PathMsg, ReaddirReq, open_file, creat_file, read_file,
  write_file, close_file, rm_file, rm_file_async, rename_file, getattr_file, setattr_file,
  mkdir_dir, opendir_dir, readdir_dir, closedir_dir, rmdir_dir, rmdir_dir_async, read_mdata,
  write_mdata, write_mdata_file_size, disconnect, finalize,
}
use xpn.Server.{Host, World, c_string}
use xpn.Server.Files.{op_open, op_creat, op_close, op_rm, op_rm_async, op_rename, op_getattr}
use xpn.Server.Dirs.{op_mkdir, op_opendir, op_readdir, op_closedir, op_rmdir}
use xpn.Server.Transfer.{op_read, op_write}
use xpn.Server.Mdata.{Layout, op_read_mdata, op_write_mdata, op_write_mdata_file_size}

-- What the variables on the server's stack hold before they are set.
pub record Stack : Type 0 where
  pub req_status_ret : ℤ
  pub req_size : ℤ
  pub req_dir : ℕ
  pub ret_entry : ReaddirReq

module _ {S : Type 0} (h : Host S) (l : Layout) (old : Stack) where
  -- The path of the message itself, not the one that is put together.
  unfoldable pub op_rmdir_async : World S → PathMsg → Option (World S)
  op_rmdir_async w m =
      let (s, ret) = h.rmdir (h.clear_errno w.host) (c_string m.path) in
      some (record w { host = s })

  -- The operation that belongs to a code, on the structure that was read.
  unfoldable pub operation : World S → (op : Op) → Fields op → Option (World S)
  operation w open_file m = op_open h w m
  operation w creat_file m = op_creat h w m
  operation w read_file m = op_read h old.req_status_ret w m
  operation w write_file m = op_write h old.req_size w m
  operation w close_file m = op_close h w m
  operation w rm_file m = op_rm h w m
  operation w rm_file_async m = op_rm_async h w m
  operation w rename_file m = op_rename h w m
  operation w getattr_file m = op_getattr h w m
  operation w setattr_file m = some w
  operation w mkdir_dir m = op_mkdir h w m
  operation w opendir_dir m = op_opendir h old.req_dir w m
  operation w readdir_dir m = op_readdir h old.ret_entry w m
  operation w closedir_dir m = op_closedir h w m
  operation w rmdir_dir m = op_rmdir h w m
  operation w rmdir_dir_async m = op_rmdir_async w m
  operation w read_mdata m = op_read_mdata h l w m
  operation w write_mdata m = op_write_mdata h l w m
  operation w write_mdata_file_size m = op_write_mdata_file_size h l w m
  operation w disconnect m = some w
  operation w finalize m = some w

  -- `*the_end` is set by XPN_SERVER_FINALIZE.
  abbrev pub the_end : Op → Bool
  the_end finalize = true
  the_end op = false

  -- The next request of the stream. A read that finds none leaves everything as it is.
  unfoldable pub do_operation : World S → Option (World S)
  do_operation w = elim w.incoming [
    | [] ↦ some w
    | request op m ∷ ts ↦ operation (record w { incoming = ts }) op m
    | reply r ∷ ts ↦ some w
    | byte b ∷ ts ↦ some w
  ]
