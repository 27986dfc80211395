-- ===== src/Server/Dispatch/Answers.antt =====
-- The answers that the operations of src/xpn_server/xpn_server_ops.c give.
use xpn.Prelude.{◌<◌, ◌≡◌, Bool, true, false, Option, none, some, [], ◌∷◌, ◌++◌}
use xpn.Protocol.{
  Op, Fields, Reply, reply, path_max, open_file, creat_file, read_file, write_file, close_file,
  rm_file, rm_file_async, rename_file, getattr_file, setattr_file, mkdir_dir, opendir_dir,
  readdir_dir, closedir_dir, rmdir_dir, rmdir_dir_async, read_mdata, write_mdata,
  write_mdata_file_size, disconnect, finalize,
}
use xpn.Nfi.Files.{as_status, as_attr}
use xpn.Nfi.Dirs.{as_opendir, as_readdir}
use xpn.Nfi.Mdata.{as_mdata}
use xpn.Nfi.Transfer.{as_rw}
use xpn.Server.{World}

-- The server after an operation: with nothing more in the stream to the client, or with one structure
-- more, of the sort that is waited for.
abbrev pub Answered : {S : Type 0} → Option (Reply → Bool) → World S → World S → Type 0
Answered none w w' = w'.outgoing ≡ w.outgoing
Answered (some is_sort) w w' =
    (r : Reply) × (w'.outgoing ≡ w.outgoing ++ reply r ∷ []) × (is_sort r ≡ true)

-- What every path is shorter than, in the requests with a path.
abbrev pub PathsFit : (op : Op) → Fields op → Type 0
PathsFit open_file m = m.path_len < path_max
PathsFit creat_file m = m.path_len < path_max
PathsFit read_file m = m.path_len < path_max
PathsFit write_file m = m.path_len < path_max
PathsFit close_file m = m.path_len < path_max
PathsFit rm_file m = m.path_len < path_max
PathsFit rm_file_async m = m.path_len < path_max
PathsFit rename_file m = (m.old_url_len < path_max) × (m.new_url_len < path_max)
PathsFit getattr_file m = m.path_len < path_max
PathsFit setattr_file m = Unit
PathsFit mkdir_dir m = m.path_len < path_max
PathsFit opendir_dir m = m.path_len < path_max
PathsFit readdir_dir m = m.path_len < path_max
PathsFit closedir_dir m = Unit
PathsFit rmdir_dir m = m.path_len < path_max
PathsFit rmdir_dir_async m = Unit
PathsFit read_mdata m = m.path_len < path_max
PathsFit write_mdata m = m.path_len < path_max
PathsFit write_mdata_file_size m = m.path_len < path_max
PathsFit disconnect m = Unit
PathsFit finalize m = Unit

abbrev pub is_some : {A : Type 0} → Option A → Bool
is_some none = false
is_some (some a) = true

-- The sort of the structure that a client reads behind each request, by the tests with which
-- nfi_xpn_server.c reads it; `none` where the client reads nothing.
abbrev pub awaited : Op → Option (Reply → Bool)
awaited rm_file_async = none
awaited setattr_file = none
awaited rmdir_dir_async = none
awaited disconnect = none
awaited finalize = none
awaited read_file = some (λ r. is_some (as_rw r))
awaited write_file = some (λ r. is_some (as_rw r))
awaited getattr_file = some (λ r. is_some (as_attr r))
awaited opendir_dir = some (λ r. is_some (as_opendir r))
awaited readdir_dir = some (λ r. is_some (as_readdir r))
awaited read_mdata = some (λ r. is_some (as_mdata r))
awaited op = some (λ r. is_some (as_status r))

abbrev Result : {S : Type 0} → (n : Option (Reply → Bool)) → World S → Option (World S) → Type 0
Result n w o = (w' : _) × (o ≡ some w') × Answered n w w'

-- Whether an operation is one of those that move data.
abbrev pub is_transfer : Op → Bool
is_transfer read_file = true
is_transfer write_file = true
is_transfer op = false
