-- ===== src/Nfi/Mdata.antt =====
-- Metadata, of src/xpn_client/nfi/nfi_xpn_server/nfi_xpn_server.c.
use xpn.Prelude.{Bool, Option, none, some, if◌then◌else◌, length}
use xpn.Prelude.Int.{ℤ}
use xpn.Metadata.{Metadata}
use xpn.Policy.Grouping.{Bytes}
use xpn.Protocol.{
  read_mdata, write_mdata, write_mdata_file_size, Reply, Status, MdataReq, mdata_req,
}
use xpn.Nfi.{
  Link, Serv, Answer, einval, bad, minus_one, errno_of, path_field, leave, with_server, ask,
}
use xpn.Nfi.Files.{Result, no_server, with_dir, as_status, end_with_status}

abbrev pub as_mdata : Reply → Option MdataReq
as_mdata (mdata_req a) = some a
as_mdata r = none

module _ {L : Type 0} (k : Link L) where
  -- The metadata are copied to the caller whatever the status is; `none` where they are left alone.
  abbrev pub end_read_mdata :
      Serv L → L × Option (ℤ × MdataReq) → Option (Serv L × Answer × Option Metadata)
  end_read_mdata s (l, none) = some (record s { link = l }, minus_one, none)
  end_read_mdata s (l, some (ret, req)) = some (
    leave k (record s { link = l }),
    record { ret = req.status.ret; errno = errno_of req.status },
    some req.mdata,
  )

  -- `nfi_xpn_server_read_mdata`
  unfoldable pub nfi_read_mdata :
      (old : MdataReq) → Serv L → (url : Bytes) → Option (Serv L × Answer × Option Metadata)
  nfi_read_mdata old s url =
      with_server k (λ t. (t, bad einval, none)) s
        λ s1.
          with_dir k (λ t. (t, bad einval, none)) s1 url
            λ ret dir. end_read_mdata s1 (
              ask k as_mdata old ret s1.link read_mdata
                (record { path_len = length dir; path = path_field dir }) dir)

  -- `nfi_xpn_server_write_mdata`
  unfoldable pub nfi_write_mdata :
      (old : Status)
      → Serv L
      → (url : Bytes) → Metadata
      → (only_file_size : Bool) → Option (Result k)
  nfi_write_mdata old s url mdata only_file_size = with_server k (no_server k) s λ s1.
      with_dir k (no_server k) s1 url λ ret dir. end_with_status k s1 (
        if only_file_size
        then ask k as_status old ret s1.link write_mdata_file_size
            (record { size = mdata.file_size; path_len = length dir; path = path_field dir }) dir
        else ask k as_status old ret s1.link write_mdata
            (record { mdata = mdata; path_len = length dir; path = path_field dir }) dir)
