-- ===== src/Client/Rw.antt =====
-- Reading, writing and seeking of src/xpn_client/xpn/xpn_simple/xpncore/xpn_rw.c: the checks before
-- a request, the transfers that work block by block, and `xpn_simple_lseek`. A `none` stands for an
-- access outside of the table of files or of the servers.
pub mod Sread
pub mod Lost
pub mod Ends
pub mod Seek
use xpn.Prelude.{
  ℕ, zero, suc, ◌+◌, ◌-◌, ◌*◌, ◌^◌, ◌%◌, Bool, true, false, not, ◌&&◌, ◌||◌, Option, none, some,
  List, [], ◌∷◌, ◌++◌, ltb, leb, ◌==◌, if◌then◌else◌, get_elem?, length, take, drop, ◌>>=◌,
}
use xpn.Prelude.Int.{ℤ, pos, negsuc, ◌+ℤ◌, lt_ℤ, le_ℤ, eq_ℤ, index}
use xpn.Metadata.{Metadata, header_size}
use xpn.Policy.Block.{Placement}
use xpn.Policy.Transfer.{File, chunk, has_failed, read_get_block, write_get_block}
use xpn.Policy.Grouping.{Bytes}

-- XPN_MAX_FILE
abbrev pub max_file : ℕ
max_file = 1024

-- O_RDONLY, O_WRONLY and O_RDWR, as flags of their own.
abbrev pub rdonly : ℕ
rdonly = 0

abbrev pub wronly : ℕ
wronly = 1

-- XPN_DIR
abbrev pub dir : ℕ
dir = 1

-- The values of `errno` that are set here.
pub data Errno : Type 0 where
  ebadf efault eisdir einval enoent : Errno

-- What is used of `struct xpn_filedesc`; `file` has its block size, metadata and partition.
pub record Filedesc : Type 0 where
  pub offset : ℤ
  pub flags : ℕ
  pub type : ℕ
  pub file : File

-- `xpn_file_table`
abbrev pub Table : Type 0
Table = List (Option Filedesc)

-- What a request comes to before it is carried out: a result with `errno`, `xpn_pread` or
-- `xpn_pwrite`, or else `xpn_sread` or `xpn_swrite`.
pub data Route : Type 0 where
  refused : ℤ → Option Errno → Route
  parallel : Filedesc → Route
  sequential : Filedesc → Route

abbrev pub fail : Errno → Route
fail e = refused (negsuc 0) (some e)

abbrev pub is_bad_fd : ℤ → Bool
is_bad_fd fd = lt_ℤ fd (pos 0) || lt_ℤ (pos max_file) fd

-- `xpn_simple_read` up to the transfer.
unfoldable pub simple_read : Table → (fd : ℤ) (has_buffer : Bool) (size : ℕ) → Option Route
simple_read table fd has_buffer size =
    let checked = index fd >>= get_elem? table >>= λ entry. elim entry [
      | none ↦ some (fail ebadf)
      | some d ↦
          if not has_buffer
          then some (fail efault)
          else if size == 0
          then some (refused (pos 0) none)
          else if d.flags == wronly
          then some (fail ebadf)
          else if d.type == dir
          then some (fail eisdir)
          else if ltb d.file.block_size size
          then some (parallel d)
          else some (sequential d)
    ] in
    if is_bad_fd fd then some (fail ebadf) else checked

-- `xpn_simple_write` up to the transfer. Its debug output for an entry that is NULL, which is
-- compiled in on demand only, is left out.
unfoldable pub simple_write : Table → (fd : ℤ) (has_buffer : Bool) (size : ℕ) → Option Route
simple_write table fd has_buffer size =
    let checked = index fd >>= get_elem? table >>= λ entry. elim entry [
      | none ↦ some (fail efault)
      | some d ↦
          if not has_buffer
          then some (fail efault)
          else if size == 0
          then some (refused (pos 0) none)
          else if d.flags == rdonly
          then some (fail ebadf)
          else if d.type == dir
          then some (fail eisdir)
          else if leb d.file.block_size size || ltb 0 d.file.replication_level
          then some (parallel d)
          else some (sequential d)
    ] in
    if is_bad_fd fd then some (fail ebadf) else checked

-- `l_offset + XPN_HEADER_SIZE`
abbrev pub behind_header : Placement → ℤ
behind_header p = p.local_offset +ℤ pos header_size

-- The servers, whose state is a value of `S`. `handle` says whether the handle of a server is there
-- or XpnGetFh finds it. `nfi_read` gives the bytes that it stores, or `none` for a negative result;
-- `nfi_write` gives its result; `update_metadata` stands for XpnUpdateMetadata.
pub record Nfi (S : Type 0) : Type 0 where
  pub handle : ℤ → Bool
  pub nfi_read : S → (serv offset : ℤ) (size : ℕ) → Option Bytes
  pub nfi_write : S → (serv offset : ℤ) → Bytes → S × ℤ
  pub update_metadata : S → Metadata → S

-- What the loop over the replicas in `xpn_swrite` does: it ends with the last `res`, or it jumps
-- to the end with a missing handle or a failed write.
pub data Round : Type 0 where
  wrote : ℤ → Round
  no_handle failed : Round

module _ {S : Type 0} (nfi : Nfi S) (f : File) (size offset : ℕ) where
  -- The loop of `xpn_sread` with at most `fuel` rounds, from the round that begins when `bytes` are
  -- read: `count`, the bytes, and whether the loop was left by a jump to the end.
  unfoldable pub sread_loop :
      (local_serv : ℤ) (rand : ℕ → ℕ)
      → S
      → (fuel : ℕ) → Bytes
      → Placement
      → Option (ℤ × Bytes × Bool)
  sread_loop local_serv rand st zero bytes out = none
  sread_loop local_serv rand st (suc fuel) bytes out =
      let count = length bytes in
      read_get_block f (pos (offset + count)) local_serv (rand count) out >>= λ p.
      let l_size = chunk f.block_size (offset + count) (size - count) in
      let got : Option (ℤ × Bytes × Bool) = elim (nfi.nfi_read st p.serv (behind_header p) l_size) [
        | none ↦ some (if count == 0 then negsuc 0 else pos count, bytes, true)
        | some bs ↦
            let more = sread_loop local_serv rand st fuel (bytes ++ bs) p in
            if ltb (length (bytes ++ bs)) size && ltb 0 (length bs)
            then more
            else some (pos (length (bytes ++ bs)), bytes ++ bs, false)
      ] in
      if nfi.handle p.serv then got else some (negsuc 0, bytes, true)

  -- The loop over the replicas in `xpn_swrite`, with `n` replicas left.
  unfoldable pub swrite_replicas :
      (buffer : Bytes) (count n i : ℕ) (res : ℤ) → S → Placement → Option (Round × S × Placement)
  swrite_replicas buffer count zero i res st out = some (wrote res, st, out)
  swrite_replicas buffer count (suc n) i res st out =
      write_get_block f (pos (offset + count)) i out >>= λ (p, res_aux).
      let l_size = chunk f.block_size (offset + count) (size - count) in
      let (st', r) = nfi.nfi_write st p.serv (behind_header p) (take l_size (drop count buffer)) in
      let skipped = swrite_replicas buffer count n (i + 1) res st p in
      let next = swrite_replicas buffer count n (i + 1) r st' p in
      if has_failed res_aux
      then skipped
      else if not (nfi.handle p.serv)
      then some (no_handle, st, p)
      else if lt_ℤ r (pos 0)
      then some (failed, st', p)
      else next

  -- The outer loop of `xpn_swrite` from a `count` that is not negative, with at most `fuel` rounds.
  unfoldable pub swrite_loop :
      (buffer : Bytes) → (fuel count : ℕ) (res : ℤ) → S → Placement → Option (ℤ × S)
  swrite_loop buffer zero count res st out = none
  swrite_loop buffer (suc fuel) count res st out =
      swrite_replicas buffer count (f.replication_level + 1) 0 res st out >>= λ (round, st', p).
      elim round [
        | no_handle ↦ some (negsuc 0, st')
        | failed ↦ some (if count == 0 then negsuc 0 else pos count, st')
        | wrote (negsuc r) ↦ some (pos count +ℤ negsuc r, st')
        | wrote (pos r) ↦
            let more = swrite_loop buffer fuel (count + r) (pos r) st' p in
            if ltb (count + r) size && ltb 0 r then more else some (pos (count + r), st')
      ]

-- `xpn_sread` at an offset of the file; `n` is what XpnGetServers returns. The result comes with the
-- bytes that are stored in the buffer and the new entry of the table. Each round but the last reads
-- a byte at least, so `size + 1` rounds are enough.
unfoldable pub sread :
    {S : Type 0} (nfi : Nfi S) (n local_serv : ℤ) (rand : ℕ → ℕ) (st : S) (d : Filedesc)
    (size offset : ℕ) (out : Placement)
    → Option (ℤ × Bytes × Filedesc)
sread nfi n local_serv rand st d size offset out =
    let loop =
      sread_loop nfi d.file size offset local_serv rand st (size + 1) [] out
      >>= λ (count, bytes, jumped). some (
        count,
        bytes,
        if not jumped && lt_ℤ (pos 0) count then record d { offset = d.offset +ℤ count } else d,
      ) in
    if le_ℤ n (pos 0) then some (negsuc 0, [], d) else loop

-- The end of `xpn_swrite`: the offset, the size in the metadata, and the copies of the metadata.
unfoldable pub swrite_end : {S : Type 0} (nfi : Nfi S) (count : ℤ) → S → Filedesc → S × Filedesc
swrite_end nfi count st d =
    let moved = record d { offset = d.offset +ℤ count } in
    let mdata = record d.file.mdata { file_size = moved.offset } in
    if not (lt_ℤ (pos 0) count)
    then (st, d)
    else if lt_ℤ d.file.mdata.file_size moved.offset
    then (nfi.update_metadata st mdata, record moved { file = record d.file { mdata = mdata } })
    else (st, moved)

-- `xpn_swrite` at an offset of the file.
unfoldable pub swrite :
    {S : Type 0} (nfi : Nfi S) (n : ℤ) (st : S) (d : Filedesc) (buffer : Bytes) (size offset : ℕ)
    (out : Placement)
    → Option (ℤ × S × Filedesc)
swrite nfi n st d buffer size offset out =
    let loop =
      swrite_loop nfi d.file size offset buffer (size + 1) 0 (negsuc 0) st out >>= λ (count, st').
      (let (st1, d1) = swrite_end nfi count st' d in some (count, st1, d1)) in
    if le_ℤ n (pos 0) then some (negsuc 0, st, d) else loop

-- `SEEK_SET`, `SEEK_CUR`, `SEEK_END`, or any other flag.
pub data Whence : Type 0 where
  seek_set seek_cur seek_end other : Whence

-- The value of an `int` after an `off_t` is assigned to it: the low 32 bits, with their sign.
unfoldable pub to_int : ℤ → ℤ
to_int (pos n) =
    let low = n % 2 ^ 32 in if ltb low (2 ^ 31) then pos low else negsuc (2 ^ 32 - 1 - low)
to_int (negsuc n) =
    let low = n % 2 ^ 32 in if ltb low (2 ^ 31) then negsuc low else pos (2 ^ 32 - 1 - low)

-- `xpn_simple_lseek`, which keeps its result in an `int`; `st_size` is the size that
-- xpn_simple_fstat finds.
unfoldable pub lseek :
    (st_size : Option ℤ) → Filedesc → (offset : ℤ) → Whence → ℤ × Option Errno × Filedesc
lseek st_size d offset flag =
    let seek : ℤ → ℤ × Option Errno × Filedesc = λ target.
      if lt_ℤ target (pos 0)
      then (negsuc 0, some einval, d)
      else (to_int target, none, record d { offset = target }) in
    elim flag [
      | seek_set ↦ seek offset
      | seek_cur ↦ seek (d.offset +ℤ offset)
      | seek_end ↦ elim st_size [
        | none ↦ (negsuc 0, some ebadf, d)
        | some size ↦ seek (size +ℤ offset)
      ]
      | other ↦ (negsuc 0, some einval, d)
    ]
