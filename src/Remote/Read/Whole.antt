-- ===== src/Remote/Read/Whole.antt =====
-- Reading from a server, from the request to the buffer.
use xpn.Prelude.{
  ℕ, suc, ◌+◌, ◌-◌, ◌<◌, ◌≤◌, ◌^◌, ◌≡◌, refl, sym, ap, ◌∙◌, Bool, true, false, none, some, List, [],
  ◌∷◌, ◌++◌, leb, ◌==◌, if◌then◌else◌, length, drop, arith,
}
use xpn.Prelude.Int.{ℤ, pos, negsuc, eq_ℤ, lt_ℤ}
use xpn.Policy.Grouping.{Bytes}
use xpn.Protocol.{Token, request, raw, read_file, xpn_path_max, path_max, RwMsg}
use xpn.Server.{Host, World}
use xpn.Server.Transfer.{op_read, read_guarded, opened, buffer_size}
use xpn.Server.Transfer.Frames.{Readable, Frames, last, next, read_loop-Frames}
use xpn.Server.Mdata.{Layout}
use xpn.Server.Dispatch.{Stack, operation, do_operation}
use xpn.Nfi.{Fhandle, path_field, nfi_write_operation}
use xpn.Nfi.Transfer.{nfi_read, receive_loop}
use xpn.Remote.{idle, served}
use xpn.Remote.Paths.{IsString, read_path_alone}
use xpn.Remote.Calls.{link, known, keep_connected-known, leave-known, write_rest-link}
use xpn.Remote.Read.{bytes_at, receive_loop-Frames}

host_if :
    {S : Type 0} (b : Bool) (s t : S) (ts : List Token)
    → (if b
        then record { host = s; incoming = []; outgoing = ts }
        else record { host = t; incoming = []; outgoing = ts })
      ≡ (let w : World S = record { host = if b then s else t; incoming = []; outgoing = ts } in w)
host_if true s t ts = refl
host_if false s t ts = refl

module _ {S : Type 0} (h : Host S) (l : Layout) (old : Stack) (parse_url : Bytes → ℤ × Bytes)
    (is_mq_server : Bytes → Bool) where
  -- The message of `nfi_read`.
  abbrev msg : (garbage : ℕ) (fh : Fhandle) (offset size file : ℕ) → RwMsg
  msg garbage fh offset size file = record {
    fd = fh.fd;
    file_type = garbage;
    offset = offset;
    size = size;
    xpn_session = file;
    path_len = length fh.path;
    path = path_field fh.path;
  }

  served-Frames :
      (content : Bytes) (offset size cont : ℕ) (s : S) (ts : List Token)
      → Frames content offset size cont ts
      → served h l old (record { host = s; incoming = []; outgoing = ts })
        ≡ record { host = s; incoming = []; outgoing = ts }
  served-Frames content offset size _ s _ (last cont e bs p stop) = refl
  served-Frames content offset size _ s _ (next cont e bs ts p go fr) = refl

  -- The client's loop starts with what the server answers.
  receive_loop-served :
      (size fuel : ℕ) (cont : ℤ) (w w' : World S) (buffer : Bytes)
      → served h l old w ≡ served h l old w'
      → receive_loop (link h l old parse_url is_mq_server) size (suc fuel) cont w buffer
        ≡ receive_loop (link h l old parse_url is_mq_server) size (suc fuel) cont w' buffer
  unfolding receive_loop
  receive_loop-served size fuel cont w w' buffer e = rw e refl

  -- The server answers a request to read with the frames of the file.
  op_read-Frames :
      (garbage : ℕ) (fh : Fhandle) (content : Bytes) (Inv : S → Type 0) (s s1 : S) (fd : ℤ)
      (offset size file : ℕ)
      → IsString fh.path
      → length fh.path < path_max
      → opened h (h.clear_errno s) fh.path 0 (msg garbage fh offset size file) ≡ (s1, fd)
      → lt_ℤ fd (pos 0) ≡ false
      → h.malloc s1 (buffer_size size) ≡ true
      → eq_ℤ old.req_status_ret (negsuc 0) ≡ false
      → Readable h fd content Inv
      → Inv s1
      → (s2 : S) × (ts : List Token) × (operation h l old
            (record { host = s; incoming = raw (drop xpn_path_max fh.path); outgoing = [] })
            read_file
            (msg garbage fh offset size file)
          ≡ some (record { host = s2; incoming = []; outgoing = ts }))
        × Frames content offset size 0 ts
  unfolding operation op_read read_guarded
  op_read-Frames garbage fh content Inv s s1 fd offset size file string short eo ef em er law inv =
      let (s2, ts, run, inv2, frames) =
        read_loop-Frames h content Inv (msg garbage fh offset size file) fd (size + 1) 0
          old.req_status_ret (record { host = s1; incoming = []; outgoing = [] }) law inv er
          (omega arith) in
      (
        (if file == 0 then (h.close s2 fd).0 else s2),
        ts,
        rw (read_path_alone s fh.path [] string short, eo, ef, em, run)
            (ap some (host_if (file == 0) (h.close s2 fd).0 s2 ts)),
        frames,
      )

  -- The loop of the client from the request on.
  whole_loop :
      (content buffer : Bytes) (offset size : ℕ) (s s2 : S) (m : RwMsg) (dir : Bytes)
      (ts : List Token)
      → operation h l old
          (record { host = s; incoming = raw (drop xpn_path_max dir); outgoing = [] })
          read_file
          m
        ≡ some (record { host = s2; incoming = []; outgoing = ts })
      → Frames content offset size 0 ts
      → size ≤ length buffer
      → receive_loop
          (link h l old parse_url is_mq_server)
          size
          (size + 1)
          (pos 0)
          (record {
            host = s;
            incoming = request read_file m ∷ raw (drop xpn_path_max dir);
            outgoing = [];
          })
          buffer
        ≡ some (
          record { host = s2; incoming = []; outgoing = [] },
          record { ret = pos (length (bytes_at content offset size)); errno = none },
          bytes_at content offset size ++ drop (length (bytes_at content offset size)) buffer,
        )
  unfolding do_operation
  whole_loop content buffer offset size s s2 m dir ts run frames room =
      rw (let e : size + 1 ≡ suc size = omega arith in e) (
        receive_loop-served size size (pos 0) _ (record { host = s2; incoming = []; outgoing = ts })
          buffer (rw run (sym (served-Frames content offset size 0 s2 ts frames)))
        ∙ receive_loop-Frames h l old parse_url is_mq_server content offset size (suc size) 0 s2 ts
            [] buffer frames refl (omega arith) (omega arith)
        ∙ rw (
          (let e : offset + 0 ≡ offset = omega arith in e),
          (let e : size - 0 ≡ size = omega arith in e),
          (let e : 0 + length (bytes_at content offset size)
                  ≡ length (bytes_at content offset size) =
                omega arith in
              e),
        ))

  -- A read through the connection fills the buffer with the bytes of the file from `offset` on, up
  -- to `size` of them or to the end of the file, leaves the rest of the buffer alone, and gives their
  -- number. It does so however the requests are cut: for paths longer than a message, for sizes of
  -- many buffers, and for a file system that reads less than it is asked for, with a session or
  -- without. The uninitialised status of the server must not be -1, and less than 2^31 bytes are
  -- read into a buffer that holds them.
  pub nfi_read-op_read :
      (garbage : ℕ) (fh : Fhandle) (content buffer : Bytes) (Inv : S → Type 0) (s s1 : S) (fd : ℤ)
      (offset size keep file sdir : ℕ)
      → IsString fh.path
      → length fh.path < path_max
      → (if file == 1 then (h.clear_errno s, fh.fd) else h.open_path (h.clear_errno s) fh.path 0)
        ≡ (s1, fd)
      → lt_ℤ fd (pos 0) ≡ false
      → h.malloc s1 (buffer_size size) ≡ true
      → eq_ℤ old.req_status_ret (negsuc 0) ≡ false
      → Readable h fd content Inv
      → Inv s1
      → size < 2 ^ 31
      → size ≤ length buffer
      → (s2 : S) × (nfi_read
            (link h l old parse_url is_mq_server)
            garbage
            (known h l old parse_url is_mq_server (idle h l old s) keep file sdir)
            fh
            buffer
            offset
            size
          ≡ some (
            known h l old parse_url is_mq_server (idle h l old s2) keep file sdir,
            record { ret = pos (length (bytes_at content offset size)); errno = none },
            bytes_at content offset size ++ drop (length (bytes_at content offset size)) buffer,
          ))
  unfolding nfi_read nfi_write_operation
  nfi_read-op_read garbage fh content buffer Inv s s1 fd offset size keep file sdir string short eo
        ef em er law inv small room =
      let (s2, ts, run, frames) =
        op_read-Frames garbage fh content Inv s s1 fd offset size file string short eo ef em er law
          inv in
      (
        s2,
        rw (
          fits,
          keep_connected-known h l old parse_url is_mq_server (idle h l old s) keep file sdir,
          (write_rest-link h l old parse_url is_mq_server s fh.path
              (request read_file (msg garbage fh offset size file))).1,
          whole_loop content buffer offset size s s2 (msg garbage fh offset size file) fh.path ts
              run frames room,
          leave-known h l old parse_url is_mq_server (idle h l old s2) keep file sdir,
        ),
      )
    where
      fits : leb (2 ^ 31) size ≡ false
      fits = ground arith
