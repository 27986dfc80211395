-- ===== src/Server/Transfer.antt =====
-- `xpn_server_op_read` and `xpn_server_op_write` of src/xpn_server/xpn_server_ops.c. They keep their
-- counters in a `long` and an `int`; a request of 2^31 bytes or more is a `none` in the second.
pub mod Ends
pub mod Frames
pub mod Writes
use xpn.Prelude.{
  ℕ, zero, suc, ◌+◌, ◌-◌, ◌^◌, Bool, not, ◌&&◌, ◌||◌, Option, none, some, List, ltb, leb, ◌==◌,
  if◌then◌else◌, length, ◌>>=◌,
}
use xpn.Prelude.Int.{ℤ, pos, negsuc, eq_ℤ, lt_ℤ}
use xpn.Policy.Grouping.{Bytes}
use xpn.Protocol.{Status, RwMsg, RwReq, rw_req, Token, take_bytes, max_buffer_size}
use xpn.Server.{Host, World, send, send_data, read_path}

-- The size of a transfer, up to MAX_BUFFER_SIZE.
abbrev pub buffer_size : ℕ → ℕ
buffer_size size = if ltb max_buffer_size size then max_buffer_size else size

-- How much of `diff` bytes is moved in a round.
abbrev pub round_size : (size diff : ℕ) → ℕ
round_size size diff = if ltb size diff then size else diff

module _ {S : Type 0} (h : Host S) where
  abbrev pub send_req : World S → S → (size ret : ℤ) → World S
  send_req w s size ret =
      send w s
        (rw_req (record { size = size; status = record { ret = ret; server_errno = h.errno s } }))

  -- What follows on a read: an error, or the bytes with their number and the next round.
  abbrev pub after_read :
      World S
      → S
      → (status_ret : ℤ) → Option Bytes
      → (Bytes → World S → Option (World S))
      → Option (World S)
  after_read w s status_ret none next = some (send_req w s (negsuc 0) (negsuc 0))
  after_read w s status_ret (some bs) next =
      let w1 = send_req w s (pos (length bs)) (pos 0) in
      let w2 = if length bs == 0 then w1 else send_data w1 bs in
      let more = next bs w2 in
      if eq_ℤ status_ret (negsuc 0) then some (send_req w s (negsuc 0) (negsuc 0)) else more

  -- The loop with at most `fuel` rounds, from a round with `cont` bytes sent. `status_ret` is what
  -- `req.status.ret` holds.
  unfoldable pub read_loop :
      (m : RwMsg) (fd : ℤ) (fuel cont : ℕ) (status_ret : ℤ) → World S → Option (World S)
  read_loop m fd zero cont status_ret w = none
  read_loop m fd (suc fuel) cont status_ret w =
      let to_read = round_size (buffer_size m.size) (m.size - cont) in
      let (s1, ret_lseek) = h.lseek w.host fd (m.offset + cont) in
      let (s2, got) = h.read s1 fd to_read in
      let next : Bytes → World S → Option (World S) = λ bs w1.
        let cont' = cont + length bs in
        let more = read_loop m fd fuel cont' (pos 0) w1 in
        if ltb 0 (m.size - cont') && not (length bs == 0) then more else some w1 in
      let read = after_read w s2 status_ret got next in
      if eq_ℤ ret_lseek (negsuc 0) then some (send_req w s1 (negsuc 0) (negsuc 0)) else read

  -- The loop, if there is a file and a buffer. `status_ret` is what the uninitialised
  -- `req.status.ret` holds. Each round but the last reads a byte, so `size + 1` rounds are enough.
  unfoldable pub read_guarded : (status_ret : ℤ) → World S → RwMsg → (fd : ℤ) → Option (World S)
  read_guarded status_ret w m fd =
      let loop = read_loop m fd (m.size + 1) 0 status_ret w in
      if lt_ℤ fd (pos 0)
      then some (send_req w w.host (negsuc 0) fd)
      else if not (h.malloc w.host (buffer_size m.size))
      then some (send_req w w.host (negsuc 0) (negsuc 0))
      else loop

  abbrev pub end_read : RwMsg → (fd : ℤ) → World S → World S
  end_read m fd w = if m.xpn_session == 0 then record w { host = (h.close w.host fd).0 } else w

  -- The file that a request is about: with a session the descriptor of the message, and else the
  -- file is opened.
  abbrev pub opened : S → (full_path : Bytes) (flags : ℕ) → RwMsg → S × ℤ
  opened s full_path flags m =
      if m.xpn_session == 1 then (s, m.fd) else h.open_path s full_path flags

  unfoldable pub op_read : (status_ret : ℤ) → World S → RwMsg → Option (World S)
  op_read status_ret w m = read_path w m.path_len m.path >>= λ (full_path, w1).
      let (s, fd) = opened (h.clear_errno w1.host) full_path 0 m in
      read_guarded status_ret (record w1 { host = s }) m fd >>= λ w2. some (end_read m fd w2)

  -- The state and the answer at the end of `xpn_server_op_write`, of which the `errno` is still to
  -- be set: the size and the status.
  abbrev pub Written : Type 0
  Written = World S × ℤ × ℤ

  abbrev pub after_write : World S → (size : ℤ) → Option ℕ → (ℕ → Option Written) → Option Written
  after_write w size none next = some (w, negsuc 0, negsuc 0)
  after_write w size (some k) next = next k

  abbrev pub after_receive :
      World S
      → (size : ℤ) → Option (Bytes × List Token)
      → (Bytes → World S → Option Written)
      → Option Written
  after_receive w size none next = some (w, size, negsuc 0)
  after_receive w size (some (bs, ts)) next = next bs (record w { incoming = ts })

  -- The loop with at most `fuel` rounds; `size` is what `req.size` holds.
  unfoldable pub write_loop :
      (m : RwMsg) (fd : ℤ) (fuel cont : ℕ) (size : ℤ) → World S → Option Written
  write_loop m fd zero cont size w = none
  write_loop m fd (suc fuel) cont size w =
      let to_write = round_size (buffer_size m.size) (m.size - cont) in
      after_receive w size (take_bytes to_write w.incoming) λ bs w1.
        let (s1, ret_lseek) = h.lseek w1.host fd (m.offset + cont) in
        let (s2, put) = h.write s1 fd bs in
        let w2 = record w1 { host = s2 } in
        let next : ℕ → Option Written = λ k.
          let cont' = cont + k in
          let more = write_loop m fd fuel cont' (pos k) w2 in
          if ltb 0 (m.size - cont') && not (k == 0) then more else some (w2, pos cont', pos 0) in
        let wrote = after_write w2 size put next in
        if lt_ℤ ret_lseek (pos 0) then some (record w1 { host = s1 }, size, negsuc 0) else wrote

  -- The loop, if there is a file and a buffer. `size` is what the uninitialised `req.size` holds.
  unfoldable pub write_guarded : (size : ℤ) → World S → RwMsg → (fd : ℤ) → Option Written
  write_guarded size w m fd =
      let loop = write_loop m fd (m.size + 1) 0 size w in
      if lt_ℤ fd (pos 0)
      then some (w, negsuc 0, negsuc 0)
      else if not (h.malloc w.host (buffer_size m.size))
      then some (w, negsuc 0, negsuc 0)
      else loop

  abbrev pub end_write : RwMsg → (fd : ℤ) → Written → World S
  end_write m fd (w, req_size, ret) =
      let w1 = send_req w w.host req_size ret in
      record w1 { host = if m.xpn_session == 1 then h.fsync w1.host fd else (h.close w1.host fd).0 }

  unfoldable pub op_write : (size : ℤ) → World S → RwMsg → Option (World S)
  op_write size w m =
      let served = read_path w m.path_len m.path >>= λ (full_path, w1).
      let (s, fd) = opened (h.clear_errno w1.host) full_path 1 m in
      write_guarded size (record w1 { host = s }) m fd >>= λ r. some (end_write m fd r) in
      if m.file_type == 1 then some w else if leb (2 ^ 31) m.size then none else served
