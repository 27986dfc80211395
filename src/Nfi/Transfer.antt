-- ===== src/Nfi/Transfer.antt =====
-- `nfi_xpn_server_read` and `nfi_xpn_server_write` of
-- src/xpn_client/nfi/nfi_xpn_server/nfi_xpn_server.c. They count in an `int`: a request of 2^31
-- bytes or more is a `none`.
use xpn.Prelude.{
  ℕ, zero, suc, ◌+◌, ◌-◌, ◌^◌, not, ◌&&◌, Option, none, some, ltb, leb, ◌==◌, if◌then◌else◌, length,
  take, drop, ◌>>=◌,
}
use xpn.Prelude.Int.{ℤ, pos, negsuc, ◌+ℤ◌, lt_ℤ, eq_ℤ, index}
use xpn.Policy.Grouping.{Bytes, memcpy}
use xpn.Protocol.{read_file, write_file, Reply, RwReq, rw_req}
use xpn.Server.Transfer.{buffer_size, round_size}
use xpn.Nfi.{
  Link, Serv, Fhandle, Answer, einval, bad, minus_one, path_field, leave, with_server,
  nfi_write_operation, sort_reply,
}
use xpn.Nfi.Files.{write_rest}

abbrev pub as_rw : Reply → Option RwReq
as_rw (rw_req a) = some a
as_rw r = none

module _ {L : Type 0} (k : Link L) where
  -- The connection, the result and the caller's buffer.
  abbrev pub Received : Type 0
  Received = L × Answer × Bytes

  -- The data of a round, which a failed read leaves as they were in the buffer.
  abbrev pub store : (cont : ℤ) → Bytes → L × Option Bytes → Option (L × Bytes)
  store cont buffer (l, none) = some (l, buffer)
  store cont buffer (l, some bs) =
      index cont >>= λ c. memcpy c 0 (length bs) buffer bs >>= λ b. some (l, b)

  abbrev pub read_part : (cont : ℤ) → Bytes → L → (size : ℤ) → Option (L × Bytes)
  read_part cont buffer l (negsuc i) = some (l, buffer)
  read_part cont buffer l (pos zero) = some (l, buffer)
  read_part cont buffer l (pos (suc i)) = store cont buffer (k.comm_read_data l (suc i))

  -- A round of the loop behind the read of its header.
  abbrev pub after_header :
      (cont : ℤ) (buffer : Bytes)
      → L × Option (ℕ × RwReq)
      → (ℤ → L → Bytes → Option Received)
      → Option Received
  after_header cont buffer (l, none) next = some (l, minus_one, buffer)
  after_header cont buffer (l, some (n, req)) next =
      let rest = read_part cont buffer l req.size >>= λ (l1, b1). next req.size l1 b1 in
      if lt_ℤ req.status.ret (pos 0) then some (l, bad req.status.server_errno, buffer) else rest

  -- The loop with at most `fuel` rounds, and the result behind it; a status that is negative has
  -- ended it already.
  unfoldable pub receive_loop : (size fuel : ℕ) (cont : ℤ) → L → (buffer : Bytes) → Option Received
  receive_loop size zero cont l buffer = none
  receive_loop size (suc fuel) cont l buffer =
      after_header cont buffer (sort_reply k as_rw (k.comm_read_reply l)) λ i l1 b1.
        let cont' = cont +ℤ i in
        let more = receive_loop size fuel cont' l1 b1 in
        if lt_ℤ cont' (pos size) && not (eq_ℤ i (pos 0))
        then more
        else some
            (l1, if lt_ℤ i (pos 0) then minus_one else record { ret = cont'; errno = none }, b1)

  -- What follows when the rest of the path is sent; `refused` is the result of a failure.
  abbrev pub after_rest :
      {A : Type 0} → (refused : L → A) → L × Option ℕ → (L → Option A) → Option A
  after_rest refused (l, none) next = some (refused l)
  after_rest refused (l, some n) next = next l

  abbrev pub received : Serv L → Option Received → Option (Serv L × Answer × Bytes)
  received s r = r >>= λ (l, a, b). some (leave k (record s { link = l }), a, b)

  -- `nfi_xpn_server_read`. `old` is the field of the message that is not set. A server sends a byte
  -- in each round but the last, so `size + 1` rounds are enough. A failure to send the rest of the
  -- path returns without disconnecting.
  unfoldable pub nfi_read :
      (old : ℕ)
      → Serv L
      → Fhandle
      → (buffer : Bytes) (offset size : ℕ) → Option (Serv L × Answer × Bytes)
  nfi_read old s fh buffer offset size =
      let body =
        with_server k (λ t. (t, bad einval, buffer)) s
          λ s1.
            let (l1, ret) = nfi_write_operation k s1.link read_file (record {
              fd = fh.fd;
              file_type = old;
              offset = offset;
              size = size;
              xpn_session = s1.xpn_session_file;
              path_len = length fh.path;
              path = path_field fh.path;
            }) in
            let sent =
              after_rest (λ l. (record s1 { link = l }, minus_one, buffer))
                (write_rest k l1 fh.path)
                λ l. received s1 (receive_loop size (size + 1) (pos 0) l buffer) in
            if lt_ℤ ret (pos 0)
            then some (leave k (record s1 { link = l1 }), minus_one, buffer)
            else sent in
      if leb (2 ^ 31) size then none else body

  -- A round of the loop of `nfi_xpn_server_write` behind the sending: -1 is added for a failure, and
  -- the next round reads in front of the buffer when nothing was sent before.
  abbrev pub after_send :
      (cont : ℕ) → L × Option ℕ → (ret : ℤ → ℕ → L → Option (L × ℕ)) → Option (L × ℕ)
  after_send zero (l, none) next = none
  after_send (suc cont) (l, none) next = next (negsuc 0) cont l
  after_send cont (l, some n) next = next (pos n) (cont + n) l

  -- The loop with at most `fuel` rounds: the bytes that are sent.
  unfoldable pub send_loop : (buffer : Bytes) (size fuel cont : ℕ) → L → Option (L × ℕ)
  send_loop buffer size zero cont l = none
  send_loop buffer size (suc fuel) cont l =
      let n = round_size (buffer_size size) (size - cont) in
      after_send cont (k.comm_write_data l (take n (drop cont buffer))) λ ret cont' l1.
        let more = send_loop buffer size fuel cont' l1 in
        if ltb 0 (size - cont') && not (eq_ℤ ret (pos 0)) then more else some (l1, cont')

  -- The result behind the server's answer. It is the number of the bytes that were sent, whatever
  -- the status is, unless the size is negative.
  abbrev pub end_write : Serv L → (cont : ℕ) → L × Option (ℕ × RwReq) → Serv L × Answer
  end_write s cont (l, none) = (leave k (record s { link = l }), minus_one)
  end_write s cont (l, some (n, req)) =
      let err = if lt_ℤ req.status.ret (pos 0) then some req.status.server_errno else none in
      (
        leave k (record s { link = l }),
        record { ret = if lt_ℤ req.size (pos 0) then negsuc 0 else pos cont; errno = err },
      )

  -- `nfi_xpn_server_write`
  unfoldable pub nfi_write :
      Serv L → Fhandle → (buffer : Bytes) (offset size : ℕ) → Option (Serv L × Answer)
  nfi_write s fh buffer offset size =
      let (published, ret) = k.mq_publish s.link fh.path buffer offset size in
      let body =
        with_server k (λ t. (t, bad einval)) s
          λ s1.
            let (l1, ret) = nfi_write_operation k s1.link write_file (record {
              fd = fh.fd;
              file_type = fh.has_mqtt;
              offset = offset;
              size = size;
              xpn_session = s1.xpn_session_file;
              path_len = length fh.path;
              path = path_field fh.path;
            }) in
            let sent =
              after_rest (λ l. (record s1 { link = l }, minus_one)) (write_rest k l1 fh.path)
                λ l. send_loop buffer size (size + 1) 0 l >>= λ (l2, cont).
                  some (end_write s1 cont (sort_reply k as_rw (k.comm_read_reply l2))) in
            if lt_ℤ ret (pos 0)
            then some (leave k (record s1 { link = l1 }), minus_one)
            else sent in
      if not (fh.has_mqtt == 0)
      then some (record s { link = published }, record { ret = ret; errno = none })
      else if size == 0
      then some (s, record { ret = pos 0; errno = none })
      else if leb (2 ^ 31) size
      then none
      else body
