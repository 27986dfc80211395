-- ===== src/Remote/Write/Unheard.antt =====
-- A write to a server that cannot carry it out.
use xpn.Prelude.{
  ℕ, suc, ◌+◌, ◌-◌, ◌<◌, ◌≤◌, ◌^◌, ◌≡◌, refl, sym, subst, Bool, true, false, some, List, [], ◌∷◌,
  ◌++◌, leb, ◌==◌, if◌then◌else◌, length, length-take, take, drop, drop_over, arith,
}
use xpn.Prelude.Int.{ℤ, pos, negsuc, lt_ℤ}
use xpn.Policy.Grouping.{Bytes}
use xpn.Protocol.{
  max_buffer_size, take_bytes-take, Token, request, reply, rw_req, RwMsg, raw, write_file,
  xpn_path_max, path_max, take_reply,
}
use xpn.Server.{Host, World}
use xpn.Server.Transfer.{write_loop, op_write, write_guarded, buffer_size, round_size}
use xpn.Server.Transfer.Writes.{is_nonzero}
use xpn.Server.Mdata.{Layout}
use xpn.Server.Dispatch.{Stack, operation, do_operation}
use xpn.Nfi.{Fhandle, nfi_write_operation}
use xpn.Nfi.Transfer.{nfi_write}
use xpn.Remote.{idle}
use xpn.Remote.Paths.{IsString, read_path-path_field}
use xpn.Remote.Calls.{link, known, keep_connected-known, leave-known, write_rest-link}
use xpn.Remote.Write.{is_file, is_zero, write_msg, send_loop-raw}

one_round :
    (size n : ℕ) → n ≡ size → n ≤ max_buffer_size → round_size (buffer_size size) (size - 0) ≡ n
one_round size n e h = ground arith

module _ {S : Type 0} (h : Host S) (l : Layout) (old : Stack) (parse_url : Bytes → ℤ × Bytes)
    (is_mq_server : Bytes → Bool) where
  abbrev lost : S → (e : ℤ) → World S
  lost s e = record {
    host = s;
    incoming = [];
    outgoing =
        reply (
          rw_req
            (record { size = old.req_size; status = record { ret = negsuc 0; server_errno = e } }))
        ∷ [];
  }

  write_loop_lost :
      (m : RwMsg) (fd : ℤ) (fuel : ℕ) (size : ℤ) (s : S) (out : List Token) (rest : Bytes)
      → length rest ≡ m.size
      → length rest ≤ max_buffer_size
      → lt_ℤ (h.lseek s fd (m.offset + 0)).1 (pos 0) ≡ true
      → write_loop h m fd
          (suc fuel)
          0
          size
          (record { host = s; incoming = raw rest; outgoing = out })
        ≡ some (
          record { host = (h.lseek s fd (m.offset + 0)).0; incoming = []; outgoing = out },
          size,
          negsuc 0,
        )
  unfolding write_loop
  write_loop_lost m fd fuel size s out rest len small bad = rw (
    one_round m.size (length rest) len small,
    take_bytes-take (length rest) rest (omega arith),
    bad,
    drop_over (length rest) rest (omega arith),
  )

  -- The server at the end of a write whose first `lseek` failed: nothing is written, what it took from
  -- the stream is lost, and the size of the answer is what the uninitialised `req.size` holds.
  op_write-lost :
      (fh : Fhandle) (bytes : Bytes) (s s1 : S) (fd : ℤ) (offset file : ℕ)
      → fh.has_mqtt ≡ 0
      → IsString fh.path
      → length fh.path < path_max
      → (if file == 1 then (h.clear_errno s, fh.fd) else h.open_path (h.clear_errno s) fh.path 1)
        ≡ (s1, fd)
      → lt_ℤ fd (pos 0) ≡ false
      → h.malloc s1 (buffer_size (length bytes)) ≡ true
      → lt_ℤ (h.lseek s1 fd (offset + 0)).1 (pos 0) ≡ true
      → length bytes ≤ max_buffer_size
      → (s2 : S) × (e : ℤ) × (operation h l old
            (record {
              host = s;
              incoming = raw (drop xpn_path_max fh.path) ++ raw bytes;
              outgoing = [];
            })
            write_file
            (write_msg h l old parse_url is_mq_server fh offset (length bytes) file)
          ≡ some (lost s2 e))
  unfolding operation op_write write_guarded
  op_write-lost fh bytes s s1 fd offset file em0 string short eo ef em bad small = (
    (if file == 1 then h.fsync t fd else (h.close t fd).0),
    h.errno t,
    rw (
      (let t : (fh.has_mqtt == 1) ≡ false = is_file fh.has_mqtt em0 in t),
      (let t : leb (2 ^ 31) (length bytes) ≡ false = ground arith in t),
      read_path-path_field (record { host = s; incoming = []; outgoing = [] }) fh.path (raw bytes)
          string short,
      eo,
      ef,
      em,
      (let t : length bytes + 1 ≡ suc (length bytes) = omega arith in t),
      write_loop_lost (write_msg h l old parse_url is_mq_server fh offset (length bytes) file) fd
          (length bytes) old.req_size s1 [] bytes refl small bad,
    ),
  )
    where
      t : S
      t = (h.lseek s1 fd (offset + 0)).0

  -- A write of up to MAX_BUFFER_SIZE bytes of which the server wrote nothing, since it could not seek
  -- to the offset, is a success for the client: it gives the number of the bytes that it sent, and
  -- only `errno` is set. It needs an uninitialised size on the server's stack that is not negative.
  pub nfi_write_unheard :
      (fh : Fhandle) (buffer : Bytes) (s s1 : S) (fd : ℤ) (offset size keep file sdir : ℕ)
      → fh.has_mqtt ≡ 0
      → IsString fh.path
      → length fh.path < path_max
      → (if file == 1 then (h.clear_errno s, fh.fd) else h.open_path (h.clear_errno s) fh.path 1)
        ≡ (s1, fd)
      → lt_ℤ fd (pos 0) ≡ false
      → h.malloc s1 (buffer_size size) ≡ true
      → lt_ℤ (h.lseek s1 fd (offset + 0)).1 (pos 0) ≡ true
      → lt_ℤ old.req_size (pos 0) ≡ false
      → 0 < size
      → size ≤ max_buffer_size
      → size ≤ length buffer
      → (s2 : S) × (e : ℤ) × (nfi_write
            (link h l old parse_url is_mq_server)
            (known h l old parse_url is_mq_server (idle h l old s) keep file sdir)
            fh
            buffer
            offset
            size
          ≡ some (
            known h l old parse_url is_mq_server (idle h l old s2) keep file sdir,
            record { ret = pos size; errno = some e },
          ))
  unfolding nfi_write nfi_write_operation do_operation take_reply
  nfi_write_unheard fh buffer s s1 fd offset size keep file sdir em0 string short eo ef em bad er
        some_left small room =
      let bytes = take size buffer in
      let len : size ≡ length bytes = omega (arith, length-take size buffer) in
      let (s2, e, run) =
        op_write-lost fh bytes s s1 fd offset file em0 string short eo ef
          (subst (λ n. h.malloc s1 (buffer_size n) ≡ true) len em) bad
          (subst (λ n. n ≤ max_buffer_size) len small) in
      (
        s2,
        e,
        rw (
          (let t : (fh.has_mqtt == 0) ≡ true = is_zero fh.has_mqtt em0 in t),
          (let t : (size == 0) ≡ false = is_nonzero size some_left in t),
          (let t : leb (2 ^ 31) size ≡ false = ground arith in t),
          keep_connected-known h l old parse_url is_mq_server (idle h l old s) keep file sdir,
          (write_rest-link h l old parse_url is_mq_server s fh.path (
              request write_file (write_msg h l old parse_url is_mq_server fh offset size file))).1,
          send_loop-raw h l old parse_url is_mq_server buffer size (size + 1) 0 s
              (request write_file (write_msg h l old parse_url is_mq_server fh offset size file)
                ∷ raw (drop xpn_path_max fh.path))
              room some_left (omega arith),
          (let t : size - 0 ≡ size = omega arith in t),
          subst
              (λ n.
                operation h l old
                  (record {
                    host = s;
                    incoming = raw (drop xpn_path_max fh.path) ++ raw bytes;
                    outgoing = [];
                  })
                  write_file (write_msg h l old parse_url is_mq_server fh offset n file)
                ≡ some (lost s2 e))
              (sym len) run,
          er,
          leave-known h l old parse_url is_mq_server (idle h l old s2) keep file sdir,
        ),
      )
