-- ===== src/Remote/Write/Whole.antt =====
-- Writing to a server, from the buffer to the file.
use xpn.Prelude.{
  ℕ, ◌+◌, ◌-◌, ◌<◌, ◌≤◌, ◌^◌, ◌≡◌, sym, subst, Bool, true, false, none, some, [], ◌∷◌, ◌++◌, leb,
  ◌==◌, if◌then◌else◌, length, length-take, take, drop, arith, ltb-zero,
}
use xpn.Prelude.Int.{ℤ, pos, lt_ℤ}
use xpn.Policy.Grouping.{Bytes}
use xpn.Protocol.{request, raw, write_file, xpn_path_max, path_max, take_reply}
use xpn.Server.{Host}
use xpn.Server.Transfer.{buffer_size}
use xpn.Server.Transfer.Writes.{Writable, overwrite, is_nonzero}
use xpn.Server.Mdata.{Layout}
use xpn.Server.Dispatch.{Stack, operation, do_operation}
use xpn.Nfi.{Fhandle, nfi_write_operation}
use xpn.Nfi.Transfer.{nfi_write}
use xpn.Remote.{idle}
use xpn.Remote.Paths.{IsString}
use xpn.Remote.Calls.{link, known, keep_connected-known, leave-known, write_rest-link}
use xpn.Remote.Write.{is_zero, write_msg, wrote, send_loop-raw, op_write-overwrite}

module _ {S : Type 0} (h : Host S) (l : Layout) (old : Stack) (parse_url : Bytes → ℤ × Bytes)
    (is_mq_server : Bytes → Bool) where
  -- The server's answer, for a size that is the number of the bytes.
  at_size :
      (s s2 : S) (e : ℤ) (fh : Fhandle) (offset file : ℕ) (bytes : Bytes) (size : ℕ)
      → length bytes ≡ size
      → operation h l old
          (record {
            host = s;
            incoming = raw (drop xpn_path_max fh.path) ++ raw bytes;
            outgoing = [];
          })
          write_file
          (write_msg h l old parse_url is_mq_server fh offset (length bytes) file)
        ≡ some (wrote h l old parse_url is_mq_server s2 e (length bytes))
      → operation h l old
          (record {
            host = s;
            incoming = raw (drop xpn_path_max fh.path) ++ raw bytes;
            outgoing = [];
          })
          write_file
          (write_msg h l old parse_url is_mq_server fh offset size file)
        ≡ some (wrote h l old parse_url is_mq_server s2 e size)
  at_size s s2 e fh offset file bytes size len run =
      subst
        (λ n.
          operation h l old
            (record {
              host = s;
              incoming = raw (drop xpn_path_max fh.path) ++ raw bytes;
              outgoing = [];
            })
            write_file (write_msg h l old parse_url is_mq_server fh offset n file)
          ≡ some (wrote h l old parse_url is_mq_server s2 e n))
        len run

  -- A write through the connection writes the first `size` bytes of the buffer into the file at
  -- `offset` and gives their number. It does so for paths longer than a message and for sizes of
  -- many buffers, with a session or without. Between 1 and 2^31 - 1 bytes are written, from a buffer
  -- that holds them, to a file that is not one of mq_server and whose file system writes all that it
  -- is given.
  pub nfi_write-op_write :
      (fh : Fhandle) (content buffer : Bytes) (Inv : Bytes → S → Type 0) (s s1 : S) (fd : ℤ)
      (offset size keep file sdir : ℕ)
      → fh.has_mqtt ≡ 0
      → IsString fh.path
      → length fh.path < path_max
      → (if file == 1 then (h.clear_errno s, fh.fd) else h.open_path (h.clear_errno s) fh.path 1)
        ≡ (s1, fd)
      → lt_ℤ fd (pos 0) ≡ false
      → h.malloc s1 (buffer_size size) ≡ true
      → Writable h fd Inv
      → Inv content s1
      → 0 < size
      → size < 2 ^ 31
      → size ≤ length buffer
      → (s2 : S) × (nfi_write
            (link h l old parse_url is_mq_server)
            (known h l old parse_url is_mq_server (idle h l old s) keep file sdir)
            fh
            buffer
            offset
            size
          ≡ some (
            known h l old parse_url is_mq_server (idle h l old s2) keep file sdir,
            record { ret = pos size; errno = none },
          ))
        × Inv (overwrite offset (take size buffer) content) s2
  unfolding nfi_write nfi_write_operation do_operation take_reply
  nfi_write-op_write fh content buffer Inv s s1 fd offset size keep file sdir em0 string short eo ef
        em law inv some_left small room =
      let bytes = take size buffer in
      let len : size ≡ length bytes = omega (arith, length-take size buffer) in
      let (s2, e, run, inv2) =
        op_write-overwrite h l old parse_url is_mq_server fh content bytes Inv s s1 fd offset file
          em0 string short eo ef (subst (λ n. h.malloc s1 (buffer_size n) ≡ true) len em) law inv
          (omega arith) (omega arith) in
      (
        s2,
        rw (
          (let t : (fh.has_mqtt == 0) ≡ true = is_zero fh.has_mqtt em0 in t),
          (let t : (size == 0) ≡ false = is_nonzero size some_left in t),
          (let t : leb (2 ^ 31) size ≡ false = ground arith in t),
          keep_connected-known h l old parse_url is_mq_server (idle h l old s) keep file sdir,
          (write_rest-link h l old parse_url is_mq_server s fh.path (
              request write_file (write_msg h l old parse_url is_mq_server fh offset size file))).1,
          send_loop-raw h l old parse_url is_mq_server buffer size (size + 1) 0 s
              (request write_file (write_msg h l old parse_url is_mq_server fh offset size file)
                ∷ raw (drop xpn_path_max fh.path))
              room some_left (omega arith),
          (let t : size - 0 ≡ size = omega arith in t),
          at_size s s2 e fh offset file bytes size (sym len) run,
          ltb-zero size,
          leave-known h l old parse_url is_mq_server (idle h l old s2) keep file sdir,
        ),
        inv2,
      )
