-- ===== src/Remote/Write.antt =====
-- `nfi_xpn_server_write` of nfi_xpn_server.c with `xpn_server_op_write` of xpn_server_ops.c at the
-- other end.
pub mod Whole
pub mod Unheard
use mathlib.Core.List.{append_assoc}
use xpn.Prelude.{
  ℕ, zero, suc, ◌+◌, ◌-◌, ◌<◌, ◌≤◌, ◌^◌, ◌≡◌, refl, sym, ap, ap₂, subst, ◌∙◌, Bool, true, false,
  not, ◌&&◌, Option, none, some, List, [], ◌∷◌, ◌++◌, ltb, leb, ◌==◌, if◌then◌else◌, length,
  length-take, length-drop, take, drop, drop_over, take_over, take-append-drop, inl, inr,
  Bool-cases, arith, ltb→lt, ltb-zero,
}
use xpn.Prelude.Int.{ℤ, pos, negsuc, eq_ℤ, lt_ℤ}
use xpn.Policy.Grouping.{Bytes}
use xpn.Policy.Grouping.Gather.{drop-drop}
use xpn.Protocol.{
  Token, request, reply, rw_req, RwMsg, raw, raw-append, write_file, xpn_path_max, path_max,
  take_reply,
}
use xpn.Server.{Host, World}
use xpn.Server.Transfer.{op_write, write_guarded, opened, buffer_size, round_size}
use xpn.Server.Transfer.Frames.{round_size_le, round_size_positive}
use xpn.Server.Transfer.Writes.{Writable, overwrite, write_loop-overwrite, is_nonzero, none_left}
use xpn.Server.Mdata.{Layout}
use xpn.Server.Dispatch.{Stack, operation, do_operation}
use xpn.Nfi.{Fhandle, Answer, path_field, nfi_write_operation}
use xpn.Nfi.Transfer.{nfi_write, send_loop}
use xpn.Remote.{idle}
use xpn.Remote.Paths.{IsString, read_path-path_field}
use xpn.Remote.Read.{take-split}
use xpn.Remote.Calls.{link, known, keep_connected-known, leave-known, write_rest-link}

pub is_file : (n : ℕ) → n ≡ 0 → (n == 1) ≡ false
is_file n e = ground arith

pub is_zero : (n : ℕ) → n ≡ 0 → (n == 0) ≡ true
is_zero n e = ground arith

module _ {S : Type 0} (h : Host S) (l : Layout) (old : Stack) (parse_url : Bytes → ℤ × Bytes)
    (is_mq_server : Bytes → Bool) where
  either : (P : S → Type 0) (b : Bool) (x y : S) → P x → P y → P (if b then x else y)
  either P true x y px py = px
  either P false x y px py = py

  -- The message of `nfi_write`.
  abbrev pub write_msg : (fh : Fhandle) (offset size file : ℕ) → RwMsg
  write_msg fh offset size file = record {
    fd = fh.fd;
    file_type = fh.has_mqtt;
    offset = offset;
    size = size;
    xpn_session = file;
    path_len = length fh.path;
    path = path_field fh.path;
  }

  -- The client puts the bytes of its buffer into the stream, however they are cut.
  pub send_loop-raw :
      (buffer : Bytes) (size fuel cont : ℕ) (s : S) (sent : List Token)
      → size ≤ length buffer
      → cont < size
      → size - cont < fuel
      → send_loop
          (link h l old parse_url is_mq_server)
          buffer
          size
          fuel
          cont
          (record { host = s; incoming = sent; outgoing = [] })
        ≡ some (
          record {
            host = s;
            incoming = sent ++ raw (take (size - cont) (drop cont buffer));
            outgoing = [];
          },
          size,
        )
  unfolding send_loop
  send_loop-raw buffer size zero cont s sent room lt enough = absurd (omega arith)
  send_loop-raw buffer size (suc fuel) cont s sent room lt enough =
      let n = round_size (buffer_size size) (size - cont) in
      let bs = take n (drop cont buffer) in
      let le : n ≤ size - cont = round_size_le size (size - cont) in
      let positive : 0 < n = round_size_positive size (size - cont) (omega arith) (omega arith) in
      let len : length bs ≡ n =
        omega (arith, length-take n (drop cont buffer), length-drop cont buffer) in
      elim (Bool-cases (ltb 0 (size - (cont + length bs)))) [
        | inl more ↦
            rw
              (
                more,
                is_nonzero (length bs) (omega arith),
                send_loop-raw buffer size fuel (cont + length bs) s (sent ++ raw bs) room
                    (omega (arith, ltb→lt 0 (size - (cont + length bs)) more)) (omega arith),
              )
              (ap (λ ts. some (record { host = s; incoming = ts; outgoing = [] }, size))
                (append_assoc sent (raw bs) _
                  ∙ ap (λ ts. sent ++ ts)
                      (sym (raw-append bs _)
                        ∙ ap raw (
                            ap (λ t. bs ++ t)
                              (ap₂ take (omega arith) (
                                ap (λ k. drop k buffer) (omega arith)
                                ∙ sym (drop-drop cont n buffer)))
                            ∙ sym (take-split n (size - cont) (drop cont buffer) le)))))
        | inr done ↦
            let none : size - (cont + length bs) ≡ 0 = none_left _ done in
            rw (done, (let e : cont + length bs ≡ size = omega arith in e))
              (ap
                (λ k. some (
                  record {
                    host = s;
                    incoming = sent ++ raw (take k (drop cont buffer));
                    outgoing = [];
                  },
                  size,
                ))
                (let e : n ≡ size - cont = omega arith in e))
      ]

  -- The server when it wrote `n` bytes.
  abbrev pub wrote : S → (e : ℤ) (n : ℕ) → World S
  wrote s e n = record {
    host = s;
    incoming = [];
    outgoing =
        reply (rw_req (record { size = pos n; status = record { ret = pos 0; server_errno = e } }))
        ∷ [];
  }

  -- The server writes what follows a request to write.
  pub op_write-overwrite :
      (fh : Fhandle) (content bytes : Bytes) (Inv : Bytes → S → Type 0) (s s1 : S) (fd : ℤ)
      (offset file : ℕ)
      → fh.has_mqtt ≡ 0
      → IsString fh.path
      → length fh.path < path_max
      → (if file == 1 then (h.clear_errno s, fh.fd) else h.open_path (h.clear_errno s) fh.path 1)
        ≡ (s1, fd)
      → lt_ℤ fd (pos 0) ≡ false
      → h.malloc s1 (buffer_size (length bytes)) ≡ true
      → Writable h fd Inv
      → Inv content s1
      → 0 < length bytes
      → length bytes < 2 ^ 31
      → (s2 : S) × (e : ℤ) × (operation h l old
            (record {
              host = s;
              incoming = raw (drop xpn_path_max fh.path) ++ raw bytes;
              outgoing = [];
            })
            write_file
            (write_msg fh offset (length bytes) file)
          ≡ some (record {
            host = s2;
            incoming = [];
            outgoing =
                reply (
                  rw_req (record {
                    size = pos (length bytes);
                    status = record { ret = pos 0; server_errno = e };
                  }))
                ∷ [];
          }))
        × Inv (overwrite offset bytes content) s2
  unfolding operation op_write write_guarded
  op_write-overwrite fh content bytes Inv s s1 fd offset file em0 string short eo ef em law inv
        some_left small =
      let m = write_msg fh offset (length bytes) file in
      let (s2, run, inv2) =
        write_loop-overwrite h Inv m fd (length bytes + 1) 0 old.req_size s1 [] content bytes law
          inv (omega arith) some_left (omega arith) in
      let here : Inv (overwrite offset bytes content) s2 =
        subst (λ k. Inv (overwrite k bytes content) s2) (omega arith) inv2 in
      (
        (if file == 1 then h.fsync s2 fd else (h.close s2 fd).0),
        h.errno s2,
        rw (
          (let t : (fh.has_mqtt == 1) ≡ false = is_file fh.has_mqtt em0 in t),
          fits,
          read_path-path_field (record { host = s; incoming = []; outgoing = [] }) fh.path
              (raw bytes) string short,
          eo,
          ef,
          em,
          run,
        ),
        either (Inv (overwrite offset bytes content)) (file == 1) _ _ (law.fsyncs _ s2 here)
            (law.closes _ s2 here),
      )
    where
      fits : leb (2 ^ 31) (length bytes) ≡ false
      fits = ground arith
