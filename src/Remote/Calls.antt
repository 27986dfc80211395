-- ===== src/Remote/Calls.antt =====
-- The functions of the client that ask for one answer, with the server at the other end.
pub mod Open
use xpn.Prelude.{
  ℕ, zero, suc, ◌<◌, ◌≡◌, refl, sym, ap, Bool, true, false, Option, none, some, List, [], ◌∷◌, ◌++◌,
  ltb, ◌==◌, if◌then◌else◌, drop, drop_over, length, inl, inr, Bool-cases, arith, if_same, subst,
  ◌≤◌,
}
use xpn.Prelude.Int.{ℤ, pos, lt_ℤ}
use xpn.Policy.Grouping.{Bytes}
use xpn.Protocol.{
  rm_file, Op, Fields, Reply, status, Status, Token, reply, request, raw, take_reply, sizeof_reply,
  xpn_path_max, path_max,
}
use xpn.Server.{Host, World, read_path}
use xpn.Server.Files.{op_rm}
use xpn.Server.Mdata.{Layout}
use xpn.Server.Dispatch.{Stack, operation, do_operation}
use xpn.Nfi.{
  path_field, Link, Serv, Answer, has_fields, nfi_write_operation, do_request, ask, keep_connected,
  reconnect, serv_disconnect, leave,
}
use xpn.Nfi.Files.{write_rest, nfi_remove, as_status}
use xpn.Remote.{pipe, idle}
use xpn.Remote.Paths.{IsString, read_path_alone}

pub short_le : (n : ℕ) → ltb n xpn_path_max ≡ true → n ≤ xpn_path_max
short_le n e = ground arith

module _ {S : Type 0} (h : Host S) (l : Layout) (old : Stack) (parse_url : Bytes → ℤ × Bytes)
    (is_mq_server : Bytes → Bool) where
  abbrev pub link : Link (World S)
  link = pipe h l old parse_url is_mq_server

  -- A server as the client knows it, with any settings.
  abbrev pub known : World S → (keep file dir : ℕ) → Serv (World S)
  known w keep file dir = record {
    link = w;
    private_info = true;
    keep_connected = keep;
    xpn_session_file = file;
    xpn_session_dir = dir;
  }

  pub keep_connected-known :
      (w : World S) (keep file dir : ℕ)
      → keep_connected link (known w keep file dir) ≡ some (known w keep file dir)
  unfolding keep_connected reconnect
  keep_connected-known w keep file dir = if_same (keep == 0) _

  pub leave-known :
      (w : World S) (keep file dir : ℕ) → leave link (known w keep file dir) ≡ known w keep file dir
  unfolding serv_disconnect
  leave-known w keep file dir = if_same (keep == 0) _

  -- What `ret` holds behind a request: for a long path the bytes that were read.
  abbrev pub asked_ret : (dir : Bytes) → ℤ → Reply → ℤ
  asked_ret dir ret r =
      if ltb (length dir) xpn_path_max then ret else pos (sizeof_reply l.sizeof_answer r)

  -- A request whose operation takes the rest of the path and gives one answer is answered by it.
  pub ask-operation {ℓ} :
      {A : Type ℓ} (sort : Reply → Option A) (garbage a : A) (r : Reply) (ret : ℤ) (s s' : S)
      (op : Op) (m : Fields op) (dir : Bytes)
      → sort r ≡ some a
      → has_fields op ≡ true
      → operation h l old
          (record { host = s; incoming = raw (drop xpn_path_max dir); outgoing = [] })
          op
          m
        ≡ some (record { host = s'; incoming = []; outgoing = reply r ∷ [] })
      → ask link sort garbage ret (idle h l old s) op m dir
        ≡ (idle h l old s', some (asked_ret dir ret r, a))
  unfolding ask do_request nfi_write_operation do_operation take_reply
  ask-operation sort garbage a r ret s s' op m dir es ef eo =
      elim (Bool-cases (ltb (length dir) xpn_path_max)) [
        | inl e ↦ rw (e, ef, short_path e, es)
        | inr e ↦ rw (e, ef, eo, es)
      ]
    where
      short_path :
          ltb (length dir) xpn_path_max ≡ true
          → operation h l old (record { host = s; incoming = []; outgoing = [] }) op m
            ≡ some (record { host = s'; incoming = []; outgoing = reply r ∷ [] })
      short_path e =
          subst
            (λ (bs : Bytes).
              operation h l old (record { host = s; incoming = raw bs; outgoing = [] }) op m
              ≡ some (record { host = s'; incoming = []; outgoing = reply r ∷ [] }))
            (drop_over xpn_path_max dir (short_le (length dir) e)) eo

  -- A removal on the server: where the client is connected, the URL is read as `ret` with a path below
  -- PATH_MAX, and the server's `unlink` gives `r`, the file is unlinked there under the path of the
  -- URL. The result is not `r`, which only sets `errno` when it is negative: it is `ret` for a path of
  -- less than 128 characters, and 8, the size of the structure with the status, for a longer one.
  pub nfi_remove-op_rm :
      (garbage : Status) (s s' : S) (r ret : ℤ) (url dir : Bytes) (keep file sdir : ℕ)
      → parse_url url ≡ (ret, dir)
      → lt_ℤ ret (pos 0) ≡ false
      → IsString dir
      → length dir < path_max
      → h.unlink (h.clear_errno s) dir ≡ (s', r)
      → nfi_remove link garbage (known (idle h l old s) keep file sdir) url
        ≡ some (
          known (idle h l old s') keep file sdir,
          record {
            ret = if ltb (length dir) xpn_path_max then ret else pos 8;
            errno = if lt_ℤ r (pos 0) then some (h.errno s') else none;
          },
        )
  unfolding nfi_remove op_rm operation
  nfi_remove-op_rm garbage s s' r ret url dir keep file sdir eu e0 string short es = rw (
    keep_connected-known (idle h l old s) keep file sdir,
    eu,
    e0,
    ask-operation as_status garbage (record { ret = r; server_errno = h.errno s' })
        (status (record { ret = r; server_errno = h.errno s' })) ret s s' rm_file
        (record { path_len = length dir; path = path_field dir }) dir refl refl served,
    leave-known (idle h l old s') keep file sdir,
  )
    where
      served :
          operation h l old
            (record { host = s; incoming = raw (drop xpn_path_max dir); outgoing = [] })
            rm_file
            (record { path_len = length dir; path = path_field dir })
          ≡ some (record {
            host = s';
            incoming = [];
            outgoing = reply (status (record { ret = r; server_errno = h.errno s' })) ∷ [];
          })
      served = rw (read_path_alone s dir [] string short, es)

  -- The rest of a path, behind a request.
  pub write_rest-link :
      (s : S) (dir : Bytes) (t : Token)
      → (n : ℕ) × (write_rest link (record { host = s; incoming = t ∷ []; outgoing = [] }) dir ≡ (
        record { host = s; incoming = t ∷ raw (drop xpn_path_max dir); outgoing = [] },
        some n,
      ))
  write_rest-link s dir t = elim (Bool-cases (ltb (length dir) xpn_path_max)) [
    | inl e ↦ (0, rw (e, drop_over xpn_path_max dir (short_le (length dir) e)))
    | inr e ↦ (length (drop xpn_path_max dir), rw e)
  ]
