-- ===== src/Remote/Calls/Open.antt =====
-- Opening a file on a server, and renaming one.
use xpn.Prelude.{
  ℕ, ◌<◌, ◌≡◌, refl, ap, Bool, true, false, none, some, [], ◌∷◌, if◌then◌else◌, drop, length,
  if_same,
}
use xpn.Prelude.Int.{ℤ, pos, lt_ℤ}
use xpn.Policy.Grouping.{Bytes}
use xpn.Protocol.{open_file, status, Status, reply, raw, xpn_path_max, path_max, PathFlags}
use xpn.Server.{Host}
use xpn.Server.Files.{op_open}
use xpn.Server.Mdata.{Layout}
use xpn.Server.Dispatch.{Stack, operation}
use xpn.Nfi.{Fhandle, bad, path_field}
use xpn.Nfi.Files.{nfi_open, as_status}
use xpn.Remote.{idle}
use xpn.Remote.Paths.{IsString, read_path_alone}
use xpn.Remote.Calls.{link, known, keep_connected-known, leave-known, ask-operation}

if_triple :
    {A B C : Type 0} (b : Bool) (a : A) (x x' : B) (y y' : C)
    → (if b then (a, x, y) else (a, x', y'))
      ≡ (let t : A × B × C = (a, (if b then x else x'), (if b then y else y')) in t)
if_triple true a x x' y y' = refl
if_triple false a x x' y y' = refl

module _ {S : Type 0} (h : Host S) (l : Layout) (old : Stack) (parse_url : Bytes → ℤ × Bytes)
    (is_mq_server : Bytes → Bool) where
  -- The handle of a file that is open with this descriptor.
  abbrev pub handle : (url dir : Bytes) (fd : ℤ) → Fhandle
  handle url dir fd = record {
    url = url;
    has_mqtt = 0;
    is_dir = false;
    path = dir;
    fd = fd;
    telldir = pos 0;
    dir = 0;
  }

  abbrev open_msg : (dir : Bytes) (flags mode : ℕ) → PathFlags
  open_msg dir flags mode = record {
    flags = flags;
    mode = mode;
    xpn_session = 1;
    file_type = 0;
    path_len = length dir;
    path = path_field dir;
  }

  -- With sessions, a file is opened on the server under the path of the URL and with the flags and
  -- the mode of the call. A failure there is reported with the `errno` of the server, and otherwise
  -- the handle has the descriptor of the server.
  pub nfi_open-op_open :
      (garbage : Status) (s s' : S) (r ret : ℤ) (url dir : Bytes) (flags mode keep sdir : ℕ)
      → parse_url url ≡ (ret, dir)
      → lt_ℤ ret (pos 0) ≡ false
      → is_mq_server url ≡ false
      → IsString dir
      → length dir < path_max
      → h.open2 (h.clear_errno s) dir flags mode ≡ (s', r)
      → nfi_open
          (link h l old parse_url is_mq_server)
          garbage
          (known h l old parse_url is_mq_server (idle h l old s) keep 1 sdir)
          url
          flags
          mode
        ≡ some (
          known h l old parse_url is_mq_server (idle h l old s') keep 1 sdir,
          (if lt_ℤ r (pos 0) then bad (h.errno s') else record { ret = pos 0; errno = none }),
          (if lt_ℤ r (pos 0) then none else some (handle url dir r)),
        )
  unfolding nfi_open op_open operation
  nfi_open-op_open garbage s s' r ret url dir flags mode keep sdir eu e0 em string short es =
      rw
        (
          keep_connected-known h l old parse_url is_mq_server (idle h l old s) keep 1 sdir,
          eu,
          e0,
          em,
          ask-operation h l old parse_url is_mq_server as_status garbage
              (record { ret = r; server_errno = h.errno s' })
              (status (record { ret = r; server_errno = h.errno s' })) ret s s' open_file
              (open_msg dir flags mode) dir refl refl served,
          leave-known h l old parse_url is_mq_server (idle h l old s') keep 1 sdir,
        )
        (ap some (if_triple (lt_ℤ r (pos 0)) _ _ _ _ _))
    where
      served :
          operation h l old
            (record { host = s; incoming = raw (drop xpn_path_max dir); outgoing = [] })
            open_file
            (open_msg dir flags mode)
          ≡ some (record {
            host = s';
            incoming = [];
            outgoing = reply (status (record { ret = r; server_errno = h.errno s' })) ∷ [];
          })
      served = rw (read_path_alone s dir [] string short, es) (ap some (if_same (lt_ℤ r (pos 0)) _))
