-- ===== src/Remote.antt =====
-- A client and a server together: the functions of nfi_xpn_server.c over a connection at whose other
-- end xpn_server_ops.c runs. What the client writes stands in the stream to the server, which serves
-- the next request when the client waits for an answer and none is there.
pub mod Paths
pub mod Calls
pub mod Read
pub mod Write
pub mod Local
mod Tests
use xpn.Prelude.{ℕ, Bool, Option, none, some, List, [], ◌∷◌, ◌++◌, length}
use xpn.Prelude.Int.{ℤ, pos}
use xpn.Policy.Grouping.{Bytes}
use xpn.Protocol.{Reply, Token, request, raw, take_bytes, take_reply, sizeof_reply}
use xpn.Server.{Host, World}
use xpn.Server.Mdata.{Layout}
use xpn.Server.Dispatch.{Stack, do_operation}
use xpn.Nfi.{Link}

-- The server's side of the connection after it served, and after something was taken from it. A
-- server that is stopped by an error answers nothing more.
abbrev pub world_or : {S : Type 0} → World S → Option (World S) → World S
world_or w none = w
world_or w (some w1) = w1

abbrev pub taken : {S A : Type 0} → World S → Option (A × List Token) → World S × Option A
taken w none = (w, none)
taken w (some (a, ts)) = (record w { outgoing = ts }, some a)

-- `nfi_xpn_server_comm_read_data` gives the number of bytes that it was asked to read, the size of the
-- structure.
abbrev pub sized :
    {S : Type 0} → (Reply → ℕ) → World S × Option Reply → World S × Option (ℕ × Reply)
sized size (w, none) = (w, none)
sized size (w, some r) = (w, some (size r, r))

module _ {S : Type 0} (h : Host S) (l : Layout) (old : Stack) where
  abbrev pub served : World S → World S
  served w = elim w.outgoing [ [] ↦ world_or w (do_operation h l old w) | t ∷ ts ↦ w ]

  -- The connection; ParseURL is a function of its own.
  abbrev pub pipe : (parse_url : Bytes → ℤ × Bytes) (is_mq_server : Bytes → Bool) → Link (World S)
  pipe parse_url is_mq_server = record {
    connect = λ w. (w, pos 0);
    comm_disconnect = λ w. w;
    comm_write_operation = λ w op. (w, pos 0);
    comm_write_fields = λ w op m. (record w { incoming = w.incoming ++ request op m ∷ [] }, pos 1);
    comm_write_data = λ w bs. (record w { incoming = w.incoming ++ raw bs }, some (length bs));
    comm_read_reply = λ w.
        sized (sizeof_reply l.sizeof_answer) (taken (served w) (take_reply (served w).outgoing));
    comm_read_data = λ w n. taken (served w) (take_bytes n (served w).outgoing);
    parse_url = parse_url;
    is_mq_server = is_mq_server;
    mq_publish = λ w path buffer offset size. (w, pos size);
  }

  -- A server that is connected, with nothing under way.
  abbrev pub idle : S → World S
  idle s = record { host = s; incoming = []; outgoing = [] }
