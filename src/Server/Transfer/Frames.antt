-- ===== src/Server/Transfer/Frames.antt =====
-- What `xpn_server_op_read` of src/xpn_server/xpn_server_ops.c sends: frames, of which each is a
-- header and the bytes of a part of the file.
use mathlib.Core.List.{append_assoc}
use xpn.Prelude.{
  ℕ, zero, suc, ◌+◌, ◌-◌, ◌<◌, ◌≤◌, ◌≡◌, refl, ap, Bool, true, false, not, ◌&&◌, some, List, [],
  ◌∷◌, ◌++◌, ltb, ◌==◌, if◌then◌else◌, length, take, drop, inl, inr, Bool-cases, arith,
}
use xpn.Prelude.Int.{ℤ, pos, negsuc, eq_ℤ}
use xpn.Policy.Grouping.{Bytes}
use xpn.Protocol.{RwMsg, rw_req, Token, reply, raw}
use xpn.Server.{Host, World, send_data}
use xpn.Server.Transfer.Ends.{more_left}
use xpn.Server.Transfer.{read_loop, round_size, buffer_size, send_req}

-- A header with its bytes; `e` is the value of `errno`.
abbrev pub frame : (e : ℤ) → Bytes → List Token
frame e bs =
    reply (
      rw_req (record { size = pos (length bs); status = record { ret = pos 0; server_errno = e } }))
    ∷ raw bs

-- `bs` are bytes of the file from `at` on, no more than `n`, and none only when none are wanted or
-- the file ends there.
pub record Part (content : Bytes) (at n : ℕ) (bs : Bytes) : Type 0 where
  pub inside : bs ≡ take (length bs) (drop at content)
  pub at_most : length bs ≤ n
  pub at_end : 0 < n → length bs ≡ 0 → length content ≤ at

-- What is documented of `lseek` and `read` on a descriptor of a file with this content, in every
-- state for which `Inv` holds: they succeed, and a read may give fewer bytes than it is asked for.
pub record Readable {S : Type 0} (h : Host S) (fd : ℤ) (content : Bytes) (Inv : S → Type 0)
    : Type 0 where
  pub seeks : (s : S) (o : ℕ) → Inv s → (h.lseek s fd o).1 ≡ pos o
  pub reads :
      (s : S) (o n : ℕ)
      → Inv s
      → (s' : S) × (bs : Bytes) × (h.read (h.lseek s fd o).0 fd n ≡ (s', some bs))
        × Inv s'
        × Part content o n bs

-- Whether another round follows one with `k` bytes.
abbrev pub goes_on : (size cont k : ℕ) → Bool
goes_on size cont k = ltb 0 (size - (cont + k)) && not (k == 0)

-- The frames for the bytes of a file from `offset + cont` on, when `size` bytes are wanted from
-- `offset` on.
pub data Frames (content : Bytes) (offset size : ℕ) : (cont : ℕ) → List Token → Type 0 where
  last :
      (cont : ℕ) (e : ℤ) (bs : Bytes)
      → Part content (offset + cont) (size - cont) bs
      → goes_on size cont (length bs) ≡ false
      → Frames content offset size cont (frame e bs)
  next :
      (cont : ℕ) (e : ℤ) (bs : Bytes) (ts : List Token)
      → Part content (offset + cont) (size - cont) bs
      → goes_on size cont (length bs) ≡ true
      → Frames content offset size (cont + length bs) ts
      → Frames content offset size cont (frame e bs ++ ts)

pub round_size_le : (size diff : ℕ) → round_size (buffer_size size) diff ≤ diff
round_size_le size diff = ground arith

pub round_size_positive :
    (size diff : ℕ) → 0 < diff → diff ≤ size → 0 < round_size (buffer_size size) diff
round_size_positive size diff h le = ground arith

-- A part of the round's size is one of what is left.
widen :
    (content : Bytes) (at size diff : ℕ) (bs : Bytes)
    → diff ≤ size
    → Part content at (round_size (buffer_size size) diff) bs
    → Part content at diff bs
widen content at size diff bs le p = record {
  inside = p.inside;
  at_most = omega (arith, p.at_most, round_size_le size diff);
  at_end = λ h e. p.at_end (round_size_positive size diff h le) e;
}

module _ {S : Type 0} (h : Host S) where
  -- The state after a frame is sent.
  sent-frame :
      (w : World S) (s : S) (bs : Bytes)
      → (if length bs == 0
          then send_req h w s (pos (length bs)) (pos 0)
          else send_data (send_req h w s (pos (length bs)) (pos 0)) bs)
        ≡ record w { host = s; outgoing = w.outgoing ++ frame (h.errno s) bs }
  sent-frame w s [] = refl
  sent-frame w s (b ∷ bs) =
      rw (let e : (suc (length bs) == 0) ≡ false = ground arith in e)
        (ap (λ ts. record w { host = s; outgoing = ts }) (append_assoc w.outgoing _ _))

  -- The loop sends the frames of what is left, when the file can be read.
  pub read_loop-Frames :
      (content : Bytes) (Inv : S → Type 0) (m : RwMsg) (fd : ℤ) (fuel cont : ℕ) (r : ℤ)
      (w : World S)
      → Readable h fd content Inv
      → Inv w.host
      → eq_ℤ r (negsuc 0) ≡ false
      → m.size - cont < fuel
      → (s' : S) × (ts : List Token) × (read_loop h m fd fuel cont r w
          ≡ some (record w { host = s'; outgoing = w.outgoing ++ ts }))
        × Inv s'
        × Frames content m.offset m.size cont ts
  unfolding read_loop
  read_loop-Frames content Inv m fd zero cont r w law inv er lt = absurd (omega arith)
  read_loop-Frames content Inv m fd (suc fuel) cont r w law inv er lt =
      let at = m.offset + cont in
      let n = round_size (buffer_size m.size) (m.size - cont) in
      let (s1, bs, got, inv1, narrow) = law.reads w.host at n inv in
      let part : Part content at (m.size - cont) bs =
        widen content at m.size (m.size - cont) bs (omega arith) narrow in
      let w1 : World S = record w { host = s1; outgoing = w.outgoing ++ frame (h.errno s1) bs } in
      elim (Bool-cases (goes_on m.size cont (length bs))) [
        | inl e ↦
            let (s2, ts, run, inv2, frames) =
              read_loop-Frames content Inv m fd fuel (cont + length bs) (pos 0) w1 law inv1 refl
                (more_left m.size cont (length bs) fuel lt e) in
            (
              s2,
              frame (h.errno s1) bs ++ ts,
              rw (law.seeks w.host at inv, got, er, sent-frame w s1 bs, e, run)
                  (ap (λ out. some (record w { host = s2; outgoing = out }))
                    (append_assoc w.outgoing (frame (h.errno s1) bs) ts)),
              inv2,
              next cont (h.errno s1) bs ts part e frames,
            )
        | inr e ↦ (
          s1,
          frame (h.errno s1) bs,
          rw (law.seeks w.host at inv, got, er, sent-frame w s1 bs, e),
          inv1,
          last cont (h.errno s1) bs part e,
        )
      ]
