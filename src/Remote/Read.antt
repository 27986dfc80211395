-- ===== src/Remote/Read.antt =====
-- `nfi_xpn_server_read` of nfi_xpn_server.c with `xpn_server_op_read` of xpn_server_ops.c at the
-- other end.
pub mod Whole
use mathlib.Core.List.{append_assoc, append-nil}
use xpn.Prelude.{
  ℕ, zero, suc, ◌+◌, ◌-◌, ◌<◌, ◌≤◌, ◌^◌, ◌≡◌, refl, sym, ap, subst, ◌∙◌, Bool, true, false, not,
  ◌&&◌, Option, none, some, List, [], ◌∷◌, ◌++◌, ltb, leb, ◌==◌, if◌then◌else◌, length,
  length-append, take, drop, drop_over, ap₂, take_over, length-take, length-drop, inl, inr,
  Bool-cases, arith, ltb-zero,
}
use xpn.Prelude.Int.{ℤ, pos, negsuc, eq_ℤ, lt_ℤ}
use xpn.Policy.Grouping.{Bytes, memcpy}
use xpn.Policy.Grouping.Gather.{memcpy-append, drop-drop}
use xpn.Protocol.{Token, reply, raw, take_bytes, take_bytes-raw, take_reply}
use xpn.Server.{Host, World}
use xpn.Server.Transfer.Ends.{more_left}
use xpn.Server.Transfer.Frames.{Part, Frames, last, next, frame, goes_on}
use xpn.Server.Mdata.{Layout}
use xpn.Server.Dispatch.{Stack}
use xpn.Nfi.{Answer}
use xpn.Nfi.Transfer.{receive_loop, read_part}
use xpn.Remote.Calls.{link}

-- The bytes of a file from `at` on, up to `n`.
abbrev pub bytes_at : (content : Bytes) (at n : ℕ) → Bytes
bytes_at content at n = take n (drop at content)

take_nil : (n : ℕ) → take {A = ℕ} n [] ≡ []
take_nil zero = refl
take_nil (suc n) = refl

no_bytes : (bs : Bytes) → length bs ≡ 0 → bs ≡ []
no_bytes [] h = refl
no_bytes (b ∷ bs) h = absurd (omega arith)

pub take-split : (k n : ℕ) (xs : Bytes) → k ≤ n → take n xs ≡ take k xs ++ take (n - k) (drop k xs)
take-split zero n xs h = ap (λ m. take m xs) (omega arith)
take-split (suc k) zero xs h = absurd (omega arith)
take-split (suc k) (suc n) [] h = sym (take_nil (suc n - suc k))
take-split (suc k) (suc n) (x ∷ xs) h =
    rw (let e : suc n - suc k ≡ n - k = omega arith in e)
      (ap (λ t. x ∷ t) (take-split k n xs (omega arith)))

-- A frame that another follows is the beginning of the bytes that are left.
bytes_at-next :
    (content : Bytes) (offset size cont : ℕ) (bs : Bytes)
    → Part content (offset + cont) (size - cont) bs
    → bytes_at content (offset + cont) (size - cont)
      ≡ bs ++ bytes_at content (offset + (cont + length bs)) (size - (cont + length bs))
bytes_at-next content offset size cont bs p =
    take-split (length bs) (size - cont) (drop (offset + cont) content) p.at_most
    ∙ ap₂ (λ a b. a ++ b) (sym p.inside)
        (ap₂ take (omega arith)
          (drop-drop (offset + cont) (length bs) content ∙ ap (λ n. drop n content) (omega arith)))

-- The last frame is all of them.
bytes_at-last :
    (content : Bytes) (offset size cont : ℕ) (bs : Bytes)
    → Part content (offset + cont) (size - cont) bs
    → goes_on size cont (length bs) ≡ false
    → bytes_at content (offset + cont) (size - cont) ≡ bs
bytes_at-last content offset size cont bs p e = elim (Bool-cases (leb (size - cont) (length bs))) [
  | inl full ↦
      ap (λ n. take n (drop (offset + cont) content)) (all_of (length bs) full p.at_most)
      ∙ sym p.inside
  | inr less ↦
      let none_left : length content ≤ offset + cont =
        p.at_end (positive (length bs) less) (none_read (length bs) e less) in
      ap (take (size - cont)) (drop_over (offset + cont) content none_left)
      ∙ take_nil (size - cont)
      ∙ sym (no_bytes bs (none_read (length bs) e less))
]
  where
    all_of : (n : ℕ) → leb (size - cont) n ≡ true → n ≤ size - cont → size - cont ≡ n
    all_of n full le = ground arith

    positive : (n : ℕ) → leb (size - cont) n ≡ false → 0 < size - cont
    positive n less = ground arith

    none_read : (n : ℕ) → goes_on size cont n ≡ false → leb (size - cont) n ≡ false → n ≡ 0
    none_read n e less = ground arith

module _ {S : Type 0} (h : Host S) (l : Layout) (old : Stack) (parse_url : Bytes → ℤ × Bytes)
    (is_mq_server : Bytes → Bool) where
  -- The client's connection with answers under way.
  abbrev pub answering : S → List Token → World S
  answering s ts = record { host = s; incoming = []; outgoing = ts }

  -- The bytes of a frame are stored behind those that were received before.
  read_part-raw :
      (s : S) (cont : ℕ) (done room bs : Bytes) (ts : List Token)
      → cont ≡ length done
      → length bs ≤ length room
      → read_part
          (link h l old parse_url is_mq_server)
          (pos cont)
          (done ++ room)
          (answering s (raw bs ++ ts))
          (pos (length bs))
        ≡ some (answering s ts, (done ++ bs) ++ drop (length bs) room)
  read_part-raw s cont done room [] ts e fits =
      ap (λ b. some (answering s ts, b)) (ap (λ d. d ++ room) (sym (append-nil done)))
  read_part-raw s cont done room (b ∷ bs) ts e fits = rw (
    take_bytes-raw (b ∷ bs) ts,
    memcpy-append done room (b ∷ bs) 0 (length (b ∷ bs)) cont e fits (omega arith),
    take_over (length bs) bs (omega arith),
  )

  read_part-raw_end :
      (s : S) (cont : ℕ) (done room bs : Bytes)
      → cont ≡ length done
      → length bs ≤ length room
      → read_part
          (link h l old parse_url is_mq_server)
          (pos cont)
          (done ++ room)
          (answering s (raw bs))
          (pos (length bs))
        ≡ some (answering s [], (done ++ bs) ++ drop (length bs) room)
  read_part-raw_end s cont done room bs e fits =
      subst
        (λ ts.
          read_part (link h l old parse_url is_mq_server) (pos cont) (done ++ room) (answering s ts)
            (pos (length bs))
          ≡ some (answering s [], (done ++ bs) ++ drop (length bs) room))
        (append-nil (raw bs)) (read_part-raw s cont done room bs [] e fits)

  -- The client goes on exactly when the server does.
  test_eq : (size cont n : ℕ) → (ltb (cont + n) size && not (n == 0)) ≡ goes_on size cont n
  test_eq size cont n = ground arith

  regroup :
      (s : S) (cont : ℕ) (done bs rest room : Bytes)
      → some (
        answering s [],
        record { ret = pos ((cont + length bs) + length rest); errno = none },
        ((done ++ bs) ++ rest) ++ drop (length rest) (drop (length bs) room),
      )
        ≡ (let r : Option (World S × Answer × Bytes) = some (
          answering s [],
          record { ret = pos (cont + length (bs ++ rest)); errno = none },
          (done ++ (bs ++ rest)) ++ drop (length (bs ++ rest)) room,
        ) in
            r)
  regroup s cont done bs rest room = rw (
    length-append bs rest,
    drop-drop (length bs) (length rest) room,
    append_assoc done bs rest,
    (let e : (cont + length bs) + length rest ≡ cont + (length bs + length rest) = omega arith in
        e),
  )

  -- What the loop of the client makes of the frames: the bytes are stored behind those that were
  -- received before, and nothing is left in the stream.
  receive_loop-Frames :
      (content : Bytes) (offset size fuel cont : ℕ) (s : S) (ts : List Token) (done room : Bytes)
      → Frames content offset size cont ts
      → cont ≡ length done
      → size - cont ≤ length room
      → size - cont < fuel
      → (let data' = bytes_at content (offset + cont) (size - cont) in
          receive_loop
            (link h l old parse_url is_mq_server)
            size
            fuel
            (pos cont)
            (answering s ts)
            (done ++ room)
          ≡ some (
            answering s [],
            record { ret = pos (cont + length data'); errno = none },
            (done ++ data') ++ drop (length data') room,
          ))
  unfolding receive_loop take_reply
  receive_loop-Frames content offset size zero cont s ts done room fr e fits lt =
      absurd (omega arith)
  receive_loop-Frames content offset size (suc fuel) _ s _ done room (last cont x bs p stop) e fits
        lt =
      rw (
        read_part-raw_end s cont done room bs e (omega (arith, p.at_most)),
        test_eq size cont (length bs),
        stop,
        ltb-zero (length bs),
        bytes_at-last content offset size cont bs p stop,
      )
  receive_loop-Frames content offset size (suc fuel) _ s _ done room (next cont x bs ts p go fr) e
        fits lt =
      rw
        (
          read_part-raw s cont done room bs ts e (omega (arith, p.at_most)),
          test_eq size cont (length bs),
          go,
          bytes_at-next content offset size cont bs p,
          receive_loop-Frames content offset size fuel (cont + length bs) s ts (done ++ bs)
              (drop (length bs) room) fr (omega (arith, length-append done bs))
              (omega (arith, length-drop (length bs) room))
              (more_left size cont (length bs) fuel lt go),
        )
        (regroup s cont done bs _ room)
