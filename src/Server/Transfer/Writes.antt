-- ===== src/Server/Transfer/Writes.antt =====
-- What `xpn_server_op_write` of src/xpn_server/xpn_server_ops.c makes of a file.
use mathlib.Core.List.{append_assoc}
use xpn.Prelude.{
  ℕ, zero, suc, ◌+◌, ◌-◌, ◌<◌, ◌≤◌, ◌≡◌, sym, ap, ◌∙◌, false, some, List, [], ◌++◌, ltb, ◌==◌,
  length, length-append, length-take, length-drop, length-replicate, take, drop, replicate,
  take-append_left, take-append-drop, inl, inr, Bool-cases, arith, ltb-zero, ltb→lt, subst,
  drop_over, take_over,
}
use xpn.Prelude.Int.{ℤ, pos}
use xpn.Policy.Grouping.{Bytes}
use xpn.Policy.Grouping.Gather.{drop-drop, drop-append_left}
use xpn.Protocol.{RwMsg, Token, raw, take_bytes-take}
use xpn.Server.{Host}
use xpn.Server.Transfer.{write_loop, round_size, buffer_size}
use xpn.Server.Transfer.Frames.{round_size_le, round_size_positive}

-- A file with `bs` written at `at`; a gap before it is filled with zeros.
abbrev pub overwrite : (at : ℕ) (bs content : Bytes) → Bytes
overwrite at bs content =
    take at (content ++ replicate at 0) ++ (bs ++ drop (at + length bs) content)

-- What is documented of `lseek`, `write`, `fsync` and `close` on a descriptor of a regular file with
-- room for what is written: they succeed, and a write writes all of it. `Inv content s` says that in
-- the state `s` the file has this content.
pub record Writable {S : Type 0} (h : Host S) (fd : ℤ) (Inv : Bytes → S → Type 0) : Type 0 where
  pub seeks : (content : Bytes) (s : S) (o : ℕ) → Inv content s → (h.lseek s fd o).1 ≡ pos o
  pub writes :
      (content : Bytes) (s : S) (o : ℕ) (bs : Bytes)
      → Inv content s
      → (s' : S) × (h.write (h.lseek s fd o).0 fd bs ≡ (s', some (length bs)))
        × Inv (overwrite o bs content) s'
  pub fsyncs : (content : Bytes) (s : S) → Inv content s → Inv content (h.fsync s fd)
  pub closes : (content : Bytes) (s : S) → Inv content s → Inv content (h.close s fd).0

length-front : (at : ℕ) (content : Bytes) → length (take at (content ++ replicate at 0)) ≡ at
length-front at content = omega (
  arith,
  length-take at (content ++ replicate at 0),
  length-append content (replicate at 0),
  length-replicate {A = ℕ} at 0,
)

take_two :
    (n : ℕ) (p a r z : Bytes) → length p + length a ≡ n → take n ((p ++ (a ++ r)) ++ z) ≡ p ++ a
take_two n p a r z e =
    ap (take n) (ap (λ t. t ++ z) (sym (append_assoc p a r)) ∙ append_assoc (p ++ a) r z)
    ∙ rw (let k : n ≡ length (p ++ a) = omega (arith, length-append p a) in k)
        (take-append_left (p ++ a) (r ++ z))

drop_two :
    (n k : ℕ) (p a r : Bytes) → length p + length a ≡ n → drop (n + k) (p ++ (a ++ r)) ≡ drop k r
drop_two n k p a r e =
    ap (drop (n + k)) (sym (append_assoc p a r))
    ∙ rw (let t : n ≡ length (p ++ a) = omega (arith, length-append p a) in t)
        (drop-append_left (p ++ a) r k)

-- What is written behind a write is written with it.
pub overwrite-append :
    (at : ℕ) (a b content : Bytes)
    → overwrite (at + length a) b (overwrite at a content) ≡ overwrite at (a ++ b) content
overwrite-append at a b content =
    let p = take at (content ++ replicate at 0) in
    let r = drop (at + length a) content in
    let e : length p + length a ≡ at + length a = omega (arith, length-front at content) in
    rw (
      take_two (at + length a) p a r (replicate (at + length a) 0) e,
      drop_two (at + length a) (length b) p a r e,
      drop-drop (at + length a) (length b) content,
      length-append a b,
      (let t : (at + length a) + length b ≡ at + (length a + length b) = omega arith in t),
      append_assoc p a (b ++ drop (at + (length a + length b)) content),
      append_assoc a b (drop (at + (length a + length b)) content),
    )

pub none_left : (n : ℕ) → ltb 0 n ≡ false → n ≡ 0
none_left n h = ground arith

pub is_nonzero : (n : ℕ) → 0 < n → (n == 0) ≡ false
is_nonzero n h = ground arith

module _ {S : Type 0} (h : Host S) where
  -- The loop takes what is left of the data from the stream and writes it.
  pub write_loop-overwrite :
      (Inv : Bytes → S → Type 0) (m : RwMsg) (fd : ℤ) (fuel cont : ℕ) (size : ℤ) (s : S)
      (out : List Token) (content rest : Bytes)
      → Writable h fd Inv
      → Inv content s
      → cont + length rest ≡ m.size
      → 0 < length rest
      → length rest < fuel
      → (s' : S) × (write_loop h m fd fuel cont size
            (record { host = s; incoming = raw rest; outgoing = out })
          ≡ some (record { host = s'; incoming = []; outgoing = out }, pos m.size, pos 0))
        × Inv (overwrite (m.offset + cont) rest content) s'
  unfolding write_loop
  write_loop-overwrite Inv m fd zero cont size s out content rest law inv e some_left lt =
      absurd (omega arith)
  write_loop-overwrite Inv m fd (suc fuel) cont size s out content rest law inv e some_left lt =
      let at = m.offset + cont in
      let n = round_size (buffer_size m.size) (m.size - cont) in
      let bs = take n rest in
      let le : n ≤ length rest = omega (arith, round_size_le m.size (m.size - cont)) in
      let positive : 0 < n =
        round_size_positive m.size (m.size - cont) (omega arith) (omega arith) in
      let len : length bs ≡ n = omega (arith, length-take n rest) in
      let (s1, wrote, inv1) = law.writes content s at bs inv in
      let nonzero : (length bs == 0) ≡ false = is_nonzero (length bs) (omega arith) in
      elim (Bool-cases (ltb 0 (m.size - (cont + length bs)))) [
        | inl more ↦
            let (s2, run, inv2) =
              write_loop-overwrite Inv m fd fuel (cont + length bs) (pos (length bs)) s1 out
                (overwrite at bs content) (drop n rest) law inv1 (omega (arith, length-drop n rest))
                (omega (arith, length-drop n rest, ltb→lt 0 (m.size - (cont + length bs)) more))
                (omega (arith, length-drop n rest)) in
            (
              s2,
              rw (
                take_bytes-take n rest le,
                law.seeks content s at inv,
                ltb-zero at,
                wrote,
                more,
                nonzero,
                run,
              ),
              subst (λ c. Inv c s2)
                  ((ap (λ k. overwrite k (drop n rest) (overwrite at bs content)) (omega arith)
                    ∙ overwrite-append at bs (drop n rest) content
                    ∙ ap (λ r. overwrite at r content) (take-append-drop n rest)))
                  inv2,
            )
        | inr done ↦
            let all : length rest ≤ n =
              omega (arith, none_left (m.size - (cont + length bs)) done) in
            (
              s1,
              rw (
                take_bytes-take n rest le,
                law.seeks content s at inv,
                ltb-zero at,
                wrote,
                done,
                drop_over n rest all,
                (let t : cont + length bs ≡ m.size = omega arith in t),
              ),
              subst (λ c. Inv (overwrite at c content) s1) (take_over n rest all) inv1,
            )
      ]
