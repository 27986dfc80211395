-- ===== src/Client/Rw/Ends.antt =====
-- `xpn_swrite` comes to an end.
use xpn.Prelude.{
  ℕ, zero, suc, ◌+◌, ◌-◌, ◌≤◌, ◌<◌, ◌≡◌, refl, Bool, true, false, not, Option, some, arith, ltb,
  if◌then◌else◌, get_elem?_total, Bool-cases, inl, inr, ltb→lt, take, drop, ◌==◌,
}
use xpn.Prelude.Int.{ℤ, pos, negsuc, lt_ℤ, le_ℤ, ◌+ℤ◌}
use xpn.Policy.Block.{Placement}
use xpn.Policy.Transfer.{File, error_at, has_failed, chunk, write_get_block}
use xpn.Policy.Transfer.Placed.{Placed}
use xpn.Policy.Grouping.{Bytes}
use xpn.Client.Rw.{
  Filedesc, Nfi, Round, wrote, no_handle, failed, behind_header, swrite_replicas, swrite_loop,
  swrite, swrite_end,
}

-- There is a result.
abbrev pub Defined : {A : Type 0} → Option A → Type 0
Defined {A} o = (a : A) × (o ≡ some a)

if-Defined :
    {A : Type 0} (b : Bool) {x y : Option A} → Defined x → Defined y → Defined (if b then x else y)
if-Defined true x y = x
if-Defined false x y = y

module _ {S : Type 0} (nfi : Nfi S) (f : File) (n : ℕ) (local serv : (off rep : ℕ) → ℕ)
    (pl : Placed f n local serv) (buffer : Bytes) (size offset : ℕ) where
  swrite_replicas-Defined :
      (count k i : ℕ) (res : ℤ) (st : S) (out : Placement)
      → i + k ≤ f.replication_level + 1
      → Defined (swrite_replicas nfi f size offset buffer count k i res st out)
  unfolding swrite_replicas write_get_block error_at
  swrite_replicas-Defined count zero i res st out h = ((wrote res, st, out), refl)
  swrite_replicas-Defined count (suc k) i res st out h =
      let p : Placement = record {
        local_offset = pos (local (offset + count) i);
        serv = pos (serv (offset + count) i);
      } in
      let (e, at) =
        get_elem?_total f.errors (serv (offset + count) i)
          (omega (arith, pl.in_range (offset + count) i (omega arith), pl.known)) in
      let l_size = chunk f.block_size (offset + count) (size - count) in
      let w = nfi.nfi_write st p.serv (behind_header p) (take l_size (drop count buffer)) in
      rw (pl.settled (offset + count) i out (omega arith), at)
        (if-Defined (has_failed e) (swrite_replicas-Defined count k (i + 1) res st p (omega arith))
          (if-Defined (not (nfi.handle p.serv)) ((no_handle, st, p), refl)
            (if-Defined (lt_ℤ w.1 (pos 0)) ((failed, w.0, p), refl)
              (swrite_replicas-Defined count k (i + 1) w.1 w.0 p (omega arith)))))

  after_round :
      (fuel count : ℕ) (res : ℤ) (st : S) (out : Placement) (round : Round) (st' : S)
      (p : Placement)
      → size < count + suc fuel
      → ((c : ℕ) (r : ℤ) (st : S) (out : Placement)
          → size < c + fuel
          → 0 < fuel
          → Defined (swrite_loop nfi f size offset buffer fuel c r st out))
      → swrite_replicas nfi f size offset buffer count (f.replication_level + 1) 0 res st out
        ≡ some (round, st', p)
      → Defined (swrite_loop nfi f size offset buffer (suc fuel) count res st out)
  unfolding swrite_loop
  after_round fuel count res st out no_handle st' p h ih e = rw e ((negsuc 0, st'), refl)
  after_round fuel count res st out failed st' p h ih e =
      rw e ((if count == 0 then negsuc 0 else pos count, st'), refl)
  after_round fuel count res st out (wrote (negsuc r)) st' p h ih e =
      rw e ((pos count +ℤ negsuc r, st'), refl)
  after_round fuel count res st out (wrote (pos r)) st' p h ih e =
      rw e (elim (Bool-cases (ltb (count + r) size)) [
        | inr last ↦ rw last ((pos (count + r), st'), refl)
        | inl left ↦ elim (Bool-cases (ltb 0 r)) [
          | inr stopped ↦ rw (left, stopped) ((pos (count + r), st'), refl)
          | inl some_bytes ↦
              rw (left, some_bytes)
                (ih (count + r) (pos r) st' p (omega (arith, ltb→lt 0 r some_bytes))
                  (omega (arith, ltb→lt (count + r) size left, ltb→lt 0 r some_bytes)))
        ]
      ])

  swrite_loop-Defined :
      (fuel count : ℕ) (res : ℤ) (st : S) (out : Placement)
      → size < count + fuel
      → 0 < fuel
      → Defined (swrite_loop nfi f size offset buffer fuel count res st out)
  swrite_loop-Defined zero count res st out h some_fuel = absurd (omega arith)
  swrite_loop-Defined (suc fuel) count res st out h some_fuel =
      let ((round, st', p), e) =
        swrite_replicas-Defined count (f.replication_level + 1) 0 res st out (omega arith) in
      after_round fuel count res st out round st' p h (swrite_loop-Defined fuel) e

-- On a file with a settled placement, `xpn_swrite` ends with a result and stays within its bounds,
-- whatever the servers answer.
pub swrite-Defined :
    {S : Type 0} (nfi : Nfi S) (servers : ℤ) (st : S) (d : Filedesc) (n : ℕ)
    (local serv : (off rep : ℕ) → ℕ)
    → Placed d.file n local serv
    → (buffer : Bytes) (size offset : ℕ) (out : Placement)
    → Defined (swrite nfi servers st d buffer size offset out)
unfolding swrite
swrite-Defined nfi servers st d n local serv pl buffer size offset out =
    let ((count, st'), e) =
      swrite_loop-Defined nfi d.file n local serv pl buffer size offset (size + 1) 0 (negsuc 0) st
        out (omega arith) (omega arith) in
    let (st1, d1) = swrite_end nfi count st' d in
    rw e (if-Defined (le_ℤ servers (pos 0)) ((negsuc 0, st, d), refl) ((count, st1, d1), refl))
