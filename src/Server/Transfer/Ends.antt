-- ===== src/Server/Transfer/Ends.antt =====
-- The loops of `xpn_server_op_read` and `xpn_server_op_write` of src/xpn_server/xpn_server_ops.c
-- come to an end, whatever the file system does.
use xpn.Prelude.{
  sym, List, some_ne_none, ℕ, zero, suc, ◌+◌, ◌-◌, ◌<◌, ◌≡◌, refl, Bool, true, false, not, ◌&&◌,
  Option, none, some, ltb, leb, ◌==◌, if◌then◌else◌, length, arith, ◌^◌, ◌>>=◌,
}
use xpn.Prelude.Int.{ℤ, pos, negsuc, eq_ℤ, lt_ℤ}
use xpn.Policy.Grouping.{Bytes}
use xpn.Protocol.{Token, RwMsg, take_bytes, path_max}
use xpn.Server.{Host, World, read_path}
use xpn.Server.Transfer.{
  read_loop, after_read, op_read, write_loop, op_write, read_guarded, write_guarded, round_size,
  buffer_size, Written, after_write, after_receive,
}

-- A computation that has a result.
abbrev pub Ends : {A : Type 0} → Option A → Type 0
Ends {A = A} o = (a : A) × (o ≡ some a)

Ends-if : {A : Type 0} (b : Bool) (x y : Option A) → Ends x → Ends y → Ends (if b then x else y)
Ends-if true x y ex ey = ex
Ends-if false x y ex ey = ey

-- A round that another one follows made progress.
pub more_left :
    (size cont n fuel : ℕ)
    → size - cont < suc fuel
    → (ltb 0 (size - (cont + n)) && not (n == 0)) ≡ true
    → size - (cont + n) < fuel
more_left size cont n fuel h e = ground arith

Ends-if_more :
    {A : Type 0} (b : Bool) (x : Option A) (a : A)
    → (b ≡ true → Ends x)
    → Ends (if b then x else some a)
Ends-if_more true x a ex = ex refl
Ends-if_more false x a ex = (a, refl)

Ends-bind :
    {A B : Type 0} (o : Option A) (f : A → Option B)
    → Ends o
    → ((a : A) → Ends (f a))
    → Ends (o >>= f)
Ends-bind none f (a, e) k = absurd (some_ne_none (sym e))
Ends-bind (some b) f (a, e) k = k b

module _ {S : Type 0} (h : Host S) where
  after_read-Ends :
      (w : World S) (s : S) (r : ℤ) (got : Option Bytes) (next : Bytes → World S → Option (World S))
      → ((bs : Bytes) (w1 : World S) → Ends (next bs w1))
      → Ends (after_read h w s r got next)
  after_read-Ends w s r none next k = (_, refl)
  after_read-Ends w s r (some bs) next k = Ends-if (eq_ℤ r (negsuc 0)) _ _ (_, refl) (k bs _)

  read_loop-Ends :
      (m : RwMsg) (fd : ℤ) (fuel cont : ℕ) (r : ℤ) (w : World S)
      → m.size - cont < fuel
      → Ends (read_loop h m fd fuel cont r w)
  unfolding read_loop
  read_loop-Ends m fd zero cont r w lt = absurd (omega arith)
  read_loop-Ends m fd (suc fuel) cont r w lt =
      Ends-if _ _ _ (_, refl)
        (after_read-Ends w _ r _ _ λ bs w1.
          Ends-if_more (ltb 0 (m.size - (cont + length bs)) && not (length bs == 0)) _ w1 λ e.
            read_loop-Ends m fd fuel (cont + length bs) (pos 0) w1
              (more_left m.size cont (length bs) fuel lt e))

  after_write-Ends :
      (w : World S) (size : ℤ) (put : Option ℕ) (next : ℕ → Option (Written h))
      → ((n : ℕ) → Ends (next n))
      → Ends (after_write h w size put next)
  after_write-Ends w size none next k = (_, refl)
  after_write-Ends w size (some n) next k = k n

  after_receive-Ends :
      (w : World S) (size : ℤ) (got : Option (Bytes × List Token))
      (next : Bytes → World S → Option (Written h))
      → ((bs : Bytes) (w1 : World S) → Ends (next bs w1))
      → Ends (after_receive h w size got next)
  after_receive-Ends w size none next k = (_, refl)
  after_receive-Ends w size (some (bs, ts)) next k = k bs _

  write_loop-Ends :
      (m : RwMsg) (fd : ℤ) (fuel cont : ℕ) (size : ℤ) (w : World S)
      → m.size - cont < fuel
      → Ends (write_loop h m fd fuel cont size w)
  unfolding write_loop
  write_loop-Ends m fd zero cont size w lt = absurd (omega arith)
  write_loop-Ends m fd (suc fuel) cont size w lt =
      after_receive-Ends w size
        (take_bytes (round_size (buffer_size m.size) (m.size - cont)) w.incoming) _
        λ bs w1.
          let s1 = (h.lseek w1.host fd (m.offset + cont)).0 in
          let w2 = record w1 { host = (h.write s1 fd bs).0 } in
          Ends-if _ _ _ (_, refl)
            (after_write-Ends w2 size (h.write s1 fd bs).1 _ λ n.
              Ends-if_more (ltb 0 (m.size - (cont + n)) && not (n == 0)) _ _ λ e.
                write_loop-Ends m fd fuel (cont + n) (pos n) w2 (more_left m.size cont n fuel lt e))

  read_path-Ends : (w : World S) (n : ℕ) (path : Bytes) → n < path_max → Ends (read_path w n path)
  unfolding read_path
  read_path-Ends w n path lt = rw (fits) (Ends-if _ _ _ (_, refl) (_, refl))
    where
      fits : leb path_max n ≡ false
      fits = ground arith

  read_guarded-Ends : (r : ℤ) (w : World S) (m : RwMsg) (fd : ℤ) → Ends (read_guarded h r w m fd)
  unfolding read_guarded
  read_guarded-Ends r w m fd =
      Ends-if (lt_ℤ fd (pos 0)) _ _ (_, refl)
        (Ends-if (not (h.malloc w.host (buffer_size m.size))) _ _ (_, refl)
          (read_loop-Ends m fd (m.size + 1) 0 r w (omega arith)))

  write_guarded-Ends :
      (size : ℤ) (w : World S) (m : RwMsg) (fd : ℤ) → Ends (write_guarded h size w m fd)
  unfolding write_guarded
  write_guarded-Ends size w m fd =
      Ends-if (lt_ℤ fd (pos 0)) _ _ (_, refl)
        (Ends-if (not (h.malloc w.host (buffer_size m.size))) _ _ (_, refl)
          (write_loop-Ends m fd (m.size + 1) 0 size w (omega arith)))

  -- `xpn_server_op_read` comes to an end for every request with a path that is shorter than
  -- PATH_MAX, whatever the file system answers: its loop goes on only after a round that read
  -- something, so that one round more than the size is enough.
  pub op_read-Ends :
      (r : ℤ) (w : World S) (m : RwMsg) → m.path_len < path_max → Ends (op_read h r w m)
  unfolding op_read
  op_read-Ends r w m lt =
      Ends-bind (read_path w m.path_len m.path) _ (read_path-Ends w m.path_len m.path lt)
        λ (full_path, w1).
          Ends-bind (read_guarded h r _ m _) _ (read_guarded-Ends r _ m _) λ w2. (_, refl)

  -- `xpn_server_op_write` comes to an end for every request of less than 2^31 bytes with a path that
  -- is shorter than PATH_MAX, whatever the file system answers and whatever arrives.
  pub op_write-Ends :
      (size : ℤ) (w : World S) (m : RwMsg)
      → m.path_len < path_max
      → m.size < 2 ^ 31
      → Ends (op_write h size w m)
  unfolding op_write
  op_write-Ends size w m lt small = rw fits (
      Ends-if _ _ _ (_, refl)
        (Ends-bind (read_path w m.path_len m.path) _ (read_path-Ends w m.path_len m.path lt)
          λ (full_path, w1).
            Ends-bind (write_guarded h size _ m _) _ (write_guarded-Ends size _ m _)
              λ w2. (_, refl)))
    where
      fits : leb (2 ^ 31) m.size ≡ false
      fits = ground arith
