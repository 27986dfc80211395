-- ===== src/Base/WorkersPool/Fifo.antt =====
-- Any run of the threads: their critical sections, one after the other in some order.
use xpn.Prelude.{
  some_injective, ℕ, ◌≡◌, refl, sym, ap, subst, ◌∙◌, Bool, some, List, [], ◌∷◌, ◌++◌, inl, inr,
}
use mathlib.Core.List.{append_assoc}
use xpn.Base.WorkersPool.{Th, Pool, pool_init, prepared, pool_enqueue, pool_dequeue, pool_close}
use xpn.Base.WorkersPool.Ring.{
  IsQueue, pool_init-IsQueue, pool_enqueue-IsQueue, pool_dequeue-empty, pool_dequeue-IsQueue,
}

-- The runs from a new pool, with the operations that went in and those that came out, in order.
-- A thread that waits takes no step.
pub data Run (junk : Th) (th_cont : ℕ) : List Th → List Th → Pool → Type 0 where
  start : Run junk th_cont [] [] (pool_init junk th_cont)
  enqueue :
      {ins outs : List Th} {w : Pool} (w' : Pool) (th_arg : Th) (at worker_function : ℕ)
      → Run junk th_cont ins outs w
      → pool_enqueue w th_arg at worker_function ≡ some w'
      → Run junk th_cont (ins ++ prepared w th_arg at worker_function ∷ []) outs w'
  dequeue :
      {ins outs : List Th} {w : Pool} (w' : Pool) (t : Th) (ends : Bool)
      → Run junk th_cont ins outs w
      → pool_dequeue w ≡ some (w', t, ends)
      → Run junk th_cont ins (outs ++ t ∷ []) w'
  close :
      {ins outs : List Th} {w : Pool}
      → Run junk th_cont ins outs w
      → Run junk th_cont ins outs (pool_close w)

dequeued :
    (w w' : Pool) (t : Th) (ends : Bool) (q : List Th)
    → IsQueue w q
    → pool_dequeue w ≡ some (w', t, ends)
    → (q' : List Th) × IsQueue w' q' × (q ≡ t ∷ q')
dequeued w w' t ends [] h e = absurd (cc (pool_dequeue-empty w h, e))
dequeued w w' t ends (t0 ∷ q) h e =
    let (w1, e1, h1) = pool_dequeue-IsQueue w t0 q h in
    let same = some_injective (sym e1 ∙ e) in
    (q, subst (λ x. IsQueue x q) (ap (λ x. x.0) same) h1, ap (λ x. x.1 ∷ q) same)

-- In each order of the steps, the operations come out in the order in which they went in: those
-- that came out, followed by those that the pool holds, are those that went in.
pub Run-fifo :
    (junk : Th) (th_cont : ℕ) (ins outs : List Th) (w : Pool)
    → Run junk th_cont ins outs w
    → (q : List Th) × IsQueue w q × (ins ≡ outs ++ q)
Run-fifo junk th_cont _ _ _ start = ([], pool_init-IsQueue junk th_cont, refl)
Run-fifo junk th_cont _ outs _ (enqueue {ins = ins0} {w = w0} w th_arg at worker_function r e) =
    let (q, h, eq) = Run-fifo junk th_cont ins0 outs w0 r in
    let t = prepared w0 th_arg at worker_function in
    elim (pool_enqueue-IsQueue w0 q th_arg at worker_function h) [
      | inl (full, waits) ↦ absurd (cc (waits, e))
      | inr (room, (w1, e1, h1)) ↦ (
        q ++ t ∷ [],
        subst (λ x. IsQueue x (q ++ t ∷ [])) (some_injective (sym e1 ∙ e)) h1,
        ap (λ l. l ++ t ∷ []) eq ∙ append_assoc outs q (t ∷ []),
      )
    ]
Run-fifo junk th_cont ins _ _ (dequeue {outs = outs0} {w = w0} w t ends r e) =
    let (q, h, eq) = Run-fifo junk th_cont ins outs0 w0 r in
    let (q', h', taken) = dequeued w0 w t ends q h e in
    (q', h', eq ∙ ap (λ l. outs0 ++ l) taken ∙ sym (append_assoc outs0 (t ∷ []) q'))
Run-fifo junk th_cont ins outs _ (close {w = w0} r) =
    let (q, h, eq) = Run-fifo junk th_cont ins outs w0 r in
    (
      q,
      record {
        counted = h.counted;
        room = h.room;
        size = h.size;
        begins = h.begins;
        ends = h.ends;
        holds = h.holds;
      },
      eq,
    )
