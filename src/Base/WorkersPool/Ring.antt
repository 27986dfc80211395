-- ===== src/Base/WorkersPool/Ring.antt =====
-- The ring as a queue.
use xpn.Prelude.{
  ℕ, ◌+◌, ◌-◌, ◌%◌, ◌≤◌, ◌<◌, ◌≡◌, refl, ◌∙◌, false, ◌||◌, none, some, List, [], ◌∷◌, ◌++◌, arith,
  ◌==◌, get_elem?, get_elem?-set_self, get_elem?-set_ne, set, length, length-set, length-append,
  length-replicate, ◌⊎◌, inl, inr, Bool-cases,
}
use xpn.Base.WorkersPool.{
  max_operations, finalize, Th, Pool, pool_init, prepared, pool_enqueue, pool_dequeue,
}

-- The operations that the ring holds from this position on.
abbrev pub RingFrom : List Th → ℕ → List Th → Type 0
RingFrom buf at [] = Unit
RingFrom buf at (t ∷ q) = (get_elem? buf at ≡ some t) × RingFrom buf ((at + 1) % max_operations) q

-- The pool holds these operations, the next one first.
pub record IsQueue (w : Pool) (q : List Th) : Type 0 where
  pub counted : w.n_operation ≡ length q
  pub room : length q ≤ max_operations
  pub size : length w.operations_buffer ≡ max_operations
  pub begins : w.deq_pos < max_operations
  pub ends : w.enq_pos ≡ (w.deq_pos + length q) % max_operations
  pub holds : RingFrom w.operations_buffer w.deq_pos q

pub pool_init-IsQueue : (junk : Th) (th_cont : ℕ) → IsQueue (pool_init junk th_cont) []
unfolding pool_init
pool_init-IsQueue junk th_cont = record {
  counted = refl;
  room = omega arith;
  size = length-replicate max_operations junk;
  begins = omega arith;
  ends = refl;
  holds = tt;
}

RingFrom-set :
    (buf : List Th) (at i : ℕ) (t : Th) (q : List Th)
    → length buf ≡ max_operations
    → at < max_operations
    → length q < max_operations
    → i ≡ (at + length q) % max_operations
    → RingFrom buf at q
    → RingFrom (set buf i t) at (q ++ t ∷ [])
RingFrom-set buf at i t [] size bound room e h =
    (rw (let same : i ≡ at = omega arith in same) (get_elem?-set_self buf at t (omega arith)), tt)
RingFrom-set buf at i t (s ∷ q) size bound room e h = (
  get_elem?-set_ne buf t (λ same. absurd (omega (arith, same))) ∙ h.0,
  RingFrom-set buf ((at + 1) % max_operations) i t q size (omega arith) (omega arith) (omega arith)
      h.1,
)

-- `worker_pool_enqueue` waits where the pool holds MAX_OPERATIONS operations, and else puts the
-- operation, with its number, its function and its address, behind the others.
pub pool_enqueue-IsQueue :
    (w : Pool) (q : List Th) (th_arg : Th) (at worker_function : ℕ)
    → IsQueue w q
    → ((length q ≡ max_operations) × (pool_enqueue w th_arg at worker_function ≡ none))
      ⊎ ((length q < max_operations)
          × ((w' : Pool) × (pool_enqueue w th_arg at worker_function ≡ some w')
              × IsQueue w' (q ++ prepared w th_arg at worker_function ∷ [])))
unfolding pool_enqueue
pool_enqueue-IsQueue w q th_arg at worker_function h =
    elim (Bool-cases (w.n_operation == max_operations)) [
      | inl full ↦ inl (ground (arith, full, h.counted), rw full)
      | inr some_room ↦
          let room : length q < max_operations = ground (arith, some_room, h.counted, h.room) in
          let t = prepared w th_arg at worker_function in
          inr (
            room,
            (
              record w {
                operations_buffer = set w.operations_buffer w.enq_pos t;
                enq_pos = (w.enq_pos + 1) % max_operations;
                n_operation = w.n_operation + 1;
                th_cont = w.th_cont + 1;
              },
              rw some_room,
              record {
                counted = omega (arith, h.counted, length-append q (t ∷ []));
                room = omega (arith, room, length-append q (t ∷ []));
                size = length-set w.operations_buffer w.enq_pos t ∙ h.size;
                begins = h.begins;
                ends = omega (arith, h.ends, length-append q (t ∷ []));
                holds =
                    RingFrom-set w.operations_buffer w.deq_pos w.enq_pos t q h.size h.begins room
                      h.ends h.holds;
              },
            ),
          )
    ]

-- `worker_pool_dequeue` waits where the pool holds no operation.
pub pool_dequeue-empty : (w : Pool) → IsQueue w [] → pool_dequeue w ≡ none
unfolding pool_dequeue
pool_dequeue-empty w h = rw h.counted

-- `worker_pool_dequeue` takes the operation that was put in first; the thread ends, and does not
-- carry it out, if the pool is closed or the operation is of type TH_FINALIZE.
pub pool_dequeue-IsQueue :
    (w : Pool) (t : Th) (q : List Th)
    → IsQueue w (t ∷ q)
    → (w' : Pool) × (pool_dequeue w ≡ some (w', t, w.pool_end || (t.type_op == finalize)))
      × IsQueue w' q
unfolding pool_dequeue
pool_dequeue-IsQueue w t q h = (
  record w { deq_pos = (w.deq_pos + 1) % max_operations; n_operation = w.n_operation - 1 },
  rw ((let e : (w.n_operation == 0) ≡ false = ground (arith, h.counted) in e), h.holds.0),
  record {
    counted = omega (arith, h.counted);
    room = omega (arith, h.room);
    size = h.size;
    begins = omega (arith, h.begins);
    ends = omega (arith, h.ends);
    holds = h.holds.1;
  },
)
