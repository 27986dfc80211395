-- ===== src/Base/WorkersPool/Tests.antt =====
-- The pool at concrete inputs.
use xpn.Prelude.{◌≡◌, refl, some, List, [], ◌∷◌, ◌++◌, set, arith}
use xpn.Base.WorkersPool.{Th, Pool, pool_init, prepared, pool_enqueue, pool_close}
use xpn.Base.WorkersPool.Ring.{IsQueue}
use xpn.Base.WorkersPool.Fifo.{start, enqueue, close, Run-fifo}

abbrev task : Th
task = record { id = 0; type_op = 3; function = 0; v = 0 }

abbrev fresh : Pool
fresh = pool_init task 0

-- A pool with one operation.
abbrev loaded : Pool
loaded = record fresh {
  operations_buffer = set fresh.operations_buffer 0 (prepared fresh task 77 5);
  enq_pos = 1;
  n_operation = 1;
  th_cont = 1;
}

loaded-IsQueue : IsQueue loaded (prepared fresh task 77 5 ∷ [])
unfolding pool_init
loaded-IsQueue = record {
  counted = refl;
  room = omega arith;
  size = refl;
  begins = omega arith;
  ends = refl;
  holds = (refl, tt);
}

loaded_from_fresh : pool_enqueue fresh task 77 5 ≡ some loaded
unfolding pool_enqueue pool_init
loaded_from_fresh = refl

Run-fifo_example :
    (q : List Th) × IsQueue (pool_close loaded) q
    × (([] ++ prepared fresh task 77 5 ∷ []) ≡ [] ++ q)
Run-fifo_example =
    Run-fifo task 0 ([] ++ prepared fresh task 77 5 ∷ []) [] (pool_close loaded)
      (close (enqueue loaded task 77 5 start loaded_from_fresh))
