-- ===== src/Base/WorkersPool.antt =====
-- The pool of worker threads, src/base/workers_pool.c: the ring of operations that the threads
-- share. Each function is what it does while it holds `m_pool`; a `none` says that it waits, for
-- room or for an operation.
pub mod Ring
pub mod Fifo
mod Tests
use xpn.Prelude.{
  ℕ, ◌+◌, ◌-◌, ◌%◌, Bool, true, false, ◌||◌, Option, none, some, List, [], ◌∷◌, ◌++◌, ◌==◌,
  if◌then◌else◌, get_elem?, set, replicate, ◌>>=◌,
}

-- MAX_OPERATIONS
abbrev pub max_operations : ℕ
max_operations = 1024

-- TH_FINALIZE
abbrev pub finalize : ℕ
finalize = 200

-- What is read of `struct st_th`; `v` is the address of the original, and `function` a number.
pub record Th : Type 0 where
  pub id : ℕ
  pub type_op : ℕ
  pub function : ℕ
  pub v : ℕ

-- The queue of `worker_pool_t`, with the counter `th_cont` of `worker_pool_enqueue`.
pub record Pool : Type 0 where
  pub operations_buffer : List Th
  pub n_operation : ℕ
  pub deq_pos : ℕ
  pub enq_pos : ℕ
  pub pool_end : Bool
  pub th_cont : ℕ

-- The queue variables that `worker_pool_init` sets; `junk` is what the buffer holds before.
unfoldable pub pool_init : (junk : Th) (th_cont : ℕ) → Pool
pool_init junk th_cont = record {
  operations_buffer = replicate max_operations junk;
  n_operation = 0;
  deq_pos = 0;
  enq_pos = 0;
  pool_end = false;
  th_cont = th_cont;
}

-- `th_arg` as it is copied into the buffer; `at` is its address.
abbrev pub prepared : Pool → Th → (at worker_function : ℕ) → Th
prepared w th_arg at worker_function = record th_arg {
  id = w.th_cont;
  function = worker_function;
  v = at;
}

-- `worker_pool_enqueue`
unfoldable pub pool_enqueue : Pool → Th → (at worker_function : ℕ) → Option Pool
pool_enqueue w th_arg at worker_function =
    if w.n_operation == max_operations
    then none
    else some (record w {
      operations_buffer = set w.operations_buffer w.enq_pos (prepared w th_arg at worker_function);
      enq_pos = (w.enq_pos + 1) % max_operations;
      n_operation = w.n_operation + 1;
      th_cont = w.th_cont + 1;
    })

-- `worker_pool_dequeue`, with the operation that was taken; the flag says that the thread ends and
-- does not carry it out.
unfoldable pub pool_dequeue : Pool → Option (Pool × Th × Bool)
pool_dequeue w =
    let taken = get_elem? w.operations_buffer w.deq_pos >>= λ th. some (
      record w { deq_pos = (w.deq_pos + 1) % max_operations; n_operation = w.n_operation - 1 },
      th,
      w.pool_end || (th.type_op == finalize),
    ) in
    if w.n_operation == 0 then none else taken

-- `worker_pool_destroy` up to the first `worker_pool_enqueue`.
abbrev pub pool_close : Pool → Pool
pool_close w = record w { pool_end = true }
