-- ===== src/Policy/Transfer/Plain.antt =====
-- A file whose servers were never changed has a settled placement.
use native.Mathlib.Nat.{mod-lt}
use xpn.Prelude.{ℕ, ◌+◌, ◌*◌, ◌/◌, ◌%◌, ◌≤◌, ◌<◌, ◌≡◌, refl, arith, length}
use xpn.Prelude.Int.{pos}
use xpn.Prelude.Euclid.{div_of_block, mod_of_block}
use xpn.Metadata.{nserv_at}
use xpn.Policy.Block.RoundTrip.{calculate_block_parts}
use xpn.Policy.Reconfigure.{calculate_block_mdata}
use xpn.Policy.Transfer.{File}
use xpn.Policy.Transfer.Placed.{Placed}

-- The file has blocks of `bs` bytes on `n` servers, and a failed server is noted for each.
pub record IsPlain (f : File) (bs n fn : ℕ) : Type 0 where
  pub block : f.block_size ≡ bs
  pub block_pos : 0 < bs
  pub mdata_block : f.mdata.block_size ≡ pos bs
  pub mdata_level : f.mdata.replication_level ≡ pos f.replication_level
  pub mdata_first : f.mdata.first_node ≡ pos fn
  pub servers : nserv_at f.mdata 0 ≡ pos n
  pub servers_pos : 0 < n
  pub unchanged : nserv_at f.mdata 1 ≡ pos 0
  pub known : n ≤ length f.errors

module _ (f : File) (bs n fn : ℕ) where
  abbrev pub local : (off rep : ℕ) → ℕ
  local off rep = (off / bs * (f.replication_level + 1) + rep) / n * bs + off % bs

  abbrev pub serv : (off rep : ℕ) → ℕ
  serv off rep = (off / bs * (f.replication_level + 1) + rep + fn) % n

  pub IsPlain-Placed : IsPlain f bs n fn → Placed f n local serv
  unfolding calculate_block_mdata
  IsPlain-Placed h = record {
    block_pos = omega arith;
    settled = λ off rep out hr.
        rw (h.unchanged, h.servers, h.mdata_block, h.mdata_level, h.mdata_first)
          (calculate_block_parts bs f.replication_level n off rep fn);
    in_range = λ off rep hr. mod-lt (off / bs * (f.replication_level + 1) + rep + fn) h.servers_pos;
    known = h.known;
    together = λ off rep k hr fits.
        let fit : off % bs + k < bs = rw h.block at fits in
        rw (div_of_block off k bs fit, mod_of_block off k bs fit) (omega arith, refl);
  }
