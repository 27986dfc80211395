-- ===== src/Client/Rw/Lost.antt =====
-- Chunks that no server takes.
use xpn.Prelude.{ℕ, zero, suc, ◌+◌, ◌≤◌, ◌≡◌, refl, false, some, arith, ltb}
use xpn.Prelude.Int.{ℤ, pos, negsuc}
use xpn.Policy.Block.{Placement}
use xpn.Policy.Transfer.{File, error_at, write_get_block}
use xpn.Policy.Transfer.Placed.{Placed}
use xpn.Policy.Grouping.{Bytes}
use xpn.Client.Rw.{Nfi, wrote, swrite_replicas, swrite_loop}

module _ {S : Type 0} (nfi : Nfi S) (st : S) (f : File) (n : ℕ) (local serv : (off rep : ℕ) → ℕ)
    (pl : Placed f n local serv) (buffer : Bytes) (size offset : ℕ) where
  -- Every server that has a replica of this byte of the file has failed.
  abbrev pub AllFailed : ℕ → Type 0
  AllFailed off =
      (rep : ℕ) → rep ≤ f.replication_level → error_at f (pos (serv off rep)) ≡ some (negsuc 0)

  swrite_replicas_lost :
      (count k i : ℕ) (res : ℤ) (out : Placement)
      → i + k ≤ f.replication_level + 1
      → AllFailed (offset + count)
      → (out' : Placement) × (swrite_replicas nfi f size offset buffer count k i res st out
          ≡ some (wrote res, st, out'))
  unfolding swrite_replicas write_get_block
  swrite_replicas_lost count zero i res out h lost = (out, refl)
  swrite_replicas_lost count (suc k) i res out h lost =
      let p : Placement = record {
        local_offset = pos (local (offset + count) i);
        serv = pos (serv (offset + count) i);
      } in
      let (out', e) = swrite_replicas_lost count k (i + 1) res p (omega arith) lost in
      (out', rw (pl.settled (offset + count) i out (omega arith), lost i (omega arith)) e)

  -- `xpn_swrite` on a file with a settled placement, in a round after one that wrote `r` bytes: when
  -- every server with a replica of the next chunk has failed and `r` bytes end the request, these
  -- are added to the count and returned, with the servers as they were.
  pub swrite_loop_lost :
      (fuel count r : ℕ) (out : Placement)
      → AllFailed (offset + count)
      → size ≤ count + r
      → swrite_loop nfi f size offset buffer (suc fuel) count (pos r) st out
        ≡ some (pos (count + r), st)
  unfolding swrite_loop
  swrite_loop_lost fuel count r out lost ends =
      let (out', e) =
        swrite_replicas_lost count (f.replication_level + 1) 0 (pos r) out (omega arith) lost in
      rw (e, (let t : ltb (count + r) size ≡ false = ground arith in t))
