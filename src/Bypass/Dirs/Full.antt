-- ===== src/Bypass/Dirs/Full.antt =====
-- A full table of directories in src/bypass/xpn_bypass.c.
use xpn.Prelude.{
  ◌+◌, ◌≤◌, ◌≡◌, refl, none, some, List, ◌++◌, arith, get_elem?, get_elem?-none, length,
  length-append, length-replicate, replicate, drop,
}
use xpn.Prelude.Int.{ℤ, pos}
use xpn.Bypass.{Env, Sys}
use xpn.Bypass.Fds.{entries}
use xpn.Bypass.Init.{fdsdirtable_realloc, fdsdirtable_grown}
use xpn.Bypass.Dirs.{find_dir, put_found_dir, fdsdirtable_put}

module _ {S : Type 0} (env : Env S) (w : Sys S) (dirs : List ℤ) where
  -- A directory is opened while the table of directories has no free entry left, and the table of
  -- descriptors is at least twice as large. Then `fdsdirtable_put` reads outside of the table that it
  -- has made larger, since it takes the size of the table of descriptors for the old size.
  pub fdsdirtable_put-out_of_table :
      (dir : ℤ)
      → find_dir (pos 0) (drop w.fdsdirtable_first_free dirs) w.fdsdirtable_first_free ≡ none
      → length dirs + length dirs ≤ length (entries w.fdstable)
      → fdsdirtable_put env dir (record w { fdsdirtable = some dirs }) ≡ none
  unfolding fdsdirtable_put put_found_dir fdsdirtable_realloc fdsdirtable_grown
  fdsdirtable_put-out_of_table dir full larger =
      let beyond : get_elem? (dirs ++ replicate (length dirs) (pos 0)) (length (entries w.fdstable))
          ≡ none =
        get_elem?-none (dirs ++ replicate (length dirs) (pos 0)) (length (entries w.fdstable)) (
          omega (
            arith,
            length-append dirs (replicate (length dirs) (pos 0)),
            length-replicate (length dirs) (pos 0),
          )) in
      rw (full, beyond) refl
