-- ===== src/Client/Open/Outcomes.antt =====
-- What `xpn_internal_open` does to the table of open files.
use xpn.Prelude.{
  ℕ, ◌-◌, ◌≡◌, ◌⊎◌, take, true, false, Option, some, List, [], ◌∷◌, ◌++◌, length, set,
}
use xpn.Prelude.Int.{ℤ, pos, lt_ℤ}
use xpn.Metadata.{Metadata}
use xpn.Client.Files.{Desc, Files, free_slot}
use xpn.Base.Hash.{path_max}
use xpn.Client.Open.{Opening}

-- The result of an open that has read the metadata: for a directory nothing is read.
abbrev pub ReadResult : {S : Type 0} → Opening S → (pd : ℕ) (path : List ℕ) → S → ℤ → Type 0
ReadResult env pd path s r = (r ≡ pos 0) ⊎ (r ≡ (env.read_metadata pd path s).1)

-- How an open ends, where `o` is the partition and the path that the name stands for. A file was
-- opened: the first free entry points to a new description with one link, of this path in this
-- partition and these flags, and its number is the result. Or the table is what it was, and the result
-- is negative, or one of three that can be a number: 0 for a partition without servers and without
-- memory for the metadata, and the result of the reading of the metadata without memory for the
-- handles.
pub data Opened {S : Type 0} (env : Opening S) (o : Option (ℕ × List ℕ)) (flags mode : ℕ) (s : S)
    (heap : List (Option Desc)) (table : List (Option ℕ)) (w' : Files S) (r : ℤ) : Type 0 where
  opened :
      (pd : ℕ) (path : List ℕ) (d : Desc)
      → o ≡ some (pd, path)
      → d.part ≡ pd
      → d.path ≡ take (path_max - 1) path
      → d.links ≡ pos 1
      → d.flags ≡ flags
      → d.mode ≡ mode
      → r ≡ pos (free_slot table 0)
      → w'.heap ≡ heap ++ some d ∷ []
      → w'.table ≡ set table (free_slot table 0) (some (length heap))
      → Opened env o flags mode s heap table w' r
  failed :
      lt_ℤ r (pos 0) ≡ true
      → w'.heap ≡ heap
      → w'.table ≡ table
      → Opened env o flags mode s heap table w' r
  without_servers :
      (pd : ℕ) (path : List ℕ)
      → o ≡ some (pd, path)
      → env.get_servers pd ≡ 0
      → r ≡ pos 0
      → w'.heap ≡ heap
      → w'.table ≡ table
      → Opened env o flags mode s heap table w' r
  without_mdata :
      (pd : ℕ) (path : List ℕ)
      → o ≡ some (pd, path)
      → env.memory.mdata ≡ false
      → r ≡ pos 0
      → w'.heap ≡ heap
      → w'.table ≡ table
      → Opened env o flags mode s heap table w' r
  without_vfh :
      (pd : ℕ) (path : List ℕ)
      → o ≡ some (pd, path)
      → env.memory.vfh ≡ false
      → ReadResult env pd path s r
      → w'.heap ≡ heap
      → w'.table ≡ table
      → Opened env o flags mode s heap table w' r
