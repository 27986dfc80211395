-- ===== src/Client/Open/Tests.antt =====
-- Runs of the table of open files, of opens and of removals, and the theorems about them at inputs
-- that meet their hypotheses.
use xpn.Prelude.{
  ℕ, suc, ◌≡◌, refl, Bool, true, false, ◌&&◌, arith, ◌==◌, Option, none, some, List, [], ◌∷◌,
  if◌then◌else◌, replicate, get_elem?, Bool-cases, inl, inr,
}
use xpn.Base.Hash.{hash}
use xpn.Prelude.Int.{eq_ℤ, ℤ, pos, negsuc}
use xpn.Metadata.{Metadata, magic, max_reconstructions}
use xpn.Policy.Transfer.{File}
use xpn.Policy.Transfer.Plain.{IsPlain, serv}
use xpn.Client.Files.{Desc, Files, init_file_table, search_slot_file, dup, close}
use xpn.Client.Files.Runs.{IsTable, HasFree, Fine}
use xpn.Client.Files.Reached.{Call, search_call, step, Allowed, begin, next, Run-IsTable}
use xpn.Client.Files.Dangling.{close-dup_dangles}
use xpn.Client.Affected.{Servers, internal_remove}
use xpn.Client.Affected.Reach.{IsRecorded, internal_remove-serv}
use xpn.Client.Open.{Opening, internal_open}

-- Blocks of 10 bytes on two servers, without copies.
abbrev two_servers : Metadata
two_servers = record {
  magic_number = magic;
  version = pos 1;
  type = pos 0;
  block_size = pos 10;
  file_size = pos 95;
  replication_level = pos 0;
  first_node = pos 0;
  distribution_policy = pos 1;
  data_nserv = pos 2 ∷ replicate 39 (pos 0);
  offsets = replicate max_reconstructions (pos 0);
}

abbrev spread : File
spread = record {
  replication_level = 0;
  block_size = 10;
  mdata = two_servers;
  errors = pos 0 ∷ pos 0 ∷ [];
}

spread-IsPlain : IsPlain spread 10 2 0
spread-IsPlain = record {
  block = refl;
  block_pos = omega arith;
  mdata_block = refl;
  mdata_level = refl;
  mdata_first = refl;
  servers = refl;
  servers_pos = omega arith;
  unchanged = refl;
  known = omega arith;
}

abbrev path_a : List ℕ
path_a = b'/' ∷ b'a' ∷ []

abbrev empty : Files ℕ
empty = record { os = 0; heap = []; table = []; errno = none }

abbrev fresh : Files ℕ
fresh = init_file_table empty

abbrev open_a : Call
open_a = search_call true 0 10 path_a (none ∷ none ∷ []) two_servers 2 384

-- The state after the file was opened.
abbrev with_a : Files ℕ
with_a = (search_slot_file true 0 10 path_a (none ∷ none ∷ []) two_servers 2 384 fresh).0

fresh-HasFree : HasFree fresh
unfolding init_file_table
fresh-HasFree = refl

Run-IsTable_example :
    IsTable with_a
    × ((c : Call) → Allowed (λ h s. suc s) c with_a → Fine (step (λ h s. suc s) c with_a))
Run-IsTable_example =
    Run-IsTable (λ h s. suc s) empty with_a refl (next begin open_a fresh-HasFree refl)

abbrev desc_a : Desc
desc_a = record {
  id = 0;
  path = path_a;
  type = pos 0;
  links = pos 1;
  flags = 2;
  mode = 384;
  part = 0;
  mdata = two_servers;
  offset = pos 0;
  block_size = 10;
  data_vfh = [];
}

abbrev one_open : Files ℕ
one_open = record { os = 0; heap = some desc_a ∷ []; table = some 0 ∷ none ∷ []; errno = none }

close-dup_dangles_example :
    (w1 w2 w3 : Files ℕ) × (i : ℕ) × (dup (pos 0) one_open ≡ some (w1, pos i))
    × (close (λ h s. suc s) (pos i) w1 ≡ some (w2, pos 0))
    × (close (λ h s. suc s) (pos 0) w2 ≡ some (w3, pos 0))
    × (get_elem? w3.table i ≡ some (some 0))
    × (close (λ h s. suc s) (pos i) w3 ≡ none)
close-dup_dangles_example =
    close-dup_dangles (λ h s. suc s) one_open 0 0 desc_a (omega arith) refl refl refl

-- Servers that note what they were told to remove.
abbrev eq_flag : Bool → Bool → Bool
eq_flag true m = m
eq_flag false true = false
eq_flag false false = true

abbrev eq_path : List ℕ → List ℕ → Bool
eq_path [] [] = true
eq_path [] (y ∷ ys) = false
eq_path (x ∷ xs) [] = false
eq_path (x ∷ xs) (y ∷ ys) = x == y && eq_path xs ys

eq_flag_refl : (m : Bool) → eq_flag m m ≡ true
eq_flag_refl true = refl
eq_flag_refl false = refl

eq_path_refl : (xs : List ℕ) → eq_path xs xs ≡ true
eq_path_refl [] = refl
eq_path_refl (x ∷ xs) = rw ((let e : (x == x) ≡ true = ground arith in e), eq_path_refl xs)

abbrev Told : Type 0
Told = ℕ → Bool → List ℕ → Bool

abbrev is_noted : (i : ℕ) (m : Bool) (path : List ℕ) → Told
is_noted i m path j m' path' = i == j && (eq_flag m m' && eq_path path path')

abbrev noted : (i : ℕ) (m : Bool) (path : List ℕ) → Told → Told
noted i m path s j m' path' = if is_noted i m path j m' path' then true else s j m' path'

abbrev noting : Servers Told
noting = record {
  get_absolute_path = λ path. some path;
  get_partition = λ path. some (0, path);
  get_servers = λ pd. 2;
  read_metadata = λ pd path s. (s, two_servers);
  update_copies = λ pd path mdata s. s;
  do_remove = λ i m path s. noted i m path s;
  do_rename = λ i path newpath s. s;
  wait = λ i s. (s, pos 0);
}

noting-IsRecorded : IsRecorded noting (λ s. s)
noting-IsRecorded = record {
  told = λ i m path s. told_self i m path s;
  kept = λ i j m m' path path' s h. still i j m m' path path' s h;
  waited = λ i j m path s h. h;
}
  where
    told_self : (i : ℕ) (m : Bool) (path : List ℕ) (s : Told) → noted i m path s i m path ≡ true
    told_self i m path s =
        rw ((let e : (i == i) ≡ true = ground arith in e), eq_flag_refl m, eq_path_refl path)

    still :
        (i j : ℕ) (m m' : Bool) (path path' : List ℕ) (s : Told)
        → s j m' path' ≡ true
        → noted i m path s j m' path' ≡ true
    still i j m m' path path' s h = elim (Bool-cases (is_noted i m path j m' path')) [
      | inl e ↦ rw e refl
      | inr e ↦ rw e h
    ]

internal_remove-serv_example :
    (internal_remove (λ p. p) (λ p. p) noting path_a (λ j m path. false)).0
      (serv spread 10 2 0 42 0)
      (eq_ℤ (hash (λ p. p) (λ p. p) path_a 2 1) (pos (serv spread 10 2 0 42 0)))
      path_a
    ≡ true
internal_remove-serv_example =
    internal_remove-serv (λ p. p) (λ p. p) noting spread 10 2 0 (λ s. s) path_a path_a 0 95 42 0
      (λ j m path. false) noting-IsRecorded spread-IsPlain refl (omega arith) (omega arith) refl
      refl refl

-- An Expand that creates each file it is asked for.
abbrev creating : Opening ℕ
creating = record {
  get_absolute_path = λ path. some path;
  get_partition = λ path. some (0, path);
  get_servers = λ pd. 2;
  block_size = λ pd. 10;
  read_metadata = λ pd path s. (s, negsuc 0, two_servers);
  create_metadata = λ pd path. two_servers;
  update_metadata = λ pd path mdata s. (s, pos 0);
  do_open = λ i path flags mode s. suc s;
  do_opendir = λ i path s. suc s;
  wait = λ i s. (s, pos 0);
  priv_fh = λ i s. 1;
  memory = record { mdata = true; vfh = true; nfih = true; handle = λ i. true; desc = true };
}

abbrev or_else : {A : Type 0} → Option A → A → A
or_else none a = a
or_else (some x) a = x

abbrev created : Files ℕ × ℤ
created =
    or_else (internal_open (λ p. p) (λ p. p) creating two_servers path_a 66 384 fresh)
      (fresh, negsuc 0)
