-- ===== src/Base/Tests.antt =====
-- Runs of the containers, and the theorems at inputs that meet their hypotheses.
use xpn.Prelude.{◌+◌, ◌≤◌, ℕ, zero, suc, ◌≡◌, ◌≢◌, refl, sym, ap, true, some, none, [], ◌∷◌, arith}
use xpn.Prelude.Int.{pos, negsuc}
use xpn.Policy.Block.{calculate_block}
use xpn.Base.Hash.{hash_name}
use xpn.Base.Hash.Names.{calculate_block-hash_name}
use xpn.Base.Raid.{locate_internal}
use xpn.Base.Raid.Places.{place, locate_internal-apart}
use xpn.Base.Darray.Repr.{NoNull}
use xpn.Base.Dtable.{Dtable, insert}
use xpn.Base.Dtable.Lifo.{IsTable, Inserted, insert-Inserted, Numbered, Fresh}

positive : (n : ℕ) → suc n ≢ 0
positive n h = absurd (omega arith)

-- The name "é" in UTF-8.
calculate_block-hash_name_example :
    (k : ℕ) × (hash_name (195 ∷ 169 ∷ []) 3 ≡ negsuc k)
    × ((calculate_block
          (pos 10)
          (pos 0)
          (pos 3)
          (pos 0)
          (pos 0)
          (hash_name (195 ∷ 169 ∷ []) 3)).serv
        ≡ negsuc k)
calculate_block-hash_name_example =
    calculate_block-hash_name 195 (169 ∷ []) 3 10
      ((omega arith, omega arith), ((omega arith, omega arith), tt)) (omega arith) (positive 0)
      (omega arith) (omega arith)

locate_internal-apart_example :
    (p s r : ℕ) × (locate_internal (pos 7) (pos (3 + 1))
      ≡ some (record { sp = pos p; ip = pos r; sd = pos s; id = pos r }))
    × (p ≤ 3)
    × (s ≤ 3)
    × (p ≢ s)
locate_internal-apart_example = locate_internal-apart 7 3 (omega arith)

seventh : locate_internal (pos 7) (pos 4) ≡ some (place 7 3)
unfolding locate_internal
seventh = refl

abbrev two_pointers-NoNull : NoNull (5 ∷ 6 ∷ [])
two_pointers-NoNull = (positive 4, (positive 5, tt))

-- Descriptors 0 and 1, of which 0 is free.
abbrev one_free : Dtable
one_free = record {
  dtable =
      record { dt_info = 31; next_free = negsuc 0; myself = pos 0 }
      ∷ record { dt_info = 32; next_free = negsuc 0; myself = pos 1 }
      ∷ [];
  neltos = 2;
  free_list = pos 0;
}

one_free-Numbered : Numbered one_free.dtable
one_free-Numbered zero e h = ap (λ o. elim o [ none ↦ pos 0 | some d ↦ d.myself ]) (sym h)
one_free-Numbered (suc zero) e h = ap (λ o. elim o [ none ↦ pos 0 | some d ↦ d.myself ]) (sym h)
one_free-Numbered (suc (suc i)) e h = cc

one_free-IsTable : IsTable one_free (0 ∷ [])
one_free-IsTable = record {
  counted = refl;
  numbered = one_free-Numbered;
  chain = (refl, (record { dt_info = 31; next_free = negsuc 0; myself = pos 0 }, refl, refl), tt);
}

insert-Inserted_example :
    (dt' : Dtable) × (insert true true one_free 33 ≡ some (dt', pos 0))
    × Inserted one_free dt' 33 0 []
insert-Inserted_example = insert-Inserted one_free (0 ∷ []) 33 one_free-IsTable (positive 32)

abbrev one_not_free : Fresh 1 (0 ∷ [])
one_not_free = (positive 0, tt)
