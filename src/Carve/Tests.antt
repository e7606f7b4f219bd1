-- ===== src/Carve/Tests.antt =====
-- tools/bplist_carve.py: the smallest list, and the laws at it.
use darwin_vm.Prelude.{
  ℕ, ◌≡◌, refl, Bool, true, false, [], ◌∷◌, ◌++◌, Option, none, some, take, drop, nat_eq, list_eq,
  arith,
}
use darwin_vm.Bytes.{Bytes, text}
use darwin_vm.Text.{starts_with}
use darwin_vm.Carve.{
  slice, read_be, first_byte, byte_at, try_end, carve_ends, carve, find_from, recover_from,
  recover_lists, read_near,
}
use darwin_vm.Carve.Found.{IsFound, carve-IsFound}
use darwin_vm.Carve.Rounds.{lists_from, recover_lists-lists_from}

-- The list `false`: its object, the table of its offset, and the trailer.
abbrev small : Bytes
small =
    text "bplist00"
    ++ 8 ∷ 8 ∷ 0 ∷ 0 ∷ 0 ∷ 0 ∷ 0 ∷ 0 ∷ 1 ∷ 1 ∷ 0 ∷ 0 ∷ 0 ∷ 0 ∷ 0 ∷ 0 ∷ 0 ∷ 1 ∷ 0 ∷ 0 ∷ 0 ∷ 0 ∷ 0 ∷ 0
      ∷ 0 ∷ 0 ∷ 0 ∷ 0 ∷ 0 ∷ 0 ∷ 0 ∷ 0 ∷ 0 ∷ 9 ∷ []

abbrev load : Bytes → Option Bytes
load s = some s

ends_there : try_end (small ++ 0 ∷ []) 0 42 ≡ true
unfolding try_end byte_at first_byte read_be slice take drop
ends_there = refl

loads : load (slice 0 42 (small ++ 0 ∷ [])) ≡ some small
unfolding slice take drop
loads = refl

carve-IsFound_example :
    (p : Bytes) × ((n : ℕ) × ((carve load (small ++ 0 ∷ []) 0 100 ≡ some (p, n))
        × IsFound load (small ++ 0 ∷ []) 0 42 p n))
carve-IsFound_example =
    carve-IsFound load (small ++ 0 ∷ []) 0 42 100 small (omega arith) (omega arith) ends_there loads

-- A list at the very end of the dump is not found.
last_list : carve load small 0 100 ≡ none
unfolding carve carve_ends try_end byte_at first_byte read_be slice take drop
last_list = refl

abbrev all_wanted : Bytes → Bool
all_wanted p = true

abbrev not_none : Bytes → Bool
not_none p = false

recover_lists-lists_from_example :
    recover_lists load not_none all_wanted (small ++ 0 ∷ []) 100 7 5
    ≡ take 5 (lists_from load not_none all_wanted (small ++ 0 ∷ []) 100 7 0 (small ++ 0 ∷ []))
recover_lists-lists_from_example =
    recover_lists-lists_from load not_none all_wanted (small ++ 0 ∷ []) 100 7 5

recovered : recover_lists load not_none all_wanted (small ++ 0 ∷ []) 100 7 5 ≡ (7, (42, small)) ∷ []
unfolding recover_lists recover_from find_from starts_with carve carve_ends try_end byte_at
    first_byte read_be slice take drop
recovered = refl

-- A list whose value is None is not printed.
none_recovered : recover_lists load (λ p. true) all_wanted (small ++ 0 ∷ []) 100 7 5 ≡ []
unfolding recover_lists recover_from find_from starts_with carve carve_ends try_end byte_at
    first_byte read_be slice take drop
none_recovered = refl

near : read_near (some 5) 3 (1 ∷ 2 ∷ 3 ∷ 4 ∷ []) ≡ (3 ∷ 4 ∷ [], 2)
unfolding read_near take drop
near = refl
