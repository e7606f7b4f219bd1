-- ===== src/Patch/Laws.antt =====
-- `Node.get`, `Node.set` and `Node.delete` against one another.
use darwin_vm.Prelude.{
  ◌+◌, ◌≡◌, ◌≢◌, refl, true, false, List, [], ◌∷◌, ◌++◌, none, some, arith, length, map, nat_eq,
  list_eq, list_beq_iff, ◌==◌, if◌then◌else◌, ==_refl,
}
use darwin_vm.Bytes.{Bytes}
use darwin_vm.Bytes.Utf8.{Str}
use darwin_vm.Patch.{Prop}
use darwin_vm.Patch.Edit.{get, set, delete}

abbrev pub names : List Prop → List Str
names ps = map (λ (p : Prop). p.name) ps

-- A key that is set reads back its new value, and every other key its old one.
pub get-set :
    (k j : Str) (v : Bytes) (ps : List Prop)
    → get j (set k v ps) ≡ (if k == j then some v else get j ps)
unfolding get set
get-set k j v [] = ground arith
get-set k j v (p ∷ ps) =
    ground (arith, get-set k j v ps, list_beq_iff p.name k, list_beq_iff p.name j, list_beq_iff k j)

-- Setting keeps the names in their order, and adds the name at the end if it was not there.
pub names-set :
    (k : Str) (v : Bytes) (ps : List Prop)
    → names (set k v ps) ≡ (elim (get k ps) [ none ↦ names ps ++ k ∷ [] | some w ↦ names ps ])
unfolding get set
names-set k v [] = refl
names-set k v (p ∷ ps) = ground (arith, names-set k v ps)

-- Deleting a key that is not there changes nothing.
pub delete_absent : (k : Str) (ps : List Prop) → get k ps ≡ none → delete k ps ≡ (ps, false)
unfolding get delete
delete_absent k [] h = refl
delete_absent k (p ∷ ps) h = ground (arith, delete_absent k ps)

-- Deleting says whether the key was there, and takes out one property if it was.
pub delete_counts :
    (k : Str) (ps : List Prop)
    → (length (delete k ps).0 + (if (delete k ps).1 then 1 else 0) ≡ length ps)
      × ((delete k ps).1 ≡ (elim (get k ps) [ none ↦ false | some w ↦ true ]))
unfolding get delete
delete_counts k [] = (refl, refl)
delete_counts k (p ∷ ps) = ground (arith, delete_counts k ps)

-- Deleting a key keeps what every other key reads.
pub get-delete_ne : (k j : Str) (ps : List Prop) → k ≢ j → get j (delete k ps).0 ≡ get j ps
unfolding get delete
get-delete_ne k j [] h = refl
get-delete_ne k j (p ∷ ps) h =
    ground (arith, get-delete_ne k j ps h, list_beq_iff p.name k, list_beq_iff p.name j)

-- Setting a key that is absent and deleting it again gives the list back.
pub delete-set :
    (k : Str) (v : Bytes) (ps : List Prop) → get k ps ≡ none → delete k (set k v ps) ≡ (ps, true)
unfolding get set delete
delete-set k v [] h = rw (==_refl k)
delete-set k v (p ∷ ps) h = ground (arith, delete-set k v ps)
