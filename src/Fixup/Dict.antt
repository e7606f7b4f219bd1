-- ===== src/Fixup/Dict.antt =====
-- Python's dictionaries of properties: lookup, assignment, deletion.
use darwin_vm.Prelude.{
  ◌≡◌, refl, Bool, true, false, [], ◌∷◌, Option, none, some, arith, list_eq, nat_eq, ◌==◌,
  list_beq_iff, if◌then◌else◌, ==_refl,
}
use darwin_vm.Bytes.Utf8.{Str}
use darwin_vm.Fixup.{Val, Props}

-- props.get(key)
unfoldable pub get : Str → Props → Option Val
get k [] = none
get k ((j, v) ∷ ps) = if j == k then some v else get k ps

-- key in props
abbrev pub has : Str → Props → Bool
has k ps = elim (get k ps) [ none ↦ false | some v ↦ true ]

-- props[key] = v: a key that is there keeps its place.
unfoldable pub put : Str → Val → Props → Props
put k v [] = (k, v) ∷ []
put k v ((j, w) ∷ ps) = if j == k then (j, v) ∷ ps else (j, w) ∷ put k v ps

-- del props[key], and props.pop(key, None): a key that is absent changes nothing.
unfoldable pub without : Str → Props → Props
without k [] = []
without k ((j, v) ∷ ps) = let rest = without k ps in if j == k then rest else (j, v) ∷ rest

pub get-put :
    (k j : Str) (v : Val) (ps : Props) → get j (put k v ps) ≡ (if k == j then some v else get j ps)
unfolding get put
get-put k j v [] = ground arith
get-put k j v ((i, w) ∷ ps) =
    ground (arith, get-put k j v ps, list_beq_iff i k, list_beq_iff i j, list_beq_iff k j)

pub get-without :
    (k j : Str) (ps : Props) → get j (without k ps) ≡ (if k == j then none else get j ps)
unfolding get without
get-without k j [] = ground arith
get-without k j ((i, w) ∷ ps) =
    ground (arith, get-without k j ps, list_beq_iff i k, list_beq_iff i j, list_beq_iff k j)

pub get-put_eq : (k : Str) (v : Val) (ps : Props) → get k (put k v ps) ≡ some v
get-put_eq k v ps = rw (get-put k k v ps, ==_refl k) refl

pub get-put_ne :
    (k j : Str) (v : Val) (ps : Props) → (k == j) ≡ false → get j (put k v ps) ≡ get j ps
get-put_ne k j v ps e = rw (get-put k j v ps, e) refl

pub get-without_ne : (k j : Str) (ps : Props) → (k == j) ≡ false → get j (without k ps) ≡ get j ps
get-without_ne k j ps e = rw (get-without k j ps, e) refl

pub get-without_eq : (k : Str) (ps : Props) → get k (without k ps) ≡ none
get-without_eq k ps = rw (get-without k k ps, ==_refl k) refl
