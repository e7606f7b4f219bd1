-- ===== src/Fixup/Compat/Darts.antt =====
-- dt_fixup.py: the numbers that `fixup_darts` gives.
use darwin_vm.Prelude.{
  ℕ, zero, suc, ◌≡◌, refl, List, [], ◌∷◌, ◌++◌, Option, some, arith, if◌then◌else◌,
}
use darwin_vm.Bytes.{text}
use darwin_vm.PyInt.{decimal_str}
use darwin_vm.Tree.{Nodes, node, child}
use darwin_vm.Fixup.{Val, str, Props}
use darwin_vm.Fixup.Dict.{get, has, put, get-put_ne, get-put_eq}
use darwin_vm.Fixup.Tree.{Adts}
use darwin_vm.Fixup.Compat.{is_dart, number_darts}

-- The identifiers of the DARTs that have a driver, in order.
unfoldable pub dart_ids : Adts → List (Option Val)
dart_ids Nodes.none = []
dart_ids (child (node ps cs) rest) =
    let more = dart_ids rest in if is_dart ps then get (text "dart-id") ps ∷ more else more

unfoldable pub count_darts : Adts → ℕ
count_darts Nodes.none = 0
count_darts (child (node ps cs) rest) =
    let more = count_darts rest in if is_dart ps then suc more else more

-- count numbers from `from` on, as the property spells them
unfoldable pub identifiers : ℕ → ℕ → List (Option Val)
identifiers from zero = []
identifiers from (suc n) = some (str (text "u32:" ++ decimal_str from)) ∷ identifiers (suc from) n

is_dart-put : (v : Val) (ps : Props) → is_dart (put (text "dart-id") v ps) ≡ is_dart ps
unfolding is_dart
is_dart-put v ps =
    rw
      (
        has,
        get-put_ne (text "dart-id") (text "device_type") v ps refl,
        get-put_ne (text "dart-id") (text "compatible") v ps refl,
      )
      refl

-- The DARTs that have a driver are numbered in order, without a gap, from the number that the loop
-- starts at.
pub number_darts_consecutive :
    (n : ℕ) (cs : Adts) → dart_ids (number_darts n cs) ≡ identifiers n (count_darts cs)
unfolding number_darts dart_ids count_darts identifiers
number_darts_consecutive n Nodes.none = refl
number_darts_consecutive n (child (node ps cs) rest) =
    let id = str (text "u32:" ++ decimal_str n) in
    ground (
      arith,
      number_darts_consecutive n rest,
      number_darts_consecutive (suc n) rest,
      is_dart-put id ps,
      get-put_eq (text "dart-id") id ps,
    )
