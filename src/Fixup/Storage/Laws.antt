-- ===== src/Fixup/Storage/Laws.antt =====
-- dt_fixup.py: what `fixup_fstab_drop_unavailable` leaves of the table.
use darwin_vm.Prelude.{◌≡◌, refl, arith, nat_eq, ==_refl}
use darwin_vm.Tree.{Nodes, node, child, count}
use darwin_vm.Fixup.Tree.{Adt, Adts}
use darwin_vm.Fixup.Storage.{keep_available, drop_unavailable}

keep_available_twice : (cs : Adts) → keep_available (keep_available cs) ≡ keep_available cs
unfolding keep_available
keep_available_twice Nodes.none = refl
keep_available_twice (child (node ps cs) rest) = ground (arith, keep_available_twice rest)

-- Dropping the unavailable volumes a second time changes nothing: neither the volumes left, nor the
-- count in the table.
pub drop_unavailable_twice : (d : Adt) → drop_unavailable (drop_unavailable d) ≡ drop_unavailable d
unfolding drop_unavailable
drop_unavailable_twice (node ps cs) =
    ground (arith, keep_available_twice cs, ==_refl (count (keep_available cs)))
