-- ===== src/Patch.antt =====
-- tools/dt_patch.py: set or delete properties on a device tree. A buffer and offset is the bytes
-- from that offset on; the fuel of `decode` bounds the depth of the tree, at 8 bytes or more a level.
pub mod Codec
pub mod Edit
pub mod RoundTrip
pub mod Changed
pub mod Laws
pub mod Placed
pub mod Paths
mod Tests
use darwin_vm.Prelude.{
  ℕ, zero, suc, ◌+◌, ◌-◌, ◌%◌, ◌/◌, ◌^◌, Bool, true, false, List, [], ◌∷◌, Option, none, some,
  length, nat_eq, list_eq, ◌==◌, if◌then◌else◌,
}
use darwin_vm.Bytes.{Bytes}
use darwin_vm.Bytes.Utf8.{Str}

-- A property: `flagged` says that the high bit of the length word is set.
pub record Prop : Type 0 where
  pub name : Str
  pub flagged : Bool
  pub value : Bytes

-- AssertionError, struct.error, ValueError of `int`, `bytes.fromhex`, and SystemExit of `find`.
-- `out_of_fuel` has no counterpart in the program.
pub data Error : Type 0 where
  assertion struct_error value_error no_node out_of_fuel : Error
