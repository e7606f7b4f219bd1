-- ===== src/Fixup.antt =====
-- dt_fixup.py: the device tree as `ADTNode` objects, with a dictionary of properties each. Python's
-- dictionary is the list of its items in order of insertion.
pub mod Dict
pub mod Codec
pub mod Tree
pub mod Compat
pub mod Iops
pub mod Storage
pub mod Sep
pub mod Main
pub mod Options
pub mod Ans
mod Tests
use darwin_vm.Prelude.{
  ℕ, Bool, true, false, List, [], ◌∷◌, Option, none, some, list_eq, nat_eq, ◌==◌, if◌then◌else◌,
}
use darwin_vm.Bytes.{Bytes}
use darwin_vm.Bytes.Utf8.{Str}

-- A property's value: a Python `str` or `bytes`.
pub data Val : Type 0 where
  str : Str → Val
  bytes : Bytes → Val

-- The exceptions. `out_of_fuel` has no counterpart in the program.
pub data Error : Type 0 where
  key_error value_error type_error index_error struct_error unicode_error system_exit out_of_fuel :
      Error

abbrev pub Props : Type 0
Props = List (Str × Val)

-- v == text, where a `bytes` equals no `str`
unfoldable pub is_str : Val → Str → Bool
is_str (str s) t = s == t
is_str (bytes b) t = false
