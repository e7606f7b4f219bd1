-- ===== src/Checkpoint.antt =====
-- tools/checkpoint_common.py: the arguments of a captured QEMU, rewritten to restore it, the check of
-- the disks below it, and the reading of its arguments from the kernel. `resolve` is Path.resolve.
pub mod Argv
pub mod Drives
pub mod Consoles
pub mod Kept
pub mod Monitored
pub mod Restored
pub mod Chain
pub mod Procargs
pub mod Texts
pub mod Manifest
pub mod Session
pub mod Sptm
mod Tests
use darwin_vm.Prelude.{
  ℕ, ◌+◌, Bool, true, false, not, ◌&&◌, ◌||◌, List, [], ◌∷◌, ◌++◌, Option, none, some, any, length,
  drop, nat_eq, list_eq, ◌==◌, if◌then◌else◌,
}
use darwin_vm.Prelude.Result.{Result, ok, raise, ◌>>=◌}
use darwin_vm.Bytes.{Bytes, text}
use darwin_vm.Bytes.Utf8.{Str}
use darwin_vm.PyInt.{decimal_str}
use darwin_vm.Text.{starts_with, split, join}

pub data Error : Type 0 where
  empty_argv other_disk no_file no_drive no_serial no_chain resized hash_mismatch empty_info
        not_a_file other_start short_buffer unterminated no_single_cpu no_pc :
      Error

-- x in xs
unfoldable pub among : Str → List Str → Bool
among x xs = any (λ y. y == x) xs

-- qemu_input_files: the loop from the second argument on.
unfoldable pub input_files_of : (Str → Str) → List Str → List Str
input_files_of resolve [] = []
input_files_of resolve (a ∷ []) = []
input_files_of resolve (a ∷ v ∷ rest) =
    elim (among a (
      text "-bootkc"
      ∷ text "-dtree"
      ∷ text "-tc"
      ∷ text "-ramdisk"
      ∷ text "-sptm"
      ∷ text "-txm"
      ∷ [])) [
        | true ↦ resolve v ∷ input_files_of resolve rest
        | false ↦ input_files_of resolve (v ∷ rest)
      ]

unfoldable pub qemu_input_files : (Str → Str) → List Str → List Str
qemu_input_files resolve argv = input_files_of resolve (drop 1 argv)

abbrev pub file_key : Str
file_key = text "file="

-- The loop of replace_drive_file over the parts: the first file= part is replaced.
unfoldable pub replace_part : (Str → Str) → Str → Str → List Str → Result Error (List Str)
replace_part resolve old new [] = raise no_file
replace_part resolve old new (p ∷ ps) = elim (starts_with file_key p) [
  | true ↦ elim (resolve (drop 5 p) == resolve old) [
    | true ↦ ok ((file_key ++ new) ∷ ps)
    | false ↦ raise other_disk
  ]
  | false ↦ replace_part resolve old new ps >>= λ qs. ok (p ∷ qs)
]

unfoldable pub replace_drive_file : (Str → Str) → Str → Str → Str → Result Error Str
replace_drive_file resolve old new spec = elim (among (text "id=ans") (split b',' spec)) [
  | false ↦ ok spec
  | true ↦ replace_part resolve old new (split b',' spec) >>= λ ps. ok (join b',' ps)
]
