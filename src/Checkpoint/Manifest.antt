-- ===== src/Checkpoint/Manifest.antt =====
-- The manifest that tools/create_checkpoint.py writes and tools/restore_checkpoint.py reads, and what
-- the two share of the files of the host. A dictionary is the list of its settings.
use darwin_vm.Prelude.{
  ℕ, ◌/◌, ◌%◌, Bool, ◌&&◌, ◌||◌, List, [], ◌∷◌, Option, none, some, all, length, leb, nat_eq,
  list_eq, ◌==◌, if◌then◌else◌,
}
use darwin_vm.Bytes.{Bytes, text}
use darwin_vm.Bytes.Utf8.{Str}
use darwin_vm.PyInt.{ℤ}
use darwin_vm.Text.{starts_with}
use darwin_vm.Checkpoint.Texts.{is_word}
use darwin_vm.Checkpoint.Chain.{Entry}

-- A regular file: its bytes, and the bits of its mode.
pub record File : Type 0 where
  pub content : Bytes
  pub mode : ℕ

unfoldable pub content_of : (Str → Option File) → Str → Option Bytes
content_of files p = elim (files p) [ none ↦ none | some f ↦ some f.content ]

-- st_mode & 0o222
unfoldable pub is_writable : ℕ → Bool
is_writable mode = mode / 128 % 2 == 1 || (mode / 16 % 2 == 1 || mode / 2 % 2 == 1)

-- What `source_cpu_index` may be in a manifest.
pub data Index : Type 0 where
  absent other : Index
  whole : ℤ → Index

pub record Manifest : Type 0 where
  pub format : Str
  pub source_pid : ℕ
  pub source_pc : Str
  pub source_cpu_index : Index
  pub cpu_inventory : Option Str
  pub source_clock_last : Option ℕ
  pub qemu_argv : List Str
  pub qemu_env : List (Str × Str)
  pub qemu_inputs : List (Str × Str)
  pub state_path : Str
  pub state_sha : Str
  pub disk_path : Str
  pub disk_sha : Str
  pub chain : List Entry

abbrev pub checkpoint_format : Str
checkpoint_format = text "darwin-vm-external-checkpoint-v1"

abbrev pub launch_format : Str
launch_format = text "darwin-vm-qemu-launch-v1"

-- SAFE_TAG.fullmatch
unfoldable pub is_safe_tag : Str → Bool
is_safe_tag tag =
    all (λ c. is_word c || (c == b'.' || c == b'-')) tag
    && (leb 1 (length tag) && leb (length tag) 64)

unfoldable pub is_model_key : Str → Bool
is_model_key k = starts_with (text "DARWIN_") k || starts_with (text "GXFSTAT_") k

-- The settings of the machine's model.
unfoldable pub model_env : List (Str × Str) → List (Str × Str)
model_env [] = []
model_env (kv ∷ env) = let more = model_env env in if is_model_key kv.0 then kv ∷ more else more
