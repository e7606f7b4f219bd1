-- ===== src/Restore.antt =====
-- tools/restore_checkpoint.py: what is checked before anything is started. A manifest is the record
-- Manifest; the host's files, its sockets and SHA-256 are parameters.
pub mod Left
pub mod OfCreated
pub mod Launch
pub mod Environment
pub mod Qmp
pub mod Panic
pub mod Child
pub mod Run
pub mod Main
mod Tests
use darwin_vm.Prelude.{
  ℕ, Bool, true, false, not, ◌&&◌, ◌||◌, List, [], ◌∷◌, ◌++◌, Option, none, some, all, drop, length,
  leb, nat_eq, list_eq, ◌==◌, if◌then◌else◌,
}
use darwin_vm.Prelude.Result.{Result, ok, raise, ◌>>=◌, ◌>>◌, check}
use darwin_vm.Bytes.{Bytes, text}
use darwin_vm.Bytes.Utf8.{Str, decode_strict}
use darwin_vm.PyInt.{ℤ, pos, negsuc}
use darwin_vm.Text.{starts_with, partition}
use darwin_vm.Checkpoint.{Error, no_file}
use darwin_vm.Checkpoint.Texts.{is_word, selected_cpu_index}
use darwin_vm.Checkpoint.Chain.{verify_backing_chain}
use darwin_vm.Checkpoint.Manifest.{
  File, content_of, is_writable, Index, absent, other, whole, Manifest, checkpoint_format,
  is_safe_tag,
}

pub data Rejection : Type 0 where
  bad_override unsafe_tag bad_observe other_format bad_cpu bad_inventory missing_state other_state
        missing_disk other_disk writable_disk used_socket no_argv missing_qemu other_qemu
        other_input used_tag bad_display no_child_disk :
      Rejection
  broken : Error → Rejection

-- `key in text`, for one character
unfoldable pub has_char : ℕ → Str → Bool
has_char c [] = false
has_char c (d ∷ s) = c == d || has_char c s

-- (?:DARWIN_|GXFSTAT_)[A-Za-z0-9_]+
unfoldable pub is_override_key : Str → Bool
is_override_key key =
    let name = if starts_with (text "DARWIN_") key then drop 7 key else drop 8 key in
    (starts_with (text "DARWIN_") key || starts_with (text "GXFSTAT_") key)
    && (leb 1 (length name) && all is_word name)

-- result[key] = value
unfoldable pub put : Str → Str → List (Str × Str) → List (Str × Str)
put key value [] = (key, value) ∷ []
put key value (kv ∷ env) =
    let more = put key value env in if kv.0 == key then (key, value) ∷ env else kv ∷ more

unfoldable pub overrides_from : List (Str × Str) → List Str → Result Rejection (List (Str × Str))
overrides_from result [] = ok result
overrides_from result (item ∷ items) =
    let (key, value) = partition b'=' item in
    let more = overrides_from (put key value result) items in
    if has_char b'=' item && is_override_key key then more else raise bad_override

unfoldable pub parse_model_env_overrides : List Str → Result Rejection (List (Str × Str))
parse_model_env_overrides values = overrides_from [] values

-- The file of the inventory is read as UTF-8.
unfoldable pub inventory_cpu : (Str → Option File) → Str → Result Rejection ℕ
inventory_cpu files [] = ok 0
inventory_cpu files (c ∷ path) = elim (files (c ∷ path)) [
  | none ↦ raise bad_inventory
  | some f ↦ elim (decode_strict f.content) [
    | none ↦ raise bad_inventory
    | some cpus ↦ elim (selected_cpu_index cpus) [ raise e ↦ raise (broken e) | ok n ↦ ok n ]
  ]
]

unfoldable pub checkpoint_source_cpu : (Str → Option File) → Option Str → Index → Result Rejection ℕ
checkpoint_source_cpu files none absent = ok 0
checkpoint_source_cpu files (some path) absent = inventory_cpu files path
checkpoint_source_cpu files inventory other = raise bad_cpu
checkpoint_source_cpu files inventory (whole (pos n)) = ok n
checkpoint_source_cpu files inventory (whole (negsuc n)) = raise bad_cpu

pub record Host : Type 0 where
  pub files : Str → Option File
  pub exists : Str → Bool
  pub resolve : Str → Str
  pub sha256 : Bytes → Str

pub record Options : Type 0 where
  pub tag : Str
  pub observe_seconds : ℤ
  pub leave_paused : Bool
  pub gdb_port : Option ℕ
  pub qemu : Option Str
  pub env_overrides : List Str
  pub display : Option Str
  pub out : Str

-- sha256(path): `missing` where there is no such file.
unfoldable pub hash_or : Host → Rejection → Option File → Result Rejection Str
hash_or host missing none = raise missing
hash_or host missing (some f) = ok (host.sha256 f.content)

unfoldable pub hash_file : Host → Rejection → Str → Result Rejection Str
hash_file host missing path = hash_or host missing (host.files path)

unfoldable pub is_negative : ℤ → Bool
is_negative (pos n) = false
is_negative (negsuc n) = true

unfoldable pub is_writable_entry : Option File → Bool
is_writable_entry none = false
is_writable_entry (some f) = is_writable f.mode

unfoldable pub is_writable_file : Host → Str → Bool
is_writable_file host path = is_writable_entry (host.files path)

unfoldable pub chain_check : Result Error (Unit {0}) → Result Rejection (Unit {0})
chain_check (ok _) = ok tt
chain_check (raise e) = raise (broken e)

-- The part of the sockets' names that the tag gives
unfoldable pub socket : Options → Str → Str
socket o ending = text "/tmp/dvm/" ++ (o.tag ++ ending)

unfoldable pub monitor_path : Options → Str
monitor_path o = socket o (text ".restore.sock")

unfoldable pub uart_path : Options → Str
uart_path o = socket o (text ".restore.uart.sock")

unfoldable pub qmp_path : Options → Str
qmp_path o = socket o (text ".restore.qmp.sock")

-- qemu_inputs.get(str(source_qemu), {}).get("sha256")
unfoldable pub recorded : Str → List (Str × Str) → Option Str
recorded name [] = none
recorded name (kv ∷ more) =
    let later = recorded name more in if kv.0 == name then some kv.1 else later

-- `not args.qemu and expected_qemu and actual_qemu != expected_qemu`
unfoldable pub is_other_qemu : Option Str → Option Str → Str → Bool
is_other_qemu (some q) expected actual = false
is_other_qemu none none actual = false
is_other_qemu none (some expected) actual = not (expected == []) && not (actual == expected)

unfoldable pub has_sha : Host → Str → Option File → Bool
has_sha host sha none = false
has_sha host sha (some f) = host.sha256 f.content == sha

unfoldable pub is_input : Host → Str × Str → Bool
is_input host kv = has_sha host kv.1 (host.files kv.0)

-- An explicit QEMU is not compared with the checkpoint's.
unfoldable pub is_replaced : Host → Option Str → Str → Str → Bool
is_replaced host none source name = false
is_replaced host (some q) source name = host.resolve name == source

unfoldable pub check_inputs :
    Host → Option Str → Str → List (Str × Str) → Result Rejection (Unit {0})
check_inputs host qemu source [] = ok tt
check_inputs host qemu source (kv ∷ more) =
    let later = check_inputs host qemu source more in
    if is_replaced host qemu source kv.0 || is_input host kv then later else raise other_input

unfoldable pub source_program : List Str → Result Rejection Str
source_program [] = raise no_argv
source_program (p ∷ _) = ok p

unfoldable pub chosen_qemu : Option Str → Str → Str
chosen_qemu none source = source
chosen_qemu (some q) source = q

-- What the checks leave for the launch.
pub record Accepted : Type 0 where
  pub overrides : List (Str × Str)
  pub cpu : ℕ
  pub qemu : Str
  pub expected_qemu : Option Str
  pub actual_qemu : Str

-- The files that the manifest describes.
unfoldable pub check_files : Host → Manifest → Result Rejection (Unit {0})
check_files host m = do
  state ← hash_file host missing_state m.state_path
  check (state == m.state_sha) other_state
  disk ← hash_file host missing_disk m.disk_path
  check (disk == m.disk_sha) other_disk
  check (not (is_writable_file host m.disk_path)) writable_disk
  chain_check (verify_backing_chain (content_of host.files) host.sha256 m.chain)

unfoldable pub check_program : Host → Options → Manifest → Result Rejection (Str × Option Str × Str)
check_program host o m = do
  program ← source_program m.qemu_argv
  let source = host.resolve program
  let qemu = host.resolve (chosen_qemu o.qemu source)
  let expected = recorded source m.qemu_inputs
  actual ← hash_file host missing_qemu qemu
  check (not (is_other_qemu o.qemu expected actual)) other_qemu
  check_inputs host o.qemu source m.qemu_inputs
  ok (qemu, expected, actual)

unfoldable pub preflight : Host → Options → Manifest → Result Rejection Accepted
preflight host o m = do
  overrides ← parse_model_env_overrides o.env_overrides
  check (is_safe_tag o.tag) unsafe_tag
  check (not (is_negative o.observe_seconds)) bad_observe
  check (m.format == checkpoint_format) other_format
  cpu ← checkpoint_source_cpu host.files m.cpu_inventory m.source_cpu_index
  check_files host m
  check
      (not
        (host.exists (monitor_path o) || (host.exists (uart_path o) || host.exists (qmp_path o))))
      used_socket
  (qemu, expected, actual) ← check_program host o m
  check (not (host.exists o.out)) used_tag
  ok (record {
    overrides = overrides;
    cpu = cpu;
    qemu = qemu;
    expected_qemu = expected;
    actual_qemu = actual;
  })
