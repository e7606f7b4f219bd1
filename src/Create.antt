-- ===== src/Create.antt =====
-- tools/create_checkpoint.py: a checkpoint of a running guest. What the process and the launch manifest
-- say is the record Source; the monitor is a script of replies, one for each command; a session leaves
-- the trace of what was done.
pub mod Given
pub mod Run
pub mod Tests
use darwin_vm.Prelude.{
  ℕ, ◌+◌, Bool, true, false, not, ◌&&◌, ◌||◌, List, [], ◌∷◌, ◌++◌, Option, none, some, any, drop,
  nat_eq, list_eq, Eq, ◌==◌, if◌then◌else◌,
}
use darwin_vm.Prelude.Result.{Result, ok, raise, ◌>>=◌, ◌>>◌, check}
use darwin_vm.Bytes.{Bytes, text}
use darwin_vm.Bytes.Utf8.{Str}
use darwin_vm.Text.{starts_with, contains, partition, rpartition, split}
use darwin_vm.Checkpoint.{Error, among}
use darwin_vm.Checkpoint.Session.{
  Failure, bad_tag, not_alive, bad_launch, not_qemu, other_argv, other_env, no_monitor, no_disk,
  no_verifier,
}
use darwin_vm.Checkpoint.Manifest.{launch_format, is_safe_tag, model_env}

pub record Source : Type 0 where
  pub tag : Str
  pub alive : Bool
  pub live_argv : List Str
  pub live_env : List (Str × Str)
  pub format : Str
  pub argv : List Str
  pub env : List (Str × Str)
  pub monitor : Str
  pub disk : Str
  pub has_verifier : Bool

unfoldable pub settings_eq : List (Str × Str) → List (Str × Str) → Bool
settings_eq [] [] = true
settings_eq (x ∷ xs) (y ∷ ys) = (x.0 == y.0 && x.1 == y.1) && settings_eq xs ys
settings_eq _ _ = false

-- Path(p).name: the last part that is neither empty nor a dot
unfoldable pub last_part : List Str → Str
last_part [] = []
last_part (part ∷ parts) =
    let rest = last_part parts in
    if not (rest == []) then rest else if part == text "." then [] else part

unfoldable pub file_name : Str → Str
file_name p = last_part (split b'/' p)

unfoldable pub is_qemu : List Str → Bool
is_qemu [] = false
is_qemu (program ∷ _) = contains (text "qemu-system-aarch64") (file_name program)

unfoldable pub monitor_paths : (Str → Str) → List Str → List Str
monitor_paths resolve [] = []
monitor_paths resolve (item ∷ items) =
    let more = monitor_paths resolve items in
    if starts_with (text "unix:") item
    then resolve (partition b',' (drop 5 item)).0 ∷ more
    else more

unfoldable pub files_of : (Str → Str) → List Str → List Str
files_of resolve [] = []
files_of resolve (p ∷ ps) =
    let more = files_of resolve ps in
    if starts_with (text "file=") p then resolve (drop 5 p) ∷ more else more

unfoldable pub disk_paths : (Str → Str) → List Str → List Str
disk_paths resolve [] = []
disk_paths resolve (item ∷ items) =
    let more = disk_paths resolve items in
    if among (text "id=ans") (split b',' item)
    then files_of resolve (split b',' item) ++ more
    else more

-- The checks before anything is done to the guest or the host. The environments are lists in an order
-- that both have.
unfoldable pub owns : (Str → Str) → Source → Result Failure (Unit {0})
owns resolve s = do
  check (is_safe_tag s.tag) bad_tag
  check s.alive not_alive
  check (s.format == launch_format) bad_launch
  check (is_qemu s.live_argv) not_qemu
  check (s.live_argv == s.argv) other_argv
  check (settings_eq (model_env s.live_env) s.env) other_env
  check (among (resolve s.monitor) (monitor_paths resolve s.argv)) no_monitor
  check (among (resolve s.disk) (disk_paths resolve s.argv)) no_disk
  check s.has_verifier no_verifier
