-- ===== src/Create/Tests.antt =====
-- A guest of which a checkpoint is made, and one that is refused.
use darwin_vm.Prelude.{
  ◌≡◌, refl, Bool, true, false, List, [], ◌∷◌, none, some, replicate, take, drop,
}
use darwin_vm.Prelude.Result.{Result, ok, raise}
use darwin_vm.Bytes.{text}
use darwin_vm.Bytes.Utf8.{Str}
use darwin_vm.Text.{starts_with, contains, partition, rpartition, split}
use darwin_vm.PyInt.{digit}
use darwin_vm.Serial.Main.{is_white}
use darwin_vm.Checkpoint.{among}
use darwin_vm.Checkpoint.Texts.{
  is_digit, is_hex, lower, lowered, is_letter, is_word, starts_word, span, hex_value, decimal_value,
  star_cpu, star_cpus, the_only, selected_cpu_index, hex_after, parse_pc, line_starts, status_here,
  status_line, first_status, parse_migration_status,
}
use darwin_vm.Checkpoint.Chain.{qcow2_backing_chain, describe, check_start}
use darwin_vm.Checkpoint.Manifest.{
  File, Manifest, launch_format, content_of, is_safe_tag, is_model_key, model_env,
}
use darwin_vm.Checkpoint.Session.{
  Session, Failure, not_alive, act, answer, ask, lift, require, keep, note,
}
use darwin_vm.Create.{
  Source, owns, settings_eq, last_part, file_name, is_qemu, monitor_paths, files_of, disk_paths,
}
use darwin_vm.Create.Run.{
  create, as_owner, in_new_directory, checkpoint_guest, migrating, find_marker, mark, mark_at,
  describe_guest, pause_guest, take_inventory, start_migration, keep_state, move_state, analyze_if,
  end_guest,
}
use darwin_vm.Create.Given.{
  Given, with_mode, chmod, state_path_of, kept_files, has_state, hashed_input, hash_inputs,
  first_program, is_child, first_sha, sha_of, sha_at, manifest_of,
}

abbrev program : Str
program = text "qemu-system-aarch64"

abbrev arguments : List Str
arguments = program ∷ text "unix:m,server" ∷ text "id=ans,file=d" ∷ []

abbrev source : Bool → Source
source alive = record {
  tag = text "t";
  alive = alive;
  live_argv = arguments;
  live_env = [];
  format = launch_format;
  argv = arguments;
  env = [];
  monitor = text "m";
  disk = text "d";
  has_verifier = true;
}

abbrev pub a_page : File
a_page = record { content = replicate 4096 0; mode = 420 }

abbrev pub given : Bool → Given
given alive = record {
  resolve = λ p. p;
  source = source alive;
  out = text "o";
  out_exists = false;
  pid = 7;
  serial_text = [];
  marker = none;
  clock = 0;
  timeout = 5;
  polls = record { now = 1; alive = true } ∷ record { now = 2; alive = true } ∷ [];
  process_ends = true;
  has_analyzer = false;
  disk_checks = true;
  infos =
      record { filename = text "d"; format = text "qcow2"; virtual_size = 1 }
      ∷ record { filename = text "b"; format = text "qcow2"; virtual_size = 1 }
      ∷ [];
  files = λ p. some a_page;
  sha256 = λ b. take 1 b;
}

abbrev pub opening : Session
opening = record {
  trace = [];
  replies =
      []
      ∷ text "VM status: paused"
      ∷ text "PC=1f"
      ∷ []
      ∷ []
      ∷ text "* CPU #0:"
      ∷ []
      ∷ []
      ∷ []
      ∷ []
      ∷ text "Status: active"
      ∷ text "Status: completed"
      ∷ []
      ∷ [];
}

abbrev pub Making : Type 0
Making = Result (Failure × Session) (Manifest × Session)

abbrev pub session_in : Making → Session
session_in (ok (m, t)) = t
session_in (raise (r, t)) = t

abbrev refusal_in : Making → Failure
refusal_in (ok x) = not_alive
refusal_in (raise (r, t)) = r

abbrev pub has_made : Making → Bool
has_made (ok x) = true
has_made (raise e) = false

pub nothing_made : {A : Type 0} → false ≡ true → A
nothing_made h = absurd (cc)

abbrev pub manifest_in : (r : Making) → has_made r ≡ true → Manifest
manifest_in (ok (m, t)) h = m
manifest_in (raise e) h = nothing_made h

pub is_made : (r : Making) (h : has_made r ≡ true) → r ≡ ok (manifest_in r h, session_in r)
is_made (ok (m, t)) h = refl
is_made (raise e) h = absurd (cc)

pub made_runs : has_made (create (given true) opening) ≡ true
unfolding create owns as_owner in_new_directory checkpoint_guest settings_eq file_name last_part
    is_qemu monitor_paths files_of disk_paths migrating find_marker mark mark_at with_mode chmod
    state_path_of kept_files has_state hashed_input hash_inputs first_program is_child first_sha
    sha_of sha_at manifest_of describe_guest pause_guest take_inventory start_migration keep_state
    move_state analyze_if end_guest is_digit is_hex lower lowered is_letter is_word starts_word span
    hex_value decimal_value star_cpu star_cpus the_only selected_cpu_index hex_after parse_pc
    line_starts status_here status_line first_status parse_migration_status content_of is_safe_tag
    is_model_key model_env act answer ask lift require keep note starts_with contains partition
    rpartition split among drop take replicate is_white qcow2_backing_chain describe check_start
    digit
made_runs = refl
