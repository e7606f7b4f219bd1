-- ===== src/Restore/Tests.antt =====
-- tools/restore_checkpoint.py: a guest that is restored, one that is another, and the options of a restore.
use darwin_vm.Prelude.{
  if◌then◌else◌, not, ◌≡◌, refl, Bool, true, false, List, [], ◌∷◌, ◌++◌, none, some, take, drop,
}
use darwin_vm.Prelude.Result.{Result, ok, raise}
use darwin_vm.Bytes.{Bytes, text}
use darwin_vm.Bytes.Utf8.{Str}
use darwin_vm.PyInt.{pos, decimal_str, to_digits, digit_char, digit}
use darwin_vm.Text.{starts_with, contains, split}
use darwin_vm.Serial.Main.{is_white}
use darwin_vm.Checkpoint.Texts.{
  is_digit, is_hex, lower, lowered, is_letter, is_word, starts_word, span, hex_value, decimal_value,
  star_cpu, star_cpus, the_only, selected_cpu_index, hex_after, parse_pc, line_starts, status_here,
  status_line, first_status, parse_migration_status,
}
use darwin_vm.Checkpoint.Manifest.{is_model_key, Manifest, is_safe_tag}
use darwin_vm.Checkpoint.Session.{
  Session, Failure, timed_out, act, answer, ask, lift, require, note, launched,
}
use darwin_vm.Create.Run.{create}
use darwin_vm.Create.Given.{first_program, kept_files, chmod, with_mode, state_path_of}
use darwin_vm.Create.Run.Created.{IsCreated, create-IsCreated}
use darwin_vm.Create.Tests.{a_page, given, opening, session_in, manifest_in, is_made, made_runs}
use darwin_vm.Restore.{
  recorded, is_negative, Options, Accepted, parse_model_env_overrides, overrides_from, preflight,
}
use darwin_vm.Restore.Left.{left_host}
use darwin_vm.Restore.OfCreated.{IsUsable, preflight-create}
use darwin_vm.Restore.Main.{Setting, IsChecked, session_end, main, main-IsChecked}
use darwin_vm.Restore.Launch.{launch_env, launch_of}
use darwin_vm.Restore.Environment.{last_value, or_else, launch_env-recorded}
use darwin_vm.Restore.Panic.{panic_mark, joined, scan_reads, scan_reads-contains}
use darwin_vm.Restore.Run.{
  incoming, verify_cpu, verify_pc, wait_restored, attend, or_reap, reap, reap_if, told, wait_killed,
  restore,
}
use darwin_vm.Restore.Child.{Child, Wanted, Report}
use darwin_vm.Restore.Run.Guarded.{end_of, IsReaped, restore-IsReaped}

abbrev options : Options
options = record {
  tag = text "again";
  observe_seconds = pos 3;
  leave_paused = false;
  gdb_port = none;
  qemu = none;
  env_overrides = [];
  display = none;
  out = text "o2";
}

usable : IsUsable options (λ p. false)
unfolding parse_model_env_overrides overrides_from is_safe_tag is_word is_digit is_letter lower
    is_negative
usable = record {
  overrides = [];
  parsed = refl;
  safe = refl;
  natural = refl;
  own_qemu = refl;
  no_monitor = refl;
  no_uart = refl;
  no_qmp = refl;
  free = refl;
}

abbrev made_manifest : Manifest
made_manifest = manifest_in (create (given true) opening) made_runs

created : IsCreated (given true) opening (session_in (create (given true) opening)) made_manifest
created =
    create-IsCreated (given true) opening (session_in (create (given true) opening)) made_manifest
      (is_made (create (given true) opening) made_runs)

qemu_there : kept_files (given true) (first_program (given true).source.argv) ≡ some a_page
unfolding kept_files chmod with_mode first_program state_path_of
qemu_there = refl

preflight-create_example :
    (a : Accepted) × (preflight (left_host (given true) (λ p. false)) options made_manifest ≡ ok a)
    × (a.cpu ≡ created.cpu)
    × (a.overrides ≡ usable.overrides)
preflight-create_example =
    preflight-create (given true) (λ p. false) opening (session_in (create (given true) opening))
      made_manifest created (λ p. refl) options usable a_page qemu_there

abbrev child : Child
child = record {
  pid = 9;
  socket_appears = true;
  deadline = 120;
  polls = record { now = 1; alive = true } ∷ [];
  stream = [];
  serial_before = text "boot";
  stderr_before = 0;
  starts_at = 2;
  rounds =
      record { now = 2; alive = true; serial = text "boot panic(c" }
      ∷ record { now = 3; alive = true; serial = text "boot panic(cpu 0" }
      ∷ [];
  serial_after = text "boot panic(cpu 0";
  stderr_after = [];
  ends_on_quit = true;
  ends_on_terminate = true;
  ends_when_told = true;
  has_exited = false;
}

abbrev wanted : Wanted
wanted = record {
  cpu = 0;
  source_pid = 7;
  source_pc = text "1f";
  source_clock_last = none;
  leave_paused = false;
  observe_seconds = 3;
}

abbrev replies_to : Str → Session
replies_to pc = record {
  trace = [];
  replies =
      text "VM status: paused"
      ∷ text "Status: completed"
      ∷ []
      ∷ text "* CPU #0:"
      ∷ (text "PC=" ++ pc)
      ∷ []
      ∷ []
      ∷ text "PC=2f"
      ∷ []
      ∷ [];
}

abbrev environ : List (Str × Str)
environ = (text "HOME", text "/h") ∷ (text "DARWIN_A", text "0") ∷ []

abbrev setting : Setting
setting = record {
  host = left_host (given true) (λ p. false);
  environ = environ;
  makes_disk = true;
  child = child;
}

main-IsChecked_example :
    IsChecked setting options made_manifest
      (replies_to (text "1f"))
      (session_end (main setting options made_manifest (replies_to (text "1f"))))
main-IsChecked_example = main-IsChecked setting options made_manifest (replies_to (text "1f"))

abbrev Restoring : Type 0
Restoring = Result (Failure × Session) (Report × Session)

abbrev refusal_in : Restoring → Failure
refusal_in (ok x) = timed_out
refusal_in (raise (r, t)) = r

abbrev has_failed : Restoring → Bool
has_failed (ok x) = false
has_failed (raise e) = true

failed_run : (r : Restoring) → has_failed r ≡ true → r ≡ raise (refusal_in r, end_of r)
unfolding end_of
failed_run (ok x) h = absurd (cc)
failed_run (raise (r, t)) h = refl

abbrev other_guest : Session
other_guest = replies_to (text "3f")

-- The guest stands at another program counter.
other_guest_fails : has_failed (restore child wanted other_guest) ≡ true
unfolding restore attend or_reap reap reap_if told wait_killed wait_restored incoming verify_cpu
    verify_pc decimal_str to_digits digit_char digit starts_with contains split is_white is_digit
    is_hex lower lowered is_letter is_word starts_word span hex_value decimal_value star_cpu
    star_cpus the_only selected_cpu_index hex_after parse_pc line_starts status_here status_line
    first_status parse_migration_status act answer ask lift require note take drop
other_guest_fails = refl

restore-IsReaped_example :
    (u : Session) × (attend child wanted (act launched other_guest)
      ≡ raise (refusal_in (restore child wanted other_guest), u))
    × IsReaped child u (end_of (restore child wanted other_guest))
restore-IsReaped_example =
    restore-IsReaped child wanted other_guest (end_of (restore child wanted other_guest))
      (refusal_in (restore child wanted other_guest)) refl
      (failed_run (restore child wanted other_guest) other_guest_fails)

abbrev reads : List Bytes
reads = text " panic(c" ∷ text "pu 0" ∷ []

scan_reads-contains_example : scan_reads [] reads ≡ contains panic_mark (joined reads)
scan_reads-contains_example = scan_reads-contains reads

abbrev accepted : Accepted
accepted = record {
  overrides = (text "DARWIN_B", text "2") ∷ [];
  cpu = 0;
  qemu = text "q";
  expected_qemu = none;
  actual_qemu = [];
}

launch_env-recorded_example :
    (recorded (text "DARWIN_B") (launch_env environ made_manifest accepted)
      ≡ or_else (last_value (text "DARWIN_B") accepted.overrides) (
          or_else (last_value (text "DARWIN_B") made_manifest.qemu_env) (
            if not (is_model_key (text "DARWIN_B"))
            then recorded (text "DARWIN_B") environ
            else none)))
    × (recorded (text "DARWIN_B") (launch_of [] (launch_env environ made_manifest accepted)).env ≡ (
        if is_model_key (text "DARWIN_B")
        then recorded (text "DARWIN_B") (launch_env environ made_manifest accepted)
        else none))
launch_env-recorded_example =
    launch_env-recorded (text "DARWIN_B") environ made_manifest accepted []
