-- ===== src/Create/Run.antt =====
-- tools/create_checkpoint.py, from the directory of the checkpoint on. The files are those that are
-- there when they are hashed, after the guest has ended and its disk is frozen.
pub mod Order
pub mod Refused
pub mod Trace
pub mod Described
pub mod Heard
pub mod Created
use darwin_vm.Prelude.{
  ℕ, ◌+◌, ◌-◌, ◌*◌, Bool, true, false, not, ◌||◌, List, [], ◌∷◌, ◌++◌, Option, none, some, length,
  take, drop, leb, ltb, nat_eq, list_eq, ◌==◌, if◌then◌else◌,
}
use darwin_vm.Prelude.Result.{Result, ok, raise, ◌>>=◌}
use darwin_vm.Bytes.{Bytes, text}
use darwin_vm.Bytes.Utf8.{Str}
use darwin_vm.PyInt.{pos}
use darwin_vm.Text.{contains, partition, rpartition}
use darwin_vm.Checkpoint.{Error, qemu_input_files}
use darwin_vm.Checkpoint.Texts.{
  selected_cpu_index, parse_pc, parse_migration_status, serial_hex_clock_bounds,
}
use darwin_vm.Checkpoint.Chain.{Info, Entry, qcow2_backing_chain}
use darwin_vm.Checkpoint.Manifest.{File, content_of, Manifest, whole, checkpoint_format, model_env}
use darwin_vm.Create.{Source, owns}
use darwin_vm.Checkpoint.Session.{
  Failure, tag_taken, no_reply, not_paused, no_marker, exited, timed_out, migration_failed,
  short_state, still_running, bad_disk, not_child, failed, Deed, command, wrote, made_directory,
  state_private, process_ended, disk_frozen, wrote_manifest, Session, M, act, ask, lift, require,
  keep, note, Tick,
}
use darwin_vm.Create.Given.{
  Given, line_around, last_clock, with_mode, chmod, state_path_of, kept_files, has_state,
  hashed_input, hash_inputs, first_program, is_child, first_sha, sha_of, sha_at, manifest_of,
}

unfoldable pub migrating : ℕ → List Tick → M (Unit {0})
migrating deadline [] s = raise (timed_out, s)
migrating deadline (p ∷ ps) s = elim (leb deadline p.now) [
  | true ↦ raise (timed_out, s)
  | false ↦ elim p.alive [
    | false ↦ raise (exited, s)
    | true ↦ ask (text "info migrate -a") s >>= λ (r, t).
        let status = parse_migration_status r in
        elim (status == text "completed") [
          | true ↦ ok (tt, t)
          | false ↦ elim (status == text "failed" || status == text "cancelled") [
            | true ↦ raise (migration_failed, t)
            | false ↦ migrating deadline ps t
          ]
        ]
  ]
]

unfoldable pub mark_at : Given → Option (ℕ × ℕ) → M (Option Str)
mark_at g none s = raise (no_marker, s)
mark_at g (some (start, stop)) s =
    ok (some (line_around g.serial_text start stop), act (wrote (text "guest-marker.txt")) s)

unfoldable pub mark : Given → Option (Str → Option (ℕ × ℕ)) → M (Option Str)
mark g none s = ok (none, s)
mark g (some search) s = mark_at g (search g.serial_text) s

unfoldable pub find_marker : Given → M (Option Str)
find_marker g s = mark g g.marker s

-- The guest is stopped, and its program counter read.
unfoldable pub pause_guest : M Str
pause_guest s = do
  (_, s) ← ask (text "stop") s
  (status, s) ← ask (text "info status") s
  (_, s) ← require (contains (text "paused") status) not_paused s
  (registers, s) ← ask (text "info registers") s
  (pc, s) ← lift (parse_pc registers) s
  (_, s) ← note (wrote (text "pre-checkpoint-registers.txt")) s
  ok (pc, s)

-- The inventory, with the CPU that the program counter belongs to
unfoldable pub take_inventory : M ℕ
take_inventory s = do
  (_, s) ← keep (text "info qtree") (text "qtree.txt") s
  (_, s) ← keep (text "info mtree") (text "mtree.txt") s
  (cpus, s) ← ask (text "info cpus") s
  (cpu, s) ← lift (selected_cpu_index cpus) s
  (_, s) ← note (wrote (text "cpus.txt")) s
  (_, s) ← keep (text "info block") (text "block.txt") s
  ok (cpu, s)

unfoldable pub describe_guest : M (Str × ℕ)
describe_guest s = do (pc, s) ← pause_guest s; (cpu, s) ← take_inventory s; ok ((pc, cpu), s)

unfoldable pub start_migration : Given → M (Unit {0})
start_migration g s = do
  (_, s) ← keep (text "qemu-io ans \"flush\"") (text "block-flush.txt") s
  (_, s) ← ask (text "migrate_set_parameter max-bandwidth 0") s
  (_, s) ← ask (text "migrate -d file:" ++ state_path_of g) s
  ok (tt, s)

unfoldable pub keep_state : Given → M (Unit {0})
keep_state g s = do
  (_, s) ← note (wrote (text "migration-status.txt")) s
  (_, s) ← require (has_state g) short_state s
  note state_private s

unfoldable pub move_state : Given → M (Unit {0})
move_state g s = do
  (_, s) ← start_migration g s
  (_, s) ← migrating (g.clock + g.timeout) g.polls s
  keep_state g s

unfoldable pub analyze_if : Bool → M (Unit {0})
analyze_if true s = note (wrote (text "migration-description.txt")) s
analyze_if false s = ok (tt, s)

-- The guest ends, its disk is frozen and described.
unfoldable pub end_guest : Given → M (List Entry)
end_guest g s = do
  (_, s) ← ask (text "quit") s
  (_, s) ← require g.process_ends still_running s
  (_, s) ← note process_ended s
  (_, s) ← note disk_frozen s
  (_, s) ← analyze_if g.has_analyzer s
  (_, s) ← require g.disk_checks bad_disk s
  (_, s) ← note (wrote (text "disk-check.txt")) s
  (chain, s) ←
      lift
        (qcow2_backing_chain (content_of (kept_files g)) g.sha256 g.resolve g.infos
          (g.resolve g.source.disk))
        s
  (_, s) ← require (is_child chain) not_child s
  ok (chain, s)

unfoldable pub checkpoint_guest : Given → M Manifest
checkpoint_guest g s = do
  (_, s) ← note made_directory s
  ((pc, cpu), s) ← describe_guest s
  (_, s) ← find_marker g s
  (_, s) ← move_state g s
  (chain, s) ← end_guest g s
  let m = manifest_of g pc cpu chain
  (_, s) ← note (wrote_manifest m) s
  ok (m, s)

-- out.mkdir(exist_ok=False), and what follows
unfoldable pub in_new_directory : Bool → Given → M Manifest
in_new_directory true g s = raise (tag_taken, s)
in_new_directory false g s = checkpoint_guest g s

unfoldable pub as_owner : Result Failure (Unit {0}) → Given → M Manifest
as_owner (raise r) g s = raise (r, s)
as_owner (ok _) g s = in_new_directory g.out_exists g s

unfoldable pub create : Given → M Manifest
create g s = as_owner (owns g.resolve g.source) g s
