-- ===== src/Restore/Run.antt =====
-- tools/restore_checkpoint.py, from the start of QEMU on: the wait for the migration, the checks of the
-- paused guest, its observation, the report, and the end of the child when something fails. The
-- measures of memory and of time are left out.
pub mod Steps
pub mod Safe
pub mod Verified
pub mod Guarded
use darwin_vm.Prelude.{
  ℕ, ◌+◌, Bool, true, false, not, ◌&&◌, ◌||◌, List, [], ◌∷◌, ◌++◌, Option, none, some, any, length,
  drop, leb, ltb, nat_eq, list_eq, ◌==◌, if◌then◌else◌,
}
use darwin_vm.Prelude.Result.{Result, ok, raise, ◌>>=◌}
use darwin_vm.Bytes.{Bytes, text}
use darwin_vm.Bytes.Utf8.{Str, decode_replace}
use darwin_vm.PyInt.{decimal_str}
use darwin_vm.Text.{contains}
use darwin_vm.Checkpoint.Texts.{
  selected_cpu_index, parse_pc, parse_migration_status, serial_hex_clock_bounds,
}
use darwin_vm.Checkpoint.Session.{
  Failure, timed_out, exited, migration_failed, other_cpu, other_pc, advanced, not_paused, Deed,
  launched, terminated, killed, reaped, wrote, wrote_report, command, Session, M, act, ask, lift,
  require, note, Tick,
}
use darwin_vm.Checkpoint.Sptm.{sptm_panic_message}
use darwin_vm.Restore.Qmp.{Message, activate_paused_disks}
use darwin_vm.Restore.Panic.{
  panic_mark, last_bytes, boot_patterns, found_in, first_panic, lines_from, Traffic, traffic_of,
  clock_continued,
}
use darwin_vm.Restore.Child.{Round, Child, Wanted, Report, report_of, is_panicked}

-- The wait for the paused guest: the clock of a round is read at its end.
unfoldable pub incoming : ℕ → List Tick → M (Unit {0})
incoming deadline [] s = raise (timed_out, s)
incoming deadline (p ∷ ps) s = elim p.alive [
  | false ↦ raise (exited, s)
  | true ↦ ask (text "info status") s >>= λ (status, s).
      ask (text "info migrate -a") s >>= λ (migration, s).
      let found = parse_migration_status migration in
      elim (contains (text "paused") status && found == text "completed") [
        | true ↦ ok (tt, s)
        | false ↦ elim (found == text "failed" || found == text "cancelled") [
          | true ↦ raise (migration_failed, s)
          | false ↦ elim (leb deadline p.now) [
            | true ↦ raise (timed_out, s)
            | false ↦ incoming deadline ps s
          ]
        ]
      ]
]

-- The guest has the checkpoint's CPU and program counter.
unfoldable pub verify_cpu : Wanted → M (Unit {0})
verify_cpu w s = do
  (_, s) ← ask (text "cpu " ++ decimal_str w.cpu) s
  (cpus, s) ← ask (text "info cpus") s
  (cpu, s) ← lift (selected_cpu_index cpus) s
  require (cpu == w.cpu) other_cpu s

unfoldable pub verify_pc : Wanted → M Str
verify_pc w s = do
  (registers, s) ← ask (text "info registers") s
  (pc, s) ← lift (parse_pc registers) s
  (_, s) ← note (wrote (text "pre-resume-registers.txt")) s
  (_, s) ← require (pc == w.source_pc) other_pc s
  ok (pc, s)

unfoldable pub wait_restored : Child → Wanted → M Str
wait_restored c w s = do
  (_, s) ← require c.socket_appears timed_out s
  (_, s) ← incoming c.deadline c.polls s
  (_, s) ← verify_cpu w s
  verify_pc w s

-- With --leave-paused the disks are activated and the guest must stand where it stood.
unfoldable pub activate : Child → Str → M (Unit {0})
activate c pc s = do
  (_, s) ← activate_paused_disks c.stream s
  (status, s) ← ask (text "info status") s
  (_, s) ← require (contains (text "paused") status) advanced s
  (registers, s) ← ask (text "info registers") s
  (now, s) ← lift (parse_pc registers) s
  require (now == pc) advanced s

unfoldable pub resume : M (Unit {0})
resume s = ask (text "cont") s >>= λ (_, s). ok (tt, s)

unfoldable pub set_going : Bool → Child → Str → M (Unit {0})
set_going true c pc s = activate c pc s
set_going false c pc s = resume s

-- The loop of the observation, with the offset up to which the log has been read and the tail of it;
-- the result says whether a panic was seen. Where the rounds end, the deadline has passed.
unfoldable pub observe : ℕ → ℕ → Bytes → List Round → M Bool
observe deadline offset tail [] s = ok (false, s)
observe deadline offset tail (r ∷ rs) s = elim (leb deadline r.now) [
  | true ↦ ok (false, s)
  | false ↦ elim r.alive [
    | false ↦ raise (exited, s)
    | true ↦ elim (ltb offset (length r.serial)) [
      | false ↦ observe deadline offset tail rs s
      | true ↦
          let scan = tail ++ drop offset r.serial in
          elim (contains panic_mark scan) [
            | true ↦ ok (true, s)
            | false ↦ observe deadline (length r.serial) (last_bytes scan) rs s
          ]
    ]
  ]
]

unfoldable pub inspect : Child → Wanted → Str → Bool → M Report
inspect c w pc panic_seen s = do
  (_, s) ← ask (text "stop") s
  (registers, s) ← ask (text "info registers") s
  (after_pc, s) ← lift (parse_pc registers) s
  (sptm, s) ← sptm_panic_message registers s
  (_, s) ← note (wrote (text "post-observation-registers.txt")) s
  (_, s) ← note wrote_report s
  ok (report_of c w pc after_pc panic_seen sptm, s)

-- proc.wait with a limit, `terminate` where it is passed, and a wait with a limit again
unfoldable pub wait_terminated : Bool → Child → M (Unit {0})
wait_terminated true c s = ok (tt, act reaped s)
wait_terminated false c s =
    require c.ends_on_terminate timed_out (act terminated s) >>= λ (_, s). ok (tt, act reaped s)

-- A panicked guest ends; one that is to run goes on.
unfoldable pub leave : Bool → Bool → Child → M (Unit {0})
leave true paused c s = ask (text "quit") s >>= λ (_, s). wait_terminated c.ends_on_quit c s
leave false true c s = ok (tt, s)
leave false false c s = resume s

unfoldable pub observe_seconds_of : Wanted → ℕ
observe_seconds_of w = if w.leave_paused then 0 else w.observe_seconds

-- The body of the try statement: the checks of the guest, and what follows them.
unfoldable pub follow :
    Child → Wanted → Str × Session → Result (Failure × Session) (Report × Session)
follow c w (pc, s) = do
  (_, s) ← set_going w.leave_paused c pc s
  (panic_seen, s) ←
      observe (c.starts_at + observe_seconds_of w) (length c.serial_before) [] c.rounds s
  (report, s) ← inspect c w pc panic_seen s
  (_, s) ← leave (is_panicked report) w.leave_paused c s
  ok (report, s)

unfoldable pub attend : Child → Wanted → M Report
attend c w s = wait_restored c w s >>= follow c w

-- The order to quit, or `terminate` where the monitor does not answer.
unfoldable pub told : Result (Failure × Session) (Str × Session) → Session
told (ok (_, s)) = s
told (raise (_, s)) = act terminated s

-- proc.wait with a limit, and `kill` where it is passed
unfoldable pub wait_killed : Bool → Session → Session
wait_killed true s = act reaped s
wait_killed false s = act reaped (act killed s)

-- The except clause: only the child that was started is ended.
unfoldable pub reap_if : Bool → Child → Session → Session
reap_if true c s = s
reap_if false c s = wait_killed c.ends_when_told (told (ask (text "quit") s))

unfoldable pub reap : Child → Session → Session
reap c s = reap_if c.has_exited c s

unfoldable pub or_reap :
    Child
    → Result (Failure × Session) (Report × Session)
    → Result (Failure × Session) (Report × Session)
or_reap c (ok x) = ok x
or_reap c (raise (r, s)) = raise (r, reap c s)

unfoldable pub restore : Child → Wanted → M Report
restore c w s = or_reap c (attend c w (act launched s))
