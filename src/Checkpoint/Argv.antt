-- ===== src/Checkpoint/Argv.antt =====
-- tools/checkpoint_common.py, `restore_argv`.
use darwin_vm.Prelude.{
  ℕ, Bool, true, false, not, ◌&&◌, ◌||◌, List, [], ◌∷◌, ◌++◌, Option, none, some, any, drop, nat_eq,
  list_eq, ◌==◌, if◌then◌else◌,
}
use darwin_vm.Prelude.Result.{Result, ok, raise, ◌>>=◌}
use darwin_vm.Bytes.{text}
use darwin_vm.Bytes.Utf8.{Str}
use darwin_vm.PyInt.{decimal_str}
use darwin_vm.Text.{starts_with, split, join}
use darwin_vm.Checkpoint.{Error, empty_argv, no_drive, no_serial, among, replace_drive_file}

-- What the restored QEMU is given, and the disk that the captured one had.
pub record Places : Type 0 where
  pub resolve : Str → Str
  pub source_disk : Str
  pub restore_disk : Str
  pub monitor : Str
  pub serial : Str
  pub uart : Str
  pub state : Str
  pub gdb_port : Option ℕ

-- The options that the loop tests for, in its order.
pub data Kind : Type 0 where
  dropped monitored drive chardev serial_line daemonize plain : Kind

unfoldable pub kind_of : Str → Kind
kind_of a =
    if among a (text "-incoming" ∷ text "-gdb" ∷ text "-pidfile" ∷ text "-qmp" ∷ [])
    then dropped
    else if a == text "-monitor"
    then monitored
    else if a == text "-drive"
    then drive
    else if a == text "-chardev"
    then chardev
    else if a == text "-serial"
    then serial_line
    else if a == text "-daemonize"
    then daemonize
    else plain

-- The chardevs that some -serial refers to.
unfoldable pub serial_devices : List Str → List Str
serial_devices [] = []
serial_devices (a ∷ []) = []
serial_devices (a ∷ v ∷ rest) =
    let more = serial_devices (v ∷ rest) in
    if a == text "-serial" && starts_with (text "chardev:") v then drop 8 v ∷ more else more

unfoldable pub kept_parts : List Str → List Str
kept_parts [] = []
kept_parts (p ∷ ps) =
    let more = kept_parts ps in
    if not (starts_with (text "path=") p) && not (starts_with (text "logfile=") p)
    then p ∷ more
    else more

-- spec.split(",")[0]
unfoldable pub first_part : List Str → Str
first_part [] = []
first_part (p ∷ ps) = p

-- A chardev that is the guest's console gets the new socket and log; `true` says so.
unfoldable pub rewrite_chardev : Places → List Str → Str → Str × Bool
rewrite_chardev o devices spec =
    let parts = split b',' spec in
    if first_part parts == text "socket" && any (λ d. among (text "id=" ++ d) parts) devices
    then (
      join b',' (kept_parts parts ++ (text "path=" ++ o.uart) ∷ (text "logfile=" ++ o.serial) ∷ []),
      true,
    )
    else (spec, false)

unfoldable pub rewrite_serial : Places → Str → Str × Bool
rewrite_serial o spec =
    if starts_with (text "file:") spec then (text "file:" ++ o.serial, true) else (spec, false)

unfoldable pub monitor_spec : Places → Str
monitor_spec o = text "unix:" ++ (o.monitor ++ text ",server,nowait")

pub record Seen : Type 0 where
  pub out : List Str
  pub saw_monitor : Bool
  pub saw_drive : Bool
  pub saw_serial : Bool

unfoldable pub plus : Seen → List Str → Seen
plus s xs = record s { out = s.out ++ xs }

-- The loop, from some argument on.
unfoldable pub restore_loop : Places → List Str → List Str → Seen → Result Error Seen
restore_loop o devices [] s = ok s
restore_loop o devices (a ∷ []) s = ok (elim (kind_of a) [
  | daemonize ↦ s
  | dropped ↦ plus s (a ∷ [])
  | monitored ↦ plus s (a ∷ [])
  | drive ↦ plus s (a ∷ [])
  | chardev ↦ plus s (a ∷ [])
  | serial_line ↦ plus s (a ∷ [])
  | plain ↦ plus s (a ∷ [])
])
restore_loop o devices (a ∷ v ∷ rest) s = elim (kind_of a) [
  | dropped ↦ restore_loop o devices rest s
  | monitored ↦
      restore_loop o devices rest (record (plus s (a ∷ monitor_spec o ∷ [])) { saw_monitor = true })
  | drive ↦ replace_drive_file o.resolve o.source_disk o.restore_disk v >>= λ v'.
      restore_loop o devices rest
        (record (plus s (a ∷ v' ∷ [])) { saw_drive = s.saw_drive || not (v' == v) })
  | chardev ↦
      let (v', is_console) = rewrite_chardev o devices v in
      restore_loop o devices rest
        (record (plus s (a ∷ v' ∷ [])) { saw_serial = s.saw_serial || is_console })
  | serial_line ↦
      let (v', is_file) = rewrite_serial o v in
      restore_loop o devices rest
        (record (plus s (a ∷ v' ∷ [])) { saw_serial = s.saw_serial || is_file })
  | daemonize ↦ restore_loop o devices (v ∷ rest) s
  | plain ↦ restore_loop o devices (v ∷ rest) (plus s (a ∷ []))
]

-- What is put behind the arguments.
unfoldable pub stopped : List Str → List Str
stopped out = if among (text "-S") out then out else out ++ text "-S" ∷ []

unfoldable pub ending : Places → List Str
ending o =
    elim o.gdb_port [
      | none ↦ []
      | some port ↦ text "-gdb" ∷ (text "tcp::" ++ decimal_str port) ∷ []
    ]
    ++ text "-incoming" ∷ (text "file:" ++ o.state) ∷ []

unfoldable pub restore_argv : Places → List Str → Result Error (List Str)
restore_argv o [] = raise empty_argv
restore_argv o (program ∷ args) = do
  s ←
      restore_loop o (serial_devices (program ∷ args)) args
        (record { out = program ∷ []; saw_monitor = false; saw_drive = false; saw_serial = false })
  if not s.saw_drive
      then raise no_drive
      else let out =
          if s.saw_monitor then s.out else s.out ++ text "-monitor" ∷ monitor_spec o ∷ [] in
        if not s.saw_serial then raise no_serial else ok (stopped out ++ ending o)
