-- ===== src/Restore/Launch.antt =====
-- tools/restore_checkpoint.py: the arguments and the environment of the restored QEMU, and the launch
-- manifest that is left of them. A dictionary is the list of its settings, in their order.
use darwin_vm.Prelude.{
  true, false, not, List, [], ◌∷◌, ◌++◌, Option, none, some, nat_eq, list_eq, ◌==◌, if◌then◌else◌,
}
use darwin_vm.Prelude.Result.{Result, ok, raise, ◌>>=◌}
use darwin_vm.Bytes.{text}
use darwin_vm.Bytes.Utf8.{Str}
use darwin_vm.Checkpoint.{among}
use darwin_vm.Checkpoint.Argv.{Places, restore_argv}
use darwin_vm.Checkpoint.Manifest.{Manifest, is_model_key, model_env}
use darwin_vm.Restore.{
  Rejection, broken, bad_display, put, Host, Options, Accepted, monitor_path, uart_path, qmp_path,
}

-- argv[0] = str(qemu)
unfoldable pub set_program : Str → List Str → List Str
set_program qemu [] = []
set_program qemu (p ∷ args) = qemu ∷ args

-- argv[argv.index("-display") + 1] = display, where it is there; `none` where nothing stands behind it.
unfoldable pub set_display : Str → List Str → Option (List Str)
set_display display [] = none
set_display display (a ∷ []) = none
set_display display (a ∷ v ∷ rest) = elim (a == text "-display") [
  | true ↦ some (a ∷ display ∷ rest)
  | false ↦ elim (set_display display (v ∷ rest)) [ none ↦ none | some more ↦ some (a ∷ more) ]
]

unfoldable pub displayed : Option Str → List Str → Result Rejection (List Str)
displayed none argv = ok argv
displayed (some display) argv =
    if among (text "-display") argv
    then (elim (set_display display argv) [ none ↦ raise bad_display | some changed ↦ ok changed ])
    else ok (argv ++ text "-display" ∷ display ∷ [])

unfoldable pub qmp_spec : Options → Str
qmp_spec o = text "unix:" ++ (qmp_path o ++ text ",server=on,wait=off")

unfoldable pub with_qmp : Options → List Str → List Str
with_qmp o argv = if o.leave_paused then argv ++ text "-qmp" ∷ qmp_spec o ∷ [] else argv

unfoldable pub places_of : Host → Options → Manifest → Places
places_of host o m = record {
  resolve = host.resolve;
  source_disk = m.disk_path;
  restore_disk = o.out ++ text "/disk.qcow2";
  monitor = monitor_path o;
  serial = o.out ++ text "/serial.log";
  uart = uart_path o;
  state = m.state_path;
  gdb_port = o.gdb_port;
}

unfoldable pub launch_argv : Host → Options → Manifest → Accepted → Result Rejection (List Str)
launch_argv host o m a = elim (restore_argv (places_of host o m) m.qemu_argv) [
  | raise e ↦ raise (broken e)
  | ok argv ↦ displayed o.display (set_program a.qemu argv) >>= λ argv. ok (with_qmp o argv)
]

-- The settings of the host that are not the model's.
unfoldable pub host_env : List (Str × Str) → List (Str × Str)
host_env [] = []
host_env (kv ∷ env) = let more = host_env env in if not (is_model_key kv.0) then kv ∷ more else more

-- env.update(settings)
unfoldable pub updated : List (Str × Str) → List (Str × Str) → List (Str × Str)
updated env [] = env
updated env (kv ∷ settings) = updated (put kv.0 kv.1 env) settings

unfoldable pub launch_env : List (Str × Str) → Manifest → Accepted → List (Str × Str)
launch_env environ m a = updated (updated (host_env environ) m.qemu_env) a.overrides

-- launch.json
pub record Launch : Type 0 where
  pub argv : List Str
  pub env : List (Str × Str)

unfoldable pub launch_of : List Str → List (Str × Str) → Launch
launch_of argv env = record { argv = argv; env = model_env env }
