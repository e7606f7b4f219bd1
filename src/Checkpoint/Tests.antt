-- ===== src/Checkpoint/Tests.antt =====
-- tools/checkpoint_common.py: a captured QEMU, a disk of two files and a small buffer.
use darwin_vm.Prelude.{
  ◌≡◌, ◌↔◌, refl, List, [], ◌∷◌, ◌++◌, Option, none, some, drop, nat_eq, list_eq, ◌==◌, arith,
  if◌then◌else◌,
}
use darwin_vm.Prelude.Result.{ok}
use darwin_vm.Bytes.{Bytes, text}
use darwin_vm.Bytes.Utf8.{Str}
use darwin_vm.PyInt.{decimal_str, to_digits, digit_char}
use darwin_vm.Text.{starts_with, split, join, partition}
use darwin_vm.Checkpoint.{among, input_files_of, qemu_input_files, replace_part, replace_drive_file}
use darwin_vm.Checkpoint.Argv.{
  Places, kind_of, serial_devices, kept_parts, first_part, rewrite_chardev, rewrite_serial,
  monitor_spec, plus, restore_loop, stopped, ending, restore_argv,
}
use darwin_vm.Checkpoint.Restored.{IsRestored, restore_argv-IsRestored}
use darwin_vm.Checkpoint.Chain.{
  Info, Entry, describe, check_start, qcow2_backing_chain, verify_backing_chain, IsChain,
  verify_backing_chain-IsChain,
}
use darwin_vm.Checkpoint.Procargs.{
  parse_procargs, procargs, not_empty, parse_proc, settings_of, filled, parse_procargs-procargs,
}

abbrev same_path : Str → Str
same_path p = p

abbrev places : Places
places = record {
  resolve = same_path;
  source_disk = text "/a";
  restore_disk = text "/b";
  monitor = text "/m";
  serial = text "/l";
  uart = text "/u";
  state = text "/s";
  gdb_port = some 7;
}

abbrev args : List Str
args =
    text "-drive"
    ∷ text "id=ans,file=/a,if=none"
    ∷ text "-chardev"
    ∷ text "socket,id=c,path=/old"
    ∷ text "-serial"
    ∷ text "chardev:c"
    ∷ text "-qmp"
    ∷ text "unix:/q"
    ∷ text "-dtree"
    ∷ text "/t"
    ∷ text "-daemonize"
    ∷ []

abbrev restored : List Str
restored =
    text "qemu"
    ∷ text "-drive"
    ∷ text "id=ans,file=/b,if=none"
    ∷ text "-chardev"
    ∷ text "socket,id=c,path=/u,logfile=/l"
    ∷ text "-serial"
    ∷ text "chardev:c"
    ∷ text "-dtree"
    ∷ text "/t"
    ∷ text "-monitor"
    ∷ text "unix:/m,server,nowait"
    ∷ text "-S"
    ∷ text "-gdb"
    ∷ text "tcp::7"
    ∷ text "-incoming"
    ∷ text "file:/s"
    ∷ []

restoring : restore_argv places (text "qemu" ∷ args) ≡ ok restored
unfolding restore_argv restore_loop kind_of serial_devices kept_parts first_part rewrite_chardev
    rewrite_serial monitor_spec plus stopped ending among replace_part replace_drive_file
    starts_with split join drop decimal_str to_digits digit_char
restoring = refl

restore_argv-IsRestored_example : IsRestored places (text "qemu") args restored
restore_argv-IsRestored_example =
    restore_argv-IsRestored places (refl, (refl, tt)) (text "qemu") args restored restoring

inputs : qemu_input_files same_path (text "qemu" ∷ args) ≡ text "/t" ∷ []
unfolding qemu_input_files input_files_of among drop
inputs = refl

replacing :
    replace_drive_file same_path (text "/a") (text "/b") (text "id=ans,file=/a,if=none")
    ≡ ok (text "id=ans,file=/b,if=none")
unfolding replace_drive_file replace_part among starts_with split join drop
replacing = refl

abbrev file : Str → Option Bytes
file p =
    if p == text "/a" then some (1 ∷ 2 ∷ []) else if p == text "/base" then some (3 ∷ []) else none

abbrev sha256 : Bytes → Str
sha256 b = 120 ∷ b

abbrev infos : List Info
infos =
    record { filename = text "/a"; format = text "qcow2"; virtual_size = 9 }
    ∷ record { filename = text "/base"; format = text "raw"; virtual_size = 9 }
    ∷ []

abbrev chain : List Entry
chain =
    record {
      path = text "/a";
      format = text "qcow2";
      virtual_size = 9;
      bytes = 2;
      sha = 120 ∷ 1 ∷ 2 ∷ [];
    }
    ∷ record {
      path = text "/base";
      format = text "raw";
      virtual_size = 9;
      bytes = 1;
      sha = 120 ∷ 3 ∷ [];
    }
    ∷ []

captured : qcow2_backing_chain file sha256 same_path infos (text "/a") ≡ ok chain
unfolding qcow2_backing_chain describe check_start
captured = refl

verify_backing_chain-IsChain_example :
    (verify_backing_chain file sha256 chain ≡ ok tt) ↔ IsChain file sha256 chain
verify_backing_chain-IsChain_example = verify_backing_chain-IsChain file sha256 chain

parse_procargs-procargs_example :
    parse_procargs (
      procargs
        (text "/q")
        3
        (text "q" ∷ [] ∷ text "-S" ∷ [])
        1
        (text "A=1=2" ∷ text "B" ∷ [])
        (9 ∷ 9 ∷ []))
    ≡ ok (text "q" ∷ [] ∷ text "-S" ∷ [], settings_of (text "A=1=2" ∷ text "B" ∷ []))
parse_procargs-procargs_example =
    parse_procargs-procargs (text "/q") 3 (text "q") ([] ∷ text "-S" ∷ []) 1 (text "A=1=2")
      (text "B" ∷ []) (9 ∷ 9 ∷ []) (refl, (refl, tt)) (filled (refl, tt))
      (tt, ((refl, (refl, tt)), tt))
      (filled (refl, (refl, (refl, (refl, (refl, tt))))), (filled (refl, tt), tt)) (omega arith)

settings : settings_of (text "A=1=2" ∷ text "B" ∷ []) ≡ (text "A", text "1=2") ∷ []
unfolding settings_of partition
settings = refl

-- An empty argument is lost.
empty_argument :
    (parse_proc (text "q" ++ 0 ∷ 0 ∷ text "-S" ++ 0 ∷ []) []).0 ≡ text "q" ∷ text "-S" ∷ []
unfolding parse_proc not_empty split
empty_argument = refl
