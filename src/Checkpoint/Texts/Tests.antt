-- ===== src/Checkpoint/Texts/Tests.antt =====
-- tools/checkpoint_common.py: texts of the monitor.
use darwin_vm.Prelude.{◌==◌, All, false, ◌≡◌, refl, [], ◌∷◌, some, drop, take, nat_eq, list_eq}
use darwin_vm.Prelude.Result.{ok, raise}
use darwin_vm.Bytes.{text}
use darwin_vm.Bytes.Utf8.{decode_replace}
use darwin_vm.PyInt.{digit}
use darwin_vm.Text.{starts_with, contains, split, join}
use darwin_vm.Serial.Main.{is_white}
use darwin_vm.Checkpoint.{no_single_cpu}
use darwin_vm.Checkpoint.Texts.Digits.{IsLowerHex, parse_pc-IsLowerHex}
use darwin_vm.Checkpoint.Texts.{
  is_digit, is_hex, lower, lowered, is_letter, is_word, starts_word, span, hex_value, decimal_value,
  star_cpu, star_cpus, the_only, selected_cpu_index, hex_after, parse_pc, clock_of, line_starts,
  clocks, last_or, bounds_of, serial_hex_clock_bounds, status_here, status_line, first_status,
  parse_migration_status, ends_with_prompt, read_prompt, breaks_line, without_returns, split_lines,
  rstrip_white, strip_white, shown_lines, command_reply,
}

cpus :
    (selected_cpu_index (text "  CPU #0: thread\n* CPU #12: thread") ≡ ok 12)
    × (selected_cpu_index (text "CPU #0:") ≡ raise no_single_cpu)
unfolding selected_cpu_index the_only star_cpus star_cpu decimal_value span is_digit is_white
    starts_with split drop
cpus = (refl, refl)

registers : parse_pc (text "XPC=1 PC=fffFe0g PC=00Af X0") ≡ ok (text "00af")
unfolding parse_pc hex_after span is_hex is_word is_digit is_letter lower lowered starts_word digit
    starts_with drop
registers = refl

clock :
    serial_hex_clock_bounds
      (text "0x0000000000000010 a\nx 0x0000000000000011 b\n0x00000000000000ff c\n")
    ≡ some (16, 255)
unfolding serial_hex_clock_bounds bounds_of last_or clocks clock_of line_starts hex_value span
    is_hex is_white digit starts_with drop take
clock = refl

statuses :
    (parse_migration_status (text "globals:\nMigration status: completed\nx") ≡ text "completed")
    × (parse_migration_status (text "Status: \t\tpre-switchover ") ≡ text "pre-switchover")
    × (parse_migration_status (text "Status: active now") ≡ [])
unfolding parse_migration_status first_status status_line status_here line_starts span is_white
    is_letter lower lowered starts_with drop take
statuses = (refl, refl, refl)

reply :
    command_reply
      (text "QEMU 11\n(qe" ∷ text "mu) " ∷ text "info status\r\nVM status: paused\n(qemu) " ∷ [])
    ≡ text "info status\nVM status: paused"
unfolding command_reply read_prompt ends_with_prompt split_lines breaks_line without_returns
    shown_lines strip_white rstrip_white span is_white contains starts_with join decode_replace drop
reply = refl

pc_read : parse_pc (text "X00=0 PC=00FfF0 ") ≡ ok (text "00fff0")
unfolding parse_pc hex_after is_word is_digit is_letter lower lowered is_hex digit starts_with
    starts_word span drop
pc_read = refl

parse_pc-IsLowerHex_example : ((text "00fff0" == []) ≡ false) × All IsLowerHex (text "00fff0")
parse_pc-IsLowerHex_example = parse_pc-IsLowerHex (text "X00=0 PC=00FfF0 ") (text "00fff0") pc_read
