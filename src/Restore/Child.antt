-- ===== src/Restore/Child.antt =====
-- tools/restore_checkpoint.py: the child that is started, what is wanted of it, and the report on it.
use darwin_vm.Prelude.{ℕ, Bool, not, ◌||◌, List, [], Option, length, drop, nat_eq, list_eq, ◌==◌}
use darwin_vm.Bytes.{Bytes}
use darwin_vm.Bytes.Utf8.{Str, decode_replace}
use darwin_vm.Checkpoint.Texts.{serial_hex_clock_bounds}
use darwin_vm.Checkpoint.Session.{Tick}
use darwin_vm.Restore.Qmp.{Message}
use darwin_vm.Restore.Panic.{
  boot_patterns, found_in, first_panic, lines_from, Traffic, traffic_of, clock_continued,
}

-- One round of the observation: the clock, whether QEMU runs, and the serial log as it is then.
pub record Round : Type 0 where
  pub now : ℕ
  pub alive : Bool
  pub serial : Bytes

-- What QEMU and the host do. `starts_at` is the clock when the observation begins.
pub record Child : Type 0 where
  pub pid : ℕ
  pub socket_appears : Bool
  pub deadline : ℕ
  pub polls : List Tick
  pub stream : List Message
  pub serial_before : Bytes
  pub stderr_before : ℕ
  pub starts_at : ℕ
  pub rounds : List Round
  pub serial_after : Bytes
  pub stderr_after : Bytes
  pub ends_on_quit : Bool
  pub ends_on_terminate : Bool
  pub ends_when_told : Bool
  pub has_exited : Bool

-- What is expected of the guest, and what is asked for.
pub record Wanted : Type 0 where
  pub cpu : ℕ
  pub source_pid : ℕ
  pub source_pc : Str
  pub source_clock_last : Option ℕ
  pub leave_paused : Bool
  pub observe_seconds : ℕ

pub record Report : Type 0 where
  pub restored_pc : Str
  pub after_pc : Str
  pub panic_seen : Bool
  pub first_panic_line : Str
  pub sptm_panic : Str
  pub repeated : List Str
  pub clock : Option (ℕ × ℕ)
  pub serial_bytes : ℕ
  pub traffic : Traffic
  pub different_process : Bool
  pub exact_pc : Bool
  pub progressed : Bool
  pub clock_continues : Bool

unfoldable pub report_of : Child → Wanted → Str → Str → Bool → Str → Report
report_of c w pc after_pc panic_seen sptm =
    let bytes = drop (length c.serial_before) c.serial_after in
    let serial = decode_replace bytes in
    record {
      restored_pc = pc;
      after_pc = after_pc;
      panic_seen = panic_seen;
      first_panic_line = first_panic (lines_from [] serial);
      sptm_panic = sptm;
      repeated = found_in serial boot_patterns;
      clock = serial_hex_clock_bounds serial;
      serial_bytes = length bytes;
      traffic = traffic_of (decode_replace (drop c.stderr_before c.stderr_after));
      different_process = not (c.pid == w.source_pid);
      exact_pc = pc == w.source_pc;
      progressed = not (after_pc == pc);
      clock_continues = clock_continued w.source_clock_last (serial_hex_clock_bounds serial);
    }

unfoldable pub is_panicked : Report → Bool
is_panicked r = not (r.first_panic_line == []) || not (r.sptm_panic == [])
