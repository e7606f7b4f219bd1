-- ===== src/Checkpoint/Session.antt =====
-- tools/create_checkpoint.py and tools/restore_checkpoint.py: a session with QEMU's monitor, with the
-- ways in which the two may fail. The monitor is a script of replies, one for each command; a session
-- leaves the trace of what was done.
pub mod Adding
pub mod Leaving
use darwin_vm.Prelude.{ℕ, Bool, true, false, List, [], ◌∷◌, ◌++◌}
use darwin_vm.Prelude.Result.{Result, ok, raise, ◌>>=◌}
use darwin_vm.Bytes.Utf8.{Str}
use darwin_vm.Checkpoint.{Error}
use darwin_vm.Checkpoint.Manifest.{Manifest}

pub data Failure : Type 0 where
  bad_tag not_alive bad_launch not_qemu other_argv other_env no_monitor no_disk no_verifier :
      Failure
  tag_taken no_reply not_paused no_marker exited timed_out migration_failed short_state : Failure
  still_running bad_disk not_child other_cpu other_pc advanced bad_greeting qmp_closed qmp_error :
      Failure
  failed : Error → Failure

-- What is done, in order. `sent` is a QMP command with its id.
pub data Deed : Type 0 where
  made_directory state_private process_ended disk_frozen : Deed
  launched terminated killed reaped wrote_report : Deed
  sent : ℕ → Deed
  command : Str → Deed
  wrote : Str → Deed
  wrote_manifest : Manifest → Deed

pub record Session : Type 0 where
  pub trace : List Deed
  pub replies : List Str

abbrev pub M : Type 0 → Type 0
M A = Session → Result (Failure × Session) (A × Session)

unfoldable pub act : Deed → Session → Session
act e s = record s { trace = s.trace ++ e ∷ [] }

-- HMP.command; where the script of replies ends, the connection fails.
unfoldable pub answer : Str → List Str → M Str
answer c [] s = raise (no_reply, act (command c) s)
answer c (r ∷ rs) s = ok (r, record { trace = s.trace ++ command c ∷ []; replies = rs })

unfoldable pub ask : Str → M Str
ask c s = answer c s.replies s

unfoldable pub lift {ℓ} :
    {A : Type ℓ} → Result Error A → Session → Result (Failure × Session) (A × Session)
lift (ok a) s = ok (a, s)
lift (raise e) s = raise (failed e, s)

unfoldable pub require : Bool → Failure → M (Unit {0})
require true r s = ok (tt, s)
require false r s = raise (r, s)

-- A reply that is kept as a file of evidence.
unfoldable pub keep : Str → Str → M Str
keep c file s = ask c s >>= λ (r, t). ok (r, act (wrote file) t)

-- A file of evidence, of what is known already.
unfoldable pub note : Deed → M (Unit {0})
note e s = ok (tt, act e s)

-- One round of a wait: the clock, and whether the process is there.
pub record Tick : Type 0 where
  pub now : ℕ
  pub alive : Bool
