-- ===== src/Restore/Main.antt =====
-- tools/restore_checkpoint.py, `main`: the checks, the launch and the session as one.
use darwin_vm.Prelude.{ℕ, ◌≡◌, refl, subst, Bool, true, false, List}
use darwin_vm.Prelude.Result.{Result, ok, raise}
use darwin_vm.Bytes.{text}
use darwin_vm.Bytes.Utf8.{Str}
use darwin_vm.PyInt.{ℤ, pos, negsuc}
use darwin_vm.Checkpoint.Manifest.{Manifest}
use darwin_vm.Checkpoint.Session.{Failure, Session, act, made_directory, wrote}
use darwin_vm.Restore.{Rejection, no_child_disk, Host, Options, Accepted, preflight}
use darwin_vm.Restore.Launch.{Launch, launch_of, launch_argv, launch_env}
use darwin_vm.Restore.Run.{restore}
use darwin_vm.Restore.Child.{Child, Wanted, Report}
use darwin_vm.Restore.Run.Guarded.{IsGuarded, end_of, restore-IsGuarded}

unfoldable pub seconds_of : ℤ → ℕ
seconds_of (pos n) = n
seconds_of (negsuc n) = 0

unfoldable pub wanted_of : Options → Manifest → Accepted → Wanted
wanted_of o m a = record {
  cpu = a.cpu;
  source_pid = m.source_pid;
  source_pc = m.source_pc;
  source_clock_last = m.source_clock_last;
  leave_paused = o.leave_paused;
  observe_seconds = seconds_of o.observe_seconds;
}

-- Why a restore has no report: it was not started, or it failed.
pub data Stop : Type 0 where
  rejected : Rejection → Stop
  broke : Failure → Stop

-- `makes_disk` says whether qemu-img makes the child disk.
pub record Setting : Type 0 where
  pub host : Host
  pub environ : List (Str × Str)
  pub makes_disk : Bool
  pub child : Child

abbrev Outcome : Type 0
Outcome = Result (Stop × Session) ((Launch × Report) × Session)

unfoldable pub session_of : Launch → Result (Failure × Session) (Report × Session) → Outcome
session_of launch (ok (report, s)) = ok ((launch, report), s)
session_of launch (raise (r, s)) = raise (broke r, s)

-- launch.json is written, and QEMU started.
unfoldable pub start_child :
    Setting → Options → Manifest → Accepted → Result Rejection (List Str) → Session → Outcome
start_child x o m a (raise r) s = raise (rejected r, s)
start_child x o m a (ok argv) s =
    session_of (launch_of argv (launch_env x.environ m a))
      (restore x.child (wanted_of o m a) (act (wrote (text "launch.json")) s))

-- The directory of the restore, and its disk.
unfoldable pub make_ready : Bool → Setting → Options → Manifest → Accepted → Session → Outcome
make_ready false x o m a s = raise (rejected no_child_disk, s)
make_ready true x o m a s = start_child x o m a (launch_argv x.host o m a) s

unfoldable pub after_checks :
    Setting → Options → Manifest → Result Rejection Accepted → Session → Outcome
after_checks x o m (raise r) s = raise (rejected r, s)
after_checks x o m (ok a) s = make_ready x.makes_disk x o m a (act made_directory s)

unfoldable pub main : Setting → Options → Manifest → Session → Outcome
main x o m s = after_checks x o m (preflight x.host o m) s

-- How far a restore came, and what had been checked before.
pub data IsChecked (x : Setting) (o : Options) (m : Manifest) (s t : Session) : Type 0 where
  refused : (r : Rejection) → preflight x.host o m ≡ raise r → t ≡ s → IsChecked x o m s t
  no_disk :
      (a : Accepted)
      → preflight x.host o m ≡ ok a
      → x.makes_disk ≡ false
      → t ≡ act made_directory s
      → IsChecked x o m s t
  no_arguments :
      (a : Accepted) (r : Rejection)
      → preflight x.host o m ≡ ok a
      → launch_argv x.host o m a ≡ raise r
      → t ≡ act made_directory s
      → IsChecked x o m s t
  started :
      (a : Accepted) (argv : List Str)
      → preflight x.host o m ≡ ok a
      → launch_argv x.host o m a ≡ ok argv
      → IsGuarded x.child
          (wanted_of o m a)
          (act (wrote (text "launch.json")) (act made_directory s))
          t
      → IsChecked x o m s t

unfoldable pub session_end : Outcome → Session
session_end (ok (r, t)) = t
session_end (raise (r, t)) = t

session_end-session_of :
    (launch : Launch) (r : Result (Failure × Session) (Report × Session))
    → end_of r ≡ session_end (session_of launch r)
unfolding session_end session_of end_of
session_end-session_of launch (ok (report, t)) = refl
session_end-session_of launch (raise (r, t)) = refl

module _ (x : Setting) (o : Options) (m : Manifest) (s : Session) where
  starts :
      (a : Accepted)
      → preflight x.host o m ≡ ok a
      → (r : Result Rejection (List Str)) → launch_argv x.host o m a ≡ r
      → IsChecked x o m s (session_end (start_child x o m a r (act made_directory s)))
  unfolding start_child session_end
  starts a accepted (raise r) e = no_arguments a r accepted e refl
  starts a accepted (ok argv) e =
      let begun = act (wrote (text "launch.json")) (act made_directory s) in
      started a argv accepted e (
        subst (IsGuarded x.child (wanted_of o m a) begun)
          (session_end-session_of (launch_of argv (launch_env x.environ m a))
            (restore x.child (wanted_of o m a) begun))
          (restore-IsGuarded x.child (wanted_of o m a) begun))

  sets_up :
      (a : Accepted)
      → preflight x.host o m ≡ ok a
      → (b : Bool) → x.makes_disk ≡ b
      → IsChecked x o m s (session_end (make_ready b x o m a (act made_directory s)))
  unfolding make_ready session_end
  sets_up a accepted false e = no_disk a accepted e refl
  sets_up a accepted true e = starts a accepted (launch_argv x.host o m a) refl

  checks_first :
      (r : Result Rejection Accepted)
      → preflight x.host o m ≡ r
      → IsChecked x o m s (session_end (after_checks x o m r s))
  unfolding after_checks session_end
  checks_first (raise r) e = refused r e refl
  checks_first (ok a) e = sets_up a e x.makes_disk refl

  -- However restore_checkpoint.py ends: where a check fails, nothing has been done; where the disk cannot
  -- be made or the arguments cannot be rewritten, only the directory has been made; and else QEMU was
  -- started after all checks had passed. Then the guest has not been let run; or --leave-paused was not
  -- given, and before the first `cont` the monitor's replies said that it is paused and the migration
  -- completed, that the selected CPU is the one of the manifest, and that its program counter is.
  pub main-IsChecked : IsChecked x o m s (session_end (main x o m s))
  unfolding main
  main-IsChecked = checks_first (preflight x.host o m) refl
