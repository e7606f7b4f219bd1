-- ===== src/Restore/Run/Safe.antt =====
-- tools/restore_checkpoint.py: when the restored guest may run, and what happens to the child.
use darwin_vm.Prelude.{◌+◌, ◌≡◌, refl, Bool, true, false, not, [], length, nat_eq, list_eq, ◌==◌}
use darwin_vm.Prelude.Result.{ok, raise}
use darwin_vm.Bytes.{text}
use darwin_vm.Bytes.Utf8.{Str}
use darwin_vm.Checkpoint.Session.{
  timed_out, Deed, made_directory, state_private, process_ended, disk_frozen, launched, terminated,
  killed, reaped, sent, wrote, wrote_report, wrote_manifest, command, Session, act,
}
use darwin_vm.Checkpoint.Session.Adding.{
  Outcome, IsAfter, IsAfter-trans, IsAfter-refl, IsAfter-one, IsAdding, extended, then-IsAdding,
  ask-IsAdding, require-IsAdding,
}
use darwin_vm.Restore.Run.Steps.{is_command, activate-IsAdding, observe-IsAdding, inspect-IsAdding}
use darwin_vm.Restore.Run.{
  resume, set_going, wait_terminated, leave, observe_seconds_of, follow, told, wait_killed, reap_if,
  reap, or_reap,
}
use darwin_vm.Restore.Child.{Child, Wanted, Report, is_panicked}

-- The steps that do not let the guest run.
unfoldable pub is_still : Deed → Bool
is_still (command c) = not (c == text "cont")
is_still e = true

pub still_command : (c : Str) → (c == text "cont") ≡ false → is_still (command c) ≡ true
unfolding is_still
still_command c h = rw h refl

pub still_other : (e : Deed) → is_command e ≡ false → is_still e ≡ true
unfolding is_still is_command
still_other (command c) h = absurd (cc)
still_other made_directory h = refl
still_other state_private h = refl
still_other process_ended h = refl
still_other disk_frozen h = refl
still_other launched h = refl
still_other terminated h = refl
still_other killed h = refl
still_other reaped h = refl
still_other wrote_report h = refl
still_other (sent i) h = refl
still_other (wrote f) h = refl
still_other (wrote_manifest m) h = refl

abbrev pub any_step : Deed → Bool
any_step e = true

module _ (p : Deed → Bool) (calm : (c : Str) → (c == text "cont") ≡ false → p (command c) ≡ true)
    (others : (e : Deed) → is_command e ≡ false → p e ≡ true) (c : Child) where
  wait_terminated-IsAdding : (b : Bool) (s : Session) → IsAdding p s (wait_terminated b c s)
  unfolding IsAdding wait_terminated act is_command
  wait_terminated-IsAdding true s = IsAfter-one p s _ reaped refl (others _ refl)
  wait_terminated-IsAdding false s =
      let began = IsAfter-one p s (act terminated s) terminated refl (others _ refl) in
      extended p _ began (
        then-IsAdding p (act terminated s) _ _
          (require-IsAdding p c.ends_on_terminate timed_out (act terminated s))
          (λ _ s. IsAfter-one p s _ reaped refl (others _ refl)))

  leave-IsAdding :
      (b paused : Bool)
      → (b ≡ false → paused ≡ false → p (command (text "cont")) ≡ true)
      → (s : Session) → IsAdding p s (leave b paused c s)
  unfolding IsAdding leave resume
  leave-IsAdding true paused going s =
      then-IsAdding p s _ _ (ask-IsAdding p (text "quit") s (calm _ refl))
        (λ _ s. wait_terminated-IsAdding c.ends_on_quit s)
  leave-IsAdding false true going s = IsAfter-refl p s s refl
  leave-IsAdding false false going s =
      then-IsAdding p s _ _ (ask-IsAdding p (text "cont") s (going refl refl))
        (λ _ s. IsAfter-refl p s s refl)

  set_going-IsAdding :
      (b : Bool)
      → (b ≡ false → p (command (text "cont")) ≡ true)
      → (pc : Str) (s : Session) → IsAdding p s (set_going b c pc s)
  unfolding IsAdding set_going resume
  set_going-IsAdding true going pc s = activate-IsAdding p calm others c pc s
  set_going-IsAdding false going pc s =
      then-IsAdding p s _ _ (ask-IsAdding p (text "cont") s (going refl))
        (λ _ s. IsAfter-refl p s s refl)

  -- What follows the checks of the guest.
  pub rest-IsAdding :
      (w : Wanted)
      → (w.leave_paused ≡ false → p (command (text "cont")) ≡ true)
      → (pc : Str) (s : Session) → IsAdding p s (follow c w (pc, s))
  unfolding follow IsAdding
  rest-IsAdding w going pc s =
      then-IsAdding p s _ _ (set_going-IsAdding w.leave_paused going pc s) (λ _ s.
        then-IsAdding p s _ _
          (observe-IsAdding p calm others (c.starts_at + observe_seconds_of w)
            (length c.serial_before) [] c.rounds s)
          (λ seen s.
            then-IsAdding p s _ _ (inspect-IsAdding p calm others c w pc seen s) (λ report s.
              then-IsAdding p s _ _
                (leave-IsAdding (is_panicked report) w.leave_paused (λ _ e. going e) s)
                (λ _ s. IsAfter-refl p s s refl))))

  wait_killed-IsAfter : (b : Bool) (s : Session) → IsAfter p s (wait_killed b s)
  unfolding wait_killed act is_command
  wait_killed-IsAfter true s = IsAfter-one p s _ reaped refl (others _ refl)
  wait_killed-IsAfter false s =
      IsAfter-trans (IsAfter-one p s (act killed s) killed refl (others _ refl))
        (IsAfter-one p (act killed s) _ reaped refl (others _ refl))

  told-IsAfter : (s : Session) (m : Outcome Str) → IsAdding p s m → IsAfter p s (told m)
  unfolding told IsAdding act is_command
  told-IsAfter s (ok (r, t)) h = h
  told-IsAfter s (raise (r, t)) h =
      IsAfter-trans h (IsAfter-one p t _ terminated refl (others _ refl))

  reap_if-IsAfter : (b : Bool) (s : Session) → IsAfter p s (reap_if b c s)
  unfolding reap_if
  reap_if-IsAfter true s = IsAfter-refl p s s refl
  reap_if-IsAfter false s =
      IsAfter-trans (told-IsAfter s _ (ask-IsAdding p (text "quit") s (calm _ refl)))
        (wait_killed-IsAfter c.ends_when_told _)

  pub or_reap-IsAdding :
      (s : Session) (m : Outcome Report) → IsAdding p s m → IsAdding p s (or_reap c m)
  unfolding IsAdding or_reap reap
  or_reap-IsAdding s (ok (r, t)) h = h
  or_reap-IsAdding s (raise (r, t)) h = IsAfter-trans h (reap_if-IsAfter c.has_exited t)
