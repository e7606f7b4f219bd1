-- ===== src/Restore/Run/Steps.antt =====
-- tools/restore_checkpoint.py: the steps of a restore that are no order to go on.
use darwin_vm.Prelude.{
  ℕ, ◌≡◌, refl, Bool, true, false, ◌&&◌, ◌||◌, List, [], ◌∷◌, ◌++◌, Option, none, some, length,
  drop, leb, ltb, nat_eq, list_eq, ◌==◌,
}
use darwin_vm.Prelude.Result.{Result, ok, raise}
use darwin_vm.Bytes.{Bytes, text}
use darwin_vm.Bytes.Utf8.{Str}
use darwin_vm.PyInt.{decimal_str, hex}
use darwin_vm.Text.{contains}
use darwin_vm.Checkpoint.Texts.{
  selected_cpu_index, parse_pc, parse_migration_status, hex_value, hex_after,
}
use darwin_vm.Checkpoint.Session.{
  Failure, timed_out, migration_failed, other_cpu, other_pc, advanced, Deed, sent, wrote,
  wrote_report, command, Session, act, Tick,
}
use darwin_vm.Checkpoint.Session.Adding.{
  IsAfter-refl, IsAfter-one, IsAdding, then-IsAdding, choice-IsAdding, ask-IsAdding, note-IsAdding,
  require-IsAdding, lift-IsAdding,
}
use darwin_vm.Checkpoint.Sptm.{branch_target, is_self, sptm_at, sptm_panic_message}
use darwin_vm.Restore.Qmp.{answer_to, greeted, at_session, activate_paused_disks}
use darwin_vm.Restore.Panic.{panic_mark, last_bytes}
use darwin_vm.Restore.Run.{
  incoming, verify_cpu, verify_pc, wait_restored, activate, observe, inspect,
}
use darwin_vm.Restore.Child.{Round, Child, Wanted}

unfoldable pub is_command : Deed → Bool
is_command (command c) = true
is_command e = false

module _ (p : Deed → Bool) (calm : (c : Str) → (c == text "cont") ≡ false → p (command c) ≡ true)
    (others : (e : Deed) → is_command e ≡ false → p e ≡ true) where
  incoming-IsAdding :
      (deadline : ℕ) (ps : List Tick) (s : Session) → IsAdding p s (incoming deadline ps s)
  unfolding IsAdding incoming
  incoming-IsAdding deadline [] s = IsAfter-refl p s s refl
  incoming-IsAdding deadline (q ∷ ps) s =
      choice-IsAdding p _ _ s q.alive
        (then-IsAdding p s _ _ (ask-IsAdding p (text "info status") s (calm _ refl)) (λ status s.
          then-IsAdding p s _ _ (ask-IsAdding p (text "info migrate -a") s (calm _ refl)) (λ r s.
            choice-IsAdding p (ok (tt, s)) _ s
              (contains (text "paused") status && parse_migration_status r == text "completed")
              (IsAfter-refl p s s refl)
              (choice-IsAdding p (raise (migration_failed, s)) _ s
                (parse_migration_status r == text "failed"
                  || parse_migration_status r == text "cancelled")
                (IsAfter-refl p s s refl)
                (choice-IsAdding p (raise (timed_out, s)) (incoming deadline ps s) s
                  (leb deadline q.now) (IsAfter-refl p s s refl)
                  (incoming-IsAdding deadline ps s))))))
        (IsAfter-refl p s s refl)

  verify_cpu-IsAdding : (w : Wanted) (s : Session) → IsAdding p s (verify_cpu w s)
  unfolding verify_cpu
  verify_cpu-IsAdding w s =
      then-IsAdding p s _ _ (ask-IsAdding p (text "cpu " ++ decimal_str w.cpu) s (calm _ refl))
        (λ _ s. then-IsAdding p s _ _ (ask-IsAdding p (text "info cpus") s (calm _ refl)) (λ cpus s.
          then-IsAdding p s _ _ (lift-IsAdding p (selected_cpu_index cpus) s)
            (λ cpu s. require-IsAdding p (cpu == w.cpu) other_cpu s)))

  verify_pc-IsAdding : (w : Wanted) (s : Session) → IsAdding p s (verify_pc w s)
  unfolding IsAdding verify_pc is_command
  verify_pc-IsAdding w s =
      then-IsAdding p s _ _ (ask-IsAdding p (text "info registers") s (calm _ refl)) (λ registers s.
        then-IsAdding p s _ _ (lift-IsAdding p (parse_pc registers) s) (λ pc s.
          then-IsAdding p s _ _
            (note-IsAdding p (wrote (text "pre-resume-registers.txt")) s (others _ refl))
            (λ _ s.
              then-IsAdding p s _ _ (require-IsAdding p (pc == w.source_pc) other_pc s)
                (λ _ s. IsAfter-refl p s s refl))))

  pub wait_restored-IsAdding :
      (c : Child) (w : Wanted) (s : Session) → IsAdding p s (wait_restored c w s)
  unfolding wait_restored
  wait_restored-IsAdding c w s =
      then-IsAdding p s _ _ (require-IsAdding p c.socket_appears timed_out s) (λ _ s.
        then-IsAdding p s _ _ (incoming-IsAdding c.deadline c.polls s)
          (λ _ s. then-IsAdding p s _ _ (verify_cpu-IsAdding w s) (λ _ s. verify_pc-IsAdding w s)))

  at_session-IsAdding :
      {A : Type 0} (m : Result Failure A) (s : Session) → IsAdding p s (at_session s m)
  unfolding IsAdding at_session
  at_session-IsAdding (ok a) s = IsAfter-refl p s s refl
  at_session-IsAdding (raise e) s = IsAfter-refl p s s refl

  sent-IsAdding :
      {A : Type 0} (i : ℕ) (m : Result Failure A) (s : Session)
      → IsAdding p s (at_session (act (sent i) s) m)
  unfolding IsAdding at_session act is_command
  sent-IsAdding i (ok a) s = IsAfter-one p s _ (sent i) refl (others _ refl)
  sent-IsAdding i (raise e) s = IsAfter-one p s _ (sent i) refl (others _ refl)

  pub activate-IsAdding : (c : Child) (pc : Str) (s : Session) → IsAdding p s (activate c pc s)
  unfolding IsAdding activate activate_paused_disks
  activate-IsAdding c pc s =
      then-IsAdding p s _ _
        (then-IsAdding p s _ _ (at_session-IsAdding (greeted c.stream) s) (λ stream s.
          then-IsAdding p s _ _ (sent-IsAdding 0 (answer_to 0 stream) s) (λ stream s.
            then-IsAdding p s _ _ (sent-IsAdding 1 (answer_to 1 stream) s)
              (λ _ s. IsAfter-refl p s s refl))))
        (λ _ s.
          then-IsAdding p s _ _ (ask-IsAdding p (text "info status") s (calm _ refl)) (λ status s.
            then-IsAdding p s _ _ (require-IsAdding p (contains (text "paused") status) advanced s)
              (λ _ s.
                then-IsAdding p s _ _ (ask-IsAdding p (text "info registers") s (calm _ refl))
                  (λ registers s.
                    then-IsAdding p s _ _ (lift-IsAdding p (parse_pc registers) s)
                      (λ now s. require-IsAdding p (now == pc) advanced s)))))

  pub observe-IsAdding :
      (deadline offset : ℕ) (tail : Bytes) (rs : List Round) (s : Session)
      → IsAdding p s (observe deadline offset tail rs s)
  unfolding IsAdding observe
  observe-IsAdding deadline offset tail [] s = IsAfter-refl p s s refl
  observe-IsAdding deadline offset tail (r ∷ rs) s =
      choice-IsAdding p _ _ s (leb deadline r.now) (IsAfter-refl p s s refl) (
        choice-IsAdding p _ _ s r.alive
          (choice-IsAdding p _ _ s (ltb offset (length r.serial))
            (choice-IsAdding p (ok (true, s)) _ s
              (contains panic_mark (tail ++ drop offset r.serial)) (IsAfter-refl p s s refl)
              (observe-IsAdding deadline (length r.serial)
                (last_bytes (tail ++ drop offset r.serial)) rs s))
            (observe-IsAdding deadline offset tail rs s))
          (IsAfter-refl p s s refl))

  sptm_at-IsAdding : (pc : ℕ) (x3 : Option Str) (s : Session) → IsAdding p s (sptm_at pc x3 s)
  unfolding IsAdding sptm_at
  sptm_at-IsAdding pc none s = IsAfter-refl p s s refl
  sptm_at-IsAdding pc (some x3) s =
      then-IsAdding p s _ _ (ask-IsAdding p (text "x/1i " ++ hex pc) s (calm _ refl)) (λ r s.
        choice-IsAdding p _ _ s (is_self (branch_target false r) pc)
          (then-IsAdding p s _ _
            (ask-IsAdding p (text "x/256xb " ++ hex (hex_value 0 x3)) s (calm _ refl))
            (λ raw s. IsAfter-refl p s s refl))
          (IsAfter-refl p s s refl))

  pub inspect-IsAdding :
      (c : Child) (w : Wanted) (pc : Str) (seen : Bool) (s : Session)
      → IsAdding p s (inspect c w pc seen s)
  unfolding IsAdding inspect is_command sptm_panic_message
  inspect-IsAdding c w pc seen s =
      then-IsAdding p s _ _ (ask-IsAdding p (text "stop") s (calm _ refl)) (λ _ s.
        then-IsAdding p s _ _ (ask-IsAdding p (text "info registers") s (calm _ refl))
          (λ registers s.
            then-IsAdding p s _ _ (lift-IsAdding p (parse_pc registers) s) (λ after_pc s.
              then-IsAdding p s _ _
                (then-IsAdding p s _ _ (lift-IsAdding p (parse_pc registers) s) (λ pc s.
                  sptm_at-IsAdding (hex_value 0 pc) (hex_after (text "X03=") false registers) s))
                (λ sptm s.
                  then-IsAdding p s _ _
                    (note-IsAdding p (wrote (text "post-observation-registers.txt")) s
                      (others _ refl))
                    (λ _ s.
                      then-IsAdding p s _ _ (note-IsAdding p wrote_report s (others _ refl))
                        (λ _ s. IsAfter-refl p s s refl))))))
