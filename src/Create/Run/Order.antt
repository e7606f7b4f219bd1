-- ===== src/Create/Run/Order.antt =====
-- tools/create_checkpoint.py: what is done to the guest and the disk, and in which order.
use darwin_vm.Prelude.{
  ℕ, ◌+◌, ◌≡◌, refl, Bool, true, false, not, ◌||◌, List, [], ◌∷◌, ◌++◌, Option, none, some, leb,
  nat_eq, list_eq, ◌==◌,
}
use darwin_vm.Prelude.Result.{raise}
use darwin_vm.Bytes.{text}
use darwin_vm.Bytes.Utf8.{Str}
use darwin_vm.Text.{contains}
use darwin_vm.Checkpoint.Texts.{selected_cpu_index, parse_pc, parse_migration_status}
use darwin_vm.Create.Run.{
  migrating, find_marker, describe_guest, pause_guest, take_inventory, start_migration, keep_state,
  move_state, mark, mark_at, analyze_if, end_guest,
}
use darwin_vm.Create.Given.{Given, state_path_of, has_state, is_child}
use darwin_vm.Checkpoint.Session.{
  Deed, command, wrote, state_private, process_ended, disk_frozen, wrote_manifest, Session, act,
  Tick, short_state, still_running, bad_disk, not_child, migration_failed, not_paused,
}
use darwin_vm.Checkpoint.Session.Adding.{
  IsAfter-refl, IsAfter-one, IsAdding, then-IsAdding, choice-IsAdding, ask-IsAdding, note-IsAdding,
  keep-IsAdding, require-IsAdding, lift-IsAdding,
}

module _ (p : Deed → Bool) where
  migrating-IsAdding :
      (deadline : ℕ) (ps : List Tick) (s : Session)
      → p (command (text "info migrate -a")) ≡ true
      → IsAdding p s (migrating deadline ps s)
  unfolding IsAdding migrating
  migrating-IsAdding deadline [] s h = IsAfter-refl p s s refl
  migrating-IsAdding deadline (q ∷ ps) s h =
      choice-IsAdding p _ _ s (leb deadline q.now) (IsAfter-refl p s s refl) (
        choice-IsAdding p _ _ s q.alive
          (then-IsAdding p s _ _ (ask-IsAdding p (text "info migrate -a") s h) (λ r t.
            choice-IsAdding p _ _ t (parse_migration_status r == text "completed")
              (IsAfter-refl p t t refl)
              (choice-IsAdding p (raise (migration_failed, t)) (migrating deadline ps t) t
                (parse_migration_status r == text "failed"
                  || parse_migration_status r == text "cancelled")
                (IsAfter-refl p t t refl) (migrating-IsAdding deadline ps t h))))
          (IsAfter-refl p s s refl))

module _ (p : Deed → Bool) (quiet : (c : Str) → (c == text "quit") ≡ false → p (command c) ≡ true)
    (others : (f : Str) → p (wrote f) ≡ true) where
  pause_guest-IsAdding : (s : Session) → IsAdding p s (pause_guest s)
  unfolding IsAdding pause_guest
  pause_guest-IsAdding s =
      then-IsAdding p s _ _ (ask-IsAdding p (text "stop") s (quiet _ refl)) (λ _ s.
        then-IsAdding p s _ _ (ask-IsAdding p (text "info status") s (quiet _ refl)) (λ status s.
          then-IsAdding p s _ _ (require-IsAdding p (contains (text "paused") status) not_paused s)
            (λ _ s.
              then-IsAdding p s _ _ (ask-IsAdding p (text "info registers") s (quiet _ refl))
                (λ registers s.
                  then-IsAdding p s _ _ (lift-IsAdding p (parse_pc registers) s) (λ _ s.
                    then-IsAdding p s _ _
                      (note-IsAdding p (wrote (text "pre-checkpoint-registers.txt")) s (others _))
                      (λ _ s. IsAfter-refl p s s refl))))))

  take_inventory-IsAdding : (s : Session) → IsAdding p s (take_inventory s)
  unfolding IsAdding take_inventory
  take_inventory-IsAdding s =
      then-IsAdding p s _ _
        (keep-IsAdding p (text "info qtree") (text "qtree.txt") s (quiet _ refl) (others _))
        (λ _ s.
          then-IsAdding p s _ _
            (keep-IsAdding p (text "info mtree") (text "mtree.txt") s (quiet _ refl) (others _))
            (λ _ s.
              then-IsAdding p s _ _ (ask-IsAdding p (text "info cpus") s (quiet _ refl)) (λ cpus s.
                then-IsAdding p s _ _ (lift-IsAdding p (selected_cpu_index cpus) s) (λ _ s.
                  then-IsAdding p s _ _ (note-IsAdding p (wrote (text "cpus.txt")) s (others _))
                    (λ _ s.
                      then-IsAdding p s _ _
                        (keep-IsAdding p (text "info block") (text "block.txt") s (quiet _ refl)
                          (others _))
                        (λ _ s. IsAfter-refl p s s refl))))))

  pub describe_guest-IsAdding : (s : Session) → IsAdding p s (describe_guest s)
  unfolding IsAdding describe_guest
  describe_guest-IsAdding s =
      then-IsAdding p s _ _ (pause_guest-IsAdding s)
        (λ _ s. then-IsAdding p s _ _ (take_inventory-IsAdding s) (λ _ s. IsAfter-refl p s s refl))

  mark_at-IsAdding : (g : Given) (r : Option (ℕ × ℕ)) (s : Session) → IsAdding p s (mark_at g r s)
  unfolding IsAdding mark_at act
  mark_at-IsAdding g none s = IsAfter-refl p s s refl
  mark_at-IsAdding g (some (start, stop)) s =
      IsAfter-one p s _ (wrote (text "guest-marker.txt")) refl (others _)

  mark-IsAdding :
      (g : Given) (m : Option (Str → Option (ℕ × ℕ))) (s : Session) → IsAdding p s (mark g m s)
  unfolding IsAdding mark
  mark-IsAdding g none s = IsAfter-refl p s s refl
  mark-IsAdding g (some search) s = mark_at-IsAdding g (search g.serial_text) s

  pub find_marker-IsAdding : (g : Given) (s : Session) → IsAdding p s (find_marker g s)
  unfolding find_marker
  find_marker-IsAdding g s = mark-IsAdding g g.marker s

  start_migration-IsAdding : (g : Given) (s : Session) → IsAdding p s (start_migration g s)
  unfolding IsAdding start_migration
  start_migration-IsAdding g s =
      then-IsAdding p s _ _
        (keep-IsAdding p (text "qemu-io ans \"flush\"") (text "block-flush.txt") s (quiet _ refl)
          (others _))
        (λ _ s.
          then-IsAdding p s _ _
            (ask-IsAdding p (text "migrate_set_parameter max-bandwidth 0") s (quiet _ refl))
            (λ _ s.
              then-IsAdding p s _ _
                (ask-IsAdding p (text "migrate -d file:" ++ state_path_of g) s (quiet _ refl))
                (λ _ s. IsAfter-refl p s s refl)))

  pub move_state-IsAdding :
      p state_private ≡ true → (g : Given) (s : Session) → IsAdding p s (move_state g s)
  unfolding move_state keep_state
  move_state-IsAdding private g s = then-IsAdding p s _ _ (start_migration-IsAdding g s) (λ _ s.
      then-IsAdding p s _ _ (migrating-IsAdding p (g.clock + g.timeout) g.polls s (quiet _ refl))
        (λ _ s.
          then-IsAdding p s _ _ (note-IsAdding p (wrote (text "migration-status.txt")) s (others _))
            (λ _ s.
              then-IsAdding p s _ _ (require-IsAdding p (has_state g) short_state s)
                (λ _ s. note-IsAdding p state_private s private))))

-- Not the order to QEMU to end, nor the manifest.
unfoldable pub is_quiet : Deed → Bool
is_quiet (command c) = not (c == text "quit")
is_quiet (wrote_manifest m) = false
is_quiet e = true

pub quiet_command : (c : Str) → (c == text "quit") ≡ false → is_quiet (command c) ≡ true
unfolding is_quiet
quiet_command c h = rw h refl

pub quiet_file : (f : Str) → is_quiet (wrote f) ≡ true
unfolding is_quiet
quiet_file f = refl

unfoldable pub is_before : Deed → Bool
is_before (wrote_manifest m) = false
is_before e = true

analyze_if-IsAdding : (b : Bool) (s : Session) → IsAdding is_before s (analyze_if b s)
unfolding IsAdding analyze_if is_before
analyze_if-IsAdding true s =
    note-IsAdding is_before (wrote (text "migration-description.txt")) s refl
analyze_if-IsAdding false s = IsAfter-refl is_before s s refl

pub before_end : (g : Given) (s : Session) → IsAdding is_before s (end_guest g s)
unfolding is_before IsAdding end_guest
before_end g s = then-IsAdding is_before s _ _ (ask-IsAdding is_before (text "quit") s refl) (λ _ s.
    then-IsAdding is_before s _ _ (require-IsAdding is_before g.process_ends still_running s)
      (λ _ s. then-IsAdding is_before s _ _ (note-IsAdding is_before process_ended s refl) (λ _ s.
        then-IsAdding is_before s _ _ (note-IsAdding is_before disk_frozen s refl) (λ _ s.
          then-IsAdding is_before s _ _ (analyze_if-IsAdding g.has_analyzer s) (λ _ s.
            then-IsAdding is_before s _ _ (require-IsAdding is_before g.disk_checks bad_disk s)
              (λ _ s.
                then-IsAdding is_before s _ _
                  (note-IsAdding is_before (wrote (text "disk-check.txt")) s refl)
                  (λ _ s. then-IsAdding is_before s _ _ (lift-IsAdding is_before _ s) (λ chain s.
                    then-IsAdding is_before s _ _
                      (require-IsAdding is_before (is_child chain) not_child s)
                      (λ _ s. IsAfter-refl is_before s s refl)))))))))
