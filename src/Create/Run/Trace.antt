-- ===== src/Create/Run/Trace.antt =====
-- tools/create_checkpoint.py: what has been done when a checkpoint is made.
use darwin_vm.Prelude.{
  ℕ, refl, Bool, true, false, List, [], ◌∷◌, ◌++◌, Option, none, some, nat_eq, list_eq,
}
use darwin_vm.Bytes.{text}
use darwin_vm.Bytes.Utf8.{Str}
use darwin_vm.Text.{contains}
use darwin_vm.Checkpoint.Texts.{selected_cpu_index, parse_pc}
use darwin_vm.Checkpoint.Manifest.{Manifest}
use darwin_vm.Create.Run.{
  describe_guest, pause_guest, take_inventory, start_migration, keep_state, mark, mark_at,
  analyze_if, end_guest,
}
use darwin_vm.Create.Given.{Given, state_path_of, has_state, is_child}
use darwin_vm.Checkpoint.Session.{
  Deed, command, wrote, state_private, process_ended, disk_frozen, wrote_manifest, Session, act,
  short_state, still_running, bad_disk, not_child, not_paused, made_directory,
}
use darwin_vm.Checkpoint.Session.Leaving.{
  IsLeaving, then-IsLeaving, ask-IsLeaving, note-IsLeaving, keep-IsLeaving, require-IsLeaving,
  lift-IsLeaving, done,
}

abbrev pub pause_steps : List Deed
pause_steps =
    command (text "stop")
    ∷ command (text "info status")
    ∷ command (text "info registers")
    ∷ wrote (text "pre-checkpoint-registers.txt")
    ∷ []

abbrev pub inventory_steps : List Deed
inventory_steps =
    command (text "info qtree")
    ∷ wrote (text "qtree.txt")
    ∷ command (text "info mtree")
    ∷ wrote (text "mtree.txt")
    ∷ command (text "info cpus")
    ∷ wrote (text "cpus.txt")
    ∷ command (text "info block")
    ∷ wrote (text "block.txt")
    ∷ []

abbrev pub description_steps : List Deed
description_steps = pause_steps ++ inventory_steps

unfoldable pub marker_steps : Option (Str → Option (ℕ × ℕ)) → List Deed
marker_steps none = []
marker_steps (some search) = wrote (text "guest-marker.txt") ∷ []

unfoldable pub migration_steps : Given → List Deed
migration_steps g =
    command (text "qemu-io ans \"flush\"")
    ∷ wrote (text "block-flush.txt")
    ∷ command (text "migrate_set_parameter max-bandwidth 0")
    ∷ command (text "migrate -d file:" ++ state_path_of g)
    ∷ []

unfoldable pub waiting_steps : List Str → List Deed
waiting_steps [] = []
waiting_steps (r ∷ rs) = command (text "info migrate -a") ∷ waiting_steps rs

abbrev pub saved_steps : List Deed
saved_steps = wrote (text "migration-status.txt") ∷ state_private ∷ []

unfoldable pub analysis_steps : Bool → List Deed
analysis_steps true = wrote (text "migration-description.txt") ∷ []
analysis_steps false = []

unfoldable pub end_steps : Given → List Deed
end_steps g =
    command (text "quit")
    ∷ process_ended
    ∷ disk_frozen
    ∷ (analysis_steps g.has_analyzer ++ wrote (text "disk-check.txt") ∷ [])

unfoldable pub created_steps : Given → List Str → Manifest → List Deed
created_steps g replies m =
    made_directory
    ∷ (description_steps
        ++ (marker_steps g.marker
            ++ (migration_steps g
                ++ (waiting_steps replies
                    ++ (saved_steps ++ (end_steps g ++ wrote_manifest m ∷ []))))))

pause_guest-IsLeaving : (s : Session) → IsLeaving pause_steps s (pause_guest s)
unfolding IsLeaving pause_guest
pause_guest-IsLeaving s = then-IsLeaving _ _ s _ _ (ask-IsLeaving (text "stop") s) (λ _ s.
    then-IsLeaving _ _ s _ _ (ask-IsLeaving (text "info status") s) (λ status s.
      then-IsLeaving _ _ s _ _ (require-IsLeaving (contains (text "paused") status) not_paused s)
        (λ _ s. then-IsLeaving _ _ s _ _ (ask-IsLeaving (text "info registers") s) (λ registers s.
          then-IsLeaving _ _ s _ _ (lift-IsLeaving (parse_pc registers) s) (λ _ s.
            then-IsLeaving _ _ s _ _
              (note-IsLeaving (wrote (text "pre-checkpoint-registers.txt")) s) (λ _ s. done s))))))

take_inventory-IsLeaving : (s : Session) → IsLeaving inventory_steps s (take_inventory s)
unfolding IsLeaving take_inventory
take_inventory-IsLeaving s =
    then-IsLeaving _ _ s _ _ (keep-IsLeaving (text "info qtree") (text "qtree.txt") s) (λ _ s.
      then-IsLeaving _ _ s _ _ (keep-IsLeaving (text "info mtree") (text "mtree.txt") s) (λ _ s.
        then-IsLeaving _ _ s _ _ (ask-IsLeaving (text "info cpus") s) (λ cpus s.
          then-IsLeaving _ _ s _ _ (lift-IsLeaving (selected_cpu_index cpus) s) (λ _ s.
            then-IsLeaving _ _ s _ _ (note-IsLeaving (wrote (text "cpus.txt")) s) (λ _ s.
              then-IsLeaving _ _ s _ _ (keep-IsLeaving (text "info block") (text "block.txt") s)
                (λ _ s. done s))))))

pub describe_guest-IsLeaving : (s : Session) → IsLeaving description_steps s (describe_guest s)
unfolding IsLeaving describe_guest
describe_guest-IsLeaving s =
    then-IsLeaving pause_steps inventory_steps s _ _ (pause_guest-IsLeaving s)
      (λ _ s. then-IsLeaving inventory_steps [] s _ _ (take_inventory-IsLeaving s) (λ _ s. done s))

mark_at-IsLeaving :
    (g : Given) (r : Option (ℕ × ℕ)) (s : Session)
    → IsLeaving (wrote (text "guest-marker.txt") ∷ []) s (mark_at g r s)
unfolding IsLeaving mark_at act
mark_at-IsLeaving g none s = tt
mark_at-IsLeaving g (some (start, stop)) s = refl

pub mark-IsLeaving :
    (g : Given) (m : Option (Str → Option (ℕ × ℕ))) (s : Session)
    → IsLeaving (marker_steps m) s (mark g m s)
unfolding IsLeaving mark marker_steps
mark-IsLeaving g none s = done s
mark-IsLeaving g (some search) s = mark_at-IsLeaving g (search g.serial_text) s

pub start_migration-IsLeaving :
    (g : Given) (s : Session) → IsLeaving (migration_steps g) s (start_migration g s)
unfolding IsLeaving start_migration migration_steps
start_migration-IsLeaving g s =
    then-IsLeaving _ _ s _ _
      (keep-IsLeaving (text "qemu-io ans \"flush\"") (text "block-flush.txt") s)
      (λ _ s.
        then-IsLeaving _ _ s _ _ (ask-IsLeaving (text "migrate_set_parameter max-bandwidth 0") s)
          (λ _ s.
            then-IsLeaving _ _ s _ _ (ask-IsLeaving (text "migrate -d file:" ++ state_path_of g) s)
              (λ _ s. done s)))

pub keep_state-IsLeaving : (g : Given) (s : Session) → IsLeaving saved_steps s (keep_state g s)
unfolding keep_state
keep_state-IsLeaving g s =
    then-IsLeaving _ _ s _ _ (note-IsLeaving (wrote (text "migration-status.txt")) s) (λ _ s.
      then-IsLeaving _ _ s _ _ (require-IsLeaving (has_state g) short_state s)
        (λ _ s. note-IsLeaving state_private s))

analyze_if-IsLeaving : (b : Bool) (s : Session) → IsLeaving (analysis_steps b) s (analyze_if b s)
unfolding IsLeaving analyze_if analysis_steps
analyze_if-IsLeaving true s = note-IsLeaving (wrote (text "migration-description.txt")) s
analyze_if-IsLeaving false s = done s

pub end_guest-IsLeaving : (g : Given) (s : Session) → IsLeaving (end_steps g) s (end_guest g s)
unfolding IsLeaving end_guest end_steps
end_guest-IsLeaving g s = then-IsLeaving _ _ s _ _ (ask-IsLeaving (text "quit") s) (λ _ s.
    then-IsLeaving _ _ s _ _ (require-IsLeaving g.process_ends still_running s) (λ _ s.
      then-IsLeaving _ _ s _ _ (note-IsLeaving process_ended s) (λ _ s.
        then-IsLeaving _ _ s _ _ (note-IsLeaving disk_frozen s) (λ _ s.
          then-IsLeaving _ _ s _ _ (analyze_if-IsLeaving g.has_analyzer s) (λ _ s.
            then-IsLeaving _ _ s _ _ (require-IsLeaving g.disk_checks bad_disk s) (λ _ s.
              then-IsLeaving _ _ s _ _ (note-IsLeaving (wrote (text "disk-check.txt")) s) (λ _ s.
                then-IsLeaving _ _ s _ _ (lift-IsLeaving _ s) (λ chain s.
                  then-IsLeaving _ _ s _ _ (require-IsLeaving (is_child chain) not_child s)
                    (λ _ s. done s)))))))))
