-- ===== src/Create/Run/Created.antt =====
-- tools/create_checkpoint.py: the state in which a checkpoint is left that has been made.
use darwin_vm.Prelude.{
  ℕ, ◌+◌, ◌≡◌, refl, ap, sym, ◌∙◌, Bool, true, false, List, [], ◌∷◌, ◌++◌, All, nat_eq, list_eq,
  ◌==◌,
}
use darwin_vm.Prelude.Result.{Result, ok, raise, >>=-eq-ok, ok_injective}
use darwin_vm.Bytes.{text}
use darwin_vm.Bytes.Utf8.{Str}
use darwin_vm.PyInt.{pos}
use darwin_vm.Checkpoint.{Error}
use darwin_vm.Checkpoint.Texts.{parse_migration_status}
use darwin_vm.Checkpoint.Chain.{Entry, qcow2_backing_chain}
use darwin_vm.Checkpoint.Manifest.{Manifest, whole, content_of}
use darwin_vm.Create.{owns}
use darwin_vm.Create.Run.{
  migrating, find_marker, describe_guest, start_migration, move_state, mark, analyze_if, end_guest,
  checkpoint_guest, in_new_directory, as_owner, create,
}
use darwin_vm.Create.Given.{
  Given, has_state, is_child, manifest_of, kept_files, first_sha, sha_at, state_path_of,
}
use darwin_vm.Checkpoint.Session.{
  wrote, process_ended, disk_frozen, wrote_manifest, Session, act, ask, lift, require, note,
  Failure, still_running, bad_disk, not_child, made_directory,
}
use darwin_vm.Checkpoint.Session.Adding.{ended}
use darwin_vm.Checkpoint.Session.Leaving.{left_behind, later, required, lifted}
use darwin_vm.Create.Run.Described.{IsDescribed, describe_guest-IsDescribed}
use darwin_vm.Create.Run.Trace.{
  waiting_steps, created_steps, describe_guest-IsLeaving, mark-IsLeaving, start_migration-IsLeaving,
  keep_state-IsLeaving, end_guest-IsLeaving, marker_steps, migration_steps, saved_steps, end_steps,
  description_steps,
}
use darwin_vm.Create.Run.Heard.{heard, saved_state}

abbrev describe_disk : Given → Result Error (List Entry)
describe_disk g =
    qcow2_backing_chain (content_of (kept_files g)) g.sha256 g.resolve g.infos
      (g.resolve g.source.disk)

described :
    (g : Given) (s t : Session) (chain : List Entry)
    → end_guest g s ≡ ok (chain, t)
    → (describe_disk g ≡ ok chain) × (is_child chain ≡ true)
unfolding end_guest
described g s t chain h =
    let ((_, s1), _, h) = >>=-eq-ok (ask (text "quit") s) _ h in
    let ((_, s2), _, h) = >>=-eq-ok (require g.process_ends still_running s1) _ h in
    let ((_, s3), _, h) = >>=-eq-ok (note process_ended s2) _ h in
    let ((_, s4), _, h) = >>=-eq-ok (note disk_frozen s3) _ h in
    let ((_, s5), _, h) = >>=-eq-ok (analyze_if g.has_analyzer s4) _ h in
    let ((_, s6), _, h) = >>=-eq-ok (require g.disk_checks bad_disk s5) _ h in
    let ((_, s7), _, h) = >>=-eq-ok (note (wrote (text "disk-check.txt")) s6) _ h in
    let ((c, s8), e, h) = >>=-eq-ok (lift (describe_disk g) s7) _ h in
    let ((_, s9), f, h) = >>=-eq-ok (require (is_child c) not_child s8) _ h in
    let same = ok_injective h in
    (
      lifted (describe_disk g) s7 s8 c e ∙ ap (λ z. ok z.0) same,
      ap (λ z. is_child z.0) (sym same) ∙ required (is_child c) not_child s8 _ f,
    )

-- What holds of the files, the monitor's replies and the steps when a manifest has been written.
pub record IsCreated (g : Given) (s t : Session) (m : Manifest) : Type 0 where
  pub owned : owns g.resolve g.source ≡ ok tt
  pub fresh : g.out_exists ≡ false
  pub pc : Str
  pub cpu : ℕ
  pub chain : List Entry
  pub described_in : Session
  pub guest : IsDescribed pc cpu (act made_directory s) described_in
  pub manifest_is : m ≡ manifest_of g pc cpu chain
  pub pc_recorded : m.source_pc ≡ pc
  pub cpu_recorded : m.source_cpu_index ≡ whole (pos cpu)
  pub chain_recorded : m.chain ≡ chain
  pub disk_hashed : (m.disk_path ≡ g.resolve g.source.disk) × (m.disk_sha ≡ first_sha chain)
  pub state_hashed : (m.state_path ≡ state_path_of g) × (m.state_sha ≡ sha_at g (state_path_of g))
  pub chain_is : describe_disk g ≡ ok chain
  pub child : is_child chain ≡ true
  pub state_there : has_state g ≡ true
  pub before : List Str
  pub last : Str
  pub not_yet : All (λ r. (parse_migration_status r == text "completed") ≡ false) before
  pub completed : parse_migration_status last ≡ text "completed"
  pub trace_is : t.trace ≡ s.trace ++ created_steps g (before ++ last ∷ []) m

entered :
    (g : Given) (b : Bool) (s t : Session) (m : Manifest)
    → in_new_directory b g s ≡ ok (m, t)
    → (b ≡ false) × (checkpoint_guest g s ≡ ok (m, t))
unfolding in_new_directory
entered g true s t m h = absurd (cc)
entered g false s t m h = (refl, h)

owning :
    (g : Given) (o : Result Failure (Unit {0})) (s t : Session) (m : Manifest)
    → as_owner o g s ≡ ok (m, t)
    → (o ≡ ok tt) × (in_new_directory g.out_exists g s ≡ ok (m, t))
unfolding as_owner
owning g (raise e) s t m h = absurd (cc)
owning g (ok _) s t m h = (refl, h)

pub create-IsCreated :
    (g : Given) (s t : Session) (m : Manifest) → create g s ≡ ok (m, t) → IsCreated g s t m
unfolding create checkpoint_guest find_marker move_state note act created_steps manifest_of
create-IsCreated g s t m h =
    let (owned, h) = owning g (owns g.resolve g.source) s t m h in
    let (fresh, h) = entered g g.out_exists s t m h in
    let s1 = act made_directory s in
    let (((pc, cpu), s2), described_guest, h) = >>=-eq-ok (describe_guest s1) _ h in
    let ((_, s3), marked, h) = >>=-eq-ok (mark g g.marker s2) _ h in
    let ((_, s6), moved, h) = >>=-eq-ok (move_state g s3) _ h in
    let ((_, s4), started, moved) = >>=-eq-ok (start_migration g s3) _ moved in
    let ((_, s5), waited, kept) = >>=-eq-ok (migrating (g.clock + g.timeout) g.polls s4) _ moved in
    let ((chain, s7), ended, h) = >>=-eq-ok (end_guest g s6) _ h in
    let same = ok_injective h in
    let w = heard (g.clock + g.timeout) g.polls s4 s5 waited in
    let d = described g s6 s7 chain ended in
    record {
      owned = owned;
      fresh = fresh;
      pc = pc;
      cpu = cpu;
      chain = chain;
      described_in = s2;
      guest = describe_guest-IsDescribed pc cpu s1 s2 described_guest;
      manifest_is = ap (λ z. z.0) (sym same);
      pc_recorded = ap (λ z. z.0.source_pc) (sym same);
      cpu_recorded = ap (λ z. z.0.source_cpu_index) (sym same);
      chain_recorded = ap (λ z. z.0.chain) (sym same);
      disk_hashed = (ap (λ z. z.0.disk_path) (sym same), ap (λ z. z.0.disk_sha) (sym same));
      state_hashed = (ap (λ z. z.0.state_path) (sym same), ap (λ z. z.0.state_sha) (sym same));
      chain_is = d.0;
      child = d.1;
      state_there = saved_state g s5 s6 kept;
      before = w.before;
      last = w.last;
      not_yet = w.not_yet;
      completed = w.completed;
      trace_is = later (made_directory ∷ []) _ s.trace refl (
          later description_steps _ s1.trace
            (left_behind _ s1 (pc, cpu) s2 (describe_guest-IsLeaving s1) described_guest)
            (later (marker_steps g.marker) _ s2.trace
              (left_behind _ s2 _ s3 (mark-IsLeaving g g.marker s2) marked)
              (later (migration_steps g) _ s3.trace
                (left_behind _ s3 tt s4 (start_migration-IsLeaving g s3) started)
                (later (waiting_steps (w.before ++ w.last ∷ [])) _ s4.trace w.trace_is (
                  later saved_steps _ s5.trace
                    (left_behind _ s5 tt s6 (keep_state-IsLeaving g s5) kept)
                    (later (end_steps g) (wrote_manifest m ∷ []) s6.trace
                      (left_behind _ s6 chain s7 (end_guest-IsLeaving g s6) ended)
                      (ap (λ z. z.1.trace) (sym same)
                        ∙ ap (λ z. s7.trace ++ wrote_manifest z ∷ []) (ap (λ z. z.0) same))))))));
    }
