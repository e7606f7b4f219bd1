-- ===== src/Create/Run/Heard.antt =====
-- tools/create_checkpoint.py: the wait for the end of the migration.
use darwin_vm.Prelude.{
  ℕ, ◌+◌, ◌≡◌, ◌⊎◌, refl, ap, ◌∙◌, subst, Bool, true, false, ◌||◌, List, [], ◌∷◌, ◌++◌,
  append_assoc, All, leb, inl, inr, nat_eq, list_eq, list_beq_iff, ◌==◌,
}
use darwin_vm.Prelude.Result.{ok, raise, >>=-eq-ok, ok_injective}
use darwin_vm.Bytes.{text}
use darwin_vm.Bytes.Utf8.{Str}
use darwin_vm.Checkpoint.Texts.{parse_migration_status}
use darwin_vm.Create.Run.{migrating, start_migration, keep_state, move_state}
use darwin_vm.Create.Given.{Given, has_state}
use darwin_vm.Checkpoint.Session.{
  command, wrote, Session, ask, require, note, Tick, Failure, short_state,
}
use darwin_vm.Checkpoint.Session.Adding.{Outcome}
use darwin_vm.Checkpoint.Session.Leaving.{answered, required}
use darwin_vm.Create.Run.Trace.{waiting_steps}

-- What has been heard when the wait for the migration returns.
pub record IsHeard (s t : Session) : Type 0 where
  pub before : List Str
  pub last : Str
  pub not_yet : All (λ r. (parse_migration_status r == text "completed") ≡ false) before
  pub completed : parse_migration_status last ≡ text "completed"
  pub replies_are : s.replies ≡ before ++ last ∷ t.replies
  pub trace_is : t.trace ≡ s.trace ++ waiting_steps (before ++ last ∷ [])

in_time :
    {A : Type 0} (late alive : Bool) (a : A × Session) (d e : Failure × Session) (x : Outcome A)
    → (elim late [ true ↦ raise d | false ↦ elim alive [ false ↦ raise e | true ↦ x ] ]) ≡ ok a
    → x ≡ ok a
in_time true alive a d e x h = absurd (cc)
in_time false false a d e x h = absurd (cc)
in_time false true a d e x h = h

by_status :
    (c f : Bool) (u t : Session) (e : Failure × Session) (x : Outcome (Unit {0}))
    → (elim c [ true ↦ ok (tt, u) | false ↦ elim f [ true ↦ raise e | false ↦ x ] ]) ≡ ok (tt, t)
    → ((c ≡ true) × (u ≡ t)) ⊎ ((c ≡ false) × (x ≡ ok (tt, t)))
by_status true f u t e x h = inl (refl, ap (λ z. z.1) (ok_injective h))
by_status false true u t e x h = absurd (cc)
by_status false false u t e x h = inr (refl, h)

heard_more :
    (r : Str) (s u t : Session)
    → (parse_migration_status r == text "completed") ≡ false
    → s.replies ≡ r ∷ u.replies
    → u.trace ≡ s.trace ++ command (text "info migrate -a") ∷ []
    → IsHeard u t
    → IsHeard s t
unfolding waiting_steps
heard_more r s u t c replies_are trace_is h = record {
  before = r ∷ h.before;
  last = h.last;
  not_yet = (c, h.not_yet);
  completed = h.completed;
  replies_are = replies_are ∙ ap (λ z. r ∷ z) h.replies_are;
  trace_is =
      h.trace_is
      ∙ ap (λ z. z ++ waiting_steps (h.before ++ h.last ∷ [])) trace_is
      ∙ append_assoc s.trace (command (text "info migrate -a") ∷ [])
          (waiting_steps (h.before ++ h.last ∷ []));
}

heard_now :
    (r : Str) (s u t : Session)
    → (parse_migration_status r == text "completed") ≡ true
    → s.replies ≡ r ∷ u.replies
    → u.trace ≡ s.trace ++ command (text "info migrate -a") ∷ []
    → u ≡ t
    → IsHeard s t
unfolding waiting_steps
heard_now r s u t c replies_are trace_is same = subst (IsHeard s) same (record {
  before = [];
  last = r;
  not_yet = tt;
  completed = (list_beq_iff (parse_migration_status r) (text "completed")).0 c;
  replies_are = replies_are;
  trace_is = trace_is;
})

pub heard :
    (deadline : ℕ) (ps : List Tick) (s t : Session)
    → migrating deadline ps s ≡ ok (tt, t)
    → IsHeard s t
unfolding migrating ask
heard deadline [] s t h = absurd (cc)
heard deadline (p ∷ ps) s t h =
    let waited = in_time (leb deadline p.now) p.alive (tt, t) _ _ _ h in
    let ((r, u), said, rest) = >>=-eq-ok (ask (text "info migrate -a") s) _ waited in
    let (replies_are, trace_is) = answered (text "info migrate -a") s.replies s r u said in
    elim (by_status (parse_migration_status r == text "completed")
      (parse_migration_status r == text "failed" || parse_migration_status r == text "cancelled") u
      t _ _ rest) [
        | inl (c, same) ↦ heard_now r s u t c replies_are trace_is same
        | inr (c, more) ↦ heard_more r s u t c replies_are trace_is (heard deadline ps u t more)
      ]

pub saved_state : (g : Given) (s t : Session) → keep_state g s ≡ ok (tt, t) → has_state g ≡ true
unfolding keep_state
saved_state g s t h =
    let ((_, s1), _, h) = >>=-eq-ok (note (wrote (text "migration-status.txt")) s) _ h in
    let ((_, s2), e, h) = >>=-eq-ok (require (has_state g) short_state s1) _ h in
    required (has_state g) short_state s1 _ e

-- The wait for the migration has returned, and the state file was there.
pub record IsMoved (g : Given) (s t : Session) : Type 0 where
  pub waiting : Session
  pub arrived : Session
  pub hears : IsHeard waiting arrived
  pub state_there : has_state g ≡ true

pub move_state-IsMoved : (g : Given) (s t : Session) → move_state g s ≡ ok (tt, t) → IsMoved g s t
unfolding move_state
move_state-IsMoved g s t h =
    let ((_, s1), started, h) = >>=-eq-ok (start_migration g s) _ h in
    let ((_, s2), waited, kept) = >>=-eq-ok (migrating (g.clock + g.timeout) g.polls s1) _ h in
    record {
      waiting = s1;
      arrived = s2;
      hears = heard (g.clock + g.timeout) g.polls s1 s2 waited;
      state_there = saved_state g s2 t kept;
    }
