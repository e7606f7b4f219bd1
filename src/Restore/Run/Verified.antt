-- ===== src/Restore/Run/Verified.antt =====
-- tools/restore_checkpoint.py: what the monitor has said when the checks of the guest return.
use darwin_vm.Prelude.{
  ℕ, ◌≡◌, ◌⊎◌, inl, inr, refl, ap, sym, ◌∙◌, Bool, true, false, ◌&&◌, ◌||◌, List, [], ◌∷◌, ◌++◌,
  leb, nat_eq, list_eq, list_beq_iff, arith, ◌==◌,
}
use darwin_vm.Prelude.Result.{ok, raise, >>=-eq-ok, ok_injective}
use darwin_vm.Bytes.{text}
use darwin_vm.Bytes.Utf8.{Str}
use darwin_vm.PyInt.{decimal_str}
use darwin_vm.Text.{contains}
use darwin_vm.Checkpoint.Texts.{selected_cpu_index, parse_pc, parse_migration_status}
use darwin_vm.Checkpoint.Session.{
  Failure, timed_out, other_cpu, other_pc, wrote, Session, ask, lift, require, note, Tick,
}
use darwin_vm.Checkpoint.Session.Adding.{Outcome}
use darwin_vm.Checkpoint.Session.Leaving.{answered, required_same, lifted_same, noted_same}
use darwin_vm.Restore.Run.{incoming, verify_cpu, verify_pc, wait_restored, told}
use darwin_vm.Restore.Child.{Child, Wanted}

-- The wait for the migration returned: its last two replies.
pub record IsArrived (s t : Session) : Type 0 where
  pub before : List Str
  pub status : Str
  pub migration : Str
  pub replies_are : s.replies ≡ before ++ status ∷ migration ∷ t.replies
  pub paused : contains (text "paused") status ≡ true
  pub completed : parse_migration_status migration ≡ text "completed"

alive_case :
    {A : Type 0} (alive : Bool) (a : A × Session) (e : Failure × Session) (x : Outcome A)
    → (elim alive [ false ↦ raise e | true ↦ x ]) ≡ ok a
    → x ≡ ok a
alive_case false a e x h = absurd (cc)
alive_case true a e x h = h

status_case :
    (done failed late : Bool) (u t : Session) (d e : Failure × Session) (x : Outcome (Unit {0}))
    → (elim done [
      | true ↦ ok (tt, u)
      | false ↦ elim failed [ true ↦ raise d | false ↦ elim late [ true ↦ raise e | false ↦ x ] ]
    ])
      ≡ ok (tt, t)
    → ((done ≡ true) × (u ≡ t)) ⊎ (x ≡ ok (tt, t))
status_case true failed late u t d e x h = inl (refl, ap (λ z. z.1) (ok_injective h))
status_case false true late u t d e x h = absurd (cc)
status_case false false true u t d e x h = absurd (cc)
status_case false false false u t d e x h = inr h

both : (a b : Bool) → (a && b) ≡ true → (a ≡ true) × (b ≡ true)
both true b h = (refl, h)
both false b h = absurd (cc)

arrived :
    (deadline : ℕ) (ps : List Tick) (s t : Session)
    → incoming deadline ps s ≡ ok (tt, t)
    → IsArrived s t
unfolding incoming ask
arrived deadline [] s t h = absurd (cc)
arrived deadline (p ∷ ps) s t h =
    let going = alive_case p.alive (tt, t) _ _ h in
    let ((status, s1), said, more) = >>=-eq-ok (ask (text "info status") s) _ going in
    let ((migration, s2), told, rest) = >>=-eq-ok (ask (text "info migrate -a") s1) _ more in
    let first = (answered (text "info status") s.replies s status s1 said).0 in
    let second = (answered (text "info migrate -a") s1.replies s1 migration s2 told).0 in
    let heard : s.replies ≡ status ∷ migration ∷ s2.replies = first ∙ ap (λ z. status ∷ z) second in
    elim (status_case
      (contains (text "paused") status && parse_migration_status migration == text "completed")
      (parse_migration_status migration == text "failed"
        || parse_migration_status migration == text "cancelled")
      (leb deadline p.now) s2 t _ _ _ rest) [
        | inl (done, same) ↦
            let (paused, completed) = both (contains (text "paused") status) _ done in
            record {
              before = [];
              status = status;
              migration = migration;
              replies_are = heard ∙ ap (λ u. status ∷ migration ∷ u.replies) same;
              paused = paused;
              completed =
                  (list_beq_iff (parse_migration_status migration) (text "completed")).0 completed;
            }
        | inr later ↦
            let a = arrived deadline ps s2 t later in
            record {
              before = status ∷ migration ∷ a.before;
              status = a.status;
              migration = a.migration;
              replies_are = heard ∙ ap (λ z. status ∷ migration ∷ z) a.replies_are;
              paused = a.paused;
              completed = a.completed;
            }
      ]

nat_same : (a b : ℕ) → (a == b) ≡ true → a ≡ b
nat_same a b h = ground (arith, h)

-- The replies that the checks of the CPU and of the program counter have read.
record IsSelected (w : Wanted) (s t : Session) : Type 0 where
  ack : Str
  cpus : Str
  replies_are : s.replies ≡ ack ∷ cpus ∷ t.replies
  cpu_is : selected_cpu_index cpus ≡ ok w.cpu

selected : (w : Wanted) (s t : Session) → verify_cpu w s ≡ ok (tt, t) → IsSelected w s t
unfolding verify_cpu ask
selected w s t h =
    let ((ack, s2), e2, h) = >>=-eq-ok (ask (text "cpu " ++ decimal_str w.cpu) s) _ h in
    let ((cpus, s3), e3, h) = >>=-eq-ok (ask (text "info cpus") s2) _ h in
    let ((cpu, s4), e4, h) = >>=-eq-ok (lift (selected_cpu_index cpus) s3) _ h in
    let (read, k4) = lifted_same (selected_cpu_index cpus) s3 s4 cpu e4 in
    let (same_cpu, k5) = required_same (cpu == w.cpu) other_cpu s4 t h in
    let r2 = (answered (text "cpu " ++ decimal_str w.cpu) s.replies s ack s2 e2).0 in
    let r3 = (answered (text "info cpus") s2.replies s2 cpus s3 e3).0 in
    record {
      ack = ack;
      cpus = cpus;
      replies_are = r2 ∙ ap (λ z. ack ∷ z) (r3 ∙ ap (λ u. cpus ∷ u.replies) (k4 ∙ k5));
      cpu_is = read ∙ ap ok (nat_same cpu w.cpu same_cpu);
    }

record IsAtPc (w : Wanted) (pc : Str) (s t : Session) : Type 0 where
  registers : Str
  replies_are : s.replies ≡ registers ∷ t.replies
  pc_is : parse_pc registers ≡ ok w.source_pc
  same_pc : pc ≡ w.source_pc

at_pc : (w : Wanted) (pc : Str) (s t : Session) → verify_pc w s ≡ ok (pc, t) → IsAtPc w pc s t
unfolding verify_pc ask
at_pc w pc s t h =
    let ((registers, s6), e6, h) = >>=-eq-ok (ask (text "info registers") s) _ h in
    let ((found, s7), e7, h) = >>=-eq-ok (lift (parse_pc registers) s6) _ h in
    let ((_, s8), e8, h) = >>=-eq-ok (note (wrote (text "pre-resume-registers.txt")) s7) _ h in
    let ((_, s9), e9, h) = >>=-eq-ok (require (found == w.source_pc) other_pc s8) _ h in
    let (parsed, k7) = lifted_same (parse_pc registers) s6 s7 found e7 in
    let (same_found, k9) = required_same (found == w.source_pc) other_pc s8 s9 e9 in
    let found_is = (list_beq_iff found w.source_pc).0 same_found in
    let last : found ≡ pc = ap (λ z. z.0) (ok_injective h) in
    let ends : s9 ≡ t = ap (λ z. z.1) (ok_injective h) in
    let r6 = (answered (text "info registers") s.replies s registers s6 e6).0 in
    let r7 : s6.replies ≡ s7.replies = ap (λ u. u.replies) k7 in
    let r8 : s7.replies ≡ s8.replies =
      noted_same (wrote (text "pre-resume-registers.txt")) s7 s8 e8 in
    let r9 : s8.replies ≡ t.replies = ap (λ u. u.replies) (k9 ∙ ends) in
    record {
      registers = registers;
      replies_are = r6 ∙ ap (λ z. registers ∷ z) (r7 ∙ r8 ∙ r9);
      pc_is = parsed ∙ ap ok found_is;
      same_pc = sym last ∙ found_is;
    }

-- The guest that is there is the one that was captured: the monitor's last replies say that it is
-- paused, that the migration is completed, and that the selected CPU and its program counter are the
-- checkpoint's.
pub record IsVerified (w : Wanted) (pc : Str) (s t : Session) : Type 0 where
  pub before : List Str
  pub status : Str
  pub migration : Str
  pub ack : Str
  pub cpus : Str
  pub registers : Str
  pub replies_are : s.replies ≡ before ++ status ∷ migration ∷ ack ∷ cpus ∷ registers ∷ t.replies
  pub paused : contains (text "paused") status ≡ true
  pub completed : parse_migration_status migration ≡ text "completed"
  pub cpu_is : selected_cpu_index cpus ≡ ok w.cpu
  pub pc_is : parse_pc registers ≡ ok w.source_pc
  pub same_pc : pc ≡ w.source_pc

pub verified :
    (c : Child) (w : Wanted) (pc : Str) (s t : Session)
    → wait_restored c w s ≡ ok (pc, t)
    → IsVerified w pc s t
unfolding wait_restored
verified c w pc s t h =
    let ((_, s0), there, h) = >>=-eq-ok (require c.socket_appears timed_out s) _ h in
    let ((_, s1), waited, h) = >>=-eq-ok (incoming c.deadline c.polls s0) _ h in
    let ((_, s2), chose, h) = >>=-eq-ok (verify_cpu w s1) _ h in
    let a = arrived c.deadline c.polls s0 s1 waited in
    let b = selected w s1 s2 chose in
    let d = at_pc w pc s2 t h in
    let r0 = ap (λ u. u.replies) (required_same c.socket_appears timed_out s s0 there).1 in
    record {
      before = a.before;
      status = a.status;
      migration = a.migration;
      ack = b.ack;
      cpus = b.cpus;
      registers = d.registers;
      replies_are =
          r0
          ∙ a.replies_are
          ∙ ap (λ z. a.before ++ a.status ∷ a.migration ∷ z)
              (b.replies_are ∙ ap (λ z. b.ack ∷ b.cpus ∷ z) d.replies_are);
      paused = a.paused;
      completed = a.completed;
      cpu_is = b.cpu_is;
      pc_is = d.pc_is;
      same_pc = d.same_pc;
    }
