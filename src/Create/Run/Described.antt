-- ===== src/Create/Run/Described.antt =====
-- tools/create_checkpoint.py: what the monitor has said of the guest that is described.
use darwin_vm.Prelude.{ℕ, ◌≡◌, ap, ◌∙◌, true, ◌∷◌}
use darwin_vm.Prelude.Result.{ok, >>=-eq-ok, ok_injective}
use darwin_vm.Bytes.{text}
use darwin_vm.Bytes.Utf8.{Str}
use darwin_vm.Text.{contains}
use darwin_vm.Checkpoint.Texts.{selected_cpu_index, parse_pc}
use darwin_vm.Checkpoint.Session.{wrote, Session, not_paused, ask, lift, require, keep, note}
use darwin_vm.Checkpoint.Session.Leaving.{
  answered, required_same, lifted_same, noted_same, kept_same,
}
use darwin_vm.Create.Run.{pause_guest, take_inventory, describe_guest}

record IsPaused (pc : Str) (s t : Session) : Type 0 where
  ack : Str
  status : Str
  registers : Str
  replies_are : s.replies ≡ ack ∷ status ∷ registers ∷ t.replies
  paused : contains (text "paused") status ≡ true
  pc_is : parse_pc registers ≡ ok pc

pause_guest-IsPaused : (pc : Str) (s t : Session) → pause_guest s ≡ ok (pc, t) → IsPaused pc s t
unfolding pause_guest ask
pause_guest-IsPaused pc s t h =
    let ((ack, s1), e1, h) = >>=-eq-ok (ask (text "stop") s) _ h in
    let ((status, s2), e2, h) = >>=-eq-ok (ask (text "info status") s1) _ h in
    let ((_, s3), e3, h) =
      >>=-eq-ok (require (contains (text "paused") status) not_paused s2) _ h in
    let ((registers, s4), e4, h) = >>=-eq-ok (ask (text "info registers") s3) _ h in
    let ((found, s5), e5, h) = >>=-eq-ok (lift (parse_pc registers) s4) _ h in
    let ((_, s6), e6, h) = >>=-eq-ok (note (wrote (text "pre-checkpoint-registers.txt")) s5) _ h in
    let (paused, k3) = required_same (contains (text "paused") status) not_paused s2 s3 e3 in
    let (read, k5) = lifted_same (parse_pc registers) s4 s5 found e5 in
    let r1 = (answered (text "stop") s.replies s ack s1 e1).0 in
    let r2 = (answered (text "info status") s1.replies s1 status s2 e2).0 in
    let r3 : s2.replies ≡ s3.replies = ap (λ u. u.replies) k3 in
    let r4 = (answered (text "info registers") s3.replies s3 registers s4 e4).0 in
    let r5 : s4.replies ≡ s5.replies = ap (λ u. u.replies) k5 in
    let r6 : s5.replies ≡ s6.replies =
      noted_same (wrote (text "pre-checkpoint-registers.txt")) s5 s6 e6 in
    let r7 : s6.replies ≡ t.replies = ap (λ z. z.1.replies) (ok_injective h) in
    let last : found ≡ pc = ap (λ z. z.0) (ok_injective h) in
    record {
      ack = ack;
      status = status;
      registers = registers;
      replies_are =
          r1
          ∙ ap (λ z. ack ∷ z)
              (r2 ∙ ap (λ z. status ∷ z) (r3 ∙ r4 ∙ ap (λ z. registers ∷ z) (r5 ∙ r6 ∙ r7)));
      paused = paused;
      pc_is = read ∙ ap ok last;
    }

record IsInventory (cpu : ℕ) (s t : Session) : Type 0 where
  qtree : Str
  mtree : Str
  cpus : Str
  block : Str
  replies_are : s.replies ≡ qtree ∷ mtree ∷ cpus ∷ block ∷ t.replies
  cpu_is : selected_cpu_index cpus ≡ ok cpu

take_inventory-IsInventory :
    (cpu : ℕ) (s t : Session) → take_inventory s ≡ ok (cpu, t) → IsInventory cpu s t
unfolding take_inventory ask
take_inventory-IsInventory cpu s t h =
    let ((qtree, s1), e1, h) = >>=-eq-ok (keep (text "info qtree") (text "qtree.txt") s) _ h in
    let ((mtree, s2), e2, h) = >>=-eq-ok (keep (text "info mtree") (text "mtree.txt") s1) _ h in
    let ((cpus, s3), e3, h) = >>=-eq-ok (ask (text "info cpus") s2) _ h in
    let ((found, s4), e4, h) = >>=-eq-ok (lift (selected_cpu_index cpus) s3) _ h in
    let ((_, s5), e5, h) = >>=-eq-ok (note (wrote (text "cpus.txt")) s4) _ h in
    let ((block, s6), e6, h) = >>=-eq-ok (keep (text "info block") (text "block.txt") s5) _ h in
    let (read, k4) = lifted_same (selected_cpu_index cpus) s3 s4 found e4 in
    let r1 = kept_same (text "info qtree") (text "qtree.txt") qtree s s1 e1 in
    let r2 = kept_same (text "info mtree") (text "mtree.txt") mtree s1 s2 e2 in
    let r3 = (answered (text "info cpus") s2.replies s2 cpus s3 e3).0 in
    let r4 : s3.replies ≡ s4.replies = ap (λ u. u.replies) k4 in
    let r5 : s4.replies ≡ s5.replies = noted_same (wrote (text "cpus.txt")) s4 s5 e5 in
    let r6 = kept_same (text "info block") (text "block.txt") block s5 s6 e6 in
    let r7 : s6.replies ≡ t.replies = ap (λ z. z.1.replies) (ok_injective h) in
    let last : found ≡ cpu = ap (λ z. z.0) (ok_injective h) in
    record {
      qtree = qtree;
      mtree = mtree;
      cpus = cpus;
      block = block;
      replies_are =
          r1
          ∙ ap (λ z. qtree ∷ z)
              (r2
                ∙ ap (λ z. mtree ∷ z)
                    (r3 ∙ ap (λ z. cpus ∷ z) (r4 ∙ r5 ∙ r6 ∙ ap (λ z. block ∷ z) r7)));
      cpu_is = read ∙ ap ok last;
    }

-- The first replies of the monitor: the guest is paused, its registers have this program counter, and
-- this CPU is selected.
pub record IsDescribed (pc : Str) (cpu : ℕ) (s t : Session) : Type 0 where
  pub ack : Str
  pub status : Str
  pub registers : Str
  pub qtree : Str
  pub mtree : Str
  pub cpus : Str
  pub block : Str
  pub replies_are : s.replies ≡ ack ∷ status ∷ registers ∷ qtree ∷ mtree ∷ cpus ∷ block ∷ t.replies
  pub paused : contains (text "paused") status ≡ true
  pub pc_is : parse_pc registers ≡ ok pc
  pub cpu_is : selected_cpu_index cpus ≡ ok cpu

pub describe_guest-IsDescribed :
    (pc : Str) (cpu : ℕ) (s t : Session)
    → describe_guest s ≡ ok ((pc, cpu), t)
    → IsDescribed pc cpu s t
unfolding describe_guest
describe_guest-IsDescribed pc cpu s t h =
    let ((found, s1), first, h) = >>=-eq-ok (pause_guest s) _ h in
    let ((index, s2), second, h) = >>=-eq-ok (take_inventory s1) _ h in
    let a = pause_guest-IsPaused found s s1 first in
    let b = take_inventory-IsInventory index s1 s2 second in
    let last = ok_injective h in
    record {
      ack = a.ack;
      status = a.status;
      registers = a.registers;
      qtree = b.qtree;
      mtree = b.mtree;
      cpus = b.cpus;
      block = b.block;
      replies_are =
          a.replies_are
          ∙ ap (λ z. a.ack ∷ a.status ∷ a.registers ∷ z)
              (b.replies_are
                ∙ ap (λ z. b.qtree ∷ b.mtree ∷ b.cpus ∷ b.block ∷ z) (ap (λ z. z.1.replies) last));
      paused = a.paused;
      pc_is = a.pc_is ∙ ap (λ z. ok z.0.0) last;
      cpu_is = b.cpu_is ∙ ap (λ z. ok z.0.1) last;
    }
