-- ===== src/Relay/Flight.antt =====
-- tools/input/relay.py: the packets that the loop sends, their numbers and their acknowledgements.
use darwin_vm.Prelude.{ℕ, suc, ◌≤◌, ◌≡◌, refl, List, [], ◌∷◌, Option, none, some, length, nat_eq}
use darwin_vm.Relay.{
  Touch, Step, Entry, sent, acked, Pending, Loop, Outcome, again, done, queue_limit,
}

unfoldable pub number_of : Option Pending → Option ℕ
number_of none = none
number_of (some p) = some p.number

-- A log in which packets are numbered one after the other, each is acknowledged before the next is
-- sent, and the packet in flight, if there is one, is the last.
pub data IsLog : Option ℕ → ℕ → List Entry → Type 0 where
  start : {n : ℕ} → IsLog none n []
  sends :
      {n : ℕ} {step : Step} {log : List Entry}
      → IsLog none n log
      → IsLog (some (suc n)) (suc n) (sent (suc n) step ∷ log)
  acks : {n : ℕ} {log : List Entry} → IsLog (some n) n log → IsLog none n (acked n ∷ log)

pub record IsSound (s : Loop) : Type 0 where
  pub flight : IsLog (number_of s.pending) s.sequence s.log
  pub room : length s.queue ≤ queue_limit

current : {m n : ℕ} {log : List Entry} → IsLog (some m) n log → m ≡ n
current (sends l) = refl

-- The state that an acknowledgement of the packet in flight leaves.
settled : ℕ → Loop → Loop
settled n s = record {
  queue = s.queue;
  script = s.script;
  pending = none;
  sequence = s.sequence;
  log = acked n ∷ s.log;
}

-- The state of an outcome.
unfoldable pub state_of : Outcome → Loop
state_of (again s) = s
state_of (done s) = s

loop_of : List Touch → List Step → Option Pending → ℕ → List Entry → Loop
loop_of queue script pending sequence log = record {
  queue = queue;
  script = script;
  pending = pending;
  sequence = sequence;
  log = log;
}
