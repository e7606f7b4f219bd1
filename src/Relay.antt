-- ===== src/Relay.antt =====
-- tools/input/relay.py: the queue of touch states, and the loop that keeps one packet in flight.
-- Times are numbers; an acknowledgement is a line of the guest that the loop's pattern has matched.
pub mod Queue
pub mod Flight
mod Tests
use darwin_vm.Prelude.{
  ℕ, zero, suc, ◌+◌, ◌-◌, Bool, true, false, not, ◌&&◌, ◌||◌, List, [], ◌∷◌, ◌++◌, Option, none,
  some, length, leb, ltb, nat_eq, ◌==◌, if◌then◌else◌,
}
use darwin_vm.Prelude.Result.{Result, ok, raise, ◌>>=◌, ◌>>◌, check}
use darwin_vm.PyInt.{ℤ, pos, negsuc}

-- `disconnected`, `rejected` and `timed_out` are the messages of RuntimeError in the loop.
pub data Error : Type 0 where
  value_error queue_full disconnected rejected timed_out : Error

-- A value of the JSON object: what `type(...)` tells apart.
pub data Field : Type 0 where
  bool : Bool → Field
  int : ℤ → Field
  other : Field

-- event.get('down'), event.get('x'), event.get('y')
pub record Event : Type 0 where
  pub down : Option Field
  pub x : Option Field
  pub y : Option Field

-- A record of the queue.
pub record Touch : Type 0 where
  pub down : Bool
  pub x : ℕ
  pub y : ℕ
  pub observed : ℕ
  pub edge : Bool

-- type(v) is int and 0 <= v <= 32767
unfoldable pub coordinate : Option Field → Option ℕ
coordinate (some (int (pos n))) = if leb n 32767 then some n else none
coordinate _ = none

unfoldable pub button : Option Field → Option Bool
button (some (bool b)) = some b
button _ = none

-- queue[-1]
unfoldable pub last? : List Touch → Option Touch
last? [] = none
last? (t ∷ []) = some t
last? (t ∷ u ∷ ts) = last? (u ∷ ts)

-- queue[-1] = t
unfoldable pub set_last : List Touch → Touch → List Touch
set_last [] t = []
set_last (u ∷ []) t = t ∷ []
set_last (u ∷ v ∷ ts) t = u ∷ set_last (v ∷ ts) t

unfoldable pub same_bool : Bool → Bool → Bool
same_bool true b = b
same_bool false b = not b

abbrev pub queue_limit : ℕ
queue_limit = 64

-- The tests and updates of `enqueue`, on a record whose edge is not set yet.
unfoldable pub push : List Touch → (Bool → Touch) → Result Error (List Touch)
push queue touch = elim (last? queue) [
  | none ↦ do check (ltb (length queue) queue_limit) queue_full; ok (queue ++ touch true ∷ [])
  | some l ↦
      if same_bool l.down (Touch.down (touch true)) && not l.edge
      then ok (set_last queue (touch false))
      else (do
        check (ltb (length queue) queue_limit) queue_full
        ok (queue ++ touch (not (same_bool l.down (Touch.down (touch true)))) ∷ []))
]

unfoldable pub enqueue : ℕ → List Touch → Event → Result Error (List Touch)
enqueue now queue event = elim (button event.down) [
  | none ↦ raise value_error
  | some d ↦ elim (coordinate event.x) [
    | none ↦ raise value_error
    | some a ↦ elim (coordinate event.y) [
      | none ↦ raise value_error
      | some b ↦ push queue (λ e. record { down = d; x = a; y = b; observed = now; edge = e })
    ]
  ]
]

unfoldable pub enqueue_all : ℕ → List Touch → List Event → Result Error (List Touch)
enqueue_all now queue [] = ok queue
enqueue_all now queue (e ∷ es) = do q ← enqueue now queue e; enqueue_all now q es

-- A packet's content: the button, the position and the kind.
pub record Step : Type 0 where
  pub down : Bool
  pub x : ℕ
  pub y : ℕ
  pub kind : ℕ

-- A line of the log.
pub data Entry : Type 0 where
  sent : ℕ → Step → Entry
  acked : ℕ → Entry

-- The packet in flight: its sequence number, and when it was sent.
pub record Pending : Type 0 where
  pub number : ℕ
  pub since : ℕ

-- The variables of the loop: `script` is the steps of a swipe, a tap, `--home` or `--ping`, and `log`
-- has the last line first.
pub record Loop : Type 0 where
  pub queue : List Touch
  pub script : List Step
  pub pending : Option Pending
  pub sequence : ℕ
  pub log : List Entry

-- What the guest's line holds in one round: nothing, its end, or acknowledgements.
pub data Received : Type 0 where
  quiet closed : Received
  replies : List (ℕ × Bool) → Received

-- One acknowledgement. One that no packet in flight waits for is passed over.
unfoldable pub settle : ℕ → Bool → Loop → Result Error Loop
settle n good s = elim s.pending [
  | none ↦ ok s
  | some p ↦
      if n == p.number
      then (do
        check good rejected
        ok (record {
          queue = s.queue;
          script = s.script;
          pending = none;
          sequence = s.sequence;
          log = acked p.number ∷ s.log;
        }))
      else ok s
]

unfoldable pub settle_all : List (ℕ × Bool) → Loop → Result Error Loop
settle_all [] s = ok s
settle_all ((n, good) ∷ rs) s = do t ← settle n good s; settle_all rs t

unfoldable pub receive : Received → Loop → Result Error Loop
receive quiet s = ok s
receive closed s = raise disconnected
receive (replies rs) s = settle_all rs s

unfoldable pub expire : ℕ → ℕ → Loop → Result Error Loop
expire now timeout s = elim s.pending [
  | none ↦ ok s
  | some p ↦ do check (leb now (p.since + timeout)) timed_out; ok s
]

-- sequence += 1, and the packet is sent.
unfoldable pub send : ℕ → Step → List Step → List Touch → Loop → Loop
send now step script queue s = record {
  queue = queue;
  script = script;
  pending = some (record { number = suc s.sequence; since = now });
  sequence = suc s.sequence;
  log = sent (suc s.sequence) step ∷ s.log;
}

-- What a round ends with: another round, or `return`.
pub data Outcome : Type 0 where
  again done : Loop → Outcome

-- The end of a round: nothing while a packet is in flight, then the script, then the queue.
-- `once` says that a mode was chosen that ends with its script.
unfoldable pub dispatch : ℕ → ℕ → Bool → Loop → Outcome
dispatch now kind once s = elim s.pending [
  | some p ↦ again s
  | none ↦ elim s.script [
    | step ∷ rest ↦ again (send now step rest s.queue s)
    | [] ↦ elim s.queue [
      | t ∷ ts ↦ again (send now (record { down = t.down; x = t.x; y = t.y; kind = kind }) [] ts s)
      | [] ↦ if once then done s else again s
    ]
  ]
]

-- The options of a run, and what one round sees.
pub record Options : Type 0 where
  pub timeout : ℕ
  pub kind : ℕ
  pub once : Bool

pub record Input : Type 0 where
  pub now : ℕ
  pub events : List Event
  pub received : Received

unfoldable pub round : Options → Input → Loop → Result Error Outcome
round o i s = do
  queue ← enqueue_all i.now s.queue i.events
  settled ← receive i.received (record {
    queue = queue;
    script = s.script;
    pending = s.pending;
    sequence = s.sequence;
    log = s.log;
  })
  waiting ← expire i.now o.timeout settled
  ok (dispatch i.now o.kind o.once waiting)

-- The loop, over what its rounds see.
unfoldable pub run : Options → List Input → Loop → Result Error Loop
run o [] s = ok s
run o (i ∷ is) s = do r ← round o i s; elim r [ again t ↦ run o is t | done t ↦ ok t ]
