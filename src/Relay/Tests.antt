-- ===== src/Relay/Tests.antt =====
-- tools/input/relay.py: a press, a motion and a release, sent one at a time.
use darwin_vm.Prelude.{
  ℕ, zero, suc, ◌≡◌, refl, Bool, true, false, not, List, [], ◌∷◌, ◌++◌, none, some, arith, nat_eq,
}
use darwin_vm.Prelude.Result.{ok, raise}
use darwin_vm.PyInt.{pos}
use darwin_vm.Relay.{
  queue_full, bool, int, Event, Touch, button, coordinate, last?, set_last, same_bool, push,
  enqueue, enqueue_all, Loop, Received, quiet, replies, Options, Input, run,
}
use darwin_vm.Relay.Queue.{Pushed, touch_of, enqueue_lem}

abbrev event : Bool → ℕ → ℕ → Event
event d a b = record { down = some (bool d); x = some (int (pos a)); y = some (int (pos b)) }

abbrev held : List Touch
held = touch_of true 10 20 1 true ∷ touch_of true 11 21 2 false ∷ []

abbrev moved : List Touch
moved = touch_of true 10 20 1 true ∷ touch_of true 12 22 3 false ∷ []

coalesces : enqueue 3 held (event true 12 22) ≡ ok moved
unfolding enqueue button coordinate push last? set_last same_bool
coalesces = refl

enqueue_lem_example :
    (d : Bool) × (a : ℕ) × (b : ℕ) × (button (Event.down (event true 12 22)) ≡ some d)
    × (coordinate (Event.x (event true 12 22)) ≡ some a)
    × (coordinate (Event.y (event true 12 22)) ≡ some b)
    × Pushed held d a b 3 moved
enqueue_lem_example = enqueue_lem 3 held moved (event true 12 22) (omega arith) coalesces

is_pressed : button (some (bool true)) ≡ some true
unfolding button
is_pressed = refl

on_screen :
    (coordinate (some (int (pos 12))) ≡ some 12) × (coordinate (some (int (pos 22))) ≡ some 22)
unfolding coordinate
on_screen = (refl, refl)

abbrev options : Options
options = record { timeout = 10000; kind = b'T'; once = false }

abbrev input : ℕ → List Event → Received → Input
input now es r = record { now = now; events = es; received = r }

-- Two touches, and the acknowledgement of the first among others.
abbrev inputs : List Input
inputs =
    input 1 (event true 10 20 ∷ event false 10 20 ∷ []) quiet
    ∷ input 2 [] (replies ((7, true) ∷ (101, true) ∷ []))
    ∷ input 3 [] quiet
    ∷ []

abbrev fresh : Loop
fresh = record { queue = []; script = []; pending = none; sequence = 100; log = [] }

abbrev final : Loop
final = elim (run options inputs fresh) [ ok s ↦ s | raise e ↦ fresh ]

-- n presses and releases, a motion behind each.
abbrev dragging : ℕ → Bool → List Event
dragging zero d = []
dragging (suc n) d = event d 1 1 ∷ event d 2 2 ∷ dragging n (not d)

-- 32 of them fill the queue: the next press or release is refused.
full_at_32 : enqueue_all 0 [] (dragging 32 true ++ event true 1 1 ∷ []) ≡ raise queue_full
unfolding enqueue_all enqueue button coordinate push last? set_last same_bool
full_at_32 = refl
