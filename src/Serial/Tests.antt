-- ===== src/Serial/Tests.antt =====
-- tools/serial.py: a console that answers, and the laws at it.
use darwin_vm.Prelude.{◌≡◌, refl, Bool, true, false, List, [], ◌∷◌, drop, nat_eq, list_eq}
use darwin_vm.Bytes.{text}
use darwin_vm.Bytes.Utf8.{Str, decode_replace}
use darwin_vm.Text.{contains, starts_with}
use darwin_vm.Serial.{
  chunk, blocked, closed, Link, World, lead, put, lines, strip_return, line_text, print_text,
  emit_line, emit_lines, emit_rest, drain_loop, drain, last_of, window, wait_loop, wait_for_text,
  look, all_seen, unseen, wait_for_markers,
}
use darwin_vm.Serial.Transcript.{IsLogged, drain-IsLogged}
use darwin_vm.Serial.Waiting.{IsWaited, wait_for_markers-IsWaited}
use darwin_vm.Serial.Markers.{AreHeard, wait_for_markers-AreHeard}

abbrev never : Str → Bool
never s = false

abbrev new_link : Link
new_link = record { clock = 0; heard = []; sent = []; log = []; printed = [] }

-- Two markers in one chunk that ends inside a line, and the rest of it.
abbrev markers_world : World
markers_world = record {
  link = new_link;
  polls =
      record { now = 1; got = blocked }
      ∷ record { now = 2; got = chunk (text "4 a\n5 b\n6") }
      ∷ record { now = 3; got = chunk (text " c") }
      ∷ [];
}

abbrev three : List Str
three = text "4 a" ∷ text "6 c" ∷ text "5 b" ∷ []

abbrev waited : Bool × World
waited = wait_for_markers never true three 10 markers_world

markers_arrive : waited.0 ≡ true
unfolding wait_for_markers wait_loop look all_seen unseen window last_of contains starts_with
    decode_replace drop
markers_arrive = refl

wait_for_markers-AreHeard_example : AreHeard three new_link waited.1.link
wait_for_markers-AreHeard_example =
    wait_for_markers-AreHeard never true three 10 markers_world markers_arrive

wait_for_markers-IsWaited_example : IsWaited [] new_link waited
wait_for_markers-IsWaited_example = wait_for_markers-IsWaited never true three 10 markers_world

text_arrives : (wait_for_text never true (contains (text "5 b")) 10 markers_world).0 ≡ true
unfolding wait_for_text wait_loop window last_of contains starts_with decode_replace drop
text_arrives = refl

drain-IsLogged_example : IsLogged true [] new_link (drain never true 10 5 markers_world).link
drain-IsLogged_example = drain-IsLogged never true 10 5 markers_world

log_of_drain : (drain never true 10 5 markers_world).link.log ≡ text "4 a\n5 b\n6 c"
unfolding drain drain_loop emit_lines emit_line emit_rest print_text lines put lead line_text
    strip_return decode_replace
log_of_drain = refl

-- A console that is closed: what stands behind the last newline is not logged.
log_of_closed :
    (wait_for_text never true (contains (text "#")) 10 (record {
      link = new_link;
      polls =
          record { now = 1; got = chunk (text "ready\npanic") }
          ∷ record { now = 2; got = closed }
          ∷ [];
    })).1.link.log
    ≡ text "ready\n"
unfolding wait_for_text wait_loop emit_lines emit_line emit_rest print_text lines put lead line_text
    strip_return decode_replace window last_of contains starts_with drop
log_of_closed = refl
