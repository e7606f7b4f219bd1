-- ===== src/Serial/Main/Tests.antt =====
-- tools/serial.py, `main`: a script of two commands, and a console that stops answering.
use darwin_vm.Prelude.{
  ℕ, ◌+◌, ◌≡◌, refl, true, false, List, [], ◌∷◌, ◌++◌, Option, none, some, drop, All, nat_eq,
  list_eq,
}
use darwin_vm.Prelude.Result.{ok, raise}
use darwin_vm.Bytes.{text}
use darwin_vm.Bytes.Utf8.{Str, decode_replace, encode}
use darwin_vm.Text.{contains, starts_with}
use darwin_vm.Serial.{
  chunk, blocked, Poll, World, Options, lead, put, lines, strip_return, line_text, print_text,
  emit_line, emit_lines, emit_rest, drain_loop, drain, last_of, window, wait_loop, wait_for_text,
  send, hundredths, wait_for_prompt, guarded, send_command,
}
use darwin_vm.Serial.Upload.{Run, Refusal, no_prompt}
use darwin_vm.Serial.Upload.Steps.{IsWitnessed}
use darwin_vm.Serial.Main.{is_white, strip_newline, commands_of, announce, give, give_all}
use darwin_vm.Serial.Main.Script.{given, IsStopped, give_all-eq-ok, give_all-IsStopped}

abbrev options : Options
options = record {
  dropped = λ s. false;
  prompt = contains (text "#");
  prompt_timeout = 10;
  echo_timeout = 10;
  secs = 10;
  idle = 1;
  half_second = 50;
  batch = 4;
}

abbrev answers : ℕ → List Str → List Poll
answers t [] = []
answers t (m ∷ ms) =
    record { now = t; got = chunk (text "#") }
    ∷ record { now = t + 100; got = blocked }
    ∷ record { now = t + 100; got = chunk m }
    ∷ record { now = t + 200; got = blocked }
    ∷ answers (t + 200) ms

abbrev world : List Str → World
world ms = record {
  link = record { clock = 0; heard = []; sent = []; log = []; printed = [] };
  polls = answers 0 ms;
}

abbrev cmds : List Str
cmds = text "ls" ∷ text "id" ∷ []

commands_of_script :
    commands_of (text "# list\n" ∷ text "ls\n" ∷ text "  \n" ∷ text "id" ∷ []) ≡ cmds
unfolding commands_of is_white strip_newline starts_with
commands_of_script = refl

abbrev answered : Run
answered = give_all options true cmds (world cmds)

abbrev unanswered : Run
unanswered = give_all options true cmds (world (text "ls" ∷ []))

abbrev world_of : Run → World
world_of (ok w) = w
world_of (raise (r, w)) = w

abbrev refusal_of : Run → Option Refusal
refusal_of (ok w) = none
refusal_of (raise (r, w)) = some r

ok-world_of : (r : Run) → refusal_of r ≡ none → r ≡ ok (world_of r)
ok-world_of (ok w) h = refl
ok-world_of (raise e) h = absurd (cc)

raise-world_of : (r : Run) {e : Refusal} → refusal_of r ≡ some e → r ≡ raise (e, world_of r)
raise-world_of (ok w) h = absurd (cc)
raise-world_of (raise (e, w)) h = cc

script_works : refusal_of answered ≡ none
unfolding give_all give announce wait_for_prompt wait_for_text wait_loop drain drain_loop send
    send_command guarded window last_of contains starts_with decode_replace drop hundredths encode
    emit_rest lines put lead print_text emit_lines emit_line line_text strip_return
script_works = refl

give_all-eq-ok_example :
    ((world_of answered).link.sent ≡ [] ++ given cmds)
    × All (IsWitnessed (world cmds).link (world_of answered).link) cmds
give_all-eq-ok_example =
    give_all-eq-ok options cmds (world cmds) (world_of answered) (ok-world_of answered script_works)

script_stops : refusal_of unanswered ≡ some no_prompt
unfolding give_all give announce wait_for_prompt wait_for_text wait_loop drain drain_loop send
    send_command guarded window last_of contains starts_with decode_replace drop hundredths encode
    emit_rest lines put lead print_text emit_lines emit_line line_text strip_return
script_stops = refl

give_all-IsStopped_example : IsStopped cmds (world (text "ls" ∷ [])).link (world_of unanswered).link
give_all-IsStopped_example =
    give_all-IsStopped options cmds (world (text "ls" ∷ [])) (world_of unanswered) no_prompt
      (raise-world_of unanswered script_stops)
