-- ===== src/Serial/Main.antt =====
-- tools/serial.py, `main`: the four actions. The socket, the files and the host's checksums are
-- parameters.
pub mod Script
mod Tests
use darwin_vm.Prelude.{
  ℕ, ◌+◌, Bool, true, false, not, ◌&&◌, List, [], ◌∷◌, ◌++◌, Option, none, some, all, if◌then◌else◌,
  nat_eq, list_eq, ◌==◌, ltb, leb, ◌||◌,
}
use darwin_vm.Prelude.Result.{Result, ok, raise, ◌>>=◌}
use darwin_vm.Bytes.{Bytes, text}
use darwin_vm.Bytes.Utf8.{Str, encode}
use darwin_vm.Text.{contains, starts_with}
use darwin_vm.Serial.{
  World, Options, hundredths, drain, wait_for_text, wait_for_prompt, send, send_command,
}
use darwin_vm.Serial.Upload.{
  Run, Refusal, no_prompt, no_echo, no_handshake, no_remote_path, bad_batch, no_socket, upload,
}

-- `script` has the lines of its file, `upload_to` what is read from its local path and the checksum
-- of that, and the option --remote-path.
pub data Action : Type 0 where
  read : Action
  send_line : Str → Action
  script : List Str → Action
  upload_to : Option Bytes → Option Str → Option Str → Action

-- l.rstrip('\n')
unfoldable pub strip_newline : Str → Str
strip_newline [] = []
strip_newline (c ∷ s) = let t = strip_newline s in if c == 10 && t == [] then [] else c ∷ t

-- c.isspace(), which `strip` removes
unfoldable pub is_white : ℕ → Bool
is_white c =
    (leb 9 c && leb c 13)
    || (leb 28 c && leb c 32)
    || c == 0x85
    || c == 0xa0
    || c == 0x1680
    || (leb 0x2000 c && leb c 0x200a)
    || c == 0x2028
    || c == 0x2029
    || c == 0x202f
    || c == 0x205f
    || c == 0x3000

-- The lines that are commands, without their newlines.
unfoldable pub commands_of : List Str → List Str
commands_of [] = []
commands_of (l ∷ ls) =
    let more = commands_of ls in
    if not (all is_white l) && not (starts_with (text "#") l) then strip_newline l ∷ more else more

module _ (o : Options) (handshake : Bool) where
  -- One command: with the handshake, its echo must arrive.
  unfoldable pub give : Str → World → Run
  give c w =
      if not handshake
      then ok (send (encode c ++ 10 ∷ []) w)
      else let (arrived, v) = wait_for_prompt o w in
        if not arrived
        then raise (no_prompt, v)
        else let (echoed, x) =
            wait_for_text o.dropped true (contains c) o.echo_timeout (send_command c v) in
          if not echoed then raise (no_echo, x) else ok x

  unfoldable pub announce : Str → World → World
  announce c w = record w {
    link = record w.link { printed = w.link.printed ++ (text "--- " ++ c) ∷ [] };
  }

  unfoldable pub give_all : List Str → World → Run
  give_all [] w = ok w
  give_all (c ∷ cs) w =
      give c (announce c w) >>= λ v. give_all cs (drain o.dropped true o.secs o.idle v)

  -- drain(s, 0.3, 0.2, ...): what the console had sent before.
  unfoldable pub discard_backlog : World → World
  discard_backlog w = drain o.dropped false (hundredths o 30) (hundredths o 20) w

  unfoldable pub main : (Bytes → Option Str) → Bool → Action → World → Run
  main cksum socket action w =
      if ltb o.batch 1
      then raise (bad_batch, w)
      else if not socket
      then raise (no_socket, w)
      else elim action [
        | read ↦ ok (drain o.dropped true o.secs o.idle w)
        | send_line c ↦
            give c (discard_backlog w) >>= λ v. ok (drain o.dropped true o.secs o.idle v)
        | script ls ↦ give_all (commands_of ls) (discard_backlog w)
        | upload_to file file_sum remote ↦
            if not handshake then raise (no_handshake, w) else elim remote [
              | none ↦ raise (no_remote_path, w)
              | some path ↦
                  if path == []
                  then raise (no_remote_path, w)
                  else upload o cksum file file_sum path (discard_backlog w)
            ]
      ]
