-- ===== src/Serial.antt =====
-- tools/serial.py: the console on a socket. The guest's side is a script of polls, one for each round
-- of a waiting loop: the clock, and what `recv` does. A loop whose script ends stops as at its
-- deadline. `link` holds what a run leaves: what was delivered, sent, logged and printed.
pub mod Transcript
pub mod Heard
pub mod Waiting
pub mod Markers
pub mod Upload
pub mod Sent
pub mod Main
mod Tests
use darwin_vm.Prelude.{
  ℕ, zero, suc, ◌+◌, ◌-◌, ◌*◌, ◌/◌, Bool, true, false, not, ◌&&◌, ◌||◌, List, [], ◌∷◌, ◌++◌, Option,
  none, some, length, take, drop, all, leb, ltb, nat_eq, list_eq, ◌==◌, if◌then◌else◌,
}
use darwin_vm.Bytes.{Bytes, text}
use darwin_vm.Bytes.Utf8.{Str, decode_replace, encode}
use darwin_vm.Text.{contains}

-- s.recv(65536): bytes, BlockingIOError, another error of the connection, or its end (no bytes).
pub data Recv : Type 0 where
  chunk : Bytes → Recv
  blocked lost closed : Recv

pub record Poll : Type 0 where
  pub now : ℕ
  pub got : Recv

-- `heard` are the chunks delivered, the last one first.
pub record Link : Type 0 where
  pub clock : ℕ
  pub heard : List Bytes
  pub sent : Bytes
  pub log : Str
  pub printed : List Str

pub record World : Type 0 where
  pub link : Link
  pub polls : List Poll

-- A byte in front of the lines and the rest of what follows it.
unfoldable pub lead : ℕ → List Bytes × Bytes → List Bytes × Bytes
lead b ([], rest) = ([], b ∷ rest)
lead b (l ∷ ls, rest) = ((b ∷ l) ∷ ls, rest)

unfoldable pub put : ℕ → List Bytes × Bytes → List Bytes × Bytes
put b p = if b == 10 then ([] ∷ p.0, p.1) else lead b p

-- buf.split(b'\n', 1) until no newline is left: the complete lines, and the rest.
unfoldable pub lines : Bytes → List Bytes × Bytes
lines [] = ([], [])
lines (b ∷ s) = put b (lines s)

-- text.rstrip('\r')
unfoldable pub strip_return : Str → Str
strip_return [] = []
strip_return (c ∷ s) = let t = strip_return s in if c == 13 && t == [] then [] else c ∷ t

unfoldable pub line_text : Bytes → Str
line_text l = strip_return (decode_replace l)

module _ (dropped : Str → Bool) (echo : Bool) where
  -- What a loop prints of a text: nothing that --drop matches.
  unfoldable pub print_text : Str → Link → Link
  print_text t w = record w {
    printed = if not (dropped t) && echo then w.printed ++ t ∷ [] else w.printed;
  }

  unfoldable pub emit_line : Bytes → Link → Link
  emit_line l w = print_text (line_text l) (record w { log = w.log ++ (line_text l ++ 10 ∷ []) })

  unfoldable pub emit_lines : List Bytes → Link → Link
  emit_lines [] w = w
  emit_lines (l ∷ ls) w = emit_lines ls (emit_line l w)

  -- The bytes of an incomplete line, at the end of a loop.
  unfoldable pub emit_rest : Bytes → Link → Link
  emit_rest [] w = w
  emit_rest (b ∷ s) w =
      print_text (decode_replace (b ∷ s)) (record w { log = w.log ++ decode_replace (b ∷ s) })

  -- The loop of `drain`, with the time of the last bytes and the incomplete line. A connection that
  -- the guest has closed delivers no bytes, and the loop goes on.
  unfoldable pub drain_loop : ℕ → ℕ → ℕ → Bytes → Link → List Poll → World
  drain_loop deadline idle last buf w [] = record { link = emit_rest buf w; polls = [] }
  drain_loop deadline idle last buf w (p ∷ ps) =
      let v = record w { clock = p.now } in
      elim (leb deadline p.now) [
        | true ↦ record { link = emit_rest buf v; polls = ps }
        | false ↦ elim p.got [
          | chunk c ↦
              let (ls, rest) = lines (buf ++ c) in
              drain_loop deadline idle p.now rest (emit_lines ls (record v { heard = c ∷ v.heard }))
                ps
          | closed ↦ drain_loop deadline idle last buf v ps
          | blocked ↦ elim (ltb (last + idle) p.now) [
            | true ↦ record { link = emit_rest buf v; polls = ps }
            | false ↦ drain_loop deadline idle last buf v ps
          ]
          | lost ↦ record { link = emit_rest buf v; polls = ps }
        ]
      ]

  unfoldable pub drain : ℕ → ℕ → World → World
  drain secs idle w = drain_loop (w.link.clock + secs) idle w.link.clock [] w.link w.polls

-- text_buf[-16384:]
abbrev pub window_size : ℕ
window_size = 16384

unfoldable pub last_of : ℕ → Str → Str
last_of n s = drop (length s - n) s

unfoldable pub window : Str → Bytes → Str
window kept c = last_of window_size (kept ++ decode_replace c)

-- What the two waiting loops share: `update` looks at the new window, `finished` says that all was
-- seen. A connection that breaks or ends stops the loop without the incomplete line.
module _ {S : Type 0} (dropped : Str → Bool) (echo : Bool) (update : Str → S → S)
    (finished : S → Bool) where
  unfoldable pub wait_loop : ℕ → Bytes → Str → S → Link → List Poll → Bool × World
  wait_loop deadline buf kept s w [] =
      (false, record { link = emit_rest dropped echo buf w; polls = [] })
  wait_loop deadline buf kept s w (p ∷ ps) =
      let v = record w { clock = p.now } in
      elim (leb deadline p.now) [
        | true ↦ (false, record { link = emit_rest dropped echo buf v; polls = ps })
        | false ↦ elim p.got [
          | blocked ↦ wait_loop deadline buf kept s v ps
          | lost ↦ (false, record { link = v; polls = ps })
          | closed ↦ (false, record { link = v; polls = ps })
          | chunk c ↦
              let (ls, rest) = lines (buf ++ c) in
              let kept' = window kept c in
              let s' = update kept' s in
              let v' = emit_lines dropped echo ls (record v { heard = c ∷ v.heard }) in
              elim (finished s') [
                | true ↦ (true, record { link = emit_rest dropped echo rest v'; polls = ps })
                | false ↦ wait_loop deadline rest kept' s' v' ps
              ]
        ]
      ]

-- wait_for_text: the window matches the pattern.
unfoldable pub wait_for_text : (Str → Bool) → Bool → (Str → Bool) → ℕ → World → Bool × World
wait_for_text dropped echo found secs w =
    wait_loop dropped echo (λ kept (s : Bool). found kept) (λ s. s) (w.link.clock + secs) [] []
      false w.link w.polls

-- wait_for_markers: each marker with a flag that it was seen in some window.
unfoldable pub look : Str → List (Str × Bool) → List (Str × Bool)
look kept [] = []
look kept ((m, seen) ∷ ms) = (m, seen || contains m kept) ∷ look kept ms

unfoldable pub all_seen : List (Str × Bool) → Bool
all_seen [] = true
all_seen ((m, seen) ∷ ms) = seen && all_seen ms

unfoldable pub unseen : List Str → List (Str × Bool)
unseen [] = []
unseen (m ∷ ms) = (m, false) ∷ unseen ms

unfoldable pub wait_for_markers : (Str → Bool) → Bool → List Str → ℕ → World → Bool × World
wait_for_markers dropped echo markers secs w =
    wait_loop dropped echo look all_seen (w.link.clock + secs) [] [] (unseen markers) w.link w.polls

-- send_paced, the pauses aside
unfoldable pub send : Bytes → World → World
send bytes w = record w { link = record w.link { sent = w.link.sent ++ bytes } }

-- What a run is given on its command line; the times are in the unit of the clock.
pub record Options : Type 0 where
  pub dropped : Str → Bool
  pub prompt : Str → Bool
  pub prompt_timeout : ℕ
  pub echo_timeout : ℕ
  pub secs : ℕ
  pub idle : ℕ
  pub half_second : ℕ
  pub batch : ℕ

-- A part of half a second: n hundredths of a second
unfoldable pub hundredths : Options → ℕ → ℕ
hundredths o n = o.half_second * n / 50

unfoldable pub wait_for_prompt : Options → World → Bool × World
wait_for_prompt o w =
    let (arrived, v) =
      wait_for_text o.dropped true o.prompt o.prompt_timeout (send (10 ∷ 10 ∷ []) w) in
    if arrived then (true, drain o.dropped false o.half_second (hundredths o 10) v) else (false, v)

-- The bytes of a guarded line.
unfoldable pub guarded : Str → Bytes
guarded command = text ": :; " ++ (encode command ++ 10 ∷ [])

unfoldable pub send_command : Str → World → World
send_command command = send (guarded command)

unfoldable pub guarded_all : List Str → Bytes
guarded_all [] = []
guarded_all (c ∷ cs) = guarded c ++ guarded_all cs

unfoldable pub send_command_batch : List Str → World → World
send_command_batch commands = send (guarded_all commands)
