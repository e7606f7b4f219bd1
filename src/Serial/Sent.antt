-- ===== src/Serial/Sent.antt =====
-- tools/serial.py: the loops that wait, and what has been sent.
use darwin_vm.Prelude.{
  ℕ, ◌+◌, ◌≡◌, refl, ◌∙◌, Bool, true, false, List, [], ◌∷◌, ◌++◌, if◌then◌else◌, leb, ltb,
}
use darwin_vm.Bytes.{Bytes}
use darwin_vm.Bytes.Utf8.{Str}
use darwin_vm.Serial.{
  Poll, Link, World, Options, lines, window, print_text, emit_line, emit_lines, emit_rest,
  drain_loop, drain, wait_loop, wait_for_text, wait_for_prompt, send, hundredths,
}
use darwin_vm.Serial.Transcript.{on-Bool, on-Recv}

module _ (dropped : Str → Bool) (echo : Bool) where
  sent-emit_lines : (ls : List Bytes) (w : Link) → (emit_lines dropped echo ls w).sent ≡ w.sent
  unfolding emit_lines emit_line print_text
  sent-emit_lines [] w = refl
  sent-emit_lines (l ∷ ls) w = sent-emit_lines ls (emit_line dropped echo l w)

  sent-emit_rest : (s : Bytes) (w : Link) → (emit_rest dropped echo s w).sent ≡ w.sent
  unfolding emit_rest print_text
  sent-emit_rest [] w = refl
  sent-emit_rest (b ∷ s) w = refl

  sent-drain_loop :
      (deadline idle last : ℕ) (buf : Bytes) (w : Link) (ps : List Poll)
      → (drain_loop dropped echo deadline idle last buf w ps).link.sent ≡ w.sent
  unfolding drain_loop
  sent-drain_loop deadline idle last buf w [] = sent-emit_rest buf w
  sent-drain_loop deadline idle last buf w (p ∷ ps) =
      let v : Link = record w { clock = p.now } in
      let P : World → Type 0 = λ z. z.link.sent ≡ w.sent in
      let again = sent-drain_loop deadline idle last buf v ps in
      on-Bool P (leb deadline p.now) (sent-emit_rest buf v) (
        on-Recv P p.got
          (λ c.
            let x : Link = record v { heard = c ∷ v.heard } in
            sent-drain_loop deadline idle p.now (lines (buf ++ c)).1
              (emit_lines dropped echo (lines (buf ++ c)).0 x) ps
            ∙ sent-emit_lines (lines (buf ++ c)).0 x)
          (on-Bool P (ltb (last + idle) p.now) (sent-emit_rest buf v) again) (sent-emit_rest buf v)
          again)

  pub sent-drain :
      (secs idle : ℕ) (w : World) → (drain dropped echo secs idle w).link.sent ≡ w.link.sent
  unfolding drain
  sent-drain secs idle w = sent-drain_loop (w.link.clock + secs) idle w.link.clock [] w.link w.polls

  module _ {S : Type 0} (update : Str → S → S) (finished : S → Bool) where
    sent-wait_loop :
        (deadline : ℕ) (buf : Bytes) (kept : Str) (s : S) (w : Link) (ps : List Poll)
        → (wait_loop dropped echo update finished deadline buf kept s w ps).1.link.sent ≡ w.sent
    unfolding wait_loop
    sent-wait_loop deadline buf kept s w [] = sent-emit_rest buf w
    sent-wait_loop deadline buf kept s w (p ∷ ps) =
        let v : Link = record w { clock = p.now } in
        let P : Bool × World → Type 0 = λ z. z.1.link.sent ≡ w.sent in
        on-Bool P (leb deadline p.now) (sent-emit_rest buf v) (
          on-Recv P p.got
            (λ c.
              let x : Link = record v { heard = c ∷ v.heard } in
              let v' = emit_lines dropped echo (lines (buf ++ c)).0 x in
              let same = sent-emit_lines (lines (buf ++ c)).0 x in
              let kept' = window kept c in
              on-Bool P (finished (update kept' s)) (sent-emit_rest (lines (buf ++ c)).1 v' ∙ same)
                (sent-wait_loop deadline (lines (buf ++ c)).1 kept' (update kept' s) v' ps ∙ same))
            (sent-wait_loop deadline buf kept s v ps) refl refl)

  pub sent-wait_for_text :
      (found : Str → Bool) (secs : ℕ) (w : World)
      → (wait_for_text dropped echo found secs w).1.link.sent ≡ w.link.sent
  unfolding wait_for_text
  sent-wait_for_text found secs w =
      sent-wait_loop (λ kept (s : Bool). found kept) (λ s. s) (w.link.clock + secs) [] [] false
        w.link w.polls

-- The handshake sends two newlines, whether the prompt arrives or not.
pub sent-wait_for_prompt :
    (o : Options) (w : World) → (wait_for_prompt o w).1.link.sent ≡ w.link.sent ++ (10 ∷ 10 ∷ [])
unfolding wait_for_prompt send
sent-wait_for_prompt o w =
    let v = send (10 ∷ 10 ∷ []) w in
    let r = wait_for_text o.dropped true o.prompt o.prompt_timeout v in
    let a : r.1.link.sent ≡ w.link.sent ++ (10 ∷ 10 ∷ []) =
      sent-wait_for_text o.dropped true o.prompt o.prompt_timeout v in
    on-If (λ z. z.1.link.sent ≡ w.link.sent ++ (10 ∷ 10 ∷ [])) r.0
      (sent-drain o.dropped false o.half_second (hundredths o 10) r.1 ∙ a) a
  where
    on-If :
        (P : Bool × World → Type 0) (b : Bool) {x y : Bool × World}
        → P x
        → P y
        → P (if b then x else y)
    on-If P true h k = h
    on-If P false h k = k
