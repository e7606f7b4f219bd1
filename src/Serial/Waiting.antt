-- ===== src/Serial/Waiting.antt =====
-- tools/serial.py: what a wait logs, however it ends.
use darwin_vm.Prelude.{
  ℕ, ◌+◌, ◌≡◌, refl, Bool, true, false, not, ◌||◌, List, [], ◌∷◌, ◌++◌, leb, nat_eq,
}
use darwin_vm.Bytes.{Bytes}
use darwin_vm.Bytes.Utf8.{Str}
use darwin_vm.Serial.{
  Poll, Link, World, lines, emit_lines, window, wait_loop, wait_for_text, wait_for_markers, look,
  all_seen, unseen,
}
use darwin_vm.Serial.Transcript.{
  IsLogged, IsRest, nil-IsRest, lines-IsRest, on-Bool, on-Recv, rest-IsLogged, cut-IsLogged,
  chunk-IsLogged, clock-IsLogged,
}

-- What a waiting loop leaves: on success the incomplete line is logged too.
pub record IsWaited (buf : Bytes) (before : Link) (r : Bool × World) : Type 0 where
  pub full : Bool
  pub rest_logged : (not r.0 || full) ≡ true
  pub is_logged : IsLogged full buf before r.1.link

module _ {S : Type 0} (dropped : Str → Bool) (echo : Bool) (update : Str → S → S)
    (finished : S → Bool) where
  wait_loop-IsWaited :
      (deadline : ℕ) (buf : Bytes) (kept : Str) (s : S) (w : Link) (ps : List Poll)
      → IsRest buf
      → IsWaited buf w (wait_loop dropped echo update finished deadline buf kept s w ps)
  unfolding wait_loop
  wait_loop-IsWaited deadline buf kept s w [] h = record {
    full = true;
    rest_logged = refl;
    is_logged = rest-IsLogged dropped echo buf w h;
  }
  wait_loop-IsWaited deadline buf kept s w (p ∷ ps) h =
      let v : Link = record w { clock = p.now } in
      let P : Bool × World → Type 0 = IsWaited buf w in
      let again = wait_loop-IsWaited deadline buf kept s v ps h in
      let cut : IsLogged false buf w v =
        clock-IsLogged dropped echo (cut-IsLogged dropped echo buf v h) in
      on-Bool P (leb deadline p.now)
        (record {
          full = true;
          rest_logged = refl;
          is_logged = clock-IsLogged dropped echo (rest-IsLogged dropped echo buf v h);
        })
        (on-Recv P p.got
          (λ c.
            let ls = (lines (buf ++ c)).0 in
            let rest = (lines (buf ++ c)).1 in
            let x : Link = record v { heard = c ∷ v.heard } in
            let v' = emit_lines dropped echo ls x in
            let next =
              wait_loop-IsWaited deadline rest (window kept c) (update (window kept c) s) v' ps
                (lines-IsRest (buf ++ c)) in
            on-Bool P (finished (update (window kept c) s))
              (record {
                full = true;
                rest_logged = refl;
                is_logged = clock-IsLogged dropped echo (
                    chunk-IsLogged dropped echo true buf c v _
                      (rest-IsLogged dropped echo rest v' (lines-IsRest (buf ++ c))));
              })
              (record {
                full = next.full;
                rest_logged = next.rest_logged;
                is_logged =
                    clock-IsLogged dropped echo
                      (chunk-IsLogged dropped echo next.full buf c v _ next.is_logged);
              }))
          (record {
            full = again.full;
            rest_logged = again.rest_logged;
            is_logged = clock-IsLogged dropped echo again.is_logged;
          })
          (record { full = false; rest_logged = refl; is_logged = cut })
          (record { full = false; rest_logged = refl; is_logged = cut }))

-- However a wait ends, what it heard is logged: all of it when it succeeds, and else at least the
-- complete lines.
pub wait_for_text-IsWaited :
    (dropped : Str → Bool) (echo : Bool) (found : Str → Bool) (secs : ℕ) (w : World)
    → IsWaited [] w.link (wait_for_text dropped echo found secs w)
unfolding wait_for_text
wait_for_text-IsWaited dropped echo found secs w =
    wait_loop-IsWaited dropped echo (λ kept s. found kept) (λ s. s) (w.link.clock + secs) [] []
      false w.link w.polls nil-IsRest

-- However wait_for_markers ends, what it heard is logged: all of it when it succeeds, and else at
-- least the complete lines.
pub wait_for_markers-IsWaited :
    (dropped : Str → Bool) (echo : Bool) (markers : List Str) (secs : ℕ) (w : World)
    → IsWaited [] w.link (wait_for_markers dropped echo markers secs w)
unfolding wait_for_markers
wait_for_markers-IsWaited dropped echo markers secs w =
    wait_loop-IsWaited dropped echo look all_seen (w.link.clock + secs) [] [] (unseen markers)
      w.link w.polls nil-IsRest
