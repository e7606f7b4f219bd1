-- ===== src/Serial/Upload/Steps.antt =====
-- tools/serial.py, `upload`: a checked command or batch, and what was sent and heard in it.
use darwin_vm.Prelude.{
  ℕ, zero, suc, ◌≡◌, refl, ap, sym, ◌∙◌, subst, Bool, true, false, List, [], ◌∷◌, ◌++◌,
  append_assoc, All, Bool-cases, inl, inr, nat_eq, if◌then◌else◌,
}
use darwin_vm.Prelude.Result.{ok}
use darwin_vm.Bytes.{Bytes, text}
use darwin_vm.Bytes.Utf8.{Str, encode}
use darwin_vm.Text.{contains, contains-append_right}
use darwin_vm.Serial.{
  guarded, guarded_all, Link, World, Options, hundredths, drain, wait_for_text, wait_for_markers,
  wait_for_prompt, send, send_command, send_command_batch,
}
use darwin_vm.Serial.Transcript.{drain-IsLogged, on-Bool}
use darwin_vm.Serial.Sent.{sent-wait_for_text}
use darwin_vm.Serial.Heard.{text_of}
use darwin_vm.Serial.Waiting.{wait_for_text-IsWaited, wait_for_markers-IsWaited}
use darwin_vm.Serial.Markers.{wait_for_text-IsFound, wait_for_markers-AreHeard}
use darwin_vm.Serial.Upload.{Run, recover, checked, checked_batch, seconds, firsts}

-- What was heard stays heard.
pub record IsLater (before after : Link) : Type 0 where
  pub new : List Bytes
  pub heard_all : after.heard ≡ new ++ before.heard

-- Between the links a loop heard chunks that have the marker in their text.
pub record IsWitnessed (before after : Link) (marker : Str) : Type 0 where
  pub start : Link
  pub stop : Link
  pub from_before : IsLater before start
  pub new : List Bytes
  pub heard_all : stop.heard ≡ new ++ start.heard
  pub shown : contains marker (text_of new) ≡ true
  pub to_after : IsLater stop after

-- A guarded command was sent, and while nothing more was sent the marker was heard.
pub record IsAnswered (before after : Link) (line marker : Str) : Type 0 where
  pub witness : IsWitnessed before after marker
  pub earlier : Bytes
  pub asked : witness.start.sent ≡ earlier ++ (text ": :; " ++ (encode line ++ 10 ∷ []))
  pub quiet : witness.stop.sent ≡ witness.start.sent

pub then-IsLater : {u v w : Link} → IsLater u v → IsLater v w → IsLater u w
then-IsLater {u} {v} {w} a b = record {
  new = b.new ++ a.new;
  heard_all =
      b.heard_all ∙ ap (λ z. b.new ++ z) a.heard_all ∙ sym (append_assoc b.new a.new u.heard);
}

pub same-IsLater : {w : Link} → IsLater w w
same-IsLater = record { new = []; heard_all = refl }

pub widen :
    {u v w x : Link} {m : Str} → IsLater u v → IsWitnessed v w m → IsLater w x → IsWitnessed u x m
widen a h b = record {
  start = h.start;
  stop = h.stop;
  from_before = then-IsLater a h.from_before;
  new = h.new;
  heard_all = h.heard_all;
  shown = h.shown;
  to_after = then-IsLater h.to_after b;
}

pub widen_answered :
    {u v w x : Link} {line m : Str}
    → IsLater u v
    → IsAnswered v w line m
    → IsLater w x
    → IsAnswered u x line m
widen_answered {u = u} {x = x} {m = m} a h b =
    let shape : IsWitnessed u x m = record {
      start = h.witness.start;
      stop = h.witness.stop;
      from_before = then-IsLater a h.witness.from_before;
      new = h.witness.new;
      heard_all = h.witness.heard_all;
      shown = h.witness.shown;
      to_after = then-IsLater h.witness.to_after b;
    } in
    record { witness = shape; earlier = h.earlier; asked = h.asked; quiet = h.quiet }

pub witnessed-IsLater : {u v : Link} {m : Str} → IsWitnessed u v m → IsLater u v
witnessed-IsLater i =
    then-IsLater i.from_before
      (then-IsLater (record { new = i.new; heard_all = i.heard_all }) i.to_after)

pub All-map :
    {A : Type 0} {P Q : A → Type 0} (xs : List A) → ((x : A) → P x → Q x) → All P xs → All Q xs
All-map [] f h = tt
All-map (x ∷ xs) f h = (f x h.0, All-map xs f h.1)

module _ (dropped : Str → Bool) (echo : Bool) where
  pub drain-IsLater :
      (secs idle : ℕ) (w : World) → IsLater w.link (drain dropped echo secs idle w).link
  drain-IsLater secs idle w =
      let l = drain-IsLogged dropped echo secs idle w in
      record { new = l.new; heard_all = l.heard_all }

  wait_for_text-IsLater :
      (found : Str → Bool) (secs : ℕ) (w : World)
      → IsLater w.link (wait_for_text dropped echo found secs w).1.link
  wait_for_text-IsLater found secs w =
      let l = (wait_for_text-IsWaited dropped echo found secs w).is_logged in
      record { new = l.new; heard_all = l.heard_all }

  wait_for_markers-IsLater :
      (markers : List Str) (secs : ℕ) (w : World)
      → IsLater w.link (wait_for_markers dropped echo markers secs w).1.link
  wait_for_markers-IsLater markers secs w =
      let l = (wait_for_markers-IsWaited dropped echo markers secs w).is_logged in
      record { new = l.new; heard_all = l.heard_all }

  -- A wait that succeeds is the witness, and it sends nothing.
  pub wait_for_text-IsAnswered :
      (line marker : Str) (earlier : Bytes) (secs : ℕ) (w : World) (after : Link)
      → w.link.sent ≡ earlier ++ (text ": :; " ++ (encode line ++ 10 ∷ []))
      → (wait_for_text dropped echo (contains marker) secs w).0 ≡ true
      → IsLater (wait_for_text dropped echo (contains marker) secs w).1.link after
      → IsAnswered w.link after line marker
  wait_for_text-IsAnswered line marker earlier secs w after asked h b =
      let f = wait_for_text-IsFound dropped echo (contains marker) secs w h in
      let witness : IsWitnessed w.link after marker = record {
        start = w.link;
        stop = (wait_for_text dropped echo (contains marker) secs w).1.link;
        from_before = same-IsLater;
        new = f.new;
        heard_all = f.heard_all;
        shown =
            subst (λ z. contains marker z ≡ true) f.suffix.whole
              (contains-append_right marker f.suffix.front f.kept f.matches);
        to_after = b;
      } in
      record {
        witness = witness;
        earlier = earlier;
        asked = asked;
        quiet = sent-wait_for_text dropped echo (contains marker) secs w;
      }

  wait_for_markers-IsWitnessed :
      (markers : List Str) (secs : ℕ) (w : World) (after : Link)
      → (wait_for_markers dropped echo markers secs w).0 ≡ true
      → IsLater (wait_for_markers dropped echo markers secs w).1.link after
      → All (IsWitnessed w.link after) markers
  wait_for_markers-IsWitnessed markers secs w after h b =
      let f = wait_for_markers-AreHeard dropped echo markers secs w h in
      All-map markers
        (λ m shown. record {
          start = w.link;
          stop = (wait_for_markers dropped echo markers secs w).1.link;
          from_before = same-IsLater;
          new = f.new;
          heard_all = f.heard_all;
          shown = shown;
          to_after = b;
        })
        f.markers_in

on-ℕ :
    {A : Type 0} (P : A → Type 0) (n : ℕ) {x y : A}
    → P x
    → P y
    → P (elim n [ zero ↦ x | suc _ ↦ y ])
on-ℕ P zero z s = z
on-ℕ P (suc n) z s = s

pub ended :
    (u : Link) (v w : World) → IsLater u v.link → ◌≡◌ {A = Run} (ok v) (ok w) → IsLater u w.link
ended u v w l e = let same : v ≡ w = cc in subst (λ z. IsLater u z.link) same l

pub send-IsLater : (bytes : Bytes) (w : World) → IsLater w.link (send bytes w).link
unfolding send
send-IsLater bytes w = record { new = []; heard_all = refl }

module _ (o : Options) where
  pub wait_for_prompt-IsLater : (w : World) → IsLater w.link (wait_for_prompt o w).1.link
  unfolding wait_for_prompt
  wait_for_prompt-IsLater w =
      let v = send (10 ∷ 10 ∷ []) w in
      let r = wait_for_text o.dropped true o.prompt o.prompt_timeout v in
      let a : IsLater w.link r.1.link =
        then-IsLater (send-IsLater (10 ∷ 10 ∷ []) w)
          (wait_for_text-IsLater o.dropped true o.prompt o.prompt_timeout v) in
      on-If (λ z. IsLater w.link z.1.link) r.0
        (then-IsLater a (drain-IsLater o.dropped false o.half_second (hundredths o 10) r.1)) a
    where
      on-If :
          (P : Bool × World → Type 0) (b : Bool) {x y : Bool × World}
          → P x
          → P y
          → P (if b then x else y)
      on-If P true h k = h
      on-If P false h k = k

  recover-IsLater : (w : World) → IsLater w.link (recover o w).link
  unfolding recover
  recover-IsLater w =
      then-IsLater (send-IsLater (3 ∷ 10 ∷ []) w)
        (drain-IsLater o.dropped false o.half_second (hundredths o 20) (send (3 ∷ 10 ∷ []) w))

  -- A checked command that succeeds was sent, and has its marker from the guest, in some attempt.
  pub checked-IsAnswered :
      (command marker : Str) (final : Bool) (n : ℕ) (w v : World)
      → checked o command marker final n w ≡ ok v
      → IsAnswered w.link v.link command marker
  unfolding checked send_command send guarded
  checked-IsAnswered command marker final zero w v = λ h. absurd (cc)
  checked-IsAnswered command marker final (suc n) w v =
      let P : Run → Type 0 = λ r. r ≡ ok v → IsAnswered w.link v.link command marker in
      let a = wait_for_prompt-IsLater w in
      let y = (wait_for_prompt o w).1 in
      let s = send_command command y in
      let r = wait_for_text o.dropped true (contains marker) o.echo_timeout s in
      let c : IsLater w.link s.link = then-IsLater a (send-IsLater (guarded command) y) in
      let b : IsLater w.link r.1.link =
        then-IsLater c (wait_for_text-IsLater o.dropped true (contains marker) o.echo_timeout s) in
      on-Bool P (wait_for_prompt o w).0
        (elim (Bool-cases r.0) [
          | inl e ↦ rw e (λ h.
              widen_answered c
                (wait_for_text-IsAnswered o.dropped true command marker y.link.sent o.echo_timeout s
                  v.link refl e
                  (ended r.1.link _ v
                    (drain-IsLater o.dropped true (if final then o.secs else hundredths o 10)
                      (if final then o.idle else hundredths o 5) r.1)
                    h))
                same-IsLater)
          | inr e ↦ rw e (
              on-ℕ P n (λ h. absurd (cc))
                (λ h.
                  widen_answered (then-IsLater b (recover-IsLater r.1))
                    (checked-IsAnswered command marker final n (recover o r.1) v h) same-IsLater))
        ])
        (on-ℕ P n (λ h. absurd (cc))
          (λ h. widen_answered a (checked-IsAnswered command marker final n y v h) same-IsLater))

  -- A batch that succeeds has the markers of all its entries from the guest, in one attempt.
  pub checked_batch-IsWitnessed :
      (entries : List (Str × Str)) (n : ℕ) (w v : World)
      → checked_batch o entries n w ≡ ok v
      → All (IsWitnessed w.link v.link) (seconds entries) × IsLater w.link v.link
  unfolding checked_batch send_command_batch
  checked_batch-IsWitnessed entries zero w v = λ h. absurd (cc)
  checked_batch-IsWitnessed entries (suc n) w v =
      let ms = seconds entries in
      let P : Run → Type 0 =
        λ r. r ≡ ok v → All (IsWitnessed w.link v.link) ms × IsLater w.link v.link in
      let a = wait_for_prompt-IsLater w in
      let y = (wait_for_prompt o w).1 in
      let s = send_command_batch (firsts entries) y in
      let r = wait_for_markers o.dropped true ms o.echo_timeout s in
      let c : IsLater w.link s.link =
        then-IsLater a (send-IsLater (guarded_all (firsts entries)) y) in
      let b : IsLater w.link r.1.link =
        then-IsLater c (wait_for_markers-IsLater o.dropped true ms o.echo_timeout s) in
      on-Bool P (wait_for_prompt o w).0
        (elim (Bool-cases r.0) [
          | inl e ↦ rw e (λ h.
              let d : IsLater r.1.link v.link =
                ended r.1.link _ v
                  (drain-IsLater o.dropped true (hundredths o 10) (hundredths o 5) r.1) h in
              (
                All-map ms (λ m k. widen c k same-IsLater)
                    (wait_for_markers-IsWitnessed o.dropped true ms o.echo_timeout s v.link e d),
                then-IsLater b d,
              ))
          | inr e ↦ rw e (
              on-ℕ P n (λ h. absurd (cc))
                (λ h.
                  again (recover o r.1) (then-IsLater b (recover-IsLater r.1))
                    (checked_batch-IsWitnessed entries n (recover o r.1) v h)))
        ])
        (on-ℕ P n (λ h. absurd (cc)) (λ h. again y a (checked_batch-IsWitnessed entries n y v h)))
    where
      again :
          (x : World)
          → IsLater w.link x.link
          → All (IsWitnessed x.link v.link) (seconds entries) × IsLater x.link v.link
          → All (IsWitnessed w.link v.link) (seconds entries) × IsLater w.link v.link
      again x l (h, k) =
          (All-map (seconds entries) (λ m i. widen l i same-IsLater) h, then-IsLater l k)
