-- ===== src/Serial/Main/Script.antt =====
-- tools/serial.py, the `script` action: what its commands send, and what is heard of them.
use darwin_vm.Prelude.{
  ◌≡◌, refl, ap, sym, ◌∙◌, ◌⊎◌, inl, inr, true, List, [], ◌∷◌, ◌++◌, append_assoc, append-nil, All,
  Bool-cases, subst,
}
use darwin_vm.Prelude.Result.{ok, raise, ◌>>=◌, >>=-eq-ok, Result-cases}
use darwin_vm.Bytes.{Bytes}
use darwin_vm.Bytes.Utf8.{Str}
use darwin_vm.Text.{contains}
use darwin_vm.Serial.{
  Link, World, Options, guarded, drain, wait_for_text, wait_for_prompt, send, send_command,
}
use darwin_vm.Serial.Sent.{sent-drain, sent-wait_for_text, sent-wait_for_prompt}
use darwin_vm.Serial.Upload.{Run, Refusal}
use darwin_vm.Serial.Upload.Steps.{
  IsLater, IsWitnessed, then-IsLater, same-IsLater, widen, All-map, drain-IsLater, send-IsLater,
  wait_for_text-IsAnswered, wait_for_prompt-IsLater, witnessed-IsLater,
}
use darwin_vm.Serial.Main.{give, give_all, announce}

-- The bytes of commands that are given, with the handshake before each.
unfoldable pub given : List Str → Bytes
given [] = []
given (c ∷ cs) = (10 ∷ 10 ∷ guarded c) ++ given cs

-- One command that was given, or was not, or was without an answer.
data IsTried (c : Str) (before : Link) : Run → Type 0 where
  answered :
      {v : World}
      → v.link.sent ≡ before.sent ++ (10 ∷ 10 ∷ guarded c)
      → IsWitnessed before v.link c
      → IsTried c before (ok v)
  unanswered :
      {r : Refusal} {v : World}
      → v.link.sent ≡ before.sent ++ (10 ∷ 10 ∷ guarded c)
      → IsTried c before (raise (r, v))
  withheld :
      {r : Refusal} {v : World}
      → v.link.sent ≡ before.sent ++ (10 ∷ 10 ∷ [])
      → IsTried c before (raise (r, v))

module _ (o : Options) where
  give-IsTried : (c : Str) (w : World) → IsTried c w.link (give o true c w)
  unfolding give send_command send guarded
  give-IsTried c w =
      let p = wait_for_prompt o w in
      let s = send_command c p.1 in
      let r = wait_for_text o.dropped true (contains c) o.echo_timeout s in
      let sent_all : r.1.link.sent ≡ w.link.sent ++ (10 ∷ 10 ∷ guarded c) =
        sent-wait_for_text o.dropped true (contains c) o.echo_timeout s
        ∙ sent-command p.1
        ∙ ap (λ z. z ++ guarded c) (sent-wait_for_prompt o w)
        ∙ append_assoc w.link.sent (10 ∷ 10 ∷ []) (guarded c) in
      elim (Bool-cases p.0) [
        | inr e ↦ rw e (withheld (sent-wait_for_prompt o w))
        | inl e ↦ elim (Bool-cases r.0) [
          | inr f ↦ rw (e, f) (unanswered sent_all)
          | inl f ↦
              rw (e, f)
                (answered sent_all (
                  widen (then-IsLater (wait_for_prompt-IsLater o w) (later p.1))
                    (wait_for_text-IsAnswered o.dropped true c c p.1.link.sent o.echo_timeout s
                      r.1.link refl f same-IsLater).witness
                    same-IsLater))
        ]
      ]
    where
      sent-command : (v : World) → (send_command c v).link.sent ≡ v.link.sent ++ guarded c
      sent-command v = refl

      later : (v : World) → IsLater v.link (send_command c v).link
      later v = send-IsLater (guarded c) v

  announce-IsLater : (c : Str) (w : World) → IsLater w.link (announce o true c w).link
  unfolding announce
  announce-IsLater c w = record { new = []; heard_all = refl }

  sent-announce : (c : Str) (w : World) → (announce o true c w).link.sent ≡ w.link.sent
  unfolding announce
  sent-announce c w = refl

  give_all-sent :
      (cs : List Str) (w v : World)
      → give_all o true cs w ≡ ok v
      → (v.link.sent ≡ w.link.sent ++ given cs)
        × All (IsWitnessed w.link v.link) cs
        × IsLater w.link v.link
  unfolding give_all given
  give_all-sent [] w v h =
      let same : w ≡ v = cc in
      (
        ap (λ z. z.link.sent) (sym same) ∙ sym (append-nil w.link.sent),
        tt,
        subst (λ z. IsLater w.link z.link) same same-IsLater,
      )
  give_all-sent (c ∷ cs) w v h =
      let x = announce o true c w in
      let (y, p, q) = >>=-eq-ok (give o true c x) _ h in
      let z = drain o.dropped true o.secs o.idle y in
      let (same, ws, l) = give_all-sent cs z v q in
      let d = drain-IsLater o.dropped true o.secs o.idle y in
      let t = tried (subst (IsTried c x.link) p (give-IsTried c x)) in
      let first = widen (announce-IsLater c w) t.1 (then-IsLater d l) in
      (
        same
            ∙ ap (λ k. k ++ given cs)
                (sent-drain o.dropped true o.secs o.idle y
                  ∙ t.0
                  ∙ ap (λ k. k ++ (10 ∷ 10 ∷ guarded c)) (sent-announce c w))
            ∙ append_assoc w.link.sent (10 ∷ 10 ∷ guarded c) (given cs),
        (
          first,
          All-map cs
              (λ m i.
                widen (then-IsLater (announce-IsLater c w) (then-IsLater (witnessed-IsLater t.1) d))
                  i same-IsLater)
              ws,
        ),
        witnessed-IsLater first,
      )
    where
      tried :
          {b : Link} {y : World}
          → IsTried c b (ok y)
          → (y.link.sent ≡ b.sent ++ (10 ∷ 10 ∷ guarded c)) × IsWitnessed b y.link c
      tried (answered a b) = (a, b)

  -- When a script with the handshake succeeds, it has sent each command once, in their order, guarded
  -- and after two newlines, and nothing else, and has heard each command back after it began.
  pub give_all-eq-ok :
      (cs : List Str) (w v : World)
      → give_all o true cs w ≡ ok v
      → (v.link.sent ≡ w.link.sent ++ given cs) × All (IsWitnessed w.link v.link) cs
  give_all-eq-ok cs w v h = let (a, b, l) = give_all-sent cs w v h in (a, b)

-- Some command failed: those before it were given, itself at most, and none after.
pub record IsStopped (cs : List Str) (before after : Link) : Type 0 where
  pub done : List Str
  pub failed : Str
  pub left : List Str
  pub commands_split : done ++ failed ∷ left ≡ cs
  pub sent_part :
      (after.sent ≡ before.sent ++ (given done ++ 10 ∷ 10 ∷ []))
      ⊎ (after.sent ≡ before.sent ++ (given done ++ 10 ∷ 10 ∷ guarded failed))

module _ (o : Options) where
  -- When a script with the handshake exits, it has sent the commands before some command, and of that
  -- one the two newlines alone or the guarded command too. No later command is sent.
  pub give_all-IsStopped :
      (cs : List Str) (w v : World) (r : Refusal)
      → give_all o true cs w ≡ raise (r, v)
      → IsStopped cs w.link v.link
  unfolding give_all given announce
  give_all-IsStopped [] w v r h = absurd (cc)
  give_all-IsStopped (c ∷ cs) w v r h =
      let x = announce o true c w in
      let next : World → Run = λ y. give_all o true cs (drain o.dropped true o.secs o.idle y) in
      elim (Result-cases (give o true c x)) [
        | inl (y, p) ↦
            let z = drain o.dropped true o.secs o.idle y in
            let i = give_all-IsStopped cs z v r (ap (λ m. m >>= next) (sym p) ∙ h) in
            let t =
              sent-drain o.dropped true o.secs o.idle y
              ∙ answered_sent (subst (IsTried c x.link) p (give-IsTried o c x)) in
            record {
              done = c ∷ i.done;
              failed = i.failed;
              left = i.left;
              commands_split = ap (λ k. c ∷ k) i.commands_split;
              sent_part = elim i.sent_part [
                | inl k ↦ inl (k ∙ shift z i.done (10 ∷ 10 ∷ []) t)
                | inr k ↦ inr (k ∙ shift z i.done (10 ∷ 10 ∷ guarded i.failed) t)
              ];
            }
        | inr (e, p) ↦
            let same : e ≡ (r, v) = cc (h, p) in
            failed_here (
              subst (λ k. IsTried c w.link (raise k)) same
                (from_start (subst (IsTried c x.link) p (give-IsTried o c x))))
      ]
    where
      answered_sent :
          {b : Link} {y : World}
          → IsTried c b (ok y)
          → y.link.sent ≡ b.sent ++ (10 ∷ 10 ∷ guarded c)
      answered_sent (answered k j) = k

      shift :
          (z : World) (done : List Str) (s : Bytes)
          → z.link.sent ≡ w.link.sent ++ (10 ∷ 10 ∷ guarded c)
          → z.link.sent ++ (given done ++ s) ≡ w.link.sent ++ (given (c ∷ done) ++ s)
      shift z done s t =
          ap (λ k. k ++ (given done ++ s)) t
          ∙ append_assoc w.link.sent (10 ∷ 10 ∷ guarded c) (given done ++ s)
          ∙ ap (λ k. w.link.sent ++ k) (sym (append_assoc (10 ∷ 10 ∷ guarded c) (given done) s))

      from_start : {k : Run} → IsTried c (announce o true c w).link k → IsTried c w.link k
      from_start (answered k j) = answered k (widen (announce-IsLater o c w) j same-IsLater)
      from_start (unanswered k) = unanswered k
      from_start (withheld k) = withheld k

      failed_here : IsTried c w.link (raise (r, v)) → IsStopped (c ∷ cs) w.link v.link
      failed_here (unanswered k) = record {
        done = [];
        failed = c;
        left = cs;
        commands_split = refl;
        sent_part = inr k;
      }
      failed_here (withheld k) = record {
        done = [];
        failed = c;
        left = cs;
        commands_split = refl;
        sent_part = inl k;
      }
