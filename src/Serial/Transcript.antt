-- ===== src/Serial/Transcript.antt =====
-- tools/serial.py: what a loop logs of the bytes that it heard.
use darwin_vm.Prelude.{
  ℕ, ◌+◌, ◌≡◌, refl, ap, sym, ◌∙◌, subst, Bool, true, false, List, [], ◌∷◌, ◌++◌, append_assoc,
  append-nil, if◌then◌else◌, ◌==◌, nat_eq, Bool-cases, inl, inr, leb, ltb,
}
use darwin_vm.Bytes.{Bytes}
use darwin_vm.Bytes.Utf8.{Str, decode_replace}
use darwin_vm.Serial.{
  Recv, chunk, blocked, lost, closed, Poll, Link, World, lines, line_text, print_text, emit_line,
  emit_lines, emit_rest, lead, put, drain_loop, drain,
}

-- The bytes of the chunks, the last one first.
unfoldable pub delivered : List Bytes → Bytes
delivered [] = []
delivered (c ∷ cs) = delivered cs ++ c

unfoldable pub logged : List Bytes → Str
logged [] = []
logged (l ∷ ls) = (line_text l ++ 10 ∷ []) ++ logged ls

-- The log of the bytes `s`: their lines and, unless it was left out, the incomplete one.
unfoldable pub transcript : Bool → Bytes → Str
transcript full s =
    let (ls, rest) = lines s in logged ls ++ (if full then decode_replace rest else [])

-- Between the links, some chunks were heard and logged, after the bytes `buf` that were waiting.
pub record IsLogged (full : Bool) (buf : Bytes) (before after : Link) : Type 0 where
  pub new : List Bytes
  pub heard_all : after.heard ≡ new ++ before.heard
  pub log_all : after.log ≡ before.log ++ transcript full (buf ++ delivered new)

delivered-append : (xs : List Bytes) (c : Bytes) → delivered (xs ++ c ∷ []) ≡ c ++ delivered xs
unfolding delivered
delivered-append [] c = sym (append-nil c)
delivered-append (x ∷ xs) c =
    ap (λ z. z ++ x) (delivered-append xs c) ∙ append_assoc c (delivered xs) x

lines-put : (b : ℕ) (s : Bytes) → lines (b ∷ s) ≡ put b (lines s)
unfolding lines
lines-put b s = refl

-- Splitting may stop anywhere: the rest goes on with what follows.
unfoldable pub joined : List Bytes × Bytes → Bytes → List Bytes × Bytes
joined (ls, rest) c = let (ls', rest') = lines (rest ++ c) in (ls ++ ls', rest')

lead-joined :
    (b : ℕ) (p : List Bytes × Bytes) (c : Bytes)
    → (b == 10) ≡ false
    → lead b (joined p c) ≡ joined (lead b p) c
unfolding lead joined put
lead-joined b ([], rest) c e = sym (lines-put b (rest ++ c) ∙ other)
  where
    other : put b (lines (rest ++ c)) ≡ lead b (lines (rest ++ c))
    other = rw e refl
lead-joined b (l ∷ ls, rest) c e = refl

put-joined : (b : ℕ) (p : List Bytes × Bytes) (c : Bytes) → put b (joined p c) ≡ joined (put b p) c
unfolding put joined
put-joined b p c = elim (Bool-cases (b == 10)) [
  | inl e ↦ newline e
  | inr e ↦ rw e (lead-joined b p c e)
]
  where
    newline : (b == 10) ≡ true → put b (joined p c) ≡ joined (put b p) c
    newline e = rw e refl

pub lines-append : (a c : Bytes) → lines (a ++ c) ≡ joined (lines a) c
unfolding joined lines
lines-append [] c = refl
lines-append (b ∷ a) c =
    lines-put b (a ++ c)
    ∙ ap (put b) (lines-append a c)
    ∙ put-joined b (lines a) c
    ∙ ap (λ z. joined z c) (sym (lines-put b a))

-- No newline waits.
abbrev pub IsRest : Bytes → Type 0
IsRest s = lines s ≡ ([], s)

put-IsRest : (b : ℕ) (p : List Bytes × Bytes) → IsRest p.1 → IsRest (put b p).1
unfolding put lead
put-IsRest b p h = elim (Bool-cases (b == 10)) [ inl e ↦ rw e h | inr e ↦ rw e (other e p h) ]
  where
    other : (b == 10) ≡ false → (q : List Bytes × Bytes) → IsRest q.1 → IsRest (lead b q).1
    other e ([], rest) k = lines-put b rest ∙ ap (put b) k ∙ rw e refl
    other e (l ∷ ls, rest) k = k

pub lines-IsRest : (s : Bytes) → IsRest (lines s).1
unfolding lines
lines-IsRest [] = refl
lines-IsRest (b ∷ s) =
    subst (λ z. IsRest z.1) (sym (lines-put b s)) (put-IsRest b (lines s) (lines-IsRest s))

logged-append : (xs ys : List Bytes) → logged (xs ++ ys) ≡ logged xs ++ logged ys
unfolding logged
logged-append [] ys = refl
logged-append (x ∷ xs) ys =
    ap (λ z. (line_text x ++ 10 ∷ []) ++ z) (logged-append xs ys)
    ∙ sym (append_assoc (line_text x ++ 10 ∷ []) (logged xs) (logged ys))

transcript-append :
    (full : Bool) (a c : Bytes)
    → transcript full (a ++ c) ≡ logged (lines a).0 ++ transcript full ((lines a).1 ++ c)
unfolding transcript joined
transcript-append full a c =
    let later = lines ((lines a).1 ++ c) in
    let end = if full then decode_replace later.1 else [] in
    rw (lines-append a c) (
      ap (λ z. z ++ end) (logged-append (lines a).0 later.0)
      ∙ append_assoc (logged (lines a).0) (logged later.0) end)

pub nil-IsRest : IsRest []
unfolding lines
nil-IsRest = refl

transcript-IsRest :
    (full : Bool) (s : Bytes)
    → IsRest s
    → transcript full s ≡ (if full then decode_replace s else [])
unfolding transcript logged
transcript-IsRest full s h = rw h refl

decode_replace_nil : decode_replace [] ≡ []
unfolding decode_replace
decode_replace_nil = refl

-- A property of what a loop does in each case has it in all.
module _ {A : Type 0} (P : A → Type 0) where
  pub on-Bool : (b : Bool) {x y : A} → P x → P y → P (elim b [ true ↦ x | false ↦ y ])
  on-Bool true t f = t
  on-Bool false t f = f

  pub on-Recv :
      (r : Recv) {f : Bytes → A} {x y z : A}
      → ((c : Bytes) → P (f c))
      → P x
      → P y
      → P z
      → P (elim r [ chunk c ↦ f c | blocked ↦ x | lost ↦ y | closed ↦ z ])
  on-Recv (chunk c) h x y z = h c
  on-Recv blocked h x y z = x
  on-Recv lost h x y z = y
  on-Recv closed h x y z = z

module _ (dropped : Str → Bool) (echo : Bool) where
  log-emit_lines :
      (ls : List Bytes) (w : Link) → (emit_lines dropped echo ls w).log ≡ w.log ++ logged ls
  unfolding emit_lines emit_line print_text logged
  log-emit_lines [] w = sym (append-nil w.log)
  log-emit_lines (l ∷ ls) w =
      log-emit_lines ls (emit_line dropped echo l w)
      ∙ append_assoc w.log (line_text l ++ 10 ∷ []) (logged ls)

  pub heard-emit_lines :
      (ls : List Bytes) (w : Link) → (emit_lines dropped echo ls w).heard ≡ w.heard
  unfolding emit_lines emit_line print_text
  heard-emit_lines [] w = refl
  heard-emit_lines (l ∷ ls) w = heard-emit_lines ls (emit_line dropped echo l w)

  log-emit_rest :
      (s : Bytes) (w : Link) → (emit_rest dropped echo s w).log ≡ w.log ++ decode_replace s
  unfolding emit_rest print_text
  log-emit_rest [] w = sym (ap (λ z. w.log ++ z) decode_replace_nil ∙ append-nil w.log)
  log-emit_rest (b ∷ s) w = refl

  pub heard-emit_rest : (s : Bytes) (w : Link) → (emit_rest dropped echo s w).heard ≡ w.heard
  unfolding emit_rest print_text
  heard-emit_rest [] w = refl
  heard-emit_rest (b ∷ s) w = refl

  -- A loop ends with the incomplete line, or without it, and hears a chunk.
  pub rest-IsLogged :
      (s : Bytes) (w : Link) → IsRest s → IsLogged true s w (emit_rest dropped echo s w)
  unfolding delivered
  rest-IsLogged s w h = record {
    new = [];
    heard_all = heard-emit_rest s w;
    log_all =
        log-emit_rest s w
        ∙ ap (λ z. w.log ++ z)
            (sym (ap (transcript true) (append-nil s) ∙ transcript-IsRest true s h));
  }

  pub cut-IsLogged : (s : Bytes) (w : Link) → IsRest s → IsLogged false s w w
  unfolding delivered
  cut-IsLogged s w h = record {
    new = [];
    heard_all = refl;
    log_all = sym (
        ap (λ z. w.log ++ z) (ap (transcript false) (append-nil s) ∙ transcript-IsRest false s h)
        ∙ append-nil w.log);
  }

  pub chunk-IsLogged :
      (full : Bool) (buf c : Bytes) (w after : Link)
      → IsLogged full
          (lines (buf ++ c)).1
          (emit_lines dropped echo (lines (buf ++ c)).0 (record w { heard = c ∷ w.heard }))
          after
      → IsLogged full buf w after
  unfolding delivered
  chunk-IsLogged full buf c w after l =
      let v : Link = record w { heard = c ∷ w.heard } in
      let (ls, rest) = lines (buf ++ c) in
      let d = delivered l.new in
      record {
        new = l.new ++ c ∷ [];
        heard_all =
            l.heard_all
            ∙ ap (λ z. l.new ++ z) (heard-emit_lines ls v)
            ∙ sym (append_assoc l.new (c ∷ []) w.heard);
        log_all =
            l.log_all
            ∙ ap (λ z. z ++ transcript full (rest ++ d)) (log-emit_lines ls v)
            ∙ append_assoc w.log (logged ls) (transcript full (rest ++ d))
            ∙ ap (λ z. w.log ++ z)
                (sym (
                  ap (transcript full)
                    (ap (λ z. buf ++ z) (delivered-append l.new c) ∙ sym (append_assoc buf c d))
                  ∙ transcript-append full (buf ++ c) d));
      }

  pub clock-IsLogged :
      {full : Bool} {buf : Bytes} {w after : Link} {t : ℕ}
      → IsLogged full buf (record w { clock = t }) after
      → IsLogged full buf w after
  clock-IsLogged l = record { new = l.new; heard_all = l.heard_all; log_all = l.log_all }

  drain_loop-IsLogged :
      (deadline idle last : ℕ) (buf : Bytes) (w : Link) (ps : List Poll)
      → IsRest buf
      → IsLogged true buf w (drain_loop dropped echo deadline idle last buf w ps).link
  unfolding drain_loop
  drain_loop-IsLogged deadline idle last buf w [] h = rest-IsLogged buf w h
  drain_loop-IsLogged deadline idle last buf w (p ∷ ps) h =
      let v : Link = record w { clock = p.now } in
      let stop = rest-IsLogged buf v h in
      let again = clock-IsLogged (drain_loop-IsLogged deadline idle last buf v ps h) in
      let P : World → Type 0 = λ z. IsLogged true buf w z.link in
      on-Bool P (leb deadline p.now) (clock-IsLogged stop) (
        on-Recv P p.got
          (λ c.
            let rest = (lines (buf ++ c)).1 in
            let x : Link = record v { heard = c ∷ v.heard } in
            clock-IsLogged (
              chunk-IsLogged true buf c v _ (
                drain_loop-IsLogged deadline idle p.now rest
                  (emit_lines dropped echo (lines (buf ++ c)).0 x) ps (lines-IsRest (buf ++ c)))))
          (on-Bool P (ltb (last + idle) p.now) (clock-IsLogged stop) again) (clock-IsLogged stop)
          again)

  -- With --drop and the echo as they may be: drain logs all that it hears, line by line, and at its
  -- end the incomplete line. The log depends on the bytes heard and not on the chunks they came in.
  pub drain-IsLogged :
      (secs idle : ℕ) (w : World) → IsLogged true [] w.link (drain dropped echo secs idle w).link
  unfolding drain
  drain-IsLogged secs idle w =
      drain_loop-IsLogged (w.link.clock + secs) idle w.link.clock [] w.link w.polls nil-IsRest
