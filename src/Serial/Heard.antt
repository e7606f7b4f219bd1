-- ===== src/Serial/Heard.antt =====
-- tools/serial.py: the text that a waiting loop has heard, and what its end says of it.
use darwin_vm.Prelude.{
  ℕ, ◌-◌, ◌≡◌, ap, sym, ◌∙◌, subst, Bool, true, List, [], ◌∷◌, ◌++◌, append_assoc, append-nil,
  Bool-cases, inl, inr, leb, length, take, drop, take-append-drop, nat_eq,
}
use darwin_vm.Bytes.{Bytes}
use darwin_vm.Bytes.Utf8.{Str, decode_replace}
use darwin_vm.Serial.{Poll, Link, World, lines, emit_lines, window, last_of, window_size, wait_loop}
use darwin_vm.Serial.Transcript.{on-Bool, on-Recv, heard-emit_lines, heard-emit_rest}

-- Each chunk decoded, the last one first: what the waiting loops look at.
unfoldable pub text_of : List Bytes → Str
text_of [] = []
text_of (c ∷ cs) = text_of cs ++ decode_replace c

text_of-append :
    (xs : List Bytes) (c : Bytes) → text_of (xs ++ c ∷ []) ≡ decode_replace c ++ text_of xs
unfolding text_of
text_of-append [] c = sym (append-nil (decode_replace c))
text_of-append (x ∷ xs) c =
    ap (λ z. z ++ decode_replace x) (text_of-append xs c)
    ∙ append_assoc (decode_replace c) (text_of xs) (decode_replace x)

pub record IsSuffix (s t : Str) : Type 0 where
  pub front : Str
  pub whole : front ++ s ≡ t

window-IsSuffix :
    (kept t : Str) (c : Bytes) → IsSuffix kept t → IsSuffix (window kept c) (t ++ decode_replace c)
unfolding window last_of
window-IsSuffix kept t c h =
    let s = kept ++ decode_replace c in
    let n = length s - window_size in
    record {
      front = h.front ++ take n s;
      whole =
          append_assoc h.front (take n s) (drop n s)
          ∙ ap (λ z. h.front ++ z) (take-append-drop n s)
          ∙ sym (append_assoc h.front kept (decode_replace c))
          ∙ ap (λ z. z ++ decode_replace c) h.whole;
    }

-- After `t`, the chunks heard show what the loop waited for.
pub record IsHeard {S : Type 0} (I : Str → S → Type 0) (finished : S → Bool) (t : Str)
    (before after : Link) : Type 0 where
  pub new : List Bytes
  pub heard_all : after.heard ≡ new ++ before.heard
  pub state : S
  pub holds : I (t ++ text_of new) state
  pub done : finished state ≡ true

module _ {S : Type 0} (dropped : Str → Bool) (echo : Bool) (update : Str → S → S)
    (finished : S → Bool) (I : Str → S → Type 0)
    (step : (kept t : Str) (c : Bytes) (s : S)
      → IsSuffix kept (t ++ decode_replace c)
      → I t s
      → I (t ++ decode_replace c) (update kept s)) where
  later :
      (t : Str) (c : Bytes) (w v after : Link)
      → v.heard ≡ c ∷ w.heard
      → IsHeard I finished (t ++ decode_replace c) v after
      → IsHeard I finished t w after
  later t c w v after same l = record {
    new = l.new ++ c ∷ [];
    heard_all = l.heard_all ∙ ap (λ z. l.new ++ z) same ∙ sym (append_assoc l.new (c ∷ []) w.heard);
    state = l.state;
    holds =
        subst (λ z. I z l.state)
          (append_assoc t (decode_replace c) (text_of l.new)
            ∙ ap (λ z. t ++ z) (sym (text_of-append l.new c)))
          l.holds;
    done = l.done;
  }

  seen :
      (t : Str) (s : S) (v after : Link)
      → I t s
      → finished s ≡ true
      → after.heard ≡ v.heard
      → IsHeard I finished t v after
  unfolding text_of
  seen t s v after i d e = record {
    new = [];
    heard_all = e;
    state = s;
    holds = subst (λ z. I z s) (sym (append-nil t)) i;
    done = d;
  }

  pub wait_loop-IsHeard :
      (deadline : ℕ) (buf : Bytes) (kept : Str) (s : S) (w : Link) (ps : List Poll) (t : Str)
      → IsSuffix kept t
      → I t s
      → (wait_loop dropped echo update finished deadline buf kept s w ps).0 ≡ true
      → IsHeard I finished t w
          (wait_loop dropped echo update finished deadline buf kept s w ps).1.link
  unfolding wait_loop
  wait_loop-IsHeard deadline buf kept s w [] t suffix i = λ h. absurd (cc)
  wait_loop-IsHeard deadline buf kept s w (p ∷ ps) t suffix i =
      let v : Link = record w { clock = p.now } in
      let P : Bool × World → Type 0 = λ r. r.0 ≡ true → IsHeard I finished t w r.1.link in
      on-Bool P (leb deadline p.now) (λ h. absurd (cc))
        (on-Recv P p.got
          (λ c.
            let x : Link = record v { heard = c ∷ v.heard } in
            let ls = (lines (buf ++ c)).0 in
            let v' = emit_lines dropped echo ls x in
            let kept' = window kept c in
            let near = window-IsSuffix kept t c suffix in
            let now' = step kept' t c s near i in
            let rest = (lines (buf ++ c)).1 in
            let same = heard-emit_lines dropped echo ls x in
            let rec =
              wait_loop-IsHeard deadline rest kept' (update kept' s) v' ps (t ++ decode_replace c)
                near now' in
            elim (Bool-cases (finished (update kept' s))) [
              | inl d ↦ rw d (λ h. later t c w v' _ same (
                  seen (t ++ decode_replace c) (update kept' s) v' _ now' d
                    (heard-emit_rest dropped echo rest v')))
              | inr d ↦ rw d (λ h. later t c w v' _ same (rec h))
            ])
          (λ h.
            let l = wait_loop-IsHeard deadline buf kept s v ps t suffix i h in
            record {
              new = l.new;
              heard_all = l.heard_all;
              state = l.state;
              holds = l.holds;
              done = l.done;
            })
          (λ h. absurd (cc)) (λ h. absurd (cc)))
