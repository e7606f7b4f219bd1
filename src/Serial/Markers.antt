-- ===== src/Serial/Markers.antt =====
-- tools/serial.py: what a wait that succeeds has heard.
use darwin_vm.Prelude.{
  ℕ, ◌+◌, ◌≡◌, refl, ap, sym, ◌∙◌, subst, Bool, true, false, not, ◌||◌, List, [], ◌∷◌, ◌++◌,
  Bool-cases, inl, inr, All, nat_eq,
}
use darwin_vm.Bytes.{Bytes}
use darwin_vm.Bytes.Utf8.{Str, decode_replace}
use darwin_vm.Text.{contains, contains-append_left, contains-append_right}
use darwin_vm.Serial.{Link, World, wait_for_text, wait_for_markers, look, all_seen, unseen}
use darwin_vm.Serial.Heard.{text_of, IsSuffix, wait_loop-IsHeard}

-- The text so far has the marker, where it was seen.
HasSeen : Str → List (Str × Bool) → Type 0
HasSeen t ms = All (λ m. (not m.1 || contains m.0 t) ≡ true) ms

still :
    (b k x y : Bool)
    → (k ≡ true → y ≡ true)
    → (x ≡ true → y ≡ true)
    → (not b || x) ≡ true
    → (not (b || k) || y) ≡ true
still true k x y f g h = g h
still false true x y f g h = f refl
still false false x y f g h = refl

look-HasSeen :
    (kept t : Str) (c : Bytes) (ms : List (Str × Bool))
    → IsSuffix kept (t ++ decode_replace c)
    → HasSeen t ms
    → HasSeen (t ++ decode_replace c) (look kept ms)
unfolding HasSeen look
look-HasSeen kept t c [] suffix h = tt
look-HasSeen kept t c ((m, b) ∷ ms) suffix h = (
  still b (contains m kept) (contains m t) (contains m (t ++ decode_replace c))
      (λ k. ap (contains m) (sym suffix.whole) ∙ contains-append_right m suffix.front kept k)
      (contains-append_left m t (decode_replace c)) h.0,
  look-HasSeen kept t c ms suffix h.1,
)

names : List (Str × Bool) → List Str
names [] = []
names ((m, b) ∷ ms) = m ∷ names ms

names-look : (kept : Str) (ms : List (Str × Bool)) → names (look kept ms) ≡ names ms
unfolding names look
names-look kept [] = refl
names-look kept ((m, b) ∷ ms) = ap (λ z. m ∷ z) (names-look kept ms)

all_seen-HasSeen :
    (t : Str) (ms : List (Str × Bool))
    → all_seen ms ≡ true
    → HasSeen t ms
    → All (λ m. contains m t ≡ true) (names ms)
unfolding all_seen HasSeen names
all_seen-HasSeen t [] d h = tt
all_seen-HasSeen t ((m, true) ∷ ms) d h = (h.0, all_seen-HasSeen t ms d h.1)
all_seen-HasSeen t ((m, false) ∷ ms) d h = absurd (cc)

unseen-HasSeen : (t : Str) (ms : List Str) → HasSeen t (unseen ms)
unfolding HasSeen unseen
unseen-HasSeen t [] = tt
unseen-HasSeen t (m ∷ ms) = (refl, unseen-HasSeen t ms)

names-unseen : (ms : List Str) → names (unseen ms) ≡ ms
unfolding names unseen
names-unseen [] = refl
names-unseen (m ∷ ms) = ap (λ z. m ∷ z) (names-unseen ms)

-- The chunks heard between the links, as text, have all these markers.
pub record AreHeard (markers : List Str) (before after : Link) : Type 0 where
  pub new : List Bytes
  pub heard_all : after.heard ≡ new ++ before.heard
  pub markers_in : All (λ m. contains m (text_of new) ≡ true) markers

-- When wait_for_markers succeeds, each of its markers stands in the text of the chunks that this call
-- heard: the window of the last characters never shows a marker that was not sent.
pub wait_for_markers-AreHeard :
    (dropped : Str → Bool) (echo : Bool) (markers : List Str) (secs : ℕ) (w : World)
    → (wait_for_markers dropped echo markers secs w).0 ≡ true
    → AreHeard markers w.link (wait_for_markers dropped echo markers secs w).1.link
unfolding wait_for_markers
wait_for_markers-AreHeard dropped echo markers secs w h =
    let I : Str → List (Str × Bool) → Type 0 = λ t ms. HasSeen t ms × (names ms ≡ markers) in
    let l =
      wait_loop-IsHeard dropped echo look all_seen I
        (λ kept t c ms suffix i. (look-HasSeen kept t c ms suffix i.0, names-look kept ms ∙ i.1))
        (w.link.clock + secs) [] [] (unseen markers) w.link w.polls []
        (record { front = []; whole = refl }) (unseen-HasSeen [] markers, names-unseen markers) h in
    record {
      new = l.new;
      heard_all = l.heard_all;
      markers_in =
          subst (λ z. All (λ m. contains m (text_of l.new) ≡ true) z) l.holds.1
            (all_seen-HasSeen (text_of l.new) l.state l.done l.holds.0);
    }

-- The pattern matches an end of the text of some chunks heard.
pub record IsFound (found : Str → Bool) (before after : Link) : Type 0 where
  pub new : List Bytes
  pub heard_all : after.heard ≡ new ++ before.heard
  pub kept : Str
  pub suffix : IsSuffix kept (text_of new)
  pub matches : found kept ≡ true

data Matches (found : Str → Bool) (t : Str) : Bool → Type 0 where
  not_yet : Matches found t false
  matched : {kept : Str} → IsSuffix kept t → found kept ≡ true → Matches found t true

match_now : (found : Str → Bool) (kept t : Str) → IsSuffix kept t → Matches found t (found kept)
match_now found kept t suffix = elim (Bool-cases (found kept)) [
  | inl e ↦ rw e (matched suffix e)
  | inr e ↦ rw e not_yet
]

-- When wait_for_text succeeds, the pattern matches an end of the text of the chunks that this call
-- heard.
pub wait_for_text-IsFound :
    (dropped : Str → Bool) (echo : Bool) (found : Str → Bool) (secs : ℕ) (w : World)
    → (wait_for_text dropped echo found secs w).0 ≡ true
    → IsFound found w.link (wait_for_text dropped echo found secs w).1.link
unfolding wait_for_text
wait_for_text-IsFound dropped echo found secs w h =
    let I : Str → Bool → Type 0 = Matches found in
    let l =
      wait_loop-IsHeard dropped echo (λ kept s. found kept) (λ s. s) I
        (λ kept t c s suffix i. match_now found kept (t ++ decode_replace c) suffix)
        (w.link.clock + secs) [] [] false w.link w.polls [] (record { front = []; whole = refl })
        not_yet h in
    found_by l.new l.heard_all l.state l.done l.holds
  where
    found_by :
        {after : Link} (new : List Bytes)
        → after.heard ≡ new ++ w.link.heard
        → (s : Bool) → s ≡ true
        → Matches found (text_of new) s
        → IsFound found w.link after
    found_by new e _ d not_yet = absurd (cc)
    found_by new e _ d (matched {kept} suffix m) = record {
      new = new;
      heard_all = e;
      kept = kept;
      suffix = suffix;
      matches = m;
    }
