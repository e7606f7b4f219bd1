-- ===== src/Relay/Queue.antt =====
-- tools/input/relay.py: what coalescing keeps, and how long the queue gets.
use darwin_vm.Prelude.{
  ℕ, suc, ◌≤◌, ◌<◌, ◌≡◌, refl, ap, Bool, true, false, not, ◌&&◌, List, [], ◌∷◌, ◌++◌, Option, none,
  some, arith, length, length-append, ltb, if◌then◌else◌, Bool-cases, Option-cases, inl, inr,
}
use darwin_vm.Prelude.Result.{ok}
use darwin_vm.Relay.{
  Event, Touch, last?, set_last, same_bool, queue_limit, push, button, coordinate, enqueue,
}

length-set_last : (q : List Touch) (t : Touch) → length (set_last q t) ≡ length q
unfolding set_last
length-set_last [] t = refl
length-set_last (u ∷ []) t = refl
length-set_last (u ∷ v ∷ q) t = ap suc (length-set_last (v ∷ q) t)

-- The button states of a queue, each run of equal ones taken once: what was pressed and released, in
-- order. `before` is the state before the queue.
unfoldable pub transitions : Option Bool → List Touch → List Bool
transitions before [] = []
transitions none (t ∷ ts) = t.down ∷ transitions (some t.down) ts
transitions (some d) (t ∷ ts) =
    let rest = transitions (some t.down) ts in if same_bool d t.down then rest else t.down ∷ rest

-- A run of equal states ends: its last record may be replaced by one of the same state.
transitions-set_last :
    (before : Option Bool) (q : List Touch) {l : Touch} (t : Touch)
    → last? q ≡ some l
    → same_bool l.down t.down ≡ true
    → transitions before (set_last q t) ≡ transitions before (q ++ t ∷ [])
unfolding transitions last? set_last same_bool
transitions-set_last before [] t h s = cc
transitions-set_last none (u ∷ []) t h s = ground (arith, h)
transitions-set_last (some d) (u ∷ []) t h s = ground (arith, h)
transitions-set_last none (u ∷ v ∷ q) t h s =
    rw (transitions-set_last (some u.down) (v ∷ q) t h s) refl
transitions-set_last (some d) (u ∷ v ∷ q) t h s =
    rw (transitions-set_last (some u.down) (v ∷ q) t h s) refl

transitions-append :
    (before : Option Bool) (q : List Touch) (t u : Touch)
    → t.down ≡ u.down
    → transitions before (q ++ t ∷ []) ≡ transitions before (q ++ u ∷ [])
unfolding transitions
transitions-append none [] t u e = rw e refl
transitions-append (some d) [] t u e = rw e refl
transitions-append none (v ∷ q) t u e = rw (transitions-append (some v.down) q t u e) refl
transitions-append (some d) (v ∷ q) t u e = rw (transitions-append (some v.down) q t u e) refl

last?-set_last :
    (q : List Touch) {l : Touch} (t : Touch) → last? q ≡ some l → last? (set_last q t) ≡ some t
unfolding last? set_last
last?-set_last [] t h = cc
last?-set_last (u ∷ []) t h = refl
last?-set_last (u ∷ v ∷ []) t h = refl
last?-set_last (u ∷ v ∷ w ∷ q) t h = last?-set_last (v ∷ w ∷ q) t h

last?-append : (q : List Touch) (t : Touch) → last? (q ++ t ∷ []) ≡ some t
unfolding last?
last?-append [] t = refl
last?-append (u ∷ []) t = refl
last?-append (u ∷ v ∷ q) t = last?-append (v ∷ q) t

abbrev pub touch_of : Bool → ℕ → ℕ → ℕ → Bool → Touch
touch_of d a b now e = record { down = d; x = a; y = b; observed = now; edge = e }

-- What a push leaves: at most 64 records, the transitions that a queue without coalescing would hold,
-- and the new state at the end.
pub record Pushed (q : List Touch) (d : Bool) (a b now : ℕ) (q' : List Touch) : Type 0 where
  pub bounded : length q' ≤ queue_limit
  pub edges :
      (before : Option Bool)
      → transitions before q' ≡ transitions before (q ++ touch_of d a b now true ∷ [])
  pub newest : (e : Bool) × (last? q' ≡ some (touch_of d a b now e))

-- The two ways that a push succeeds.
data IsPush (q : List Touch) (d : Bool) (a b now : ℕ) (q' : List Touch) : Type 0 where
  appends :
      (e : Bool)
      → length q < queue_limit
      → q' ≡ q ++ touch_of d a b now e ∷ []
      → IsPush q d a b now q'
  coalesces :
      {l : Touch}
      → last? q ≡ some l
      → same_bool l.down d ≡ true
      → q' ≡ set_last q (touch_of d a b now false)
      → IsPush q d a b now q'

push-IsPush :
    (q : List Touch) (d : Bool) (a b now : ℕ) {q' : List Touch}
    → push q (touch_of d a b now) ≡ ok q'
    → IsPush q d a b now q'
unfolding push
push-IsPush q d a b now h = elim (Option-cases (last? q)) [
  | inl e ↦ appends true (ground (arith, e, h)) (ground (arith, e, h))
  | inr (l, e) ↦ elim (Bool-cases (same_bool l.down d && not l.edge)) [
    | inl c ↦ coalesces e (ground (arith, c)) (ground (arith, e, h, c))
    | inr c ↦ appends (not (same_bool l.down d)) (ground (arith, e, h, c)) (ground (arith, e, h, c))
  ]
]

IsPush-Pushed :
    {q q' : List Touch} {d : Bool} {a b now : ℕ}
    → length q ≤ queue_limit
    → IsPush q d a b now q'
    → Pushed q d a b now q'
IsPush-Pushed {q} {q'} {d} {a} {b} {now} le (appends e lt p) = record {
  bounded = rw p (omega (arith, lt, length-append q (touch_of d a b now e ∷ [])));
  edges = λ before.
      rw p (transitions-append before q (touch_of d a b now e) (touch_of d a b now true) refl);
  newest = (e, rw p (last?-append q (touch_of d a b now e)));
}
IsPush-Pushed {q} {q'} {d} {a} {b} {now} le (coalesces l s p) = record {
  bounded = rw (p, length-set_last q (touch_of d a b now false)) le;
  edges = λ before.
      rw (p, transitions-set_last before q (touch_of d a b now false) l s)
        (transitions-append before q (touch_of d a b now false) (touch_of d a b now true) refl);
  newest = (false, rw p (last?-set_last q (touch_of d a b now false) l));
}

-- On a queue of at most 64 records, what `enqueue` accepts is a press or release at a position on
-- the screen; the queue then has at most 64 records, ends with that state, and holds the transitions
-- that it would hold without coalescing.
pub enqueue_lem :
    (now : ℕ) (q q' : List Touch) (event : Event)
    → length q ≤ queue_limit
    → enqueue now q event ≡ ok q'
    → (d : Bool) × (a : ℕ) × (b : ℕ) × (button event.down ≡ some d)
      × (coordinate event.x ≡ some a)
      × (coordinate event.y ≡ some b)
      × Pushed q d a b now q'
unfolding enqueue
enqueue_lem now q q' event le h = elim (Option-cases (button event.down)) [
  | inl e ↦ absurd (ground (arith, e, h))
  | inr (d, e) ↦ elim (Option-cases (coordinate event.x)) [
    | inl f ↦ absurd (ground (arith, e, f, h))
    | inr (a, f) ↦ elim (Option-cases (coordinate event.y)) [
      | inl g ↦ absurd (ground (arith, e, f, g, h))
      | inr (b, g) ↦ (
        d,
        a,
        b,
        e,
        f,
        g,
        IsPush-Pushed le (push-IsPush q d a b now (ground (arith, e, f, g, h))),
      )
    ]
  ]
]

push_accepts :
    (q : List Touch) (touch : Bool → Touch)
    → length q < queue_limit
    → (q' : List Touch) × (push q touch ≡ ok q')
unfolding push
push_accepts q touch lt = elim (Option-cases (last? q)) [
  | inl e ↦ (q ++ touch true ∷ [], rw (push, e, room) refl)
  | inr (l, e) ↦ elim (Bool-cases (same_bool l.down (Touch.down (touch true)) && not l.edge)) [
    | inl c ↦ (set_last q (touch false), rw (push, e, c) refl)
    | inr c ↦ (
      q ++ touch (not (same_bool l.down (Touch.down (touch true)))) ∷ [],
      rw (push, e, c, room) refl,
    )
  ]
]
  where
    room : ltb (length q) queue_limit ≡ true
    room = ground arith

-- A press or release at a position on the screen is accepted by every queue below 64 records.
pub enqueue_accepts :
    (now : ℕ) (q : List Touch) (event : Event) {d : Bool} {a b : ℕ}
    → button event.down ≡ some d
    → coordinate event.x ≡ some a
    → coordinate event.y ≡ some b
    → length q < queue_limit
    → (q' : List Touch) × (enqueue now q event ≡ ok q')
unfolding enqueue
enqueue_accepts now q event {d} {a} {b} e f g lt =
    let (q', h) = push_accepts q (touch_of d a b now) lt in (q', rw (enqueue, e, f, g) h)
