-- ===== src/Text.antt =====
-- The methods of `str` that the tools take texts apart with, over lists of code points.
use darwin_vm.Prelude.{
  ℕ, Bool, true, false, ◌&&◌, ◌||◌, List, [], ◌∷◌, ◌++◌, nat_eq, ◌==◌, if◌then◌else◌, ◌≡◌, refl,
  list_eq, arith, Bool-cases, inl, inr,
}
use darwin_vm.Bytes.{text}
use darwin_vm.Bytes.Utf8.{Str}

-- s.startswith(prefix)
unfoldable pub starts_with : Str → Str → Bool
starts_with [] s = true
starts_with (p ∷ ps) [] = false
starts_with (p ∷ ps) (c ∷ s) = p == c && starts_with ps s

-- part in s
unfoldable pub contains : Str → Str → Bool
unfolding starts_with
contains part [] = starts_with part []
contains part (c ∷ s) = starts_with part (c ∷ s) || contains part s

pub starts_with-append : (p d r : Str) → starts_with p d ≡ true → starts_with p (d ++ r) ≡ true
unfolding starts_with
starts_with-append [] d r h = refl
starts_with-append (a ∷ p) [] r h = cc
starts_with-append (a ∷ p) (b ∷ d) r h = ground (arith, starts_with-append p d r, h)

-- Where `starts_with` and `contains` hold, they hold in a longer text.
starts_with-IsContained : (m s : Str) → starts_with m s ≡ true → contains m s ≡ true
unfolding contains
starts_with-IsContained m [] h = h
starts_with-IsContained m (c ∷ s) h = rw h refl

or_true : (b : Bool) → (b || true) ≡ true
or_true true = refl
or_true false = refl

pub contains-append_right : (m a s : Str) → contains m s ≡ true → contains m (a ++ s) ≡ true
unfolding contains
contains-append_right m [] s h = h
contains-append_right m (c ∷ a) s h =
    rw (contains-append_right m a s h) (or_true (starts_with m (c ∷ (a ++ s))))

pub contains-append_left : (m s r : Str) → contains m s ≡ true → contains m (s ++ r) ≡ true
unfolding contains
contains-append_left m [] r h = starts_with-IsContained m r (starts_with-append m [] r h)
contains-append_left m (c ∷ s) r h = elim (Bool-cases (starts_with m (c ∷ s))) [
  | inl e ↦ rw (starts_with-append m (c ∷ s) r e) refl
  | inr e ↦ rw (contains-append_left m s r (rest e)) (or_true (starts_with m (c ∷ (s ++ r))))
]
  where
    rest : starts_with m (c ∷ s) ≡ false → contains m s ≡ true
    rest e = ground (arith, h, e)

-- s.partition(sep), at one character: what stands before the first separator, and after it.
unfoldable pub partition : ℕ → Str → Str × Str
partition sep [] = ([], [])
partition sep (c ∷ s) = let (a, b) = partition sep s in if c == sep then ([], s) else (c ∷ a, b)

has : ℕ → Str → Bool
has sep [] = false
has sep (c ∷ s) = c == sep || has sep s

-- s.rpartition(sep), at one character: with no separator, all of `s` stands after.
unfoldable pub rpartition : ℕ → Str → Str × Str
unfolding has
rpartition sep [] = ([], [])
rpartition sep (c ∷ s) =
    let (a, b) = rpartition sep s in
    if has sep s then (c ∷ a, b) else if c == sep then ([], s) else ([], c ∷ s)

-- s.split(sep), at one character
unfoldable pub split : ℕ → Str → List Str
split sep [] = [] ∷ []
split sep (c ∷ s) =
    let rest = split sep s in
    if c == sep then [] ∷ rest else elim rest [ [] ↦ (c ∷ []) ∷ [] | p ∷ ps ↦ (c ∷ p) ∷ ps ]

-- sep.join(parts), at one character
unfoldable pub join : ℕ → List Str → Str
join sep [] = []
join sep (p ∷ []) = p
join sep (p ∷ q ∷ ps) = p ++ sep ∷ join sep (q ∷ ps)

text_runs :
    (split b'/' (text "a/bc/") ≡ text "a" ∷ text "bc" ∷ [] ∷ [])
    × (partition b'=' (text "k=v=w") ≡ (text "k", text "v=w"))
    × (rpartition b':' (text "a:b:c") ≡ (text "a:b", text "c"))
    × (rpartition b':' (text "abc") ≡ ([], text "abc"))
    × (contains (text "bc") (text "abcd") ≡ true)
    × (join b'/' (text "a" ∷ text "b" ∷ []) ≡ text "a/b")
unfolding split partition rpartition contains join
text_runs = (refl, refl, refl, refl, refl, refl)
