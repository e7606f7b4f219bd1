-- ===== src/Carve/Rounds.antt =====
-- tools/bplist_carve.py: the loop of `main` against the lists at all places of the dump.
use darwin_vm.Prelude.{
  ℕ, zero, suc, ◌+◌, ◌<◌, ◌≤◌, ◌≡◌, refl, ap, sym, ◌∙◌, subst, Bool, true, false, not, ◌||◌, List,
  [], ◌∷◌, ◌++◌, Option, none, some, length, take, drop, length-drop, take-nil, Bool-cases,
  Option-cases, inl, inr, arith,
}
use darwin_vm.Bytes.{Bytes}
use darwin_vm.Text.{starts_with}
use darwin_vm.Carve.{plist_magic, carve, find_from, recover_from, recover_lists}

-- A place that is found lies among the bytes searched.
find_from_bounds :
    (m : Bytes) (at k : ℕ) (s : Bytes) → find_from m at s ≡ some k → (at ≤ k) × (k < at + length s)
unfolding find_from
find_from_bounds m at k [] = λ h. absurd (cc)
find_from_bounds m at k (b ∷ s) = elim (Bool-cases (starts_with m (b ∷ s))) [
  | inl e ↦
      rw (find_from, e) (λ h. let same : at ≡ k = cc in (omega (arith, same), omega (arith, same)))
  | inr e ↦
      rw (find_from, e)
        (λ h. let i = find_from_bounds m (suc at) k s h in (omega (arith, i.0), omega (arith, i.1)))
]

drop_tail : {A : Type 0} (n : ℕ) (b : A) (s xs : List A) → drop n xs ≡ b ∷ s → drop (suc n) xs ≡ s
unfolding drop
drop_tail zero b s [] h = absurd (cc)
drop_tail (suc n) b s [] h = absurd (cc)
drop_tail zero b s (x ∷ xs) h = cc
drop_tail (suc n) b s (x ∷ xs) h = drop_tail n b s xs h

module _ {Plist : Type 0} (load : Bytes → Option Plist) (is_none wanted : Plist → Bool)
    (buf : Bytes) (window base : ℕ) where
  -- The list at a place, where one is carved there that is to be printed.
  unfoldable pub list_at : ℕ → List (ℕ × (ℕ × Plist))
  list_at k = elim (carve load buf k window) [
    | none ↦ []
    | some (p, n) ↦ elim (is_none p || not (wanted p)) [
      | true ↦ []
      | false ↦ (base + k, (n, p)) ∷ []
    ]
  ]

  -- The lists at all places from one on where the magic stands, in their order.
  unfoldable pub lists_from : ℕ → Bytes → List (ℕ × (ℕ × Plist))
  lists_from at [] = []
  lists_from at (b ∷ s) =
      let more = lists_from (suc at) s in
      elim (starts_with plist_magic (b ∷ s)) [ true ↦ list_at at ++ more | false ↦ more ]

  nothing_left : (at : ℕ) (s : Bytes) → length s ≡ 0 → lists_from at s ≡ []
  unfolding lists_from
  nothing_left at [] h = refl
  nothing_left at (b ∷ s) h = absurd (omega arith)

  -- Where the search finds nothing, there is no list.
  none_found : (at : ℕ) (s : Bytes) → find_from plist_magic at s ≡ none → lists_from at s ≡ []
  unfolding find_from lists_from
  none_found at [] = λ h. refl
  none_found at (b ∷ s) = elim (Bool-cases (starts_with plist_magic (b ∷ s))) [
    | inl e ↦ rw (find_from, e) (λ h. absurd (cc))
    | inr e ↦ rw (find_from, lists_from, e) (λ h. none_found (suc at) s h)
  ]

  -- Where it finds a place, the lists are the one there and those behind it.
  place_found :
      (at k : ℕ) (s : Bytes)
      → drop at buf ≡ s
      → find_from plist_magic at s ≡ some k
      → lists_from at s ≡ list_at k ++ lists_from (suc k) (drop (suc k) buf)
  unfolding find_from lists_from
  place_found at k [] d = λ h. absurd (cc)
  place_found at k (b ∷ s) d = elim (Bool-cases (starts_with plist_magic (b ∷ s))) [
    | inl e ↦
        rw (find_from, lists_from, e)
          (λ h.
            let same : at ≡ k = cc (h) in
            subst
              (λ z.
                list_at at ++ lists_from (suc at) s
                ≡ list_at z ++ lists_from (suc z) (drop (suc z) buf))
              same (ap (λ z. list_at at ++ lists_from (suc at) z) (sym (drop_tail at b s buf d))))
    | inr e ↦
        rw (find_from, lists_from, e) (λ h. place_found (suc at) k s (drop_tail at b s buf d) h)
  ]

  recover_from-lists_from :
      (fuel left pos : ℕ)
      → length buf < pos + fuel
      → recover_from load is_none wanted buf window base fuel left pos
        ≡ take left (lists_from pos (drop pos buf))
  unfolding recover_from take list_at
  recover_from-lists_from zero left pos h =
      take-nil left
      ∙ ap (take left)
          (sym (nothing_left pos (drop pos buf) (omega (arith, length-drop pos buf, h))))
  recover_from-lists_from (suc fuel) zero pos h = refl
  recover_from-lists_from (suc fuel) (suc left) pos h =
      elim (Option-cases (find_from plist_magic pos (drop pos buf))) [
        | inl e ↦ rw (recover_from, e, none_found pos (drop pos buf) e) refl
        | inr (k, e) ↦
            let late = (find_from_bounds plist_magic pos k (drop pos buf) e).0 in
            let rest = λ (n : ℕ). recover_from-lists_from fuel n (suc k) (omega (arith, h, late)) in
            let split = place_found pos k (drop pos buf) refl e in
            elim (Option-cases (carve load buf k window)) [
              | inl f ↦ rw (split, recover_from, list_at, e, f) (rest (suc left))
              | inr ((p, n), f) ↦ elim (Bool-cases (is_none p || not (wanted p))) [
                | inl g ↦ rw (split, recover_from, list_at, e, f, g) (rest (suc left))
                | inr g ↦
                    rw (split, recover_from, list_at, e, f, g)
                      (ap (λ z. (base + k, (n, p)) ∷ z) (rest left))
              ]
            ]
      ]

  -- What main prints, of at most --max lists: the first ones of those that stand at the places of the
  -- magic, from the start of the dump to its end, each place once. A list stands where `carve` returns
  -- one there that is not None and that --grep lets pass. The fuel that the model hands out is enough.
  pub recover_lists-lists_from :
      (max_count : ℕ)
      → recover_lists load is_none wanted buf window base max_count
        ≡ take max_count (lists_from 0 buf)
  unfolding recover_lists drop
  recover_lists-lists_from max_count =
      recover_from-lists_from (suc (length buf)) max_count 0 (omega arith)
