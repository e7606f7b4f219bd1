-- ===== src/Checkpoint/Drives.antt =====
-- tools/checkpoint_common.py, `replace_drive_file`: the parts of a drive, and the one that changes.
use darwin_vm.Prelude.{
  ℕ, ◌≡◌, refl, ap, sym, ◌∙◌, subst, true, false, List, [], ◌∷◌, ◌++◌, All, Bool-cases, inl, inr,
  drop, list_eq, nat_eq, ◌==◌, ==_refl, list_beq_iff,
}
use darwin_vm.Prelude.Result.{ok, >>=-eq-ok}
use darwin_vm.Bytes.{text}
use darwin_vm.Bytes.Utf8.{Str}
use darwin_vm.Text.{starts_with, split, join}
use darwin_vm.Checkpoint.{among, file_key, replace_part, replace_drive_file}

-- A text without a character.
abbrev pub IsWithout : ℕ → Str → Type 0
IsWithout sep s = All (λ c. (c == sep) ≡ false) s

data IsSome : List Str → Type 0 where
  is_some : {p : Str} {ps : List Str} → IsSome (p ∷ ps)

-- The parts hold no separator, and there is one at least.
split-IsWithout : (sep : ℕ) (s : Str) → All (IsWithout sep) (split sep s) × IsSome (split sep s)
unfolding split
split-IsWithout sep [] = ((tt, tt), is_some)
split-IsWithout sep (c ∷ s) = elim (Bool-cases (c == sep)) [
  | inl e ↦ rw e ((tt, (split-IsWithout sep s).0), is_some)
  | inr e ↦ rw e (longer e (split sep s) (split-IsWithout sep s).0)
]
  where
    longer :
        (c == sep) ≡ false
        → (ps : List Str) → All (IsWithout sep) ps
        → All (IsWithout sep) (elim ps [ [] ↦ (c ∷ []) ∷ [] | p ∷ ps' ↦ (c ∷ p) ∷ ps' ])
          × IsSome (elim ps [ [] ↦ (c ∷ []) ∷ [] | p ∷ ps' ↦ (c ∷ p) ∷ ps' ])
    longer e [] h = (((e, tt), tt), is_some)
    longer e (p ∷ ps) h = (((e, h.0), h.1), is_some)

split-append : (sep : ℕ) (p s : Str) → IsWithout sep p → split sep (p ++ sep ∷ s) ≡ p ∷ split sep s
unfolding split
split-append sep [] s h = rw (==_refl sep) refl
split-append sep (c ∷ p) s h = rw (split-append sep p s h.1) (rw h.0 refl)

split_alone : (sep : ℕ) (p : Str) → IsWithout sep p → split sep p ≡ p ∷ []
unfolding split
split_alone sep [] h = refl
split_alone sep (c ∷ p) h = rw (split_alone sep p h.1) (rw h.0 refl)

split-join :
    (sep : ℕ) (p : Str) (ps : List Str)
    → All (IsWithout sep) (p ∷ ps)
    → split sep (join sep (p ∷ ps)) ≡ p ∷ ps
unfolding join
split-join sep p [] h = split_alone sep p h.0
split-join sep p (q ∷ ps) h =
    split-append sep p (join sep (q ∷ ps)) h.0 ∙ ap (λ z. p ∷ z) (split-join sep q ps h.1)

-- The first file= part, which names the old disk, is replaced by one that names the new.
pub data IsReplaced (resolve : Str → Str) (old new : Str) : List Str → List Str → Type 0 where
  here :
      {p : Str} {ps : List Str}
      → starts_with file_key p ≡ true
      → resolve (drop 5 p) ≡ resolve old
      → IsReplaced resolve old new (p ∷ ps) ((file_key ++ new) ∷ ps)
  there :
      {p : Str} {ps qs : List Str}
      → starts_with file_key p ≡ false
      → IsReplaced resolve old new ps qs
      → IsReplaced resolve old new (p ∷ ps) (p ∷ qs)

-- A drive that is not the root disk stays as it is, and of the root disk that part is replaced.
pub data IsDrive (resolve : Str → Str) (old new : Str) (spec spec' : Str) : Type 0 where
  other :
      among (text "id=ans") (split b',' spec) ≡ false
      → spec' ≡ spec
      → IsDrive resolve old new spec spec'
  root :
      among (text "id=ans") (split b',' spec) ≡ true
      → IsReplaced resolve old new (split b',' spec) (split b',' spec')
      → IsDrive resolve old new spec spec'

module _ (resolve : Str → Str) (old new : Str) where
  replace_part-IsReplaced :
      (ps qs : List Str)
      → replace_part resolve old new ps ≡ ok qs
      → IsReplaced resolve old new ps qs
  unfolding replace_part
  replace_part-IsReplaced [] qs = λ h. absurd (cc)
  replace_part-IsReplaced (p ∷ ps) qs = elim (Bool-cases (starts_with file_key p)) [
    | inl e ↦ elim (Bool-cases (resolve (drop 5 p) == resolve old)) [
      | inl f ↦
          rw (replace_part, e, f)
            (λ h.
              let same : (file_key ++ new) ∷ ps ≡ qs = cc in
              subst (IsReplaced resolve old new (p ∷ ps)) same
                (here e ((list_beq_iff (resolve (drop 5 p)) (resolve old)).0 f)))
      | inr f ↦ rw (replace_part, e, f) (λ h. absurd (cc))
    ]
    | inr e ↦
        rw (replace_part, e)
          (λ h.
            let (rs, k, l) = >>=-eq-ok (replace_part resolve old new ps) _ h in
            let same : p ∷ rs ≡ qs = cc (l) in
            subst (IsReplaced resolve old new (p ∷ ps)) same
              (there e (replace_part-IsReplaced ps rs k)))
  ]

  -- What is replaced holds no comma.
  replaced-IsWithout :
      {ps qs : List Str}
      → IsWithout b',' new
      → All (IsWithout b',') ps
      → IsReplaced resolve old new ps qs
      → All (IsWithout b',') qs × IsSome qs
  replaced-IsWithout new_ok h (here e k) =
      (((refl, (refl, (refl, (refl, (refl, new_ok))))), h.1), is_some)
  replaced-IsWithout new_ok h (there e k) = ((h.0, (replaced-IsWithout new_ok h.1 k).0), is_some)

  split-join_some :
      (sep : ℕ) (ps : List Str) → All (IsWithout sep) ps → IsSome ps → split sep (join sep ps) ≡ ps
  split-join_some sep [] h e = elim e [ ]
  split-join_some sep (p ∷ ps) h is_some = split-join sep p ps h

  -- For a new disk without a comma in its path: where replace_drive_file returns, a drive without
  -- id=ans is as it was, and one with it has the new disk in its first file= part, which named the old
  -- disk, and its other parts as they were.
  pub replace_drive_file-IsDrive :
      (spec spec' : Str)
      → IsWithout b',' new
      → replace_drive_file resolve old new spec ≡ ok spec'
      → IsDrive resolve old new spec spec'
  unfolding replace_drive_file
  replace_drive_file-IsDrive spec spec' new_ok =
      elim (Bool-cases (among (text "id=ans") (split b',' spec))) [
        | inr e ↦ rw (replace_drive_file, e) (λ h. let same : spec' ≡ spec = cc in other e same)
        | inl e ↦
            rw (replace_drive_file, e)
              (λ h.
                let (qs, k, l) = >>=-eq-ok (replace_part resolve old new (split b',' spec)) _ h in
                let r = replace_part-IsReplaced (split b',' spec) qs k in
                let w = replaced-IsWithout new_ok (split-IsWithout b',' spec).0 r in
                let same : spec' ≡ join b',' qs = cc (l) in
                root e (
                  subst (IsReplaced resolve old new (split b',' spec))
                    (sym (ap (split b',') same ∙ split-join_some b',' qs w.0 w.1)) r))
      ]
