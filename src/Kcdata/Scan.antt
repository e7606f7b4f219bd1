-- ===== src/Kcdata/Scan.antt =====
-- tools/oskcdata.py: the search in blocks, and the magics of the file.
use mathlib.Core.List.{
  Mem, mem-cons_self, mem-cons_of_mem, mem-append_left, mem-append_right, not-mem-nil, Mem-prop,
  mem-cons,
}
use mathlib.Core.Logic.Or
use darwin_vm.Prelude.{
  ℕ, zero, suc, ◌+◌, ◌-◌, ◌≤◌, ◌<◌, ◌≡◌, refl, ap, true, List, [], ◌∷◌, ◌++◌, arith, min, length,
  take, drop, All, All-append, Bool-cases, inl, inr, subst, sym, ◌∙◌, append_assoc, nat_eq, leb,
  length-append, length-drop, drop-append, drop-drop, drop_le, take-append-drop,
}
use darwin_vm.Bytes.{Bytes, le32}
use darwin_vm.Bytes.Words.{length-le32}
use darwin_vm.Text.{starts_with, starts_with-append}
use darwin_vm.Kcdata.{Hit, magics, occurrences, search_each, last8, scan_from, scan}

starts_with_cut :
    (p d r : Bytes) → length p ≤ length d → starts_with p (d ++ r) ≡ true → starts_with p d ≡ true
unfolding starts_with
starts_with_cut [] d r le h = refl
starts_with_cut (a ∷ p) [] r le h = absurd (omega arith)
starts_with_cut (a ∷ p) (b ∷ d) r le h =
    let le' : length p ≤ length d = omega (arith, le) in
    ground (arith, starts_with_cut p d r le', h)

-- A prefix fits.
length-starts_with : (p d : Bytes) → starts_with p d ≡ true → length p ≤ length d
unfolding starts_with
length-starts_with [] d h = omega arith
length-starts_with (a ∷ p) [] h = cc
length-starts_with (a ∷ p) (b ∷ d) h =
    let t : starts_with p d ≡ true = ground (arith, h) in omega (arith, length-starts_with p d t)

drop_next : (n : ℕ) (xs : Bytes) {b : ℕ} {r : Bytes} → drop n xs ≡ b ∷ r → drop (suc n) xs ≡ r
unfolding drop
drop_next zero [] e = cc
drop_next zero (x ∷ xs) e = cc
drop_next (suc n) [] e = cc
drop_next (suc n) (x ∷ xs) e = drop_next n xs e

drop_shift : (k at : ℕ) (xs : Bytes) → drop k (drop at xs) ≡ drop (at + k) xs
drop_shift k at xs = drop-drop k at xs

-- A magic stands at a place of the file.
pub record IsHit (file : Bytes) (h : Hit) : Type 0 where
  pub magic : Mem h.1 magics
  pub there : starts_with (le32 h.1) (drop h.0 file) ≡ true

module _ (file : Bytes) (m : ℕ) (known : Mem m magics) where
  occurrences-IsHit :
      (at : ℕ) (d rest : Bytes) → drop at file ≡ d ++ rest → All (IsHit file) (occurrences m at d)
  unfolding occurrences
  occurrences-IsHit at [] rest e = tt
  occurrences-IsHit at (b ∷ d) rest e =
      let later = occurrences-IsHit (suc at) d rest (drop_next at file e) in
      elim (Bool-cases (starts_with (le32 m) (b ∷ d))) [
        | inl t ↦ rw t (
          record { magic = known; there = rw e (starts_with-append (le32 m) (b ∷ d) rest t) },
          later,
        )
        | inr t ↦ rw t later
      ]

nothing_left : (m k : ℕ) → starts_with (le32 m) (drop k []) ≡ true → ⊥
unfolding drop starts_with le32
nothing_left m zero h = cc
nothing_left m (suc k) h = cc

-- Every place of the pattern in the data is found.
occurrences_all :
    (m at k : ℕ) (d : Bytes)
    → starts_with (le32 m) (drop k d) ≡ true
    → Mem (at + k, m) (occurrences m at d)
unfolding occurrences drop
occurrences_all m at k [] h = absurd (nothing_left m k h)
occurrences_all m at zero (b ∷ d) h = rw h (
    subst (λ z. Mem (at + 0, m) ((z, m) ∷ occurrences m (suc at) d)) {x = at + 0} (omega arith)
      mem-cons_self)
occurrences_all m at (suc k) (b ∷ d) h =
    let later =
      subst (λ z. Mem (z, m) (occurrences m (suc at) d)) {y = at + suc k} (omega arith)
        (occurrences_all m (suc at) k d h) in
    elim (Bool-cases (starts_with (le32 m) (b ∷ d))) [
      | inl t ↦ rw t (mem-cons_of_mem (at, m) later)
      | inr t ↦ rw t later
    ]

search_each_all :
    (ms : List ℕ) (m at k : ℕ) (d : Bytes)
    → Mem m ms
    → starts_with (le32 m) (drop k d) ≡ true
    → Mem (at + k, m) (search_each ms at d)
unfolding search_each
search_each_all [] m at k d known h = absurd (not-mem-nil known)
search_each_all (n ∷ ms) m at k d known h =
    Or.elim Mem-prop (mem-cons.0 known)
      (λ e.
        mem-append_left (search_each ms at d)
          (subst (λ z. Mem (at + k, m) (occurrences z at d)) e (occurrences_all m at k d h)))
      (λ later. mem-append_right (occurrences n at d) (search_each_all ms m at k d later h))

-- What a round keeps of its data, and what it passes over.
passed : Bytes → Bytes
passed d = take (length d - 8) d

passed-last8 : (d : Bytes) → passed d ++ last8 d ≡ d
unfolding passed last8
passed-last8 d = take-append-drop (length d - 8) d

length-last8 : (d : Bytes) → length (last8 d) ≡ min 8 (length d)
unfolding last8
length-last8 d = omega (arith, length-drop (length d - 8) d)

regroup :
    (x prev buf r : Bytes)
    → x ++ (prev ++ (buf ++ r)) ≡ (x ++ passed (prev ++ buf)) ++ (last8 (prev ++ buf) ++ r)
regroup x prev buf r = sym (
    append_assoc x (passed (prev ++ buf)) (last8 (prev ++ buf) ++ r)
    ∙ ap (λ z. x ++ z)
        (sym (append_assoc (passed (prev ++ buf)) (last8 (prev ++ buf)) r)
          ∙ ap (λ z. z ++ r) (passed-last8 (prev ++ buf))
          ∙ append_assoc prev buf r))

regroup_length :
    (x prev buf : Bytes)
    → length x + length prev + length buf
      ≡ length (x ++ passed (prev ++ buf)) + length (last8 (prev ++ buf))
regroup_length x prev buf =
    let d = prev ++ buf in
    omega (
      arith,
      length-append x (passed d),
      length-append prev buf,
      length-append (passed d) (last8 d),
      ap length (passed-last8 d),
    )

-- A match fits the bytes that are there.
match_fits :
    (m off : ℕ) (file : Bytes) → starts_with (le32 m) (drop off file) ≡ true → off + 4 ≤ length file
match_fits m off file h =
    let fits = length-starts_with (le32 m) (drop off file) h in
    omega (arith, fits, length-drop off file, length-le32 m)

-- A match of the file is a match of the data that it lies in.
match_in :
    (m off : ℕ) (x d r : Bytes)
    → length x ≤ off
    → off + 4 ≤ length x + length d
    → starts_with (le32 m) (drop off (x ++ (d ++ r))) ≡ true
    → starts_with (le32 m) (drop (off - length x) d) ≡ true
match_in m off x d r le fits h =
    let k = off - length x in
    let here : drop off (x ++ (d ++ r)) ≡ drop k d ++ r =
      ap (λ n. drop n (x ++ (d ++ r))) {y = length x + k} (omega arith)
      ∙ sym (drop-drop k (length x) (x ++ (d ++ r)))
      ∙ ap (drop k) (drop-append (length x) x (d ++ r) refl)
      ∙ drop_le k d r (omega arith) in
    starts_with_cut (le32 m) (drop k d) r (omega (arith, length-le32 m, length-drop k d, le, fits))
      (subst (λ z. starts_with (le32 m) z ≡ true) here h)

module _ (file : Bytes) where
  search_each-IsHit :
      (ms : List ℕ) (at : ℕ) (d rest : Bytes)
      → ((m : ℕ) → Mem m ms → Mem m magics)
      → drop at file ≡ d ++ rest
      → All (IsHit file) (search_each ms at d)
  unfolding search_each
  search_each-IsHit [] at d rest within e = tt
  search_each-IsHit (m ∷ ms) at d rest within e =
      All-append (IsHit file) (occurrences m at d) (search_each ms at d)
        (occurrences-IsHit file m (within m mem-cons_self) at d rest e)
        (search_each-IsHit ms at d rest (λ n k. within n (mem-cons_of_mem m k)) e)

  -- The file is what was passed over, the bytes kept, and what is left to read.
  sound :
      (block fuel : ℕ) (x prev rest : Bytes)
      → file ≡ x ++ (prev ++ rest)
      → All (IsHit file) (scan_from fuel block (length x + length prev) prev rest)
  unfolding scan_from
  sound block zero x prev rest e = tt
  sound block (suc fuel) x prev [] e = tt
  sound block (suc fuel) x prev (b ∷ d) e =
      let buf = take block (b ∷ d) in
      let r = drop block (b ∷ d) in
      let whole : file ≡ x ++ (prev ++ (buf ++ r)) =
        e ∙ ap (λ z. x ++ (prev ++ z)) (sym (take-append-drop block (b ∷ d))) in
      let here : drop (length x + length prev - length prev) file ≡ (prev ++ buf) ++ r =
        ap (λ n. drop n file) {y = length x} (omega arith)
        ∙ ap (drop (length x)) whole
        ∙ drop-append (length x) x (prev ++ (buf ++ r)) refl
        ∙ sym (append_assoc prev buf r) in
      All-append (IsHit file)
        (search_each magics (length x + length prev - length prev) (prev ++ buf))
        (scan_from fuel block (length x + length prev + length buf) (last8 (prev ++ buf)) r)
        (search_each-IsHit magics (length x + length prev - length prev) (prev ++ buf) r (λ m k. k)
          here)
        (subst (λ n. All (IsHit file) (scan_from fuel block n (last8 (prev ++ buf)) r))
          (sym (regroup_length x prev buf))
          (sound block fuel (x ++ passed (prev ++ buf)) (last8 (prev ++ buf)) r
            (whole ∙ regroup x prev buf r)))

  -- A place of a magic that ends behind what was read is still found.
  complete :
      (block fuel : ℕ) (x prev rest : Bytes) (m off : ℕ)
      → 0 < block
      → length rest < fuel
      → min 3 (length x + length prev) ≤ length prev
      → file ≡ x ++ (prev ++ rest)
      → Mem m magics
      → starts_with (le32 m) (drop off file) ≡ true
      → length x + length prev < off + 4
      → Mem (off, m) (scan_from fuel block (length x + length prev) prev rest)
  unfolding scan_from
  complete block zero x prev rest m off pos lt kept e known h late = absurd (omega arith)
  complete block (suc fuel) x prev [] m off pos lt kept e known h late = absurd (
      let fits = match_fits m off file h in
      omega (arith, ap length e, length-append x (prev ++ []), length-append prev []))
  complete block (suc fuel) x prev (b ∷ d) m off pos lt kept e known h late =
      let buf = take block (b ∷ d) in
      let r = drop block (b ∷ d) in
      let data' = prev ++ buf in
      let size = length-append prev buf in
      let whole : file ≡ x ++ (prev ++ (buf ++ r)) =
        e ∙ ap (λ z. x ++ (prev ++ z)) (sym (take-append-drop block (b ∷ d))) in
      let grouped : file ≡ x ++ (data' ++ r) =
        whole ∙ ap (λ z. x ++ z) (sym (append_assoc prev buf r)) in
      let found = scan_from fuel block (length x + length prev + length buf) (last8 data') r in
      elim (Bool-cases (leb (off + 4) (length x + length data'))) [
        | inl c ↦
            let near =
              match_in m off x data' r (omega (arith, kept, late)) (ground (arith, c))
                (subst (λ z. starts_with (le32 m) (drop off z) ≡ true) grouped h) in
            mem-append_left found (
              subst
                (λ n. Mem (n, m) (search_each magics (length x + length prev - length prev) data'))
                {x = length x + length prev - length prev + (off - length x)}
                (omega (arith, kept, late))
                (search_each_all magics m (length x + length prev - length prev) (off - length x)
                  data' known (near)))
        | inr c ↦
            mem-append_right (search_each magics (length x + length prev - length prev) data') (
              subst (λ n. Mem (off, m) (scan_from fuel block n (last8 data') r))
                (sym (regroup_length x prev buf))
                (complete block fuel (x ++ passed data') (last8 data') r m off pos
                  (omega (arith, length-drop block (b ∷ d), lt, pos))
                  (omega (arith, kept, regroup_length x prev buf, length-last8 data', size))
                  (whole ∙ regroup x prev buf r) known h
                  (let t : length x + length data' < off + 4 = ground (arith, c) in
                    omega (arith, t, size, regroup_length x prev buf))))
      ]

-- Every hit that is reported is a magic of the file, at its place.
pub scan_sound : (block : ℕ) (file : Bytes) → All (IsHit file) (scan block file)
unfolding scan
scan_sound block file = sound file block (suc (length file)) [] [] file refl

-- With blocks of any size above zero, every place of a magic in the file is reported, also where it
-- lies across two blocks, or more.
pub scan_complete :
    (block : ℕ) (file : Bytes) (m off : ℕ)
    → 0 < block
    → Mem m magics
    → starts_with (le32 m) (drop off file) ≡ true
    → Mem (off, m) (scan block file)
unfolding scan
scan_complete block file m off pos known h =
    complete file block (suc (length file)) [] [] file m off pos (omega arith) (omega arith) refl
      known h (omega arith)
