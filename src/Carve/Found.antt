-- ===== src/Carve/Found.antt =====
-- tools/bplist_carve.py: what `carve` finds.
use darwin_vm.Prelude.{
  ℕ, zero, suc, ◌+◌, ◌-◌, ◌<◌, ◌≤◌, ◌≡◌, refl, subst, min, Bool, true, false, Option, none, some,
  length, Bool-cases, Option-cases, inl, inr, arith, leb, nat_eq, ◌⊎◌,
}
use darwin_vm.Bytes.{Bytes}
use darwin_vm.Carve.{slice, try_end, carve_ends, carve}

lt_or_eq : (a b : ℕ) → a ≤ b → (a < b) ⊎ (a ≡ b)
lt_or_eq a b le = elim (Bool-cases (leb (suc a) b)) [
  | inl e ↦ inl (ground (arith, e))
  | inr e ↦ inr (ground (arith, e, le))
]

differs : (test : ℕ → Bool) (a b : ℕ) → a ≤ b → test a ≡ false → test b ≡ true → a < b
differs test a b le f t = elim (lt_or_eq a b le) [
  | inl h ↦ h
  | inr h ↦ let both : test b ≡ false = subst (λ z. test z ≡ false) h f in absurd (cc (both, t))
]

module _ {Plist : Type 0} (load : Bytes → Option Plist) where
  -- A list that ends at a plausible trailer, at or before an end, and that plistlib loads.
  pub record IsFound (buf : Bytes) (start end : ℕ) (p : Plist) (n : ℕ) : Type 0 where
    pub long : 40 ≤ n
    pub early : start + n ≤ end
    pub plausible : try_end buf start (start + n) ≡ true
    pub loaded : load (slice start (start + n) buf) ≡ some p

  carve_ends-IsFound :
      (buf : Bytes) (start from end n : ℕ) (q : Plist)
      → start + 40 ≤ from
      → from ≤ end
      → end < from + n
      → try_end buf start end ≡ true
      → load (slice start end buf) ≡ some q
      → (p : Plist) × ((k : ℕ) × ((carve_ends load buf start from n ≡ some (p, k))
            × IsFound buf start end p k))
  unfolding carve_ends
  carve_ends-IsFound buf start from end zero q far le lt t l = absurd (omega arith)
  carve_ends-IsFound buf start from end (suc n) q far le lt t l =
      let later = λ (less : from < end).
        carve_ends-IsFound buf start (suc from) end n q (omega (arith, far)) less
          (omega (arith, lt)) t l in
      elim (Bool-cases (try_end buf start from)) [
        | inr e ↦ rw (carve_ends, e) (later (differs (λ z. try_end buf start z) from end le e t))
        | inl e ↦ elim (Option-cases (load (slice start from buf))) [
          | inl f ↦ rw (carve_ends, e, f) (later (differs_load f))
          | inr (p, f) ↦ rw (carve_ends, e, f) (p, (from - start, (refl, here p e f)))
        ]
      ]
    where
      differs_load : load (slice start from buf) ≡ none → from < end
      differs_load f = elim (lt_or_eq from end le) [
        | inl h ↦ h
        | inr h ↦
            let both : load (slice start end buf) ≡ none =
              subst (λ z. load (slice start z buf) ≡ none) h f in
            absurd (cc (both, l))
      ]

      here :
          (p : Plist)
          → try_end buf start from ≡ true
          → load (slice start from buf) ≡ some p
          → IsFound buf start end p (from - start)
      here p e f =
          let same : from ≡ start + (from - start) = omega (arith, far) in
          record {
            long = omega (arith, far);
            early = omega (arith, far, le);
            plausible = subst (λ z. try_end buf start z ≡ true) same e;
            loaded = subst (λ z. load (slice start z buf) ≡ some p) same f;
          }

  -- Where a list of 40 bytes or more ends at a plausible trailer before the end of the window and of the
  -- dump, and plistlib loads it, carve returns a list: this one, or one at the same start that is
  -- shorter, plausible as well, and that plistlib loads.
  pub carve-IsFound :
      (buf : Bytes) (start end window : ℕ) (q : Plist)
      → start + 40 ≤ end
      → end < min (length buf) (start + window)
      → try_end buf start end ≡ true
      → load (slice start end buf) ≡ some q
      → (p : Plist) × ((n : ℕ) × ((carve load buf start window ≡ some (p, n))
            × IsFound buf start end p n))
  unfolding carve
  carve-IsFound buf start end window q far lt t l =
      let count = min (length buf) (start + window) - (start + 40) in
      carve_ends-IsFound buf start (start + 40) end count q (omega arith) far
        (omega (arith, lt, far)) t l
