-- ===== src/Checkpoint/Texts/Digits.antt =====
-- tools/checkpoint_common.py, `parse_pc`: the form of what it returns.
use darwin_vm.Prelude.{
  ℕ, ◌≤◌, ◌≡◌, ◌⊎◌, inl, inr, refl, Bool, true, false, not, ◌&&◌, [], ◌∷◌, Option, none, some, All,
  subst, length, drop, nat_eq, list_eq, ◌==◌, Bool-cases, arith, if◌then◌else◌,
}
use darwin_vm.Prelude.Result.{ok, raise, ok_injective}
use darwin_vm.Bytes.{text}
use darwin_vm.Bytes.Utf8.{Str}
use darwin_vm.PyInt.{digit}
use darwin_vm.Text.{starts_with}
use darwin_vm.Checkpoint.{no_pc}
use darwin_vm.Checkpoint.Texts.{
  is_hex, is_word, starts_word, lower, lowered, span, hex_after, parse_pc,
}

-- A character of a number as parse_pc writes it: 0 to 9, or a to f.
pub IsLowerHex : ℕ → Type 0
IsLowerHex c = ((48 ≤ c) × (c ≤ 57)) ⊎ ((97 ≤ c) × (c ≤ 102))

lower-IsLowerHex : (c : ℕ) → is_hex c ≡ true → IsLowerHex (lower c)
unfolding is_hex digit lower IsLowerHex
lower-IsLowerHex c h = ground (arith, h)

lowered-AreLowerHex :
    (p : ℕ → Bool) (s : Str)
    → ((c : ℕ) → p c ≡ true → is_hex c ≡ true)
    → All IsLowerHex (lowered (span p s).0)
unfolding span lowered
lowered-AreLowerHex p [] h = tt
lowered-AreLowerHex p (c ∷ s) h = elim (Bool-cases (p c)) [
  | inl e ↦ rw (span, e) (lower-IsLowerHex c (h c e), lowered-AreLowerHex p s h)
  | inr e ↦ rw (span, e) tt
]

-- The digits that were found: there are some, and their small forms are as wanted.
AreDigits : Str → Type 0
AreDigits ds = ((ds == []) ≡ false) × All IsLowerHex (lowered ds)

found_here :
    (here long : Bool) (ds w : Str) (later : Option Str)
    → All IsLowerHex (lowered ds)
    → (later ≡ some w → AreDigits w)
    → (if here then (if not (ds == []) && long then some ds else later) else later) ≡ some w
    → AreDigits w
unfolding AreDigits
found_here false long ds w later all rest h = rest h
found_here true long [] w later all rest h = rest h
found_here true false (d ∷ ds) w later all rest h = rest h
found_here true true (d ∷ ds) w later all rest h =
    let same : d ∷ ds ≡ w = cc (h) in subst AreDigits same (refl, all)

hex_after-AreDigits :
    (key : Str) (before : Bool) (s w : Str) → hex_after key before s ≡ some w → AreDigits w
unfolding hex_after
hex_after-AreDigits key before [] w h = absurd (cc)
hex_after-AreDigits key before (c ∷ s) w h =
    found_here (not before && starts_with key (c ∷ s))
      (not (starts_word (span is_hex (drop (length key) (c ∷ s))).1))
      (span is_hex (drop (length key) (c ∷ s))).0 w (hex_after key (is_word c) s)
      (lowered-AreLowerHex is_hex (drop (length key) (c ∷ s)) (λ _ e. e))
      (hex_after-AreDigits key (is_word c) s w) h

lowered_some : (ds : Str) → (ds == []) ≡ false → (lowered ds == []) ≡ false
unfolding lowered
lowered_some [] h = h
lowered_some (d ∷ ds) h = refl

pc_of :
    (found : Option Str) (pc : Str)
    → ((w : Str) → found ≡ some w → AreDigits w)
    → (elim found [ none ↦ raise no_pc | some ds ↦ ok (lowered ds) ]) ≡ ok pc
    → ((pc == []) ≡ false) × All IsLowerHex pc
unfolding AreDigits
pc_of none pc all h = absurd (cc)
pc_of (some ds) pc all h =
    let same : lowered ds ≡ pc = ok_injective h in
    let digits = all ds refl in
    subst (λ z. ((z == []) ≡ false) × All IsLowerHex z) same (lowered_some ds digits.0, digits.1)

-- What parse_pc returns is a number in hexadecimal: it has a digit at least, and only the digits 0 to 9
-- and a to f, whatever case they had, so that two of them are compared as texts.
pub parse_pc-IsLowerHex :
    (registers pc : Str) → parse_pc registers ≡ ok pc → ((pc == []) ≡ false) × All IsLowerHex pc
unfolding parse_pc
parse_pc-IsLowerHex registers pc h =
    pc_of (hex_after (text "PC=") false registers) pc
      (hex_after-AreDigits (text "PC=") false registers) h
