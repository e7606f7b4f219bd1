-- ===== src/Fixup/Codec/Numbers.antt =====
-- dt_fixup.py: the numbers of a property's text, and the values that are not a text.
use darwin_vm.Prelude.{
  ℕ, zero, suc, ◌+◌, ◌*◌, ◌/◌, ◌%◌, ◌<◌, ◌≡◌, refl, Bool, true, false, not, [], ◌∷◌, some, arith,
  leb, nat_eq, list_eq, ◌==◌, all, subst, sym, Bool-cases, inl, inr,
}
use darwin_vm.Bytes.Utf8.{Str}
use darwin_vm.PyInt.{
  pos, digit, digits, digit_char, to_digits, hex, python_int, is_space, rstrip, signed, unsigned,
  after_prefix,
}

digit-digit_char : (d : ℕ) → d < 16 → digit (digit_char d) ≡ some d
unfolding digit digit_char
digit-digit_char d lt = ground arith

digit_char_plain : (d : ℕ) → d < 16 → (digit_char d == b'_') ≡ false
unfolding digit_char
digit_char_plain d lt = ground arith

leb-false : (d : ℕ) → d < 16 → leb 16 d ≡ false
leb-false d lt = ground arith

digits-digit_char :
    (d m : ℕ) (last : Bool) (s : Str)
    → d < 16
    → digits 16 last m (digit_char d ∷ s) ≡ digits 16 true (m * 16 + d) s
unfolding digits
digits-digit_char d m last s lt =
    rw (digit_char_plain d lt, digit-digit_char d lt, leb-false d lt) refl

digits-to_digits :
    (fuel n : ℕ) (last : Bool) (s : Str)
    → n < fuel
    → digits 16 last 0 (to_digits fuel 16 n s) ≡ digits 16 true n s
unfolding to_digits
digits-to_digits zero n last s lt = absurd (omega arith)
digits-to_digits (suc fuel) n last s lt = elim (Bool-cases (n / 16 == 0)) [
  | inl e ↦
      rw (e, digits-digit_char (n % 16) 0 last s (omega arith))
        (subst (λ k. digits 16 true (0 * 16 + n % 16) s ≡ digits 16 true k s) (ground arith) refl)
  | inr e ↦
      rw
        (
          e,
          digits-to_digits fuel (n / 16) last (digit_char (n % 16) ∷ s) (ground arith),
          digits-digit_char (n % 16) (n / 16) true s (omega arith),
        )
        (subst (λ k. digits 16 true (n / 16 * 16 + n % 16) s ≡ digits 16 true k s) (omega arith)
          refl)
]

not_space : ℕ → Bool
not_space c = not (is_space c)

digit_char_visible : (d : ℕ) → d < 16 → not_space (digit_char d) ≡ true
unfolding digit_char not_space is_space
digit_char_visible d lt = ground arith

to_digits_no_space :
    (fuel n : ℕ) (s : Str) → all not_space s ≡ true → all not_space (to_digits fuel 16 n s) ≡ true
unfolding to_digits
to_digits_no_space zero n s e = e
to_digits_no_space (suc fuel) n s e =
    let here : all not_space (digit_char (n % 16) ∷ s) ≡ true =
      rw (digit_char_visible (n % 16) (omega arith)) e in
    let more = to_digits_no_space fuel (n / 16) (digit_char (n % 16) ∷ s) here in
    elim (Bool-cases (n / 16 == 0)) [ inl z ↦ rw z here | inr z ↦ rw z more ]

rstrip_id : (s : Str) → all not_space s ≡ true → rstrip s ≡ s
unfolding rstrip not_space
rstrip_id [] e = refl
rstrip_id (c ∷ s) e = ground (arith, rstrip_id s)

after_prefix-digits : (s : Str) {n : ℕ} → digits 16 false 0 s ≡ some n → after_prefix 16 s ≡ some n
unfolding after_prefix digits
after_prefix-digits [] e = absurd (ground (arith, e))
after_prefix-digits (c ∷ s) e = ground (arith, e)

hex_visible : (n : ℕ) → all not_space (b'0' ∷ b'x' ∷ to_digits (suc n) 16 n []) ≡ true
unfolding not_space is_space
hex_visible n = to_digits_no_space (suc n) n [] refl

signed_prefixed :
    (s : Str) {n : ℕ} → digits 16 false 0 s ≡ some n → signed (b'0' ∷ b'x' ∷ s) ≡ some (pos n)
unfolding signed unsigned
signed_prefixed s e = rw (after_prefix-digits s e) refl

python_int_prefixed :
    (s : Str) {n : ℕ}
    → all not_space (b'0' ∷ b'x' ∷ s) ≡ true
    → digits 16 false 0 s ≡ some n
    → python_int (b'0' ∷ b'x' ∷ s) ≡ some (pos n)
unfolding python_int
python_int_prefixed s {n} visible e =
    subst (λ t. signed t ≡ some (pos n)) (sym (rstrip_id (b'0' ∷ b'x' ∷ s) visible))
      (signed_prefixed s e)

digits_end : (n : ℕ) → digits 16 true n [] ≡ some n
unfolding digits
digits_end n = refl

-- A number that is written in hexadecimal is read back.
pub python_int-hex : (n : ℕ) → python_int (hex n) ≡ some (pos n)
unfolding hex
python_int-hex n =
    python_int_prefixed (to_digits (suc n) 16 n []) (hex_visible n)
      (rw (digits-to_digits (suc n) n false [] (omega arith)) (digits_end n))
