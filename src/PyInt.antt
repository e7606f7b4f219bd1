-- ===== src/PyInt.antt =====
-- Python's `int(text, 0)` and `bytes.fromhex`, which the device-tree tools read their operands by.
-- A negative number, -(n + 1), is `negsuc n`, which no "<I" or "<Q" takes; `none` is ValueError.
use darwin_vm.Prelude.{
  ℕ, zero, suc, ◌+◌, ◌-◌, ◌*◌, ◌/◌, ◌%◌, Bool, true, false, ◌&&◌, ◌||◌, [], ◌∷◌, ◌++◌, Option, none,
  some, leb, nat_eq, list_eq, ◌==◌, if◌then◌else◌, all, ◌≡◌, refl,
}
use darwin_vm.Bytes.{Bytes, text}
use darwin_vm.Bytes.Utf8.{Str}

pub data ℤ : Type 0 where
  pos : ℕ → ℤ
  negsuc : ℕ → ℤ

negated : ℕ → ℤ
negated n = if n == 0 then pos 0 else negsuc (n - 1)

-- The value of a digit in any base up to 16.
unfoldable pub digit : ℕ → Option ℕ
digit c =
    if leb b'0' c && leb c b'9'
    then some (c - b'0')
    else if leb b'a' c && leb c b'f'
    then some (c - b'a' + 10)
    else if leb b'A' c && leb c b'F'
    then some (c - b'A' + 10)
    else none

-- Digits of a base, single underscores between them; `last` says that a digit stands before.
unfoldable pub digits : ℕ → Bool → ℕ → Str → Option ℕ
unfolding digit
digits base last n [] = if last then some n else none
digits base last n (c ∷ s) =
    if c == b'_' then (if last then digits base false n s else none) else elim (digit c) [
      | none ↦ none
      | some d ↦ if leb base d then none else digits base true (n * base + d) s
    ]

all_zero : Str → Bool
all_zero = all (λ c. c == b'0' || c == b'_')

-- An underscore may follow the prefix, and a digit must.
unfoldable pub after_prefix : ℕ → Str → Option ℕ
unfolding digits
after_prefix base [] = none
after_prefix base (c ∷ s) = if c == b'_' then digits base false 0 s else digits base false 0 (c ∷ s)

-- A prefix chooses the base; a decimal number has no leading zero, but for zero itself.
unfoldable pub unsigned : Str → Option ℕ
unfolding digits all_zero after_prefix
unsigned [] = none
unsigned (c ∷ []) = digits 10 false 0 (c ∷ [])
unsigned (c ∷ x ∷ s) =
    if c == b'0'
    then (if x == b'x' || x == b'X'
        then after_prefix 16 s
        else if x == b'o' || x == b'O'
        then after_prefix 8 s
        else if x == b'b' || x == b'B'
        then after_prefix 2 s
        else if all_zero (x ∷ s)
        then digits 10 false 0 (c ∷ x ∷ s)
        else none)
    else digits 10 false 0 (c ∷ x ∷ s)

unfoldable pub is_space : ℕ → Bool
is_space c = leb 9 c && leb c 13 || leb 28 c && leb c 32

unfoldable pub lstrip : Str → Str
lstrip [] = []
lstrip (c ∷ s) = if is_space c then lstrip s else c ∷ s

unfoldable pub rstrip : Str → Str
rstrip [] = []
rstrip (c ∷ s) = let t = rstrip s in if is_space c && t == [] then [] else c ∷ t

unfoldable pub signed : Str → Option ℤ
unfolding unsigned negated
signed [] = none
signed (c ∷ s) =
    if c == b'-'
    then as_neg (unsigned s)
    else if c == b'+'
    then as_nat (unsigned s)
    else as_nat (unsigned (c ∷ s))
  where
    as_neg : Option ℕ → Option ℤ
    as_neg none = none
    as_neg (some n) = some (negated n)

    as_nat : Option ℕ → Option ℤ
    as_nat none = none
    as_nat (some n) = some (pos n)

-- int(text, 0)
unfoldable pub python_int : Str → Option ℤ
unfolding is_space lstrip rstrip signed
python_int s = signed (rstrip (lstrip s))

hex_space : ℕ → Bool
hex_space c = leb 9 c && leb c 13 || c == 32

hex_pairs : Option ℕ → Str → Option Bytes
unfolding digit hex_space
hex_pairs none [] = some []
hex_pairs (some h) [] = none
hex_pairs none (c ∷ s) =
    if hex_space c
    then hex_pairs none s
    else elim (digit c) [ none ↦ none | some h ↦ hex_pairs (some h) s ]
hex_pairs (some h) (c ∷ s) = elim (digit c) [
  | none ↦ none
  | some l ↦ elim (hex_pairs none s) [ none ↦ none | some r ↦ some ((16 * h + l) ∷ r) ]
]

-- bytes.fromhex(text)
unfoldable pub from_hex : Str → Option Bytes
unfolding hex_pairs
from_hex = hex_pairs none

python_int_runs :
    (python_int (text " 0x1F ") ≡ some (pos 31))
    × (python_int (text "1_000") ≡ some (pos 1000))
    × (python_int (text "-2") ≡ some (negsuc 1))
    × (python_int (text "007") ≡ none)
    × (python_int (text "0x") ≡ none)
unfolding python_int
python_int_runs = (refl, refl, refl, refl, refl)

from_hex_runs :
    (from_hex (text "00 11fF") ≡ some (0 ∷ 17 ∷ 255 ∷ [])) × (from_hex (text "0 0") ≡ none)
unfolding from_hex
from_hex_runs = (refl, refl)

-- int(text) and int(text, 16) of digits alone, after the tools have looked at the text.
unfoldable pub python_int10 : Str → Option ℤ
unfolding is_space lstrip rstrip digits negated
python_int10 s = decimal (rstrip (lstrip s))
  where
    as_int : (ℕ → ℤ) → Option ℕ → Option ℤ
    as_int sign none = none
    as_int sign (some n) = some (sign n)

    decimal : Str → Option ℤ
    decimal [] = none
    decimal (c ∷ s) =
        if c == b'-'
        then as_int negated (digits 10 false 0 s)
        else if c == b'+'
        then as_int pos (digits 10 false 0 s)
        else as_int pos (digits 10 false 0 (c ∷ s))

unfoldable pub hex_int : Str → Option ℕ
unfolding digits
hex_int s = digits 16 false 0 s

-- hex(n) and str(n): the digits of a base, at most `fuel` of them.
unfoldable pub digit_char : ℕ → ℕ
digit_char d = if leb d 9 then d + b'0' else d + 87

unfoldable pub to_digits : ℕ → ℕ → ℕ → Str → Str
unfolding digit_char
to_digits zero base n acc = acc
to_digits (suc fuel) base n acc =
    let more = to_digits fuel base (n / base) (digit_char (n % base) ∷ acc) in
    if n / base == 0 then digit_char (n % base) ∷ acc else more

-- n has at most n + 1 digits.
unfoldable pub hex : ℕ → Str
unfolding to_digits
hex n = text "0x" ++ to_digits (suc n) 16 n []

unfoldable pub decimal_str : ℕ → Str
unfolding to_digits
decimal_str n = to_digits (suc n) 10 n []

hex_runs :
    (hex 0 ≡ text "0x0") × (hex 0xbeef12 ≡ text "0xbeef12") × (decimal_str 8388608 ≡ text "8388608")
unfolding hex decimal_str
hex_runs = (refl, refl, refl)
