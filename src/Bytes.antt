-- ===== src/Bytes.antt =====
-- Python `bytes` as lists of numbers, and what the tools use of `struct` on them: "<I" and "<Q"
-- words, padding to a multiple of four, and NUL-terminated fields.
pub mod Words
pub mod Utf8
use darwin_vm.Prelude.{
  ℕ, ◌+◌, ◌-◌, ◌*◌, ◌/◌, ◌%◌, ◌^◌, ◌<◌, Bool, List, [], ◌∷◌, ◌++◌, Option, none, some, String,
  nat_eq, ◌==◌, if◌then◌else◌, length, replicate,
}
use Prim.Native.Char.{code}

abbrev pub Bytes : Type 0
Bytes = List ℕ

abbrev pub IsByte : ℕ → Type 0
IsByte b = b < 256

-- The code points of a literal: its bytes, for the ASCII literals of the tools.
abbrev pub text : String → List ℕ
text String.[] = []
text (String.◌∷◌ c s) = code c ∷ text s

abbrev pub u32_mod : ℕ
u32_mod = 2 ^ 32

-- struct.pack("<I", n) for n below 2 ^ 32; a caller checks the range, as `struct` does.
unfoldable pub le32 : ℕ → Bytes
le32 n = n % 256 ∷ n / 256 % 256 ∷ n / 65536 % 256 ∷ n / 16777216 % 256 ∷ []

-- struct.unpack_from("<I", data); `none` is struct.error, a buffer of less than four bytes.
unfoldable pub read_u32 : Bytes → Option ℕ
read_u32 (a ∷ b ∷ c ∷ d ∷ _) = some (a + 256 * b + 65536 * c + 16777216 * d)
read_u32 _ = none

-- x & ~0x80000000 on a 32-bit word.
abbrev pub low31 : ℕ → ℕ
low31 x = x % 2 ^ 31

-- (n + 3) & ~3
abbrev pub round_up4 : ℕ → ℕ
round_up4 n = (n + 3) / 4 * 4

-- bytes.ljust(n, b"\0")
abbrev pub ljust : ℕ → Bytes → Bytes
ljust n s = s ++ replicate (n - length s) 0

-- s.split(b"\0")[0]
unfoldable pub before_nul : Bytes → Bytes
before_nul [] = []
before_nul (b ∷ s) = if b == 0 then [] else b ∷ before_nul s
