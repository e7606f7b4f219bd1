-- ===== src/Bytes/Utf8.antt =====
-- Python's UTF-8 codec: one code point or one error (a maximal ill-formed part) at a time, strict
-- and with errors="replace". A `str` is the list of its code points.
use darwin_vm.Prelude.{
  ℕ, zero, suc, ◌+◌, ◌-◌, ◌*◌, ◌/◌, ◌%◌, ◌<◌, ◌≡◌, refl, Bool, ◌&&◌, List, [], ◌∷◌, ◌++◌, Option,
  none, some, arith, All, ltb, leb, nat_eq, ◌==◌, if◌then◌else◌, length, any,
}
use darwin_vm.Bytes.{Bytes}

abbrev pub Str : Type 0
Str = List ℕ

abbrev between : ℕ → ℕ → ℕ → Bool
between lo hi b = leb lo b && leb b hi

-- How many bytes follow the first byte `b` of a sequence.
followers : ℕ → ℕ
followers b =
    if between 0xc2 0xdf b
    then 1
    else if between 0xe0 0xef b
    then 2
    else if between 0xf0 0xf4 b
    then 3
    else 0

-- The range of the second byte after `b`.
second_ok : ℕ → ℕ → Bool
second_ok b x =
    if b == 0xe0
    then between 0xa0 0xbf x
    else if b == 0xed
    then between 0x80 0x9f x
    else if b == 0xf0
    then between 0x90 0xbf x
    else if b == 0xf4
    then between 0x80 0x8f x
    else between 0x80 0xbf x

-- The continuation bytes at the front of `s`, `k` at most.
continuations : ℕ → Bytes → Bytes
continuations zero s = []
continuations (suc k) [] = []
continuations (suc k) (x ∷ s) =
    let more = continuations k s in if between 0x80 0xbf x then x ∷ more else []

-- The bytes after `b` that belong to its sequence, as far as it is well formed.
tail_of : ℕ → Bytes → Bytes
tail_of b [] = []
tail_of b (x ∷ s) = if second_ok b x then x ∷ continuations (followers b - 1) s else []

code_point : ℕ → Bytes → Option ℕ
code_point b [] = if ltb b 0x80 then some b else none
code_point b (x ∷ []) = if followers b == 1 then some ((b - 0xc0) * 64 + (x - 0x80)) else none
code_point b (x ∷ y ∷ []) =
    if followers b == 2 then some ((b - 0xe0) * 4096 + (x - 0x80) * 64 + (y - 0x80)) else none
code_point b (x ∷ y ∷ z ∷ []) =
    if followers b == 3
    then some ((b - 0xf0) * 262144 + (x - 0x80) * 4096 + (y - 0x80) * 64 + (z - 0x80))
    else none
code_point _ _ = none

-- The decoder: `skip` counts the bytes of the last sequence that are still to be passed.
utf8_loop : ℕ → Bytes → List (Option ℕ)
unfolding followers second_ok continuations tail_of code_point
utf8_loop skip [] = []
utf8_loop (suc skip) (b ∷ s) = utf8_loop skip s
utf8_loop zero (b ∷ s) =
    let more = if followers b == 0 then [] else tail_of b s in
    code_point b more ∷ utf8_loop (length more) s

-- bytes.decode("utf8", "replace"): each error is U+FFFD.
or_replacement : List (Option ℕ) → Str
or_replacement [] = []
or_replacement (none ∷ cs) = 0xfffd ∷ or_replacement cs
or_replacement (some c ∷ cs) = c ∷ or_replacement cs

unfoldable pub decode_replace : Bytes → Str
unfolding utf8_loop or_replacement
decode_replace s = or_replacement (utf8_loop zero s)

-- bytes.decode("utf8"): `none` is UnicodeDecodeError.
sequence : List (Option ℕ) → Option Str
sequence [] = some []
sequence (none ∷ cs) = none
sequence (some c ∷ cs) = elim (sequence cs) [ none ↦ none | some s ↦ some (c ∷ s) ]

unfoldable pub decode_strict : Bytes → Option Str
unfolding utf8_loop sequence
decode_strict s = sequence (utf8_loop zero s)

-- bytes.decode("ascii")
unfoldable pub decode_ascii : Bytes → Option Str
decode_ascii s = if any (leb 0x80) s then none else some s

encode_char : ℕ → Bytes
encode_char c =
    if ltb c 0x80
    then c ∷ []
    else if ltb c 0x800
    then (0xc0 + c / 64) ∷ (0x80 + c % 64) ∷ []
    else if ltb c 0x10000
    then (0xe0 + c / 4096) ∷ (0x80 + c / 64 % 64) ∷ (0x80 + c % 64) ∷ []
    else (0xf0 + c / 262144) ∷ (0x80 + c / 4096 % 64) ∷ (0x80 + c / 64 % 64) ∷ (0x80 + c % 64) ∷ []

-- str.encode("utf8"); a lone surrogate, for which Python raises UnicodeEncodeError, is encoded as any
-- other code point of three bytes.
unfoldable pub encode : Str → Bytes
unfolding encode_char
encode [] = []
encode (c ∷ s) = encode_char c ++ encode s

abbrev pub IsAscii : ℕ → Type 0
IsAscii c = c < 0x80

pub encode_ascii : (s : Str) → All IsAscii s → encode s ≡ s
unfolding encode
encode_ascii [] h = refl
encode_ascii (c ∷ s) h = ground (arith, h.0, encode_ascii s h.1)

utf8_loop_ascii : (s : Bytes) → All IsAscii s → or_replacement (utf8_loop zero s) ≡ s
unfolding utf8_loop or_replacement
utf8_loop_ascii [] h = refl
utf8_loop_ascii (b ∷ s) h = ground (arith, h.0, utf8_loop_ascii s h.1)

pub decode_replace_ascii : (s : Bytes) → All IsAscii s → decode_replace s ≡ s
unfolding decode_replace
decode_replace_ascii s h = utf8_loop_ascii s h

sequence_ascii : (s : Bytes) → All IsAscii s → sequence (utf8_loop zero s) ≡ some s
unfolding utf8_loop sequence
sequence_ascii [] h = refl
sequence_ascii (b ∷ s) h = ground (arith, h.0, sequence_ascii s h.1)

pub decode_strict_ascii : (s : Bytes) → All IsAscii s → decode_strict s ≡ some s
unfolding decode_strict
decode_strict_ascii s h = sequence_ascii s h

decode_runs :
    decode_replace (0xc3 ∷ 0xa9 ∷ 0xff ∷ 0xe2 ∷ 0x82 ∷ 0x41 ∷ [])
    ≡ 0xe9 ∷ 0xfffd ∷ 0xfffd ∷ 0x41 ∷ []
unfolding decode_replace
decode_runs = refl
