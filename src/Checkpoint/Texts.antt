-- ===== src/Checkpoint/Texts.antt =====
-- tools/checkpoint_common.py: what is read from the texts of the monitor and of the serial log. The
-- regular expressions are written out for ASCII texts.
pub mod Digits
mod Tests
use darwin_vm.Prelude.{
  ℕ, zero, suc, ◌+◌, ◌-◌, ◌*◌, Bool, true, false, not, ◌&&◌, ◌||◌, List, [], ◌∷◌, ◌++◌, Option,
  none, some, any, length, drop, take, leb, nat_eq, list_eq, ◌==◌, if◌then◌else◌,
}
use darwin_vm.Prelude.Result.{Result, ok, raise, ◌>>=◌}
use darwin_vm.Bytes.{Bytes, text}
use darwin_vm.Bytes.Utf8.{Str, decode_replace}
use darwin_vm.PyInt.{digit, to_digits}
use darwin_vm.Text.{starts_with, contains, split, join}
use darwin_vm.Serial.Main.{is_white}
use darwin_vm.Checkpoint.{Error, no_single_cpu, no_pc}

unfoldable pub is_digit : ℕ → Bool
is_digit c = leb b'0' c && leb c b'9'

unfoldable pub is_hex : ℕ → Bool
is_hex c = elim (digit c) [ none ↦ false | some _ ↦ true ]

unfoldable pub lower : ℕ → ℕ
lower c = if leb b'A' c && leb c b'Z' then c + 32 else c

unfoldable pub lowered : Str → Str
lowered [] = []
lowered (c ∷ s) = lower c ∷ lowered s

unfoldable pub is_letter : ℕ → Bool
is_letter c = leb b'a' (lower c) && leb (lower c) b'z'

-- \w
unfoldable pub is_word : ℕ → Bool
is_word c = is_digit c || (is_letter c || c == b'_')

unfoldable pub starts_word : Str → Bool
starts_word [] = false
starts_word (c ∷ s) = is_word c

-- The longest front of such characters, and what follows it.
unfoldable pub span : (ℕ → Bool) → Str → Str × Str
span p [] = ([], [])
span p (c ∷ s) = let (a, b) = span p s in if p c then (c ∷ a, b) else ([], c ∷ s)

-- int(digits, 16), on a value that was read before
unfoldable pub hex_value : ℕ → Str → ℕ
hex_value n [] = n
hex_value n (c ∷ s) = hex_value (n * 16 + elim (digit c) [ none ↦ 0 | some d ↦ d ]) s

unfoldable pub decimal_value : ℕ → Str → ℕ
decimal_value n [] = n
decimal_value n (c ∷ s) = decimal_value (n * 10 + (c - b'0')) s

-- One line of `^\s*\* CPU #(\d+):`, without the white space before it
unfoldable pub star_cpu : Str → Option ℕ
star_cpu s =
    if starts_with (text "* CPU #") s
    then (let (ds, rest) = span is_digit (drop 7 s) in
        if not (ds == []) && starts_with (text ":") rest then some (decimal_value 0 ds) else none)
    else none

unfoldable pub star_cpus : List Str → List ℕ
star_cpus [] = []
star_cpus (l ∷ ls) =
    let more = star_cpus ls in
    elim (star_cpu (span is_white l).1) [ none ↦ more | some n ↦ n ∷ more ]

unfoldable pub the_only : List ℕ → Result Error ℕ
the_only (n ∷ []) = ok n
the_only _ = raise no_single_cpu

unfoldable pub selected_cpu_index : Str → Result Error ℕ
selected_cpu_index cpus = the_only (star_cpus (split 10 cpus))

-- \bKEY([0-9a-fA-F]+)\b, for a key that begins with a letter; the flag says that a word stands before.
unfoldable pub hex_after : Str → Bool → Str → Option Str
hex_after key before [] = none
hex_after key before (c ∷ s) =
    let later = hex_after key (is_word c) s in
    if not before && starts_with key (c ∷ s)
    then (let (ds, rest) = span is_hex (drop (length key) (c ∷ s)) in
        if not (ds == []) && not (starts_word rest) then some ds else later)
    else later

unfoldable pub parse_pc : Str → Result Error Str
parse_pc registers = elim (hex_after (text "PC=") false registers) [
  | none ↦ raise no_pc
  | some ds ↦ ok (lowered ds)
]

-- ^0x([0-9a-fA-F]{16})\s
unfoldable pub clock_of : Str → Option ℕ
clock_of s =
    let ds = take 16 (drop 2 s) in
    let (w, rest) = span is_hex ds in
    if starts_with (text "0x") s
      && (length w == 16 && (elim (drop 18 s) [ [] ↦ false | c ∷ _ ↦ is_white c ]))
    then some (hex_value 0 w)
    else none

-- The text from each of its lines on.
unfoldable pub line_starts : Bool → Str → List Str
line_starts first [] = if first then [] ∷ [] else []
line_starts first (c ∷ s) =
    let more = line_starts (c == 10) s in if first then (c ∷ s) ∷ more else more

unfoldable pub clocks : List Str → List ℕ
clocks [] = []
clocks (s ∷ ss) = let more = clocks ss in elim (clock_of s) [ none ↦ more | some n ↦ n ∷ more ]

unfoldable pub last_or : ℕ → List ℕ → ℕ
last_or n [] = n
last_or n (m ∷ ms) = last_or m ms

unfoldable pub bounds_of : List ℕ → Option (ℕ × ℕ)
bounds_of [] = none
bounds_of (n ∷ ns) = some (n, last_or n ns)

-- `none` is (None, None).
unfoldable pub serial_hex_clock_bounds : Str → Option (ℕ × ℕ)
serial_hex_clock_bounds s = bounds_of (clocks (line_starts true s))

-- Status:\s*([a-z-]+)\s*$ from the first character on, in any case
unfoldable pub status_here : Str → Option Str
status_here s =
    if starts_with (text "status:") (lowered (take 7 s))
    then (let (w, rest) = span (λ c. is_letter c || c == b'-') (span is_white (drop 7 s)).1 in
        let after = (span (λ c. is_white c && not (c == 10)) rest).1 in
        if not (w == []) && (after == [] || starts_with (10 ∷ []) after)
        then some (lowered w)
        else none)
    else none

-- The same with an optional `Migration\s+` before it
unfoldable pub status_line : Str → Option Str
status_line s =
    let (spaces, rest) = span is_white (drop 9 s) in
    if starts_with (text "migration") (lowered (take 9 s)) && not (spaces == [])
    then status_here rest
    else status_here s

unfoldable pub first_status : List Str → Str
first_status [] = []
first_status (s ∷ ss) =
    let more = first_status ss in elim (status_line s) [ none ↦ more | some w ↦ w ]

unfoldable pub parse_migration_status : Str → Str
parse_migration_status s = first_status (line_starts true s)

-- HMP._read_prompt, over the chunks that the socket gives: the bytes up to the prompt, and the chunks
-- that are left. No chunk, or an empty one, is the end of the connection.
unfoldable pub ends_with_prompt : Bytes → Bool
ends_with_prompt [] = false
ends_with_prompt (c ∷ s) =
    (starts_with (text "(qemu)") (c ∷ s)
      && ((span (λ b. (leb 9 b && leb b 13) || b == 32) (drop 6 (c ∷ s))).1 == []))
    || ends_with_prompt s

unfoldable pub read_prompt : Bytes → List Bytes → Bytes × List Bytes
read_prompt got [] = (got, [])
read_prompt got (c ∷ cs) =
    let more = read_prompt (got ++ c) cs in
    if ends_with_prompt got then (got, c ∷ cs) else if c == [] then (got, cs) else more

-- raw.replace("\r", "").splitlines(), with the line that is begun
unfoldable pub breaks_line : ℕ → Bool
breaks_line c =
    (leb 10 c && leb c 12)
    || ((leb 28 c && leb c 30) || (c == 0x85 || (c == 0x2028 || c == 0x2029)))

unfoldable pub without_returns : Str → Str
without_returns [] = []
without_returns (c ∷ s) = let t = without_returns s in if c == 13 then t else c ∷ t

unfoldable pub split_lines : Str → Str → List Str
split_lines [] [] = []
split_lines (d ∷ l) [] = (d ∷ l) ∷ []
split_lines l (c ∷ s) = if breaks_line c then l ∷ split_lines [] s else split_lines (l ++ c ∷ []) s

unfoldable pub rstrip_white : Str → Str
rstrip_white [] = []
rstrip_white (c ∷ s) = let t = rstrip_white s in if is_white c && t == [] then [] else c ∷ t

unfoldable pub strip_white : Str → Str
strip_white s = rstrip_white (span is_white s).1

unfoldable pub shown_lines : List Str → List Str
shown_lines [] = []
shown_lines (l ∷ ls) =
    let more = shown_lines ls in
    if contains (27 ∷ b'[' ∷ []) l || strip_white l == text "(qemu)" then more else l ∷ more

-- HMP.command, over the chunks of its connection: those up to the greeting's prompt are passed.
unfoldable pub command_reply : List Bytes → Str
command_reply chunks =
    let (greeting, rest) = read_prompt [] chunks in
    let (raw, _) = read_prompt [] rest in
    strip_white (join 10 (shown_lines (split_lines [] (without_returns (decode_replace raw)))))
