-- ===== src/Checkpoint/Sptm.antt =====
-- tools/checkpoint_common.py, `sptm_panic_message`: SPTM's panic, a branch to itself with the message at
-- the address in x3.
use darwin_vm.Prelude.{
  ℕ, ◌+◌, Bool, true, false, not, ◌&&◌, ◌||◌, List, [], ◌∷◌, ◌++◌, Option, none, some, length, take,
  drop, leb, nat_eq, list_eq, ◌==◌, if◌then◌else◌,
}
use darwin_vm.Prelude.Result.{ok, ◌>>=◌}
use darwin_vm.Bytes.{text}
use darwin_vm.Bytes.Utf8.{Str}
use darwin_vm.PyInt.{hex}
use darwin_vm.Text.{starts_with}
use darwin_vm.Serial.Main.{is_white}
use darwin_vm.Checkpoint.Texts.{
  is_hex, is_word, starts_word, span, hex_value, hex_after, parse_pc, strip_white,
}
use darwin_vm.Checkpoint.Session.{M, ask, lift}

-- \bb\s+#?0x([0-9a-fA-F]+)\b, from a `b` on
unfoldable pub branch_here : Str → Option ℕ
branch_here s =
    let (spaces, rest) = span is_white (drop 1 s) in
    let rest = if starts_with (text "#") rest then drop 1 rest else rest in
    let (ds, after) = span is_hex (drop 2 rest) in
    if starts_with (text "b") s
      && (not (spaces == [])
          && (starts_with (text "0x") rest && (not (ds == []) && not (starts_word after))))
    then some (hex_value 0 ds)
    else none

unfoldable pub branch_target : Bool → Str → Option ℕ
branch_target before [] = none
branch_target before (c ∷ s) =
    let later = branch_target (is_word c) s in
    if before then later else elim (branch_here (c ∷ s)) [ none ↦ later | some n ↦ some n ]

unfoldable pub starts_hex : Str → Bool
starts_hex [] = false
starts_hex (c ∷ s) = is_hex c

-- (?<![0-9a-fA-Fx])0x([0-9a-fA-F]{2})(?![0-9a-fA-F]); no match begins inside another.
unfoldable pub octets_in : Bool → Str → List ℕ
octets_in before [] = []
octets_in before (c ∷ s) =
    let more = octets_in (is_hex c || c == b'x') s in
    let ds = take 2 (drop 2 (c ∷ s)) in
    if not before
      && (starts_with (text "0x") (c ∷ s)
          && (length (span is_hex ds).0 == 2 && not (starts_hex (drop 4 (c ∷ s)))))
    then hex_value 0 ds ∷ more
    else more

unfoldable pub shown : List ℕ → Str
shown [] = []
shown (v ∷ vs) = (if leb 32 v && leb v 126 then v else 0) ∷ shown vs

-- text.split("\0\0", 1)[0]
unfoldable pub before_zeros : Str → Str
before_zeros [] = []
before_zeros (c ∷ s) =
    let more = before_zeros s in if starts_with (0 ∷ 0 ∷ []) (c ∷ s) then [] else c ∷ more

unfoldable pub all_zeros : Str → Bool
all_zeros [] = true
all_zeros (c ∷ s) = c == 0 && all_zeros s

unfoldable pub rstrip_zeros : Str → Str
rstrip_zeros [] = []
rstrip_zeros (c ∷ s) = let more = rstrip_zeros s in if all_zeros (c ∷ s) then [] else c ∷ more

unfoldable pub message_of : List ℕ → Str
message_of octets = strip_white (rstrip_zeros (span (λ c. c == 0) (before_zeros (shown octets))).1)

unfoldable pub is_self : Option ℕ → ℕ → Bool
is_self none pc = false
is_self (some target) pc = target == pc || target + 4 == pc

unfoldable pub sptm_at : ℕ → Option Str → M Str
sptm_at pc none s = ok ([], s)
sptm_at pc (some x3) s = ask (text "x/1i " ++ hex pc) s >>= λ (instruction, s).
    elim (is_self (branch_target false instruction) pc) [
      | false ↦ ok ([], s)
      | true ↦ ask (text "x/256xb " ++ hex (hex_value 0 x3)) s >>= λ (raw, s).
          ok (message_of (octets_in false raw), s)
    ]

unfoldable pub sptm_panic_message : Str → M Str
sptm_panic_message registers s = do
  (pc, s) ← lift (parse_pc registers) s
  sptm_at (hex_value 0 pc) (hex_after (text "X03=") false registers) s
