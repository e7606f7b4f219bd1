-- ===== src/Restore/Panic.antt =====
-- tools/restore_checkpoint.py: the search for a panic in the serial log while the guest is observed, and
-- what is read from the logs afterwards.
use darwin_vm.Prelude.{
  ℕ, zero, suc, ◌+◌, ◌-◌, ◌≤◌, ◌≡◌, refl, ap, sym, ◌∙◌, Bool, true, false, ◌&&◌, ◌||◌, List, [],
  ◌∷◌, ◌++◌, Option, none, some, length, drop, leb, nat_eq, list_eq, ◌==◌, if◌then◌else◌,
  Bool-cases, inl, inr, arith, append-nil, append_assoc,
}
use darwin_vm.Bytes.{Bytes, text}
use darwin_vm.Bytes.Utf8.{Str}
use darwin_vm.Serial.Main.{is_white}
use darwin_vm.Checkpoint.Texts.{breaks_line, line_starts}
use darwin_vm.Text.{starts_with, contains, contains-append_left}

abbrev pub panic_mark : Str
panic_mark = text "panic(cpu"

-- scan[-32:]
unfoldable pub last_bytes : Bytes → Bytes
last_bytes scan = drop (length scan - 32) scan

-- The reads of the observation, in their order: the scan with the tail of what was read before, which
-- ends at the first panic.
unfoldable pub scan_reads : Bytes → List Bytes → Bool
scan_reads tail [] = false
scan_reads tail (new ∷ reads) =
    let later = scan_reads (last_bytes (tail ++ new)) reads in
    if contains panic_mark (tail ++ new) then true else later

unfoldable pub joined : List Bytes → Bytes
joined [] = []
joined (r ∷ reads) = r ++ joined reads

-- A text that is as long as the mark decides alone whether it begins with it.
starts_with-long : (m s r : Bytes) → length m ≤ length s → starts_with m (s ++ r) ≡ starts_with m s
unfolding starts_with
starts_with-long [] s r h = refl
starts_with-long (a ∷ m) [] r h = absurd (omega (arith, h))
starts_with-long (a ∷ m) (c ∷ s) r h =
    ap (λ z. a == c && z) (starts_with-long m s r (omega (arith, h)))

or_left : (a b : Bool) → (a || b) ≡ false → a ≡ false
or_left true b h = h
or_left false b h = refl

or_right : (a b : Bool) → (a || b) ≡ false → b ≡ false
or_right true b h = absurd (cc)
or_right false b h = h

contains-drop :
    (m : Bytes) (n : ℕ) (s : Bytes) → contains m s ≡ false → contains m (drop n s) ≡ false
unfolding contains drop
contains-drop m zero s h = h
contains-drop m (suc n) [] h = h
contains-drop m (suc n) (c ∷ s) h =
    contains-drop m n s (or_right (starts_with m (c ∷ s)) (contains m s) h)

-- What is dropped from the front of a text without the mark begins no mark, if it leaves as much as a mark.
contains-front :
    (m : Bytes) (n : ℕ) (s r : Bytes)
    → n + length m ≤ length s
    → contains m s ≡ false
    → contains m (drop n s ++ r) ≡ contains m (s ++ r)
unfolding contains drop
contains-front m zero s r h k = refl
contains-front m (suc n) [] r h k = absurd (omega (arith, h))
contains-front m (suc n) (c ∷ s) r h k =
    contains-front m n s r (omega (arith, h)) (or_right (starts_with m (c ∷ s)) (contains m s) k)
    ∙ ap (λ z. z || contains m (s ++ r))
        (sym (
          starts_with-long m (c ∷ s) r (omega (arith, h))
          ∙ or_left (starts_with m (c ∷ s)) (contains m s) k))

contains-last :
    (s r : Bytes)
    → contains panic_mark s ≡ false
    → contains panic_mark (last_bytes s ++ r) ≡ contains panic_mark (s ++ r)
unfolding last_bytes drop
contains-last s r k = elim (Bool-cases (leb 32 (length s))) [
  | inl e ↦ contains-front panic_mark (length s - 32) s r (ground (arith, e)) k
  | inr e ↦
      let none_dropped : length s - 32 ≡ 0 = ground (arith, e) in
      ap (λ n. contains panic_mark (drop n s ++ r)) none_dropped
]

scan_after :
    (tail : Bytes) (reads : List Bytes)
    → contains panic_mark tail ≡ false
    → scan_reads tail reads ≡ contains panic_mark (tail ++ joined reads)
unfolding scan_reads joined last_bytes
scan_after tail [] h = sym (ap (contains panic_mark) (append-nil tail) ∙ h)
scan_after tail (new ∷ reads) h = elim (Bool-cases (contains panic_mark (tail ++ new))) [
  | inl e ↦
      rw (scan_reads, e)
        (sym (
          ap (contains panic_mark) (sym (append_assoc tail new (joined reads)))
          ∙ contains-append_left panic_mark (tail ++ new) (joined reads) e))
  | inr e ↦
      rw (scan_reads, e)
        (scan_after (last_bytes (tail ++ new)) reads
            (contains-drop panic_mark (length (tail ++ new) - 32) (tail ++ new) e)
          ∙ contains-last (tail ++ new) (joined reads) e
          ∙ ap (contains panic_mark) (append_assoc tail new (joined reads)))
]

-- The scan over the reads of the serial log finds a panic exactly when the log that they make up has
-- one, wherever the reads divide it: the tail of 32 bytes is enough.
pub scan_reads-contains :
    (reads : List Bytes) → scan_reads [] reads ≡ contains panic_mark (joined reads)
unfolding contains
scan_reads-contains reads = scan_after [] reads refl

-- What the logs say afterwards.

-- [pattern for pattern in BOOT_PATTERNS if pattern in serial_text]
unfoldable pub found_in : Str → List Str → List Str
found_in s [] = []
found_in s (p ∷ ps) = let more = found_in s ps in if contains p s then p ∷ more else more

abbrev pub boot_patterns : List Str
boot_patterns =
    text "Darwin Kernel Version" ∷ text "Darwin Bootstrapper Version" ∷ text "launchd[1]" ∷ []

-- next((line for line in lines if "panic(cpu" in line), "")
unfoldable pub first_panic : List Str → Str
first_panic [] = []
first_panic (line ∷ lines) =
    let more = first_panic lines in if contains panic_mark line then line else more

-- What follows the first occurrence of a part; the regular expressions below ask for parts in this order.
unfoldable pub after_first : Str → Str → Option Str
after_first part [] = if part == [] then some [] else none
after_first part (c ∷ s) =
    let later = after_first part s in
    if starts_with part (c ∷ s) then some (drop (length part) (c ∷ s)) else later

-- The lines that end at a carriage return, too. One that is empty has no panic, so that the two marks
-- of `\r\n` may stand for themselves.
unfoldable pub lines_from : Str → Str → List Str
lines_from l [] = l ∷ []
lines_from l (c ∷ s) =
    if breaks_line c || c == 13 then l ∷ lines_from [] s else lines_from (l ++ c ∷ []) s

-- A line, with its line feed if it has one
unfoldable pub through_feed : Str → Str
through_feed [] = []
through_feed (c ∷ s) = let more = through_feed s in if c == 10 then c ∷ [] else c ∷ more

unfoldable pub lines_of : List Str → List Str
lines_of [] = []
lines_of (s ∷ ss) = through_feed s ∷ lines_of ss

unfoldable pub starts_white : Str → Bool
starts_white [] = false
starts_white (c ∷ s) = is_white c

-- Such a part stands somewhere with white space behind it.
unfoldable pub any_white_after : Str → Str → Bool
any_white_after part [] = false
any_white_after part (c ∷ s) =
    (starts_with part (c ∷ s) && starts_white (drop (length part) (c ∷ s)))
    || any_white_after part s

-- The number of the lines that pass a test, each with its line feed
unfoldable pub count_lines : (Str → Bool) → List Str → ℕ
count_lines p [] = 0
count_lines p (l ∷ ls) = let more = count_lines p ls in if p l then more + 1 else more

-- ^ans\([^\n]*\): KIND\s
unfoldable pub is_ans : Str → Str → Bool
is_ans kind l = starts_with (text "ans(") l && any_white_after (text "): " ++ kind) (drop 4 l)

-- ^sep\([^\n]*\): sks code .* replied with
unfoldable pub is_sks : Str → Bool
is_sks l = starts_with (text "sep(") l && (elim (after_first (text "): sks code ") (drop 4 l)) [
  | none ↦ false
  | some rest ↦ contains (text " replied with ") rest
])

-- The messages of QEMU's models that the report counts.
pub record Traffic : Type 0 where
  pub ans_reads : ℕ
  pub ans_writes : ℕ
  pub sks_replies : ℕ
  pub dcp_messages : ℕ
  pub iomfb_messages : ℕ

unfoldable pub traffic_of : Str → Traffic
traffic_of qemu =
    let ls = lines_of (line_starts true qemu) in
    record {
      ans_reads = count_lines (is_ans (text "READ")) ls;
      ans_writes = count_lines (is_ans (text "WRITE")) ls;
      sks_replies = count_lines is_sks ls;
      dcp_messages =
          count_lines (λ l. starts_with (text "dcp:") l || starts_with (text "afk(") l) ls;
      iomfb_messages = count_lines (starts_with (text "iomfb:")) ls;
    }

-- The clock of the log goes on from where the checkpoint's stood.
unfoldable pub clock_continued : Option ℕ → Option (ℕ × ℕ) → Bool
clock_continued none seen = false
clock_continued (some source) none = false
clock_continued (some source) (some (first, last)) = leb source first && leb first last
