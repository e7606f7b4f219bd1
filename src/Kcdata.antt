-- ===== src/Kcdata.antt =====
-- tools/oskcdata.py: the search of a memory dump for kcdata buffers, the walk over the items of one,
-- and what is reported of them. A report is a list of facts; the text that `print` makes of a fact is
-- left out.
pub mod Scan
pub mod Walk
pub mod Report
mod Tests
use darwin_vm.Prelude.{
  ℕ, zero, suc, ◌+◌, ◌-◌, ◌*◌, ◌^◌, Bool, true, false, not, ◌&&◌, ◌||◌, List, [], ◌∷◌, ◌++◌, Option,
  none, some, length, take, drop, all, any, leb, ltb, min, nat_eq, ◌==◌, if◌then◌else◌,
}
use darwin_vm.Bytes.{Bytes, u32_mod, le32, read_u32, round_up4, before_nul}
use darwin_vm.Bytes.Utf8.{Str}
use darwin_vm.PyInt.{ℤ, pos, negsuc}
use darwin_vm.Text.{starts_with}

-- MAGICS, in order
abbrev pub magics : List ℕ
magics = 0x53a20900 ∷ 0xdeadf157 ∷ 0x59a25807 ∷ 0xde17a59a ∷ []

abbrev pub buffer_end : ℕ
buffer_end = 0xf19158ed

-- A hit of the search: where, and which magic.
abbrev pub Hit : Type 0
Hit = ℕ × ℕ

-- data.find(pattern, s) with s behind the last match, until it fails: every place of the pattern, in
-- order. `at` is the offset that the data has in the file.
unfoldable pub occurrences : ℕ → ℕ → Bytes → List Hit
occurrences m at [] = []
occurrences m at (b ∷ d) =
    let rest = occurrences m (suc at) d in
    if starts_with (le32 m) (b ∷ d) then (at, m) ∷ rest else rest

unfoldable pub search_each : List ℕ → ℕ → Bytes → List Hit
search_each [] at d = []
search_each (m ∷ ms) at d = occurrences m at d ++ search_each ms at d

-- data[-8:]
unfoldable pub last8 : Bytes → Bytes
last8 d = drop (length d - 8) d

-- The loop over blocks: `base` bytes are read, `prev` are the last of them, `rest` is to be read. A
-- block is not empty, so the length of the rest is fuel enough.
unfoldable pub scan_from : ℕ → ℕ → ℕ → Bytes → Bytes → List Hit
scan_from zero block base prev rest = []
scan_from (suc fuel) block base prev rest = elim rest [
  | [] ↦ []
  | b ∷ d ↦
      let buf = take block (b ∷ d) in
      search_each magics (base - length prev) (prev ++ buf)
      ++ scan_from fuel block (base + length buf) (last8 (prev ++ buf)) (drop block (b ∷ d))
]

unfoldable pub scan : ℕ → Bytes → List Hit
scan block file = scan_from (suc (length file)) block 0 [] file

-- scan(path), which reads blocks of 64 MiB
unfoldable pub scan_file : Bytes → List Hit
scan_file file = scan (2 ^ 26) file

-- struct.unpack_from("<Q", data)
unfoldable pub read_u64 : Bytes → Option ℕ
read_u64 d = elim (read_u32 d) [
  | none ↦ none
  | some lo ↦ elim (read_u32 (drop 4 d)) [ none ↦ none | some hi ↦ some (lo + u32_mod * hi) ]
]

-- An item that the walk yields; its flags are read and not used.
pub record Item : Type 0 where
  pub kind : ℕ
  pub size : ℕ
  pub payload : Bytes

-- walk(buf, start, limit). The unpacking succeeds, since sixteen bytes are there.
unfoldable pub walk : ℕ → Bytes → ℕ → List Item
walk zero buf p = []
walk (suc limit) buf p = elim (ltb (length buf) (p + 16)) [
  | true ↦ []
  | false ↦ elim (read_u32 (drop p buf)) [
    | none ↦ []
    | some t ↦ elim (read_u32 (drop (p + 4) buf)) [
      | none ↦ []
      | some sz ↦ elim (ltb (2 ^ 20) sz || ltb (length buf) (p + 16 + sz)) [
        | true ↦ []
        | false ↦
            record { kind = t; size = sz; payload = take sz (drop (p + 16) buf) }
            ∷ elim (t == buffer_end) [
              | true ↦ []
              | false ↦ walk limit buf (round_up4 (p + 16 + sz))
            ]
      ]
    ]
  ]
]

-- A line of the report, without its layout.
pub data Fact : Type 0 where
  reason : ℕ → ℕ → ℕ → Fact
  pid : ℤ → Fact
  codes : ℕ → ℕ → Fact
  started : ℕ → ℕ → Fact
  exception : ℕ → Fact
  nested : ℕ → ℕ → Fact
  label : ℕ → Str → Fact

-- struct.unpack_from("<i", data) of the unsigned word
unfoldable pub signed32 : ℕ → ℤ
signed32 n = if ltb n (2 ^ 31) then pos n else negsuc (2 ^ 32 - n - 1)

unfoldable pub or_zero : Option ℕ → ℕ
or_zero none = 0
or_zero (some n) = n

-- What is printable in the first 64 bytes, NUL, tab and newline included.
unfoldable pub shows : ℕ → Bool
shows c = c == 0 || (c == 9 || (c == 10 || (leb 32 c && ltb c 127)))

-- decode("ascii", "replace") and replace("\n", " ")
unfoldable pub one_line : Bytes → Str
one_line [] = []
one_line (c ∷ s) = (if c == 10 then 32 else if ltb c 128 then c else 0xfffd) ∷ one_line s

unfoldable pub is_text : Item → Bool
is_text i =
    (i.kind == 0x37 || (i.kind == 0x809 || (i.kind == 0x80f || i.kind == 0x1002)))
    && (ltb 0 i.size && all shows (take (min i.size 64) i.payload))

unfoldable pub text_fact : ℕ → Str → List Fact
text_fact t [] = []
text_fact t (c ∷ s) = label t (take 500 (c ∷ s)) ∷ []

-- The branches of `render` on one item, in order. The lengths are tested before the unpacking.
unfoldable pub facts_of : Item → List Fact
facts_of i =
    if i.kind == 0x1001 && leb 20 i.size
    then reason (or_zero (read_u32 i.payload)) (or_zero (read_u64 (drop 4 i.payload)))
        (or_zero (read_u64 (drop 12 i.payload)))
      ∷ []
    else if (i.kind == 0x36 || i.kind == 0x805) && leb 4 i.size
    then pid (signed32 (or_zero (read_u32 i.payload))) ∷ []
    else if i.kind == 0x80e && leb 16 i.size
    then codes (or_zero (read_u64 i.payload)) (or_zero (read_u64 (drop 8 i.payload))) ∷ []
    else if i.kind == 0x80b && leb 16 i.size
    then started (or_zero (read_u64 i.payload)) (or_zero (read_u64 (drop 8 i.payload))) ∷ []
    else if i.kind == 0x838 && leb 4 i.size
    then exception (or_zero (read_u32 i.payload)) ∷ []
    else if i.kind == 0x38 && leb 16 i.size
    then nested (or_zero (read_u32 i.payload)) i.size ∷ []
    else if is_text i
    then text_fact i.kind (one_line (before_nul i.payload))
    else []

-- The loop of `render`: the lines, and whether one was added. The items end at BUFFER_END already.
unfoldable pub collect : List Item → List Fact
collect [] = []
collect (i ∷ is) =
    let rest = collect is in if i.kind == buffer_end then facts_of i else facts_of i ++ rest

-- render(path, off, tag): `none` is False, when nothing is printed.
unfoldable pub render : Bytes → ℕ → Option (List Fact)
render file off =
    let lines = collect (walk 512 (take (2 ^ 16) (drop off file)) 0) in
    elim lines [ [] ↦ none | l ∷ ls ↦ some (l ∷ ls) ]

-- The loop of `main` over the hits in one file, and its count of the blobs printed.
unfoldable pub report : Bytes → List Hit → List (ℕ × List Fact)
report file [] = []
report file ((off, m) ∷ hs) =
    let rest = report file hs in elim (render file off) [ none ↦ rest | some ls ↦ (off, ls) ∷ rest ]

unfoldable pub dump_report : Bytes → List (ℕ × List Fact)
dump_report file = report file (scan_file file)
