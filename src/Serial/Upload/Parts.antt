-- ===== src/Serial/Upload/Parts.antt =====
-- tools/serial.py, `upload`: the parts of the encoded file, and the lines that write them.
use darwin_vm.Prelude.{
  ℕ, zero, true, suc, ◌+◌, ◌-◌, ◌*◌, ◌/◌, ◌%◌, ◌^◌, ◌≤◌, ◌<◌, ◌≡◌, refl, ap, ◌∙◌, List, [], ◌∷◌,
  ◌++◌, length, take, drop, arith, All, length-append, All-append, All-take, All-drop, length-take,
  length-drop, take-append-drop, length-replicate, replicate, Bool-cases, inl, inr, nat_eq, ◌==◌,
}
use darwin_vm.Bytes.{text, IsByte, Bytes}
use darwin_vm.Bytes.Utf8.{Str, encode_ascii, IsAscii}
use darwin_vm.PyInt.{decimal_str, to_digits, digit_char}
use darwin_vm.Serial.{guarded}
use darwin_vm.Serial.Upload.{
  padded, part_path, part_command, sample_line, chunk_size, chunks_of, b64_char, b64encode,
}

unfoldable pub concat : List Str → Str
concat [] = []
concat (s ∷ ss) = s ++ concat ss

-- A part has between one character and `size`.
pub record IsPart (size : ℕ) (chunk : Str) : Type 0 where
  pub filled : 0 < length chunk
  pub bounded : length chunk ≤ size

-- The parts of a text, of at most `size` characters each and none empty, make up the text again in
-- their order, where `size` is not zero and the loop runs once for each part.
pub chunks_of-IsPart :
    (fuel size : ℕ) (s : Str)
    → 0 < size
    → length s ≤ fuel
    → (concat (chunks_of fuel size s) ≡ s) × All (IsPart size) (chunks_of fuel size s)
unfolding chunks_of concat
chunks_of-IsPart zero size [] pos le = (refl, tt)
chunks_of-IsPart zero size (c ∷ s) pos le = absurd (omega arith)
chunks_of-IsPart (suc fuel) size [] pos le = (refl, tt)
chunks_of-IsPart (suc fuel) size (c ∷ s) pos le =
    let (joined, parts) =
      chunks_of-IsPart fuel size (drop size (c ∷ s)) pos
        (omega (arith, length-drop size (c ∷ s))) in
    let size_of = length-take size (c ∷ s) in
    (
      ap (λ z. take size (c ∷ s) ++ z) joined ∙ take-append-drop size (c ∷ s),
      (record { filled = omega (arith, size_of, pos); bounded = omega (arith, size_of) }, parts),
    )

-- Numbers of at most six digits.
length-to_digits :
    (k fuel n : ℕ) (s : Str)
    → n < 10 ^ suc k
    → n < fuel
    → length (to_digits fuel 10 n s) ≤ suc k + length s
unfolding to_digits
length-to_digits k zero n s small lt = absurd (omega arith)
length-to_digits zero (suc fuel) n s small lt =
    let e : (n / 10 == 0) ≡ true = ground (arith, small) in rw e (omega arith)
length-to_digits (suc k) (suc fuel) n s small lt = elim (Bool-cases (n / 10 == 0)) [
  | inl e ↦ rw e (omega arith)
  | inr e ↦
      let less : n / 10 < fuel = ground (arith, lt, e) in
      rw e (
        omega (
          arith,
          length-to_digits k fuel (n / 10) (digit_char (n % 10) ∷ s) (omega (arith, small)) less,
        ))
]

digit_char-IsAscii : (d : ℕ) → d < 10 → IsAscii (digit_char d)
unfolding digit_char
digit_char-IsAscii d lt = ground arith

to_digits-IsAscii : (fuel n : ℕ) (s : Str) → All IsAscii s → All IsAscii (to_digits fuel 10 n s)
unfolding to_digits
to_digits-IsAscii zero n s h = h
to_digits-IsAscii (suc fuel) n s h =
    let d : IsAscii (digit_char (n % 10)) = digit_char-IsAscii (n % 10) (omega arith) in
    elim (Bool-cases (n / 10 == 0)) [
      | inl e ↦ rw e (d, h)
      | inr e ↦ rw e (to_digits-IsAscii fuel (n / 10) (digit_char (n % 10) ∷ s) (d, h))
    ]

length-padded : (n : ℕ) → n < 1000000 → length (padded n) ≡ 6
unfolding padded decimal_str
length-padded n lt =
    let t = to_digits (suc n) 10 n [] in
    omega (
      arith,
      length-to_digits 5 (suc n) n [] lt (omega arith),
      length-append (replicate (6 - length t) b'0') t,
      length-replicate {A = ℕ} (6 - length t) b'0',
    )

All-replicate : (n a : ℕ) → IsAscii a → All IsAscii (replicate n a)
unfolding replicate
All-replicate zero a h = tt
All-replicate (suc n) a h = (h, All-replicate n a h)

padded-IsAscii : (n : ℕ) → All IsAscii (padded n)
unfolding padded decimal_str
padded-IsAscii n =
    let t = to_digits (suc n) 10 n [] in
    All-append IsAscii (replicate (6 - length t) b'0') t
      (All-replicate (6 - length t) b'0' (omega arith)) (to_digits-IsAscii (suc n) n [] tt)

part_path-IsAscii : (dir : Str) (n : ℕ) → All IsAscii dir → All IsAscii (part_path dir n)
unfolding part_path
part_path-IsAscii dir n h =
    All-append IsAscii dir (b'/' ∷ padded n) h (omega arith, padded-IsAscii n)

part_command-IsAscii :
    (path chunk : Str)
    → All IsAscii path
    → All IsAscii chunk
    → All IsAscii (part_command path chunk)
unfolding part_command
part_command-IsAscii path chunk p c = All-append IsAscii (text "printf '%s' '") _ (ground arith) (
    All-append IsAscii chunk _ c (
      All-append IsAscii (text "' > ") _ (ground arith) (
        All-append IsAscii path _ p
          (All-append IsAscii (text "; /bin/cksum ") path (ground arith) p))))

length-part_command :
    (path chunk : Str)
    → length (part_command path chunk)
      ≡ length (part_command [] []) + length chunk + 2 * length path
unfolding part_command
length-part_command path chunk = omega (
  arith,
  length-append chunk (text "' > " ++ (path ++ (text "; /bin/cksum " ++ path))),
  length-append path (text "; /bin/cksum " ++ path),
)

chunks_of-IsAscii :
    (fuel size : ℕ) (s : Str) → All IsAscii s → All (All IsAscii) (chunks_of fuel size s)
unfolding chunks_of
chunks_of-IsAscii zero size s h = tt
chunks_of-IsAscii (suc fuel) size [] h = tt
chunks_of-IsAscii (suc fuel) size (c ∷ s) h = (
  All-take IsAscii size (c ∷ s) h,
  chunks_of-IsAscii fuel size (drop size (c ∷ s)) (All-drop IsAscii size (c ∷ s) h),
)

b64_char-IsAscii : (n : ℕ) → n < 64 → IsAscii (b64_char n)
unfolding b64_char
b64_char-IsAscii n lt = ground arith

b64encode-IsAscii : (s : Bytes) → All IsByte s → All IsAscii (b64encode s)
unfolding b64encode
b64encode-IsAscii [] h = tt
b64encode-IsAscii (a ∷ []) h = (
  b64_char-IsAscii (a / 4) (omega (arith, h.0)),
  (b64_char-IsAscii (a % 4 * 16) (omega arith), (omega arith, (omega arith, tt))),
)
b64encode-IsAscii (a ∷ b ∷ []) h = (
  b64_char-IsAscii (a / 4) (omega (arith, h.0)),
  (
    b64_char-IsAscii (a % 4 * 16 + b / 16) (omega (arith, h.1.0)),
    (b64_char-IsAscii (b % 16 * 4) (omega arith), (omega arith, tt)),
  ),
)
b64encode-IsAscii (a ∷ b ∷ c ∷ s) h = (
  b64_char-IsAscii (a / 4) (omega (arith, h.0)),
  (
    b64_char-IsAscii (a % 4 * 16 + b / 16) (omega (arith, h.1.0)),
    (
      b64_char-IsAscii (b % 16 * 4 + c / 64) (omega (arith, h.1.1.0)),
      (b64_char-IsAscii (c % 64) (omega arith), b64encode-IsAscii s h.1.1.1),
    ),
  ),
)

length-part_path : (dir : Str) (n : ℕ) → n < 1000000 → length (part_path dir n) ≡ length dir + 7
unfolding part_path
length-part_path dir n lt = omega (arith, length-append dir (b'/' ∷ padded n), length-padded n lt)

length-guarded : (s : Str) → All IsAscii s → length (guarded s) ≡ length s + 6
unfolding guarded
length-guarded s h = rw (encode_ascii s h) (omega (arith, length-append s (10 ∷ [])))

length-sample_line :
    (dir : Str) → length (sample_line dir) ≡ length (part_command (part_path dir 1) []) + 6
unfolding sample_line
length-sample_line dir = omega (arith, length-append (part_command (part_path dir 1) []) (10 ∷ []))

line_fits :
    (dir chunk : Str) (number : ℕ)
    → 0 < chunk_size dir
    → number < 1000000
    → length chunk ≤ chunk_size dir
    → length (part_command (part_path dir number) chunk) + 6 ≤ 252
unfolding chunk_size
line_fits dir chunk number pos lt le = omega (
  arith,
  pos,
  le,
  length-part_command (part_path dir number) chunk,
  length-part_command (part_path dir 1) [],
  length-part_path dir number lt,
  length-part_path dir 1 (omega arith),
  length-sample_line dir,
)

lines_fit :
    (dir : Str) (number : ℕ) (cs : List Str)
    → 0 < chunk_size dir
    → number < 1000000
    → All IsAscii dir
    → All (All IsAscii) cs
    → All (IsPart (chunk_size dir)) cs
    → All (λ chunk. length (guarded (part_command (part_path dir number) chunk)) ≤ 252) cs
lines_fit dir number [] pos lt ascii texts ps = tt
lines_fit dir number (c ∷ cs) pos lt ascii texts ps =
    let path = part_path dir number in
    let short =
      length-guarded (part_command path c)
        (part_command-IsAscii path c (part_path-IsAscii dir number ascii) texts.0) in
    (
      omega (arith, short, line_fits dir c number pos lt ps.0.bounded),
      lines_fit dir number cs pos lt ascii texts.1 ps.1,
    )

-- Where the target is ASCII and leaves room for a part, each line that writes a part of an encoded file
-- is 252 bytes at most with its guard and its newline, for part numbers of six digits.
pub part_lines_fit :
    (dir : Str) (blob : Bytes) (number : ℕ)
    → All IsAscii dir
    → All IsByte blob
    → 0 < chunk_size dir
    → number < 1000000
    → All
        (λ chunk. length (guarded (part_command (part_path dir number) chunk)) ≤ 252)
        (chunks_of (length (b64encode blob)) (chunk_size dir) (b64encode blob))
part_lines_fit dir blob number ascii bytes pos lt =
    let s = b64encode blob in
    lines_fit dir number (chunks_of (length s) (chunk_size dir) s) pos lt ascii
      (chunks_of-IsAscii (length s) (chunk_size dir) s (b64encode-IsAscii blob bytes))
      (chunks_of-IsPart (length s) (chunk_size dir) s pos (omega arith)).1
