-- ===== src/Watch/Lines.antt =====
-- tools/re/probe_watch.py: what a follower has read of a log that grows in parts, each decoded by itself.
use darwin_vm.Prelude.{
  ℕ, ◌≡◌, refl, ap, sym, ◌∙◌, false, List, [], ◌∷◌, ◌++◌, some, length, ltb, arith, append_assoc,
  append-nil, length-append, drop-append,
}
use darwin_vm.Bytes.{Bytes}
use darwin_vm.Bytes.Utf8.{Str, decode_replace}
use darwin_vm.Serial.{lines, strip_return}
use darwin_vm.Serial.Transcript.{joined, lines-append, lines-IsRest, nil-IsRest}
use darwin_vm.Watch.{Follower, Reading, new_follower, rewound, stripped, read_lines, read_all}

-- The readings of a log that grows by these parts, and the text of them.
unfoldable pub readings : Bytes → List Bytes → List Reading
readings before [] = []
readings before (c ∷ cs) =
    record { size = some (length (before ++ c)); content = some (before ++ c) }
    ∷ readings (before ++ c) cs

unfoldable pub text_of_parts : List Bytes → Str
text_of_parts [] = []
text_of_parts (c ∷ cs) = decode_replace c ++ text_of_parts cs

stripped-append : (xs ys : List Str) → stripped (xs ++ ys) ≡ stripped xs ++ stripped ys
unfolding stripped
stripped-append [] ys = refl
stripped-append (x ∷ xs) ys = ap (λ z. strip_return x ∷ z) (stripped-append xs ys)

rewound_not : (size : ℕ) (f : Follower) → ltb size f.offset ≡ false → rewound size f ≡ f
unfolding rewound
rewound_not size f e = rw e refl

-- One reading of a part that was appended.
read_lines_part :
    (before c carry : Str)
    → read_lines
        (record { size = some (length (before ++ c)); content = some (before ++ c) })
        (record { offset = length before; carry = carry })
      ≡ (
        stripped (lines (carry ++ decode_replace c)).0,
        record { offset = length (before ++ c); carry = (lines (carry ++ decode_replace c)).1 },
      )
unfolding read_lines
read_lines_part before c carry =
    let f : Follower = record { offset = length before; carry = carry } in
    let grown : ltb (length (before ++ c)) (length before) ≡ false =
      ground (arith, length-append before c) in
    rw (rewound_not (length (before ++ c)) f grown)
      (rw (drop-append (length before) before c refl) (rw (length-append before c) refl))

nothing_stripped : [] ≡ stripped []
unfolding stripped
nothing_stripped = refl

joined_rest :
    (p : List Str × Str) (t : Str)
    → joined p t ≡ (p.0 ++ (lines (p.1 ++ t)).0, (lines (p.1 ++ t)).1)
unfolding joined
joined_rest p t = refl

with_rest :
    (p : List Str × Str) (t : Str) (more : List Str)
    → more ≡ stripped (lines (p.1 ++ t)).0
    → stripped p.0 ++ more ≡ stripped (joined p t).0
with_rest p t more e =
    ap (λ z. stripped p.0 ++ z) e
    ∙ sym (stripped-append p.0 (lines (p.1 ++ t)).0)
    ∙ ap (λ z. stripped z.0) (sym (joined_rest p t))

read_first :
    (r : Reading) (f g : Follower) (ls : List Str) (rs : List Reading)
    → read_lines r f ≡ (ls, g)
    → read_all (r ∷ rs) f ≡ (ls ++ (read_all rs g).0, (read_all rs g).1)
unfolding read_all
read_first r f g ls rs e = ap (λ z. (z.0 ++ (read_all rs z.1).0, (read_all rs z.1).1)) e

read_all_parts :
    (before : Bytes) (cs : List Bytes) (carry : Str)
    → lines carry ≡ ([], carry)
    → ((read_all (readings before cs) (record { offset = length before; carry = carry })).0
        ≡ stripped (lines (carry ++ text_of_parts cs)).0)
      × ((read_all (readings before cs) (record { offset = length before; carry = carry })).1.carry
          ≡ (lines (carry ++ text_of_parts cs)).1)
unfolding read_all readings text_of_parts
read_all_parts before [] carry h =
    let same : lines (carry ++ []) ≡ ([], carry) = ap lines (append-nil carry) ∙ h in
    rw same (nothing_stripped, refl)
read_all_parts before (c ∷ cs) carry h =
    let part = decode_replace c in
    let rest = text_of_parts cs in
    let now = lines (carry ++ part) in
    let i = read_all_parts (before ++ c) cs now.1 (lines-IsRest (carry ++ part)) in
    let whole : lines (carry ++ (part ++ rest)) ≡ joined now rest =
      ap lines (sym (append_assoc carry part rest)) ∙ lines-append (carry ++ part) rest in
    let first = read_first _ _ _ _ (readings (before ++ c) cs) (read_lines_part before c carry) in
    (
      ap (λ z. z.0) first ∙ with_rest now rest _ i.0 ∙ ap (λ z. stripped z.0) (sym whole),
      ap (λ z. z.1.carry) first
          ∙ i.1
          ∙ ap (λ z. z.1) (sym (joined_rest now rest))
          ∙ ap (λ z. z.1) (sym whole),
    )

-- As a log grows, by parts of any bytes that end anywhere, all lines that a new follower has read are
-- the complete lines of the text of its parts, in order and each once, without the returns at their
-- ends, and what it carries on is what stands behind the last newline.
pub read_all-readings :
    (cs : List Bytes)
    → ((read_all (readings [] cs) new_follower).0 ≡ stripped (lines (text_of_parts cs)).0)
      × ((read_all (readings [] cs) new_follower).1.carry ≡ (lines (text_of_parts cs)).1)
unfolding new_follower
read_all-readings cs = read_all_parts [] cs [] nil-IsRest
