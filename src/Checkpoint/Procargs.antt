-- ===== src/Checkpoint/Procargs.antt =====
-- tools/checkpoint_common.py, `process_argv_env`: the buffer of kern.procargs2. The texts stay bytes,
-- which decoding with surrogateescape keeps apart, and the environment is the list of its settings in
-- order.
use darwin_vm.Prelude.{
  ℕ, zero, suc, ◌^◌, ◌<◌, ◌≤◌, ◌≡◌, refl, ap, ◌∙◌, true, false, List, [], ◌∷◌, ◌++◌, none, some,
  length, drop, All, any, arith, nat_eq, ◌==◌, ltb, replicate, append_assoc, if◌then◌else◌,
  length-append,
}
use darwin_vm.Prelude.Result.{Result, ok, raise, ◌>>=◌}
use darwin_vm.Bytes.{Bytes, le32, read_u32}
use darwin_vm.Bytes.Words.{read_u32-le32}
use darwin_vm.Text.{partition, split}
use darwin_vm.Checkpoint.{Error, short_buffer, unterminated}

-- take_string, on the bytes from `pos` on
unfoldable pub take_string : Bytes → Result Error (Bytes × Bytes)
take_string [] = raise unterminated
take_string (b ∷ s) = elim (b == 0) [
  | true ↦ ok ([], s)
  | false ↦ take_string s >>= λ r. ok (b ∷ r.0, r.1)
]

-- while pos < len(raw) and raw[pos] == 0: pos += 1
unfoldable pub skip_nul : Bytes → Bytes
skip_nul [] = []
skip_nul (b ∷ s) = let rest = skip_nul s in if b == 0 then rest else b ∷ s

unfoldable pub take_strings : ℕ → Bytes → Result Error (List Bytes × Bytes)
take_strings zero s = ok ([], s)
take_strings (suc n) s = do
  first ← take_string s
  others ← take_strings n first.1
  ok (first.0 ∷ others.0, others.1)

-- item.split(b"=", 1), for an item with a "="
unfoldable pub settings_of : List Bytes → List (Bytes × Bytes)
settings_of [] = []
settings_of (i ∷ is) =
    let more = settings_of is in if any (λ c. c == b'=') i then partition b'=' i ∷ more else more

-- The loop over the environment. A round takes a byte at least, so the length is fuel enough.
unfoldable pub take_items : ℕ → Bytes → Result Error (List Bytes)
take_items zero s = ok []
take_items (suc fuel) [] = ok []
take_items (suc fuel) (b ∷ s) = take_string (b ∷ s) >>= λ first. elim first.0 [
  | [] ↦ ok []
  | c ∷ item ↦ take_items fuel first.1 >>= λ others. ok ((c ∷ item) ∷ others)
]

-- range(argc) of the signed word: a negative one counts nothing.
unfoldable pub count_of : Bytes → ℕ
count_of raw = elim (read_u32 raw) [ none ↦ 0 | some n ↦ if ltb n (2 ^ 31) then n else 0 ]

unfoldable pub parse_procargs : Bytes → Result Error (List Bytes × List (Bytes × Bytes))
parse_procargs raw = elim (ltb (length raw) 4) [
  | true ↦ raise short_buffer
  | false ↦ do
    path ← take_string (drop 4 raw)
    args ← take_strings (count_of raw) (skip_nul path.1)
    items ← take_items (length raw) (skip_nul args.1)
    ok (args.0, settings_of items)
]

-- Where /proc is there: its two files, cut at their NULs. Empty arguments are left out.
unfoldable pub not_empty : List Bytes → List Bytes
not_empty [] = []
not_empty ([] ∷ ss) = not_empty ss
not_empty ((b ∷ s) ∷ ss) = (b ∷ s) ∷ not_empty ss

unfoldable pub parse_proc : Bytes → Bytes → List Bytes × List (Bytes × Bytes)
parse_proc cmdline environ = (not_empty (split 0 cmdline), settings_of (split 0 environ))

-- What the kernel lays out: strings with their NUL.
abbrev pub IsString : Bytes → Type 0
IsString s = All (λ b. (b == 0) ≡ false) s

unfoldable pub terminated : List Bytes → Bytes
terminated [] = []
terminated (s ∷ ss) = s ++ 0 ∷ terminated ss

pub data IsFilled : Bytes → Type 0 where
  filled : {b : ℕ} {s : Bytes} → IsString (b ∷ s) → IsFilled (b ∷ s)

take_string-IsString : (s rest : Bytes) → IsString s → take_string (s ++ 0 ∷ rest) ≡ ok (s, rest)
unfolding take_string
take_string-IsString [] rest h = refl
take_string-IsString (b ∷ s) rest h =
    rw (take_string, h.0) (rw (take_string-IsString s rest h.1) refl)

take_strings-terminated :
    (ss : List Bytes) (rest : Bytes)
    → All IsString ss
    → take_strings (length ss) (terminated ss ++ rest) ≡ ok (ss, rest)
unfolding take_strings terminated
take_strings-terminated [] rest h = refl
take_strings-terminated (s ∷ ss) rest h = rw (append_assoc s (0 ∷ terminated ss) rest) (
    rw (take_string-IsString s (terminated ss ++ rest) h.0)
      (rw (take_strings-terminated ss rest h.1) refl))

skip_nul-IsFilled :
    (n : ℕ) (s rest : Bytes) → IsFilled s → skip_nul (replicate n 0 ++ (s ++ rest)) ≡ s ++ rest
unfolding skip_nul replicate
skip_nul-IsFilled zero [] rest h = elim h [ ]
skip_nul-IsFilled zero (b ∷ s) rest (filled h) = rw h.0 refl
skip_nul-IsFilled (suc n) s rest h = skip_nul-IsFilled n s rest h

at_nul : (fuel : ℕ) (rest : Bytes) → take_items (suc fuel) (0 ∷ rest) ≡ ok []
unfolding take_items take_string
at_nul fuel rest = refl

take_item :
    (fuel : ℕ) (s rest : Bytes) {others : List Bytes}
    → IsFilled s
    → take_items fuel rest ≡ ok others
    → take_items (suc fuel) (s ++ 0 ∷ rest) ≡ ok (s ∷ others)
unfolding take_items
take_item fuel [] rest h e = elim h [ ]
take_item fuel (b ∷ s) rest (filled h) e = rw (take_string-IsString (b ∷ s) rest h) (rw e refl)

take_items-terminated :
    (ss : List Bytes) (fuel : ℕ) (rest : Bytes)
    → All IsFilled ss
    → length ss < fuel
    → take_items fuel (terminated ss ++ 0 ∷ rest) ≡ ok ss
unfolding terminated
take_items-terminated ss zero rest h lt = absurd (omega arith)
take_items-terminated [] (suc fuel) rest h lt = at_nul fuel rest
take_items-terminated (s ∷ ss) (suc fuel) rest h lt =
    rw (append_assoc s (0 ∷ terminated ss) (0 ∷ rest)) (
      take_item fuel s (terminated ss ++ 0 ∷ rest) h.0
        (take_items-terminated ss fuel rest h.1 (omega arith)))

length-terminated : (ss : List Bytes) → length ss ≤ length (terminated ss)
unfolding terminated
length-terminated [] = omega arith
length-terminated (s ∷ ss) =
    omega (arith, length-append s (0 ∷ terminated ss), length-terminated ss)

-- The buffer: the count, the path of the program, padding, the arguments, padding, the environment, an
-- empty string, and what follows.
unfoldable pub procargs : Bytes → ℕ → List Bytes → ℕ → List Bytes → Bytes → Bytes
procargs path pad args pad' items rest =
    le32 (length args)
    ++ (path
        ++ 0
          ∷ (replicate pad 0
              ++ (terminated args ++ (replicate pad' 0 ++ (terminated items ++ 0 ∷ rest)))))

filled-IsString : (s : Bytes) → IsFilled s → IsString s
filled-IsString [] h = elim h [ ]
filled-IsString (b ∷ s) (filled h) = h

skip_terminated :
    (n : ℕ) (s : Bytes) (ss : List Bytes) (rest : Bytes)
    → IsFilled s
    → skip_nul (replicate n 0 ++ (terminated (s ∷ ss) ++ rest)) ≡ terminated (s ∷ ss) ++ rest
unfolding terminated
skip_terminated n s ss rest h =
    rw (append_assoc s (0 ∷ terminated ss) rest)
      (skip_nul-IsFilled n s (0 ∷ (terminated ss ++ rest)) h)

parse_steps :
    (raw path r1 : Bytes) (args : List Bytes) (r2 : Bytes) (items : List Bytes)
    → ltb (length raw) 4 ≡ false
    → take_string (drop 4 raw) ≡ ok (path, r1)
    → take_strings (count_of raw) (skip_nul r1) ≡ ok (args, r2)
    → take_items (length raw) (skip_nul r2) ≡ ok items
    → parse_procargs raw ≡ ok (args, settings_of items)
unfolding parse_procargs
parse_steps raw path r1 args r2 items a b c d = rw (parse_procargs, a, b, c, d) refl

count_of-le32 : (n : ℕ) (s : Bytes) → n < 2 ^ 31 → count_of (le32 n ++ s) ≡ n
unfolding count_of
count_of-le32 n s small =
    let fits : ltb n (2 ^ 31) ≡ true = ground (arith, small) in
    rw (count_of, read_u32-le32 n s (omega (arith, small))) (rw fits refl)

All-IsFilled : (ss : List Bytes) → All IsFilled ss → All IsString ss
All-IsFilled [] h = tt
All-IsFilled (s ∷ ss) h = (filled-IsString s h.0, All-IsFilled ss h.1)

-- On a buffer as the kernel lays it out, with any padding, the arguments and the settings of the
-- environment are read back. The first argument and the strings of the environment are not empty: an
-- empty first argument would be taken for padding.
pub parse_procargs-procargs :
    (path : Bytes) (pad : ℕ) (arg : Bytes) (args : List Bytes) (pad' : ℕ) (item : Bytes)
    (items : List Bytes) (rest : Bytes)
    → IsString path
    → IsFilled arg
    → All IsString args
    → All IsFilled (item ∷ items)
    → suc (length args) < 2 ^ 31
    → parse_procargs (procargs path pad (arg ∷ args) pad' (item ∷ items) rest)
      ≡ ok (arg ∷ args, settings_of (item ∷ items))
unfolding procargs le32 drop
parse_procargs-procargs path pad arg args pad' item items rest p a as' is' small =
    let raw = procargs path pad (arg ∷ args) pad' (item ∷ items) rest in
    let end = terminated (item ∷ items) ++ 0 ∷ rest in
    let r2 = replicate pad' 0 ++ end in
    let r1 = replicate pad 0 ++ (terminated (arg ∷ args) ++ r2) in
    parse_steps raw path r1 (arg ∷ args) r2 (item ∷ items) (ground arith)
      (take_string-IsString path r1 p)
      (ap (λ n. take_strings n (skip_nul r1))
          (count_of-le32 (suc (length args)) (path ++ 0 ∷ r1) small)
        ∙ ap (take_strings (suc (length args))) (skip_terminated pad arg args r2 a)
        ∙ take_strings-terminated (arg ∷ args) r2 (filled-IsString arg a, as'))
      (ap (take_items (length raw)) (skip_terminated pad' item items (0 ∷ rest) is'.0)
        ∙ take_items-terminated (item ∷ items) (length raw) rest is' (
            omega (
              arith,
              length-append path (0 ∷ r1),
              length-append (replicate pad 0) (terminated (arg ∷ args) ++ r2),
              length-append (terminated (arg ∷ args)) r2,
              length-append (replicate pad' 0) end,
              length-append (terminated (item ∷ items)) (0 ∷ rest),
              length-terminated (item ∷ items),
            )))
