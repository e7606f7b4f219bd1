-- ===== src/Fixup/Codec/Values.antt =====
-- dt_fixup.py: `decode_prop` and `parse_prop_entry` on values that are not text.
use darwin_vm.Prelude.{
  ℕ, zero, suc, ◌+◌, ◌*◌, ◌/◌, ◌%◌, ◌<◌, ◌≤◌, ◌^◌, ◌≡◌, refl, Bool, false, ◌||◌, [], ◌∷◌, ◌++◌,
  some, arith, replicate, append-nil, nat_eq, list_eq, ◌==◌, length, drop, All, All-drop,
  length-drop, Bool-cases, inl, inr, subst,
}
use darwin_vm.Prelude.Result.{ok}
use darwin_vm.Bytes.{Bytes, IsByte, text, u32_mod, le32, read_u32, round_up4, ljust}
use darwin_vm.Bytes.Words.{le32-read_u32, read_u32_total}
use darwin_vm.Bytes.Utf8.{Str}
use darwin_vm.Text.{starts_with}
use darwin_vm.Fixup.{Val, str, bytes}
use darwin_vm.Fixup.Codec.{
  u32_str, u64_str, as_u32, as_u64, is_probably_a_string, decode_prop, pack_u32, pack_u64,
  parse_prop_entry,
}
use darwin_vm.Fixup.Codec.Numbers.{python_int-hex}

parse-u32_str : (n : ℕ) → n < u32_mod → parse_prop_entry (u32_str n) ≡ ok (4, le32 n)
unfolding parse_prop_entry u32_str starts_with drop pack_u32
parse-u32_str n lt = rw (python_int-hex n) (ground arith)

parse-u64_str :
    (n : ℕ) → n < 2 ^ 64 → parse_prop_entry (u64_str n) ≡ ok (8, le32 n ++ le32 (n / u32_mod))
unfolding parse_prop_entry u64_str starts_with drop pack_u64
parse-u64_str n lt = rw (python_int-hex n) (ground arith)

le32_low : (lo hi : ℕ) → le32 (lo + u32_mod * hi) ≡ le32 lo
unfolding le32
le32_low lo hi = ground arith

high : (lo hi : ℕ) → lo < u32_mod → (lo + u32_mod * hi) / u32_mod ≡ hi
high lo hi lt = omega arith

-- A field of whole words, on its way into the tree and out.
record IsKept (name : Str) (s : Bytes) : Type 0 where
  value : Val
  read : decode_prop name s ≡ ok value
  written : parse_prop_entry value ≡ ok (length s, s)

is_text : Str → Bytes → Bool
is_text name s = name == text "name" || is_probably_a_string s

ljust_whole : (s : Bytes) → length s % 4 ≡ 0 → ljust (round_up4 (length s)) s ≡ s
unfolding replicate
ljust_whole s m = subst (λ k. s ++ replicate k 0 ≡ s) {x = 0} (omega (arith, m)) (append-nil s)

keeps_raw :
    (name : Str) (s : Bytes)
    → length s % 4 ≡ 0
    → is_text name s ≡ false
    → (length s == 0) ≡ false
    → (length s == 4) ≡ false
    → (length s == 8) ≡ false
    → IsKept name s
unfolding decode_prop parse_prop_entry is_text
keeps_raw name s m t z f e = record {
  value = bytes s;
  read = rw (t, z, f, e) refl;
  written = rw (ljust_whole s m) refl;
}

drop_all : (n : ℕ) (s : Bytes) → length s ≤ n → drop n s ≡ []
unfolding drop
drop_all zero [] le = refl
drop_all zero (b ∷ s) le = absurd (omega arith)
drop_all (suc n) [] le = refl
drop_all (suc n) (b ∷ s) le = drop_all n s (omega arith)

-- The word that the last four bytes are.
record IsWord (s : Bytes) : Type 0 where
  number : ℕ
  read : read_u32 s ≡ some number
  bound : number < u32_mod
  same : le32 number ≡ s

last-IsWord : (s : Bytes) → All IsByte s → length s ≡ 4 → IsWord s
unfolding le32
last-IsWord s h f =
    let (n, r) = read_u32_total s (omega (arith, f)) in
    let (same, lt) = le32-read_u32 s h r in
    record {
      number = n;
      read = r;
      bound = lt;
      same = subst (λ e. le32 n ++ e ≡ s) (drop_all 4 s (omega (arith, f))) same;
    }

keeps_u32 :
    (name : Str) (s : Bytes) → All IsByte s → is_text name s ≡ false → length s ≡ 4 → IsKept name s
unfolding decode_prop as_u32 is_text
keeps_u32 name s h t f =
    let w = last-IsWord s h f in
    record {
      value = u32_str (IsWord.number w);
      read = rw (t, f, IsWord.read w) refl;
      written = rw (parse-u32_str (IsWord.number w) (IsWord.bound w), f, IsWord.same w) refl;
    }

decode_u64 :
    (name : Str) (s : Bytes) (lo hi : ℕ)
    → is_text name s ≡ false
    → length s ≡ 8
    → read_u32 s ≡ some lo
    → read_u32 (drop 4 s) ≡ some hi
    → decode_prop name s ≡ ok (u64_str (lo + u32_mod * hi))
unfolding decode_prop as_u64 is_text
decode_u64 name s lo hi t f r q = rw (t, f, r, q) refl

write_u64 :
    (s : Bytes) (lo hi : ℕ)
    → length s ≡ 8
    → lo < u32_mod
    → hi < u32_mod
    → le32 lo ++ drop 4 s ≡ s
    → le32 hi ≡ drop 4 s
    → parse_prop_entry (u64_str (lo + u32_mod * hi)) ≡ ok (length s, s)
write_u64 s lo hi f lt lu same more =
    rw
      (
        parse-u64_str (lo + u32_mod * hi) (omega arith),
        f,
        le32_low lo hi,
        high lo hi lt,
        more,
        same,
      )
      refl

keeps_u64 :
    (name : Str) (s : Bytes) → All IsByte s → is_text name s ≡ false → length s ≡ 8 → IsKept name s
keeps_u64 name s h t f =
    let (lo, r) = read_u32_total s (omega (arith, f)) in
    let (same, lt) = le32-read_u32 s h r in
    let w = last-IsWord (drop 4 s) (All-drop IsByte 4 s h) (omega (arith, f, length-drop 4 s)) in
    let hi = IsWord.number w in
    record {
      value = u64_str (lo + u32_mod * hi);
      read = decode_u64 name s lo hi t f r (IsWord.read w);
      written = write_u64 s lo hi f lt (IsWord.bound w) same (IsWord.same w);
    }

keeps_empty : (name : Str) (s : Bytes) → is_text name s ≡ false → length s ≡ 0 → IsKept name s
unfolding decode_prop is_text parse_prop_entry starts_with
keeps_empty name [] t f = record { value = str (text "<NULL>"); read = rw t refl; written = refl }
keeps_empty name (b ∷ s) t f = absurd (omega arith)

-- A property of whole words that does not read as text keeps its length and its bytes, whether it is
-- shown as a number, as "<NULL>" or as raw bytes: what `decode_prop` reads from it, `parse_prop_entry`
-- writes back.
pub parse_prop_entry-decode_prop :
    (name : Str) (s : Bytes)
    → All IsByte s
    → length s % 4 ≡ 0
    → (name == text "name") ≡ false
    → is_probably_a_string s ≡ false
    → (v : Val) × ((decode_prop name s ≡ ok v) × (parse_prop_entry v ≡ ok (length s, s)))
unfolding is_text
parse_prop_entry-decode_prop name s h m n p =
    let t : is_text name s ≡ false = rw (n, p) refl in
    elim (Bool-cases (length s == 0)) [
      | inl e ↦ kept (keeps_empty name s t (ground (arith, e)))
      | inr z ↦ elim (Bool-cases (length s == 4)) [
        | inl e ↦ kept (keeps_u32 name s h t (ground (arith, e)))
        | inr f ↦ elim (Bool-cases (length s == 8)) [
          | inl e ↦ kept (keeps_u64 name s h t (ground (arith, e)))
          | inr e ↦ kept (keeps_raw name s m t z f e)
        ]
      ]
    ]
  where
    kept :
        IsKept name s
        → (v : Val) × ((decode_prop name s ≡ ok v) × (parse_prop_entry v ≡ ok (length s, s)))
    kept k = (IsKept.value k, (IsKept.read k, IsKept.written k))
