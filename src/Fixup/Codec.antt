-- ===== src/Fixup/Codec.antt =====
-- dt_fixup.py: `decode_prop`, `decode_node`, `parse_prop_entry` and `encode_node`.
pub mod Numbers
pub mod Values
use darwin_vm.Prelude.{
  ℕ, zero, suc, ◌+◌, ◌-◌, ◌*◌, ◌/◌, ◌%◌, ◌^◌, Bool, true, false, not, ◌&&◌, ◌||◌, List, [], ◌∷◌,
  ◌++◌, Option, none, some, length, take, drop, all, leb, ltb, nat_eq, list_eq, ◌==◌, if◌then◌else◌,
}
use darwin_vm.Prelude.Result.{Result, ok, raise, ◌>>=◌, ◌>>◌, check}
use darwin_vm.Bytes.{Bytes, text, u32_mod, le32, read_u32, low31, round_up4, ljust, before_nul}
use darwin_vm.Bytes.Utf8.{Str, decode_strict, encode}
use darwin_vm.PyInt.{ℤ, pos, negsuc, python_int, hex}
use darwin_vm.Text.{starts_with}
use darwin_vm.Tree.{Node, Nodes, node, child, count}
use darwin_vm.Fixup.{
  Val, str, bytes, Error, value_error, struct_error, unicode_error, out_of_fuel, Props,
}
use darwin_vm.Fixup.Dict.{put}

abbrev pub or_raise {ℓ} : {A : Type ℓ} → Option A → Error → Result Error A
or_raise none e = raise e
or_raise (some a) e = ok a

-- decode_null_terminated_string: the whole field is decoded, then cut at its first NUL.
unfoldable pub decode_text : Bytes → Result Error Str
decode_text s = do whole ← or_raise (decode_strict s) unicode_error; ok (before_nul whole)

-- After the first NUL there are only NULs.
only_nuls : Bytes → Bool
only_nuls = all (λ b. b == 0)

after_nul : Bytes → Bytes
after_nul [] = []
after_nul (b ∷ s) = if b == 0 then s else after_nul s

printable : ℕ → Bool
printable c = leb 32 c && leb c 126

unfoldable pub is_probably_a_string : Bytes → Bool
unfolding only_nuls after_nul printable
is_probably_a_string s =
    only_nuls (after_nul s)
    && (all (λ b. ltb b 0x80) s && (leb 3 (length (before_nul s)) && all printable (before_nul s)))

-- f'u32:{hex(…)}' and f'u64:{hex(…)}'
unfoldable pub u32_str : ℕ → Val
u32_str n = str (text "u32:" ++ hex n)

unfoldable pub u64_str : ℕ → Val
u64_str n = str (text "u64:" ++ hex n)

as_u32 : Bytes → Result Error Val
as_u32 s = do n ← or_raise (read_u32 s) struct_error; ok (u32_str n)

as_u64 : Bytes → Result Error Val
as_u64 s = do
  lo ← or_raise (read_u32 s) struct_error
  hi ← or_raise (read_u32 (drop 4 s)) struct_error
  ok (u64_str (lo + u32_mod * hi))

unfoldable pub decode_prop : Str → Bytes → Result Error Val
unfolding as_u32 as_u64
decode_prop name s =
    if name == text "name" || is_probably_a_string s
    then (do t ← decode_text s; ok (str t))
    else if length s == 0
    then ok (str (text "<NULL>"))
    else if length s == 4
    then as_u32 s
    else if length s == 8
    then as_u64 s
    else ok (bytes s)

-- One round of the loop over the properties. The length read is rounded up before the cut, so the
-- padding is a part of the value.
unfoldable pub decode_entry : Bytes → Result Error (Str × Val × Bytes)
decode_entry d = do
  name ← decode_text (take 32 d)
  raw ← or_raise (read_u32 (take 4 (drop 32 d))) struct_error
  let size = round_up4 (low31 raw)
  v ← decode_prop name (take size (drop 36 d))
  ok (name, v, drop (36 + size) d)

unfoldable pub decode_entries : ℕ → Props → Bytes → Result Error (Props × Bytes)
decode_entries zero ps d = ok (ps, d)
decode_entries (suc n) ps d = do (k, v, d₁) ← decode_entry d; decode_entries n (put k v ps) d₁

unfoldable pub decode_children :
    (Bytes → Result Error (Node (Str × Val) × Bytes))
    → ℕ
    → Bytes
    → Result Error (Nodes (Str × Val) × Bytes)
decode_children parse zero d = ok (Nodes.none, d)
decode_children parse (suc n) d = do
  (c, d₁) ← parse d
  (cs, d₂) ← decode_children parse n d₁
  ok (child c cs, d₂)

-- The bytes behind the node stand for the size that the program returns. The fuel bounds the depth.
unfoldable pub decode_node : ℕ → Bytes → Result Error (Node (Str × Val) × Bytes)
decode_node zero d = raise out_of_fuel
decode_node (suc fuel) d = do
  check (leb 8 (length d)) value_error
  n_props ← or_raise (read_u32 d) struct_error
  n_children ← or_raise (read_u32 (drop 4 d)) struct_error
  (ps, d₁) ← decode_entries n_props [] (drop 8 d)
  (cs, d₂) ← decode_children (decode_node fuel) n_children d₁
  ok (node ps cs, d₂)

unfoldable pub pack_u32 : ℕ → Result Error Bytes
pack_u32 n = if ltb n u32_mod then ok (le32 n) else raise struct_error

unfoldable pub pack_u64 : ℕ → Result Error Bytes
pack_u64 n = if ltb n (2 ^ 64) then ok (le32 n ++ le32 (n / u32_mod)) else raise struct_error

abbrev pack_int : (ℕ → Result Error Bytes) → Option ℤ → Result Error Bytes
pack_int pack none = raise value_error
pack_int pack (some (negsuc n)) = raise struct_error
pack_int pack (some (pos n)) = pack n

-- value[-1] == 0, of a value that is not empty
unfoldable pub ends_in_nul : Bytes → Bool
ends_in_nul [] = false
ends_in_nul (b ∷ []) = b == 0
ends_in_nul (b ∷ c ∷ s) = ends_in_nul (c ∷ s)

-- The length word and the padded bytes of a value. A text's length is counted in characters.
unfoldable pub parse_prop_entry : Val → Result Error (ℕ × Bytes)
parse_prop_entry (bytes b) = ok (length b, ljust (round_up4 (length b)) b)
parse_prop_entry (str v) =
    if starts_with (text "u32:") v
    then (do b ← pack_int pack_u32 (python_int (drop 4 v)); ok (4, b))
    else if starts_with (text "u64:") v
    then (do b ← pack_int pack_u64 (python_int (drop 4 v)); ok (8, b))
    else if v == text "<NULL>"
    then ok (0, [])
    else do
      let strlen = length v + 1
      let padded = ljust (round_up4 strlen) (encode v)
      check (ends_in_nul padded) value_error
      ok (strlen, padded)

unfoldable pub encode_entry : Str → Val → Result Error Bytes
encode_entry k v = do
  check (ltb (length k) 32) value_error
  check (ends_in_nul (ljust 32 (encode k))) value_error
  (prop_len, prop_val) ← parse_prop_entry v
  check (length prop_val % 4 == 0) value_error
  size ← pack_u32 prop_len
  ok (ljust 32 (encode k) ++ (size ++ prop_val))

-- The loop of `encode_node`, with its check that the stream stays aligned.
unfoldable pub encode_entries : Bytes → Props → Result Error Bytes
encode_entries out [] = ok out
encode_entries out ((k, v) ∷ ps) = do
  entry ← encode_entry k v
  check (length (out ++ entry) % 4 == 0) value_error
  encode_entries (out ++ entry) ps

unfoldable mutual
  pub encode_node : Node (Str × Val) → Result Error Bytes
  encode_node (node ps cs) = do
    a ← pack_u32 (length ps)
    b ← pack_u32 (count cs)
    own ← encode_entries (a ++ b) ps
    rest ← encode_children cs
    ok (own ++ rest)

  pub encode_children : Nodes (Str × Val) → Result Error Bytes
  encode_children Nodes.none = ok []
  encode_children (child c cs) = do a ← encode_node c; b ← encode_children cs; ok (a ++ b)
