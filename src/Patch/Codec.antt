-- ===== src/Patch/Codec.antt =====
-- tools/dt_patch.py: `decode` and `encode`.
use darwin_vm.Prelude.{
  ℕ, zero, suc, ◌+◌, ◌%◌, ◌^◌, Bool, List, [], ◌∷◌, ◌++◌, Option, none, some, length, take, drop,
  leb, ltb, nat_eq, if◌then◌else◌,
}
use darwin_vm.Prelude.Result.{Result, ok, raise, ◌>>=◌, ◌>>◌, check}
use darwin_vm.Bytes.{Bytes, u32_mod, le32, read_u32, low31, round_up4, ljust, before_nul}
use darwin_vm.Bytes.Utf8.{decode_replace, encode}
use darwin_vm.Tree.{Node, Nodes, node, child, count}
use darwin_vm.Patch.{Prop, Error, assertion, struct_error, out_of_fuel}

abbrev pub unpack : Option ℕ → Result Error ℕ
unpack none = raise struct_error
unpack (some n) = ok n

-- raw_len & 0x80000000, as a flag
abbrev pub high_bit : ℕ → Bool
high_bit w = leb (2 ^ 31) (w % 2 ^ 32)

-- One round of the loop over the properties. Slices past the end are short, as in Python.
unfoldable pub decode_prop : Bytes → Result Error (Prop × Bytes)
decode_prop d = do
  let name = decode_replace (before_nul (take 32 d))
  raw_len ← unpack (read_u32 (drop 32 d))
  let plen = low31 raw_len
  ok (
    record { name = name; flagged = high_bit raw_len; value = take plen (drop 36 d) },
    drop (36 + round_up4 plen) d,
  )

unfoldable pub decode_props : ℕ → Bytes → Result Error (List Prop × Bytes)
decode_props zero d = ok ([], d)
decode_props (suc n) d = do (p, d₁) ← decode_prop d; (ps, d₂) ← decode_props n d₁; ok (p ∷ ps, d₂)

unfoldable pub decode_children :
    (Bytes → Result Error (Node Prop × Bytes)) → ℕ → Bytes → Result Error (Nodes Prop × Bytes)
decode_children parse zero d = ok (Nodes.none, d)
decode_children parse (suc n) d = do
  (c, d₁) ← parse d
  (cs, d₂) ← decode_children parse n d₁
  ok (child c cs, d₂)

unfoldable pub decode : ℕ → Bytes → Result Error (Node Prop × Bytes)
decode zero d = raise out_of_fuel
decode (suc fuel) d = do
  nprops ← unpack (read_u32 d)
  nchild ← unpack (read_u32 (drop 4 d))
  (ps, d₁) ← decode_props nprops (drop 8 d)
  (cs, d₂) ← decode_children (decode fuel) nchild d₁
  ok (node ps cs, d₂)

-- struct.pack("<I", n)
unfoldable pub pack_u32 : ℕ → Result Error Bytes
pack_u32 n = if ltb n u32_mod then ok (le32 n) else raise struct_error

-- n | 0x80000000, for n below 2 ^ 32
abbrev set_high : ℕ → ℕ
set_high n = if leb (2 ^ 31) n then n else n + 2 ^ 31

abbrev pub length_word : Bool → ℕ → ℕ
length_word flagged n = if flagged then (if ltb n u32_mod then set_high n else n) else n

unfoldable pub encode_prop : Prop → Result Error Bytes
encode_prop p = do
  check (ltb (length p.name) 32) assertion
  size ← pack_u32 (length_word p.flagged (length p.value))
  ok (ljust 32 (encode p.name) ++ (size ++ ljust (round_up4 (length p.value)) p.value))

unfoldable pub encode_props : List Prop → Result Error Bytes
encode_props [] = ok []
encode_props (p ∷ ps) = do a ← encode_prop p; b ← encode_props ps; ok (a ++ b)

unfoldable mutual
  pub encode_node : Node Prop → Result Error Bytes
  encode_node (node ps cs) = do
    a ← pack_u32 (length ps)
    b ← pack_u32 (count cs)
    fields ← encode_props ps
    rest ← encode_children cs
    ok (a ++ (b ++ (fields ++ rest)))

  pub encode_children : Nodes Prop → Result Error Bytes
  encode_children Nodes.none = ok []
  encode_children (child c cs) = do a ← encode_node c; b ← encode_children cs; ok (a ++ b)
