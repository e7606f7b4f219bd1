-- ===== src/Passthrough.antt =====
-- tools/re/power_passthrough_dt.py: the lossless device-tree codec of the tool, and the one
-- mutation that it makes, a new leaf under `arm-io`. A Python `bytes` and offset is the bytes from
-- that offset on; the fuel of the parser bounds the depth of the tree, at 8 bytes or more a level.
pub mod Edit
pub mod Lossless
pub mod RoundTrip
pub mod Contract
pub mod Leaf
pub mod Update
pub mod Generate
mod Tests
use darwin_vm.Prelude.{
  ℕ, zero, suc, ◌+◌, ◌-◌, ◌≤◌, String, Bool, true, false, not, ◌&&◌, ◌||◌, List, [], ◌∷◌, ◌++◌,
  Option, none, some, length, take, drop, leb, ltb, nat_eq, list_eq, ◌==◌, if◌then◌else◌, any,
}
use darwin_vm.Prelude.Result.{Result, ok, raise, ◌>>=◌, ◌>>◌, check}
use darwin_vm.Bytes.{Bytes, text, u32_mod, le32, read_u32, low31, round_up4, ljust, before_nul}
use darwin_vm.Bytes.Utf8.{Str, decode_ascii, decode_strict}
use darwin_vm.Tree
use darwin_vm.Tree.{Node, Nodes, node, child, props, children, count, snoc}

-- The messages of DTError, ProviderConflict, and struct.error of a count that fits no "<I".
-- `out_of_fuel` has no counterpart in the program.
pub data Error : Type 0 where
  truncated_header truncated_property_header unterminated_name name_not_ascii : Error
  truncated_property no_name bad_string_property not_c_string not_utf8 trailing_bytes : Error
  arm_io_count provider_conflict contract not_round_trip struct_error out_of_fuel : Error

pub record Property : Type 0 where
  pub name : Str
  pub raw : Bytes

abbrev pub provider_name : Str
provider_name = text "charger,passthrough"

abbrev pub arm_io_name : Str
arm_io_name = text "arm-io"

-- `Node.get_property`: the first property of that name.
unfoldable pub get_property : Str → List Property → Option Property
get_property k [] = none
get_property k (p ∷ ps) = if p.name == k then some p else get_property k ps

abbrev or_raise {ℓ} : {A : Type ℓ} → Option A → Error → Result Error A
or_raise none e = raise e
or_raise (some a) e = ok a

has_nul : Bytes → Bool
has_nul = any (λ b. b == 0)

unfoldable pub decode_name : Bytes → Result Error Str
unfolding has_nul
decode_name field = do
  check (has_nul field) unterminated_name
  or_raise (decode_ascii (before_nul field)) name_not_ascii

-- value.endswith(b"\0"), and value[:-1]
drop_last_nul : Bytes → Option Bytes
drop_last_nul [] = none
drop_last_nul (b ∷ []) = if b == 0 then some [] else none
drop_last_nul (b ∷ c ∷ s) = elim (drop_last_nul (c ∷ s)) [ none ↦ none | some t ↦ some (b ∷ t) ]

unfoldable pub decode_string_property : Bytes → Result Error Str
unfolding drop_last_nul
decode_string_property raw = do
  check (leb 36 (length raw)) bad_string_property
  word ← or_raise (read_u32 (drop 32 raw)) struct_error
  let size = low31 word
  check (length raw == 36 + round_up4 size) bad_string_property
  value ← or_raise (drop_last_nul (take size (drop 36 raw))) not_c_string
  or_raise (decode_strict value) not_utf8

-- The property `Node.name`.
unfoldable pub node_name : Node Property → Result Error Str
node_name n = do
  p ← or_raise (get_property (text "name") (props n)) no_name
  decode_string_property p.raw

-- One round of the loop over the properties.
unfoldable pub parse_property : Bytes → Result Error (Property × Bytes)
parse_property d = do
  check (leb 36 (length d)) truncated_property_header
  name ← decode_name (take 32 d)
  word ← or_raise (read_u32 (drop 32 d)) struct_error
  let end = 36 + round_up4 (low31 word)
  check (leb end (length d)) truncated_property
  ok (record { name = name; raw = take end d }, drop end d)

unfoldable pub parse_properties : ℕ → Bytes → Result Error (List Property × Bytes)
parse_properties zero d = ok ([], d)
parse_properties (suc n) d = do
  (p, d₁) ← parse_property d
  (ps, d₂) ← parse_properties n d₁
  ok (p ∷ ps, d₂)

unfoldable pub parse_children :
    (Bytes → Result Error (Node Property × Bytes))
    → ℕ
    → Bytes
    → Result Error (Nodes Property × Bytes)
parse_children parse zero d = ok (Nodes.none, d)
parse_children parse (suc n) d = do
  (c, d₁) ← parse d
  (cs, d₂) ← parse_children parse n d₁
  ok (child c cs, d₂)

unfoldable pub parse_node : ℕ → Bytes → Result Error (Node Property × Bytes)
parse_node zero d = raise out_of_fuel
parse_node (suc fuel) d = do
  check (leb 8 (length d)) truncated_header
  property_count ← or_raise (read_u32 d) struct_error
  child_count ← or_raise (read_u32 (drop 4 d)) struct_error
  (ps, d₁) ← parse_properties property_count (drop 8 d)
  (cs, d₂) ← parse_children (parse_node fuel) child_count d₁
  ok (node ps cs, d₂)

unfoldable pub parse_tree : Bytes → Result Error (Node Property)
parse_tree d = do
  (root, rest) ← parse_node (suc (length d)) d
  check (length rest == 0) trailing_bytes
  ok root

unfoldable pub encode_properties : List Property → Bytes
encode_properties [] = []
encode_properties (p ∷ ps) = p.raw ++ encode_properties ps

-- struct.pack("<I", n)
unfoldable pub pack_u32 : ℕ → Result Error Bytes
pack_u32 n = if ltb n u32_mod then ok (le32 n) else raise struct_error

unfoldable mutual
  pub encode_node : Node Property → Result Error Bytes
  encode_node (node ps cs) = do
    a ← pack_u32 (length ps)
    b ← pack_u32 (count cs)
    rest ← encode_children cs
    ok (a ++ (b ++ (encode_properties ps ++ rest)))

  pub encode_children : Nodes Property → Result Error Bytes
  encode_children Nodes.none = ok []
  encode_children (child c cs) = do a ← encode_node c; b ← encode_children cs; ok (a ++ b)
