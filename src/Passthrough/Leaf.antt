-- ===== src/Passthrough/Leaf.antt =====
-- tools/re/power_passthrough_dt.py: the leaf that the tool appends.
use darwin_vm.Prelude.{ℕ, ◌≡◌, refl, [], some, length, nat_eq, list_eq, take, drop, replicate}
use darwin_vm.Prelude.Result.{ok}
use darwin_vm.Bytes.{Bytes, le32, text, read_u32, before_nul}
use darwin_vm.Bytes.Utf8.{decode_ascii, decode_strict}
use darwin_vm.Passthrough.{
  provider_name, node_name, parse_property, encode_properties, encode_node, pack_u32, decode_name,
  get_property, decode_string_property,
}
use darwin_vm.Passthrough.Edit.{string_property, provider_leaf}
use darwin_vm.Passthrough.RoundTrip.{parse_property-IsFramed, IsFramed, IsFramedTree}
use darwin_vm.Passthrough.Contract.{property_eq, check_leaf}

-- The leaf's two properties, and its name.
name_IsFramed : IsFramed (string_property (text "name") provider_name)
name_IsFramed = parse_property-IsFramed (string_property (text "name") provider_name).raw {r = []} (
    unfold string_property parse_property decode_name take drop replicate le32 read_u32 before_nul
      decode_ascii in
    refl)

device_type_IsFramed : IsFramed (string_property (text "device_type") provider_name)
device_type_IsFramed =
    parse_property-IsFramed (string_property (text "device_type") provider_name).raw {r = []} (
      unfold string_property parse_property decode_name take drop replicate le32 read_u32 before_nul
        decode_ascii in
      refl)

pub provider_leaf-IsFramedTree : IsFramedTree provider_leaf
unfolding provider_leaf IsFramedTree
provider_leaf-IsFramedTree = ((name_IsFramed, (device_type_IsFramed, tt)), tt)

pub provider_leaf-name : node_name provider_leaf ≡ ok provider_name
unfolding node_name provider_leaf get_property decode_string_property take drop replicate le32
    read_u32 decode_strict
provider_leaf-name = refl

pub check_leaf-provider_leaf : check_leaf (some provider_leaf) ≡ ok tt
unfolding check_leaf node_name provider_leaf get_property decode_string_property take drop replicate
    le32 read_u32 decode_strict
check_leaf-provider_leaf = refl

abbrev pub leaf_size : ℕ
leaf_size = 120

pub encode_node-provider_leaf :
    (bytes : Bytes) × (encode_node provider_leaf ≡ ok bytes) × (length bytes ≡ leaf_size)
unfolding provider_leaf encode_node pack_u32 encode_properties replicate le32
encode_node-provider_leaf = (_, refl, refl)
