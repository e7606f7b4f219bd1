-- ===== src/Passthrough/Tests.antt =====
-- Runs on a small tree, and the theorems at it.
use darwin_vm.Prelude.{◌≡◌, refl, [], ◌∷◌, ◌++◌, All, arith, take, drop}
use darwin_vm.Prelude.Result.{ok, raise}
use darwin_vm.Bytes.{Bytes, IsByte, text, le32, read_u32, before_nul}
use darwin_vm.Bytes.Utf8.{decode_ascii, decode_strict}
use darwin_vm.Tree.{Node, Nodes, node, child, children}
use darwin_vm.Passthrough.{
  Property, provider_conflict, truncated_property, get_property, decode_name,
  decode_string_property, node_name, parse_property, parse_properties, parse_children, parse_node,
  parse_tree, encode_properties, encode_node, pack_u32,
}
use darwin_vm.Passthrough.Edit.{
  find_direct_child, arm_io_node, reject_existing_provider, append_leaf, is_arm_io, update_arm_io,
  add_provider,
}
use darwin_vm.Passthrough.Lossless.{encode_node-parse_tree}
use darwin_vm.Passthrough.RoundTrip.{parse_tree-encode_node, parse_tree-IsFramedTree}
use darwin_vm.Passthrough.Contract.{generate}
use darwin_vm.Passthrough.Generate.{
  Generated, IsComparable, IsNamedTree, generate_succeeds, generate_twice,
}

-- The record of a property, byte by byte.
abbrev field : Bytes → Bytes → Bytes → Bytes
field name size value = name ++ (size ++ value)

abbrev name_field : Bytes
name_field =
    110 ∷ 97 ∷ 109 ∷ 101 ∷ 0 ∷ 0 ∷ 0 ∷ 0 ∷ 0 ∷ 0 ∷ 0 ∷ 0 ∷ 0 ∷ 0 ∷ 0 ∷ 0 ∷ 0 ∷ 0 ∷ 0 ∷ 0 ∷ 0 ∷ 0 ∷ 0
    ∷ 0 ∷ 0 ∷ 0 ∷ 0 ∷ 0 ∷ 0 ∷ 0 ∷ 0 ∷ 0 ∷ []

-- A root with no property and the child `arm-io`, whose only property is its name.
abbrev source : Bytes
source =
    0
    ∷ 0
    ∷ 0
    ∷ 0
    ∷ 1
    ∷ 0
    ∷ 0
    ∷ 0
    ∷ 1
    ∷ 0
    ∷ 0
    ∷ 0
    ∷ 0
    ∷ 0
    ∷ 0
    ∷ 0
    ∷ field name_field (7 ∷ 0 ∷ 0 ∷ 0 ∷ []) (text "arm-io" ++ 0 ∷ 0 ∷ [])

abbrev arm_io_leaf : Node Property
arm_io_leaf =
    node
      (record {
        name = text "name";
        raw = field name_field (7 ∷ 0 ∷ 0 ∷ 0 ∷ []) (text "arm-io" ++ 0 ∷ 0 ∷ []);
      }
        ∷ [])
      Nodes.none

abbrev root : Node Property
root = node [] (child arm_io_leaf Nodes.none)

abbrev changed : Node Property
changed = node [] (child (append_leaf arm_io_leaf) Nodes.none)

source_parses : parse_tree source ≡ ok root
unfolding parse_tree parse_node parse_children parse_properties parse_property decode_name take drop
    read_u32 before_nul decode_ascii
source_parses = refl

root_encodes : encode_node root ≡ ok source
unfolding encode_node pack_u32 encode_properties le32
root_encodes = refl

provider_added : add_provider root ≡ ok changed
unfolding add_provider arm_io_node reject_existing_provider find_direct_child update_arm_io
    is_arm_io node_name get_property decode_string_property decode_strict take drop read_u32
provider_added = refl

source_bytes : All IsByte source
source_bytes = omega arith

root-IsComparable : IsComparable (children root)
unfolding IsComparable IsNamedTree
root-IsComparable = ((λ _. tt), tt)

generate_succeeds_example : (out : Bytes) × Generated source out changed
generate_succeeds_example =
    generate_succeeds source root changed source_bytes (omega arith) source_parses provider_added
      root-IsComparable

-- A run, for the second one to start from.
first_run : (out : Bytes) × Generated source out changed
first_run =
    generate_succeeds source root changed source_bytes (omega arith) source_parses provider_added
      root-IsComparable

generate_twice_example : generate first_run.0 ≡ raise provider_conflict
generate_twice_example = generate_twice source first_run.0 first_run.1.returned

encode_node-parse_tree_example : encode_node root ≡ ok source
encode_node-parse_tree_example = encode_node-parse_tree source root source_bytes source_parses

parse_tree-encode_node_example : parse_tree source ≡ ok root
parse_tree-encode_node_example =
    parse_tree-encode_node root source (parse_tree-IsFramedTree source root source_parses)
      root_encodes

cut_short : parse_tree (take 55 source) ≡ raise truncated_property
unfolding parse_tree parse_node parse_children parse_properties parse_property decode_name take drop
    read_u32 before_nul decode_ascii
cut_short = refl
