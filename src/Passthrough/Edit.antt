-- ===== src/Passthrough/Edit.antt =====
-- tools/re/power_passthrough_dt.py: the leaf, the search for `arm-io`, the mutation.
use darwin_vm.Prelude.{
  Bool, false, List, [], ◌∷◌, ◌++◌, length, nat_eq, list_eq, ◌==◌, if◌then◌else◌,
}
use darwin_vm.Prelude.Result.{Result, ok, raise, ◌>>=◌, ◌>>◌}
use darwin_vm.Bytes.{text, le32, round_up4, ljust}
use darwin_vm.Bytes.Utf8.{Str}
use darwin_vm.Tree.{Node, Nodes, node, child, props, children, snoc}
use darwin_vm.Passthrough.{
  Error, arm_io_count, provider_conflict, Property, provider_name, arm_io_name, node_name,
}

-- `string_property` at the ASCII texts of the tool, which are shorter than 32.
unfoldable pub string_property : Str → Str → Property
string_property name value = record {
  name = name;
  raw =
      let payload = value ++ 0 ∷ [] in
      ljust 32 name ++ (le32 (length payload) ++ ljust (round_up4 (length payload)) payload);
}

unfoldable pub provider_leaf : Node Property
unfolding string_property
provider_leaf =
    node
      (string_property (text "name") provider_name
        ∷ string_property (text "device_type") provider_name
        ∷ [])
      Nodes.none

-- The children of that name, in order; every child's name is read, and may raise.
unfoldable pub find_direct_child : Nodes Property → Str → Result Error (List (Node Property))
find_direct_child Nodes.none k = ok []
find_direct_child (child c cs) k = do
  n ← node_name c
  rest ← find_direct_child cs k
  ok (if n == k then c ∷ rest else rest)

unfoldable pub arm_io_node : Node Property → Result Error (Node Property)
arm_io_node root = do
  found ← find_direct_child (children root) arm_io_name
  elim found [ c ∷ [] ↦ ok c | _ ↦ raise arm_io_count ]

unfoldable pub reject_existing_provider : Node Property → Result Error (Unit {0})
reject_existing_provider arm_io = do
  found ← find_direct_child (children arm_io) provider_name
  elim found [ [] ↦ ok tt | _ ↦ raise provider_conflict ]

-- `arm_io.children.append(leaf)` on the child object that `arm_io_node` returned: the child named
-- `arm-io`, of which there is one.
unfoldable pub append_leaf : Node Property → Node Property
append_leaf (node ps cs) = node ps (snoc cs provider_leaf)

unfoldable pub is_arm_io : Node Property → Bool
is_arm_io c = elim (node_name c) [ ok n ↦ n == arm_io_name | raise e ↦ false ]

unfoldable pub update_arm_io : Nodes Property → Nodes Property
unfolding is_arm_io
update_arm_io Nodes.none = Nodes.none
update_arm_io (child c cs) =
    let rest = update_arm_io cs in if is_arm_io c then child (append_leaf c) rest else child c rest

unfoldable pub add_provider : Node Property → Result Error (Node Property)
add_provider root = do
  arm_io ← arm_io_node root
  reject_existing_provider arm_io
  ok (node (props root) (update_arm_io (children root)))
