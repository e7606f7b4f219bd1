-- ===== src/Passthrough/Contract.antt =====
-- tools/re/power_passthrough_dt.py: `assert_output_contract`, which compares the tree before and
-- after the mutation, and `generate`.
use darwin_vm.Prelude.{
  Bool, true, false, ◌&&◌, List, [], ◌∷◌, Option, none, some, arith, ◌↔◌, ◌≡◌, nat_eq, list_eq,
  ◌==◌, Eq, if◌then◌else◌, map, list_beq_iff,
}
use darwin_vm.Prelude.Result.{Result, ok, raise, ◌>>=◌, ◌>>◌, check}
use darwin_vm.Bytes.{Bytes, text}
use darwin_vm.Bytes.Utf8.{Str}
use darwin_vm.Tree.{Node, Nodes, node, child, props, children, count}
use darwin_vm.Passthrough.{
  Error, provider_conflict, contract, not_round_trip, Property, provider_name, get_property,
  decode_string_property, node_name, parse_tree, encode_node,
}
use darwin_vm.Passthrough.Edit.{arm_io_node, reject_existing_provider, is_arm_io, add_provider}

-- The equality that @dataclass gives `Property` and `Node`.
abbrev pub property_beq : Property → Property → Bool
property_beq p q = p.name == q.name && p.raw == q.raw

pub property_beq_iff : (p q : Property) → (property_beq p q ≡ true) ↔ (p ≡ q)
property_beq_iff p q = ground (arith, list_beq_iff p.name q.name, list_beq_iff p.raw q.raw)

instance abbrev pub property_eq : Eq Property
property_eq = record { same = property_beq; same_iff = property_beq_iff }

unfoldable mutual
  pub node_beq : Node Property → Node Property → Bool
  node_beq (node ps cs) (node qs ds) = ps == qs && nodes_beq cs ds

  pub nodes_beq : Nodes Property → Nodes Property → Bool
  nodes_beq Nodes.none Nodes.none = true
  nodes_beq (child c cs) (child d ds) = node_beq c d && nodes_beq cs ds
  nodes_beq _ _ = false

-- children[:-1], and children[-1]
unfoldable pub but_last : Nodes Property → Nodes Property
but_last Nodes.none = Nodes.none
but_last (child c Nodes.none) = Nodes.none
but_last (child c (child d ds)) = child c (but_last (child d ds))

unfoldable pub last? : Nodes Property → Option (Node Property)
last? Nodes.none = none
last? (child c Nodes.none) = some c
last? (child c (child d ds)) = last? (child d ds)

lacks : Str → List Property → Bool
lacks k ps = elim (get_property k ps) [ none ↦ true | some p ↦ false ]

device_type_of : List Property → Result Error Str
device_type_of ps = elim (get_property (text "device_type") ps) [
  | none ↦ raise contract
  | some p ↦ decode_string_property p.raw
]

-- The checks of the leaf, in order.
unfoldable pub check_leaf : Option (Node Property) → Result Error (Unit {0})
unfolding lacks device_type_of
check_leaf none = raise contract
check_leaf (some leaf) = do
  n ← node_name leaf
  check (n == provider_name) contract
  check (count (children leaf) == 0) contract
  check (map (λ (p : Property). p.name) (props leaf) == text "name" ∷ text "device_type" ∷ [])
      contract
  check
      (lacks (text "compatible") (props leaf)
        && (lacks (text "reg") (props leaf) && lacks (text "interrupts") (props leaf)))
      contract
  device_type ← device_type_of (props leaf)
  check (device_type == provider_name) contract

-- `compare` at the node that is `original_arm_io`.
unfoldable pub compare_arm_io : Node Property → Node Property → Result Error (Unit {0})
compare_arm_io before after = do
  check (props before == props after) contract
  check (nodes_beq (but_last (children after)) (children before)) contract
  check_leaf (last? (children after))

-- `compare` at any other node, and its loop over the children.
unfoldable mutual
  pub compare_node : Node Property → Node Property → Result Error (Unit {0})
  compare_node (node ps cs) (node qs ds) = do
    check (ps == qs) contract
    check (count cs == count ds) contract
    compare_children cs ds

  pub compare_children : Nodes Property → Nodes Property → Result Error (Unit {0})
  compare_children (child c cs) (child d ds) = do
    m ← node_name c
    n ← node_name d
    check (m == n) contract
    compare_node c d
    compare_children cs ds
  compare_children _ _ = ok tt

-- The loop at the root, whose one child of that name is `original_arm_io`.
unfoldable pub compare_root_children : Nodes Property → Nodes Property → Result Error (Unit {0})
compare_root_children (child c cs) (child d ds) = do
  m ← node_name c
  n ← node_name d
  check (m == n) contract
  (if is_arm_io c then compare_arm_io c d else compare_node c d)
  compare_root_children cs ds
compare_root_children _ _ = ok tt

unfoldable pub compare_root : Node Property → Node Property → Result Error (Unit {0})
compare_root original output = do
  check (props original == props output) contract
  check (count (children original) == count (children output)) contract
  compare_root_children (children original) (children output)

-- `try: reject… except ProviderConflict: return`, else the last error.
expect_conflict : Result Error (Unit {0}) → Result Error (Unit {0})
expect_conflict (ok u) = raise contract
expect_conflict (raise e) = elim e [ provider_conflict ↦ ok tt | other ↦ raise other ]

unfoldable pub assert_output_contract : Node Property → Node Property → Result Error (Unit {0})
unfolding expect_conflict
assert_output_contract original output = do
  original_arm_io ← arm_io_node original
  output_arm_io ← arm_io_node output
  compare_root original output
  expect_conflict (reject_existing_provider output_arm_io)

unfoldable pub generate : Bytes → Result Error Bytes
generate source = do
  original ← parse_tree source
  output ← parse_tree source
  changed ← add_provider output
  encoded ← encode_node changed
  reparsed ← parse_tree encoded
  again ← encode_node reparsed
  check (again == encoded) not_round_trip
  assert_output_contract original reparsed
  ok encoded
