-- ===== src/Patch/Tests.antt =====
-- Runs on a small tree, and the theorems at it.
use darwin_vm.Prelude.{
  ℕ, suc, ◌+◌, ◌<◌, ◌≡◌, ◌≢◌, refl, List, [], ◌∷◌, ◌++◌, arith, length, take, drop, replicate,
  false, true, nat_eq, none,
}
use darwin_vm.Prelude.Result.{ok, raise}
use darwin_vm.Bytes.{Bytes, text, le32, read_u32, before_nul, round_up4}
use darwin_vm.Bytes.Utf8.{decode_replace, encode}
use darwin_vm.PyInt.{python_int}
use darwin_vm.Text.{starts_with, partition, rpartition, split}
use darwin_vm.Tree.{Node, Nodes, node, child}
use darwin_vm.Patch.{Prop}
use darwin_vm.Patch.Codec.{
  decode_prop, decode_props, decode_children, decode, encode_prop, encode_props, encode_node,
  pack_u32,
}
use darwin_vm.Patch.Edit.{
  get, set, node_name, has_name, edit_child, edit_at, parse_value, apply_set, apply_all, patch,
}
use darwin_vm.Patch.RoundTrip.{IsPlain, IsPlainTree, decode-encode_node, encode_prop_overrun}
use darwin_vm.Patch.Paths.{IsPatched, path_of, key_of, patch_nothing, patch_set}

abbrev name_prop : Bytes → Prop
name_prop v = record { name = text "name"; flagged = false; value = v }

-- arm-io/ans, with one flagged property.
abbrev ans : Node Prop
ans =
    node
      (name_prop (text "ans" ++ 0 ∷ [])
        ∷ record { name = text "reg"; flagged = true; value = 1 ∷ 2 ∷ 3 ∷ [] }
        ∷ [])
      Nodes.none

abbrev root : Node Prop
root = node [] (child ans Nodes.none)

abbrev root' : Node Prop
root' = node [] (
    child
      (node
        (name_prop (text "ans" ++ 0 ∷ [])
          ∷ record { name = text "reg"; flagged = true; value = 7 ∷ 0 ∷ 0 ∷ 0 ∷ [] }
          ∷ [])
        Nodes.none)
      Nodes.none)

-- The bytes of a tree that has some.
abbrev bytes_of : Node Prop → Bytes
bytes_of n = elim (encode_node n) [ ok b ↦ b | raise e ↦ [] ]

root_encodes : encode_node root ≡ ok (bytes_of root)
unfolding encode_node encode_props encode_prop pack_u32
root_encodes = refl

root-IsPlainTree : IsPlainTree root
unfolding IsPlainTree
root-IsPlainTree = (tt, (((plain_name, (plain_reg, tt)), tt), tt))
  where
    plain_name : IsPlain (name_prop (text "ans" ++ 0 ∷ []))
    plain_name = record {
      ascii = omega arith;
      no_nul = omega arith;
      short = omega arith;
      small = omega arith;
    }

    plain_reg : IsPlain (record { name = text "reg"; flagged = true; value = 1 ∷ 2 ∷ 3 ∷ [] })
    plain_reg = record {
      ascii = omega arith;
      no_nul = omega arith;
      short = omega arith;
      small = omega arith;
    }

decode-encode_node_example :
    decode (suc (length (bytes_of root ++ 9 ∷ []))) (bytes_of root ++ 9 ∷ []) ≡ ok (root, 9 ∷ [])
decode-encode_node_example =
    decode-encode_node root (bytes_of root) (9 ∷ []) root-IsPlainTree root_encodes

patch_nothing_example : patch [] [] (bytes_of root) ≡ ok (bytes_of root)
patch_nothing_example = patch_nothing root (bytes_of root) root-IsPlainTree root_encodes

abbrev set_reg : Bytes
set_reg = text "ans:reg=u32:0x7"

set_reg_runs : patch (set_reg ∷ []) [] (bytes_of root) ≡ ok (bytes_of root')
unfolding patch decode decode_children decode_props decode_prop take drop read_u32 le32 before_nul
    decode_replace encode replicate apply_all apply_set partition rpartition split edit_at
    edit_child has_name node_name get set parse_value starts_with python_int encode_node
    encode_props encode_prop pack_u32
set_reg_runs = refl

key_not_name : key_of set_reg ≢ text "name"
unfolding partition rpartition
key_not_name h = ground arith

patch_set_example :
    (after : Node Prop) × (encode_node after ≡ ok (bytes_of root'))
    × IsPatched
        (split b'/' (path_of set_reg))
        (key_of set_reg)
        (partition b'=' set_reg).1
        root
        after
patch_set_example =
    patch_set set_reg root (bytes_of root) (bytes_of root') key_not_name root-IsPlainTree
      root_encodes set_reg_runs

-- Eleven times U+FFFD, as `decode` reads a field that starts with eleven bytes 0xff.
abbrev wide : List ℕ
wide =
    0xfffd ∷ 0xfffd ∷ 0xfffd ∷ 0xfffd ∷ 0xfffd ∷ 0xfffd ∷ 0xfffd ∷ 0xfffd ∷ 0xfffd ∷ 0xfffd ∷ 0xfffd
    ∷ []

encode_prop_overrun_example :
    (bytes : Bytes) × (encode_prop (record { name = wide; flagged = false; value = [] }) ≡ ok bytes)
    × (length bytes ≡ length (encode wide) + 4 + round_up4 0)
    × (36 + round_up4 0 < length bytes)
unfolding encode
encode_prop_overrun_example =
    encode_prop_overrun (record { name = wide; flagged = false; value = [] }) (omega arith)
      (omega arith) (omega arith)

abbrev reg : List Prop
reg = record { name = text "reg"; flagged = true; value = 1 ∷ 2 ∷ 3 ∷ [] } ∷ []

reg_only : get (text "clock") reg ≡ none
unfolding get
reg_only = refl
