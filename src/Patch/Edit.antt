-- ===== src/Patch/Edit.antt =====
-- tools/dt_patch.py: the methods of `Node`, `find`, `parse_value` and the edits of `main`.
use darwin_vm.Prelude.{
  ℕ, suc, ◌^◌, ◌/◌, Bool, true, false, ◌||◌, List, [], ◌∷◌, ◌++◌, Option, none, some, length, drop,
  ltb, nat_eq, list_eq, ◌==◌, if◌then◌else◌,
}
use darwin_vm.Prelude.Result.{Result, ok, raise, ◌>>=◌}
use darwin_vm.Bytes.{Bytes, text, le32, before_nul}
use darwin_vm.Bytes.Utf8.{Str, decode_replace, encode}
use darwin_vm.PyInt.{ℤ, pos, negsuc, python_int, from_hex}
use darwin_vm.Text.{starts_with, partition, rpartition, split}
use darwin_vm.Tree.{Node, Nodes, node, child, children, props}
use darwin_vm.Patch.{Prop, Error, struct_error, value_error, no_node}
use darwin_vm.Patch.Codec.{decode, encode_node, pack_u32}

-- Node.get
unfoldable pub get : Str → List Prop → Option Bytes
get key [] = none
get key (p ∷ ps) = if p.name == key then some p.value else get key ps

-- Node.name: `none` is None.
unfoldable pub node_name : Node Prop → Option Str
node_name n = elim (get (text "name") (props n)) [
  | none ↦ none
  | some v ↦ some (decode_replace (before_nul v))
]

-- Node.set: the first property of that name keeps its place and its flags.
unfoldable pub set : Str → Bytes → List Prop → List Prop
set key val [] = record { name = key; flagged = false; value = val } ∷ []
set key val (p ∷ ps) = if p.name == key then record p { value = val } ∷ ps else p ∷ set key val ps

-- Node.delete: the properties that stay, and whether one went.
unfoldable pub delete : Str → List Prop → List Prop × Bool
delete key [] = ([], false)
delete key (p ∷ ps) =
    let (rest, found) = delete key ps in if p.name == key then (ps, true) else (p ∷ rest, found)

unfoldable pub has_name : Str → Node Prop → Bool
has_name k n = elim (node_name n) [ none ↦ false | some m ↦ m == k ]

-- Node.child
unfoldable pub child_named : Str → Nodes Prop → Option (Node Prop)
unfolding has_name
child_named k Nodes.none = none
child_named k (child c cs) = if has_name k c then some c else child_named k cs

-- find(root, path), the path split at "/"
unfoldable pub find : List Str → Node Prop → Result Error (Node Prop)
find [] n = ok n
find (part ∷ parts) n = elim (child_named part (children n)) [
  | none ↦ raise no_node
  | some c ↦ find parts c
]

-- A change of the node that `find` returns, in the tree that holds it.
unfoldable pub edit_child :
    Str → (Node Prop → Result Error (Node Prop)) → Nodes Prop → Result Error (Nodes Prop)
unfolding has_name
edit_child k f Nodes.none = raise no_node
edit_child k f (child c cs) =
    if has_name k c
    then (do c' ← f c; ok (child c' cs))
    else (do cs' ← edit_child k f cs; ok (child c cs'))

unfoldable pub edit_at :
    List Str → (List Prop → Result Error (List Prop)) → Node Prop → Result Error (Node Prop)
edit_at [] f (node ps cs) = do qs ← f ps; ok (node qs cs)
edit_at (part ∷ parts) f (node ps cs) = do
  ds ← edit_child part (edit_at parts f) cs
  ok (node ps ds)

-- struct.pack("<Q", n)
unfoldable pub pack_u64 : ℕ → Result Error Bytes
pack_u64 n = if ltb n (2 ^ 64) then ok (le32 n ++ le32 (n / 2 ^ 32)) else raise struct_error

pack_int : (ℕ → Result Error Bytes) → Option ℤ → Result Error Bytes
pack_int pack none = raise value_error
pack_int pack (some (negsuc n)) = raise struct_error
pack_int pack (some (pos n)) = pack n

or_value_error : Option Bytes → Result Error Bytes
or_value_error none = raise value_error
or_value_error (some b) = ok b

unfoldable pub parse_value : Str → Result Error Bytes
unfolding pack_int or_value_error
parse_value v =
    if v == text "NULL" || v == text "<NULL>" || v == []
    then ok []
    else if starts_with (text "u32:") v
    then pack_int pack_u32 (python_int (drop 4 v))
    else if starts_with (text "u64:") v
    then pack_int pack_u64 (python_int (drop 4 v))
    else if starts_with (text "hex:") v
    then or_value_error (from_hex (drop 4 v))
    else ok (encode v ++ 0 ∷ [])

-- -set PATH:KEY=VALUE
unfoldable pub apply_set : Str → Node Prop → Result Error (Node Prop)
apply_set s root =
    let (loc, val) = partition b'=' s in
    let (path, key) = rpartition b':' loc in
    edit_at (split b'/' path) (λ ps. do v ← parse_value val; ok (set key v ps)) root

-- -del PATH:KEY
unfoldable pub apply_del : Str → Node Prop → Result Error (Node Prop)
apply_del d root =
    let (path, key) = rpartition b':' d in
    edit_at (split b'/' path) (λ ps. ok (delete key ps).0) root

unfoldable pub apply_all :
    (Str → Node Prop → Result Error (Node Prop)) → List Str → Node Prop → Result Error (Node Prop)
apply_all f [] root = ok root
apply_all f (s ∷ ss) root = do changed ← f s root; apply_all f ss changed

-- main, from the bytes of the input file to those of the output file
unfoldable pub patch : List Str → List Str → Bytes → Result Error Bytes
patch sets dels buf = do
  (root, used) ← decode (suc (length buf)) buf
  changed ← apply_all apply_set sets root
  final ← apply_all apply_del dels changed
  encode_node final
