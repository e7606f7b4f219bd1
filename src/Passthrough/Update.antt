-- ===== src/Passthrough/Update.antt =====
-- The mutation: what it keeps, and what the encoding of the tree grows by.
use mathlib.Core.List.{append_assoc, append-nil}
use darwin_vm.Prelude.{
  ℕ, ◌+◌, ◌≤◌, ◌<◌, ◌*◌, ◌≡◌, inl, inr, refl, sym, ap, ◌∙◌, List, [], ◌∷◌, ◌++◌, arith, length,
  length-append, nat_eq, if◌then◌else◌, Bool-cases, list_eq, ==_refl, map,
}
use darwin_vm.Prelude.Result.{Result, ok, Result-cases}
use darwin_vm.Bytes.{Bytes, u32_mod}
use darwin_vm.Bytes.Words.{below_length}
use darwin_vm.Bytes.Utf8.{Str}
use darwin_vm.Tree.{Node, Nodes, node, child, count, snoc, count-snoc}
use darwin_vm.Passthrough.{
  Error, Property, provider_name, arm_io_name, node_name, encode_properties, encode_node,
  encode_children,
}
use darwin_vm.Passthrough.Edit.{
  provider_leaf, find_direct_child, append_leaf, is_arm_io, update_arm_io,
}
use darwin_vm.Passthrough.Leaf.{
  provider_leaf-IsFramedTree, provider_leaf-name, leaf_size, encode_node-provider_leaf,
}
use darwin_vm.Passthrough.Lossless.{encode_node_of}
use darwin_vm.Passthrough.RoundTrip.{
  IsFramedTree, IsFramedForest, encode_node_inv, encode_children_inv,
}

pub node_name-append_leaf : (n : Node Property) → node_name (append_leaf n) ≡ node_name n
unfolding append_leaf node_name
node_name-append_leaf (node ps cs) = refl

pub is_arm_io-append_leaf : (n : Node Property) → is_arm_io (append_leaf n) ≡ is_arm_io n
unfolding is_arm_io
is_arm_io-append_leaf n = rw (node_name-append_leaf n, is_arm_io)

-- One step of the search for `arm-io`.
pub record Found (c : Node Property) (cs : Nodes Property) (l : List (Node Property)) : Type 0 where
  pub name : Str
  pub named : node_name c ≡ ok name
  pub below : List (Node Property)
  pub searched : find_direct_child cs arm_io_name ≡ ok below
  pub listed : l ≡ (if is_arm_io c then c ∷ below else below)

pub find_arm_io_inv :
    (c : Node Property) (cs : Nodes Property) {l : List (Node Property)}
    → find_direct_child (child c cs) arm_io_name ≡ ok l
    → Found c cs l
unfolding find_direct_child is_arm_io
find_arm_io_inv c cs {l} h = elim (Result-cases (node_name c)) [
  | inr (x, e) ↦ absurd (ground arith)
  | inl (n, e) ↦ elim (Result-cases (find_direct_child cs arm_io_name)) [
    | inr (x, e') ↦ absurd (ground arith)
    | inl (r, e') ↦ record { name = n; named = e; below = r; searched = e'; listed = ground arith }
  ]
]

find_arm_io_step :
    (c : Node Property) (cs : Nodes Property) {n : Str} {r : List (Node Property)}
    → node_name c ≡ ok n
    → find_direct_child cs arm_io_name ≡ ok r
    → find_direct_child (child c cs) arm_io_name ≡ ok (if is_arm_io c then c ∷ r else r)
unfolding find_direct_child is_arm_io
find_arm_io_step c cs h k = ground arith

-- The names stay, so the search finds the same children, with their leaf.
pub find_direct_child-update_arm_io :
    (cs : Nodes Property) (l : List (Node Property))
    → find_direct_child cs arm_io_name ≡ ok l
    → find_direct_child (update_arm_io cs) arm_io_name ≡ ok (map append_leaf l)
unfolding update_arm_io
find_direct_child-update_arm_io Nodes.none l h = unfold find_direct_child in ground arith
find_direct_child-update_arm_io (child c cs) l h =
    let f = find_arm_io_inv c cs h in
    let ih = find_direct_child-update_arm_io cs f.below f.searched in
    elim (Bool-cases (is_arm_io c)) [
      | inl t ↦
          rw
            (
              t,
              find_arm_io_step (append_leaf c) (update_arm_io cs)
                  (node_name-append_leaf c ∙ f.named) ih,
            )
            (ground (arith, f.listed, is_arm_io-append_leaf c))
      | inr t ↦ rw (t, find_arm_io_step c (update_arm_io cs) f.named ih) (ground (arith, f.listed))
    ]

pub find_direct_child-snoc :
    (cs : Nodes Property) (l : List (Node Property))
    → find_direct_child cs provider_name ≡ ok l
    → find_direct_child (snoc cs provider_leaf) provider_name ≡ ok (l ++ provider_leaf ∷ [])
unfolding find_direct_child
find_direct_child-snoc Nodes.none l h =
    rw provider_leaf-name (ground (arith, ==_refl provider_name))
find_direct_child-snoc (child c cs) l h = elim (Result-cases (node_name c)) [
  | inr (x, e) ↦ absurd (ground arith)
  | inl (n, e) ↦ elim (Result-cases (find_direct_child cs provider_name)) [
    | inr (x, e') ↦ absurd (ground arith)
    | inl (r, e') ↦ ground (arith, find_direct_child-snoc cs r e')
  ]
]

pub count-update_arm_io : (cs : Nodes Property) → count (update_arm_io cs) ≡ count cs
unfolding update_arm_io
count-update_arm_io Nodes.none = refl
count-update_arm_io (child c cs) = ground (arith, count-update_arm_io cs)

snoc-IsFramedForest :
    (cs : Nodes Property) (n : Node Property)
    → IsFramedForest cs
    → IsFramedTree n
    → IsFramedForest (snoc cs n)
unfolding IsFramedTree
snoc-IsFramedForest Nodes.none n w v = (v, tt)
snoc-IsFramedForest (child c cs) n w v = (w.0, snoc-IsFramedForest cs n w.1 v)

append_leaf-IsFramedTree : (n : Node Property) → IsFramedTree n → IsFramedTree (append_leaf n)
unfolding IsFramedTree append_leaf
append_leaf-IsFramedTree (node ps cs) w =
    (w.0, snoc-IsFramedForest cs provider_leaf w.1 provider_leaf-IsFramedTree)

pub update_arm_io-IsFramedForest :
    (cs : Nodes Property) → IsFramedForest cs → IsFramedForest (update_arm_io cs)
unfolding IsFramedTree update_arm_io
update_arm_io-IsFramedForest Nodes.none w = tt
update_arm_io-IsFramedForest (child c cs) w = elim (Bool-cases (is_arm_io c)) [
  | inl e ↦ rw e (append_leaf-IsFramedTree c w.0, update_arm_io-IsFramedForest cs w.1)
  | inr e ↦ rw e (w.0, update_arm_io-IsFramedForest cs w.1)
]

-- A node takes 8 bytes at least, so the number of children is small beside the length.
encode_node_min : (n : Node Property) {bytes : Bytes} → encode_node n ≡ ok bytes → 8 ≤ length bytes
encode_node_min (node ps cs) {bytes} e =
    let (below, _, _, _, split) = encode_node_inv ps cs e in
    omega (arith, ap length split, below_length (length ps) (count cs) (encode_properties ps) below)

encode_children_min :
    (cs : Nodes Property) {bytes : Bytes}
    → encode_children cs ≡ ok bytes
    → 8 * count cs ≤ length bytes
encode_children_min Nodes.none e = omega arith
encode_children_min (child c cs) {bytes} e =
    let (a, b, e₁, e₂, split) = encode_children_inv c cs e in
    omega
      (arith, ap length split, length-append a b, encode_node_min c e₁, encode_children_min cs e₂)

encode_children_of :
    (c : Node Property) (cs : Nodes Property) {a b : Bytes}
    → encode_node c ≡ ok a
    → encode_children cs ≡ ok b
    → encode_children (child c cs) ≡ ok (a ++ b)
unfolding encode_node
encode_children_of c cs h k = ground arith

snoc_encodes :
    (cs : Nodes Property) (n : Node Property) (leaf : Bytes) {bytes : Bytes}
    → encode_node n ≡ ok leaf
    → encode_children cs ≡ ok bytes
    → encode_children (snoc cs n) ≡ ok (bytes ++ leaf)
unfolding encode_node
snoc_encodes Nodes.none n leaf e h = ground (arith, append-nil leaf)
snoc_encodes (child c cs) n leaf e h =
    let (a, b, e₁, e₂, split) = encode_children_inv c cs h in
    encode_children_of c (snoc cs n) e₁ (snoc_encodes cs n leaf e e₂)
    ∙ ap ok (sym (append_assoc a b leaf) ∙ ap (λ (z : Bytes). z ++ leaf) (sym split))

-- An encoding, and by how much it is longer than another.
pub record Grown (o : Result Error Bytes) (n : ℕ) : Type 0 where
  pub out : Bytes
  pub encodes : o ≡ ok out
  pub grown : length out ≡ n

append_leaf_encodes :
    (n : Node Property) {bytes : Bytes}
    → encode_node n ≡ ok bytes
    → length bytes < u32_mod
    → Grown (encode_node (append_leaf n)) (length bytes + leaf_size)
unfolding append_leaf
append_leaf_encodes (node ps cs) {bytes} e h =
    let (below, e₁, hp, hc, split) = encode_node_inv ps cs e in
    let (leaf, el, long) = encode_node-provider_leaf in
    let more = snoc cs provider_leaf in
    let few = encode_children_min cs e₁ in
    let whole = below_length (length ps) (count cs) (encode_properties ps) below in
    record {
      out = _;
      encodes =
          encode_node_of (node ps more) (below ++ leaf) hp
            (omega (arith, count-snoc cs provider_leaf, few, whole, ap length split))
            (snoc_encodes cs provider_leaf leaf el e₁);
      grown = omega (
        arith,
        below_length (length ps) (count more) (encode_properties ps) (below ++ leaf),
        whole,
        ap length split,
        length-append below leaf,
        long,
      );
    }

pub update_arm_io_encodes :
    (cs : Nodes Property) (l : List (Node Property)) {bytes : Bytes}
    → find_direct_child cs arm_io_name ≡ ok l
    → encode_children cs ≡ ok bytes
    → length bytes < u32_mod
    → Grown (encode_children (update_arm_io cs)) (length bytes + leaf_size * length l)
unfolding update_arm_io
update_arm_io_encodes Nodes.none l {bytes} f e h = record {
  out = bytes;
  encodes = e;
  grown = unfold find_direct_child in ground arith;
}
update_arm_io_encodes (child c cs) l {bytes} f e h =
    let q = find_arm_io_inv c cs f in
    let (a, b, e₁, e₂, split) = encode_children_inv c cs e in
    let rest =
      update_arm_io_encodes cs q.below q.searched e₂
        (omega (arith, ap length split, length-append a b)) in
    let big = append_leaf_encodes c e₁ (omega (arith, ap length split, length-append a b)) in
    elim (Bool-cases (is_arm_io c)) [
      | inl t ↦ rw t (record {
        out = big.out ++ rest.out;
        encodes = encode_children_of (append_leaf c) (update_arm_io cs) big.encodes rest.encodes;
        grown = ground (
          arith,
          q.listed,
          ap length split,
          length-append a b,
          length-append big.out rest.out,
          big.grown,
          rest.grown,
        );
      })
      | inr t ↦ rw t (record {
        out = a ++ rest.out;
        encodes = encode_children_of c (update_arm_io cs) e₁ rest.encodes;
        grown = ground (
          arith,
          q.listed,
          ap length split,
          length-append a b,
          length-append a rest.out,
          rest.grown,
        );
      })
    ]
