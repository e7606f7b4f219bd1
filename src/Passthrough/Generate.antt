-- ===== src/Passthrough/Generate.antt =====
-- tools/re/power_passthrough_dt.py: `generate` on a tree, and on its own output.
use darwin_vm.Prelude.{
  ◌+◌, ◌<◌, ◌≡◌, inl, inr, refl, ap, true, false, List, [], ◌∷◌, some, arith, length, All, nat_eq,
  Bool-cases, list_eq, ==_refl,
}
use darwin_vm.Prelude.Result.{ok, raise, Result-cases}
use darwin_vm.Bytes.{Bytes, IsByte, u32_mod}
use darwin_vm.Bytes.Words.{below_length}
use darwin_vm.Bytes.Utf8.{Str}
use darwin_vm.Tree.{Node, Nodes, node, child, count, props, children, snoc}
use darwin_vm.Passthrough.{
  provider_conflict, Property, provider_name, arm_io_name, node_name, parse_tree, encode_properties,
  encode_node,
}
use darwin_vm.Passthrough.Edit.{
  provider_leaf, find_direct_child, arm_io_node, reject_existing_provider, append_leaf, is_arm_io,
  update_arm_io, add_provider,
}
use darwin_vm.Passthrough.Leaf.{check_leaf-provider_leaf, leaf_size}
use darwin_vm.Passthrough.Update.{
  find_arm_io_inv, find_direct_child-update_arm_io, find_direct_child-snoc, count-update_arm_io,
  update_arm_io-IsFramedForest, Grown, update_arm_io_encodes, node_name-append_leaf,
}
use darwin_vm.Passthrough.Lossless.{encode_node-parse_tree, encode_node_of}
use darwin_vm.Passthrough.RoundTrip.{
  IsFramedTree, parse_tree-encode_node, parse_tree-IsFramedTree, encode_node_inv,
}
use darwin_vm.Passthrough.Contract.{
  property_eq, node_beq, nodes_beq, but_last, last?, compare_arm_io, compare_node, compare_children,
  compare_root_children, compare_root, assert_output_contract, generate,
}

-- Every node of the forest has a name that can be read.
unfoldable mutual
  pub IsNamedTree : Node Property → Type 0
  IsNamedTree (node ps cs) = ((n : Str) × (node_name (node ps cs) ≡ ok n)) × IsNamedForest cs

  pub IsNamedForest : Nodes Property → Type 0
  IsNamedForest Nodes.none = Unit
  IsNamedForest (child c cs) = IsNamedTree c × IsNamedForest cs

-- The children of the root other than `arm-io`: all below them is named.
unfoldable pub IsComparable : Nodes Property → Type 0
IsComparable Nodes.none = Unit
IsComparable (child c cs) = (is_arm_io c ≡ false → IsNamedForest (children c)) × IsComparable cs

mutual
  unfolding node_beq

  node_beq_refl : (n : Node Property) → node_beq n n ≡ true
  node_beq_refl (node ps cs) = rw (==_refl ps) (nodes_beq_refl cs)

  nodes_beq_refl : (cs : Nodes Property) → nodes_beq cs cs ≡ true
  nodes_beq_refl Nodes.none = refl
  nodes_beq_refl (child c cs) = rw (node_beq_refl c) (nodes_beq_refl cs)

but_last-snoc : (cs : Nodes Property) (n : Node Property) → but_last (snoc cs n) ≡ cs
unfolding but_last
but_last-snoc Nodes.none n = refl
but_last-snoc (child c Nodes.none) n = refl
but_last-snoc (child c (child d ds)) n = ap (child c) (but_last-snoc (child d ds) n)

last?-snoc : (cs : Nodes Property) (n : Node Property) → last? (snoc cs n) ≡ some n
unfolding last?
last?-snoc Nodes.none n = refl
last?-snoc (child c Nodes.none) n = refl
last?-snoc (child c (child d ds)) n = last?-snoc (child d ds) n

compare_arm_io-append_leaf : (n : Node Property) → compare_arm_io n (append_leaf n) ≡ ok tt
unfolding compare_arm_io append_leaf
compare_arm_io-append_leaf (node ps cs) =
    rw (==_refl ps, but_last-snoc cs provider_leaf, nodes_beq_refl cs, last?-snoc cs provider_leaf)
      check_leaf-provider_leaf

mutual
  unfolding compare_node IsNamedTree

  compare_node_refl : (n : Node Property) → IsNamedForest (children n) → compare_node n n ≡ ok tt
  compare_node_refl (node ps cs) h =
      rw (==_refl ps, ==_refl (count cs)) (compare_children_refl cs h)

  compare_children_refl : (cs : Nodes Property) → IsNamedForest cs → compare_children cs cs ≡ ok tt
  compare_children_refl Nodes.none h = refl
  compare_children_refl (child (node ps ds) cs) h =
      rw (h.0.0.1, ==_refl h.0.0.0, compare_node_refl (node ps ds) h.0.1)
        (compare_children_refl cs h.1)

compare_root_children-update_arm_io :
    (cs : Nodes Property) (l : List (Node Property))
    → find_direct_child cs arm_io_name ≡ ok l
    → IsComparable cs
    → compare_root_children cs (update_arm_io cs) ≡ ok tt
unfolding compare_root_children update_arm_io IsComparable
compare_root_children-update_arm_io Nodes.none l f h = refl
compare_root_children-update_arm_io (child c cs) l f h =
    let q = find_arm_io_inv c cs f in
    let ih = compare_root_children-update_arm_io cs q.below q.searched h.1 in
    elim (Bool-cases (is_arm_io c)) [
      | inl t ↦
          rw (t, node_name-append_leaf c, q.named, ==_refl q.name, t, compare_arm_io-append_leaf c)
            ih
      | inr t ↦ rw (t, q.named, ==_refl q.name, t, compare_node_refl c (h.0 t)) ih
    ]

-- What a successful `add_provider` found, and what it made.
pub record Added (root changed : Node Property) : Type 0 where
  pub arm_io : Node Property
  pub unique : find_direct_child (children root) arm_io_name ≡ ok (arm_io ∷ [])
  pub absent : find_direct_child (children arm_io) provider_name ≡ ok []
  pub result : changed ≡ node (props root) (update_arm_io (children root))

pub add_provider_inv :
    (root : Node Property) {changed : Node Property}
    → add_provider root ≡ ok changed
    → Added root changed
unfolding add_provider arm_io_node reject_existing_provider
add_provider_inv root {changed} h =
    elim (Result-cases (find_direct_child (children root) arm_io_name)) [
      | inr (x, e) ↦ absurd (ground arith)
      | inl ([], e) ↦ absurd (ground arith)
      | inl (a ∷ b ∷ l, e) ↦ absurd (ground arith)
      | inl (a ∷ [], e) ↦ elim (Result-cases (find_direct_child (children a) provider_name)) [
        | inr (x, e') ↦ absurd (ground arith)
        | inl (b ∷ l, e') ↦ absurd (ground arith)
        | inl ([], e') ↦ record { arm_io = a; unique = e; absent = e'; result = ground arith }
      ]
    ]

reject-append_leaf :
    (n : Node Property)
    → find_direct_child (children n) provider_name ≡ ok []
    → reject_existing_provider (append_leaf n) ≡ raise provider_conflict
unfolding reject_existing_provider append_leaf
reject-append_leaf (node ps cs) h = rw (find_direct_child-snoc cs [] h)

update_root_encodes :
    (root arm_io : Node Property) (bytes : Bytes)
    → find_direct_child (children root) arm_io_name ≡ ok (arm_io ∷ [])
    → encode_node root ≡ ok bytes
    → length bytes < u32_mod
    → Grown
        (encode_node (node (props root) (update_arm_io (children root))))
        (length bytes + leaf_size)
update_root_encodes (node ps cs) arm_io bytes f e h =
    let (below, e₁, hp, hc, split) = encode_node_inv ps cs e in
    let whole = below_length (length ps) (count cs) (encode_properties ps) below in
    let more = update_arm_io cs in
    let g = update_arm_io_encodes cs (arm_io ∷ []) f e₁ (omega (arith, whole, ap length split)) in
    record {
      out = _;
      encodes =
          encode_node_of (node ps more) g.out hp (omega (arith, count-update_arm_io cs)) g.encodes;
      grown = omega (
        arith,
        below_length (length ps) (count more) (encode_properties ps) g.out,
        whole,
        ap length split,
        g.grown,
      );
    }

update_root-IsFramedTree :
    (root : Node Property)
    → IsFramedTree root
    → IsFramedTree (node (props root) (update_arm_io (children root)))
unfolding IsFramedTree
update_root-IsFramedTree (node ps cs) w = (w.0, update_arm_io-IsFramedForest cs w.1)

module _ {root changed : Node Property} (a : Added root changed) where
  arm_io_changed : arm_io_node changed ≡ ok (append_leaf a.arm_io)
  unfolding arm_io_node
  arm_io_changed =
      rw a.result (rw (find_direct_child-update_arm_io (children root) (a.arm_io ∷ []) a.unique))

  changed_conflicts : add_provider changed ≡ raise provider_conflict
  unfolding add_provider
  changed_conflicts = rw (arm_io_changed, reject-append_leaf a.arm_io a.absent)

  contract_holds : IsComparable (children root) → assert_output_contract root changed ≡ ok tt
  unfolding assert_output_contract arm_io_node compare_root
  contract_holds named = rw (
    a.unique,
    arm_io_changed,
    a.result,
    ==_refl (props root),
    count-update_arm_io (children root),
    ==_refl (count (children root)),
    compare_root_children-update_arm_io (children root) (a.arm_io ∷ []) a.unique named,
    reject-append_leaf a.arm_io a.absent,
  )

  changed_encodes :
      (bytes : Bytes)
      → encode_node root ≡ ok bytes
      → length bytes < u32_mod
      → Grown (encode_node changed) (length bytes + leaf_size)
  changed_encodes bytes e h = rw a.result (update_root_encodes root a.arm_io bytes a.unique e h)

  changed-IsFramedTree : IsFramedTree root → IsFramedTree changed
  changed-IsFramedTree w = rw a.result (update_root-IsFramedTree root w)

generate_runs :
    (source : Bytes) (root changed : Node Property) (out : Bytes)
    → parse_tree source ≡ ok root
    → add_provider root ≡ ok changed
    → encode_node changed ≡ ok out
    → parse_tree out ≡ ok changed
    → assert_output_contract root changed ≡ ok tt
    → generate source ≡ ok out
unfolding generate
generate_runs source root changed out p a e r c = rw (p, a, e, r, e, ==_refl out, c)

-- What a run of `generate` on `source` leaves.
pub record Generated (source out : Bytes) (changed : Node Property) : Type 0 where
  pub returned : generate source ≡ ok out
  pub reparsed : parse_tree out ≡ ok changed
  pub grown : length out ≡ length source + leaf_size

-- On every tree below 4 GiB that parses, has one `arm-io` and no provider yet, and whose other nodes
-- are named, `generate` returns: none of its own checks fails. The output parses to the changed
-- tree, and is 120 bytes longer than the source.
pub generate_succeeds :
    (source : Bytes) (root changed : Node Property)
    → All IsByte source
    → length source < u32_mod
    → parse_tree source ≡ ok root
    → add_provider root ≡ ok changed
    → IsComparable (children root)
    → (out : Bytes) × Generated source out changed
generate_succeeds source root changed b small p add named =
    let a = add_provider_inv root add in
    let w = changed-IsFramedTree a (parse_tree-IsFramedTree source root p) in
    let g = changed_encodes a source (encode_node-parse_tree source root b p) small in
    let again = parse_tree-encode_node changed g.out w g.encodes in
    (
      g.out,
      record {
        returned =
            generate_runs source root changed g.out p add g.encodes again (contract_holds a named);
        reparsed = again;
        grown = g.grown;
      },
    )

-- The parts of a successful run.
pub record Ran (source out : Bytes) : Type 0 where
  pub root : Node Property
  pub changed : Node Property
  pub parsed : parse_tree source ≡ ok root
  pub added : add_provider root ≡ ok changed
  pub encoded : encode_node changed ≡ ok out

pub generate_inv : (source : Bytes) {out : Bytes} → generate source ≡ ok out → Ran source out
unfolding generate
generate_inv source {out} h = elim (Result-cases (parse_tree source)) [
  | inr (x, e) ↦ absurd (ground arith)
  | inl (root, e) ↦ elim (Result-cases (add_provider root)) [
    | inr (x, e₁) ↦ absurd (ground arith)
    | inl (changed, e₁) ↦ elim (Result-cases (encode_node changed)) [
      | inr (x, e₂) ↦ absurd (ground arith)
      | inl (bytes, e₂) ↦ record {
        root = root;
        changed = changed;
        parsed = e;
        added = e₁;
        encoded = ground arith;
      }
    ]
  ]
]

-- What a run wrote parses to the changed tree, whatever the source.
pub Ran-parse_tree :
    (source : Bytes) {out : Bytes} (r : Ran source out) → parse_tree out ≡ ok r.changed
Ran-parse_tree source {out} r =
    parse_tree-encode_node r.changed out
      (changed-IsFramedTree (add_provider_inv r.root r.added)
        (parse_tree-IsFramedTree source r.root r.parsed))
      r.encoded

-- A second run on what a run wrote is refused: the provider is there already.
pub generate_twice :
    (source out : Bytes) → generate source ≡ ok out → generate out ≡ raise provider_conflict
unfolding generate
generate_twice source out h =
    let r = generate_inv source h in
    rw (Ran-parse_tree source r, changed_conflicts (add_provider_inv r.root r.added))
