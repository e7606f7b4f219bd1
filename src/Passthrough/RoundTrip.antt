-- ===== src/Passthrough/RoundTrip.antt =====
-- tools/re/power_passthrough_dt.py: the bytes of the encoder, and the trees that they are parsed to.
use mathlib.Core.List.{append_assoc, append-nil}
use darwin_vm.Prelude.{
  ℕ, zero, suc, ◌-◌, ◌≤◌, ◌<◌, ◌≡◌, inl, inr, refl, sym, subst, ap, ◌∙◌, List, [], ◌∷◌, ◌++◌, some,
  arith, length, take, drop, All, length-append, length-take, take-take, drop-take, take_le,
  drop_le, take-append, drop-append, nat_eq,
}
use darwin_vm.Prelude.Result.{ok, Result-cases}
use darwin_vm.Bytes.{Bytes, u32_mod, le32, read_u32}
use darwin_vm.Bytes.Words.{
  read_u32-le32, read_u32-append, read_u32-take, header_reads, below_length,
}
use darwin_vm.Tree.{Node, Nodes, node, child, count, props, children}
use darwin_vm.Passthrough.{
  Property, parse_property, parse_properties, parse_children, parse_node, parse_tree, decode_name,
  encode_properties, encode_node, encode_children, pack_u32,
}
use darwin_vm.Passthrough.Lossless.{
  ParsedProperty, parse_property_inv, end_of, Parser, parse_node_inv, parse_tree_inv,
}

-- The record parses to the property, whatever stands behind it.
abbrev pub IsFramed : Property → Type 0
IsFramed p = (rest : Bytes) → parse_property (p.raw ++ rest) ≡ ok (p, rest)

unfoldable mutual
  pub IsFramedTree : Node Property → Type 0
  IsFramedTree (node ps cs) = All IsFramed ps × IsFramedForest cs

  pub IsFramedForest : Nodes Property → Type 0
  IsFramedForest Nodes.none = Unit
  IsFramedForest (child c cs) = IsFramedTree c × IsFramedForest cs

-- How `parse_property` runs, given the parts of a record.
parse_property_runs :
    (d : Bytes) (p : Property) (r : Bytes) (word : ℕ)
    → 36 ≤ length d
    → read_u32 (drop 32 d) ≡ some word
    → decode_name (take 32 d) ≡ ok p.name
    → end_of word ≤ length d
    → p.raw ≡ take (end_of word) d
    → r ≡ drop (end_of word) d
    → parse_property d ≡ ok (p, r)
unfolding parse_property
parse_property_runs d p r word h₀ h₁ h₂ h₃ h₄ h₅ = ground arith

module _ (d rest : Bytes) {p : Property} {r : Bytes} (q : ParsedProperty d p r) where
  abbrev extent : ℕ
  extent = end_of q.word

  record_length : length (take extent d) ≡ extent
  record_length = omega (arith, length-take extent d, q.fits)

  same_name : take 32 (take extent d ++ rest) ≡ take 32 d
  same_name =
      take_le 32 (take extent d) rest (omega (arith, record_length))
      ∙ take-take 32 extent d (omega arith)

  same_word : read_u32 (drop 32 (take extent d ++ rest)) ≡ some q.word
  same_word = rw (drop_le 32 (take extent d) rest (omega (arith, record_length))) (
      read_u32-append (drop 32 (take extent d)) rest (
        rw (drop-take 32 extent d)
          (read_u32-take (extent - 32) (drop 32 d) (omega arith) ∙ q.size)))

-- Whatever was parsed is framed.
pub parse_property-IsFramed :
    (d : Bytes) {p : Property} {r : Bytes} → parse_property d ≡ ok (p, r) → IsFramed p
parse_property-IsFramed d {p} h rest =
    let q = parse_property_inv d h in
    let n = record_length d rest q in
    let d' = take (end_of q.word) d ++ rest in
    ap (λ (x : Bytes). parse_property (x ++ rest)) q.raw
    ∙ parse_property_runs d' p rest q.word
        (omega (arith, n, length-append (take (end_of q.word) d) rest)) (same_word d rest q)
        (rw (same_name d rest q) q.name)
        (omega (arith, n, length-append (take (end_of q.word) d) rest))
        (q.raw ∙ sym (take-append (end_of q.word) (take (end_of q.word) d) rest n))
        (sym (drop-append (end_of q.word) (take (end_of q.word) d) rest n))

pub parse_properties-All :
    (k : ℕ) (d : Bytes) {ps : List Property} {r : Bytes}
    → parse_properties k d ≡ ok (ps, r)
    → All IsFramed ps
unfolding parse_properties
parse_properties-All zero d {ps = []} h = tt
parse_properties-All zero d {ps = p ∷ ps} h = absurd (cc)
parse_properties-All (suc k) d {ps} {r} h = elim (Result-cases (parse_property d)) [
  | inr (x, e) ↦ absurd (ground arith)
  | inl ((p, d₁), e) ↦ elim (Result-cases (parse_properties k d₁)) [
    | inr (x, e') ↦ absurd (ground arith)
    | inl ((qs, d₂), e') ↦
        subst (All IsFramed) {x = p ∷ qs} (ground arith)
          (parse_property-IsFramed d e, parse_properties-All k d₁ e')
  ]
]

module _ (parse : Parser)
    (frames : (d : Bytes) (n : Node Property) (r : Bytes)
      → parse d ≡ ok (n, r)
      → IsFramedTree n) where
  parse_children-IsFramed :
      (k : ℕ) (d : Bytes) (cs : Nodes Property) (r : Bytes)
      → parse_children parse k d ≡ ok (cs, r)
      → IsFramedForest cs
  unfolding parse_children IsFramedTree
  parse_children-IsFramed zero d Nodes.none r h = tt
  parse_children-IsFramed zero d (child c cs) r h = absurd (ground arith)
  parse_children-IsFramed (suc k) d cs r h = elim (Result-cases (parse d)) [
    | inr (x, e) ↦ absurd (ground arith)
    | inl ((c, d₁), e) ↦ elim (Result-cases (parse_children parse k d₁)) [
      | inr (x, e') ↦ absurd (ground arith)
      | inl ((ds, d₂), e') ↦
          subst IsFramedForest {x = child c ds} (ground arith)
            (frames d c d₁ e, parse_children-IsFramed k d₁ ds d₂ e')
    ]
  ]

pub parse_node-IsFramed :
    (fuel : ℕ) (d : Bytes) (n : Node Property) (r : Bytes)
    → parse_node fuel d ≡ ok (n, r)
    → IsFramedTree n
unfolding IsFramedTree
parse_node-IsFramed zero d n r h = absurd (unfold parse_node in cc)
parse_node-IsFramed (suc fuel) d (node ps cs) r h =
    let p = parse_node_inv fuel d h in
    (
      parse_properties-All p.property_count (drop 8 d) p.listed,
      parse_children-IsFramed (parse_node fuel) (parse_node-IsFramed fuel) p.child_count p.middle cs
          r p.below,
    )

-- The encoder's result, from its parts.
pub encode_node_inv :
    (ps : List Property) (cs : Nodes Property) {bytes : Bytes}
    → encode_node (node ps cs) ≡ ok bytes
    → (below : Bytes) × (encode_children cs ≡ ok below)
      × (length ps < u32_mod)
      × (count cs < u32_mod)
      × (bytes ≡ le32 (length ps) ++ (le32 (count cs) ++ (encode_properties ps ++ below)))
unfolding encode_node pack_u32
encode_node_inv ps cs {bytes} h = elim (Result-cases (encode_children cs)) [
  | inl (below, e) ↦ (below, e, ground arith, ground arith, ground arith)
  | inr (x, e) ↦ absurd (ground arith)
]

pub encode_children_inv :
    (c : Node Property) (cs : Nodes Property) {bytes : Bytes}
    → encode_children (child c cs) ≡ ok bytes
    → (a b : Bytes) × (encode_node c ≡ ok a) × (encode_children cs ≡ ok b) × (bytes ≡ a ++ b)
unfolding encode_node
encode_children_inv c cs {bytes} h = elim (Result-cases (encode_node c)) [
  | inr (x, e) ↦ absurd (ground arith)
  | inl (a, e) ↦ elim (Result-cases (encode_children cs)) [
    | inl (b, e') ↦ (a, b, e, e', ground arith)
    | inr (x, e') ↦ absurd (ground arith)
  ]
]

encode_none : {bytes : Bytes} → encode_children Nodes.none ≡ ok bytes → bytes ≡ []
unfolding encode_node
encode_none h = ground arith

parse_properties-encode :
    (ps : List Property) (rest : Bytes)
    → All IsFramed ps
    → parse_properties (length ps) (encode_properties ps ++ rest) ≡ ok (ps, rest)
unfolding parse_properties encode_properties
parse_properties-encode [] rest h = refl
parse_properties-encode (p ∷ ps) rest h =
    rw (append_assoc, h.0 (encode_properties ps ++ rest), parse_properties-encode ps rest h.1)

-- How `parse_node` runs, given the parts of a node.
parse_node_runs :
    (fuel x y : ℕ) (n : Node Property) (d d₈ m r : Bytes)
    → 8 ≤ length d
    → read_u32 d ≡ some x
    → read_u32 (drop 4 d) ≡ some y
    → drop 8 d ≡ d₈
    → parse_properties x d₈ ≡ ok (props n, m)
    → parse_children (parse_node fuel) y m ≡ ok (children n, r)
    → parse_node (suc fuel) d ≡ ok (n, r)
unfolding parse_node
parse_node_runs fuel x y (node ps cs) d d₈ m r h₀ h₁ h₂ h₃ h₄ h₅ = ground arith

mutual
  unfolding IsFramedTree parse_children

  parse_node-encode :
      (n : Node Property) (fuel : ℕ) (bytes rest : Bytes)
      → IsFramedTree n
      → encode_node n ≡ ok bytes
      → length bytes < fuel
      → parse_node fuel (bytes ++ rest) ≡ ok (n, rest)
  parse_node-encode n zero bytes rest w e h = absurd (omega arith)
  parse_node-encode (node ps cs) (suc fuel) bytes rest w e h =
      let (below, e', hp, hc, split) = encode_node_inv ps cs e in
      let d₈ = (encode_properties ps ++ below) ++ rest in
      let (four, eight, header) = header_reads (length ps) (count cs) d₈ in
      let shape : bytes ++ rest ≡ le32 (length ps) ++ (le32 (count cs) ++ d₈) =
        ap (λ (z : Bytes). z ++ rest) split ∙ simp append_assoc in
      rw shape (
        parse_node_runs fuel (length ps) (count cs) (node ps cs) _ d₈ (below ++ rest) rest header
          (read_u32-le32 (length ps) _ hp) (rw four (read_u32-le32 (count cs) _ hc)) eight
          (rw append_assoc (parse_properties-encode ps (below ++ rest) w.0))
          (parse_children-encode cs fuel below rest w.1 e' (
            omega (
              arith,
              ap length split,
              below_length (length ps) (count cs) (encode_properties ps) below,
            ))))

  parse_children-encode :
      (cs : Nodes Property) (fuel : ℕ) (bytes rest : Bytes)
      → IsFramedForest cs
      → encode_children cs ≡ ok bytes
      → length bytes < fuel
      → parse_children (parse_node fuel) (count cs) (bytes ++ rest) ≡ ok (cs, rest)
  parse_children-encode Nodes.none fuel bytes rest w e h = ground (arith, encode_none e)
  parse_children-encode (child c cs) fuel bytes rest w e h =
      let (a, b, e₁, e₂, split) = encode_children_inv c cs e in
      let one =
        parse_node-encode c fuel a (b ++ rest) w.0 e₁
          (omega (arith, ap length split, length-append a b)) in
      let more =
        parse_children-encode cs fuel b rest w.1 e₂
          (omega (arith, ap length split, length-append a b)) in
      rw (ap (λ (z : Bytes). z ++ rest) split ∙ append_assoc a b rest) (rw one (rw more))

-- A framed tree is read back from its encoding, and the encoding has no trailing bytes.
pub parse_tree-encode_node :
    (n : Node Property) (bytes : Bytes)
    → IsFramedTree n
    → encode_node n ≡ ok bytes
    → parse_tree bytes ≡ ok n
unfolding parse_tree
parse_tree-encode_node n bytes w e =
    let h : parse_node (suc (length bytes)) (bytes ++ []) ≡ ok (n, []) =
      parse_node-encode n (suc (length bytes)) bytes [] w e (omega arith) in
    rw (rw append-nil at h)

-- Whatever `parse_tree` returns is framed.
pub parse_tree-IsFramedTree :
    (d : Bytes) (root : Node Property) → parse_tree d ≡ ok root → IsFramedTree root
parse_tree-IsFramedTree d root h =
    parse_node-IsFramed (suc (length d)) d root [] (parse_tree_inv d h)
