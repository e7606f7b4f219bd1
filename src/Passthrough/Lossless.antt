-- ===== src/Passthrough/Lossless.antt =====
-- tools/re/power_passthrough_dt.py: the trees of the parser, and the bytes that it read.
use mathlib.Core.List.{append_assoc, append-nil}
use darwin_vm.Prelude.{
  ℕ, zero, suc, ◌+◌, ◌≤◌, ◌<◌, ◌≡◌, inl, inr, refl, sym, ap, ◌∙◌, List, [], ◌∷◌, ◌++◌, Option, none,
  some, arith, length, take, drop, All, All-append_right, All-drop, take-append-drop, drop-drop,
  nat_eq,
}
use darwin_vm.Prelude.Result.{Result, ok, >>=-eq-ok, Result-cases}
use darwin_vm.Bytes.{Bytes, IsByte, u32_mod, le32, read_u32, round_up4, low31}
use darwin_vm.Bytes.Words.{le32-read_u32}
use darwin_vm.Tree.{Node, Nodes, node, count, props, children}
use darwin_vm.Passthrough.{
  Error, Property, parse_property, parse_properties, parse_children, parse_node, parse_tree,
  decode_name, encode_properties, encode_node, encode_children, pack_u32,
}

abbrev pub end_of : ℕ → ℕ
end_of word = 36 + round_up4 (low31 word)

-- One property: where its record ends, and that its bytes are kept whole.
pub record ParsedProperty (d : Bytes) (p : Property) (r : Bytes) : Type 0 where
  pub word : ℕ
  pub size : read_u32 (drop 32 d) ≡ some word
  pub name : decode_name (take 32 d) ≡ ok p.name
  pub fits : end_of word ≤ length d
  pub raw : p.raw ≡ take (end_of word) d
  pub rest : r ≡ drop (end_of word) d

pub parse_property_inv :
    (d : Bytes) {p : Property} {r : Bytes} → parse_property d ≡ ok (p, r) → ParsedProperty d p r
unfolding parse_property
parse_property_inv d {p} {r} h = go (read_u32 (drop 32 d)) refl
  where
    go : (o : Option ℕ) → read_u32 (drop 32 d) ≡ o → ParsedProperty d p r
    go none e = ground arith
    go (some word) e = record {
      word = word;
      size = e;
      name = ground arith;
      fits = ground arith;
      raw = ground arith;
      rest = ground arith;
    }

pub parse_property_splits :
    (d : Bytes) {p : Property} {r : Bytes} → parse_property d ≡ ok (p, r) → p.raw ++ r ≡ d
parse_property_splits d h =
    let q = parse_property_inv d h in cc (q.raw, q.rest, take-append-drop (end_of q.word) d)

pub parse_properties_splits :
    (k : ℕ) (d : Bytes) {ps : List Property} {r : Bytes}
    → parse_properties k d ≡ ok (ps, r)
    → (encode_properties ps ++ r ≡ d) × (length ps ≡ k)
unfolding parse_properties encode_properties
parse_properties_splits zero d h = ground arith
parse_properties_splits (suc k) d {ps} {r} h =
    let (q, e₁, h₁) = >>=-eq-ok (parse_property d) _ h in
    let (t, e₂, h₂) = >>=-eq-ok (parse_properties k q.1) _ h₁ in
    let ih = parse_properties_splits k q.1 e₂ in
    let one = parse_property_splits d e₁ in
    ground (arith, ih, one, append_assoc q.0.raw (encode_properties t.0) t.1)

-- `n` was read from the front of `d`, and encodes to the bytes before the rest `r`.
pub record Read (d : Bytes) (n : Node Property) (r : Bytes) : Type 0 where
  pub bytes : Bytes
  pub encodes : encode_node n ≡ ok bytes
  pub splits : bytes ++ r ≡ d

pub record ReadAll (k : ℕ) (d : Bytes) (cs : Nodes Property) (r : Bytes) : Type 0 where
  pub bytes : Bytes
  pub encodes : encode_children cs ≡ ok bytes
  pub splits : bytes ++ r ≡ d
  pub counted : count cs ≡ k

module _ (parse : Bytes → Result Error (Node Property × Bytes))
    (reads : (d : Bytes) (n : Node Property) (r : Bytes)
      → All IsByte d
      → parse d ≡ ok (n, r)
      → Read d n r) where
  parse_children_reads :
      (k : ℕ) (d : Bytes) {cs : Nodes Property} {r : Bytes}
      → All IsByte d
      → parse_children parse k d ≡ ok (cs, r)
      → ReadAll k d cs r
  unfolding parse_children encode_node
  parse_children_reads zero d b h = record {
    bytes = [];
    encodes = ground arith;
    splits = ground arith;
    counted = ground arith;
  }
  parse_children_reads (suc k) d {cs} {r} b h =
      let (q, e₁, h₁) = >>=-eq-ok (parse d) _ h in
      let (t, e₂, h₂) = >>=-eq-ok (parse_children parse k q.1) _ h₁ in
      let one = reads d q.0 q.1 b e₁ in
      let b' = All-append_right IsByte one.bytes q.1 (rw one.splits b) in
      let rest = parse_children_reads k q.1 b' e₂ in
      record {
        bytes = one.bytes ++ rest.bytes;
        encodes = ground (arith, one.encodes, rest.encodes);
        splits = ground (arith, one.splits, rest.splits, append_assoc one.bytes rest.bytes r);
        counted = ground (arith, rest.counted);
      }

-- The two counts of a header are packed back to its eight bytes.
header_splits :
    (d : Bytes) {a b : ℕ}
    → All IsByte d
    → read_u32 d ≡ some a
    → read_u32 (drop 4 d) ≡ some b
    → (le32 a ++ (le32 b ++ drop 8 d) ≡ d) × (a < u32_mod) × (b < u32_mod)
header_splits d h p q =
    let (e₁, f₁) = le32-read_u32 d h p in
    let (e₂, f₂) = le32-read_u32 (drop 4 d) (All-drop IsByte 4 d h) q in
    (ground (arith, e₁, e₂, drop-drop 4 4 d), f₁, f₂)

-- One node: what its header says, and what was parsed behind it.
abbrev pub Parser : Type 0
Parser = Bytes → Result Error (Node Property × Bytes)

pub record ParsedNode (parse : Parser) (d : Bytes) (n : Node Property) (r : Bytes) : Type 0 where
  pub property_count : ℕ
  pub child_count : ℕ
  pub middle : Bytes
  pub first : read_u32 d ≡ some property_count
  pub second : read_u32 (drop 4 d) ≡ some child_count
  pub listed : parse_properties property_count (drop 8 d) ≡ ok (props n, middle)
  pub below : parse_children parse child_count middle ≡ ok (children n, r)
  pub header : 8 ≤ length d

pub parse_node_inv :
    (fuel : ℕ) (d : Bytes) {n : Node Property} {r : Bytes}
    → parse_node (suc fuel) d ≡ ok (n, r)
    → ParsedNode (parse_node fuel) d n r
unfolding parse_node
parse_node_inv fuel d {n = node ps cs} {r = r} h = go (read_u32 d) (read_u32 (drop 4 d)) refl refl
  where
    go :
        (o₁ o₂ : Option ℕ)
        → read_u32 d ≡ o₁
        → read_u32 (drop 4 d) ≡ o₂
        → ParsedNode (parse_node fuel) d (node ps cs) r
    go none o₂ e₁ e₂ = ground arith
    go (some a) none e₁ e₂ = ground arith
    go (some a) (some b) e₁ e₂ = elim (Result-cases (parse_properties a (drop 8 d))) [
      | inl ((qs, middle), e₃) ↦ record {
        property_count = a;
        child_count = b;
        middle = middle;
        first = e₁;
        second = e₂;
        listed = ground arith;
        below = ground arith;
        header = ground arith;
      }
      | inr (x, e₃) ↦ ground arith
    ]

-- The pieces of a node, put together: `ps` and `cs` are encoded behind the two counts.
pub encode_node_of :
    (n : Node Property) (bytes : Bytes)
    → length (props n) < u32_mod
    → count (children n) < u32_mod
    → encode_children (children n) ≡ ok bytes
    → encode_node n
      ≡ ok (
          le32 (length (props n))
          ++ (le32 (count (children n)) ++ (encode_properties (props n) ++ bytes)))
unfolding encode_node pack_u32
encode_node_of (node ps cs) bytes hp hc e = ground arith

splits_of :
    (a b c e r m d₈ d : Bytes)
    → a ++ (b ++ d₈) ≡ d
    → c ++ m ≡ d₈
    → e ++ r ≡ m
    → (a ++ (b ++ (c ++ e))) ++ r ≡ d
splits_of a b c e r m d₈ d h k l = simp (append_assoc, l, k, h)

ParsedNode-Read :
    (parse : Parser) (d : Bytes) (n : Node Property) (r : Bytes)
    → ((d : Bytes) (n : Node Property) (r : Bytes)
        → All IsByte d
        → parse d ≡ ok (n, r)
        → Read d n r)
    → All IsByte d
    → ParsedNode parse d n r
    → Read d n r
ParsedNode-Read parse d n r reads b p =
    let ps = parse_properties_splits p.property_count (drop 8 d) p.listed in
    let m =
      All-append_right IsByte (encode_properties (props n)) p.middle
        (rw ps.0 (All-drop IsByte 8 d b)) in
    let cs = parse_children_reads parse reads p.child_count p.middle m p.below in
    let (hs, ha, hb) = header_splits d b p.first p.second in
    record {
      bytes = _;
      encodes =
          encode_node_of n cs.bytes (omega (arith, ps.1)) (omega (arith, cs.counted)) cs.encodes;
      splits =
          splits_of (le32 (length (props n))) (le32 (count (children n)))
            (encode_properties (props n)) cs.bytes r p.middle (drop 8 d) d
            (cc (ps.1, cs.counted, hs)) ps.0 cs.splits;
    }

pub parse_node_reads :
    (fuel : ℕ) (d : Bytes) (n : Node Property) (r : Bytes)
    → All IsByte d
    → parse_node fuel d ≡ ok (n, r)
    → Read d n r
parse_node_reads zero d n r b h = unfold parse_node in cc
parse_node_reads (suc fuel) d n r b h =
    ParsedNode-Read (parse_node fuel) d n r (parse_node_reads fuel) b (parse_node_inv fuel d h)

pub parse_tree_inv :
    (d : Bytes) {root : Node Property}
    → parse_tree d ≡ ok root
    → parse_node (suc (length d)) d ≡ ok (root, [])
unfolding parse_tree
parse_tree_inv d {root} h = elim (Result-cases (parse_node (suc (length d)) d)) [
  | inl ((n, []), e) ↦ ground arith
  | inl ((n, b ∷ r), e) ↦ ground arith
  | inr (x, e) ↦ ground arith
]

-- A tree that `parse_tree` accepts encodes to the very bytes that it was read from.
pub encode_node-parse_tree :
    (d : Bytes) (root : Node Property)
    → All IsByte d
    → parse_tree d ≡ ok root
    → encode_node root ≡ ok d
encode_node-parse_tree d root b h =
    let p = parse_node_reads (suc (length d)) d root [] b (parse_tree_inv d h) in
    p.encodes ∙ ap ok (sym (append-nil p.bytes) ∙ p.splits)
