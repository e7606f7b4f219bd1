-- ===== src/Patch/RoundTrip.antt =====
-- tools/dt_patch.py: `decode` and `encode` against one another.
use mathlib.Core.List.{append_assoc}
use darwin_vm.Prelude.{
  ℕ, zero, suc, ◌+◌, ◌-◌, ◌^◌, ◌<◌, ◌≡◌, ◌≢◌, refl, sym, ap, ◌∙◌, inl, inr, Bool, true, false, List,
  [], ◌∷◌, ◌++◌, some, arith, length, take, drop, replicate, All, length-append, length-replicate,
  take-append, drop-append, drop-drop, nat_eq,
}
use darwin_vm.Prelude.Result.{ok, Result-cases}
use darwin_vm.Bytes.{Bytes, u32_mod, le32, read_u32, low31, round_up4, ljust, before_nul}
use darwin_vm.Bytes.Words.{
  read_u32-le32, length-le32, length-ljust, before_nul-ljust, header_reads, below_length,
}
use darwin_vm.Bytes.Utf8.{Str, decode_replace, encode, IsAscii, encode_ascii, decode_replace_ascii}
use darwin_vm.Tree.{Node, Nodes, node, child, count, props, children}
use darwin_vm.Patch.{Prop}
use darwin_vm.Patch.Codec.{
  high_bit, decode_prop, decode_props, decode_children, decode, pack_u32, length_word, encode_prop,
  encode_props, encode_node, encode_children,
}

-- A property as it stands in an Apple device tree: an ASCII name that fits its field with a NUL, and
-- a value below 2 GiB.
pub record IsPlain (p : Prop) : Type 0 where
  pub ascii : All IsAscii p.name
  pub no_nul : All (λ c. c ≢ 0) p.name
  pub short : length p.name < 32
  pub small : length p.value < 2 ^ 31

unfoldable mutual
  pub IsPlainTree : Node Prop → Type 0
  IsPlainTree (node ps cs) = All IsPlain ps × IsPlainForest cs

  pub IsPlainForest : Nodes Prop → Type 0
  IsPlainForest Nodes.none = Unit
  IsPlainForest (child c cs) = IsPlainTree c × IsPlainForest cs

length_word_parts :
    (f : Bool) (n : ℕ)
    → n < 2 ^ 31
    → (length_word f n < u32_mod) × (low31 (length_word f n) ≡ n) × (high_bit (length_word f n) ≡ f)
length_word_parts true n h = ground arith
length_word_parts false n h = ground arith

-- The four parts of a record, as `decode` cuts them.
record_cuts :
    (name size value rest : Bytes) (r : ℕ)
    → length name ≡ 32
    → length size ≡ 4
    → length value ≡ r
    → (take 32 (name ++ (size ++ (value ++ rest))) ≡ name)
      × (drop 32 (name ++ (size ++ (value ++ rest))) ≡ size ++ (value ++ rest))
      × (drop 36 (name ++ (size ++ (value ++ rest))) ≡ value ++ rest)
      × (drop (36 + r) (name ++ (size ++ (value ++ rest))) ≡ rest)
record_cuts name size value rest r hn hs hv =
    let tail = size ++ (value ++ rest) in
    let second = drop-append 32 name tail hn in
    let third : drop 36 (name ++ tail) ≡ value ++ rest =
      sym (drop-drop 4 32 (name ++ tail))
      ∙ ap (drop 4) second
      ∙ drop-append 4 size (value ++ rest) hs in
    (
      take-append 32 name tail hn,
      second,
      third,
      sym (drop-drop r 36 (name ++ tail)) ∙ ap (drop r) third ∙ drop-append r value rest hv,
    )

-- The name is read back from its field.
name_field :
    (s : Str)
    → All IsAscii s
    → All (λ c. c ≢ 0) s
    → length s < 32
    → decode_replace (before_nul (ljust 32 (encode s))) ≡ s
name_field s a z h =
    let e : 32 - length s ≡ suc (31 - length s) = omega arith in
    rw (encode_ascii s a, e, before_nul-ljust s (31 - length s) z) (decode_replace_ascii s a)

-- How `decode_prop` runs, given what it reads.
decode_prop_runs :
    (d : Bytes) (p : Prop) (r : Bytes) (word : ℕ)
    → decode_replace (before_nul (take 32 d)) ≡ p.name
    → read_u32 (drop 32 d) ≡ some word
    → high_bit word ≡ p.flagged
    → low31 word ≡ length p.value
    → take (length p.value) (drop 36 d) ≡ p.value
    → drop (36 + round_up4 (length p.value)) d ≡ r
    → decode_prop d ≡ ok (p, r)
unfolding decode_prop
decode_prop_runs d p r word h₀ h₁ h₂ h₃ h₄ h₅ = rw (h₁, h₃, h₀, h₂, h₄, h₅)

module _ (p : Prop) (w : IsPlain p) where
  abbrev size_word : ℕ
  size_word = length_word p.flagged (length p.value)

  abbrev padded : Bytes
  padded = ljust (round_up4 (length p.value)) p.value

  abbrev pub record_of : Bytes
  record_of = ljust 32 (encode p.name) ++ (le32 size_word ++ padded)

  pub encode_prop-IsPlain : encode_prop p ≡ ok record_of
  unfolding encode_prop pack_u32
  encode_prop-IsPlain =
      let (fits, _, _) = length_word_parts p.flagged (length p.value) w.small in
      ground (arith, w.short, fits)

  length-padded : length padded ≡ round_up4 (length p.value)
  length-padded = length-ljust (round_up4 (length p.value)) p.value (omega arith)

  length-name : length (ljust 32 (encode p.name)) ≡ 32
  length-name = rw (encode_ascii p.name w.ascii) (length-ljust 32 p.name (omega (arith, w.short)))

  pub length-record_of : length record_of ≡ 36 + round_up4 (length p.value)
  length-record_of = omega (
    arith,
    length-append (ljust 32 (encode p.name)) (le32 size_word ++ padded),
    length-append (le32 size_word) padded,
    length-le32 size_word,
    length-padded,
    length-name,
  )

  decode_prop-record_of : (rest : Bytes) → decode_prop (record_of ++ rest) ≡ ok (p, rest)
  decode_prop-record_of rest =
      let (fits, low, high) = length_word_parts p.flagged (length p.value) w.small in
      let (c₁, c₂, c₃, c₄) =
        record_cuts (ljust 32 (encode p.name)) (le32 size_word) padded rest
          (round_up4 (length p.value)) length-name (length-le32 size_word) length-padded in
      let shape : record_of ++ rest
          ≡ ljust 32 (encode p.name) ++ (le32 size_word ++ (padded ++ rest)) =
        append_assoc (ljust 32 (encode p.name)) (le32 size_word ++ padded) rest
        ∙ ap (λ (z : Bytes). ljust 32 (encode p.name) ++ z)
            (append_assoc (le32 size_word) padded rest) in
      let zeros = replicate (round_up4 (length p.value) - length p.value) 0 ++ rest in
      rw shape (
        decode_prop_runs (ljust 32 (encode p.name) ++ (le32 size_word ++ (padded ++ rest))) p rest
          size_word (rw c₁ (name_field p.name w.ascii w.no_nul w.short))
          (rw c₂ (read_u32-le32 size_word (padded ++ rest) fits)) high low
          (rw (c₃, append_assoc) (take-append (length p.value) p.value zeros refl)) c₄)

pub decode_props-IsPlain :
    (ps : List Prop)
    → All IsPlain ps
    → (bytes : Bytes) × (encode_props ps ≡ ok bytes)
      × ((rest : Bytes) → decode_props (length ps) (bytes ++ rest) ≡ ok (ps, rest))
unfolding encode_props decode_props
decode_props-IsPlain [] w = ([], refl, λ rest. refl)
decode_props-IsPlain (p ∷ ps) w =
    let (bytes, e, back) = decode_props-IsPlain ps w.1 in
    (
      record_of p w.0 ++ bytes,
      rw (encode_prop-IsPlain p w.0, e),
      λ rest. rw (append_assoc, decode_prop-record_of p w.0 (bytes ++ rest), back rest),
    )

-- The encoder's result, from its parts.
encode_node_inv :
    (ps : List Prop) (cs : Nodes Prop) {bytes : Bytes}
    → encode_node (node ps cs) ≡ ok bytes
    → (fields below : Bytes) × (encode_props ps ≡ ok fields)
      × (encode_children cs ≡ ok below)
      × (length ps < u32_mod)
      × (count cs < u32_mod)
      × (bytes ≡ le32 (length ps) ++ (le32 (count cs) ++ (fields ++ below)))
unfolding encode_node pack_u32
encode_node_inv ps cs {bytes} h = elim (Result-cases (encode_props ps)) [
  | inr (x, e) ↦ absurd (ground arith)
  | inl (fields, e) ↦ elim (Result-cases (encode_children cs)) [
    | inl (below, e') ↦ (fields, below, e, e', ground arith, ground arith, ground arith)
    | inr (x, e') ↦ absurd (ground arith)
  ]
]

encode_children_inv :
    (c : Node Prop) (cs : Nodes Prop) {bytes : Bytes}
    → encode_children (child c cs) ≡ ok bytes
    → (a b : Bytes) × (encode_node c ≡ ok a) × (encode_children cs ≡ ok b) × (bytes ≡ a ++ b)
unfolding encode_node
encode_children_inv c cs {bytes} h = elim (Result-cases (encode_node c)) [
  | inr (x, e) ↦ absurd (ground arith)
  | inl (a, e) ↦ elim (Result-cases (encode_children cs)) [
    | inl (b, e') ↦ (a, b, e, e', ground arith)
    | inr (x, e') ↦ absurd (ground arith)
  ]
]

encode_none : {bytes : Bytes} → encode_children Nodes.none ≡ ok bytes → bytes ≡ []
unfolding encode_node
encode_none h = ground arith

-- How `decode` runs, given the parts of a node.
decode_runs :
    (fuel x y : ℕ) (n : Node Prop) (d d₈ m r : Bytes)
    → read_u32 d ≡ some x
    → read_u32 (drop 4 d) ≡ some y
    → drop 8 d ≡ d₈
    → decode_props x d₈ ≡ ok (props n, m)
    → decode_children (decode fuel) y m ≡ ok (children n, r)
    → decode (suc fuel) d ≡ ok (n, r)
unfolding decode
decode_runs fuel x y (node ps cs) d d₈ m r h₁ h₂ h₃ h₄ h₅ = ground arith

-- The two facts that `decode_props-IsPlain` gives of an encoding that is at hand.
props_back :
    (ps : List Prop) (fields rest : Bytes)
    → All IsPlain ps
    → encode_props ps ≡ ok fields
    → decode_props (length ps) (fields ++ rest) ≡ ok (ps, rest)
props_back ps fields rest w e =
    let (bytes, e', back) = decode_props-IsPlain ps w in
    let same : bytes ≡ fields = cc (e, e') in
    ap (λ (z : Bytes). decode_props (length ps) (z ++ rest)) (sym same) ∙ back rest

mutual
  unfolding IsPlainTree decode_children

  -- With fuel above the length of its encoding, a plain tree is read back, whatever follows it.
  pub decode-encode_tree :
      (n : Node Prop) (fuel : ℕ) (bytes rest : Bytes)
      → IsPlainTree n
      → encode_node n ≡ ok bytes
      → length bytes < fuel
      → decode fuel (bytes ++ rest) ≡ ok (n, rest)
  decode-encode_tree n zero bytes rest w e h = absurd (omega arith)
  decode-encode_tree (node ps cs) (suc fuel) bytes rest w e h =
      let (fields, below, e₁, e₂, hp, hc, split) = encode_node_inv ps cs e in
      let d₈ = (fields ++ below) ++ rest in
      let (four, eight, header) = header_reads (length ps) (count cs) d₈ in
      let shape : bytes ++ rest ≡ le32 (length ps) ++ (le32 (count cs) ++ d₈) =
        ap (λ (z : Bytes). z ++ rest) split ∙ simp append_assoc in
      rw shape (
        decode_runs fuel (length ps) (count cs) (node ps cs) _ d₈ (below ++ rest) rest
          (read_u32-le32 (length ps) _ hp) (rw four (read_u32-le32 (count cs) _ hc)) eight
          (rw append_assoc (props_back ps fields (below ++ rest) w.0 e₁))
          (decode-encode_forest cs fuel below rest w.1 e₂
            (omega (arith, ap length split, below_length (length ps) (count cs) fields below))))

  decode-encode_forest :
      (cs : Nodes Prop) (fuel : ℕ) (bytes rest : Bytes)
      → IsPlainForest cs
      → encode_children cs ≡ ok bytes
      → length bytes < fuel
      → decode_children (decode fuel) (count cs) (bytes ++ rest) ≡ ok (cs, rest)
  decode-encode_forest Nodes.none fuel bytes rest w e h = ground (arith, encode_none e)
  decode-encode_forest (child c cs) fuel bytes rest w e h =
      let (a, b, e₁, e₂, split) = encode_children_inv c cs e in
      let one =
        decode-encode_tree c fuel a (b ++ rest) w.0 e₁
          (omega (arith, ap length split, length-append a b)) in
      let more =
        decode-encode_forest cs fuel b rest w.1 e₂
          (omega (arith, ap length split, length-append a b)) in
      rw (ap (λ (z : Bytes). z ++ rest) split ∙ append_assoc a b rest) (rw one (rw more))

-- The fuel that `patch` hands out is enough for every encoding of a plain tree.
pub decode-encode_node :
    (n : Node Prop) (bytes rest : Bytes)
    → IsPlainTree n
    → encode_node n ≡ ok bytes
    → decode (suc (length (bytes ++ rest))) (bytes ++ rest) ≡ ok (n, rest)
decode-encode_node n bytes rest w e =
    decode-encode_tree n (suc (length (bytes ++ rest))) bytes rest w e
      (omega (arith, length-append bytes rest))

-- The test of `encode` counts characters, and its field holds bytes: a name of fewer than 32
-- characters whose UTF-8 form passes 32 bytes is written past its field, and the record is too long.
pub encode_prop_overrun :
    (p : Prop)
    → length p.name < 32
    → 32 < length (encode p.name)
    → length p.value < 2 ^ 31
    → (bytes : Bytes) × (encode_prop p ≡ ok bytes)
      × (length bytes ≡ length (encode p.name) + 4 + round_up4 (length p.value))
      × (36 + round_up4 (length p.value) < length bytes)
unfolding encode_prop pack_u32
encode_prop_overrun p short long small =
    let (fits, _, _) = length_word_parts p.flagged (length p.value) small in
    let word = le32 (length_word p.flagged (length p.value)) in
    let padded = ljust (round_up4 (length p.value)) p.value in
    let name = ljust 32 (encode p.name) in
    let whole : length (name ++ (word ++ padded))
        ≡ length (encode p.name) + 4 + round_up4 (length p.value) =
      omega (
        arith,
        length-append name (word ++ padded),
        length-append word padded,
        length-le32 (length_word p.flagged (length p.value)),
        length-ljust (round_up4 (length p.value)) p.value (omega arith),
        length-append (encode p.name) (replicate (32 - length (encode p.name)) 0),
        length-replicate {A = ℕ} (32 - length (encode p.name)) 0,
      ) in
    (name ++ (word ++ padded), ground (arith, fits), whole, omega (arith, whole))
