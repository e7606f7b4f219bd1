-- ===== src/Fixup/Compat/Strip.antt =====
-- dt_fixup.py: what `del_compat` leaves of the drivers.
use darwin_vm.Prelude.{
  ◌≡◌, refl, true, false, List, none, some, arith, Bool-cases, Option-cases, inl, inr,
}
use darwin_vm.Prelude.Result.{ok}
use darwin_vm.Bytes.{text}
use darwin_vm.Bytes.Utf8.{Str}
use darwin_vm.Tree.{Nodes, node, child, props}
use darwin_vm.Fixup.{Val, str, bytes, Props}
use darwin_vm.Fixup.Dict.{get, without, get-without, get-without_eq}
use darwin_vm.Fixup.Tree.{Adt, Adts, fetch}
use darwin_vm.Fixup.Compat.{
  is_supported, keeps, lstrip_slash, strip_compat, strip_external, strip_node, is_device_tree,
  child_path, del_compat, del_compat_children,
}

-- Every node below the root has a text for its name.
unfoldable mutual
  pub IsNamed : Adt → Type 0
  IsNamed (node ps cs) = AreNamed cs

  pub AreNamed : Adts → Type 0
  AreNamed Nodes.none = Unit {0}
  AreNamed (child c cs) =
      ((name : Str) × (get (text "name") (props c) ≡ some (str name))) × (IsNamed c × AreNamed cs)

-- No driver binds below a path but to a kept node or by a supported name.
mutual
  pub data IsClean (keep : List Str) : Str → Adt → Type 0 where
    of_kept :
        {path : Str} {ps : Props} {cs : Adts}
        → keeps keep (lstrip_slash path) ≡ true
        → AreClean keep path ps cs
        → IsClean keep path (node ps cs)
    of_bare :
        {path : Str} {ps : Props} {cs : Adts}
        → get (text "compatible") ps ≡ none
        → AreClean keep path ps cs
        → IsClean keep path (node ps cs)
    of_supported :
        {path : Str} {ps : Props} {cs : Adts} {v : Val}
        → get (text "compatible") ps ≡ some v
        → is_supported v ≡ true
        → AreClean keep path ps cs
        → IsClean keep path (node ps cs)

  pub data AreClean (keep : List Str) : Str → Props → Adts → Type 0 where
    end : {path : Str} {ps : Props} → AreClean keep path ps Nodes.none
    next :
        {path below : Str} {ps : Props} {name : Val} {c : Adt} {cs : Adts}
        → get (text "name") (props c) ≡ some name
        → child_path path ps name ≡ ok below
        → IsClean keep below c
        → AreClean keep path ps cs
        → AreClean keep path ps (child c cs)

strip_node_name :
    (keep : List Str) (path : Str) (ps : Props)
    → get (text "name") (strip_node keep path ps) ≡ get (text "name") ps
unfolding strip_node strip_external strip_compat
strip_node_name keep path ps = ground (
  arith,
  get-without (text "compatible") (text "name") ps,
  get-without (text "device_type") (text "name") ps,
  get-without (text "device_type") (text "name") (without (text "compatible") ps),
)

strip_external_compat :
    (rel : Str) (ps : Props)
    → get (text "compatible") (strip_external rel ps) ≡ get (text "compatible") ps
unfolding strip_external
strip_external_compat rel ps =
    ground (arith, get-without (text "device_type") (text "compatible") ps)

-- No driver is left, or a supported one.
data IsBareOrSupported (ps : Props) : Type 0 where
  bare : get (text "compatible") ps ≡ none → IsBareOrSupported ps
  supported :
      {v : Val} → get (text "compatible") ps ≡ some v → is_supported v ≡ true → IsBareOrSupported ps

strip_compat_cases : (ps : Props) → IsBareOrSupported (strip_compat ps)
unfolding strip_compat
strip_compat_cases ps = elim (Option-cases (get (text "compatible") ps)) [
  | inl e ↦ rw (strip_compat, e) (bare e)
  | inr (v, e) ↦ elim (Bool-cases (is_supported v)) [
    | inl s ↦ rw (strip_compat, e, s) (supported e s)
    | inr s ↦ rw (strip_compat, e, s) (bare (get-without_eq (text "compatible") ps))
  ]
]

module _ (keep : List Str) where
  -- A node that is not kept is bare or supported after it is stripped.
  strip_node_cases :
      (path : Str) (ps : Props)
      → keeps keep (lstrip_slash path) ≡ false
      → IsBareOrSupported (strip_node keep path ps)
  unfolding strip_node
  strip_node_cases path ps e = rw e (through (strip_compat_cases ps))
    where
      through :
          IsBareOrSupported (strip_compat ps)
          → IsBareOrSupported (strip_external (lstrip_slash path) (strip_compat ps))
      through (bare b) = bare (rw (strip_external_compat (lstrip_slash path) (strip_compat ps)) b)
      through (supported g s) =
          supported (rw (strip_external_compat (lstrip_slash path) (strip_compat ps)) g) s

  IsClean-strip_node :
      (path : Str) (ps : Props) (cs : Adts)
      → AreClean keep path (strip_node keep path ps) cs
      → IsClean keep path (node (strip_node keep path ps) cs)
  IsClean-strip_node path ps cs below = elim (Bool-cases (keeps keep (lstrip_slash path))) [
    | inl e ↦ of_kept e below
    | inr e ↦ elim (strip_node_cases path ps e) [
      | bare b ↦ of_bare b below
      | supported g s ↦ of_supported g s below
    ]
  ]

  child_path-strip_node :
      (path : Str) (ps : Props) (v : Val)
      → child_path path (strip_node keep path ps) v ≡ child_path path ps v
  unfolding child_path
  child_path-strip_node path ps (str s) = rw (is_device_tree, strip_node_name keep path ps) refl
  child_path-strip_node path ps (bytes b) = refl

  child_below :
      (path : Str) (ps : Props) (name : Str)
      → (below : Str) × (child_path path ps (str name) ≡ ok below)
  unfolding child_path
  child_below path ps name = (_, refl)

  -- The name of a node stays.
  del_compat_name :
      (path : Str) (c : Adt) {e : Adt}
      → del_compat keep path c ≡ ok e
      → get (text "name") (props e) ≡ get (text "name") (props c)
  unfolding del_compat
  del_compat_name path (node ps cs) eq = ground (arith, strip_node_name keep path ps)

  mutual
    unfolding del_compat IsNamed fetch

    node-IsClean :
        (path : Str) (d : Adt)
        → IsNamed d
        → (e : Adt) × ((del_compat keep path d ≡ ok e) × IsClean keep path e)
    node-IsClean path (node ps cs) named =
        let (es, (runs, clean)) = children_clean path ps cs named in
        (node (strip_node keep path ps) es, (rw runs refl, IsClean-strip_node path ps es clean))

    children_clean :
        (path : Str) (ps : Props) (cs : Adts)
        → AreNamed cs
        → (es : Adts) × ((del_compat_children keep path ps cs ≡ ok es)
            × AreClean keep path (strip_node keep path ps) es)
    children_clean path ps Nodes.none named = (Nodes.none, (refl, end))
    children_clean path ps (child c cs) ((name, has_name), (inner, outer)) =
        let below = child_below path ps name in
        let (e, (runs, clean)) = node-IsClean (below.0) c inner in
        let (es, (more, rest)) = children_clean path ps cs outer in
        (
          child e es,
          (
            ground (arith, has_name, below.1, runs, more),
            next {below = below.0} {name = str name}
                (rw (del_compat_name (below.0) c runs) has_name)
                (rw (child_path-strip_node path ps (str name)) (below.1)) clean rest,
          ),
        )

  -- On a tree whose nodes have names, `del_compat` returns, and in the tree that it returns every
  -- "compatible" stands in a kept node or names a supported driver.
  pub del_compat_cleans :
      (path : Str) (d : Adt)
      → IsNamed d
      → (e : Adt) × ((del_compat keep path d ≡ ok e) × IsClean keep path e)
  del_compat_cleans = node-IsClean
