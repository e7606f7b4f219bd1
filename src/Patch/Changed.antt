-- ===== src/Patch/Changed.antt =====
-- tools/dt_patch.py: the trees before and after an edit at a path.
use darwin_vm.Prelude.{
  ◌≡◌, ◌≢◌, refl, subst, true, false, List, [], ◌∷◌, ◌++◌, none, some, arith, nat_eq, list_eq,
  list_beq_iff, Bool-cases, Option-cases, ◌⊎◌, inl, inr, ◌==◌,
}
use darwin_vm.Prelude.Result.{Result, ok, Result-cases}
use darwin_vm.Bytes.{Bytes}
use darwin_vm.Bytes.Utf8.{Str}
use darwin_vm.Tree.{Node, Nodes, node, child}
use darwin_vm.Patch.{Prop, Error}
use darwin_vm.Patch.Edit.{get, set, node_name, has_name, edit_child, edit_at}
use darwin_vm.Patch.Laws.{names, get-set, names-set}

-- Children that differ in the first one of a name alone.
pub data IsChangedChild (k : Str) (R : Node Prop → Node Prop → Type 0)
    : Nodes Prop → Nodes Prop → Type 0 where
  first :
      {c c' : Node Prop} {cs : Nodes Prop}
      → node_name c ≡ some k
      → R c c'
      → IsChangedChild k R (child c cs) (child c' cs)
  later :
      {c : Node Prop} {cs ds : Nodes Prop}
      → node_name c ≢ some k
      → IsChangedChild k R cs ds
      → IsChangedChild k R (child c cs) (child c ds)

-- Trees that differ in the properties of one node alone, the one at the path: at each part of it the
-- properties and the other children are the same.
unfoldable pub IsChangedAt :
    List Str → (List Prop → List Prop → Type 0) → Node Prop → Node Prop → Type 0
IsChangedAt [] C (node ps cs) (node qs ds) = C ps qs × (ds ≡ cs)
IsChangedAt (part ∷ parts) C (node ps cs) (node qs ds) =
    (qs ≡ ps) × IsChangedChild part (IsChangedAt parts C) cs ds

-- The first property of a name has the new value and keeps its flag; where there is none, one is added
-- at the end; the others are the same.
pub data IsOneSet (key : Str) (v : Bytes) : List Prop → List Prop → Type 0 where
  added : IsOneSet key v [] (record { name = key; flagged = false; value = v } ∷ [])
  replaced :
      {p : Prop} {ps : List Prop}
      → p.name ≡ key
      → IsOneSet key v (p ∷ ps) (record { name = p.name; flagged = p.flagged; value = v } ∷ ps)
  skipped :
      {p : Prop} {ps qs : List Prop}
      → p.name ≢ key
      → IsOneSet key v ps qs
      → IsOneSet key v (p ∷ ps) (p ∷ qs)

-- It is read back, every other key reads what it read, and the names stay in their order, with the name
-- at the end where it was not there.
pub record HasSet (key : Str) (v : Bytes) (ps qs : List Prop) : Type 0 where
  pub one_set : IsOneSet key v ps qs
  pub read_back : get key qs ≡ some v
  pub others : (j : Str) → key ≢ j → get j qs ≡ get j ps
  pub order : (names qs ≡ names ps) ⊎ ((get key ps ≡ none) × (names qs ≡ names ps ++ key ∷ []))

set-IsOneSet : (key : Str) (v : Bytes) (ps : List Prop) → IsOneSet key v ps (set key v ps)
unfolding set
set-IsOneSet key v [] = added
set-IsOneSet key v (p ∷ ps) = elim (Bool-cases (p.name == key)) [
  | inl e ↦ rw (set, e) (replaced (ground (arith, list_beq_iff p.name key)))
  | inr e ↦
      rw (set, e)
        (skipped (λ same. ground (arith, list_beq_iff p.name key)) (set-IsOneSet key v ps))
]

pub set-HasSet : (key : Str) (v : Bytes) (ps : List Prop) → HasSet key v ps (set key v ps)
set-HasSet key v ps = record {
  one_set = set-IsOneSet key v ps;
  read_back = ground (arith, get-set key key v ps, list_beq_iff key key);
  others = λ j h. ground (arith, get-set key j v ps, list_beq_iff key j);
  order = elim (Option-cases (get key ps)) [
    | inl e ↦ inr (e, ground (arith, names-set key v ps))
    | inr (w, e) ↦ inl (ground (arith, names-set key v ps))
  ];
}

named : (k : Str) (n : Node Prop) → has_name k n ≡ true → node_name n ≡ some k
unfolding has_name
named k n h = elim (Option-cases (node_name n)) [
  | inl e ↦ absurd (ground arith)
  | inr (m, e) ↦ ground (arith, list_beq_iff m k)
]

not_named : (k : Str) (n : Node Prop) → has_name k n ≡ false → node_name n ≢ some k
unfolding has_name
not_named k n h = λ e. ground (arith, list_beq_iff k k)

module _ (k : Str) (g : Node Prop → Result Error (Node Prop)) (R : Node Prop → Node Prop → Type 0)
    (makes : (m m' : Node Prop) → g m ≡ ok m' → R m m') where
  edit_child-IsChangedChild :
      (cs ds : Nodes Prop) → edit_child k g cs ≡ ok ds → IsChangedChild k R cs ds
  unfolding edit_child
  edit_child-IsChangedChild Nodes.none ds = λ h. absurd (ground arith)
  edit_child-IsChangedChild (child c cs) ds = λ h. elim (Bool-cases (has_name k c)) [
    | inl t ↦ elim (Result-cases (g c)) [
      | inr (x, e) ↦ absurd (ground arith)
      | inl (c', e) ↦
          let same : child c' cs ≡ ds = ground arith in
          subst (IsChangedChild k R (child c cs)) same (first (named k c t) (makes c c' e))
    ]
    | inr t ↦ elim (Result-cases (edit_child k g cs)) [
      | inr (x, e) ↦ absurd (ground arith)
      | inl (cs', e) ↦
          let same : child c cs' ≡ ds = ground arith in
          subst (IsChangedChild k R (child c cs)) same
            (later (not_named k c t) (edit_child-IsChangedChild cs cs' e))
    ]
  ]

module _ (f : List Prop → Result Error (List Prop)) (C : List Prop → List Prop → Type 0)
    (makes : (ps qs : List Prop) → f ps ≡ ok qs → C ps qs) where
  -- An edit at a path changes the properties of the node there, and nothing else in the tree.
  pub edit_at-IsChangedAt :
      (parts : List Str) (n n' : Node Prop) → edit_at parts f n ≡ ok n' → IsChangedAt parts C n n'
  unfolding edit_at IsChangedAt
  edit_at-IsChangedAt [] (node ps cs) n' h = elim (Result-cases (f ps)) [
    | inr (x, e) ↦ absurd (ground arith)
    | inl (qs, e) ↦
        let same : node qs cs ≡ n' = ground arith in
        subst (IsChangedAt [] C (node ps cs)) same (makes ps qs e, refl)
  ]
  edit_at-IsChangedAt (part ∷ parts) (node ps cs) n' h =
      elim (Result-cases (edit_child part (edit_at parts f) cs)) [
        | inr (x, e) ↦ absurd (ground arith)
        | inl (ds, e) ↦
            let same : node ps ds ≡ n' = ground arith in
            subst (IsChangedAt (part ∷ parts) C (node ps cs)) same (
              refl,
              edit_child-IsChangedChild part (edit_at parts f) (IsChangedAt parts C)
                  (λ m m' e'. edit_at-IsChangedAt parts m m' e') cs ds e,
            )
      ]
