-- ===== src/Patch/Placed.antt =====
-- tools/dt_patch.py: what `find` returns before and after an edit at a path.
use darwin_vm.Prelude.{
  ◌≡◌, refl, ap, sym, ◌∙◌, true, List, [], ◌∷◌, some, arith, nat_eq, list_eq, list_beq_iff, ◌==◌,
  if◌then◌else◌, Bool-cases, Option-cases, inl, inr, ==_refl,
}
use darwin_vm.Prelude.Result.{Result, ok, Result-cases}
use darwin_vm.Bytes.{text}
use darwin_vm.Bytes.Utf8.{Str}
use darwin_vm.Tree.{Node, Nodes, node, child, children, props}
use darwin_vm.Patch.{Prop, Error}
use darwin_vm.Patch.Edit.{get, node_name, has_name, child_named, find, edit_child, edit_at}

abbrev pub Change : Type 0
Change = List Prop → Result Error (List Prop)

-- The change leaves the name of the node alone.
abbrev pub KeepsName : Change → Type 0
KeepsName f = (ps qs : List Prop) → f ps ≡ ok qs → get (text "name") qs ≡ get (text "name") ps

abbrev pub SameName : Node Prop → Node Prop → Type 0
SameName m n = node_name m ≡ node_name n

has_name_same : (k : Str) (m n : Node Prop) → SameName m n → has_name k m ≡ has_name k n
unfolding has_name
has_name_same k m n h = rw (h, has_name)

abbrev NodeEdit : Type 0
NodeEdit = Node Prop → Result Error (Node Prop)

abbrev NameKeeping : NodeEdit → Type 0
NameKeeping g = (m m' : Node Prop) → g m ≡ ok m' → SameName m' m

-- `edit_child` changes the child that `child_named` returns, and no other name changes hands.
record Edited (k : Str) (g : NodeEdit) (cs ds : Nodes Prop) : Type 0 where
  before : Node Prop
  after : Node Prop
  found : child_named k cs ≡ some before
  changed : g before ≡ ok after
  lookups : (j : Str) → child_named j ds ≡ (if k == j then some after else child_named j cs)

-- A node with a name has no other.
has_name_ne : (k j : Str) (n : Node Prop) → has_name k n ≡ true → has_name j n ≡ (k == j)
unfolding has_name
has_name_ne k j n h = elim (Option-cases (node_name n)) [
  | inl e ↦ absurd (ground arith)
  | inr (m, e) ↦ ground (arith, list_beq_iff m k, list_beq_iff m j, list_beq_iff k j)
]

edit_child_inv :
    (k : Str) (g : NodeEdit) (cs : Nodes Prop) {ds : Nodes Prop}
    → NameKeeping g
    → edit_child k g cs ≡ ok ds
    → Edited k g cs ds
unfolding edit_child child_named
edit_child_inv k g Nodes.none keeps h = absurd (ground arith)
edit_child_inv k g (child c cs) {ds} keeps h = elim (Bool-cases (has_name k c)) [
  | inl t ↦ elim (Result-cases (g c)) [
    | inr (x, e) ↦ absurd (ground arith)
    | inl (c', e) ↦ record {
      before = c;
      after = c';
      found = rw t;
      changed = e;
      lookups = λ j. ground (arith, has_name_ne k j c t, has_name_same j c' c (keeps c c' e));
    }
  ]
  | inr t ↦ elim (Result-cases (edit_child k g cs)) [
    | inr (x, e) ↦ absurd (ground arith)
    | inl (cs', e) ↦
        let q = edit_child_inv k g cs keeps e in
        record {
          before = q.before;
          after = q.after;
          found = rw t q.found;
          changed = q.changed;
          lookups = λ j. ground (arith, q.lookups j, list_beq_iff k j);
        }
  ]
]

edit_at-SameName :
    (parts : List Str) (f : Change) (n : Node Prop) {n' : Node Prop}
    → KeepsName f
    → edit_at parts f n ≡ ok n'
    → SameName n' n
unfolding edit_at node_name
edit_at-SameName [] f (node ps cs) {n'} keeps h = elim (Result-cases (f ps)) [
  | inr (x, e) ↦ absurd (ground arith)
  | inl (qs, e) ↦ ground (arith, keeps ps qs e)
]
edit_at-SameName (part ∷ parts) f (node ps cs) {n'} keeps h =
    elim (Result-cases (edit_child part (edit_at parts f) cs)) [
      | inr (x, e) ↦ absurd (ground arith)
      | inl (ds, e) ↦ ground arith
    ]

find_step :
    (part : Str) (parts : List Str) (ps : List Prop) (cs : Nodes Prop) {c : Node Prop}
    → child_named part cs ≡ some c
    → find (part ∷ parts) (node ps cs) ≡ find parts c
unfolding find
find_step part parts ps cs h = rw (h, find)

-- What `find` returns before and after an edit at a path, for a relation of the properties there.
pub record Placed (parts : List Str) (C : List Prop → List Prop → Type 0) (n n' : Node Prop)
    : Type 0 where
  pub target : Node Prop
  pub changed : List Prop
  pub found : find parts n ≡ ok target
  pub made : C (props target) changed
  pub finds : find parts n' ≡ ok (node changed (children target))

module _ (f : Change) (C : List Prop → List Prop → Type 0)
    (makes : (ps qs : List Prop) → f ps ≡ ok qs → C ps qs) where
  -- An edit that keeps the name of its node succeeds only where `find` does, and afterwards `find`
  -- returns the node with its properties changed and its children as they were.
  pub edit_at-Placed :
      (parts : List Str) (n n' : Node Prop)
      → KeepsName f
      → edit_at parts f n ≡ ok n'
      → Placed parts C n n'
  unfolding edit_at find
  edit_at-Placed [] (node ps cs) n' keeps h = elim (Result-cases (f ps)) [
    | inr (x, e) ↦ absurd (ground arith)
    | inl (qs, e) ↦ record {
      target = node ps cs;
      changed = qs;
      found = refl;
      made = makes ps qs e;
      finds = ground arith;
    }
  ]
  edit_at-Placed (part ∷ parts) (node ps cs) n' keeps h =
      elim (Result-cases (edit_child part (edit_at parts f) cs)) [
        | inr (x, e) ↦ absurd (ground arith)
        | inl (ds, e) ↦
            let q =
              edit_child_inv part (edit_at parts f) cs
                (λ m m' e'. edit_at-SameName parts f m keeps e') e in
            let r = edit_at-Placed parts q.before q.after keeps q.changed in
            let shape : node ps ds ≡ n' = ground arith in
            record {
              target = r.target;
              changed = r.changed;
              found = find_step part parts ps cs q.found ∙ r.found;
              made = r.made;
              finds =
                  ap (find (part ∷ parts)) (sym shape)
                  ∙ find_step part parts ps ds (q.lookups part ∙ rw (==_refl part))
                  ∙ r.finds;
            }
      ]
