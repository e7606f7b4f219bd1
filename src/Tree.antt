-- ===== src/Tree.antt =====
-- The shape that the device-tree tools share: a node with its properties, in order, and its
-- children, in order. Each tool has its own kind of property.
use darwin_vm.Prelude.{ℕ, suc, ◌≡◌, refl, List, arith}

mutual
  pub data Node (P : Type 0) : Type 0 where
    node : List P → Nodes P → Node P

  pub data Nodes (P : Type 0) : Type 0 where
    none : Nodes P
    child : Node P → Nodes P → Nodes P

module _ {P : Type 0} where
  abbrev pub props : Node P → List P
  props (node ps cs) = ps

  abbrev pub children : Node P → Nodes P
  children (node ps cs) = cs

  abbrev pub count : Nodes P → ℕ
  count none = 0
  count (child n cs) = suc (count cs)

  abbrev pub snoc : Nodes P → Node P → Nodes P
  snoc none m = child m none
  snoc (child n cs) m = child n (snoc cs m)

  pub count-snoc : (cs : Nodes P) (m : Node P) → count (snoc cs m) ≡ suc (count cs)
  count-snoc none m = refl
  count-snoc (child n cs) m = omega (arith, count-snoc cs m)
