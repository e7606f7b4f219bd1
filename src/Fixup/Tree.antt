-- ===== src/Fixup/Tree.antt =====
-- dt_fixup.py: how the transform reaches a node, `ADTNode.__getitem__`, `__contains__` and
-- `remove_child`, and how it reads and assigns a property there.
use darwin_vm.Prelude.{Bool, true, false, List, [], ◌∷◌, none, some, if◌then◌else◌}
use darwin_vm.Prelude.Result.{Result, ok, raise, ◌>>=◌}
use darwin_vm.Bytes.{text}
use darwin_vm.Bytes.Utf8.{Str}
use darwin_vm.Tree.{Node, Nodes, node, child, props}
use darwin_vm.Fixup.{Val, Error, key_error, value_error, Props, is_str}
use darwin_vm.Fixup.Dict.{get, has, put, without}

abbrev pub Adt : Type 0
Adt = Node (Str × Val)

abbrev pub Adts : Type 0
Adts = Nodes (Str × Val)

-- props[key]
unfoldable pub fetch : Str → Props → Result Error Val
fetch k ps = elim (get k ps) [ none ↦ raise key_error | some v ↦ ok v ]

-- The error of a missing child, whose message quotes the name of the parent.
unfoldable pub missing : Props → Error
missing ps = if has (text "name") ps then value_error else key_error

-- d[key] = f(d[key]), for the first child of that name: a child before it without a name raises.
unfoldable pub on_child : Str → (Adt → Result Error Adt) → Props → Adts → Result Error Adts
unfolding fetch missing
on_child k f self Nodes.none = raise (missing self)
on_child k f self (child c cs) =
    let rest = on_child k f self cs in
    do
      name ← fetch (text "name") (props c)
      if is_str name k then (do e ← f c; ok (child e cs)) else (do es ← rest; ok (child c es))

-- The same at the end of a path of names.
unfoldable pub at : List Str → (Adt → Result Error Adt) → Adt → Result Error Adt
at [] f d = f d
at (k ∷ path) f (node ps cs) = do es ← on_child k (at path f) ps cs; ok (node ps es)

-- d[key]
unfoldable pub get_child : Str → Props → Adts → Result Error Adt
unfolding fetch missing
get_child k self Nodes.none = raise (missing self)
get_child k self (child c cs) =
    let rest = get_child k self cs in
    do name ← fetch (text "name") (props c); if is_str name k then ok c else rest

unfoldable pub lookup : List Str → Adt → Result Error Adt
unfolding get_child
lookup [] d = ok d
lookup (k ∷ path) (node ps cs) = do c ← get_child k ps cs; lookup path c

-- key in d
unfoldable pub has_child : Str → Adts → Result Error Bool
unfolding fetch
has_child k Nodes.none = ok false
has_child k (child c cs) =
    let rest = has_child k cs in
    do name ← fetch (text "name") (props c); if is_str name k then ok true else rest

drop_child : Str → Props → Adts → Result Error Adts
unfolding fetch missing
drop_child k self Nodes.none = raise (missing self)
drop_child k self (child c cs) =
    let rest = drop_child k self cs in
    do
      name ← fetch (text "name") (props c)
      if is_str name k then ok cs else (do es ← rest; ok (child c es))

-- d.remove_child(name)
unfoldable pub remove_child : Str → Adt → Result Error Adt
unfolding drop_child
remove_child k (node ps cs) = do es ← drop_child k ps cs; ok (node ps es)

-- Assignments to the properties of one node, in order.
unfoldable pub set_props : Props → Props → Props
set_props [] ps = ps
set_props ((k, v) ∷ kvs) ps = set_props kvs (put k v ps)

unfoldable pub set_all : Props → Adt → Result Error Adt
set_all kvs (node ps cs) = ok (node (set_props kvs ps) cs)

-- node.props.pop(key, None)
unfoldable pub pop_prop : Str → Adt → Result Error Adt
pop_prop k (node ps cs) = ok (node (without k ps) cs)

-- d[…][…].props[key]
unfoldable pub read : List Str → Str → Adt → Result Error Val
unfolding fetch lookup
read path k d = do c ← lookup path d; fetch k (props c)

-- A loop over the children that changes their properties.
unfoldable pub each_child : (Adt → Adt) → Adts → Adts
each_child f Nodes.none = Nodes.none
each_child f (child c cs) = child (f c) (each_child f cs)
