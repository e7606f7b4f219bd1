-- ===== src/Fixup/Compat.antt =====
-- dt_fixup.py: which drivers may bind. `del_compat` strips the "compatible" of every node but the
-- supported and the kept ones; `fixup_spmi`, `drop_exclave_routes` and `fixup_darts` follow it.
pub mod Strip
pub mod Darts
use darwin_vm.Prelude.{
  ℕ, suc, Bool, false, not, ◌&&◌, ◌||◌, List, [], ◌∷◌, ◌++◌, none, some, any, nat_eq, list_eq, ◌==◌,
  if◌then◌else◌,
}
use darwin_vm.Prelude.Result.{Result, ok, raise, ◌>>=◌}
use darwin_vm.Bytes.{Bytes, text}
use darwin_vm.Bytes.Utf8.{Str, encode}
use darwin_vm.PyInt.{decimal_str}
use darwin_vm.Text.{starts_with, contains}
use darwin_vm.Tree.{Nodes, node, child, props, children}
use darwin_vm.Fixup.{Val, str, bytes, Error, type_error, Props, is_str}
use darwin_vm.Fixup.Dict.{get, has, put, without}
use darwin_vm.Fixup.Tree.{Adt, Adts, fetch, at, lookup, has_child, each_child}

abbrev pub supported_drivers : List Bytes
supported_drivers = text "AppleARM" ∷ text "aic" ∷ text "arm-io" ∷ text "uart-1,samsung" ∷ []

unfoldable pub as_bytes : Val → Bytes
as_bytes (str s) = encode s
as_bytes (bytes b) = b

-- any(x in compat for x in SUPPORTED_DRIVERS)
unfoldable pub is_supported : Val → Bool
is_supported v = any (λ x. contains x (as_bytes v)) supported_drivers

-- The test on KEEP_COMPAT_PATHS: a path in the set, or below one.
unfoldable pub keeps : List Str → Str → Bool
keeps keep rel = any (λ k. rel == k || starts_with (k ++ text "/") rel) keep

-- path.lstrip('/')
unfoldable pub lstrip_slash : Str → Str
lstrip_slash [] = []
lstrip_slash (c ∷ s) = let rest = lstrip_slash s in if c == b'/' then rest else c ∷ s

-- 'compatible' goes if no supported driver is named in it.
unfoldable pub strip_compat : Props → Props
strip_compat ps = elim (get (text "compatible") ps) [
  | none ↦ ps
  | some v ↦ if is_supported v then ps else without (text "compatible") ps
]

is_external_display : Props → Bool
is_external_display ps = elim (get (text "device_type") ps) [
  | none ↦ false
  | some v ↦ is_str v (text "ext-display-subsystem")
]

-- dispext0, once without a driver, loses its device type too.
unfoldable pub strip_external : Str → Props → Props
unfolding is_external_display
strip_external rel ps =
    if rel == text "arm-io/dispext0" && (not (has (text "compatible") ps) && is_external_display ps)
    then without (text "device_type") ps
    else ps

-- What `del_compat` does to one node, its children aside.
unfoldable pub strip_node : List Str → Str → Props → Props
strip_node keep path ps =
    let rel = lstrip_slash path in
    if keeps keep rel then ps else strip_external rel (strip_compat ps)

is_device_tree : Props → Bool
is_device_tree ps = elim (get (text "name") ps) [
  | none ↦ false
  | some v ↦ is_str v (text "device-tree")
]

-- The path of a child. A name that is not a text does not concatenate.
unfoldable pub child_path : Str → Props → Val → Result Error Str
unfolding is_device_tree
child_path path ps (bytes b) = raise type_error
child_path path ps (str name) =
    ok (if not (path == []) || not (is_device_tree ps) then path ++ (text "/" ++ name) else name)

unfoldable mutual
  pub del_compat : List Str → Str → Adt → Result Error Adt
  del_compat keep path (node ps cs) = do
    es ← del_compat_children keep path ps cs
    ok (node (strip_node keep path ps) es)

  pub del_compat_children : List Str → Str → Props → Adts → Result Error Adts
  del_compat_children keep path ps Nodes.none = ok Nodes.none
  del_compat_children keep path ps (child c cs) = do
    name ← fetch (text "name") (props c)
    below ← child_path path ps name
    e ← del_compat keep below c
    es ← del_compat_children keep path ps cs
    ok (child e es)

-- Only the power-management unit keeps its driver on the SPMI bus.
unfoldable pub keep_pmu : Adt → Adt
keep_pmu (node ps cs) = elim (get (text "compatible") ps) [
  | none ↦ node ps cs
  | some v ↦
      if starts_with (text "pmu,spmi") (as_bytes v)
      then node ps cs
      else node (without (text "compatible") ps) cs
]

on_children : (Adts → Adts) → Adt → Result Error Adt
on_children f (node ps cs) = ok (node ps (f cs))

abbrev pub keeps_spmi : List Str → Bool
keeps_spmi keep = any (λ k. k == text "arm-io/nub-spmi0") keep

unfoldable pub fixup_spmi : List Str → Adt → Result Error Adt
unfolding on_children
fixup_spmi keep d = if not (keeps_spmi keep) then ok d else do
  io ← lookup (text "arm-io" ∷ []) d
  present ← has_child (text "nub-spmi0") (children io)
  if present
      then at (text "arm-io" ∷ text "nub-spmi0" ∷ []) (on_children (each_child keep_pmu)) d
      else ok d

drop_routes : Adt → Adt
drop_routes (node ps cs) = node (without (text "routes") ps) cs

-- A coprocessor that still has a driver loses the routes of its nubs.
unfoldable pub drop_nub_routes : Adt → Adt
unfolding drop_routes
drop_nub_routes (node ps cs) =
    if has (text "compatible") ps then node ps (each_child drop_routes cs) else node ps cs

unfoldable pub drop_exclave_routes : Adt → Result Error Adt
unfolding on_children
drop_exclave_routes = at (text "arm-io" ∷ []) (on_children (each_child drop_nub_routes))

-- A DART that still has a driver.
unfoldable pub is_dart : Props → Bool
is_dart ps =
    elim (get (text "device_type") ps) [ none ↦ false | some v ↦ is_str v (text "dart") ]
    && has (text "compatible") ps

-- The loop of `fixup_darts`, from the number that the next DART gets.
unfoldable pub number_darts : ℕ → Adts → Adts
number_darts n Nodes.none = Nodes.none
number_darts n (child (node ps cs) rest) =
    let numbered = number_darts (if is_dart ps then suc n else n) rest in
    if is_dart ps
    then child (node (put (text "dart-id") (str (text "u32:" ++ decimal_str n)) ps) cs) numbered
    else child (node ps cs) numbered

unfoldable pub fixup_darts : Adt → Result Error Adt
unfolding on_children
fixup_darts = at (text "arm-io" ∷ []) (on_children (number_darts 0))
