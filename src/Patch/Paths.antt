-- ===== src/Patch/Paths.antt =====
-- tools/dt_patch.py: the edits of a file.
use mathlib.Core.List.{append-nil}
use darwin_vm.Prelude.{
  ◌≡◌, ◌≢◌, subst, List, [], ◌∷◌, ◌++◌, arith, nat_eq, list_eq, list_beq_iff, inl, inr, length, suc,
}
use darwin_vm.Prelude.Result.{ok, raise, ◌>>=◌, Result-cases}
use darwin_vm.Bytes.{Bytes, text}
use darwin_vm.Bytes.Utf8.{Str}
use darwin_vm.Text.{partition, rpartition, split}
use darwin_vm.Tree.{Node}
use darwin_vm.Patch.{Prop, Error}
use darwin_vm.Patch.Codec.{decode, encode_node}
use darwin_vm.Patch.Edit.{set, edit_at, apply_set, apply_all, patch, parse_value}
use darwin_vm.Patch.Laws.{get-set}
use darwin_vm.Patch.Changed.{IsChangedAt, HasSet, set-HasSet, edit_at-IsChangedAt}
use darwin_vm.Patch.Placed.{Change, KeepsName, Placed, edit_at-Placed}
use darwin_vm.Patch.RoundTrip.{IsPlainTree, decode-encode_tree}

-- `-set` of any key but `name` keeps names.
pub set-KeepsName : (k : Str) (v : Bytes) → k ≢ text "name" → KeepsName (λ ps. ok (set k v ps))
set-KeepsName k v h ps qs e =
    ground (arith, get-set k (text "name") v ps, list_beq_iff k (text "name"))

-- With no edit, the tool writes back every file that encodes a plain tree, byte for byte.
pub patch_nothing :
    (root : Node Prop) (file : Bytes)
    → IsPlainTree root
    → encode_node root ≡ ok file
    → patch [] [] file ≡ ok file
unfolding patch apply_all
patch_nothing root file w e =
    let h : decode (suc (length file)) (file ++ []) ≡ ok (root, []) =
      decode-encode_tree root (suc (length file)) file [] w e (omega arith) in
    rw (rw append-nil at h, e)

abbrev pub set_change : Str → Str → Change
set_change key val ps = do v ← parse_value val; ok (set key v ps)

set_change-KeepsName : (key val : Str) → key ≢ text "name" → KeepsName (set_change key val)
set_change-KeepsName key val h ps qs e = elim (Result-cases (parse_value val)) [
  | inr (x, e') ↦ absurd (ground arith)
  | inl (v, e') ↦ set-KeepsName key v h ps qs (ground arith)
]

abbrev pub path_of : Str → Str
path_of s = (rpartition b':' (partition b'=' s).0).0

abbrev pub key_of : Str → Str
key_of s = (rpartition b':' (partition b'=' s).0).1

-- What a successful -set of a value at a key does to a tree: the value is the one that the text denotes,
-- it is set at the path, and the trees are the same elsewhere.
pub record IsPatched (parts : List Str) (key val : Str) (n n' : Node Prop) : Type 0 where
  pub value : Bytes
  pub denoted : parse_value val ≡ ok value
  pub placed : Placed parts (HasSet key value) n n'
  pub elsewhere : IsChangedAt parts (HasSet key value) n n'

set_change-HasSet :
    (key val : Str) (v : Bytes) (ps qs : List Prop)
    → parse_value val ≡ ok v
    → set_change key val ps ≡ ok qs
    → HasSet key v ps qs
set_change-HasSet key val v ps qs e h =
    let same : set key v ps ≡ qs = ground arith in
    subst (HasSet key v ps) same (set-HasSet key v ps)

set_change-fails :
    (parts : List Str) (key val : Str) (x : Error) (n n' : Node Prop)
    → key ≢ text "name"
    → parse_value val ≡ raise x
    → edit_at parts (set_change key val) n ≢ ok n'
set_change-fails parts key val x n n' k e = λ h.
    let p =
      edit_at-Placed (set_change key val) (λ ps qs. set_change key val ps ≡ ok qs) (λ ps qs e'. e')
        parts n n' (set_change-KeepsName key val k) h in
    let made = p.made in ground arith

edit_at-IsPatched :
    (parts : List Str) (key val : Str) (n n' : Node Prop)
    → key ≢ text "name"
    → edit_at parts (set_change key val) n ≡ ok n'
    → IsPatched parts key val n n'
edit_at-IsPatched parts key val n n' k h = elim (Result-cases (parse_value val)) [
  | inr (x, e) ↦ absurd (set_change-fails parts key val x n n' k e h)
  | inl (v, e) ↦
      let makes = λ (ps qs : List Prop) (made : set_change key val ps ≡ ok qs).
        set_change-HasSet key val v ps qs e made in
      record {
        value = v;
        denoted = e;
        placed =
            edit_at-Placed (set_change key val) (HasSet key v) makes parts n n'
              (set_change-KeepsName key val k) h;
        elsewhere = edit_at-IsChangedAt (set_change key val) (HasSet key v) makes parts n n' h;
      }
]

-- A successful `-set PATH:KEY=VALUE` of any key but `name`, on a file that encodes a plain tree: the
-- output encodes a tree in which the path leads to the node that it led to, with its children as they
-- were; there the key reads back the bytes that VALUE denotes, every other key reads what it read, and
-- the names of the properties stay in their order, with KEY at the end where it was not there. One
-- property, the first of that name, has a new value or has been added; the other properties and the
-- rest of the tree are as they were.
pub patch_set :
    (s : Str) (root : Node Prop) (file out : Bytes)
    → key_of s ≢ text "name"
    → IsPlainTree root
    → encode_node root ≡ ok file
    → patch (s ∷ []) [] file ≡ ok out
    → (root' : Node Prop) × (encode_node root' ≡ ok out)
      × IsPatched (split b'/' (path_of s)) (key_of s) (partition b'=' s).1 root root'
unfolding patch apply_all apply_set
patch_set s root file out k w e h =
    let d : decode (suc (length file)) (file ++ []) ≡ ok (root, []) =
      decode-encode_tree root (suc (length file)) file [] w e (omega arith) in
    let d' : decode (suc (length file)) file ≡ ok (root, []) = rw append-nil at d in
    let parts = split b'/' (path_of s) in
    let val = (partition b'=' s).1 in
    elim (Result-cases (edit_at parts (set_change (key_of s) val) root)) [
      | inr (x, x') ↦ absurd (ground arith)
      | inl (root', e') ↦
          (root', ground arith, edit_at-IsPatched parts (key_of s) val root root' k e')
    ]
