-- ===== src/Fixup/Storage.antt =====
-- dt_fixup.py: what becomes of the file systems: `fixup_ephemeral_data`,
-- `fixup_fstab_drop_unavailable` and `fixup_skip_keybag`.
pub mod Laws
use darwin_vm.Prelude.{
  ℕ, zero, suc, ◌+◌, Bool, false, not, ◌&&◌, List, [], ◌∷◌, ◌++◌, none, some, any, nat_eq, list_eq,
  ◌==◌, leb, ltb, drop, if◌then◌else◌,
}
use darwin_vm.Prelude.Result.{Result, ok, ◌>>=◌, ◌>>◌, check}
use darwin_vm.Bytes.{text}
use darwin_vm.Bytes.Utf8.{Str}
use darwin_vm.PyInt.{ℤ, pos, negsuc, decimal_str}
use darwin_vm.Text.{starts_with, contains}
use darwin_vm.Tree.{Nodes, node, child, children, count}
use darwin_vm.Fixup.{str, bytes, Error, value_error, Props, is_str}
use darwin_vm.Fixup.Dict.{get, has, put}
use darwin_vm.Fixup.Tree.{Adt, Adts, at, lookup, has_child, set_all, each_child}

-- str(n)
unfoldable pub int_str : ℤ → Str
int_str (pos n) = decimal_str n
int_str (negsuc n) = text "-" ++ decimal_str (suc n)

-- How many digits a text starts with.
unfoldable pub digits_at : Str → ℕ
digits_at [] = 0
digits_at (c ∷ s) = let n = digits_at s in if leb b'0' c && leb c b'9' then suc n else 0

-- re.sub(r'size=\d+', replacement, text), left to right; `skip` characters belong to a match.
sub_from : Str → ℕ → Str → Str
unfolding digits_at
sub_from by skip [] = []
sub_from by (suc skip) (c ∷ s) = sub_from by skip s
sub_from by zero (c ∷ s) =
    let m = digits_at (drop 4 s) in
    if starts_with (text "size=") (c ∷ s) && ltb 0 m
    then by ++ sub_from by (4 + m) s
    else c ∷ sub_from by 0 s

unfoldable pub sub_size : Str → Str → Str
unfolding sub_from
sub_size by = sub_from by 0

-- One volume of the ephemeral table.
unfoldable pub resize_volume : ℤ → Adt → Adt
resize_volume blocks (node ps cs) = elim (get (text "vol.fs_mntopts") ps) [
  | none ↦ node ps cs
  | some (bytes b) ↦ node ps cs
  | some (str opts) ↦
      if contains (text "size=") opts
      then node
          (put (text "vol.fs_mntopts") (str (sub_size (text "size=" ++ int_str blocks) opts)) ps) cs
      else node ps cs
]

promote : ℤ → Adt → Result Error Adt
promote blocks (node ps cs) =
    ok (node (put (text "name") (str (text "fstab")) ps) (each_child (resize_volume blocks) cs))

unfoldable pub fixup_ephemeral_data : ℤ → Adt → Result Error Adt
unfolding promote
fixup_ephemeral_data blocks d = do
  fs ← lookup (text "filesystems" ∷ []) d
  present ← has_child (text "fstab-ephemeral-recovery-data") (children fs)
  check present value_error
  renamed ←
      at (text "filesystems" ∷ text "fstab" ∷ [])
        (set_all ((text "name", str (text "fstab-disk")) ∷ [])) d
  at (text "filesystems" ∷ text "fstab-ephemeral-recovery-data" ∷ []) (promote blocks) renamed

abbrev pub dropped_volumes : List Str
dropped_volumes = text "xART" ∷ text "Baseband-Data" ∷ text "Update" ∷ []

-- A volume that no disk image can have. The `str` of a `bytes` names none.
unfoldable pub is_unavailable : Props → Bool
is_unavailable ps = elim (get (text "vol.fs_name") ps) [
  | none ↦ false
  | some v ↦ any (λ t. is_str v t) dropped_volumes
]

unfoldable pub keep_available : Adts → Adts
keep_available Nodes.none = Nodes.none
keep_available (child (node ps cs) rest) =
    let kept = keep_available rest in if is_unavailable ps then kept else child (node ps cs) kept

-- The table itself: a count that is there is updated when a volume goes.
unfoldable pub drop_unavailable : Adt → Adt
drop_unavailable (node ps cs) =
    let kept = keep_available cs in
    let removed = not (count kept == count cs) in
    if removed && has (text "max_fs_entries") ps
    then node (put (text "max_fs_entries") (str (text "u32:" ++ decimal_str (count kept))) ps) kept
    else node ps kept

unfoldable pub fixup_fstab_drop_unavailable : Adt → Result Error Adt
fixup_fstab_drop_unavailable d = do
  fs ← lookup (text "filesystems" ∷ []) d
  present ← has_child (text "fstab") (children fs)
  if present
      then at (text "filesystems" ∷ text "fstab" ∷ []) (λ tab. ok (drop_unavailable tab)) d
      else ok d

unfoldable pub fixup_skip_keybag : Adt → Result Error Adt
fixup_skip_keybag =
    at (text "product" ∷ []) (set_all ((text "boot-ios-diagnostics", str (text "u32:1")) ∷ []))
