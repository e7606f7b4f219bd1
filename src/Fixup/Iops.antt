-- ===== src/Fixup/Iops.antt =====
-- dt_fixup.py: `fixup_iops`, which makes each kept coprocessor startable and gives each nub without a
-- firmware region a region of its own.
pub mod Regions
use darwin_vm.Prelude.{ℕ, suc, ◌+◌, ◌*◌, Bool, true, ◌&&◌, [], ◌∷◌, none, some, if◌then◌else◌}
use darwin_vm.Prelude.Result.{Result, ok}
use darwin_vm.Bytes.{text}
use darwin_vm.Bytes.Utf8.{Str, decode_replace}
use darwin_vm.Text.{contains}
use darwin_vm.Tree.{Nodes, node, child}
use darwin_vm.Fixup.{Val, str, bytes, Error, Props, is_str}
use darwin_vm.Fixup.Dict.{get, has, put}
use darwin_vm.Fixup.Codec.{u64_str}
use darwin_vm.Fixup.Tree.{Adt, Adts, at, set_props}

abbrev pub region_base : ℕ
region_base = 0x10010000000

abbrev pub region_size : ℕ
region_size = 0x100000

abbrev pub region_stride : ℕ
region_stride = 0x1000000

-- The region of a slot starts here.
unfoldable pub region_of : ℕ → ℕ
region_of slot = region_base + slot * region_stride

as_text : Val → Str
as_text (str s) = s
as_text (bytes b) = decode_replace b

unfoldable pub drives_rtbuddy : Props → Bool
unfolding as_text
drives_rtbuddy ps = elim (get (text "compatible") ps) [
  | none ↦ contains (text "rtbuddy") []
  | some v ↦ contains (text "rtbuddy") (as_text v)
]

-- region-base is absent, or iBoot's placeholder.
unfoldable pub lacks_region : Props → Bool
lacks_region ps = elim (get (text "region-base") ps) [
  | none ↦ true
  | some v ↦ is_str v (text "u64:0x0")
]

unfoldable pub needs_region : Props → Bool
unfolding drives_rtbuddy
needs_region ps = drives_rtbuddy ps && lacks_region ps

-- The four assignments to a nub.
unfoldable pub place : ℕ → Props → Props
place slot = set_props (
    (text "pre-loaded", str (text "u32:1"))
    ∷ (text "region-base", u64_str (region_of slot))
    ∷ (text "region-size", u64_str region_size)
    ∷ (text "no-firmware-service", str (text "<NULL>"))
    ∷ [])

-- The loop over the nubs of one coprocessor, with the next free slot.
unfoldable pub place_nubs : ℕ → Adts → Adts × ℕ
place_nubs slot Nodes.none = (Nodes.none, slot)
place_nubs slot (child (node ps cs) rest) =
    let (es, last) = place_nubs (if needs_region ps then suc slot else slot) rest in
    (child (node (if needs_region ps then place slot ps else ps) cs) es, last)

-- The loop over the coprocessors.
unfoldable pub place_iops : ℕ → Adts → Adts × ℕ
place_iops slot Nodes.none = (Nodes.none, slot)
place_iops slot (child (node ps nubs) rest) =
    let (placed, after) = place_nubs slot nubs in
    let kept = has (text "compatible") ps in
    let (es, last) = place_iops (if kept then after else slot) rest in
    (
      child
          (if kept
            then node (put (text "ignore-gating") (str (text "<NULL>")) ps) placed
            else node ps nubs)
          es,
      last,
    )

unfoldable pub start_iops : Adt → Result Error Adt
start_iops (node ps cs) = let (es, last) = place_iops 0 cs in ok (node ps es)

unfoldable pub fixup_iops : Adt → Result Error Adt
unfolding start_iops
fixup_iops = at (text "arm-io" ∷ []) start_iops
