-- ===== src/Fixup/Sep.antt =====
-- dt_fixup.py: the security processor, the interrupt controller, the secure monitor's memory map and
-- the platform's name and generation: `fixup_sep`, `fixup_aic`, `fixup_sptm`, `get_platform_name` and
-- `get_soc_gen`.
use darwin_vm.Prelude.{
  ℕ, Bool, ◌&&◌, ◌||◌, List, [], ◌∷◌, none, some, any, all, nat_eq, list_eq, ◌==◌, leb,
  if◌then◌else◌, replicate,
}
use darwin_vm.Prelude.Result.{Result, ok, raise, ◌>>=◌}
use darwin_vm.Bytes.{text}
use darwin_vm.Bytes.Utf8.{Str, decode_strict}
use darwin_vm.PyInt.{ℤ, pos, python_int10, hex_int}
use darwin_vm.Text.{contains, split}
use darwin_vm.Tree.{node, children}
use darwin_vm.Fixup.{Val, str, bytes, Error, value_error, index_error, unicode_error, Props}
use darwin_vm.Fixup.Dict.{get, put}
use darwin_vm.Fixup.Codec.{or_raise, u32_str}
use darwin_vm.Fixup.Tree.{Adt, at, lookup, has_child, remove_child, set_all, pop_prop, read}
use darwin_vm.Fixup.Compat.{as_bytes}

-- The second of the texts that commas part, of /arm-io's compatible.
unfoldable pub get_platform_name : Adt → Result Error Str
get_platform_name d = do
  v ← read (text "arm-io" ∷ []) (text "compatible") d
  compat ← as_str v
  second (split b',' compat)
  where
    as_str : Val → Result Error Str
    as_str (str s) = ok s
    as_str (bytes b) = or_raise (decode_strict b) unicode_error

    second : List Str → Result Error Str
    second [] = raise index_error
    second (a ∷ []) = raise index_error
    second (a ∷ b ∷ rest) = ok b

-- The number behind an "H"; 0 for what is no text or starts with another letter.
unfoldable pub get_soc_gen : Adt → Result Error ℤ
get_soc_gen d = do v ← read (text "arm-io" ∷ []) (text "soc-generation") d; generation v
  where
    generation : Val → Result Error ℤ
    generation (bytes b) = ok (pos 0)
    generation (str []) = raise index_error
    generation (str (c ∷ s)) =
        if c == b'H' then or_raise (python_int10 s) value_error else ok (pos 0)

unfoldable pub is_hex_digit : ℕ → Bool
is_hex_digit c = leb b'0' c && leb c b'9' || leb b'a' c && leb c b'f' || leb b'A' c && leb c b'F'

-- The chip id, where the platform's name is a "t" and hexadecimal digits.
unfoldable pub set_chip_id : Str → Adt → Result Error Adt
set_chip_id [] d = ok d
set_chip_id (c ∷ s) d =
    if c == b't' && all is_hex_digit s
    then (do
      n ← or_raise (hex_int s) value_error
      at (text "chosen" ∷ []) (set_all ((text "chip-id", u32_str n) ∷ [])) d)
    else ok d

abbrev pub nub_path : List Str
nub_path = text "arm-io" ∷ text "sep" ∷ text "iop-sep-nub" ∷ []

-- struct.pack("<QQ", …) of an entry that is not set, and of zero
abbrev pub unset : Val
unset = bytes (replicate 16 0xff)

abbrev pub zero_range : Val
zero_range = bytes (replicate 16 0)

-- Without the feature, the node goes.
unfoldable pub remove_sep : Adt → Result Error Adt
remove_sep d = do
  io ← lookup (text "arm-io" ∷ []) d
  present ← has_child (text "sep") (children io)
  if present then at (text "arm-io" ∷ []) (remove_child (text "sep")) d else ok d

remove_xart : Adt → Result Error Adt
remove_xart d = do
  nub ← lookup nub_path d
  present ← has_child (text "xART") (children nub)
  if present then at nub_path (remove_child (text "xART")) d else ok d

unfoldable pub enable_sep : Adt → Result Error Adt
unfolding remove_xart
enable_sep d₀ = do
  d₁ ← at nub_path (set_all ((text "rom-panic-bytes", str (text "u32:0x100")) ∷ [])) d₀
  d₂ ← at nub_path (pop_prop (text "function-wait_for_power_gate")) d₁
  d₃ ← at nub_path (set_all ((text "sepfw-loaded", str (text "u32:0x1")) ∷ [])) d₂
  d₄ ← at (text "chosen" ∷ text "memory-map" ∷ []) (set_all ((text "SEPFW", unset) ∷ [])) d₃
  d₅ ← at (text "chosen" ∷ []) (set_all ((text "sepfw-load-at-boot", str (text "u32:0x0")) ∷ [])) d₄
  platform ← get_platform_name d₅
  d₆ ← set_chip_id platform d₅
  remove_xart d₆

abbrev pub keeps_sep : List Str → Bool
keeps_sep keep = any (λ k. k == text "arm-io/sep") keep

unfoldable pub fixup_sep : List Str → Adt → Result Error Adt
fixup_sep keep d = if keeps_sep keep then enable_sep d else remove_sep d

-- Of version 2 or 3, the interrupt controller acknowledges at an offset.
unfoldable pub fixup_aic : Adt → Result Error Adt
fixup_aic (node ps cs) = elim (get (text "compatible") ps) [
  | none ↦ raise value_error
  | some v ↦
      if contains (text "aic,2") (as_bytes v) || contains (text "aic,3") (as_bytes v)
      then ok (node (put (text "aic-iack-offset") (str (text "u64:0x1000")) ps) cs)
      else ok (node ps cs)
]

-- The entries of the memory map that the loader fills in.
abbrev pub regions : List Str
regions =
    text "TXM-ro"
    ∷ text "TXM-rx"
    ∷ text "TXM-bx"
    ∷ text "TXM-rw"
    ∷ text "TXM-le"
    ∷ text "TXM-entry"
    ∷ text "TXM-virt"
    ∷ text "TrustCache"
    ∷ text "BootKC-rx"
    ∷ text "BootKC-bx"
    ∷ text "BootKC-ro"
    ∷ text "BootKC-rs"
    ∷ text "BootKC-rw"
    ∷ text "BootKC-le"
    ∷ text "BootKC-virt"
    ∷ text "BootKC-entry"
    ∷ text "DeviceTree"
    ∷ text "SPTM-ro"
    ∷ text "SPTM-rm"
    ∷ text "SPTM-rx"
    ∷ text "SPTM-rw"
    ∷ text "SPTM-le"
    ∷ text "SPTM-entry"
    ∷ text "SPTM-virt"
    ∷ text "BootArgs"
    ∷ text "slide"
    ∷ text "CL4-rx"
    ∷ text "CL4-ro"
    ∷ text "CL4-rw"
    ∷ text "CL4-le"
    ∷ text "CL4-dummypage"
    ∷ text "CL4-entry"
    ∷ text "CL4-virt"
    ∷ text "CL4-dummypage"
    ∷ text "RAMDisk"
    ∷ text "PurpleGfxMem"
    ∷ []

unfoldable pub set_each : List Str → Val → Props → Props
set_each [] v ps = ps
set_each (k ∷ ks) v ps = set_each ks v (put k v ps)

map_memory : Adt → Result Error Adt
map_memory (node ps cs) = ok (node (put (text "slide") zero_range (set_each regions unset ps)) cs)

unfoldable pub fixup_sptm : Adt → Result Error Adt
unfolding map_memory
fixup_sptm d = do
  mapped ← at (text "chosen" ∷ text "memory-map" ∷ []) map_memory d
  at (text "arm-io" ∷ []) (remove_child (text "sgx")) mapped
