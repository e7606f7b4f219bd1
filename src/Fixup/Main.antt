-- ===== src/Fixup/Main.antt =====
-- dt_fixup.py: `fixup`, `fixup_development_activation` and the command line of `main`.
use darwin_vm.Prelude.{
  ℕ, suc, ◌+◌, ◌*◌, Bool, true, false, not, List, [], ◌∷◌, ◌++◌, Option, none, some, nat_eq,
  list_eq, leb, length, if◌then◌else◌, replicate,
}
use darwin_vm.Prelude.Result.{Result, ok, ◌>>=◌, ◌>>◌, check}
use darwin_vm.Bytes.{Bytes, text}
use darwin_vm.Bytes.Utf8.{Str}
use darwin_vm.PyInt.{ℤ, pos, negsuc, decimal_str}
use darwin_vm.Tree.{Nodes, node, children, props, snoc}
use darwin_vm.Fixup.{Val, str, bytes, Error, system_exit, Props, is_str}
use darwin_vm.Fixup.Dict.{get, put, without}
use darwin_vm.Fixup.Codec.{decode_node, encode_node}
use darwin_vm.Fixup.Tree.{Adt, fetch, at, lookup, has_child, remove_child, set_all, read}
use darwin_vm.Fixup.Compat.{del_compat, fixup_spmi, drop_exclave_routes, fixup_darts, keeps_spmi}
use darwin_vm.Fixup.Iops.{fixup_iops}
use darwin_vm.Fixup.Storage.{
  int_str, fixup_ephemeral_data, fixup_fstab_drop_unavailable, fixup_skip_keybag,
}
use darwin_vm.Fixup.Sep.{get_platform_name, get_soc_gen, nub_path, fixup_sep, fixup_aic, fixup_sptm}

-- The module's globals, after the command line is read.
pub record Config : Type 0 where
  pub keep : List Str
  pub dram_size : ℤ
  pub ephemeral : Option ℤ
  pub skip_keybag : Bool

abbrev pub iboot_name : Val
iboot_name = str (text "qemu-sptm")

abbrev frequency : Val
frequency = str (text "u32:0x100000")

-- The guard against a second run.
unfoldable pub refuse_patched : Adt → Result Error Adt
refuse_patched d = do
  chosen ← lookup (text "chosen" ∷ []) d
  check (not (patched (props chosen))) system_exit
  ok d
  where
    patched : Props → Bool
    patched ps = elim (get (text "firmware-version") ps) [
      | none ↦ false
      | some v ↦ is_str v (text "qemu-sptm")
    ]

-- soc_gen <= 14
unfoldable pub is_old : ℤ → Bool
is_old (pos n) = leb n 14
is_old (negsuc n) = true

-- len of a value
unfoldable pub val_length : Val → ℕ
val_length (str s) = length s
val_length (bytes b) = length b

abbrev chosen : Str → Val → Adt → Result Error Adt
chosen k v = at (text "chosen" ∷ []) (set_all ((k, v) ∷ []))

set_root : Str → Val → Adt → Adt
set_root k v (node ps cs) = node (put k v ps) cs

-- Memory, versions and the random seed.
unfoldable pub fixup_chosen : Config → Adt → Result Error Adt
unfolding set_root
fixup_chosen config d₀ = do
  platform ← get_platform_name d₀
  let d₁ = set_root (text "platform-name") (str platform) d₀
  soc_gen ← get_soc_gen d₁
  d₂ ←
      chosen (text "dram-base")
        (str (if is_old soc_gen then text "u64:0x800000000" else text "u64:0x10000000000")) d₁
  d₃ ← chosen (text "dram-size") (str (text "u64:" ++ int_str (Config.dram_size config))) d₂
  d₄ ← chosen (text "firmware-version") iboot_name d₃
  d₅ ← chosen (text "system-firmware-version") iboot_name d₄
  d₆ ← at (text "cpus" ∷ text "cpu0" ∷ []) (set_all ((text "state", str (text "running")) ∷ [])) d₅
  seed ← read (text "chosen" ∷ []) (text "random-seed") d₆
  d₇ ← chosen (text "random-seed") (bytes (replicate (val_length seed) b'A')) d₆
  chosen (text "kernel-ctrr-to-be-enabled") (str (text "u32:0")) d₇

-- The console, the clocks and the non-volatile memory.
unfoldable pub fixup_clocks : Bytes → Adt → Result Error Adt
fixup_clocks nvram d₀ = do
  handle ← read (text "arm-io" ∷ text "uart0" ∷ []) (text "AAPL,phandle") d₀
  d₁ ← at (text "defaults" ∷ []) (set_all ((text "serial-device", handle) ∷ [])) d₀
  d₂ ←
      at (text "cpus" ∷ text "cpu0" ∷ [])
        (set_all (
          (text "memory-frequency", frequency)
          ∷ (text "peripheral-frequency", frequency)
          ∷ (text "fixed-frequency", frequency)
          ∷ (text "clock-frequency", frequency)
          ∷ (text "timebase-frequency", frequency)
          ∷ []))
        d₁
  let size = str (text "u32:" ++ decimal_str (length nvram))
  at (text "chosen" ∷ [])
      (set_all (
        (text "nvram-bank-count", str (text "u32:1"))
        ∷ (text "nvram-current-bank", str (text "u32:1"))
        ∷ (text "nvram-proxy-data", bytes nvram)
        ∷ (text "nvram-total-size", size)
        ∷ (text "nvram-bank-size", size)
        ∷ []))
      d₂

unfoldable pub fixup_hmac : Adt → Result Error Adt
fixup_hmac d = do
  nub ← lookup nub_path d
  present ← has_child (text "InvalidateHmac") (children nub)
  if present
      then at (nub_path ++ text "InvalidateHmac" ∷ [])
          (set_all (
            (text "config", str (text "u32:1"))
            ∷ (text "sio-hmac1-offset", str (text "u64:0"))
            ∷ (text "sio-hmac1-disable-mask", str (text "u64:0xffffffffffffffff"))
            ∷ []))
          d
      else ok d

-- The placeholder clock, where the native one is not enabled.
unfoldable pub add_rtc : List Str → Adt → Adt
add_rtc keep (node ps cs) =
    if keeps_spmi keep
    then node ps cs
    else node (put (text "no-rtc") (str (text "<NULL>")) ps) (
        snoc cs (
          node
            ((text "name", str (text "rtc")) ∷ (text "__placeholder_val", str (text "<NULL>")) ∷ [])
            Nodes.none))

-- The settings of one lock region, the i-th.
unfoldable pub ctrr_settings : ℕ → Props
ctrr_settings i =
    (text "page-size-shift", str (text "u32:0"))
    ∷ (text "lower-limit-reg-offset", str (text "u32:" ++ decimal_str (0x100 * i + 0x10)))
    ∷ (text "upper-limit-reg-offset", str (text "u32:" ++ decimal_str (0x100 * i + 0x20)))
    ∷ (text "upper-limit-reg-mask", str (text "u32:0xFFFFFFFF"))
    ∷ (text "lower-limit-reg-mask", str (text "u32:0xFFFFFFFF"))
    ∷ (text "lock-reg-offset", str (text "u32:0"))
    ∷ (text "lock-reg-mask", str (text "u32:0"))
    ∷ (text "lock-reg-value", str (text "u32:0"))
    ∷ (text "enable-reg-offset", str (text "u32:0"))
    ∷ (text "enable-reg-mask", str (text "u32:1"))
    ∷ (text "enable-reg-value", str (text "u32:1"))
    ∷ (text "write-disable-reg-offset", str (text "u32:0"))
    ∷ (text "write-disable-reg-mask", str (text "u32:1"))
    ∷ (text "write-disable-reg-value", str (text "u32:1"))
    ∷ []

abbrev amcc_path : List Str
amcc_path = text "chosen" ∷ text "lock-regs" ∷ text "amcc" ∷ []

amcc_settings : Props
amcc_settings =
    (text "aperture-count", str (text "u32:1"))
    ∷ (text "aperture-size", str (text "u32:0x4000"))
    ∷ (text "plane-count", str (text "u32:1"))
    ∷ (text "plane-stride", str (text "u32:0"))
    ∷ (text "plane-size", str (text "u32:0x4000"))
    ∷ (text "aperture-phys-addr", str (text "u64:0x220000000"))
    ∷ (text "cache-status-reg-offset", str (text "u32:0"))
    ∷ (text "cache-status-reg-mask", str (text "u32:0"))
    ∷ (text "cache-status-reg-value", str (text "u32:0"))
    ∷ []

set_ctrr : List Str → ℕ → Adt → Result Error Adt
set_ctrr [] i d = ok d
set_ctrr (region ∷ rest) i d = do
  e ← at (amcc_path ++ (text "amcc-ctrr-" ++ region) ∷ []) (set_all (ctrr_settings i)) d
  set_ctrr rest (suc i) e

unfoldable pub fixup_amcc : Adt → Result Error Adt
unfolding amcc_settings set_ctrr
fixup_amcc d = do
  e ← at amcc_path (set_all amcc_settings) d
  set_ctrr (text "a" ∷ text "b" ∷ text "c" ∷ text "d" ∷ []) 0 e

optional : {A : Type 0} → Option A → (A → Adt → Result Error Adt) → Adt → Result Error Adt
optional none f d = ok d
optional (some a) f d = f a d

drop_prefix : Adt → Result Error Adt
drop_prefix (node ps cs) = do
  v ← fetch (text "secure-root-prefix") ps
  ok (node (without (text "secure-root-prefix") ps) cs)

-- The calls at the end of `fixup`, in order.
unfoldable pub fixup_drivers : Config → Adt → Result Error Adt
unfolding optional drop_prefix
fixup_drivers config d₀ = do
  let keep = Config.keep config
  d₁ ← del_compat keep [] d₀
  d₂ ← fixup_spmi keep d₁
  d₃ ← drop_exclave_routes d₂
  d₄ ← fixup_darts d₃
  d₅ ← fixup_iops d₄
  d₆ ← optional (Config.ephemeral config) fixup_ephemeral_data d₅
  d₇ ← if Config.skip_keybag config then fixup_skip_keybag d₆ else ok d₆
  d₈ ← fixup_sep keep d₇
  d₉ ← fixup_fstab_drop_unavailable d₈
  e₁ ← at (text "arm-io" ∷ text "aic" ∷ []) fixup_aic d₉
  e₂ ← fixup_sptm e₁
  drop_prefix e₂

unfoldable pub fixup : Config → Bytes → Adt → Result Error Adt
fixup config nvram d₀ = do
  d₁ ← refuse_patched d₀
  d₂ ← fixup_chosen config d₁
  d₃ ← fixup_clocks nvram d₂
  d₄ ← fixup_hmac d₃
  d₅ ← at (text "arm-io" ∷ []) (remove_child (text "dockchannel-uart")) d₄
  let d₆ = add_rtc (Config.keep config) d₅
  d₇ ← at (text "defaults" ∷ []) (set_all ((text "vmm-present", str (text "u32:1")) ∷ [])) d₆
  d₈ ← fixup_amcc d₇
  fixup_drivers config d₈

unfoldable pub fixup_development_activation : Adt → Result Error Adt
fixup_development_activation d = do
  e ← chosen (text "debug-enabled") (str (text "u32:1")) d
  at (text "product" ∷ []) (set_all ((text "allow-hactivation", str (text "u32:1")) ∷ [])) e

-- The body of `main`, from the bytes read to the bytes written. A level of the tree takes eight bytes.
unfoldable pub main : Config → Bool → Bytes → Bytes → Result Error Bytes
main config activation nvram dtree = do
  (root, rest) ← decode_node (suc (length dtree)) dtree
  fixed ← fixup config nvram root
  final ← if activation then fixup_development_activation fixed else ok fixed
  encode_node final
