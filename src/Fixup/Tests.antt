-- ===== src/Fixup/Tests.antt =====
-- dt_fixup.py: the transform on a small tree, and the laws at concrete values.
use darwin_vm.Prelude.{
  ◌+◌, ◌≡◌, refl, false, List, [], ◌∷◌, ◌++◌, none, arith, map, list_eq, nat_eq, replicate, length,
  String,
}
use darwin_vm.Prelude.Result.{ok, raise, ◌>>=◌}
use darwin_vm.Bytes.{Bytes, text, before_nul}
use darwin_vm.Bytes.Utf8.{Str}
use darwin_vm.PyInt.{pos}
use darwin_vm.Tree.{Nodes, node, child}
use darwin_vm.Fixup.Dict.{get}
use darwin_vm.Fixup.{Val, str, system_exit, Props}
use darwin_vm.Fixup.Codec.{decode_prop, parse_prop_entry, is_probably_a_string}
use darwin_vm.Fixup.Codec.Values.{parse_prop_entry-decode_prop}
use darwin_vm.Fixup.Tree.{Adt, Adts, read}
use darwin_vm.Fixup.Compat.{del_compat, number_darts}
use darwin_vm.Fixup.Compat.Strip.{IsNamed, IsClean, del_compat_cleans}
use darwin_vm.Fixup.Compat.Darts.{dart_ids, count_darts, identifiers, number_darts_consecutive}
use darwin_vm.Fixup.Iops.{place_iops}
use darwin_vm.Fixup.Iops.Regions.{bases, starts, count_needed, place_iops-bases}
use darwin_vm.Fixup.Storage.{drop_unavailable}
use darwin_vm.Fixup.Main.{Config, fixup}
use darwin_vm.Fixup.{is_str}
use darwin_vm.Fixup.Tree.{
  lookup, at, on_child, set_all, set_props, get_child, has_child, remove_child, fetch, missing,
  each_child,
}
use darwin_vm.Fixup.Main.{
  refuse_patched, fixup_chosen, fixup_clocks, fixup_hmac, add_rtc, fixup_amcc, ctrr_settings,
  fixup_drivers, val_length, is_old,
}
use darwin_vm.Fixup.Sep.{
  get_platform_name, get_soc_gen, fixup_sep, remove_sep, enable_sep, fixup_aic, fixup_sptm,
  set_each, set_chip_id,
}
use darwin_vm.Text.{split, contains, starts_with}
use darwin_vm.PyInt.{python_int10, decimal_str, digits, to_digits, hex}
use darwin_vm.Fixup.Dict.{put, without}
use darwin_vm.Fixup.Compat.{
  fixup_spmi, drop_exclave_routes, fixup_darts, drop_nub_routes, keep_pmu, strip_node, strip_compat,
  strip_external, child_path, keeps, lstrip_slash, is_supported, as_bytes, is_dart,
}
use darwin_vm.Fixup.Iops.{fixup_iops, place_nubs, place, needs_region, lacks_region, region_of}
use darwin_vm.Fixup.Storage.{
  fixup_fstab_drop_unavailable, keep_available, is_unavailable, fixup_skip_keybag, int_str,
}
use darwin_vm.Fixup.Codec.{u64_str, u32_str}
use darwin_vm.Bytes.Utf8.{encode}
use darwin_vm.Fixup.Ans.{ans_fixup_iops, ans_fixup_iops-fixup_iops}

abbrev named : String → Props → Adts → Adt
named name ps = node ((text "name", str (text name)) ∷ ps)

abbrev of : List Adt → Adts
of [] = Nodes.none
of (d ∷ ds) = child d (of ds)

abbrev prop : String → String → Str × Val
prop k v = (text k, str (text v))

-- Two coprocessors, three nubs without a region and one with its own, two DARTs and a driver that
-- nothing supports.
abbrev coprocessors : Adts
coprocessors = of (
    named "dcp" (prop "compatible" "iop,ascwrap-v6" ∷ [])
      (of (named "iop-dcp-nub" (prop "compatible" "iop-nub,rtbuddy-v2" ∷ []) Nodes.none ∷ []))
    ∷ named "dart-dcp" (prop "device_type" "dart" ∷ prop "compatible" "dart,t8110" ∷ []) Nodes.none
    ∷ named "smc" (prop "compatible" "iop,smc" ∷ []) (
        of (
          named "iop-smc-nub"
            (prop "compatible" "iop-nub,rtbuddy-v2" ∷ prop "region-base" "u64:0x30de00000" ∷ [])
            Nodes.none
          ∷ []))
    ∷ named "dart-sep" (prop "device_type" "dart" ∷ prop "compatible" "dart,t8110" ∷ []) Nodes.none
    ∷ named "ans" (prop "compatible" "iop,ans" ∷ []) (
        of (
          named "iop-ans-nub"
            (prop "compatible" "iop-nub,rtbuddy-v2" ∷ prop "region-base" "u64:0x0" ∷ []) Nodes.none
          ∷ []))
    ∷ [])

number_darts_consecutive_example :
    dart_ids (number_darts 0 coprocessors) ≡ identifiers 0 (count_darts coprocessors)
number_darts_consecutive_example = number_darts_consecutive 0 coprocessors

place_iops-bases_example :
    let (es, last) = place_iops 0 coprocessors in
    (bases coprocessors es ≡ starts 0 (count_needed coprocessors))
    × (last ≡ 0 + count_needed coprocessors)
place_iops-bases_example = place_iops-bases 0 coprocessors

abbrev board : Adt
board = named "device-tree" [] (of (named "arm-io" [] coprocessors ∷ []))

ans_fixup_iops-fixup_iops_example : ans_fixup_iops board ≡ fixup_iops board
ans_fixup_iops-fixup_iops_example = ans_fixup_iops-fixup_iops board

abbrev fstab : Adt
fstab = named "fstab" (prop "max_fs_entries" "u32:3" ∷ []) (
    of (
      named "a" (prop "vol.fs_name" "Data" ∷ []) Nodes.none
      ∷ named "b" (prop "vol.fs_name" "xART" ∷ []) Nodes.none
      ∷ named "c" (prop "vol.fs_name" "Update" ∷ []) Nodes.none
      ∷ []))

abbrev io : Adt
io = named "device-tree" [] (
    of (
      named "arm-io" (prop "compatible" "arm-io,t8140" ∷ []) (
        of (
          named "dcp" (prop "compatible" "iop,ascwrap-v6" ∷ []) Nodes.none
          ∷ named "sgx" (prop "compatible" "gpu,t8140" ∷ []) Nodes.none
          ∷ []))
      ∷ []))

io-IsNamed : IsNamed io
unfolding IsNamed get
io-IsNamed = ((_, refl), ((((_, refl), (tt, ((_, refl), (tt, tt))))), tt))

del_compat_cleans_example :
    (e : Adt) × ((del_compat (text "arm-io/dcp" ∷ []) [] io ≡ ok e)
      × IsClean (text "arm-io/dcp" ∷ []) [] e)
del_compat_cleans_example = del_compat_cleans (text "arm-io/dcp" ∷ []) [] io io-IsNamed

abbrev words : Bytes
words = 1 ∷ 2 ∷ 3 ∷ 4 ∷ 0 ∷ 0 ∷ 0 ∷ 128 ∷ []

words_no_text : is_probably_a_string words ≡ false
unfolding is_probably_a_string before_nul
words_no_text = refl

parse_prop_entry-decode_prop_example :
    (v : Val) × ((decode_prop (text "reg") words ≡ ok v)
      × (parse_prop_entry v ≡ ok (length words, words)))
parse_prop_entry-decode_prop_example =
    parse_prop_entry-decode_prop (text "reg") words (omega arith) refl refl words_no_text

-- A tree with every node that the transform reaches for.
abbrev sample : Adt
sample = named "device-tree" (prop "secure-root-prefix" "md" ∷ []) (
    of (
      named "chosen" (prop "random-seed" "AAAA" ∷ []) (
        of (
          named "memory-map" [] Nodes.none
          ∷ named "lock-regs" []
              (of (named "amcc" [] (of (map ctrr ("a" ∷ "b" ∷ "c" ∷ "d" ∷ []))) ∷ []))
          ∷ []))
      ∷ named "defaults" [] Nodes.none
      ∷ named "cpus" [] (of (named "cpu0" [] Nodes.none ∷ []))
      ∷ named "filesystems" [] (of (fstab ∷ []))
      ∷ named "arm-io" (prop "compatible" "arm-io,t8140" ∷ prop "soc-generation" "H17" ∷ []) (
          of (
            named "uart0" (prop "AAPL,phandle" "u32:0x1f" ∷ []) Nodes.none
            ∷ named "aic" (prop "compatible" "aic,3" ∷ []) Nodes.none
            ∷ named "sep" [] (of (named "iop-sep-nub" [] Nodes.none ∷ []))
            ∷ named "sgx" [] Nodes.none
            ∷ named "dockchannel-uart" [] Nodes.none
            ∷ []))
      ∷ []))
  where
    ctrr : String → Adt
    ctrr c = node ((text "name", str (text "amcc-ctrr-" ++ text c)) ∷ []) Nodes.none

abbrev config : Config
config = record {
  keep = text "arm-io/dcp" ∷ [];
  dram_size = pos 0x200000000;
  ephemeral = none;
  skip_keybag = false;
}

-- The transform succeeds once, and then refuses its own result.
fixup_runs : (do d ← fixup config (1 ∷ 2 ∷ []) sample; fixup config [] d) ≡ raise system_exit
unfolding is_str read lookup at on_child set_all set_props get_child has_child remove_child fetch
    missing each_child fixup refuse_patched fixup_chosen fixup_clocks fixup_hmac add_rtc fixup_amcc
    ctrr_settings fixup_drivers val_length is_old get_platform_name get_soc_gen fixup_sep remove_sep
    enable_sep fixup_aic fixup_sptm set_each set_chip_id split contains starts_with python_int10
    decimal_str digits to_digits hex get put without del_compat fixup_spmi drop_exclave_routes
    fixup_darts number_darts drop_nub_routes keep_pmu strip_node strip_compat strip_external
    child_path keeps lstrip_slash is_supported as_bytes is_dart fixup_iops place_iops place_nubs
    place needs_region lacks_region region_of fixup_fstab_drop_unavailable drop_unavailable
    keep_available is_unavailable fixup_skip_keybag int_str u64_str u32_str encode replicate
fixup_runs = refl
