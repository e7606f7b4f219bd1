-- ===== src/Kcdata/Tests.antt =====
-- tools/oskcdata.py: a small dump, and the laws at it.
use mathlib.Core.List.{Mem, mem-cons_self}
use darwin_vm.Prelude.{
  ℕ, ◌^◌, ◌<◌, ◌≤◌, ◌≡◌, refl, List, [], ◌∷◌, ◌++◌, some, arith, length, take, drop, replicate,
  nat_eq, true, All,
}
use darwin_vm.Bytes.{Bytes, text, le32, read_u32, before_nul}
use darwin_vm.PyInt.{pos}
use darwin_vm.Text.{starts_with}
use darwin_vm.Kcdata.{
  Item, pid, label, buffer_end, occurrences, search_each, last8, scan_from, scan, walk, render,
  facts_of, signed32, or_zero, is_text, one_line, shows, text_fact,
}
use darwin_vm.Kcdata.Walk.{layout, IsPlain, IsChain, final, more, plain_items, walk-layout}
use darwin_vm.Kcdata.Scan.{IsHit, scan_sound, scan_complete}
use darwin_vm.Kcdata.Report.{all_facts, printed, render-layout}

abbrev item : ℕ → Bytes → Item × ℕ
item k payload = (record { kind = k; size = length payload; payload = payload }, 0)

-- The process 149, named.
abbrev chain : List (Item × ℕ)
chain =
    item 0x53a20900 []
    ∷ item 0x36 (149 ∷ 0 ∷ 0 ∷ 0 ∷ [])
    ∷ item 0x37 (text "exc handler" ++ 0 ∷ [])
    ∷ item buffer_end []
    ∷ []

plain :
    (k : ℕ) (payload : Bytes) → k < 2 ^ 32 → length payload ≤ 2 ^ 20 → IsPlain (item k payload).0
plain k payload lt le = record { kind_fits = lt; sized = refl; small = le }

chain-IsChain : IsChain chain
chain-IsChain = more (plain 0x53a20900 [] (omega arith) (omega arith)) refl (
    more (plain 0x36 (149 ∷ 0 ∷ 0 ∷ 0 ∷ []) (omega arith) (omega arith)) refl (
      more (plain 0x37 (text "exc handler" ++ 0 ∷ []) (omega arith) (omega arith)) refl
        (final (plain buffer_end [] (omega arith) (omega arith)) refl)))

abbrev after : Bytes
after = 1 ∷ 2 ∷ 3 ∷ []

walk-layout_example : walk 512 (layout chain ++ after) 0 ≡ plain_items chain
walk-layout_example = walk-layout chain after chain-IsChain (omega arith)

chain_fits : length (layout chain) ≤ 2 ^ 16
unfolding le32 replicate
chain_fits = omega arith

render-layout_example :
    render (after ++ (layout chain ++ after)) (length after)
    ≡ printed (all_facts (plain_items chain))
render-layout_example = render-layout after after chain chain-IsChain (omega arith) chain_fits

chain_facts :
    printed (all_facts (plain_items chain))
    ≡ some (pid (pos 149) ∷ label 0x37 (text "exc handler") ∷ [])
unfolding printed all_facts plain_items facts_of signed32 or_zero read_u32 is_text shows one_line
    before_nul text_fact take
chain_facts = refl

-- A magic across two blocks of six bytes.
abbrev file : Bytes
file = 0 ∷ 0 ∷ 0 ∷ 0 ∷ 0x00 ∷ 0x09 ∷ 0xa2 ∷ 0x53 ∷ 0 ∷ []

there : starts_with (le32 0x53a20900) (drop 4 file) ≡ true
unfolding starts_with le32 drop
there = refl

scan_complete_example : Mem (4, 0x53a20900) (scan 6 file)
scan_complete_example = scan_complete 6 file 0x53a20900 4 (omega arith) mem-cons_self there

scan_sound_example : All (IsHit file) (scan 6 file)
scan_sound_example = scan_sound 6 file

-- A magic among the last eight bytes of a block is reported twice.
scan_twice : scan 8 file ≡ (4, 0x53a20900) ∷ (4, 0x53a20900) ∷ []
unfolding scan scan_from search_each occurrences starts_with le32 last8 take drop
scan_twice = refl
