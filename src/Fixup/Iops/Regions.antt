-- ===== src/Fixup/Iops/Regions.antt =====
-- dt_fixup.py: the regions that `fixup_iops` gives, and the nubs that it leaves alone.
use darwin_vm.Prelude.{
  ℕ, zero, suc, ◌+◌, ◌<◌, ◌≤◌, ◌≡◌, refl, ap, List, [], ◌∷◌, ◌++◌, Option, some, arith,
  if◌then◌else◌, Bool-cases, subst, inl, inr,
}
use native.Mathlib.Nat.{zero-add, add-zero, suc-add}
use darwin_vm.Bytes.{text}
use darwin_vm.Tree.{Nodes, node, child}
use darwin_vm.Fixup.{Val, str, Props}
use darwin_vm.Fixup.Codec.{u64_str}
use darwin_vm.Fixup.Dict.{get, has, put, get-put_ne, get-put_eq}
use darwin_vm.Fixup.Tree.{Adts, set_props}
use darwin_vm.Fixup.Iops.{region_of, region_size, place, needs_region, place_nubs, place_iops}

-- The region-base of each nub of one coprocessor that needed a region, read after the transform.
unfoldable pub nub_bases : Adts → Adts → List (Option Val)
nub_bases (child (node ps cs) before) (child (node qs es) after) =
    let more = nub_bases before after in
    if needs_region ps then get (text "region-base") qs ∷ more else more
nub_bases _ _ = []

-- The same over the coprocessors that have a driver.
unfoldable pub bases : Adts → Adts → List (Option Val)
bases (child (node ps nubs) before) (child (node qs placed) after) =
    let more = bases before after in
    if has (text "compatible") ps then nub_bases nubs placed ++ more else more
bases _ _ = []

-- The starts of `count` regions from a slot on.
unfoldable pub starts : ℕ → ℕ → List (Option Val)
starts slot zero = []
starts slot (suc n) = some (u64_str (region_of slot)) ∷ starts (suc slot) n

starts-append : (slot m n : ℕ) → starts slot m ++ starts (slot + m) n ≡ starts slot (m + n)
unfolding starts
starts-append slot zero n = rw (zero-add n, add-zero slot) refl
starts-append slot (suc m) n =
    let more = starts-append (suc slot) m n in
    rw (suc-add m n) (
      ap (λ l. some (u64_str (region_of slot)) ∷ l)
        (subst (λ k. starts (suc slot) m ++ starts k n ≡ starts (suc slot) (m + n)) (omega arith)
          more))

-- Regions of different slots do not overlap.
region_of_apart : (i j : ℕ) → i < j → region_of i + region_size ≤ region_of j
unfolding region_of
region_of_apart i j lt = omega arith

pub place_base :
    (slot : ℕ) (ps : Props)
    → get (text "region-base") (place slot ps) ≡ some (u64_str (region_of slot))
unfolding place set_props
place_base slot ps =
    rw
      (
        get-put_ne (text "no-firmware-service") (text "region-base") (str (text "<NULL>"))
            (put (text "region-size") (u64_str region_size) (
              put (text "region-base") (u64_str (region_of slot))
                (put (text "pre-loaded") (str (text "u32:1")) ps)))
            refl,
        get-put_ne (text "region-size") (text "region-base") (u64_str region_size)
            (put (text "region-base") (u64_str (region_of slot))
              (put (text "pre-loaded") (str (text "u32:1")) ps))
            refl,
        get-put_eq (text "region-base") (u64_str (region_of slot))
            (put (text "pre-loaded") (str (text "u32:1")) ps),
      )
      refl

unfoldable pub count_nubs : Adts → ℕ
count_nubs Nodes.none = 0
count_nubs (child (node ps cs) rest) =
    let more = count_nubs rest in if needs_region ps then suc more else more

place_nubs_bases :
    (slot : ℕ) (cs : Adts)
    → let (es, last) = place_nubs slot cs in
      (nub_bases cs es ≡ starts slot (count_nubs cs)) × (last ≡ slot + count_nubs cs)
unfolding place_nubs nub_bases starts count_nubs
place_nubs_bases slot Nodes.none = (refl, omega arith)
place_nubs_bases slot (child (node ps cs) rest) = elim (Bool-cases (needs_region ps)) [
  | inl e ↦
      let (same, end) = place_nubs_bases (suc slot) rest in
      rw e (rw (place_base slot ps, same) refl, omega (arith, end))
  | inr e ↦ let (same, end) = place_nubs_bases slot rest in rw e (same, end)
]

-- How many nubs get a region.
unfoldable pub count_needed : Adts → ℕ
count_needed Nodes.none = 0
count_needed (child (node ps nubs) rest) =
    let more = count_needed rest in
    if has (text "compatible") ps then count_nubs nubs + more else more

-- The nubs without a region of their own, below the coprocessors that have a driver, get the regions
-- of consecutive slots, one each, and the loop ends at the slot behind the last.
pub place_iops-bases :
    (slot : ℕ) (cs : Adts)
    → let (es, last) = place_iops slot cs in
      (bases cs es ≡ starts slot (count_needed cs)) × (last ≡ slot + count_needed cs)
unfolding place_iops bases starts count_needed
place_iops-bases slot Nodes.none = (refl, omega arith)
place_iops-bases slot (child (node ps nubs) rest) = elim (Bool-cases (has (text "compatible") ps)) [
  | inl e ↦
      let (same, mid) = place_nubs_bases slot nubs in
      let (more, end) = place_iops-bases (place_nubs slot nubs).1 rest in
      rw e (
        rw (e, same, more, mid, starts-append slot (count_nubs nubs) (count_needed rest)) refl,
        omega (arith, mid, end),
      )
  | inr e ↦ let (same, end) = place_iops-bases slot rest in rw e (rw e same, end)
]
