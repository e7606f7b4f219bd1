-- ===== src/Fixup/Ans.antt =====
-- tools/ans/dt_ans_fixup.py: the second pass over the nubs, after `fixup_iops`, and what is left for it.
use darwin_vm.Prelude.{
  ℕ, suc, ◌<◌, ◌≡◌, refl, ap, Bool, true, false, not, ◌&&◌, [], ◌∷◌, ◌++◌, none, some, arith,
  list_eq, nat_eq, ◌==◌, list_beq_iff, sym, ◌∙◌, subst, if◌then◌else◌, Bool-cases, inl, inr, drop,
}
use darwin_vm.Prelude.Result.{Result, ok, ◌>>=◌, >>=-eq-ok, Result-cases}
use darwin_vm.Bytes.{text}
use darwin_vm.PyInt.{pos, hex, python_int}
use darwin_vm.Bytes.Utf8.{Str}
use darwin_vm.Tree.{Nodes, node, child, props}
use darwin_vm.Fixup.{Val, str, Error, Props, is_str}
use darwin_vm.Fixup.Dict.{get, has, put}
use darwin_vm.Fixup.Codec.{u64_str}
use darwin_vm.Fixup.Codec.Numbers.{python_int-hex}
use darwin_vm.Fixup.Tree.{Adt, Adts, at, each_child, on_child, fetch}
use darwin_vm.Fixup.Iops.{
  region_of, place, drives_rtbuddy, lacks_region, needs_region, place_nubs, place_iops, start_iops,
  fixup_iops,
}
use darwin_vm.Fixup.Iops.Regions.{place_base}

is_placeholder : Props → Bool
is_placeholder ps = elim (get (text "region-base") ps) [
  | none ↦ false
  | some v ↦ is_str v (text "u64:0x0")
]

-- One nub of the second pass: the three tests and the four assignments.
unfoldable pub fill_nub : Adt → Adt
unfolding is_placeholder
fill_nub (node ps cs) =
    if drives_rtbuddy ps
      && (lacks_region ps && not (has (text "pre-loaded") ps && not (is_placeholder ps)))
    then node (place 0 ps) cs
    else node ps cs

-- One coprocessor of the second pass.
unfoldable pub fill_iop : Adt → Adt
fill_iop (node ps nubs) =
    if has (text "compatible") ps then node ps (each_child fill_nub nubs) else node ps nubs

fill_iops : Adt → Result Error Adt
fill_iops (node ps cs) = ok (node ps (each_child fill_iop cs))

-- The `fixup_iops` that the script puts in place of the original.
unfoldable pub ans_fixup_iops : Adt → Result Error Adt
unfolding fill_iops
ans_fixup_iops d = do e ← fixup_iops d; at (text "arm-io" ∷ []) fill_iops e

zero_text : (n : ℕ) → 0 < n → text "u64:" ++ hex n ≡ text "u64:0x0" → ⊥
unfolding drop python_int
zero_text n lt e =
    let digits : hex n ≡ text "0x0" = ap (drop 4) e in
    let read : some (pos n) ≡ some (pos 0) = sym (python_int-hex n) ∙ ap python_int digits in
    ground arith

-- No positive address is the placeholder.
real_region : (n : ℕ) → 0 < n → is_str (u64_str n) (text "u64:0x0") ≡ false
unfolding is_str u64_str
real_region n lt = elim (Bool-cases (text "u64:" ++ hex n == text "u64:0x0")) [
  | inl e ↦ absurd (zero_text n lt ((list_beq_iff (text "u64:" ++ hex n) (text "u64:0x0")).0 e))
  | inr e ↦ e
]

region_of_positive : (slot : ℕ) → 0 < region_of slot
unfolding region_of
region_of_positive slot = omega arith

lacks_region-place : (slot : ℕ) (ps : Props) → lacks_region (place slot ps) ≡ false
unfolding lacks_region
lacks_region-place slot ps =
    rw (lacks_region, place_base slot ps) (real_region (region_of slot) (region_of_positive slot))

needs_region-place : (slot : ℕ) (ps : Props) → needs_region (place slot ps) ≡ false
unfolding needs_region
needs_region-place slot ps = ground (arith, lacks_region-place slot ps)

-- A nub that needs no region stays.
fill_nub_same :
    (ps : Props) (cs : Adts) → needs_region ps ≡ false → fill_nub (node ps cs) ≡ node ps cs
unfolding fill_nub needs_region
fill_nub_same ps cs e = elim (Bool-cases (drives_rtbuddy ps)) [
  | inl d ↦ rw (d, rest d) refl
  | inr d ↦ rw d refl
]
  where
    rest : drives_rtbuddy ps ≡ true → lacks_region ps ≡ false
    rest d = ground (arith, e, d)

fill_nub-place_nubs :
    (slot : ℕ) (cs : Adts) → each_child fill_nub (place_nubs slot cs).0 ≡ (place_nubs slot cs).0
unfolding each_child place_nubs
fill_nub-place_nubs slot Nodes.none = refl
fill_nub-place_nubs slot (child (node ps cs) rest) = elim (Bool-cases (needs_region ps)) [
  | inl e ↦
      rw
        (
          e,
          fill_nub_same (place slot ps) cs (needs_region-place slot ps),
          fill_nub-place_nubs (suc slot) rest,
        )
        refl
  | inr e ↦ rw (e, fill_nub_same ps cs e, fill_nub-place_nubs slot rest) refl
]

-- A coprocessor of either kind, after the first pass.
fill_iop_kept :
    (ps : Props) (nubs : Adts)
    → each_child fill_nub nubs ≡ nubs
    → fill_iop (node ps nubs) ≡ node ps nubs
unfolding fill_iop
fill_iop_kept ps nubs e = rw e (ground arith)

fill_iop_bare :
    (ps : Props) (nubs : Adts)
    → has (text "compatible") ps ≡ false
    → fill_iop (node ps nubs) ≡ node ps nubs
unfolding fill_iop
fill_iop_bare ps nubs e = rw e refl

-- The second pass over the coprocessors changes nothing of what the first pass left, from whatever
-- slot it started.
fill_iop-place_iops :
    (slot : ℕ) (cs : Adts) → each_child fill_iop (place_iops slot cs).0 ≡ (place_iops slot cs).0
unfolding each_child place_iops
fill_iop-place_iops slot Nodes.none = refl
fill_iop-place_iops slot (child (node ps nubs) rest) =
    elim (Bool-cases (has (text "compatible") ps)) [
      | inl e ↦
          rw
            (
              e,
              fill_iop_kept ignored (place_nubs slot nubs).0 (fill_nub-place_nubs slot nubs),
              fill_iop-place_iops (place_nubs slot nubs).1 rest,
            )
            refl
      | inr e ↦ rw (e, fill_iop_bare ps nubs e, fill_iop-place_iops slot rest) refl
    ]
  where
    ignored : Props
    ignored = put (text "ignore-gating") (str (text "<NULL>")) ps

fill_iops-start_iops :
    (c : Adt) {e : Adt}
    → start_iops c ≡ ok e
    → (fill_iops e ≡ ok e) × (get (text "name") (props e) ≡ get (text "name") (props c))
unfolding fill_iops start_iops
fill_iops-start_iops (node ps cs) {e} h =
    let same : node ps (place_iops 0 cs).0 ≡ e = ground (arith, h) in
    subst (λ z. (fill_iops z ≡ ok z) × (get (text "name") (props z) ≡ get (text "name") ps)) same
      (rw (fill_iop-place_iops 0 cs) refl, refl)

fetch_same :
    (k : Str) (ps qs : Props) {v : Val}
    → get k qs ≡ get k ps
    → fetch k ps ≡ ok v
    → fetch k qs ≡ ok v
unfolding fetch
fetch_same k ps qs e f = rw (fetch, e) f

on_child_found :
    (k : Str) (ps : Props) (f : Adt → Result Error Adt) (c : Adt) (cs : Adts) {v : Val} {e : Adt}
    → fetch (text "name") (props c) ≡ ok v
    → is_str v k ≡ true
    → f c ≡ ok e
    → on_child k f ps (child c cs) ≡ ok (child e cs)
unfolding on_child
on_child_found k ps f c cs n t r = rw (n, t, r) refl

on_child_passed :
    (k : Str) (ps : Props) (f : Adt → Result Error Adt) (c : Adt) (cs : Adts) {v : Val} {es : Adts}
    → fetch (text "name") (props c) ≡ ok v
    → is_str v k ≡ false
    → on_child k f ps cs ≡ ok es
    → on_child k f ps (child c cs) ≡ ok (child c es)
unfolding on_child
on_child_passed k ps f c cs n t r = rw (n, t, r) refl

-- The child that was changed is found again.
on_child_again :
    (k : Str) (ps : Props) (cs : Adts) {es : Adts}
    → on_child k start_iops ps cs ≡ ok es
    → on_child k fill_iops ps es ≡ ok es
unfolding on_child
on_child_again k ps Nodes.none h = cc
on_child_again k ps (child c cs) {es} h =
    let (v, n, g) = >>=-eq-ok (fetch (text "name") (props c)) _ h in
    elim (Bool-cases (is_str v k)) [
      | inl t ↦ elim (Result-cases (start_iops c)) [
        | inl (e, r) ↦
            let (fills, named) = fill_iops-start_iops c r in
            subst (λ z. on_child k fill_iops ps z ≡ ok z) {x = child e cs} (ground (arith, g, t, r))
              (on_child_found k ps fill_iops e cs
                (fetch_same (text "name") (props c) (props e) named n) t fills)
        | inr (x, r) ↦ absurd (ground (arith, g, t, r))
      ]
      | inr t ↦ elim (Result-cases (on_child k start_iops ps cs)) [
        | inl (rest, r) ↦
            subst (λ z. on_child k fill_iops ps z ≡ ok z) {x = child c rest}
              (ground (arith, g, t, r))
              (on_child_passed k ps fill_iops c rest n t (on_child_again k ps cs r))
        | inr (x, r) ↦ absurd (ground (arith, g, t, r))
      ]
    ]

again : (d : Adt) {e : Adt} → fixup_iops d ≡ ok e → at (text "arm-io" ∷ []) fill_iops e ≡ ok e
unfolding fixup_iops at
again (node ps cs) {e} h =
    let (es, r, g) = >>=-eq-ok (on_child (text "arm-io") start_iops ps cs) _ h in
    subst (λ z. at (text "arm-io" ∷ []) fill_iops z ≡ ok z) {x = node ps es} (ground (arith, g))
      (rw (on_child_again (text "arm-io") ps cs r) refl)

-- On every tree the script's `fixup_iops` does what the original does, errors included: its second
-- pass changes nothing.
pub ans_fixup_iops-fixup_iops : (d : Adt) → ans_fixup_iops d ≡ fixup_iops d
unfolding ans_fixup_iops
ans_fixup_iops-fixup_iops d = elim (Result-cases (fixup_iops d)) [
  | inl (e, r) ↦ rw (r, again d r) refl
  | inr (x, r) ↦ rw r refl
]
