-- ===== src/Kcdata/Walk.antt =====
-- tools/oskcdata.py: what `walk` yields of any bytes, and of a buffer laid out as kcdata.h says.
use darwin_vm.Prelude.{
  ℕ, zero, suc, ◌+◌, ◌-◌, ◌/◌, ◌%◌, ◌^◌, ◌≤◌, ◌<◌, ◌≡◌, refl, ap, true, false, ◌||◌, List, [], ◌∷◌,
  ◌++◌, some, arith, length, take, drop, replicate, All, ltb, nat_eq, ◌==◌, Bool-cases,
  Option-cases, inl, inr, subst, sym, ◌∙◌, append_assoc, append-nil, length-append,
  length-replicate, drop-append, drop-drop, take-append,
}
use darwin_vm.Bytes.{Bytes, u32_mod, le32, read_u32, round_up4}
use darwin_vm.Kcdata.{Item, buffer_end, walk}

-- An item that stands in the buffer, at some place from `start` on, whole and at most 1 MiB long.
pub record IsItem (buf : Bytes) (start : ℕ) (i : Item) : Type 0 where
  pub place : ℕ
  pub behind : start ≤ place
  pub fits : place + 16 + i.size ≤ length buf
  pub small : i.size ≤ 2 ^ 20
  pub kind_there : read_u32 (drop place buf) ≡ some i.kind
  pub size_there : read_u32 (drop (place + 4) buf) ≡ some i.size
  pub payload_there : i.payload ≡ take i.size (drop (place + 16) buf)

IsItem-later : {buf : Bytes} {p q : ℕ} {i : Item} → p ≤ q → IsItem buf q i → IsItem buf p i
IsItem-later le k = record {
  place = k.place;
  behind = omega (arith, le, k.behind);
  fits = k.fits;
  small = k.small;
  kind_there = k.kind_there;
  size_there = k.size_there;
  payload_there = k.payload_there;
}

All-later :
    (buf : Bytes) {p q : ℕ} (is : List Item) → p ≤ q → All (IsItem buf q) is → All (IsItem buf p) is
All-later buf [] le h = tt
All-later buf (i ∷ is) le h = (IsItem-later le h.0, All-later buf is le h.1)

-- The item at a place, and where the next one stands.
item_at : Bytes → ℕ → ℕ → ℕ → Item
item_at buf p t sz = record { kind = t; size = sz; payload = take sz (drop (p + 16) buf) }

-- One round: the end of the walk, its last item, or an item with more behind it.
data IsRound (limit : ℕ) (buf : Bytes) (p : ℕ) (is : List Item) : Type 0 where
  stops : is ≡ [] → IsRound limit buf p is
  ends :
      (t sz : ℕ)
      → IsItem buf p (item_at buf p t sz)
      → is ≡ item_at buf p t sz ∷ []
      → IsRound limit buf p is
  goes :
      (t sz : ℕ)
      → IsItem buf p (item_at buf p t sz)
      → is ≡ item_at buf p t sz ∷ walk limit buf (round_up4 (p + 16 + sz))
      → IsRound limit buf p is

walk-IsRound : (limit : ℕ) (buf : Bytes) (p : ℕ) → IsRound limit buf p (walk (suc limit) buf p)
unfolding walk item_at
walk-IsRound limit buf p = elim (Bool-cases (ltb (length buf) (p + 16))) [
  | inl e ↦ rw (walk, e) (stops refl)
  | inr e ↦ elim (Option-cases (read_u32 (drop p buf))) [
    | inl a ↦ rw (walk, e, a) (stops refl)
    | inr (t, a) ↦ elim (Option-cases (read_u32 (drop (p + 4) buf))) [
      | inl b ↦ rw (walk, e, a, b) (stops refl)
      | inr (sz, b) ↦ elim (Bool-cases (ltb (2 ^ 20) sz || ltb (length buf) (p + 16 + sz))) [
        | inl c ↦ rw (walk, e, a, b, c) (stops refl)
        | inr c ↦
            let item : IsItem buf p (item_at buf p t sz) = record {
              place = p;
              behind = omega arith;
              fits = ground (arith, c);
              small = ground (arith, c);
              kind_there = a;
              size_there = b;
              payload_there = refl;
            } in
            elim (Bool-cases (t == buffer_end)) [
              | inl d ↦ rw (walk, e, a, b, c, d) (ends t sz item refl)
              | inr d ↦ rw (walk, e, a, b, c, d) (goes t sz item refl)
            ]
      ]
    ]
  ]
]

-- Whatever the bytes, every item that `walk` yields stands in the buffer at or behind the start,
-- whole, with the kind and the size that its header has, and is at most 1 MiB long.
pub walk_items : (limit : ℕ) (buf : Bytes) (p : ℕ) → All (IsItem buf p) (walk limit buf p)
walk_items zero buf p = unfold walk in tt
walk_items (suc limit) buf p = elim (walk-IsRound limit buf p) [
  | stops e ↦ subst (All (IsItem buf p)) (sym e) tt
  | ends t sz i e ↦ subst (All (IsItem buf p)) (sym e) (i, tt)
  | goes t sz i e ↦ subst (All (IsItem buf p)) (sym e) (
    i,
    All-later buf (walk limit buf (round_up4 (p + 16 + sz))) (omega arith)
        (walk_items limit buf (round_up4 (p + 16 + sz))),
  )
]

-- An item in memory: its header of kind, size and flags, its payload, and padding to a word.
abbrev pub header : Item → ℕ → Bytes
header i flags = le32 i.kind ++ (le32 i.size ++ (le32 flags ++ le32 (flags / u32_mod)))

abbrev pub laid_out : Item → ℕ → Bytes
laid_out i flags = header i flags ++ (i.payload ++ replicate (round_up4 i.size - i.size) 0)

-- The layout of items, each with its flags.
abbrev pub layout : List (Item × ℕ) → Bytes
layout [] = []
layout ((i, flags) ∷ is) = laid_out i flags ++ layout is

-- What fits a header, and is no longer than the walk takes.
pub record IsPlain (i : Item) : Type 0 where
  pub kind_fits : i.kind < u32_mod
  pub sized : length i.payload ≡ i.size
  pub small : i.size ≤ 2 ^ 20

-- The items up to the first BUFFER_END, which is the last.
pub data IsChain : List (Item × ℕ) → Type 0 where
  final : {i : Item} {flags : ℕ} → IsPlain i → i.kind ≡ buffer_end → IsChain ((i, flags) ∷ [])
  more :
      {i : Item} {flags : ℕ} {is : List (Item × ℕ)}
      → IsPlain i
      → (i.kind == buffer_end) ≡ false
      → IsChain is
      → IsChain ((i, flags) ∷ is)

unfoldable pub plain_items : List (Item × ℕ) → List Item
plain_items [] = []
plain_items ((i, flags) ∷ is) = i ∷ plain_items is

header_length : (i : Item) (flags : ℕ) → length (header i flags) ≡ 16
unfolding le32
header_length i flags = refl

drop_behind : (n : ℕ) (before xs : Bytes) → drop (length before + n) (before ++ xs) ≡ drop n xs
drop_behind n before xs =
    sym (drop-drop n (length before) (before ++ xs))
    ∙ ap (drop n) (drop-append (length before) before xs refl)

module _ (i : Item) (flags : ℕ) (plain : IsPlain i) (rest : Bytes) where
  padding : Bytes
  padding = replicate (round_up4 i.size - i.size) 0

  kind_reads : read_u32 (laid_out i flags ++ rest) ≡ some i.kind
  unfolding le32 read_u32
  kind_reads = let lt : i.kind < u32_mod = plain.kind_fits in ap some (omega arith)

  size_reads : read_u32 (drop 4 (laid_out i flags ++ rest)) ≡ some i.size
  unfolding le32 read_u32 drop
  size_reads = let le : i.size ≤ 2 ^ 20 = plain.small in ap some (omega arith)

  payload_follows : drop 16 (laid_out i flags ++ rest) ≡ (i.payload ++ padding) ++ rest
  unfolding le32 drop padding
  payload_follows = refl

  payload_taken : take i.size (drop 16 (laid_out i flags ++ rest)) ≡ i.payload
  payload_taken =
      rw (payload_follows, append_assoc i.payload padding rest)
        (take-append i.size i.payload (padding ++ rest) plain.sized)

  length-laid_out : length (laid_out i flags) ≡ 16 + round_up4 i.size
  unfolding le32
  length-laid_out =
      let a : length i.payload ≡ i.size = plain.sized in
      omega (
        arith,
        length-append i.payload (replicate (round_up4 i.size - i.size) 0),
        length-replicate {A = ℕ} (round_up4 i.size - i.size) 0,
      )

-- A round of the walk, given what it reads.
walk_round :
    (limit : ℕ) (buf : Bytes) (p : ℕ) (i : Item)
    → p + 16 + i.size ≤ length buf
    → i.size ≤ 2 ^ 20
    → read_u32 (drop p buf) ≡ some i.kind
    → read_u32 (drop (p + 4) buf) ≡ some i.size
    → take i.size (drop (p + 16) buf) ≡ i.payload
    → walk (suc limit) buf p
      ≡ i ∷ (elim (i.kind == buffer_end) [
        | true ↦ []
        | false ↦ walk limit buf (round_up4 (p + 16 + i.size))
      ])
unfolding walk
walk_round limit buf p i fits small k s t = rw (walk, enough, k, s, room, t) refl
  where
    enough : ltb (length buf) (p + 16) ≡ false
    enough = ground (arith, fits)

    room : (ltb (2 ^ 20) i.size || ltb (length buf) (p + 16 + i.size)) ≡ false
    room = ground (arith, fits, small)

next_place : (n size : ℕ) → n % 4 ≡ 0 → round_up4 (n + 16 + size) ≡ n + (16 + round_up4 size)
next_place n size e = omega arith

-- The same at an item that is laid out there.
walk-laid_out :
    (limit : ℕ) (before rest : Bytes) (i : Item) (flags : ℕ)
    → IsPlain i
    → walk (suc limit) (before ++ (laid_out i flags ++ rest)) (length before)
      ≡ i ∷ (elim (i.kind == buffer_end) [
        | true ↦ []
        | false ↦
            walk limit
              (before ++ (laid_out i flags ++ rest))
              (round_up4 (length before + 16 + i.size))
      ])
walk-laid_out limit before rest i flags plain =
    let all = laid_out i flags ++ rest in
    walk_round limit (before ++ all) (length before) i
      (omega (
        arith,
        length-append before all,
        length-append (laid_out i flags) rest,
        length-laid_out i flags plain rest,
      ))
      plain.small
      (ap read_u32 (drop-append (length before) before all refl) ∙ kind_reads i flags plain rest)
      (ap read_u32 (drop_behind 4 before all) ∙ size_reads i flags plain rest)
      (ap (take i.size) (drop_behind 16 before all) ∙ payload_taken i flags plain rest)

walk_from :
    {is : List (Item × ℕ)}
    → IsChain is
    → (limit : ℕ) (before rest : Bytes) → length is ≤ limit
    → length before % 4 ≡ 0
    → walk limit (before ++ (layout is ++ rest)) (length before) ≡ plain_items is
unfolding plain_items
walk_from (final {i} {flags} plain e) zero before rest le m = absurd (omega arith)
walk_from (final {i} {flags} plain e) (suc limit) before rest le m =
    rw (append-nil (laid_out i flags), walk-laid_out limit before rest i flags plain, e) refl
walk_from (more {i} {flags} {is} plain e c) zero before rest le m = absurd (omega arith)
walk_from (more {i} {flags} {is} plain e c) (suc limit) before rest le m =
    let len : length (before ++ laid_out i flags) ≡ length before + (16 + round_up4 i.size) =
      length-append before (laid_out i flags)
      ∙ ap (λ k. length before + k) (length-laid_out i flags plain rest) in
    let later =
      walk_from c limit (before ++ laid_out i flags) rest (omega (arith, le))
        (omega (arith, m, len)) in
    rw
      (
        append_assoc (laid_out i flags) (layout is) rest,
        walk-laid_out limit before (layout is ++ rest) i flags plain,
        e,
        next_place (length before) i.size m,
      )
      (ap (λ l. i ∷ l)
        (rw (← len) (rw (← append_assoc before (laid_out i flags) (layout is ++ rest)) later)))

-- On the layout of at most 512 items, of which the last is the first BUFFER_END, the walk yields
-- those items with their payloads, and nothing of the bytes behind it.
pub walk-layout :
    (is : List (Item × ℕ)) (rest : Bytes)
    → IsChain is
    → length is ≤ 512
    → walk 512 (layout is ++ rest) 0 ≡ plain_items is
walk-layout is rest c le = walk_from c 512 [] rest le (omega arith)
