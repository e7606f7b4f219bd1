-- ===== src/Kcdata/Report.antt =====
-- tools/oskcdata.py: the report of a buffer that lies somewhere in a dump.
use native.Mathlib.Nat.{sub-zero, suc-sub-suc}
use darwin_vm.Prelude.{
  ℕ, zero, suc, ◌-◌, ◌^◌, ◌≤◌, ◌≡◌, refl, ap, true, List, [], ◌∷◌, ◌++◌, Option, none, some, arith,
  length, take, nat_eq, ◌==◌, drop-append, append-nil,
}
use darwin_vm.Bytes.{Bytes}
use darwin_vm.Kcdata.{Item, Fact, buffer_end, facts_of, collect, render}
use darwin_vm.Kcdata.Walk.{layout, IsChain, final, more, plain_items, walk-layout}

take_over :
    (n : ℕ) (xs ys : Bytes) → length xs ≤ n → take n (xs ++ ys) ≡ xs ++ take (n - length xs) ys
unfolding take
take_over n [] ys le = rw sub-zero refl
take_over zero (x ∷ xs) ys le = absurd (omega arith)
take_over (suc n) (x ∷ xs) ys le =
    rw suc-sub-suc (ap (λ l. x ∷ l) (take_over n xs ys (omega (arith, le))))

-- The facts of every item, in order.
unfoldable pub all_facts : List Item → List Fact
all_facts [] = []
all_facts (i ∷ is) = facts_of i ++ all_facts is

collect_chain :
    {is : List (Item × ℕ)} → IsChain is → collect (plain_items is) ≡ all_facts (plain_items is)
unfolding collect plain_items all_facts
collect_chain (final {i} plain e) =
    let t : (i.kind == buffer_end) ≡ true = ground (arith, e) in
    rw (t, append-nil (facts_of i)) refl
collect_chain (more {i} plain e c) = rw (e, collect_chain c) refl

-- What `render` returns of its lines.
unfoldable pub printed : List Fact → Option (List Fact)
printed [] = none
printed (l ∷ ls) = some (l ∷ ls)

-- A buffer that is laid out anywhere in a dump, of at most 512 items and 64 KiB, is reported by the
-- facts of its items in order, whatever stands around it; nothing is printed if there are none.
pub render-layout :
    (before rest : Bytes) (is : List (Item × ℕ))
    → IsChain is
    → length is ≤ 512
    → length (layout is) ≤ 2 ^ 16
    → render (before ++ (layout is ++ rest)) (length before) ≡ printed (all_facts (plain_items is))
unfolding render printed
render-layout before rest is c le small =
    rw
      (
        render,
        drop-append (length before) before (layout is ++ rest) refl,
        take_over (2 ^ 16) (layout is) rest small,
        walk-layout is (take (2 ^ 16 - length (layout is)) rest) c le,
        collect_chain c,
      )
      (same (all_facts (plain_items is)))
  where
    same : (ls : List Fact) → (elim ls [ [] ↦ none | l ∷ ls' ↦ some (l ∷ ls') ]) ≡ printed ls
    same [] = refl
    same (l ∷ ls) = refl
