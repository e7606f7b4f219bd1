-- ===== src/Watch.antt =====
-- tools/re/probe_watch.py: the follower of a log. What the file has at a reading is given with it: its
-- size, and then its bytes, each `none` where the call raises OSError.
pub mod Lines
mod Tests
use darwin_vm.Prelude.{
  ℕ, ◌+◌, Bool, true, false, List, [], ◌∷◌, ◌++◌, Option, none, some, length, drop, ltb,
  if◌then◌else◌,
}
use darwin_vm.Bytes.{Bytes}
use darwin_vm.Bytes.Utf8.{Str, decode_replace}
use darwin_vm.Serial.{lines, strip_return}

pub record Follower : Type 0 where
  pub offset : ℕ
  pub carry : Str

pub record Reading : Type 0 where
  pub size : Option ℕ
  pub content : Option Bytes

unfoldable pub new_follower : Follower
new_follower = record { offset = 0; carry = [] }

-- A file that has become shorter is read from its start again.
unfoldable pub rewound : ℕ → Follower → Follower
rewound size f = if ltb size f.offset then record { offset = 0; carry = [] } else f

unfoldable pub stripped : List Str → List Str
stripped [] = []
stripped (l ∷ ls) = strip_return l ∷ stripped ls

-- Follower.read_lines. The text is cut at its newlines, and the last part is carried on.
unfoldable pub read_lines : Reading → Follower → List Str × Follower
read_lines r f = elim r.size [
  | none ↦ ([], f)
  | some size ↦
      let g = rewound size f in
      elim r.content [
        | none ↦ ([], g)
        | some d ↦
            let more = drop g.offset d in
            let (ls, rest) = lines (g.carry ++ decode_replace more) in
            (stripped ls, record { offset = g.offset + length more; carry = rest })
      ]
]

-- The lines of the readings of a run, in order.
unfoldable pub read_all : List Reading → Follower → List Str × Follower
read_all [] f = ([], f)
read_all (r ∷ rs) f =
    let (ls, g) = read_lines r f in let (more, h) = read_all rs g in (ls ++ more, h)

-- What the loop of `main` does with the lines of one log: the first that matches is the reason to stop.
unfoldable pub first_match : (Str → Bool) → List Str → Option Str
first_match matches [] = none
first_match matches (l ∷ ls) = if matches l then some l else first_match matches ls
