-- ===== src/Fixup/Options.antt =====
-- dt_fixup.py: how `main` reads its arguments into the module's globals, after argparse.
use darwin_vm.Prelude.{
  ℕ, suc, ◌-◌, ◌*◌, ◌^◌, ◌≡◌, refl, Bool, ◌&&◌, List, [], ◌∷◌, ◌++◌, Option, none, some, nat_eq,
  list_eq, ◌==◌, leb, if◌then◌else◌,
}
use darwin_vm.Prelude.Result.{Result, ok, raise, ◌>>=◌}
use darwin_vm.Bytes.{Bytes, text}
use darwin_vm.Bytes.Utf8.{Str}
use darwin_vm.PyInt.{ℤ, pos, negsuc, python_int, lstrip, rstrip, is_space}
use darwin_vm.Fixup.{Error, value_error, key_error, index_error}
use darwin_vm.Fixup.Codec.{or_raise}
use darwin_vm.Fixup.Main.{Config, main}

-- EMULATED_FEATURES
abbrev pub emulated_features : List (Str × List Str)
emulated_features =
    (
      text "dcp",
      text "arm-io/dcp"
          ∷ text "arm-io/dart-dcp"
          ∷ text "arm-io/disp0"
          ∷ text "arm-io/dcp0-expert"
          ∷ text "arm-io/dart-disp0"
          ∷ text "arm-io/dart-dispgrt"
          ∷ [],
    )
    ∷ (text "ans", text "arm-io/ans" ∷ text "arm-io/sart-ans" ∷ [])
    ∷ (text "smc", text "arm-io/smc" ∷ [])
    ∷ (text "sep", text "arm-io/sep" ∷ text "arm-io/dart-sep" ∷ [])
    ∷ (text "spmi", text "arm-io/nub-spmi0" ∷ [])
    ∷ []

-- EMULATED_FEATURES[f]
unfoldable pub feature_paths : Str → List (Str × List Str) → Result Error (List Str)
feature_paths f [] = raise key_error
feature_paths f ((g, paths) ∷ rest) =
    let more = feature_paths f rest in if g == f then ok paths else more

-- KEEP_COMPAT_PATHS.update(...), for each feature; the set is asked for its members only.
unfoldable pub keep_paths : List Str → Result Error (List Str)
keep_paths [] = ok []
keep_paths (f ∷ fs) = do
  paths ← feature_paths f emulated_features
  rest ← keep_paths fs
  ok (paths ++ rest)

upper : Str → Str
upper [] = []
upper (c ∷ s) = (if leb b'a' c && leb c b'z' then c - 32 else c) ∷ upper s

-- v[:-1] and v[-1]
unfoldable pub split_last : Str → Option (Str × ℕ)
split_last [] = none
split_last (c ∷ []) = some ([], c)
split_last (c ∷ d ∷ s) = elim (split_last (d ∷ s)) [ none ↦ none | some (a, b) ↦ some (c ∷ a, b) ]

unfoldable pub unit_of : ℕ → Option ℕ
unit_of c =
    if c == b'G'
    then some (2 ^ 30)
    else if c == b'M'
    then some (2 ^ 20)
    else if c == b'K'
    then some (2 ^ 10)
    else none

-- n * mult, of a unit that is not zero
unfoldable pub scale : ℤ → ℕ → ℤ
scale (pos n) m = pos (n * m)
scale (negsuc n) m = negsuc (suc n * m - 1)

-- The size that -dram names.
unfoldable pub read_dram : Str → Result Error ℤ
unfolding upper
read_dram s =
    let v = upper (rstrip (lstrip s)) in
    elim (split_last v) [
      | none ↦ raise index_error
      | some (digits, unit) ↦ elim (unit_of unit) [
        | none ↦ or_raise (python_int v) value_error
        | some m ↦ do n ← or_raise (python_int digits) value_error; ok (scale n m)
      ]
    ]

-- The arguments: an option that is absent is `none`.
pub record Arguments : Type 0 where
  pub enable : List Str
  pub dram : Option Str
  pub ephemeral_data : Option Str
  pub skip_keybag : Bool

-- Where an option is absent or the empty text, the default stays.
abbrev given : {A : Type 0} → Option Str → A → (Str → Result Error A) → Result Error A
given none default read = ok default
given (some []) default read = ok default
given (some (c ∷ s)) default read = read (c ∷ s)

unfoldable pub configure : Arguments → Result Error Config
configure a = do
  size ← given a.dram (pos 0x200000000) read_dram
  blocks ←
      given a.ephemeral_data none (λ s. do n ← or_raise (python_int s) value_error; ok (some n))
  keep ← keep_paths a.enable
  ok (record { keep = keep; dram_size = size; ephemeral = blocks; skip_keybag = a.skip_keybag })

read_dram_runs :
    (read_dram (text " 24g ") ≡ ok (pos (24 * 2 ^ 30)))
    × (read_dram (text "0x200000000") ≡ ok (pos 0x200000000))
    × (read_dram (text " ") ≡ raise index_error)
unfolding read_dram split_last unit_of scale python_int lstrip rstrip is_space
read_dram_runs = (refl, refl, refl)

-- `main`, from its arguments and the bytes of its two input files to the bytes that it writes. The
-- arguments are read before the tree.
unfoldable pub dt_fixup : Arguments → Bool → Bytes → Bytes → Result Error Bytes
dt_fixup a activation nvram dtree = do config ← configure a; main config activation nvram dtree
