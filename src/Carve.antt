-- ===== src/Carve.antt =====
-- tools/bplist_carve.py: the search of a memory dump for binary property lists. What plistlib makes of a
-- slice is a parameter, and so are the tests of it: whether it is None, and that of --grep.
pub mod Found
pub mod Rounds
mod Tests
use darwin_vm.Prelude.{
  ℕ, zero, suc, ◌+◌, ◌-◌, ◌*◌, ◌^◌, min, Bool, true, false, not, ◌&&◌, ◌||◌, List, [], ◌∷◌, Option,
  none, some, length, take, drop, leb, ltb, nat_eq, list_eq, ◌==◌, if◌then◌else◌,
}
use darwin_vm.Bytes.{Bytes, text}
use darwin_vm.Text.{starts_with}

abbrev pub plist_magic : Bytes
plist_magic = text "bplist00"

-- buf[start:end]
unfoldable pub slice : ℕ → ℕ → Bytes → Bytes
slice start end buf = take (end - start) (drop start buf)

-- struct.unpack(">Q") on eight bytes, from an accumulated value on
unfoldable pub read_be : ℕ → Bytes → ℕ
read_be n [] = n
read_be n (b ∷ s) = read_be (n * 256 + b) s

-- t[i]; the trailer has 32 bytes, as an end lies within the dump.
unfoldable pub first_byte : Bytes → ℕ
first_byte [] = 0
first_byte (b ∷ s) = b

unfoldable pub byte_at : ℕ → Bytes → ℕ
byte_at i t = first_byte (drop i t)

-- try_end
unfoldable pub try_end : Bytes → ℕ → ℕ → Bool
try_end buf start end =
    let t = slice (end - 32) end buf in
    let off_size = byte_at 6 t in
    let ref_size = byte_at 7 t in
    let num = read_be 0 (slice 8 16 t) in
    let top = read_be 0 (slice 16 24 t) in
    let table = read_be 0 (slice 24 32 t) in
    leb 40 (end - start)
    && (take 5 t == 0 ∷ 0 ∷ 0 ∷ 0 ∷ 0 ∷ []
        && ((leb 1 off_size && leb off_size 8 && (leb 1 ref_size && leb ref_size 8))
            && (not (num == 0 || ltb (2 ^ 22) num || leb num top)
                && not (ltb table 8 || not (start + table + num * off_size == end - 32)))))

module _ {Plist : Type 0} (load : Bytes → Option Plist) where
  -- The loop of `carve` over so many ends, from one on.
  unfoldable pub carve_ends : Bytes → ℕ → ℕ → ℕ → Option (Plist × ℕ)
  carve_ends buf start end zero = none
  carve_ends buf start end (suc n) = elim (try_end buf start end) [
    | false ↦ carve_ends buf start (suc end) n
    | true ↦ elim (load (slice start end buf)) [
      | none ↦ carve_ends buf start (suc end) n
      | some p ↦ some (p, end - start)
    ]
  ]

  -- carve: `none` is (None, 0).
  unfoldable pub carve : Bytes → ℕ → ℕ → Option (Plist × ℕ)
  carve buf start window =
      carve_ends buf start (start + 40) (min (length buf) (start + window) - (start + 40))

-- buf.find(magic, pos), on the bytes from `at` on
unfoldable pub find_from : Bytes → ℕ → Bytes → Option ℕ
find_from m at [] = none
find_from m at (b ∷ s) = elim (starts_with m (b ∷ s)) [
  | true ↦ some at
  | false ↦ find_from m (suc at) s
]

module _ {Plist : Type 0} (load : Bytes → Option Plist) (is_none wanted : Plist → Bool)
    (buf : Bytes) (window base : ℕ) where
  -- The loop of `main`, with the number of lists that may still be printed: where each is, its length
  -- and what it holds. A list whose value is None is passed over, as one that is not there.
  unfoldable pub recover_from : ℕ → ℕ → ℕ → List (ℕ × (ℕ × Plist))
  recover_from zero left pos = []
  recover_from (suc fuel) zero pos = []
  recover_from (suc fuel) (suc left) pos = elim (find_from plist_magic pos (drop pos buf)) [
    | none ↦ []
    | some k ↦ elim (carve load buf k window) [
      | none ↦ recover_from fuel (suc left) (suc k)
      | some (p, n) ↦ elim (is_none p || not (wanted p)) [
        | true ↦ recover_from fuel (suc left) (suc k)
        | false ↦ (base + k, (n, p)) ∷ recover_from fuel left (suc k)
      ]
    ]
  ]

  -- Each round passes a byte, so the length is fuel enough.
  unfoldable pub recover_lists : ℕ → List (ℕ × (ℕ × Plist))
  recover_lists max_count = recover_from (suc (length buf)) max_count 0

-- The part of the dump that --near reads, and where it begins.
unfoldable pub read_near : Option ℕ → ℕ → Bytes → Bytes × ℕ
read_near none window dump = (dump, 0)
read_near (some near) window dump = let lo = near - window in (take (window * 2) (drop lo dump), lo)
