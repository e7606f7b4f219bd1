-- ===== src/Checkpoint/Consoles.antt =====
-- tools/checkpoint_common.py, `restore_argv`: the new values of -chardev and -serial.
use darwin_vm.Prelude.{
  ◌≡◌, true, false, ◌&&◌, List, [], ◌∷◌, ◌++◌, any, All, Bool-cases, inl, inr, arith, nat_eq,
  list_eq, list_beq_iff, ◌==◌,
}
use darwin_vm.Bytes.{text}
use darwin_vm.Bytes.Utf8.{Str}
use darwin_vm.Text.{starts_with, split, join}
use darwin_vm.Checkpoint.{among}
use darwin_vm.Checkpoint.Argv.{Places, kept_parts, first_part, rewrite_chardev, rewrite_serial}

-- A part that names neither a socket nor a log.
abbrev pub IsOtherPart : Str → Type 0
IsOtherPart p = (starts_with (text "path=") p ≡ false) × (starts_with (text "logfile=") p ≡ false)

-- A socket that some -serial refers to has the new socket and the new log, as its last parts, and no
-- other; every other chardev is as it was.
pub data IsNewChardev (o : Places) (devices : List Str) (v : Str) : Str → Type 0 where
  console :
      first_part (split b',' v) ≡ text "socket"
      → any (λ d. among (text "id=" ++ d) (split b',' v)) devices ≡ true
      → All IsOtherPart (kept_parts (split b',' v))
      → IsNewChardev o devices v (
          join b',' (
            kept_parts (split b',' v)
            ++ (text "path=" ++ o.uart) ∷ (text "logfile=" ++ o.serial) ∷ []))
  other :
      (first_part (split b',' v) == text "socket"
          && any (λ d. among (text "id=" ++ d) (split b',' v)) devices)
        ≡ false
      → IsNewChardev o devices v v

-- A log in a file is the new log.
pub data IsNewSerial (o : Places) (v : Str) : Str → Type 0 where
  to_file : starts_with (text "file:") v ≡ true → IsNewSerial o v (text "file:" ++ o.serial)
  elsewhere : starts_with (text "file:") v ≡ false → IsNewSerial o v v

kept_parts-IsOtherPart : (ps : List Str) → All IsOtherPart (kept_parts ps)
unfolding kept_parts
kept_parts-IsOtherPart [] = tt
kept_parts-IsOtherPart (p ∷ ps) = elim (Bool-cases (starts_with (text "path=") p)) [
  | inl e ↦ rw (kept_parts, e) (kept_parts-IsOtherPart ps)
  | inr e ↦ elim (Bool-cases (starts_with (text "logfile=") p)) [
    | inl f ↦ rw (kept_parts, e, f) (kept_parts-IsOtherPart ps)
    | inr f ↦ rw (kept_parts, e, f) ((e, f), kept_parts-IsOtherPart ps)
  ]
]

pub rewrite_chardev-IsNewChardev :
    (o : Places) (devices : List Str) (v : Str)
    → IsNewChardev o devices v (rewrite_chardev o devices v).0
unfolding rewrite_chardev
rewrite_chardev-IsNewChardev o devices v =
    let named = any (λ d. among (text "id=" ++ d) (split b',' v)) devices in
    elim (Bool-cases (first_part (split b',' v) == text "socket" && named)) [
      | inl e ↦
          rw (rewrite_chardev, e)
            (console (ground (arith, list_beq_iff (first_part (split b',' v)) (text "socket")))
              (ground arith) (kept_parts-IsOtherPart (split b',' v)))
      | inr e ↦ rw (rewrite_chardev, e) (other e)
    ]

pub rewrite_serial-IsNewSerial : (o : Places) (v : Str) → IsNewSerial o v (rewrite_serial o v).0
unfolding rewrite_serial
rewrite_serial-IsNewSerial o v = elim (Bool-cases (starts_with (text "file:") v)) [
  | inl e ↦ rw (rewrite_serial, e) (to_file e)
  | inr e ↦ rw (rewrite_serial, e) (elsewhere e)
]
