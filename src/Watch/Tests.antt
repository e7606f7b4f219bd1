-- ===== src/Watch/Tests.antt =====
-- tools/re/probe_watch.py: a log in three parts.
use darwin_vm.Prelude.{◌≡◌, refl, List, [], ◌∷◌, some, drop}
use darwin_vm.Bytes.{Bytes, text}
use darwin_vm.Bytes.Utf8.{decode_replace}
use darwin_vm.Text.{contains, starts_with}
use darwin_vm.Serial.{lead, put, lines, strip_return}
use darwin_vm.Watch.{new_follower, rewound, stripped, read_lines, read_all, first_match}
use darwin_vm.Watch.Lines.{readings, text_of_parts, read_all-readings}

abbrev parts : List Bytes
parts = text "boot\r\nset_" ∷ [] ∷ text "power\ndo" ∷ []

read_all-readings_example :
    ((read_all (readings [] parts) new_follower).0 ≡ stripped (lines (text_of_parts parts)).0)
    × ((read_all (readings [] parts) new_follower).1.carry ≡ (lines (text_of_parts parts)).1)
read_all-readings_example = read_all-readings parts

lines_read : (read_all (readings [] parts) new_follower).0 ≡ text "boot" ∷ text "set_power" ∷ []
unfolding read_all read_lines readings new_follower rewound stripped lines put lead strip_return
    decode_replace drop
lines_read = refl

-- A log that was cut is read again from its start.
after_truncation :
    (read_lines
      (record { size = some 2; content = some (text "a\n") })
      (record { offset = 9; carry = text "x" })).0
    ≡ text "a" ∷ []
unfolding read_lines rewound stripped lines put lead strip_return decode_replace drop
after_truncation = refl

matching :
    first_match (contains (text "power")) (text "boot" ∷ text "set_power" ∷ [])
    ≡ some (text "set_power")
unfolding first_match contains starts_with
matching = refl
