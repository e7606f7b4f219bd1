-- ===== src/Serial/Upload/Tests.antt =====
-- tools/serial.py, `upload`: a file of three bytes, sent to a console that confirms it.
use darwin_vm.Prelude.{
  ℕ, ◌+◌, ◌≤◌, ◌<◌, ◌≡◌, refl, Bool, true, false, List, [], ◌∷◌, Option, none, some, length, All,
  replicate, arith, if◌then◌else◌, nat_eq, list_eq, ◌==◌,
}
use darwin_vm.Prelude.Result.{ok, raise}
use darwin_vm.Bytes.{Bytes, text}
use darwin_vm.Bytes.Utf8.{Str}
use darwin_vm.PyInt.{decimal_str, to_digits}
use darwin_vm.Text.{contains}
use darwin_vm.Serial.{chunk, blocked, Poll, World, Options, guarded}
use darwin_vm.Serial.Upload.{
  Run, b64_char, b64encode, padded, part_path, part_command, sample_line, chunk_size, chunks_of,
  upload,
}
use darwin_vm.Serial.Upload.Parts.{part_lines_fit}

abbrev options : Options
options = record {
  dropped = λ s. false;
  prompt = contains (text "#");
  prompt_timeout = 10;
  echo_timeout = 10;
  secs = 10;
  idle = 1;
  half_second = 50;
  batch = 4;
}

-- A prompt, the end of the quiet time, an answer, and the end of the reading, for each answer.
abbrev answers : ℕ → List Str → List Poll
answers t [] = []
answers t (m ∷ ms) =
    record { now = t; got = chunk (text "#") }
    ∷ record { now = t + 100; got = blocked }
    ∷ record { now = t + 100; got = chunk m }
    ∷ record { now = t + 200; got = blocked }
    ∷ answers (t + 200) ms

abbrev target : Str
target = text "/private/var/.dvm-data-seed/t/a"

abbrev world : World
world = record {
  link = record { clock = 0; heard = []; sent = []; log = []; printed = [] };
  polls = answers 0 (
      text "DVM_UPLOAD_SETUP_DIR_RC=0"
      ∷ text "DVM_UPLOAD_SETUP_TARGET_RC=0"
      ∷ text "DVM_UPLOAD_SETUP_RC=0"
      ∷ text "77 4 /private/var/.dvm-data-seed/t/.upload-parts/000001"
      ∷ text "DVM_UPLOAD_JOIN_RC=0"
      ∷ text "DVM_UPLOAD_DECODE_RC=0"
      ∷ text "DVM_UPLOAD_SIZE_RC=0"
      ∷ text "DVM_UPLOAD_CKSUM_RC=0"
      ∷ text "DVM_UPLOAD_FINAL_RC=0 DVM_UPLOAD_BYTES=3"
      ∷ []);
}

abbrev blob : Bytes
blob = text "abc"

abbrev cksum : Bytes → Option Str
cksum s = if s == text "YWJj" then some (text "77") else none

abbrev world_of : Run → World
world_of (ok w) = w
world_of (raise (r, w)) = w

succeeds : Run → Bool
succeeds (ok w) = true
succeeds (raise e) = false

abbrev uploaded : Run
uploaded = upload options cksum (some blob) (some (text "99")) target world

encoding : b64encode (text "Man") ≡ text "TWFu"
unfolding b64encode b64_char
encoding = refl

short_encoding : b64encode (text "Ma") ≡ text "TWE="
unfolding b64encode b64_char
short_encoding = refl

abbrev part_dir : Str
part_dir = text "/private/var/.dvm-data-seed/t/.upload-parts"

part_dir_room : 0 < chunk_size part_dir
unfolding chunk_size sample_line part_path part_command padded decimal_str to_digits replicate
part_dir_room = omega arith

part_lines_fit_example :
    All
      (λ c. length (guarded (part_command (part_path part_dir 1) c)) ≤ 252)
      (chunks_of (length (b64encode blob)) (chunk_size part_dir) (b64encode blob))
part_lines_fit_example =
    part_lines_fit part_dir blob 1 (ground arith) (ground arith) part_dir_room (omega arith)
