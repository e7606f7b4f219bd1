-- ===== src/Serial/Upload.antt =====
-- tools/serial.py, `upload`: a file in checked parts, through the shell of the guest. What the host's
-- `cksum` prints is a parameter, and so is the file that is read.
pub mod Parts
pub mod Safe
pub mod Steps
pub mod Received
pub mod Witness
mod Tests
use darwin_vm.Prelude.{
  ℕ, zero, suc, ◌+◌, ◌-◌, ◌*◌, ◌/◌, ◌%◌, min, Bool, true, false, not, ◌&&◌, ◌||◌, List, [], ◌∷◌,
  ◌++◌, Option, none, some, length, take, drop, any, leb, ltb, nat_eq, list_eq, ◌==◌, if◌then◌else◌,
  replicate,
}
use darwin_vm.Prelude.Result.{Result, ok, raise, ◌>>=◌, ◌>>◌, check}
use darwin_vm.Bytes.{Bytes, text}
use darwin_vm.Bytes.Utf8.{Str}
use darwin_vm.PyInt.{pos, decimal_str}
use darwin_vm.Text.{starts_with, contains, split, rpartition}
use darwin_vm.Serial.{
  World, Options, hundredths, drain, wait_for_text, wait_for_markers, wait_for_prompt, send,
  send_command, send_command_batch,
}

-- remote_path_is_safe
abbrev roots : List Str
roots = text "/private/var/.dvm-data-seed/" ∷ text "/private/var/hardware/.dvm-data-seed/" ∷ []

unfoldable pub remote_path_is_safe : Str → Bool
remote_path_is_safe path =
    any (λ root. starts_with root path && not (path == root)) roots
    && not (any (λ part. part == text "..") (split b'/' path))

-- sys.exit, with its reason.
pub data Refusal : Type 0 where
  bad_target unreadable no_prompt no_marker no_batch_prompt no_batch_markers not_ascii no_room
        no_cksum no_host_cksum :
      Refusal
  no_echo no_handshake no_remote_path bad_batch no_socket : Refusal

-- An exit leaves what was heard and logged.
abbrev pub Run : Type 0
Run = Result (Refusal × World) World

-- entries: commands and their markers.
unfoldable pub firsts : List (Str × Str) → List Str
firsts [] = []
firsts (e ∷ es) = e.0 ∷ firsts es

unfoldable pub seconds : List (Str × Str) → List Str
seconds [] = []
seconds (e ∷ es) = e.1 ∷ seconds es

module _ (o : Options) where
  unfoldable pub recover : World → World
  recover w = drain o.dropped false o.half_second (hundredths o 20) (send (3 ∷ 10 ∷ []) w)

  -- checked, with the attempts that are left
  unfoldable pub checked : Str → Str → Bool → ℕ → World → Run
  checked command marker final zero w = raise (no_marker, w)
  checked command marker final (suc n) w =
      let (arrived, v) = wait_for_prompt o w in
      elim arrived [
        | false ↦ elim n [ zero ↦ raise (no_prompt, v) | suc _ ↦ checked command marker final n v ]
        | true ↦
            let (witnessed, x) =
              wait_for_text o.dropped true (contains marker) o.echo_timeout
                (send_command command v) in
            elim witnessed [
              | true ↦ ok (
                  drain o.dropped true (if final then o.secs else hundredths o 10)
                    (if final then o.idle else hundredths o 5) x)
              | false ↦ elim n [
                | zero ↦ raise (no_marker, x)
                | suc _ ↦ checked command marker final n (recover x)
              ]
            ]
      ]

  -- checked_batch, with the attempts that are left.
  unfoldable pub checked_batch : List (Str × Str) → ℕ → World → Run
  checked_batch entries zero w = raise (no_batch_markers, w)
  checked_batch entries (suc n) w =
      let (arrived, v) = wait_for_prompt o w in
      elim arrived [
        | false ↦ elim n [ zero ↦ raise (no_batch_prompt, v) | suc _ ↦ checked_batch entries n v ]
        | true ↦
            let (witnessed, x) =
              wait_for_markers o.dropped true (seconds entries) o.echo_timeout
                (send_command_batch (firsts entries) v) in
            elim witnessed [
              | true ↦ ok (drain o.dropped true (hundredths o 10) (hundredths o 5) x)
              | false ↦ elim n [
                | zero ↦ raise (no_batch_markers, x)
                | suc _ ↦ checked_batch entries n (recover x)
              ]
            ]
      ]

-- base64.b64encode
unfoldable pub b64_char : ℕ → ℕ
b64_char n =
    if ltb n 26
    then n + 65
    else if ltb n 52
    then n + 71
    else if ltb n 62
    then n - 4
    else if n == 62
    then 43
    else 47

unfoldable pub b64encode : Bytes → Str
b64encode [] = []
b64encode (a ∷ []) = b64_char (a / 4) ∷ b64_char (a % 4 * 16) ∷ 61 ∷ 61 ∷ []
b64encode (a ∷ b ∷ []) =
    b64_char (a / 4) ∷ b64_char (a % 4 * 16 + b / 16) ∷ b64_char (b % 16 * 4) ∷ 61 ∷ []
b64encode (a ∷ b ∷ c ∷ s) =
    b64_char (a / 4)
    ∷ b64_char (a % 4 * 16 + b / 16)
    ∷ b64_char (b % 16 * 4 + c / 64)
    ∷ b64_char (c % 64)
    ∷ b64encode s

-- os.path.dirname
unfoldable pub rstrip_slash : Str → Str
rstrip_slash [] = []
rstrip_slash (c ∷ s) = let t = rstrip_slash s in if c == b'/' && t == [] then [] else c ∷ t

unfoldable pub dirname : Str → Str
dirname p =
    if not (any (λ c. c == b'/') p)
    then []
    else let head = (rpartition b'/' p).0 ++ b'/' ∷ [] in
      let t = rstrip_slash head in if t == [] then head else t

unfoldable pub padded : ℕ → Str
padded n = let s = decimal_str n in replicate (6 - length s) b'0' ++ s

-- part_path, the line that writes a part, and its witness
unfoldable pub part_path : Str → ℕ → Str
part_path dir number = dir ++ b'/' ∷ padded number

unfoldable pub part_command : Str → Str → Str
part_command path chunk =
    text "printf '%s' '" ++ (chunk ++ (text "' > " ++ (path ++ (text "; /bin/cksum " ++ path))))

unfoldable pub part_marker : Str → Str → Str → Str
part_marker sum path chunk = sum ++ 32 ∷ (decimal_str (length chunk) ++ 32 ∷ path)

-- The bytes of a line without its chunk, and those left for it.
unfoldable pub sample_line : Str → Str
sample_line dir = text ": :; " ++ (part_command (part_path dir 1) [] ++ 10 ∷ [])

unfoldable pub chunk_size : Str → ℕ
chunk_size dir = min 120 ((252 - length (sample_line dir)) / 4 * 4)

-- encoded[off:off + size] for off in range(0, len(encoded), size); the fuel is the length.
unfoldable pub chunks_of : ℕ → ℕ → Str → List Str
chunks_of zero size s = []
chunks_of (suc fuel) size [] = []
chunks_of (suc fuel) size (c ∷ s) = take size (c ∷ s) ∷ chunks_of fuel size (drop size (c ∷ s))

-- The loop over the parts, with the entries that are not yet sent. `cksum` is the first word that the
-- program prints for a text, or none when it fails.
module _ (o : Options) (cksum : Bytes → Option Str) (dir : Str) where
  unfoldable pub send_parts : ℕ → List Str → List (Str × Str) → World → Run
  send_parts number [] [] w = ok w
  send_parts number [] (e ∷ es) w = checked_batch o (e ∷ es) 8 w
  send_parts number (c ∷ cs) entries w =
      let path = part_path dir number in
      elim (cksum c) [
        | none ↦ raise (no_cksum, w)
        | some sum ↦
            let entries' = entries ++ (part_command path c, part_marker sum path c) ∷ [] in
            elim (length entries' == o.batch) [
              | true ↦ checked_batch o entries' 8 w >>= send_parts (suc number) cs []
              | false ↦ send_parts (suc number) cs entries' w
            ]
      ]

unfoldable pub final_marker : ℕ → Str
final_marker size = text "DVM_UPLOAD_FINAL_RC=0 DVM_UPLOAD_BYTES=" ++ decimal_str size

-- The commands before the parts, and after them.
module _ (o : Options) where
  unfoldable pub step : Str → Str → Bool → World → Run
  step command marker final w = checked o command marker final 3 w

  unfoldable pub set_up : Str → World → Run
  unfolding step
  set_up path w = do
    let dir = dirname path ++ text "/.upload-parts"
    v ←
        step
          (text "mkdir -p "
            ++ (dirname path ++ 32 ∷ (dir ++ text "; echo DVM_UPLOAD_SETUP_DIR_RC=$?")))
          (text "DVM_UPLOAD_SETUP_DIR_RC=0") false w
    x ←
        step
          (text "/bin/rm -f "
            ++ (path ++ 32 ∷ (path ++ text ".b64; echo DVM_UPLOAD_SETUP_TARGET_RC=$?")))
          (text "DVM_UPLOAD_SETUP_TARGET_RC=0") false v
    step
        (text "/bin/rm -f "
          ++ (path ++ (text ".b64.part.* " ++ (dir ++ text "/*; echo DVM_UPLOAD_SETUP_RC=$?"))))
        (text "DVM_UPLOAD_SETUP_RC=0") false x

  unfoldable pub finish : Str → ℕ → Str → World → Run
  unfolding step
  finish path size sum w = do
    let dir = dirname path ++ text "/.upload-parts"
    let b64 = path ++ text ".b64"
    v ←
        step
          (text "/bin/cat "
            ++ (dir ++ (text "/* > " ++ (b64 ++ text "; echo DVM_UPLOAD_JOIN_RC=$?"))))
          (text "DVM_UPLOAD_JOIN_RC=0") false w
    x ←
        step
          (text "/bin/base64 -d "
            ++ (b64 ++ (text " > " ++ (path ++ text "; echo DVM_UPLOAD_DECODE_RC=$?"))))
          (text "DVM_UPLOAD_DECODE_RC=0") false v
    y ←
        step
          (text "test \"$(wc -c < "
            ++ (path
                ++ (text ")\" -eq " ++ (decimal_str size ++ text "; echo DVM_UPLOAD_SIZE_RC=$?"))))
          (text "DVM_UPLOAD_SIZE_RC=0") false x
    z ←
        step
          (text "set -- $(cksum "
            ++ (path
                ++ (text "); test \"$1\" = " ++ (sum ++ text "; echo DVM_UPLOAD_CKSUM_RC=$?"))))
          (text "DVM_UPLOAD_CKSUM_RC=0") false y
    step
        (text "/bin/rm -f "
          ++ (b64
              ++ 32
                ∷ (dir
                    ++ (text "/*; /bin/rmdir "
                        ++ (dir
                            ++ (text "; echo DVM_UPLOAD_FINAL_RC=$? DVM_UPLOAD_BYTES="
                                ++ decimal_str size))))))
        (final_marker size) true z

-- upload: `file` is what is read from the local path, and `file_sum` the host's checksum of it.
module _ (o : Options) (cksum : Bytes → Option Str) (file : Option Bytes)
    (file_sum : Option Str) where
  unfoldable pub upload : Str → World → Run
  upload path w = if not (remote_path_is_safe path) then raise (bad_target, w) else elim file [
    | none ↦ raise (unreadable, w)
    | some blob ↦
        let dir = dirname path ++ text "/.upload-parts" in
        set_up o path w >>= λ v.
        if any (leb 0x80) (sample_line dir)
        then raise (not_ascii, v)
        else if chunk_size dir == 0
        then raise (no_room, v)
        else (send_parts o cksum dir 1
              (chunks_of (length (b64encode blob)) (chunk_size dir) (b64encode blob)) [] v
            >>= λ x. elim file_sum [
              | none ↦ raise (no_host_cksum, x)
              | some sum ↦ finish o path (length blob) sum x
            ])
  ]
