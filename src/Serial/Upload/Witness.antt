-- ===== src/Serial/Upload/Witness.antt =====
-- tools/serial.py, `upload`: the lines that are sent after the parts, and what was heard of them.
use darwin_vm.Prelude.{
  ℕ, ◌≡◌, refl, Bool, true, false, ◌∷◌, ◌++◌, Option, length, nat_eq, ◌==◌, if◌then◌else◌,
}
use darwin_vm.Prelude.Result.{ok, raise}
use darwin_vm.Bytes.{Bytes, text}
use darwin_vm.Bytes.Utf8.{Str}
use darwin_vm.PyInt.{decimal_str}
use darwin_vm.Serial.{Link, World}
use darwin_vm.Serial.Upload.{Run, Refusal, dirname, chunks_of, chunk_size, b64encode}
use darwin_vm.Serial.Upload.Steps.{IsLater, IsAnswered}
use darwin_vm.Serial.Upload.Safe.{IsSafeTarget}
use darwin_vm.Serial.Upload.Received.{AreParts}

-- The lines that join the parts, decode them, test the size and the checksum of what they give, and
-- clean up.
abbrev pub part_dir_of : Str → Str
part_dir_of path = dirname path ++ text "/.upload-parts"

abbrev pub join_line : Str → Str
join_line path =
    text "/bin/cat "
    ++ (part_dir_of path
        ++ (text "/* > " ++ ((path ++ text ".b64") ++ text "; echo DVM_UPLOAD_JOIN_RC=$?")))

abbrev pub decode_line : Str → Str
decode_line path =
    text "/bin/base64 -d "
    ++ ((path ++ text ".b64") ++ (text " > " ++ (path ++ text "; echo DVM_UPLOAD_DECODE_RC=$?")))

abbrev pub size_line : Str → ℕ → Str
size_line path size =
    text "test \"$(wc -c < "
    ++ (path ++ (text ")\" -eq " ++ (decimal_str size ++ text "; echo DVM_UPLOAD_SIZE_RC=$?")))

abbrev pub sum_line : Str → Str → Str
sum_line path sum =
    text "set -- $(cksum "
    ++ (path ++ (text "); test \"$1\" = " ++ (sum ++ text "; echo DVM_UPLOAD_CKSUM_RC=$?")))

abbrev pub clean_line : Str → ℕ → Str
clean_line path size =
    text "/bin/rm -f "
    ++ ((path ++ text ".b64")
        ++ 32
          ∷ (part_dir_of path
              ++ (text "/*; /bin/rmdir "
                  ++ (part_dir_of path
                      ++ (text "; echo DVM_UPLOAD_FINAL_RC=$? DVM_UPLOAD_BYTES="
                          ++ decimal_str size)))))

-- The lines after the parts, each answered before the next is sent.
pub record IsFinished (path : Str) (size : ℕ) (sum : Str) (before after : Link) : Type 0 where
  pub at_join : Link
  pub at_decode : Link
  pub at_size : Link
  pub at_sum : Link
  pub joined : IsAnswered before at_join (join_line path) (text "DVM_UPLOAD_JOIN_RC=0")
  pub decoded : IsAnswered at_join at_decode (decode_line path) (text "DVM_UPLOAD_DECODE_RC=0")
  pub sized : IsAnswered at_decode at_size (size_line path size) (text "DVM_UPLOAD_SIZE_RC=0")
  pub summed : IsAnswered at_size at_sum (sum_line path sum) (text "DVM_UPLOAD_CKSUM_RC=0")
  pub cleaned :
      IsAnswered at_sum after
        (clean_line path size)
        (text "DVM_UPLOAD_FINAL_RC=0 DVM_UPLOAD_BYTES=" ++ decimal_str size)

-- What upload leaves when it succeeds, of the file `blob` and the host's checksum `sum` of it.
pub record IsUploaded (cksum : Bytes → Option Str) (path : Str) (blob : Bytes) (sum : Str)
    (before after : Link) : Type 0 where
  pub safe : IsSafeTarget path
  pub room : (chunk_size (dirname path ++ text "/.upload-parts") == 0) ≡ false
  pub between : Link
  pub parts : AreParts cksum (dirname path ++ text "/.upload-parts") before between 1 (
      chunks_of
        (length (b64encode blob))
        (chunk_size (dirname path ++ text "/.upload-parts"))
        (b64encode blob))
  pub later : IsLater before between
  pub finished : IsFinished path (length blob) sum between after

-- An exit that was not taken.
passed :
    (b : Bool) (e : Refusal × World) (r : Run) (v : World)
    → (if b then raise e else r) ≡ ok v
    → (b ≡ false) × (r ≡ ok v)
passed true e r v h = absurd (cc)
passed false e r v h = (refl, h)
