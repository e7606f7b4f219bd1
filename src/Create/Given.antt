-- ===== src/Create/Given.antt =====
-- tools/create_checkpoint.py: what a checkpoint is made of: the guest and the host, the files with the two
-- modes that are set, and the manifest.
use darwin_vm.Prelude.{
  ℕ, ◌-◌, Bool, true, false, not, List, [], ◌∷◌, ◌++◌, Option, none, some, length, take, drop, ltb,
  nat_eq, list_eq, ◌==◌,
}
use darwin_vm.Bytes.{Bytes, text}
use darwin_vm.Bytes.Utf8.{Str}
use darwin_vm.PyInt.{pos}
use darwin_vm.Text.{partition, rpartition}
use darwin_vm.Checkpoint.{qemu_input_files}
use darwin_vm.Checkpoint.Texts.{serial_hex_clock_bounds}
use darwin_vm.Checkpoint.Chain.{Info, Entry}
use darwin_vm.Checkpoint.Manifest.{File, Manifest, whole, checkpoint_format, model_env}
use darwin_vm.Create.{Source}
use darwin_vm.Checkpoint.Session.{Tick}

-- The marker of --marker-regex: where its last match in the serial log is, if there is one.
pub record Given : Type 0 where
  pub resolve : Str → Str
  pub source : Source
  pub out : Str
  pub out_exists : Bool
  pub pid : ℕ
  pub serial_text : Str
  pub marker : Option (Str → Option (ℕ × ℕ))
  pub clock : ℕ
  pub timeout : ℕ
  pub polls : List Tick
  pub process_ends : Bool
  pub has_analyzer : Bool
  pub disk_checks : Bool
  pub infos : List Info
  pub files : Str → Option File
  pub sha256 : Bytes → Str

-- serial_text[line_start:line_end] around a match
unfoldable pub line_around : Str → ℕ → ℕ → Str
line_around s start stop =
    (rpartition 10 (take start s)).1
    ++ take (stop - start) (drop start s)
    ++ (partition 10 (drop stop s)).0

unfoldable pub last_clock : Str → Option ℕ
last_clock s = elim (serial_hex_clock_bounds s) [ none ↦ none | some (a, b) ↦ some b ]

-- path.chmod(mode)
unfoldable pub with_mode : Bool → ℕ → Option File → Option File
with_mode true mode (some f) = some (record f { mode = mode })
with_mode _ mode o = o

unfoldable pub chmod : Str → ℕ → (Str → Option File) → Str → Option File
chmod path mode files p = with_mode (p == path) mode (files p)

unfoldable pub state_path_of : Given → Str
state_path_of g = g.out ++ text "/vmstate.bin"

-- The files after the two calls of chmod.
unfoldable pub kept_files : Given → Str → Option File
kept_files g = chmod (g.resolve g.source.disk) 292 (chmod (state_path_of g) 384 g.files)

-- The state file is there with a page at least.
unfoldable pub has_state : Given → Bool
has_state g = elim (g.files (state_path_of g)) [
  | none ↦ false
  | some f ↦ not (ltb (length f.content) 4096)
]

-- The hashes of those inputs that are files.
unfoldable pub hashed_input : Given → Str → Option File → List (Str × Str) → List (Str × Str)
hashed_input g p none more = more
hashed_input g p (some f) more = (p, g.sha256 f.content) ∷ more

unfoldable pub hash_inputs : Given → List Str → List (Str × Str)
hash_inputs g [] = []
hash_inputs g (p ∷ ps) = hashed_input g p (kept_files g p) (hash_inputs g ps)

unfoldable pub first_program : List Str → Str
first_program [] = []
first_program (p ∷ _) = p

unfoldable pub is_child : List Entry → Bool
is_child [] = false
is_child (e ∷ []) = false
is_child (e ∷ _ ∷ _) = e.format == text "qcow2"

unfoldable pub first_sha : List Entry → Str
first_sha [] = []
first_sha (e ∷ _) = e.sha

unfoldable pub sha_of : Given → Option File → Str
sha_of g none = []
sha_of g (some f) = g.sha256 f.content

unfoldable pub sha_at : Given → Str → Str
sha_at g p = sha_of g (kept_files g p)

unfoldable pub manifest_of : Given → Str → ℕ → List Entry → Manifest
manifest_of g pc cpu chain = record {
  format = checkpoint_format;
  source_pid = g.pid;
  source_pc = pc;
  source_cpu_index = whole (pos cpu);
  cpu_inventory = some (g.out ++ text "/evidence/cpus.txt");
  source_clock_last = last_clock g.serial_text;
  qemu_argv = g.source.argv;
  qemu_env = model_env g.source.env;
  qemu_inputs =
      hash_inputs g
        (g.resolve (first_program g.source.argv) ∷ qemu_input_files g.resolve g.source.argv);
  state_path = state_path_of g;
  state_sha = sha_at g (state_path_of g);
  disk_path = g.resolve g.source.disk;
  disk_sha = first_sha chain;
  chain = chain;
}
