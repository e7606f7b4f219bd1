-- ===== src/Restore/Left.antt =====
-- tools/create_checkpoint.py and tools/restore_checkpoint.py: the files, hashes and modes as the one
-- leaves them for the other.
use darwin_vm.Prelude.{
  ℕ, ◌≡◌, refl, ap, sym, ◌∙◌, Bool, true, false, not, ◌&&◌, List, [], ◌∷◌, Option, none, some, inl,
  inr, Bool-cases, nat_eq, list_eq, list_beq_iff, ◌==◌, ==_refl,
}
use darwin_vm.Prelude.Result.{Result, ok, ◌>>=◌, >>=-eq-ok, check}
use darwin_vm.Bytes.{Bytes}
use darwin_vm.Bytes.Utf8.{Str}
use darwin_vm.Checkpoint.Chain.{
  Entry, IsChain, qcow2_backing_chain-starts, some_members, qcow2_backing_chain,
}
use darwin_vm.Checkpoint.Manifest.{File, content_of, is_writable, is_safe_tag, launch_format}
use darwin_vm.Checkpoint.Session.{bad_tag, not_alive, bad_launch, not_qemu, other_argv}
use darwin_vm.Create.{owns, is_qemu}
use darwin_vm.Create.Given.{
  Given, hashed_input, with_mode, chmod, kept_files, has_state, state_path_of, hash_inputs,
  first_program, first_sha,
}
use darwin_vm.Restore.{
  Host, hash_or, Rejection, hash_file, check_inputs, is_input, has_sha, is_other_qemu, recorded,
  source_program, is_replaced,
}

pub eq_of_same : (a b : Str) → a ≡ b → (a == b) ≡ true
eq_of_same a b h = ap (λ z. a == z) (sym h) ∙ ==_refl a

some_injective : {A : Type 0} {a b : A} → some a ≡ some b → a ≡ b
some_injective h = cc (h)

and_false : (b : Bool) → (not b && false) ≡ false
and_false true = refl
and_false false = refl

module _ (g : Given) where
  -- The host is as create_checkpoint.py has left it.
  unfoldable pub left_host : (Str → Bool) → Host
  left_host exists = record {
    files = kept_files g;
    exists = exists;
    resolve = g.resolve;
    sha256 = g.sha256;
  }

  module _ (exists : Str → Bool) where
    input_passes :
        (source p : Str) (o : Option File) (more : List (Str × Str))
        → kept_files g p ≡ o
        → check_inputs (left_host exists) none source more ≡ ok tt
        → check_inputs (left_host exists) none source (hashed_input g p o more) ≡ ok tt
    unfolding check_inputs hashed_input is_replaced is_input has_sha left_host
    input_passes source p none more e h = h
    input_passes source p (some f) more e h =
        let there : is_input (left_host exists) (p, g.sha256 f.content) ≡ true =
          ap (has_sha (left_host exists) (g.sha256 f.content)) e ∙ ==_refl (g.sha256 f.content) in
        rw (there) h

    pub inputs_pass :
        (source : Str) (ps : List Str)
        → check_inputs (left_host exists) none source (hash_inputs g ps) ≡ ok tt
    unfolding check_inputs hash_inputs
    inputs_pass source [] = refl
    inputs_pass source (p ∷ ps) =
        input_passes source p (kept_files g p) (hash_inputs g ps) refl (inputs_pass source ps)

  recorded_one :
      (name x : Str) (f : File) (p : Str) (o : Option File) (more : List (Str × Str))
      → kept_files g name ≡ some f
      → kept_files g p ≡ o
      → (recorded name more ≡ some x → g.sha256 f.content ≡ x)
      → recorded name (hashed_input g p o more) ≡ some x
      → g.sha256 f.content ≡ x
  unfolding recorded hashed_input
  recorded_one name x f p none more there e rest = rest
  recorded_one name x f p (some d) more there e rest = elim (Bool-cases (p == name)) [
    | inl same ↦
        rw (recorded, same)
          (λ h.
            let file : some d ≡ some f =
              sym e ∙ ap (kept_files g) ((list_beq_iff p name).0 same) ∙ there in
            ap (λ d. g.sha256 d.content) (some_injective (sym file)) ∙ some_injective h)
    | inr differs ↦ rw (recorded, differs) rest
  ]

  pub recorded_sha :
      (name x : Str) (f : File) (ps : List Str)
      → kept_files g name ≡ some f
      → recorded name (hash_inputs g ps) ≡ some x
      → g.sha256 f.content ≡ x
  unfolding recorded hash_inputs
  recorded_sha name x f [] there h = absurd (cc)
  recorded_sha name x f (p ∷ ps) there h =
      recorded_one name x f p (kept_files g p) (hash_inputs g ps) there refl
        (recorded_sha name x f ps there) h

  pub not_other :
      (expected : Option Str) (sha : Str)
      → ((x : Str) → expected ≡ some x → sha ≡ x)
      → is_other_qemu none expected sha ≡ false
  unfolding is_other_qemu
  not_other none sha h = refl
  not_other (some x) sha h = rw (h x refl, ==_refl x) (and_false (x == []))

mode_of :
    (same : Bool) (mode : ℕ) (o : Option File) (f : File)
    → same ≡ true
    → with_mode same mode o ≡ some f
    → is_writable f.mode ≡ is_writable mode
unfolding with_mode
mode_of true mode none f e h = absurd (cc)
mode_of true mode (some d) f e h = ap (λ d. is_writable d.mode) (sym (some_injective h))
mode_of false mode o f e h = absurd (cc)

content_kept :
    (same : Bool) (mode : ℕ) (o : Option File) (f : File)
    → o ≡ some f
    → (d : File) × (with_mode same mode o ≡ some d) × (d.content ≡ f.content)
unfolding with_mode
content_kept true mode none f h = absurd (cc)
content_kept true mode (some d) f h =
    (record d { mode = mode }, refl, ap (λ d. d.content) (some_injective h))
content_kept false mode o f h = (f, h, refl)

pub kept_content :
    (g : Given) (p : Str) (f : File)
    → g.files p ≡ some f
    → (d : File) × (kept_files g p ≡ some d) × (d.content ≡ f.content)
unfolding kept_files chmod
kept_content g p f h =
    let (d, there, same) = content_kept (p == state_path_of g) 384 (g.files p) f h in
    let (e, here, again) = content_kept (p == g.resolve g.source.disk) 292 _ d there in
    (e, here, again ∙ same)

pub kept_mode :
    (g : Given) (f : File)
    → kept_files g (g.resolve g.source.disk) ≡ some f
    → is_writable f.mode ≡ false
unfolding kept_files chmod is_writable
kept_mode g f h = mode_of _ 292 _ f (==_refl (g.resolve g.source.disk)) h

pub state_of :
    (g : Given) (o : Option File)
    → g.files (state_path_of g) ≡ o
    → has_state g ≡ true
    → (f : File) × (g.files (state_path_of g) ≡ some f)
unfolding has_state
state_of g none e = rw (has_state, e) (λ h. absurd (cc))
state_of g (some f) e = λ h. (f, e)

pub then_ok :
    {A B : Type 0} {first : Result Rejection A} (next : A → Result Rejection B) (a : A)
    {r : Result Rejection B}
    → first ≡ ok a
    → next a ≡ r
    → (first >>= next) ≡ r
then_ok next a {r} h k = ap (λ z. z >>= next) h ∙ k

content_file :
    (files : Str → Option File) (p : Str) (o : Option File) (b : Bytes)
    → files p ≡ o
    → content_of files p ≡ some b
    → (f : File) × (files p ≡ some f) × (f.content ≡ b)
unfolding content_of
content_file files p none b e = rw (content_of, e) (λ h. absurd (cc))
content_file files p (some f) b e = rw (content_of, e) (λ h. (f, refl, some_injective h))

checked_true : {E : Type 0} (b : Bool) (e : E) (x : Unit {0}) → check b e ≡ ok x → b ≡ true
checked_true true e x h = refl
checked_true false e x h = absurd (cc)

programmed : (argv : List Str) → is_qemu argv ≡ true → source_program argv ≡ ok (first_program argv)
unfolding is_qemu source_program first_program
programmed [] h = absurd (cc)
programmed (p ∷ ps) h = refl

pub has_program :
    (g : Given)
    → owns g.resolve g.source ≡ ok tt
    → source_program g.source.argv ≡ ok (first_program g.source.argv)
unfolding owns
has_program g h =
    let (_, _, h) = >>=-eq-ok (check (is_safe_tag g.source.tag) bad_tag) _ h in
    let (_, _, h) = >>=-eq-ok (check g.source.alive not_alive) _ h in
    let (_, _, h) = >>=-eq-ok (check (g.source.format == launch_format) bad_launch) _ h in
    let (_, q, h) = >>=-eq-ok (check (is_qemu g.source.live_argv) not_qemu) _ h in
    let (_, e, h) = >>=-eq-ok (check (g.source.live_argv == g.source.argv) other_argv) _ h in
    let same : g.source.live_argv ≡ g.source.argv =
      (list_beq_iff g.source.live_argv g.source.argv).0 (checked_true _ other_argv _ e) in
    programmed g.source.argv (ap is_qemu (sym same) ∙ checked_true _ not_qemu _ q)

abbrev pub disk_of : Given → Str
disk_of g = g.resolve g.source.disk

abbrev pub kept : Given → Str → Option Bytes
kept g = content_of (kept_files g)

pub disk_there :
    (g : Given) (chain : List Entry)
    → g.resolve (disk_of g) ≡ disk_of g
    → qcow2_backing_chain (kept g) g.sha256 g.resolve g.infos (disk_of g) ≡ ok chain
    → IsChain (kept g) g.sha256 chain
    → (f : File) × (kept_files g (disk_of g) ≡ some f) × (g.sha256 f.content ≡ first_sha chain)
unfolding first_sha
disk_there g [] again h x = elim x [ ]
disk_there g (e ∷ es) again h (some_members all) =
    let starts =
      qcow2_backing_chain-starts (kept g) g.sha256 g.resolve g.infos (disk_of g) e es h ∙ again in
    let first = all.0 in
    let (f, there, same) =
      content_file (kept_files g) (disk_of g) (kept_files g (disk_of g)) first.content refl
        (ap (kept g) (sym starts) ∙ first.there) in
    (f, there, ap g.sha256 same ∙ first.hashed)

pub hash_of :
    (host : Host) (missing : Rejection) (path : Str) (f : File)
    → host.files path ≡ some f
    → hash_file host missing path ≡ ok (host.sha256 f.content)
unfolding hash_file hash_or
hash_of host missing path f h = ap (hash_or host missing) h

pub checks : (b : Bool) (e : Rejection) → b ≡ true → check b e ≡ ok tt
checks b e h = ap (λ z. check z e) h
