-- ===== src/Restore/OfCreated.antt =====
-- tools/create_checkpoint.py and tools/restore_checkpoint.py together: what the one writes, and what
-- the other checks.
use darwin_vm.Prelude.{
  ◌≡◌, refl, ap, sym, ◌∙◌, Bool, true, false, not, ◌||◌, List, ◌∷◌, Option, none, some, nat_eq,
  list_eq,
}
use darwin_vm.Prelude.Result.{ok}
use darwin_vm.Bytes.Utf8.{Str}
use darwin_vm.Checkpoint.{qemu_input_files}
use darwin_vm.Checkpoint.Chain.{
  verify_backing_chain-IsChain, verify_backing_chain-qcow2_backing_chain,
}
use darwin_vm.Checkpoint.Manifest.{File, Manifest, is_safe_tag}
use darwin_vm.Checkpoint.Session.{Session}
use darwin_vm.Create.Given.{
  Given, kept_files, state_path_of, hash_inputs, first_program, sha_of, sha_at, manifest_of,
}
use darwin_vm.Create.Run.Created.{IsCreated}
use darwin_vm.Restore.{
  Host, Options, missing_state, missing_disk, missing_qemu, other_qemu, bad_observe, unsafe_tag,
  used_socket, used_tag, hash_or, is_writable_entry, other_state, other_disk, writable_disk,
  Accepted, hash_file, is_negative, is_writable_file, chain_check, check_files, check_program,
  check_inputs, is_other_qemu, recorded, monitor_path, uart_path, qmp_path,
  parse_model_env_overrides, preflight, chosen_qemu, checkpoint_source_cpu,
}
use darwin_vm.Restore.Left.{
  left_host, inputs_pass, recorded_sha, not_other, kept_content, kept_mode, state_of, then_ok,
  has_program, disk_of, kept, disk_there, hash_of, checks, eq_of_same,
}

-- The options of a restore that are usable: no QEMU of its own, a tag that is free.
pub record IsUsable (o : Options) (exists : Str → Bool) : Type 0 where
  pub overrides : List (Str × Str)
  pub parsed : parse_model_env_overrides o.env_overrides ≡ ok overrides
  pub safe : is_safe_tag o.tag ≡ true
  pub natural : is_negative o.observe_seconds ≡ false
  pub own_qemu : o.qemu ≡ none
  pub no_monitor : exists (monitor_path o) ≡ false
  pub no_uart : exists (uart_path o) ≡ false
  pub no_qmp : exists (qmp_path o) ≡ false
  pub free : exists o.out ≡ false

module _ (g : Given) (exists : Str → Bool) (s t : Session) (m : Manifest) (c : IsCreated g s t m)
    (again : (p : Str) → g.resolve (g.resolve p) ≡ g.resolve p) where
  abbrev host : Host
  host = left_host g exists

  abbrev made : Manifest
  made = manifest_of g c.pc c.cpu c.chain

  files_pass : check_files host made ≡ ok tt
  unfolding check_files manifest_of left_host sha_at sha_of is_writable_file is_writable_entry
      chain_check hash_file
  files_pass =
      let (f, was) = state_of g (g.files (state_path_of g)) refl c.state_there in
      let (state, state_there, _) = kept_content g (state_path_of g) f was in
      let verified =
        verify_backing_chain-qcow2_backing_chain (kept g) g.sha256 g.resolve g.infos (disk_of g)
          c.chain c.chain_is in
      let (disk, disk_is, sha) =
        disk_there g c.chain (again g.source.disk) c.chain_is
          ((verify_backing_chain-IsChain (kept g) g.sha256 c.chain).0 verified) in
      then_ok _ (g.sha256 state.content) (hash_of host missing_state _ state state_there) (
        then_ok _ tt (checks _ other_state (eq_of_same _ _ (sym (ap (sha_of g) state_there)))) (
          then_ok _ (g.sha256 disk.content) (hash_of host missing_disk _ disk disk_is) (
            then_ok _ tt (checks _ other_disk (eq_of_same _ _ sha)) (
              then_ok _ tt
                (checks _ writable_disk
                  (ap (λ z. not (is_writable_entry z)) disk_is ∙ ap not (kept_mode g disk disk_is)))
                (ap chain_check verified)))))

  program_passes :
      (o : Options) (q : File)
      → o.qemu ≡ none
      → kept_files g (g.resolve (first_program g.source.argv)) ≡ some q
      → (x : Str × Option Str × Str) × (check_program host o made ≡ ok x)
  unfolding check_program manifest_of left_host hash_file chosen_qemu hash_or
  program_passes o q own there =
      let source = g.resolve (first_program g.source.argv) in
      let inputs = source ∷ qemu_input_files g.resolve g.source.argv in
      let expected = recorded source (hash_inputs g inputs) in
      let same : kept_files g (g.resolve (chosen_qemu o.qemu source)) ≡ some q =
        ap (λ z. kept_files g (g.resolve (chosen_qemu z source))) own
        ∙ ap (kept_files g) (again (first_program g.source.argv))
        ∙ there in
      let no_other : not (is_other_qemu o.qemu expected (g.sha256 q.content)) ≡ true =
        ap (λ z. not (is_other_qemu z expected (g.sha256 q.content))) own
        ∙ ap not (
            not_other g expected (g.sha256 q.content)
              (λ x e. recorded_sha g source x q inputs there e)) in
      let inputs_ok : check_inputs host o.qemu source (hash_inputs g inputs) ≡ ok tt =
        ap (λ z. check_inputs host z source (hash_inputs g inputs)) own
        ∙ inputs_pass g exists source inputs in
      (
        (g.resolve (chosen_qemu o.qemu source), expected, g.sha256 q.content),
        then_ok _ (first_program g.source.argv) (has_program g c.owned) (
            then_ok _ (g.sha256 q.content) (ap (hash_or host missing_qemu) same)
              (then_ok _ tt (checks _ other_qemu no_other) (then_ok _ tt inputs_ok refl))),
      )

  -- What create_checkpoint.py leaves behind passes the checks of restore_checkpoint.py, as long as the
  -- files and their modes stay as they were left: for options without a QEMU of their own, a tag whose
  -- sockets and directory are free, paths whose resolution is final, and a QEMU binary that is there.
  -- The guest's selected CPU is the one that was recorded.
  pub preflight-create :
      (o : Options) (u : IsUsable o exists) (q : File)
      → kept_files g (g.resolve (first_program g.source.argv)) ≡ some q
      → (a : Accepted) × (preflight host o m ≡ ok a) × (a.cpu ≡ c.cpu) × (a.overrides ≡ u.overrides)
  unfolding preflight manifest_of checkpoint_source_cpu left_host
  preflight-create o u q there =
      let (x, program) = program_passes o q u.own_qemu there in
      let free : not (exists (monitor_path o) || (exists (uart_path o) || exists (qmp_path o)))
          ≡ true =
        ap (λ z. not (z || (exists (uart_path o) || exists (qmp_path o)))) u.no_monitor
        ∙ ap (λ z. not (z || exists (qmp_path o))) u.no_uart
        ∙ ap not u.no_qmp in
      let a : Accepted = record {
        overrides = u.overrides;
        cpu = c.cpu;
        qemu = x.0;
        expected_qemu = x.1;
        actual_qemu = x.2;
      } in
      let accepts : preflight host o made ≡ ok a = then_ok _ u.overrides u.parsed (
        then_ok _ tt (checks _ unsafe_tag u.safe) (
          then_ok _ tt (checks _ bad_observe (ap not u.natural)) (
            then_ok _ tt files_pass (
              then_ok _ tt (checks _ used_socket free)
                (then_ok _ x program (then_ok _ tt (checks _ used_tag (ap not u.free)) refl)))))) in
      (a, ap (preflight host o) c.manifest_is ∙ accepts, refl, refl)
