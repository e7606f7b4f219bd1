-- ===== src/Checkpoint/Monitored.antt =====
-- tools/checkpoint_common.py, `restore_argv`: what the loop's `saw_monitor` says of its output.
use darwin_vm.Prelude.{
  ◌≡◌, sym, subst, Bool, true, List, [], ◌∷◌, ◌++◌, arith, nat_eq, list_eq, list_beq_iff,
}
use darwin_vm.Prelude.Result.{Result, ok, >>=-eq-ok}
use darwin_vm.Bytes.{text}
use darwin_vm.Bytes.Utf8.{Str}
use darwin_vm.Checkpoint.{Error, among, replace_drive_file}
use darwin_vm.Checkpoint.Argv.{
  Places, Seen, kind_of, monitored, monitor_spec, plus, rewrite_chardev, rewrite_serial,
  restore_loop,
}
use darwin_vm.Checkpoint.Kept.{IsOption, of_kind, on-Kind}

abbrev pub IsMonitored : Seen → Type 0
IsMonitored s = s.saw_monitor ≡ true → among (text "-monitor") s.out ≡ true

pub among-append_left : (x : Str) (xs ys : List Str) → among x xs ≡ true → among x (xs ++ ys) ≡ true
unfolding among
among-append_left x [] ys h = absurd (cc)
among-append_left x (z ∷ xs) ys h = ground (arith, among-append_left x xs ys)

pub among-append_first : (x : Str) (xs ys : List Str) → among x (xs ++ x ∷ ys) ≡ true
unfolding among
among-append_first x [] ys = ground (arith, list_beq_iff x x)
among-append_first x (z ∷ xs) ys = ground (arith, among-append_first x xs ys)

monitor_option : (a : Str) → kind_of a ≡ monitored → a ≡ text "-monitor"
unfolding IsOption
monitor_option a e = of_kind a e

more_there :
    (b : Bool) (out xs : List Str)
    → (b ≡ true → among (text "-monitor") out ≡ true)
    → b ≡ true
    → among (text "-monitor") (out ++ xs) ≡ true
more_there b out xs m h = among-append_left (text "-monitor") out xs (m h)

module _ (o : Places) (devices : List Str) where
  pub restore_loop-IsMonitored :
      (args : List Str) (s after : Seen)
      → restore_loop o devices args s ≡ ok after
      → IsMonitored s
      → IsMonitored after
  unfolding restore_loop plus
  restore_loop-IsMonitored [] s after =
      λ h m. let same : s ≡ after = cc (h) in subst IsMonitored same m
  restore_loop-IsMonitored (a ∷ []) s after =
      let P : Seen → Type 0 =
        λ t. ◌≡◌ {A = Result Error Seen} (ok t) (ok after) → IsMonitored s → IsMonitored after in
      let keep : P (plus s (a ∷ [])) = λ h m.
        let same : plus s (a ∷ []) ≡ after = cc (h) in
        subst IsMonitored same (more_there s.saw_monitor s.out (a ∷ []) m) in
      on-Kind P (kind_of a) (λ e. keep) (λ e. keep) (λ e. keep) (λ e. keep) (λ e. keep)
        (λ e h m. let same : s ≡ after = cc (h) in subst IsMonitored same m) (λ e. keep)
  restore_loop-IsMonitored (a ∷ v ∷ rest) s after =
      let P : Result Error Seen → Type 0 = λ r. r ≡ ok after → IsMonitored s → IsMonitored after in
      on-Kind P (kind_of a) (λ e h m. restore_loop-IsMonitored rest s after h m)
        (λ e h m. restore_loop-IsMonitored rest _ after h (λ seen.
          subst (λ z. among (text "-monitor") (s.out ++ z ∷ monitor_spec o ∷ []) ≡ true)
            (sym (monitor_option a e))
            (among-append_first (text "-monitor") s.out (monitor_spec o ∷ []))))
        (λ e h m.
          let (v', p, q) =
            >>=-eq-ok (replace_drive_file o.resolve o.source_disk o.restore_disk v) _ h in
          restore_loop-IsMonitored rest _ after q (more_there s.saw_monitor s.out (a ∷ v' ∷ []) m))
        (λ e h m.
          restore_loop-IsMonitored rest _ after h
            (more_there s.saw_monitor s.out (a ∷ (rewrite_chardev o devices v).0 ∷ []) m))
        (λ e h m.
          restore_loop-IsMonitored rest _ after h
            (more_there s.saw_monitor s.out (a ∷ (rewrite_serial o v).0 ∷ []) m))
        (λ e h m. restore_loop-IsMonitored (v ∷ rest) s after h m)
        (λ e h m.
          restore_loop-IsMonitored (v ∷ rest) _ after h (more_there s.saw_monitor s.out (a ∷ []) m))
