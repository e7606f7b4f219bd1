-- ===== src/Checkpoint/Kept.antt =====
-- tools/checkpoint_common.py: what the loop of `restore_argv` puts for the arguments.
use darwin_vm.Prelude.{
  ◌≡◌, ◌≢◌, ◌⊎◌, inl, inr, refl, ap, sym, ◌∙◌, subst, arith, list_beq_iff, if◌then◌else◌, Bool,
  true, false, not, ◌||◌, List, [], ◌∷◌, ◌++◌, append_assoc, append-nil, list_eq, nat_eq, ◌==◌,
}
use darwin_vm.Prelude.Result.{Result, ok, >>=-eq-ok}
use darwin_vm.Bytes.{text}
use darwin_vm.Bytes.Utf8.{Str}
use darwin_vm.Checkpoint.{Error, among, replace_drive_file}
use darwin_vm.Checkpoint.Drives.{IsWithout, IsDrive, replace_drive_file-IsDrive}
use darwin_vm.Checkpoint.Consoles.{
  IsNewChardev, IsNewSerial, rewrite_chardev-IsNewChardev, rewrite_serial-IsNewSerial,
}
use darwin_vm.Checkpoint.Argv.{
  Places, Kind, dropped, monitored, drive, chardev, serial_line, daemonize, plain, kind_of,
  rewrite_chardev, rewrite_serial, monitor_spec, Seen, plus, restore_loop,
}

-- The options that each kind stands for.
unfoldable pub IsOption : Kind → Str → Type 0
IsOption dropped a =
    (a ≡ text "-incoming") ⊎ ((a ≡ text "-gdb") ⊎ ((a ≡ text "-pidfile") ⊎ (a ≡ text "-qmp")))
IsOption monitored a = a ≡ text "-monitor"
IsOption drive a = a ≡ text "-drive"
IsOption chardev a = a ≡ text "-chardev"
IsOption serial_line a = a ≡ text "-serial"
IsOption daemonize a = a ≡ text "-daemonize"
IsOption plain a =
    (a ≢ text "-incoming")
    × (a ≢ text "-gdb")
    × (a ≢ text "-pidfile")
    × (a ≢ text "-qmp")
    × (a ≢ text "-monitor")
    × (a ≢ text "-drive")
    × (a ≢ text "-chardev")
    × (a ≢ text "-serial")
    × (a ≢ text "-daemonize")

-- The socket of the new monitor.
abbrev pub monitor_socket : Places → Str
monitor_socket o = text "unix:" ++ (o.monitor ++ text ",server,nowait")

-- Arguments and what is put for them. The Boolean says that some -drive is changed.
pub data IsKept (o : Places) (devices : List Str) : List Str → List Str → Bool → Type 0 where
  nothing : IsKept o devices [] [] false
  last_kept : {a : Str} → a ≢ text "-daemonize" → IsKept o devices (a ∷ []) (a ∷ []) false
  last_left_out : {a : Str} → IsOption daemonize a → IsKept o devices (a ∷ []) [] false
  option_left_out :
      {a v : Str} {rest out : List Str} {b : Bool}
      → IsOption dropped a
      → IsKept o devices rest out b
      → IsKept o devices (a ∷ v ∷ rest) out b
  new_monitor :
      {a v : Str} {rest out : List Str} {b : Bool}
      → IsOption monitored a
      → IsKept o devices rest out b
      → IsKept o devices (a ∷ v ∷ rest) (a ∷ monitor_socket o ∷ out) b
  new_drive :
      {a v v' : Str} {rest out : List Str} {b : Bool}
      → IsOption drive a
      → IsDrive o.resolve o.source_disk o.restore_disk v v'
      → IsKept o devices rest out b
      → IsKept o devices (a ∷ v ∷ rest) (a ∷ v' ∷ out) (not (v' == v) || b)
  new_chardev :
      {a v v' : Str} {rest out : List Str} {b : Bool}
      → IsOption chardev a
      → IsNewChardev o devices v v'
      → IsKept o devices rest out b
      → IsKept o devices (a ∷ v ∷ rest) (a ∷ v' ∷ out) b
  new_serial :
      {a v v' : Str} {rest out : List Str} {b : Bool}
      → IsOption serial_line a
      → IsNewSerial o v v'
      → IsKept o devices rest out b
      → IsKept o devices (a ∷ v ∷ rest) (a ∷ v' ∷ out) b
  left_out :
      {a v : Str} {rest out : List Str} {b : Bool}
      → IsOption daemonize a
      → IsKept o devices (v ∷ rest) out b
      → IsKept o devices (a ∷ v ∷ rest) out b
  kept :
      {a v : Str} {rest out : List Str} {b : Bool}
      → IsOption plain a
      → IsKept o devices (v ∷ rest) out b
      → IsKept o devices (a ∷ v ∷ rest) (a ∷ out) b

module _ (a : Str) where
  is_true : (x : Str) → (a == x) ≡ true → a ≡ x
  is_true x h = ground (arith, list_beq_iff a x)

  is_false : (x : Str) → (a == x) ≡ false → a ≢ x
  is_false x h = λ e. ground (arith, list_beq_iff a x)

  on-If :
      (P : Kind → Type 0) (b : Bool) {x y : Kind}
      → (b ≡ true → P x)
      → (b ≡ false → P y)
      → P (if b then x else y)
  on-If P true h k = h refl
  on-If P false h k = k refl

  among_first : (y : Str) (ys : List Str) → among a (y ∷ ys) ≡ true → (a ≡ y) ⊎ (among a ys ≡ true)
  unfolding among
  among_first y ys h = ground (arith, list_beq_iff y a)

  among_none : (y : Str) (ys : List Str) → among a (y ∷ ys) ≡ false → (a ≢ y) × (among a ys ≡ false)
  unfolding among
  among_none y ys h = (λ e. ground (arith, list_beq_iff y a), ground (arith, list_beq_iff y a))

  among_nil : among a [] ≡ false
  unfolding among
  among_nil = refl

  one_of_four :
      among a (text "-incoming" ∷ text "-gdb" ∷ text "-pidfile" ∷ text "-qmp" ∷ []) ≡ true
      → IsOption dropped a
  unfolding IsOption
  one_of_four h = elim (among_first _ _ h) [
    | inl e ↦ inl e
    | inr h1 ↦ elim (among_first _ _ h1) [
      | inl e ↦ inr (inl e)
      | inr h2 ↦ elim (among_first _ _ h2) [
        | inl e ↦ inr (inr (inl e))
        | inr h3 ↦ elim (among_first _ _ h3) [
          | inl e ↦ inr (inr (inr e))
          | inr h4 ↦ absurd (cc (h4, among_nil))
        ]
      ]
    ]
  ]

  none_of_four :
      among a (text "-incoming" ∷ text "-gdb" ∷ text "-pidfile" ∷ text "-qmp" ∷ []) ≡ false
      → (a ≢ text "-incoming") × (a ≢ text "-gdb") × (a ≢ text "-pidfile") × (a ≢ text "-qmp")
  none_of_four h =
      let (n1, h1) = among_none _ _ h in
      let (n2, h2) = among_none _ _ h1 in
      let (n3, h3) = among_none _ _ h2 in let (n4, h4) = among_none _ _ h3 in (n1, n2, n3, n4)

  pub kind_of-IsOption : IsOption (kind_of a) a
  unfolding kind_of IsOption
  kind_of-IsOption =
      let P : Kind → Type 0 = λ k. IsOption k a in
      on-If P _ one_of_four (λ h. on-If P (a == text "-monitor") (is_true _) (λ h1.
        on-If P (a == text "-drive") (is_true _) (λ h2.
          on-If P (a == text "-chardev") (is_true _) (λ h3.
            on-If P (a == text "-serial") (is_true _) (λ h4.
              on-If P (a == text "-daemonize") (is_true _) (λ h5.
                let (n1, n2, n3, n4) = none_of_four h in
                (
                  n1,
                  n2,
                  n3,
                  n4,
                  is_false _ h1,
                  is_false _ h2,
                  is_false _ h3,
                  is_false _ h4,
                  is_false _ h5,
                )))))))

kind_of_daemonize : kind_of (text "-daemonize") ≡ daemonize
unfolding kind_of among
kind_of_daemonize = refl

module _ {A : Type 0} (P : A → Type 0) where
  pub on-Kind :
      (k : Kind) {x1 x2 x3 x4 x5 x6 x7 : A}
      → (k ≡ dropped → P x1)
      → (k ≡ monitored → P x2)
      → (k ≡ drive → P x3)
      → (k ≡ chardev → P x4)
      → (k ≡ serial_line → P x5)
      → (k ≡ daemonize → P x6)
      → (k ≡ plain → P x7)
      → P (elim k [
        | dropped ↦ x1
        | monitored ↦ x2
        | drive ↦ x3
        | chardev ↦ x4
        | serial_line ↦ x5
        | daemonize ↦ x6
        | plain ↦ x7
      ])
  on-Kind dropped a b c d e f g = a refl
  on-Kind monitored a b c d e f g = b refl
  on-Kind drive a b c d e f g = c refl
  on-Kind chardev a b c d e f g = d refl
  on-Kind serial_line a b c d e f g = e refl
  on-Kind daemonize a b c d e f g = f refl
  on-Kind plain a b c d e f g = g refl

or_false : (b : Bool) → (b || false) ≡ b
or_false true = refl
or_false false = refl

pub or_true : (b : Bool) → (b || true) ≡ true
or_true true = refl
or_true false = refl

or_assoc : (a b c : Bool) → ((a || b) || c) ≡ (a || (b || c))
or_assoc true b c = refl
or_assoc false b c = refl

-- What the loop adds to the output.
pub record IsLooped (o : Places) (devices args : List Str) (before after : Seen) : Type 0 where
  pub body : List Str
  pub changed : Bool
  pub all_kept : IsKept o devices args body changed
  pub added : after.out ≡ before.out ++ body
  pub drives : after.saw_drive ≡ (before.saw_drive || changed)

pub of_kind : (a : Str) {k : Kind} → kind_of a ≡ k → IsOption k a
of_kind a e = subst (λ k. IsOption k a) e (kind_of-IsOption a)

is_daemonize : {a : Str} → a ≡ text "-daemonize" → kind_of a ≡ daemonize
is_daemonize e = ap kind_of e ∙ kind_of_daemonize

module _ (o : Places) (devices : List Str) (safe : IsWithout b',' o.restore_disk) where
  -- A step that adds `xs`, before what the rest of the loop adds.
  module _ {args rest : List Str} {s t after : Seen} where
    add_on :
        (xs : List Str)
        → t.out ≡ s.out ++ xs
        → t.saw_drive ≡ s.saw_drive
        → ((out : List Str) (b : Bool)
            → IsKept o devices rest out b
            → IsKept o devices args (xs ++ out) b)
        → IsLooped o devices rest t after
        → IsLooped o devices args s after
    add_on xs more same k l = record {
      body = xs ++ l.body;
      changed = l.changed;
      all_kept = k l.body l.changed l.all_kept;
      added = l.added ∙ ap (λ z. z ++ l.body) more ∙ append_assoc s.out xs l.body;
      drives = l.drives ∙ ap (λ z. z || l.changed) same;
    }

  at_end :
      {args : List Str} {s t after : Seen} (xs : List Str)
      → t.out ≡ s.out ++ xs
      → t.saw_drive ≡ s.saw_drive
      → IsKept o devices args xs false
      → ◌≡◌ {A = Result Error Seen} (ok t) (ok after)
      → IsLooped o devices args s after
  at_end {s = s} {t = t} {after = after} xs more same k h =
      let e : t ≡ after = cc in
      record {
        body = xs;
        changed = false;
        all_kept = k;
        added = ap (λ z. z.out) (sym e) ∙ more;
        drives = ap (λ z. z.saw_drive) (sym e) ∙ same ∙ sym (or_false s.saw_drive);
      }

  pub restore_loop-IsLooped :
      (args : List Str) (s after : Seen)
      → restore_loop o devices args s ≡ ok after
      → IsLooped o devices args s after
  unfolding restore_loop plus monitor_spec
  restore_loop-IsLooped [] s after = λ h. at_end [] (sym (append-nil s.out)) refl nothing h
  restore_loop-IsLooped (a ∷ []) s after =
      let P : Seen → Type 0 =
        λ t. ◌≡◌ {A = Result Error Seen} (ok t) (ok after) → IsLooped o devices (a ∷ []) s after in
      let keep : a ≢ text "-daemonize" → P (plus s (a ∷ [])) =
        λ n h. at_end (a ∷ []) refl refl (last_kept n) h in
      on-Kind P (kind_of a) (λ e. keep (λ n. let d = is_daemonize n in cc))
        (λ e. keep (λ n. let d = is_daemonize n in cc))
        (λ e. keep (λ n. let d = is_daemonize n in cc))
        (λ e. keep (λ n. let d = is_daemonize n in cc))
        (λ e. keep (λ n. let d = is_daemonize n in cc))
        (λ e h. at_end [] (sym (append-nil s.out)) refl (last_left_out (of_kind a e)) h)
        (λ e. keep (λ n. let d = is_daemonize n in cc))
  restore_loop-IsLooped (a ∷ v ∷ rest) s after =
      let P : Result Error Seen → Type 0 =
        λ r. r ≡ ok after → IsLooped o devices (a ∷ v ∷ rest) s after in
      on-Kind P (kind_of a)
        (λ e h.
          add_on [] (sym (append-nil s.out)) refl (λ out b. option_left_out (of_kind a e))
            (restore_loop-IsLooped rest s after h))
        (λ e h.
          add_on (a ∷ monitor_socket o ∷ []) refl refl (λ out b. new_monitor (of_kind a e))
            (restore_loop-IsLooped rest _ after h))
        (λ e h.
          let (v', p, q) =
            >>=-eq-ok (replace_drive_file o.resolve o.source_disk o.restore_disk v) _ h in
          let l = restore_loop-IsLooped rest _ after q in
          let is_drive =
            replace_drive_file-IsDrive o.resolve o.source_disk o.restore_disk v v' safe p in
          record {
            body = a ∷ v' ∷ l.body;
            changed = not (v' == v) || l.changed;
            all_kept = new_drive (of_kind a e) is_drive l.all_kept;
            added = l.added ∙ append_assoc s.out (a ∷ v' ∷ []) l.body;
            drives = l.drives ∙ or_assoc s.saw_drive (not (v' == v)) l.changed;
          })
        (λ e h.
          add_on (a ∷ (rewrite_chardev o devices v).0 ∷ []) refl refl
            (λ out b. new_chardev (of_kind a e) (rewrite_chardev-IsNewChardev o devices v))
            (restore_loop-IsLooped rest _ after h))
        (λ e h.
          add_on (a ∷ (rewrite_serial o v).0 ∷ []) refl refl
            (λ out b. new_serial (of_kind a e) (rewrite_serial-IsNewSerial o v))
            (restore_loop-IsLooped rest _ after h))
        (λ e h.
          add_on [] (sym (append-nil s.out)) refl (λ out b. left_out (of_kind a e))
            (restore_loop-IsLooped (v ∷ rest) s after h))
        (λ e h.
          add_on (a ∷ []) refl refl (λ out b. kept (of_kind a e))
            (restore_loop-IsLooped (v ∷ rest) _ after h))
