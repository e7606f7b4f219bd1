-- ===== src/Checkpoint/Restored.antt =====
-- tools/checkpoint_common.py: what `restore_argv` makes of the arguments of a captured QEMU.
use darwin_vm.Prelude.{
  ◌≡◌, ◌⊎◌, refl, ap, sym, ◌∙◌, subst, ℕ, Option, none, some, Bool, true, false, not, List, [], ◌∷◌,
  ◌++◌, append_assoc, append-nil, Bool-cases, inl, inr, list_eq, nat_eq, ◌==◌, ==_refl,
  if◌then◌else◌,
}
use darwin_vm.Prelude.Result.{Result, ok, raise, >>=-eq-ok}
use darwin_vm.Bytes.{text}
use darwin_vm.Bytes.Utf8.{Str}
use darwin_vm.PyInt.{decimal_str}
use darwin_vm.Checkpoint.{Error, among}
use darwin_vm.Checkpoint.Drives.{IsWithout}
use darwin_vm.Checkpoint.Argv.{
  Places, serial_devices, monitor_spec, Seen, restore_loop, stopped, ending, restore_argv,
}
use darwin_vm.Checkpoint.Monitored.{among-append_first, restore_loop-IsMonitored}
use darwin_vm.Checkpoint.Kept.{monitor_socket, IsKept, restore_loop-IsLooped, or_true}

-- The arguments for a debugger, where a port is given.
pub data IsGdb : Option ℕ → List Str → Type 0 where
  no_port : IsGdb none []
  at_port : {port : ℕ} → IsGdb (some port) (text "-gdb" ∷ (text "tcp::" ++ decimal_str port) ∷ [])

-- What restore_argv returns: the program, what is kept of its arguments with some -drive changed, at
-- most a monitor and -S behind it, and the arguments for the debugger and the state. -S is there.
pub record IsRestored (o : Places) (program : Str) (args out : List Str) : Type 0 where
  pub body : List Str
  pub all_kept : IsKept o (serial_devices (program ∷ args)) args body true
  pub monitor : List Str
  pub monitor_or_none : (monitor ≡ []) ⊎ (monitor ≡ text "-monitor" ∷ monitor_socket o ∷ [])
  pub is_monitored : among (text "-monitor") (program ∷ (body ++ monitor)) ≡ true
  pub stop : List Str
  pub stop_or_none : (stop ≡ []) ⊎ (stop ≡ text "-S" ∷ [])
  pub gdb : List Str
  pub is_gdb : IsGdb o.gdb_port gdb
  pub whole :
      out
      ≡ program
        ∷ (body
            ++ (monitor ++ (stop ++ (gdb ++ text "-incoming" ∷ (text "file:" ++ o.state) ∷ []))))
  pub is_stopped : among (text "-S") (program ∷ (body ++ (monitor ++ stop))) ≡ true

among-append : (x : Str) (xs : List Str) → among x (xs ++ x ∷ []) ≡ true
unfolding among
among-append x [] = rw (==_refl x) refl
among-append x (y ∷ xs) = rw (among-append x xs) (or_true (y == x))

passed_not :
    (b : Bool) (e : Error) (r : Result Error (List Str)) (out : List Str)
    → (if not b then raise e else r) ≡ ok out
    → (b ≡ true) × (r ≡ ok out)
passed_not true e r out h = (refl, h)
passed_not false e r out h = absurd (cc)

stop_of :
    (xs : List Str)
    → (stop : List Str) × ((stop ≡ []) ⊎ (stop ≡ text "-S" ∷ []))
      × (stopped xs ≡ xs ++ stop)
      × (among (text "-S") (stopped xs) ≡ true)
unfolding stopped
stop_of xs = elim (Bool-cases (among (text "-S") xs)) [
  | inl e ↦ ([], inl refl, rw e (sym (append-nil xs)), rw e e)
  | inr e ↦ (text "-S" ∷ [], inr refl, rw e refl, rw e (among-append (text "-S") xs))
]

IsGdb-of :
    (port : Option ℕ)
    → (gdb : List Str) × IsGdb port gdb
      × ((elim port [ none ↦ [] | some n ↦ text "-gdb" ∷ (text "tcp::" ++ decimal_str n) ∷ [] ])
          ≡ gdb)
IsGdb-of none = ([], no_port, refl)
IsGdb-of (some n) = (text "-gdb" ∷ (text "tcp::" ++ decimal_str n) ∷ [], at_port, refl)

ending_of :
    (o : Places)
    → (gdb : List Str) × IsGdb o.gdb_port gdb
      × (ending o ≡ gdb ++ text "-incoming" ∷ (text "file:" ++ o.state) ∷ [])
unfolding ending
ending_of o =
    let (gdb, is_gdb, same) = IsGdb-of o.gdb_port in
    (gdb, is_gdb, ap (λ z. z ++ text "-incoming" ∷ (text "file:" ++ o.state) ∷ []) same)

module _ (o : Places) (safe : IsWithout b',' o.restore_disk) where
  monitor_of :
      (b : Bool) (xs : List Str)
      → (monitor : List Str) × ((monitor ≡ [])
          ⊎ (monitor ≡ text "-monitor" ∷ monitor_socket o ∷ []))
        × ((if b then xs else xs ++ text "-monitor" ∷ monitor_socket o ∷ []) ≡ xs ++ monitor)
  monitor_of true xs = ([], inl refl, sym (append-nil xs))
  monitor_of false xs = (text "-monitor" ∷ monitor_socket o ∷ [], inr refl, refl)

  monitor_there :
      (b : Bool) (xs : List Str)
      → (b ≡ true → among (text "-monitor") xs ≡ true)
      → among (text "-monitor") (if b then xs else xs ++ text "-monitor" ∷ monitor_socket o ∷ [])
        ≡ true
  monitor_there true xs h = h refl
  monitor_there false xs h = among-append_first (text "-monitor") xs (monitor_socket o ∷ [])

  -- For a restore disk without a comma in its path: where restore_argv returns, it keeps the arguments
  -- in their order, without -daemonize and without the options -incoming, -gdb, -pidfile and -qmp that
  -- have a value, and with the new monitor, console, log and root disk as the values of their options;
  -- some -drive names the restore disk now, and none with id=ans has another disk first; a -monitor is
  -- there; -S is there, so that the restored guest waits; -gdb is there where a port was given; and -incoming with the
  -- state stands at the end.
  pub restore_argv-IsRestored :
      (program : Str) (args out : List Str)
      → restore_argv o (program ∷ args) ≡ ok out
      → IsRestored o program args out
  unfolding restore_argv monitor_spec
  restore_argv-IsRestored program args out h =
      let start : Seen = record {
        out = program ∷ [];
        saw_monitor = false;
        saw_drive = false;
        saw_serial = false;
      } in
      let (s, p, q) = >>=-eq-ok (restore_loop o (serial_devices (program ∷ args)) args start) _ h in
      let l = restore_loop-IsLooped o (serial_devices (program ∷ args)) safe args start s p in
      let (drive_seen, q1) = passed_not s.saw_drive _ _ out q in
      let (serial_seen, q2) = passed_not s.saw_serial _ _ out q1 in
      let (monitor, monitor_or_none, with_monitor) = monitor_of s.saw_monitor s.out in
      let (stop, stop_or_none, with_stop, there) =
        stop_of
          (if s.saw_monitor then s.out else s.out ++ text "-monitor" ∷ monitor_socket o ∷ []) in
      let front : s.out ++ monitor ≡ program ∷ (l.body ++ monitor) =
        ap (λ z. z ++ monitor) l.added in
      let same : stopped
            (if s.saw_monitor then s.out else s.out ++ text "-monitor" ∷ monitor_socket o ∷ [])
          ≡ program ∷ (l.body ++ (monitor ++ stop)) =
        with_stop
        ∙ ap (λ z. z ++ stop) (with_monitor ∙ front)
        ∙ ap (λ z. program ∷ z) (append_assoc l.body monitor stop) in
      let out_is : out
          ≡ stopped
              (if s.saw_monitor then s.out else s.out ++ text "-monitor" ∷ monitor_socket o ∷ [])
            ++ ending o =
        cc (q2) in
      let (gdb, is_gdb, end) = ending_of o in
      record {
        body = l.body;
        gdb = gdb;
        is_gdb = is_gdb;
        all_kept =
            subst (IsKept o (serial_devices (program ∷ args)) args l.body)
              (sym l.drives ∙ drive_seen) l.all_kept;
        monitor = monitor;
        monitor_or_none = monitor_or_none;
        is_monitored =
            subst (λ z. among (text "-monitor") z ≡ true) (with_monitor ∙ front)
              (monitor_there s.saw_monitor s.out (
                restore_loop-IsMonitored o (serial_devices (program ∷ args)) args start s p
                  (λ seen. absurd (cc (seen)))));
        stop = stop;
        stop_or_none = stop_or_none;
        whole =
            out_is
            ∙ ap (λ z. z ++ ending o) same
            ∙ ap (λ z. program ∷ z)
                (append_assoc l.body (monitor ++ stop) (ending o)
                  ∙ ap (λ z. l.body ++ z) (append_assoc monitor stop (ending o)))
            ∙ ap (λ z. program ∷ (l.body ++ (monitor ++ (stop ++ z)))) end;
        is_stopped = subst (λ z. among (text "-S") z ≡ true) same there;
      }
