-- ===== src/Restore/Qmp.antt =====
-- tools/restore_checkpoint.py, `activate_paused_disks`: the two commands of QMP, each with its answer. A
-- line of the stream is what `json.loads` makes of it; the end of the stream is the end of the list.
use darwin_vm.Prelude.{
  ℕ, Bool, true, false, not, ◌||◌, List, [], ◌∷◌, Option, none, some, nat_eq, ◌==◌,
}
use darwin_vm.Prelude.Result.{Result, ok, raise, ◌>>=◌}
use darwin_vm.Checkpoint.Session.{
  Failure, bad_greeting, qmp_closed, qmp_error, sent, Session, M, act,
}

-- An object: whether it has the members `QMP`, `error` and `return`, and its `id`.
pub record Message : Type 0 where
  pub greets : Bool
  pub id : Option ℕ
  pub has_error : Bool
  pub has_return : Bool

unfoldable pub has_id : ℕ → Message → Bool
has_id index m = elim m.id [ none ↦ false | some i ↦ i == index ]

-- The loop that waits for the answer to a command: other messages are events.
unfoldable pub answer_to : ℕ → List Message → Result Failure (List Message)
answer_to index [] = raise qmp_closed
answer_to index (m ∷ more) = elim (has_id index m) [
  | false ↦ answer_to index more
  | true ↦ elim (m.has_error || not m.has_return) [ true ↦ raise qmp_error | false ↦ ok more ]
]

unfoldable pub at_session {ℓ} :
    {A : Type ℓ} → Session → Result Failure A → Result (Failure × Session) (A × Session)
at_session s (ok a) = ok (a, s)
at_session s (raise r) = raise (r, s)

unfoldable pub greeted : List Message → Result Failure (List Message)
greeted [] = raise bad_greeting
greeted (m ∷ more) = elim m.greets [ true ↦ ok more | false ↦ raise bad_greeting ]

-- qmp_capabilities has the id 0, blockdev-set-active the id 1.
unfoldable pub activate_paused_disks : List Message → M (Unit {0})
activate_paused_disks stream s = do
  (stream, s) ← at_session s (greeted stream)
  (stream, s) ← at_session (act (sent 0) s) (answer_to 0 stream)
  (_, s) ← at_session (act (sent 1) s) (answer_to 1 stream)
  ok (tt, s)
