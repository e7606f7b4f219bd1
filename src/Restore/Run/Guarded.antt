-- ===== src/Restore/Run/Guarded.antt =====
-- tools/restore_checkpoint.py: when the restored guest has been let run, and how the child is ended
-- where a restore fails.
use darwin_vm.Prelude.{
  ◌≡◌, refl, ap, sym, ◌∙◌, subst, Bool, true, false, List, [], ◌∷◌, ◌++◌, nat_eq, list_eq,
  append_assoc,
}
use darwin_vm.Prelude.Result.{ok, raise, ◌>>=◌}
use darwin_vm.Bytes.{text}
use darwin_vm.Bytes.Utf8.{Str}
use darwin_vm.Checkpoint.Session.{
  Failure, Deed, launched, terminated, killed, reaped, command, Session, act, ask, answer,
}
use darwin_vm.Checkpoint.Session.Adding.{
  Outcome, IsAfter, IsAfter-trans, IsAfter-one, IsAdding, ended,
}
use darwin_vm.Restore.Run.Verified.{IsVerified, verified}
use darwin_vm.Restore.Run.Safe.{
  is_still, still_command, still_other, any_step, rest-IsAdding, or_reap-IsAdding,
}
use darwin_vm.Restore.Run.Steps.{wait_restored-IsAdding}
use darwin_vm.Restore.Run.{
  wait_restored, follow, attend, told, wait_killed, reap_if, reap, or_reap, restore,
}
use darwin_vm.Restore.Child.{Child, Wanted, Report}

-- How far a restore let the guest run.
pub data IsGuarded (c : Child) (w : Wanted) (s t : Session) : Type 0 where
  still : IsAfter is_still s t → IsGuarded c w s t
  going :
      (pc : Str) (u : Session)
      → w.leave_paused ≡ false
      → IsAfter is_still s u
      → IsVerified w pc (act launched s) u
      → IsAfter any_step u t
      → IsGuarded c w s t

unfoldable pub end_of : {A : Type 0} → Outcome A → Session
end_of (ok (a, t)) = t
end_of (raise (r, t)) = t

ended_in :
    {A : Type 0} (p : Deed → Bool) (s : Session) (m : Outcome A)
    → IsAdding p s m
    → IsAfter p s (end_of m)
unfolding IsAdding end_of
ended_in p s (ok (a, t)) h = h
ended_in p s (raise (r, t)) h = h

module _ (c : Child) (w : Wanted) (s : Session) where
  began : IsAfter is_still s (act launched s)
  unfolding is_still act
  began = IsAfter-one is_still s (act launched s) launched refl refl

  waits : IsAdding is_still (act launched s) (wait_restored c w (act launched s))
  waits = wait_restored-IsAdding is_still still_command still_other c w (act launched s)

  IsGuarded-by :
      (m : Outcome Str)
      → wait_restored c w (act launched s) ≡ m
      → (b : Bool) → w.leave_paused ≡ b
      → IsGuarded c w s (end_of (or_reap c (m >>= follow c w)))
  unfolding IsAdding
  IsGuarded-by (raise (r, u)) e b paused =
      let failing : IsAdding {A = Report} is_still (act launched s) (raise (r, u)) =
        subst (IsAdding {A = Str} is_still (act launched s)) e waits in
      still (
        IsAfter-trans began (
          ended_in is_still _ _ (
            or_reap-IsAdding is_still still_command still_other c (act launched s) (raise (r, u))
              failing)))
  IsGuarded-by (ok (pc, u)) e true paused = still (
      IsAfter-trans (IsAfter-trans began (ended pc u waits e)) (
        ended_in is_still u _ (
          or_reap-IsAdding is_still still_command still_other c u _ (
            rest-IsAdding is_still still_command still_other c w
              (λ q. let no : true ≡ false = sym paused ∙ q in absurd (cc)) pc u))))
  IsGuarded-by (ok (pc, u)) e false paused =
      going pc u paused (IsAfter-trans began (ended pc u waits e))
        (verified c w pc (act launched s) u e)
        (ended_in any_step u _ (
          or_reap-IsAdding any_step (λ _ _. refl) (λ _ _. refl) c u _
            (rest-IsAdding any_step (λ _ _. refl) (λ _ _. refl) c w (λ _. refl) pc u)))

  -- The restored guest runs only when it is the one that was captured. However a restore ends, either
  -- it has not sent `cont` at all; or --leave-paused was not given, and before the first `cont` the
  -- monitor's replies said that the guest is paused and the migration completed, that the selected CPU
  -- is the checkpoint's, and that its program counter is.
  pub restore-IsGuarded : IsGuarded c w s (end_of (restore c w s))
  unfolding restore attend
  restore-IsGuarded = IsGuarded-by (wait_restored c w (act launched s)) refl w.leave_paused refl

-- How the child was told to end: by the monitor, or by a signal where the monitor does not answer.
pub data IsTold (u : Session) : List Deed → Type 0 where
  by_monitor : (reply : Str) (rest : List Str) → u.replies ≡ reply ∷ rest → IsTold u []
  by_signal : u.replies ≡ [] → IsTold u (terminated ∷ [])

-- How the wait for its end went: it is killed where it has not ended in time.
pub data IsEnded (c : Child) : List Deed → Type 0 where
  by_itself : c.ends_when_told ≡ true → IsEnded c (reaped ∷ [])
  by_kill : c.ends_when_told ≡ false → IsEnded c (killed ∷ reaped ∷ [])

-- What is done from the session of the failure on.
pub record IsReaped (c : Child) (u t : Session) : Type 0 where
  pub stop : List Deed
  pub end : List Deed
  pub is_told : IsTold u stop
  pub is_ended : IsEnded c end
  pub whole : t.trace ≡ u.trace ++ command (text "quit") ∷ (stop ++ end)

told-answer :
    (rs : List Str) (u : Session)
    → u.replies ≡ rs
    → (stop : List Deed) × IsTold u stop
      × ((told (answer (text "quit") rs u)).trace ≡ u.trace ++ command (text "quit") ∷ stop)
unfolding told answer act
told-answer [] u e = (
  terminated ∷ [],
  by_signal e,
  append_assoc u.trace (command (text "quit") ∷ []) (terminated ∷ []),
)
told-answer (r ∷ rs) u e = ([], by_monitor r rs e, refl)

wait_killed-IsEnded :
    (c : Child) (b : Bool) (s : Session)
    → c.ends_when_told ≡ b
    → (end : List Deed) × IsEnded c end × ((wait_killed b s).trace ≡ s.trace ++ end)
unfolding wait_killed act
wait_killed-IsEnded c true s e = (reaped ∷ [], by_itself e, refl)
wait_killed-IsEnded c false s e =
    (killed ∷ reaped ∷ [], by_kill e, append_assoc s.trace (killed ∷ []) (reaped ∷ []))

reap_if-IsReaped : (b : Bool) (c : Child) (u : Session) → b ≡ false → IsReaped c u (reap_if b c u)
unfolding reap_if ask
reap_if-IsReaped true c u e = absurd (cc)
reap_if-IsReaped false c u e =
    let (stop, is_told, added) = told-answer u.replies u refl in
    let s = told (answer (text "quit") u.replies u) in
    let (end, is_ended, more) = wait_killed-IsEnded c c.ends_when_told s refl in
    record {
      stop = stop;
      end = end;
      is_told = is_told;
      is_ended = is_ended;
      whole =
          more ∙ ap (λ z. z ++ end) added ∙ append_assoc u.trace (command (text "quit") ∷ stop) end;
    }

raised :
    {u t : Session} {d r : Failure}
    → (let m : Outcome Report = raise (d, u) in m) ≡ raise (r, t)
    → (d ≡ r) × (u ≡ t)
raised h = (cc (h), cc (h))

or_reap-IsReaped :
    (c : Child) (m : Outcome Report) (r : Failure) (t : Session)
    → c.has_exited ≡ false
    → or_reap c m ≡ raise (r, t)
    → (u : Session) × (m ≡ raise (r, u)) × IsReaped c u t
unfolding or_reap reap
or_reap-IsReaped c (ok x) r t e h = absurd (cc)
or_reap-IsReaped c (raise (d, u)) r t e h =
    let (same, same_session) = raised h in
    (
      u,
      ap (λ z. let m : Outcome Report = raise (z, u) in m) same,
      subst (IsReaped c u) same_session (reap_if-IsReaped c.has_exited c u e),
    )

-- Where a restore fails and QEMU has not ended by itself, what is done after the failure is this, and
-- no more: the monitor is told `quit`; where it does not answer, the child is terminated; where it then
-- does not end in time, it is killed; and at last it has been waited for.
pub restore-IsReaped :
    (c : Child) (w : Wanted) (s t : Session) (r : Failure)
    → c.has_exited ≡ false
    → restore c w s ≡ raise (r, t)
    → (u : Session) × (attend c w (act launched s) ≡ raise (r, u)) × IsReaped c u t
unfolding restore
restore-IsReaped c w s t r e h = or_reap-IsReaped c (attend c w (act launched s)) r t e h
