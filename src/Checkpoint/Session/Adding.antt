-- ===== src/Checkpoint/Session/Adding.antt =====
-- tools/create_checkpoint.py and tools/restore_checkpoint.py: which steps an operation may add to the
-- trace of its session, however it ends.
use darwin_vm.Prelude.{
  ◌≡◌, refl, ap, sym, ◌∙◌, subst, Bool, true, false, List, [], ◌∷◌, ◌++◌, append_assoc, append-nil,
  All,
}
use darwin_vm.Prelude.Result.{Result, ok, raise, ◌>>=◌}
use darwin_vm.Bytes.Utf8.{Str}
use darwin_vm.Checkpoint.{Error}
use darwin_vm.Checkpoint.Session.{
  Deed, command, wrote, Session, Failure, act, answer, ask, lift, require, keep, note,
}

abbrev pub Outcome : Type 0 → Type 0
Outcome A = Result (Failure × Session) (A × Session)

-- One session follows another by steps that pass a test.
pub record IsAfter (p : Deed → Bool) (s t : Session) : Type 0 where
  pub added : List Deed
  pub trace_is : t.trace ≡ s.trace ++ added
  pub all_pass : All (λ e. p e ≡ true) added

All-append :
    (p : Deed → Bool) (xs ys : List Deed)
    → All (λ e. p e ≡ true) xs
    → All (λ e. p e ≡ true) ys
    → All (λ e. p e ≡ true) (xs ++ ys)
All-append p [] ys h k = k
All-append p (x ∷ xs) ys h k = (h.0, All-append p xs ys h.1 k)

pub IsAfter-trans :
    {p : Deed → Bool} {s t u : Session} → IsAfter p s t → IsAfter p t u → IsAfter p s u
IsAfter-trans {p} {s} {t} {u} a b = record {
  added = a.added ++ b.added;
  trace_is = b.trace_is ∙ ap (λ z. z ++ b.added) a.trace_is ∙ append_assoc s.trace a.added b.added;
  all_pass = All-append p a.added b.added a.all_pass b.all_pass;
}

pub IsAfter-refl : (p : Deed → Bool) (s t : Session) → t.trace ≡ s.trace → IsAfter p s t
IsAfter-refl p s t h = record { added = []; trace_is = h ∙ sym (append-nil s.trace); all_pass = tt }

pub IsAfter-one :
    (p : Deed → Bool) (s t : Session) (e : Deed)
    → t.trace ≡ s.trace ++ e ∷ []
    → p e ≡ true
    → IsAfter p s t
IsAfter-one p s t e h k = record { added = e ∷ []; trace_is = h; all_pass = (k, tt) }

-- However it ends, an operation adds only such steps.
unfoldable pub IsAdding : {A : Type 0} → (Deed → Bool) → Session → Outcome A → Type 0
IsAdding p s (ok (a, t)) = IsAfter p s t
IsAdding p s (raise (r, t)) = IsAfter p s t

module _ (p : Deed → Bool) where
  pub then-IsAdding :
      {A B : Type 0} (s : Session) (m : Outcome A) (f : A × Session → Outcome B)
      → IsAdding p s m
      → ((a : A) (t : Session) → IsAdding p t (f (a, t)))
      → IsAdding p s (m >>= f)
  unfolding IsAdding
  then-IsAdding {A} {B} s (ok (a, t)) f h k = joined (f (a, t)) (k a t)
    where
      joined : (r : Outcome B) → IsAdding p t r → IsAdding p s r
      joined (ok (b, u)) q = IsAfter-trans h q
      joined (raise (e, u)) q = IsAfter-trans h q
  then-IsAdding s (raise (e, t)) f h k = h

  pub extended :
      {A : Type 0} {s t : Session} (m : Outcome A) → IsAfter p s t → IsAdding p t m → IsAdding p s m
  unfolding IsAdding
  extended (ok (a, u)) h k = IsAfter-trans h k
  extended (raise (e, u)) h k = IsAfter-trans h k

  pub choice-IsAdding :
      {A : Type 0} (x y : Outcome A) (s : Session) (b : Bool)
      → IsAdding p s x
      → IsAdding p s y
      → IsAdding p s (elim b [ true ↦ x | false ↦ y ])
  choice-IsAdding x y s true h k = h
  choice-IsAdding x y s false h k = k

  pub answer-IsAdding :
      (c : Str) (rs : List Str) (s : Session) → p (command c) ≡ true → IsAdding p s (answer c rs s)
  unfolding IsAdding answer act
  answer-IsAdding c [] s h = IsAfter-one p s _ (command c) refl h
  answer-IsAdding c (r ∷ rs) s h = IsAfter-one p s _ (command c) refl h

  pub ask-IsAdding : (c : Str) (s : Session) → p (command c) ≡ true → IsAdding p s (ask c s)
  unfolding ask
  ask-IsAdding c s h = answer-IsAdding c s.replies s h

  pub note-IsAdding : (e : Deed) (s : Session) → p e ≡ true → IsAdding p s (note e s)
  unfolding IsAdding note act
  note-IsAdding e s h = IsAfter-one p s _ e refl h

  pub keep-IsAdding :
      (c file : Str) (s : Session)
      → p (command c) ≡ true
      → p (wrote file) ≡ true
      → IsAdding p s (keep c file s)
  unfolding keep IsAdding act
  keep-IsAdding c file s h k =
      then-IsAdding s _ _ (ask-IsAdding c s h) (λ r t. IsAfter-one p t _ (wrote file) refl k)

  pub require-IsAdding : (b : Bool) (r : Failure) (s : Session) → IsAdding p s (require b r s)
  unfolding IsAdding require
  require-IsAdding true r s = IsAfter-refl p s s refl
  require-IsAdding false r s = IsAfter-refl p s s refl

  pub lift-IsAdding : {A : Type 0} (m : Result Error A) (s : Session) → IsAdding p s (lift m s)
  unfolding IsAdding lift
  lift-IsAdding (ok a) s = IsAfter-refl p s s refl
  lift-IsAdding (raise e) s = IsAfter-refl p s s refl

pub ended :
    {A : Type 0} {p : Deed → Bool} {s : Session} {m : Outcome A} (a : A) (t : Session)
    → IsAdding p s m
    → m ≡ ok (a, t)
    → IsAfter p s t
unfolding IsAdding
ended {p = p} {s = s} a t h e = subst (IsAdding p s) e h

pub failed_in :
    {A : Type 0} {p : Deed → Bool} {s : Session} {m : Outcome A} (r : Failure) (t : Session)
    → IsAdding p s m
    → m ≡ raise (r, t)
    → IsAfter p s t
unfolding IsAdding
failed_in {p = p} {s = s} r t h e = subst (IsAdding p s) e h
