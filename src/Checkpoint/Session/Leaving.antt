-- ===== src/Checkpoint/Session/Leaving.antt =====
-- tools/create_checkpoint.py and tools/restore_checkpoint.py: which steps an operation adds to the
-- trace of its session where it returns.
use darwin_vm.Prelude.{
  ◌≡◌, refl, ap, sym, ◌∙◌, subst, Bool, true, false, List, [], ◌∷◌, ◌++◌, append_assoc, append-nil,
}
use darwin_vm.Prelude.Result.{ok_injective, >>=-eq-ok, Result, ok, raise, ◌>>=◌}
use darwin_vm.Bytes.Utf8.{Str}
use darwin_vm.Checkpoint.{Error}
use darwin_vm.Checkpoint.Session.Adding.{Outcome}
use darwin_vm.Checkpoint.Session.{
  Deed, command, wrote, Session, Failure, act, answer, ask, lift, require, keep, note,
}

-- Where the operation returns, it has done just this.
unfoldable pub IsLeaving : {A : Type 0} → List Deed → Session → Outcome A → Type 0
IsLeaving steps s (ok (a, t)) = t.trace ≡ s.trace ++ steps
IsLeaving steps s (raise e) = Unit {0}

pub then-IsLeaving :
    {A B : Type 0} (xs ys : List Deed) (s : Session) (m : Outcome A) (f : A × Session → Outcome B)
    → IsLeaving xs s m
    → ((a : A) (t : Session) → IsLeaving ys t (f (a, t)))
    → IsLeaving (xs ++ ys) s (m >>= f)
unfolding IsLeaving
then-IsLeaving {A} {B} xs ys s (ok (a, t)) f h k = joined (f (a, t)) (k a t)
  where
    joined : (r : Outcome B) → IsLeaving ys t r → IsLeaving (xs ++ ys) s r
    joined (ok (b, u)) q = q ∙ ap (λ z. z ++ ys) h ∙ append_assoc s.trace xs ys
    joined (raise e) q = tt
then-IsLeaving xs ys s (raise e) f h k = tt

pub left_behind :
    {A : Type 0} (xs : List Deed) (s : Session) {m : Outcome A} (a : A) (t : Session)
    → IsLeaving xs s m
    → m ≡ ok (a, t)
    → t.trace ≡ s.trace ++ xs
unfolding IsLeaving
left_behind xs s a t h e = subst (IsLeaving xs s) e h

pub answer-IsLeaving :
    (c : Str) (rs : List Str) (s : Session) → IsLeaving (command c ∷ []) s (answer c rs s)
unfolding IsLeaving answer
answer-IsLeaving c [] s = tt
answer-IsLeaving c (r ∷ rs) s = refl

pub ask-IsLeaving : (c : Str) (s : Session) → IsLeaving (command c ∷ []) s (ask c s)
unfolding ask
ask-IsLeaving c s = answer-IsLeaving c s.replies s

pub note-IsLeaving : (e : Deed) (s : Session) → IsLeaving (e ∷ []) s (note e s)
unfolding IsLeaving note act
note-IsLeaving e s = refl

pub keep-IsLeaving :
    (c file : Str) (s : Session) → IsLeaving (command c ∷ wrote file ∷ []) s (keep c file s)
unfolding keep IsLeaving act
keep-IsLeaving c file s = then-IsLeaving _ (wrote file ∷ []) s _ _ (ask-IsLeaving c s) (λ r t. refl)

pub require-IsLeaving : (b : Bool) (r : Failure) (s : Session) → IsLeaving [] s (require b r s)
unfolding IsLeaving require
require-IsLeaving true r s = sym (append-nil s.trace)
require-IsLeaving false r s = tt

pub lift-IsLeaving : {A : Type 0} (m : Result Error A) (s : Session) → IsLeaving [] s (lift m s)
unfolding IsLeaving lift
lift-IsLeaving (ok a) s = sym (append-nil s.trace)
lift-IsLeaving (raise e) s = tt

pub done : (s : Session) → s.trace ≡ s.trace ++ []
done s = sym (append-nil s.trace)

pub answered :
    (c : Str) (rs : List Str) (s : Session) (r : Str) (t : Session)
    → answer c rs s ≡ ok (r, t)
    → (rs ≡ r ∷ t.replies) × (t.trace ≡ s.trace ++ command c ∷ [])
unfolding answer
answered c [] s r t h = absurd (cc)
answered c (x ∷ rs) s r t h =
    let next : Session = record { trace = s.trace ++ command c ∷ []; replies = rs } in
    let same_reply : x ≡ r = cc (h) in
    let same : next ≡ t = cc (h) in
    (ap (λ z. z ∷ rs) same_reply ∙ ap (λ u. r ∷ u.replies) same, ap (λ u. u.trace) (sym same))

pub required :
    (b : Bool) (r : Failure) (s : Session) (x : Unit {0} × Session)
    → require b r s ≡ ok x
    → b ≡ true
unfolding require
required true r s x h = refl
required false r s x h = absurd (cc)

pub lifted :
    {A : Type 0} (m : Result Error A) (s t : Session) (a : A) → lift m s ≡ ok (a, t) → m ≡ ok a
unfolding lift
lifted (ok b) s t a h = ap (λ z. ok z.0) (ok_injective h)
lifted (raise e) s t a h = absurd (cc)

pub later :
    (xs ys a : List Deed) {b c : List Deed} → b ≡ a ++ xs → c ≡ b ++ ys → c ≡ a ++ (xs ++ ys)
later xs ys a h k = k ∙ ap (λ z. z ++ ys) h ∙ append_assoc a xs ys

pub required_same :
    (b : Bool) (r : Failure) (s t : Session) → require b r s ≡ ok (tt, t) → (b ≡ true) × (s ≡ t)
unfolding require
required_same true r s t h = (refl, ap (λ z. z.1) (ok_injective h))
required_same false r s t h = absurd (cc)

pub lifted_same :
    {A : Type 0} (m : Result Error A) (s t : Session) (a : A)
    → lift m s ≡ ok (a, t)
    → (m ≡ ok a) × (s ≡ t)
unfolding lift
lifted_same (ok b) s t a h = (ap (λ z. ok z.0) (ok_injective h), ap (λ z. z.1) (ok_injective h))
lifted_same (raise e) s t a h = absurd (cc)

pub noted_same : (e : Deed) (s t : Session) → note e s ≡ ok (tt, t) → s.replies ≡ t.replies
unfolding note act
noted_same e s t h = ap (λ z. z.1.replies) (ok_injective h)

pub kept_same :
    (c file r : Str) (s t : Session) → keep c file s ≡ ok (r, t) → s.replies ≡ r ∷ t.replies
unfolding keep ask act
kept_same c file r s t h =
    let ((x, u), said, h) = >>=-eq-ok (ask c s) _ h in
    let reply : x ≡ r = ap (λ z. z.0) (ok_injective h) in
    let rest : u.replies ≡ t.replies = ap (λ z. z.1.replies) (ok_injective h) in
    (answered c s.replies s x u said).0 ∙ ap (λ z. z ∷ u.replies) reply ∙ ap (λ z. r ∷ z) rest
