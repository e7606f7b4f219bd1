-- ===== src/Restore/Environment.antt =====
-- tools/restore_checkpoint.py: which settings of the environment the restored QEMU gets, and which of
-- them the launch manifest records.
use darwin_vm.Prelude.{
  ◌≡◌, refl, ap, sym, ◌∙◌, Bool, true, false, not, List, [], ◌∷◌, Option, none, some, Bool-cases,
  inl, inr, nat_eq, list_eq, list_beq_iff, ◌==◌, ==_refl, if◌then◌else◌,
}
use darwin_vm.Bytes.Utf8.{Str}
use darwin_vm.Checkpoint.Manifest.{Manifest, is_model_key, model_env}
use darwin_vm.Restore.{Accepted, put, recorded}
use darwin_vm.Restore.Launch.{host_env, updated, launch_env, launch_of}

-- The last value that a list of settings gives to a key.
unfoldable pub last_value : Str → List (Str × Str) → Option Str
last_value key [] = none
last_value key (kv ∷ more) =
    let later = last_value key more in
    elim later [ some v ↦ some v | none ↦ if kv.0 == key then some kv.1 else none ]

unfoldable pub or_else : Option Str → Option Str → Option Str
or_else (some v) other = some v
or_else none other = other

same_key : (a b : Str) → (a == b) ≡ true → a ≡ b
same_key a b h = (list_beq_iff a b).0 h

apart :
    (name key other : Str) → (other == name) ≡ false → (other == key) ≡ true → (name == key) ≡ false
apart name key other differs same = elim (Bool-cases (name == key)) [
  | inr e ↦ e
  | inl e ↦
      let joined : other ≡ name = same_key other key same ∙ sym (same_key name key e) in
      let no : false ≡ true = sym differs ∙ ap (λ z. other == z) (sym joined) ∙ ==_refl other in
      absurd (cc)
]

-- The value of a key after `result[name] = value`
recorded-put :
    (key name value : Str) (env : List (Str × Str))
    → recorded key (put name value env) ≡ (if name == key then some value else recorded key env)
unfolding recorded put
recorded-put key name value [] = refl
recorded-put key name value (kv ∷ env) = elim (Bool-cases (kv.0 == name)) [
  | inl e ↦ elim (Bool-cases (name == key)) [
    | inl k ↦ rw (put, e, k) refl
    | inr k ↦ rw (put, e, k) (rw (ap (λ z. z == key) (same_key kv.0 name e) ∙ k) refl)
  ]
  | inr e ↦ elim (Bool-cases (kv.0 == key)) [
    | inl k ↦ rw (put, e, k) (rw (apart name key kv.0 e k) refl)
    | inr k ↦ rw (put, e, k) (recorded-put key name value env)
  ]
]

or_else_assoc : (a b c : Option Str) → or_else a (or_else b c) ≡ or_else (or_else a b) c
unfolding or_else
or_else_assoc none b c = refl
or_else_assoc (some v) b c = refl

-- One setting, and those behind it
last_value-cons :
    (key : Str) (kv : Str × Str) (more : List (Str × Str))
    → last_value key (kv ∷ more)
      ≡ or_else (last_value key more) (if kv.0 == key then some kv.1 else none)
unfolding last_value or_else
last_value-cons key kv more = over (last_value key more)
  where
    over :
        (o : Option Str)
        → (elim o [ some v ↦ some v | none ↦ if kv.0 == key then some kv.1 else none ])
          ≡ or_else o (if kv.0 == key then some kv.1 else none)
    over none = refl
    over (some v) = refl

if_else :
    (b : Bool) (v : Str) (o : Option Str)
    → (if b then some v else o) ≡ or_else (if b then some v else none) o
unfolding or_else
if_else true v o = refl
if_else false v o = refl

recorded-updated :
    (key : Str) (env settings : List (Str × Str))
    → recorded key (updated env settings) ≡ or_else (last_value key settings) (recorded key env)
unfolding updated last_value or_else
recorded-updated key env [] = refl
recorded-updated key env (kv ∷ settings) =
    recorded-updated key (put kv.0 kv.1 env) settings
    ∙ ap (or_else (last_value key settings))
        (recorded-put key kv.0 kv.1 env ∙ if_else (kv.0 == key) kv.1 (recorded key env))
    ∙ or_else_assoc (last_value key settings) (if kv.0 == key then some kv.1 else none)
        (recorded key env)
    ∙ ap (λ z. or_else z (recorded key env)) (sym (last_value-cons key kv settings))

filtered :
    (b x c : Bool) (v : Str) (r q : Option Str)
    → (c ≡ true → b ≡ x)
    → r ≡ (if x then q else none)
    → (if b then (if c then some v else r) else r) ≡ (if x then (if c then some v else q) else none)
filtered true true true v r q h k = refl
filtered true false true v r q h k = let no = h refl in absurd (cc)
filtered false true true v r q h k = let no = h refl in absurd (cc)
filtered false false true v r q h k = k
filtered true x false v r q h k = k
filtered false x false v r q h k = k

recorded-kept :
    (b : Bool) (key : Str) (kv : Str × Str) (more : List (Str × Str))
    → recorded key (if b then kv ∷ more else more)
      ≡ (if b then (if kv.0 == key then some kv.1 else recorded key more) else recorded key more)
unfolding recorded
recorded-kept true key kv more = refl
recorded-kept false key kv more = refl

same_either : (b : Bool) (o : Option Str) → o ≡ (if b then o else o)
same_either true o = refl
same_either false o = refl

-- A filter by key keeps the values of those keys.
recorded-model_env :
    (key : Str) (env : List (Str × Str))
    → recorded key (model_env env) ≡ (if is_model_key key then recorded key env else none)
unfolding recorded model_env
recorded-model_env key [] = same_either (is_model_key key) none
recorded-model_env key (kv ∷ env) =
    recorded-kept (is_model_key kv.0) key kv (model_env env)
    ∙ filtered (is_model_key kv.0) (is_model_key key) (kv.0 == key) kv.1 _ (recorded key env)
        (λ e. ap is_model_key (same_key kv.0 key e)) (recorded-model_env key env)

recorded-host_env :
    (key : Str) (env : List (Str × Str))
    → recorded key (host_env env) ≡ (if not (is_model_key key) then recorded key env else none)
unfolding recorded host_env
recorded-host_env key [] = same_either (not (is_model_key key)) none
recorded-host_env key (kv ∷ env) =
    recorded-kept (not (is_model_key kv.0)) key kv (host_env env)
    ∙ filtered (not (is_model_key kv.0)) (not (is_model_key key)) (kv.0 == key) kv.1 _
        (recorded key env) (λ e. ap (λ z. not (is_model_key z)) (same_key kv.0 key e))
        (recorded-host_env key env)

-- The value of a key in the environment of the restored QEMU is that of the overrides, or else that of
-- the checkpoint, or else, where the key is none of the model's, that of the host; no setting of the
-- host for the model is left. The launch manifest has the same values for the keys of the model, and no
-- others.
pub launch_env-recorded :
    (key : Str) (environ : List (Str × Str)) (m : Manifest) (a : Accepted) (argv : List Str)
    → (recorded key (launch_env environ m a)
        ≡ or_else (last_value key a.overrides) (
            or_else
              (last_value key m.qemu_env)
              (if not (is_model_key key) then recorded key environ else none)))
      × (recorded key (launch_of argv (launch_env environ m a)).env
          ≡ (if is_model_key key then recorded key (launch_env environ m a) else none))
unfolding launch_env launch_of
launch_env-recorded key environ m a argv = (
  recorded-updated key (updated (host_env environ) m.qemu_env) a.overrides
      ∙ ap (or_else (last_value key a.overrides)) (
          recorded-updated key (host_env environ) m.qemu_env
          ∙ ap (or_else (last_value key m.qemu_env)) (recorded-host_env key environ)),
  recorded-model_env key (launch_env environ m a),
)
