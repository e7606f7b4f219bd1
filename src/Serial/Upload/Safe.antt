-- ===== src/Serial/Upload/Safe.antt =====
-- tools/serial.py, `remote_path_is_safe`: the targets that it accepts.
use mathlib.Core.List.{append-nil}
use darwin_vm.Prelude.{
  ◌≡◌, ◌≢◌, refl, ◌∙◌, Bool, true, false, not, ◌&&◌, ◌||◌, List, [], ◌∷◌, ◌++◌, any, All, ℕ, arith,
  nat_eq, list_eq, list_beq_iff, ◌==◌, ◌⊎◌, inl, inr,
}
use darwin_vm.Bytes.{text}
use darwin_vm.Bytes.Utf8.{Str}
use darwin_vm.Text.{starts_with, split}
use darwin_vm.Serial.Upload.{remote_path_is_safe}

-- The two directories for staged files.
pub data IsRoot : Str → Type 0 where
  data_root : IsRoot (text "/private/var/.dvm-data-seed/")
  hardware_root : IsRoot (text "/private/var/hardware/.dvm-data-seed/")

-- A path below one of them that does not lead up.
pub record IsSafeTarget (path : Str) : Type 0 where
  pub root : Str
  pub is_root : IsRoot root
  pub first : ℕ
  pub rest : Str
  pub whole : path ≡ root ++ first ∷ rest
  pub no_parent : All (λ part. part ≢ text "..") (split b'/' path)

rest_of : (p s : Str) → starts_with p s ≡ true → (rest : Str) × (s ≡ p ++ rest)
unfolding starts_with
rest_of [] s h = (s, refl)
rest_of (x ∷ p) [] h = absurd (ground arith)
rest_of (x ∷ p) (c ∷ s) h =
    let (rest, e) = rest_of p s (ground arith) in
    let same : x ≡ c = ground arith in (rest, cc (e, same))

below :
    (root path : Str)
    → (starts_with root path && not (path == root)) ≡ true
    → (first : ℕ) × (rest : Str) × (path ≡ root ++ first ∷ rest)
below root path h = let (rest, e) = rest_of root path (ground arith) in go rest e
  where
    go :
        (rest : Str)
        → path ≡ root ++ rest
        → (first : ℕ) × (rest : Str) × (path ≡ root ++ first ∷ rest)
    go [] e =
        let same : path ≡ root = e ∙ append-nil root in
        absurd (ground (arith, list_beq_iff path root))
    go (c ∷ rest) e = (c, rest, e)

none_of : (x : Str) (ps : List Str) → any (λ part. part == x) ps ≡ false → All (λ part. part ≢ x) ps
none_of x [] h = tt
none_of x (p ∷ ps) h = (λ e. ground (arith, list_beq_iff p x), none_of x ps (ground (arith)))

either : (a b : Bool) → (a || (b || false)) ≡ true → (a ≡ true) ⊎ (b ≡ true)
either a b h = ground arith

both : (a b : Bool) → (a && not b) ≡ true → (a ≡ true) × (b ≡ false)
both a b h = ground arith

pub remote_path_is_safe-IsSafeTarget :
    (path : Str) → remote_path_is_safe path ≡ true → IsSafeTarget path
unfolding remote_path_is_safe
remote_path_is_safe-IsSafeTarget path h =
    let (somewhere, up) = both _ _ h in
    elim (either _ _ somewhere) [
      | inl k ↦
          let (c, rest, e) = below (text "/private/var/.dvm-data-seed/") path k in
          record {
            root = text "/private/var/.dvm-data-seed/";
            is_root = data_root;
            first = c;
            rest = rest;
            whole = e;
            no_parent = none_of (text "..") (split b'/' path) up;
          }
      | inr k ↦
          let (c, rest, e) = below (text "/private/var/hardware/.dvm-data-seed/") path k in
          record {
            root = text "/private/var/hardware/.dvm-data-seed/";
            is_root = hardware_root;
            first = c;
            rest = rest;
            whole = e;
            no_parent = none_of (text "..") (split b'/' path) up;
          }
    ]
