-- ===== src/Serial/Upload/Received.antt =====
-- tools/serial.py, `upload`: the parts that the guest says it has received.
use darwin_vm.Prelude.{
  ℕ, suc, ◌≡◌, refl, ap, subst, List, [], ◌∷◌, ◌++◌, Option, some, All, Bool-cases, Option-cases,
  inl, inr, length, nat_eq, ◌==◌, All-append_left, All-append_right,
}
use darwin_vm.Prelude.Result.{ok, >>=-eq-ok}
use darwin_vm.Bytes.{Bytes}
use darwin_vm.Bytes.Utf8.{Str}
use darwin_vm.PyInt.{decimal_str}
use darwin_vm.Serial.{Link, World, Options}
use darwin_vm.Serial.Upload.{
  checked_batch, seconds, part_path, part_command, part_marker, send_parts,
}
use darwin_vm.Serial.Upload.Steps.{
  ended, IsLater, IsWitnessed, then-IsLater, same-IsLater, widen, All-map,
  checked_batch-IsWitnessed,
}

-- Each part, from a number on, has the checksum that the host computes for it in a marker that was
-- heard, with its length and its path.
pub data AreParts (cksum : Bytes → Option Str) (dir : Str) (before after : Link)
    : ℕ → List Str → Type 0 where
  no_part : {number : ℕ} → AreParts cksum dir before after number []
  part :
      {number : ℕ} {c : Str} {cs : List Str} (sum : Str)
      → cksum c ≡ some sum
      → IsWitnessed before after (sum ++ 32 ∷ (decimal_str (length c) ++ 32 ∷ part_path dir number))
      → AreParts cksum dir before after (suc number) cs
      → AreParts cksum dir before after number (c ∷ cs)

module _ (o : Options) (cksum : Bytes → Option Str) (dir : Str) where
  pub widen_parts :
      {u v w x : Link} {number : ℕ} (cs : List Str)
      → IsLater u v
      → AreParts cksum dir v w number cs
      → IsLater w x
      → AreParts cksum dir u x number cs
  widen_parts [] l no_part m = no_part
  widen_parts (c ∷ cs) l (part sum e h ps) m = part sum e (widen l h m) (widen_parts cs l ps m)

  seconds-append :
      (xs : List (Str × Str)) (y : Str × Str) → seconds (xs ++ y ∷ []) ≡ seconds xs ++ y.1 ∷ []
  unfolding seconds
  seconds-append [] y = refl
  seconds-append (x ∷ xs) y = ap (λ z. x.1 ∷ z) (seconds-append xs y)

  pub send_parts-AreParts :
      (cs : List Str) (number : ℕ) (entries : List (Str × Str)) (w v : World)
      → send_parts o cksum dir number cs entries w ≡ ok v
      → (All (IsWitnessed w.link v.link) (seconds entries)
          × AreParts cksum dir w.link v.link number cs)
        × IsLater w.link v.link
  unfolding send_parts seconds part_marker
  send_parts-AreParts [] number [] w v = λ h. ((tt, no_part), ended w.link w v same-IsLater h)
  send_parts-AreParts [] number (e ∷ es) w v =
      λ h. let (ws, l) = checked_batch-IsWitnessed o (e ∷ es) 8 w v h in ((ws, no_part), l)
  send_parts-AreParts (c ∷ cs) number entries w v =
      let path = part_path dir number in
      elim (Option-cases (cksum c)) [
        | inl e ↦ rw (send_parts, e) (λ h. absurd (cc))
        | inr (sum, e) ↦
            let entry : Str × Str = (part_command path c, part_marker sum path c) in
            let entries' = entries ++ entry ∷ [] in
            elim (Bool-cases (length entries' == o.batch)) [
              | inl t ↦
                  rw (send_parts, e, t)
                    (λ h.
                      let (x, p, q) =
                        >>=-eq-ok (checked_batch o entries' 8 w)
                          (send_parts o cksum dir (suc number) cs []) h in
                      let (ws, l) = checked_batch-IsWitnessed o entries' 8 w x p in
                      let ((none', ps), m) = send_parts-AreParts cs (suc number) [] x v q in
                      with_part sum entry refl e
                        (All-map (seconds entries') (λ k i. widen same-IsLater i m) ws)
                        (widen_parts cs l ps same-IsLater) (then-IsLater l m))
              | inr t ↦
                  rw (send_parts, e, t)
                    (λ h.
                      let ((ws, ps), l) = send_parts-AreParts cs (suc number) entries' w v h in
                      with_part sum entry refl e ws ps l)
            ]
      ]
    where
      with_part :
          (sum : Str) (entry : Str × Str)
          → entry.1 ≡ part_marker sum (part_path dir number) c
          → cksum c ≡ some sum
          → All (IsWitnessed w.link v.link) (seconds (entries ++ entry ∷ []))
          → AreParts cksum dir w.link v.link (suc number) cs
          → IsLater w.link v.link
          → (All (IsWitnessed w.link v.link) (seconds entries)
              × AreParts cksum dir w.link v.link number (c ∷ cs))
            × IsLater w.link v.link
      with_part sum entry same e ws ps l =
          let both = subst (All (IsWitnessed w.link v.link)) (seconds-append entries entry) ws in
          let last =
            (All-append_right (IsWitnessed w.link v.link) (seconds entries) (entry.1 ∷ [])
              both).0 in
          (
            (
              All-append_left (IsWitnessed w.link v.link) (seconds entries) (entry.1 ∷ []) both,
              part sum e (subst (IsWitnessed w.link v.link) same last) ps,
            ),
            l,
          )
