-- ===== src/Checkpoint/Chain.antt =====
-- tools/checkpoint_common.py: the description of the files below a disk, and its check. The files and
-- their hash are parameters, and so is what `qemu-img info` says.
use darwin_vm.Prelude.{
  ℕ, ◌≡◌, ◌↔◌, refl, ap, sym, ◌∙◌, subst, true, false, not, List, [], ◌∷◌, Option, none, some,
  length, All, Bool-cases, Option-cases, inl, inr, nat_eq, list_eq, ◌==◌, ==_refl, list_beq_iff,
  if◌then◌else◌, arith,
}
use darwin_vm.Prelude.Result.{Result, ok, raise, ◌>>=◌, >>=-eq-ok}
use darwin_vm.Bytes.{Bytes}
use darwin_vm.Bytes.Utf8.{Str}
use darwin_vm.Checkpoint.{
  Error, no_chain, resized, hash_mismatch, empty_info, not_a_file, other_start,
}

-- An entry of the chain, and what qemu-img says of one.
pub record Info : Type 0 where
  pub filename : Str
  pub format : Str
  pub virtual_size : ℕ

pub record Entry : Type 0 where
  pub path : Str
  pub format : Str
  pub virtual_size : ℕ
  pub bytes : ℕ
  pub sha : Str

-- `file` gives the bytes of a path that is a file.
module _ (file : Str → Option Bytes) (sha256 : Bytes → Str) where
  unfoldable pub verify_entries : List Entry → Result Error (Unit {0})
  verify_entries [] = ok tt
  verify_entries (e ∷ es) = elim (file e.path) [
    | none ↦ raise resized
    | some b ↦ elim (length b == e.bytes) [
      | false ↦ raise resized
      | true ↦ elim (sha256 b == e.sha) [ false ↦ raise hash_mismatch | true ↦ verify_entries es ]
    ]
  ]

  unfoldable pub verify_backing_chain : List Entry → Result Error (Unit {0})
  verify_backing_chain [] = raise no_chain
  verify_backing_chain (e ∷ es) = verify_entries (e ∷ es)

  unfoldable pub describe : (Str → Str) → List Info → Result Error (List Entry)
  describe resolve [] = ok []
  describe resolve (i ∷ is) = elim (file (resolve i.filename)) [
    | none ↦ raise not_a_file
    | some b ↦ describe resolve is >>= λ es. ok (
        record {
          path = resolve i.filename;
          format = i.format;
          virtual_size = i.virtual_size;
          bytes = length b;
          sha = sha256 b;
        }
        ∷ es)
  ]

  unfoldable pub check_start : (Str → Str) → Str → List Entry → Result Error (List Entry)
  check_start resolve disk [] = raise empty_info
  check_start resolve disk (e ∷ es) =
      if not (e.path == resolve disk) then raise other_start else ok (e ∷ es)

  unfoldable pub qcow2_backing_chain : (Str → Str) → List Info → Str → Result Error (List Entry)
  qcow2_backing_chain resolve [] disk = raise empty_info
  qcow2_backing_chain resolve (i ∷ is) disk = describe resolve (i ∷ is) >>= check_start resolve disk

  -- A member is there with the size and the hash of its entry.
  pub record IsIntact (e : Entry) : Type 0 where
    pub content : Bytes
    pub there : file e.path ≡ some content
    pub sized : length content ≡ e.bytes
    pub hashed : sha256 content ≡ e.sha

  pub data IsChain : List Entry → Type 0 where
    some_members : {e : Entry} {es : List Entry} → All IsIntact (e ∷ es) → IsChain (e ∷ es)

  nat_same : (a b : ℕ) → (a == b) ≡ true → a ≡ b
  nat_same a b h = ground (arith, h)

  verified : (es : List Entry) → verify_entries es ≡ ok tt → All IsIntact es
  unfolding verify_entries
  verified [] = λ h. tt
  verified (e ∷ es) = elim (Option-cases (file e.path)) [
    | inl f ↦ rw (verify_entries, f) (λ h. absurd (cc))
    | inr (b, f) ↦ elim (Bool-cases (length b == e.bytes)) [
      | inr s ↦ rw (verify_entries, f, s) (λ h. absurd (cc))
      | inl s ↦ elim (Bool-cases (sha256 b == e.sha)) [
        | inr k ↦ rw (verify_entries, f, s, k) (λ h. absurd (cc))
        | inl k ↦
            rw (verify_entries, f, s, k)
              (λ h. (
                record {
                  content = b;
                  there = f;
                  sized = nat_same (length b) e.bytes s;
                  hashed = (list_beq_iff (sha256 b) e.sha).0 k;
                },
                verified es h,
              ))
      ]
    ]
  ]

  verifies : (es : List Entry) → All IsIntact es → verify_entries es ≡ ok tt
  unfolding verify_entries
  verifies [] h = refl
  verifies (e ∷ es) h =
      let i = h.0 in
      let s : (length i.content == e.bytes) ≡ true =
        ap (λ z. length i.content == z) (sym i.sized) ∙ ==_refl (length i.content) in
      let k : (sha256 i.content == e.sha) ≡ true =
        ap (λ z. sha256 i.content == z) (sym i.hashed) ∙ ==_refl (sha256 i.content) in
      rw (verify_entries, i.there, s, k) (verifies es h.1)

  -- verify_backing_chain accepts a chain exactly when it has members and every one of them is a file
  -- with the recorded size and hash.
  pub verify_backing_chain-IsChain :
      (es : List Entry) → (verify_backing_chain es ≡ ok tt) ↔ IsChain es
  unfolding verify_backing_chain
  verify_backing_chain-IsChain [] = (λ h. absurd (cc), λ h. elim h [ ])
  verify_backing_chain-IsChain (e ∷ es) = (λ h. some_members (verified (e ∷ es) h), back)
    where
      back : IsChain (e ∷ es) → verify_entries (e ∷ es) ≡ ok tt
      back (some_members h) = verifies (e ∷ es) h

  describe-IsIntact :
      (resolve : Str → Str) (is : List Info) (es : List Entry)
      → describe resolve is ≡ ok es
      → All IsIntact es
  unfolding describe
  describe-IsIntact resolve [] es = λ h. let same : [] ≡ es = cc in subst (All IsIntact) same tt
  describe-IsIntact resolve (i ∷ is) es = elim (Option-cases (file (resolve i.filename))) [
    | inl f ↦ rw (describe, f) (λ h. absurd (cc))
    | inr (b, f) ↦
        rw (describe, f)
          (λ h.
            let (rest, p, q) = >>=-eq-ok (describe resolve is) _ h in
            let first : Entry = record {
              path = resolve i.filename;
              format = i.format;
              virtual_size = i.virtual_size;
              bytes = length b;
              sha = sha256 b;
            } in
            let same : first ∷ rest ≡ es = cc (q) in
            subst (All IsIntact) same (
              record { content = b; there = f; sized = refl; hashed = refl },
              describe-IsIntact resolve is rest p,
            ))
  ]

  started :
      (resolve : Str → Str) (disk : Str) (fs es : List Entry)
      → check_start resolve disk fs ≡ ok es
      → (fs ≡ es) × (All IsIntact fs → IsChain fs)
  unfolding check_start
  started resolve disk [] es = λ h. absurd (cc)
  started resolve disk (f ∷ fs) es = elim (Bool-cases (f.path == resolve disk)) [
    | inl e ↦ rw (check_start, e) (λ h. (cc, λ k. some_members k))
    | inr e ↦ rw (check_start, e) (λ h. absurd (cc))
  ]

  starts_at :
      (resolve : Str → Str) (disk : Str) (fs : List Entry) (e : Entry) (es : List Entry)
      → check_start resolve disk fs ≡ ok (e ∷ es)
      → e.path ≡ resolve disk
  unfolding check_start
  starts_at resolve disk [] e es = λ h. absurd (cc)
  starts_at resolve disk (f ∷ fs) e es = elim (Bool-cases (f.path == resolve disk)) [
    | inl same ↦
        rw (check_start, same)
          (λ h.
            let first : f ≡ e = cc (h) in
            ap (λ z. z.path) (sym first) ∙ (list_beq_iff f.path (resolve disk)).0 same)
    | inr differs ↦ rw (check_start, differs) (λ h. absurd (cc))
  ]

  pub qcow2_backing_chain-starts :
      (resolve : Str → Str) (is : List Info) (disk : Str) (e : Entry) (es : List Entry)
      → qcow2_backing_chain resolve is disk ≡ ok (e ∷ es)
      → e.path ≡ resolve disk
  unfolding qcow2_backing_chain
  qcow2_backing_chain-starts resolve [] disk e es h = absurd (cc)
  qcow2_backing_chain-starts resolve (i ∷ is) disk e es h =
      let (fs, p, q) = >>=-eq-ok (describe resolve (i ∷ is)) (check_start resolve disk) h in
      starts_at resolve disk fs e es q

  -- A chain that qcow2_backing_chain has described passes verify_backing_chain as long as the files are
  -- as they were, whatever qemu-img said.
  pub verify_backing_chain-qcow2_backing_chain :
      (resolve : Str → Str) (is : List Info) (disk : Str) (es : List Entry)
      → qcow2_backing_chain resolve is disk ≡ ok es
      → verify_backing_chain es ≡ ok tt
  unfolding qcow2_backing_chain
  verify_backing_chain-qcow2_backing_chain resolve [] disk es h = absurd (cc)
  verify_backing_chain-qcow2_backing_chain resolve (i ∷ is) disk es h =
      let (fs, p, q) = >>=-eq-ok (describe resolve (i ∷ is)) (check_start resolve disk) h in
      let same = started resolve disk fs es q in
      (verify_backing_chain-IsChain es).1
        (subst IsChain same.0 (same.1 (describe-IsIntact resolve (i ∷ is) fs p)))
