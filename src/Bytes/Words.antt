-- ===== src/Bytes/Words.antt =====
-- Laws of the 32-bit words, of padding and of NUL-terminated fields.
use darwin_vm.Prelude.{
  ℕ, zero, suc, ◌+◌, ◌-◌, ◌≤◌, ◌<◌, ◌≡◌, ◌≢◌, refl, ap, [], ◌∷◌, ◌++◌, some, arith, length,
  replicate, length-append, length-replicate, take, drop, All, Bool-cases, inl, inr, nat_eq, ◌==◌,
}
use darwin_vm.Bytes.{Bytes, IsByte, u32_mod, le32, read_u32, ljust, before_nul}

pub length-le32 : (n : ℕ) → length (le32 n) ≡ 4
unfolding le32
length-le32 n = refl

pub le32-IsByte : (n : ℕ) → All IsByte (le32 n)
unfolding le32
le32-IsByte n = omega arith

pub read_u32-le32 : (n : ℕ) (rest : Bytes) → n < u32_mod → read_u32 (le32 n ++ rest) ≡ some n
unfolding le32 read_u32
read_u32-le32 n rest h = ap some (omega arith)

-- What is read is what is written, on any four bytes.
pub le32-read_u32 :
    (d : Bytes) {n : ℕ}
    → All IsByte d
    → read_u32 d ≡ some n
    → (le32 n ++ drop 4 d ≡ d) × (n < u32_mod)
unfolding le32 read_u32 drop
le32-read_u32 (a ∷ b ∷ c ∷ e ∷ d) h p = ground arith
le32-read_u32 [] h p = cc
le32-read_u32 (a ∷ []) h p = cc
le32-read_u32 (a ∷ b ∷ []) h p = cc
le32-read_u32 (a ∷ b ∷ c ∷ []) h p = cc

pub read_u32_total : (d : Bytes) → 4 ≤ length d → (n : ℕ) × (read_u32 d ≡ some n)
unfolding read_u32
read_u32_total (a ∷ b ∷ c ∷ e ∷ d) h = (_, refl)
read_u32_total [] h = absurd (omega arith)
read_u32_total (a ∷ []) h = absurd (omega arith)
read_u32_total (a ∷ b ∷ []) h = absurd (omega arith)
read_u32_total (a ∷ b ∷ c ∷ []) h = absurd (omega arith)

pub read_u32-length : (d : Bytes) {n : ℕ} → read_u32 d ≡ some n → 4 ≤ length d
unfolding read_u32
read_u32-length (a ∷ b ∷ c ∷ e ∷ d) p = omega arith
read_u32-length [] p = cc
read_u32-length (a ∷ []) p = cc
read_u32-length (a ∷ b ∷ []) p = cc
read_u32-length (a ∷ b ∷ c ∷ []) p = cc

-- The word read depends on the first four bytes alone.
pub read_u32-append : (d rest : Bytes) {n : ℕ} → read_u32 d ≡ some n → read_u32 (d ++ rest) ≡ some n
unfolding read_u32
read_u32-append (a ∷ b ∷ c ∷ e ∷ d) rest p = p
read_u32-append [] rest p = cc
read_u32-append (a ∷ []) rest p = cc
read_u32-append (a ∷ b ∷ []) rest p = cc
read_u32-append (a ∷ b ∷ c ∷ []) rest p = cc

pub read_u32-take : (n : ℕ) (d : Bytes) → 4 ≤ n → read_u32 (take n d) ≡ read_u32 d
unfolding read_u32 take
read_u32-take (suc (suc (suc (suc n)))) (a ∷ b ∷ c ∷ e ∷ d) h = refl
read_u32-take (suc (suc (suc (suc n)))) [] h = refl
read_u32-take (suc (suc (suc (suc n)))) (a ∷ []) h = refl
read_u32-take (suc (suc (suc (suc n)))) (a ∷ b ∷ []) h = refl
read_u32-take (suc (suc (suc (suc n)))) (a ∷ b ∷ c ∷ []) h = refl
read_u32-take zero d h = absurd (omega arith)
read_u32-take (suc zero) d h = absurd (omega arith)
read_u32-take (suc (suc zero)) d h = absurd (omega arith)
read_u32-take (suc (suc (suc zero))) d h = absurd (omega arith)

pub length-ljust : (n : ℕ) (s : Bytes) → length s ≤ n → length (ljust n s) ≡ n
length-ljust n s h =
    omega (
      arith,
      length-append s (replicate (n - length s) 0),
      length-replicate {A = ℕ} (n - length s) 0,
    )

-- A text with no NUL is read back from its padded field.
pub before_nul-ljust :
    (s : Bytes) (k : ℕ) → All (λ b. b ≢ 0) s → before_nul (s ++ replicate (suc k) 0) ≡ s
unfolding before_nul replicate
before_nul-ljust [] k h = refl
before_nul-ljust (b ∷ s) k h = ground (arith, h.0, before_nul-ljust s k h.1)

-- The part before the first NUL holds no NUL.
pub before_nul_clean : (s : Bytes) → All (λ b. b ≢ 0) (before_nul s)
unfolding before_nul
before_nul_clean [] = tt
before_nul_clean (b ∷ s) = elim (Bool-cases (b == 0)) [
  | inl e ↦ rw e tt
  | inr e ↦ rw e ((λ z. ground arith), before_nul_clean s)
]

-- The two counts of a node's header, and what stands behind them.
pub header_reads :
    (x y : ℕ) (rest : Bytes)
    → (drop 4 (le32 x ++ (le32 y ++ rest)) ≡ le32 y ++ rest)
      × (drop 8 (le32 x ++ (le32 y ++ rest)) ≡ rest)
      × (8 ≤ length (le32 x ++ (le32 y ++ rest)))
unfolding le32 drop
header_reads x y rest = (refl, refl, omega arith)

pub below_length :
    (x y : ℕ) (a below : Bytes)
    → length (le32 x ++ (le32 y ++ (a ++ below))) ≡ 8 + length a + length below
below_length x y a below = omega (
  arith,
  length-append (le32 x) (le32 y ++ (a ++ below)),
  length-append (le32 y) (a ++ below),
  length-append a below,
  length-le32 x,
  length-le32 y,
)
