-- ===== src/Profile/Parser/Numbers.antt =====
-- Decimal numerals, as fmt.Sprintf prints them.
use target_lib.Base.{
  [], ◌∷◌, ℕ, zero, suc, ◌+◌, ◌-◌, ◌*◌, ◌/◌, ◌%◌, ◌<◌, Text, ltb, if◌then◌else◌, ◌≡◌, arith,
  Bool-cases, inl, inr, ap, ◌∙◌, sym,
}

digits : ℕ → ℕ → Text → Text
digits zero n behind = behind
digits (suc fuel) n behind =
    let rest = digits fuel (n / 10) ((n % 10 + b'0') ∷ behind) in
    if ltb n 10 then (n + b'0') ∷ behind else rest

-- The fuel is more than the digits need.
unfoldable pub decimal : ℕ → Text
unfolding digits
decimal n = digits (suc n) n []

-- Reading digits behind those that gave n.
read : ℕ → Text → ℕ
read n [] = n
read n (c ∷ s) = read (n * 10 + (c - b'0')) s

read-digits :
    (fuel n : ℕ) (behind : Text) → n < fuel → read 0 (digits fuel n behind) ≡ read n behind
unfolding read digits
read-digits zero n behind h = absurd (omega arith)
read-digits (suc fuel) n behind h = elim (Bool-cases (ltb n 10)) [
  | inl e ↦ rw (digits, e) (ap (λ k. read k behind) (omega arith))
  | inr e ↦
      rw (digits, e)
        (read-digits fuel (n / 10) ((n % 10 + b'0') ∷ behind) (ground arith)
          ∙ ap (λ k. read k behind) (omega arith))
]

-- Different numbers print differently.
pub decimal-injective : (m n : ℕ) → decimal m ≡ decimal n → m ≡ n
unfolding decimal read
decimal-injective m n e =
    sym (read-digits (suc m) m [] (omega arith))
    ∙ ap (read 0) e
    ∙ read-digits (suc n) n [] (omega arith)
