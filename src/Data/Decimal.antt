-- ===== src/Data/Decimal.antt =====
-- A number in decimal, as JSON.stringify and template literals print a nonnegative safe integer.
use sec_app.Base.{
  ℕ, zero, suc, ◌+◌, ◌-◌, ◌*◌, ◌/◌, ◌%◌, ◌<◌, ◌≡◌, refl, sym, ap, ◌∙◌, inl, inr, false, Char, code,
  String, arith, ◌==◌, if◌then◌else◌, Bool-cases, ==_iff,
}

abbrev digit : ℕ → Char
digit zero = "0"
digit (suc zero) = "1"
digit (suc (suc zero)) = "2"
digit (suc (suc (suc zero))) = "3"
digit (suc (suc (suc (suc zero)))) = "4"
digit (suc (suc (suc (suc (suc zero))))) = "5"
digit (suc (suc (suc (suc (suc (suc zero)))))) = "6"
digit (suc (suc (suc (suc (suc (suc (suc zero))))))) = "7"
digit (suc (suc (suc (suc (suc (suc (suc (suc zero)))))))) = "8"
digit (suc (suc (suc (suc (suc (suc (suc (suc (suc _))))))))) = "9"

-- The digits of `n` in front of `acc`; `n < fuel` is enough fuel.
digits_from : ℕ → ℕ → String → String
digits_from zero n acc = acc
digits_from (suc fuel) n acc =
    let shown = String.◌∷◌ (digit (n % 10)) acc in
    let rest = digits_from fuel (n / 10) shown in if n / 10 == 0 then shown else rest

unfoldable pub decimal : ℕ → String
unfolding digits_from
decimal n = digits_from (suc n) n String.[]

-- Reads decimal digits back.
read_from : ℕ → String → ℕ
read_from n String.[] = n
read_from n (String.◌∷◌ c s) = read_from (n * 10 + (code c - 48)) s

code-digit : (d : ℕ) → d < 10 → code (digit d) - 48 ≡ d
code-digit zero h = refl
code-digit (suc zero) h = refl
code-digit (suc (suc zero)) h = refl
code-digit (suc (suc (suc zero))) h = refl
code-digit (suc (suc (suc (suc zero)))) h = refl
code-digit (suc (suc (suc (suc (suc zero))))) h = refl
code-digit (suc (suc (suc (suc (suc (suc zero)))))) h = refl
code-digit (suc (suc (suc (suc (suc (suc (suc zero))))))) h = refl
code-digit (suc (suc (suc (suc (suc (suc (suc (suc zero)))))))) h = refl
code-digit (suc (suc (suc (suc (suc (suc (suc (suc (suc d))))))))) h = omega arith

read_from-digit :
    (n m : ℕ) (acc : String)
    → read_from m (String.◌∷◌ (digit (n % 10)) acc) ≡ read_from (m * 10 + n % 10) acc
unfolding read_from
read_from-digit n m acc = rw (code-digit (n % 10) (omega arith))

small : (n fuel : ℕ) → (n / 10 == 0) ≡ false → n < suc fuel → n / 10 < fuel
small n fuel e h = ground arith

read_from-digits_from :
    (fuel n : ℕ) (acc : String) → n < fuel → read_from 0 (digits_from fuel n acc) ≡ read_from n acc
unfolding digits_from
read_from-digits_from zero n acc h = elim h [ ]
read_from-digits_from (suc fuel) n acc h = elim (Bool-cases (n / 10 == 0)) [
  | inl e ↦ rw e (
      read_from-digit n 0 acc
      ∙ ap {B = ℕ} (λ k. read_from k acc) (omega (arith, (==_iff (n / 10) 0).0 e)))
  | inr e ↦ rw e (
      read_from-digits_from fuel (n / 10) (String.◌∷◌ (digit (n % 10)) acc) (small n fuel e h)
      ∙ read_from-digit n (n / 10) acc
      ∙ ap {B = ℕ} (λ k. read_from k acc) (omega arith))
]

read_from-decimal : (n : ℕ) → read_from 0 (decimal n) ≡ n
unfolding decimal read_from
read_from-decimal n = read_from-digits_from (suc n) n String.[] (omega arith)

-- Two numbers that print alike are equal.
pub decimal-injective : (m n : ℕ) → decimal m ≡ decimal n → m ≡ n
decimal-injective m n e =
    sym (read_from-decimal m) ∙ ap {B = ℕ} (λ s. read_from 0 s) e ∙ read_from-decimal n

decimal_example : decimal 9007199254740991 ≡ "9007199254740991"
unfolding decimal
decimal_example = refl
