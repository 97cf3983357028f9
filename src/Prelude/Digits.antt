-- ===== src/Prelude/Digits.antt =====
-- Reading a number in decimal.
use Prim.Native.Char.{code}
use Prim.Native.Nat.{ℕ, zero, suc, ◌+◌, ◌*◌, ◌-◌, ◌/◌, ◌%◌, ◌<◌}
use Prim.Native.String.{String, ◌++◌ as append}
use mathlib.Core.Path.{◌≡◌, refl, ap, ◌∙◌}
use mathlib.Core.Logic.{inl, inr}
use native.Mathlib.Omega.{arith}
use text.Mathlib.TextLemmas.{nil-append, cons-append}
use mathlib.Core.Bool.{Bool, true, false, ◌&&◌}
use fluxion.Prelude.Tests.{ltb, leb, Bool-cases}
use fluxion.Prelude.Text.{is_empty}
use fluxion.Prelude.Decimal.{digit, digits, decimal}

-- The number behind `acc`, of a text of digits.
unfoldable pub read_digits : ℕ → String → ℕ
read_digits acc String.[] = acc
read_digits acc (String.◌∷◌ c s) = read_digits (acc * 10 + (code c - 48)) s

read_digits-append :
    (acc : ℕ) (a b : String) → read_digits acc (append a b) ≡ read_digits (read_digits acc a) b
unfolding read_digits
read_digits-append acc String.[] b = rw nil-append refl
read_digits-append acc (String.◌∷◌ c a) b =
    rw cons-append (read_digits-append (acc * 10 + (code c - 48)) a b)

read_digits-digit : (acc d : ℕ) → d < 10 → read_digits acc (digit d) ≡ acc * 10 + d
unfolding read_digits digit
read_digits-digit acc zero h = refl
read_digits-digit acc (suc zero) h = refl
read_digits-digit acc (suc (suc zero)) h = refl
read_digits-digit acc (suc (suc (suc zero))) h = refl
read_digits-digit acc (suc (suc (suc (suc zero)))) h = refl
read_digits-digit acc (suc (suc (suc (suc (suc zero))))) h = refl
read_digits-digit acc (suc (suc (suc (suc (suc (suc zero)))))) h = refl
read_digits-digit acc (suc (suc (suc (suc (suc (suc (suc zero))))))) h = refl
read_digits-digit acc (suc (suc (suc (suc (suc (suc (suc (suc zero)))))))) h = refl
read_digits-digit acc (suc (suc (suc (suc (suc (suc (suc (suc (suc zero))))))))) h = refl
read_digits-digit acc (suc (suc (suc (suc (suc (suc (suc (suc (suc (suc d)))))))))) h = omega arith

read_digits-digits : (fuel n : ℕ) → n < fuel → read_digits 0 (digits fuel n) ≡ n
unfolding digits
read_digits-digits zero n h = omega arith
read_digits-digits (suc fuel) n h = elim (Bool-cases (ltb n 10)) [
  | inl e ↦ rw e (read_digits-digit 0 n (ground arith) ∙ omega arith)
  | inr e ↦
      let small : n / 10 < fuel = ground arith in
      rw e (
        read_digits-append 0 (digits fuel (n / 10)) (digit (n % 10))
        ∙ (read_digits-digit (read_digits 0 (digits fuel (n / 10))) (n % 10) (omega arith)
            ∙ (ap (λ x. x * 10 + n % 10) (read_digits-digits fuel (n / 10) small) ∙ omega arith)))
]

-- A number is read back from its text.
pub read_digits-decimal : (n : ℕ) → read_digits 0 (decimal n) ≡ n
unfolding decimal
read_digits-decimal n = read_digits-digits (suc n) n (omega arith)

abbrev pub all_digits : String → Bool
all_digits String.[] = true
all_digits (String.◌∷◌ c s) = leb 48 (code c) && leb (code c) 57 && all_digits s

all_digits-append :
    (a b : String) → all_digits a ≡ true → all_digits b ≡ true → all_digits (append a b) ≡ true
all_digits-append String.[] b h k = rw nil-append k
all_digits-append (String.◌∷◌ c a) b h k = rw cons-append (ground (arith, all_digits-append a b))

all_digits-digit : (d : ℕ) → all_digits (digit d) ≡ true
unfolding digit
all_digits-digit zero = refl
all_digits-digit (suc zero) = refl
all_digits-digit (suc (suc zero)) = refl
all_digits-digit (suc (suc (suc zero))) = refl
all_digits-digit (suc (suc (suc (suc zero)))) = refl
all_digits-digit (suc (suc (suc (suc (suc zero))))) = refl
all_digits-digit (suc (suc (suc (suc (suc (suc zero)))))) = refl
all_digits-digit (suc (suc (suc (suc (suc (suc (suc zero))))))) = refl
all_digits-digit (suc (suc (suc (suc (suc (suc (suc (suc zero)))))))) = refl
all_digits-digit (suc (suc (suc (suc (suc (suc (suc (suc (suc d))))))))) = refl

all_digits-digits : (fuel n : ℕ) → all_digits (digits fuel n) ≡ true
unfolding digits
all_digits-digits zero n = refl
all_digits-digits (suc fuel) n = elim (Bool-cases (ltb n 10)) [
  | inl e ↦ rw e (all_digits-digit n)
  | inr e ↦ rw e (
      all_digits-append (digits fuel (n / 10)) (digit (n % 10)) (all_digits-digits fuel (n / 10))
        (all_digits-digit (n % 10)))
]

pub all_digits-decimal : (n : ℕ) → all_digits (decimal n) ≡ true
unfolding decimal
all_digits-decimal n = all_digits-digits (suc n) n

is_empty-append : (a b : String) → is_empty (append a b) ≡ (is_empty a && is_empty b)
is_empty-append String.[] b = rw nil-append refl
is_empty-append (String.◌∷◌ c a) b = rw cons-append refl

is_empty-digit : (d : ℕ) → is_empty (digit d) ≡ false
unfolding digit
is_empty-digit zero = refl
is_empty-digit (suc zero) = refl
is_empty-digit (suc (suc zero)) = refl
is_empty-digit (suc (suc (suc zero))) = refl
is_empty-digit (suc (suc (suc (suc zero)))) = refl
is_empty-digit (suc (suc (suc (suc (suc zero))))) = refl
is_empty-digit (suc (suc (suc (suc (suc (suc zero)))))) = refl
is_empty-digit (suc (suc (suc (suc (suc (suc (suc zero))))))) = refl
is_empty-digit (suc (suc (suc (suc (suc (suc (suc (suc zero)))))))) = refl
is_empty-digit (suc (suc (suc (suc (suc (suc (suc (suc (suc d))))))))) = refl

pub is_empty-decimal : (n : ℕ) → is_empty (decimal n) ≡ false
unfolding decimal digits
is_empty-decimal n = elim (Bool-cases (ltb n 10)) [
  | inl e ↦ rw e (is_empty-digit n)
  | inr e ↦ rw e (
      ground (arith, is_empty-append (digits n (n / 10)) (digit (n % 10)), is_empty-digit (n % 10)))
]
