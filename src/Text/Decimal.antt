-- ===== src/Text/Decimal.antt =====
-- Decimal integers: `strconv.Itoa` (also `%d`) and `strconv.Atoi`, for an `int` of 64 bits.
use tool_public_ubo.Base.{
  ℕ, zero, suc, ◌+◌, ◌-◌, ◌*◌, ◌/◌, ◌%◌, ◌≤◌, ◌≡◌, ◌≢◌, refl, sym, ◌∙◌, Bool, true, false, Option,
  none, some, [], ◌∷◌, arith, ltb, ◌==◌, if◌then◌else◌, within, All, Bool-cases, ◌⊎◌, inl, inr,
  ltb→lt,
}
use mathlib.Core.Path.{subst}
use mathlib.Core.Option.{some-injective, some-ne-none}
use tool_public_ubo.Base.Int.{ℤ, pos, negsuc, int_limit, IsInt}
use tool_public_ubo.Text.Compare.{Bytes, codes}

-- The digits of `n` in front of `out`; `fuel` rounds at most.
digits : ℕ → ℕ → Bytes → Bytes
digits zero n out = out
digits (suc fuel) n out =
    let rest = digits fuel (n / 10) ((b'0' + n % 10) ∷ out) in if n == 0 then out else rest

-- A number has no more digits than its value.
unfoldable pub show_ℕ : ℕ → Bytes
unfolding digits
show_ℕ n = if n == 0 then b'0' ∷ [] else digits n n []

unfoldable pub itoa : ℤ → Bytes
unfolding show_ℕ
itoa (pos n) = show_ℕ n
itoa (negsuc n) = b'-' ∷ show_ℕ (suc n)

-- The number that digits spell behind `n`, if all are digits.
read_from : ℕ → Bytes → Option ℕ
read_from n [] = some n
read_from n (c ∷ s) =
    let rest = read_from (n * 10 + (c - b'0')) s in if within b'0' b'9' c then rest else none

-- At least one digit.
unfoldable pub read_ℕ : Bytes → Option ℕ
unfolding read_from
read_ℕ [] = none
read_ℕ (c ∷ s) = read_from 0 (c ∷ s)

-- The range check of `ParseInt`.
unfoldable pub in_range : Bool → Option ℕ → Option ℤ
in_range negative none = none
in_range false (some n) = if ltb n int_limit then some (pos n) else none
in_range true (some zero) = some (pos zero)
in_range true (some (suc n)) = if ltb n int_limit then some (negsuc n) else none

unfoldable pub atoi : Bytes → Option ℤ
unfolding read_ℕ in_range
atoi [] = none
atoi (c ∷ s) =
    if c == b'-'
    then in_range true (read_ℕ s)
    else if c == b'+'
    then in_range false (read_ℕ s)
    else in_range false (read_ℕ (c ∷ s))

read_digit : (n : ℕ) (out : Bytes) → read_from (n / 10) ((b'0' + n % 10) ∷ out) ≡ read_from n out
unfolding read_from
read_digit n out = ground arith

read-digits :
    (fuel n : ℕ) (out : Bytes) → n ≤ fuel → read_from 0 (digits fuel n out) ≡ read_from n out
unfolding digits
read-digits zero n out h = let e : n ≡ 0 = omega arith in rw e
read-digits (suc fuel) n out h =
    ground (arith, read-digits fuel (n / 10) ((b'0' + n % 10) ∷ out), read_digit n out)

abbrev pub IsDigit : ℕ → Type 0
IsDigit c = (b'0' ≤ c) × (c ≤ b'9')

digits-IsDigit : (fuel n : ℕ) (out : Bytes) → All IsDigit out → All IsDigit (digits fuel n out)
unfolding digits
digits-IsDigit zero n out h = h
digits-IsDigit (suc fuel) n out h =
    ground (arith, digits-IsDigit fuel (n / 10) ((b'0' + n % 10) ∷ out))

digits-ne-nil : (fuel n : ℕ) (c : ℕ) (out : Bytes) → digits fuel n (c ∷ out) ≢ []
unfolding digits
digits-ne-nil zero n c out = cc
digits-ne-nil (suc fuel) n c out =
    ground (arith, digits-ne-nil fuel (n / 10) (b'0' + n % 10) (c ∷ out))

show_ℕ-digits : (n : ℕ) → show_ℕ (suc n) ≡ digits (suc n) (suc n) []
unfolding show_ℕ
show_ℕ-digits n = ground arith

show_ℕ-suc : (n : ℕ) → show_ℕ (suc n) ≡ digits n (suc n / 10) ((b'0' + suc n % 10) ∷ [])
unfolding show_ℕ
show_ℕ-suc n = ground arith

pub show_ℕ-ne-nil : (n : ℕ) → show_ℕ n ≢ []
show_ℕ-ne-nil zero = unfold show_ℕ in cc
show_ℕ-ne-nil (suc n) = rw show_ℕ-suc (digits-ne-nil n (suc n / 10) (b'0' + suc n % 10) [])

pub show_ℕ-IsDigit : (n : ℕ) → All IsDigit (show_ℕ n)
show_ℕ-IsDigit zero = unfold show_ℕ in omega arith
show_ℕ-IsDigit (suc n) = rw show_ℕ-digits (digits-IsDigit (suc n) (suc n) [] tt)

read_ℕ-from : (s : Bytes) → s ≢ [] → read_ℕ s ≡ read_from 0 s
unfolding read_ℕ
read_ℕ-from [] h = absurd (h refl)
read_ℕ-from (c ∷ s) h = refl

read_from-show_ℕ : (n : ℕ) → read_from 0 (show_ℕ n) ≡ some n
read_from-show_ℕ zero = unfold show_ℕ read_from in refl
read_from-show_ℕ (suc n) =
    rw show_ℕ-digits (read-digits (suc n) (suc n) [] (omega arith) ∙ unfold read_from in refl)

-- A number is read back from its decimal print.
pub read-show : (n : ℕ) → read_ℕ (show_ℕ n) ≡ some n
read-show n = read_ℕ-from (show_ℕ n) (show_ℕ-ne-nil n) ∙ read_from-show_ℕ n

atoi-digit : (c : ℕ) (s : Bytes) → IsDigit c → atoi (c ∷ s) ≡ in_range false (read_ℕ (c ∷ s))
unfolding atoi
atoi-digit c s h = ground arith

atoi-IsDigit : (s : Bytes) → All IsDigit s → s ≢ [] → atoi s ≡ in_range false (read_ℕ s)
atoi-IsDigit [] h ne = absurd (ne refl)
atoi-IsDigit (c ∷ s) h ne = atoi-digit c s h.0

atoi-minus : (s : Bytes) → atoi (b'-' ∷ s) ≡ in_range true (read_ℕ s)
unfolding atoi
atoi-minus s = refl

-- An `int` is read back from its decimal print.
pub atoi-itoa : (i : ℤ) → IsInt i → atoi (itoa i) ≡ some i
unfolding itoa
atoi-itoa (pos n) h =
    atoi-IsDigit (show_ℕ n) (show_ℕ-IsDigit n) (show_ℕ-ne-nil n)
    ∙ rw (read-show n) (unfold in_range in ground arith)
atoi-itoa (negsuc n) h =
    atoi-minus (show_ℕ (suc n)) ∙ rw (read-show (suc n)) (unfold in_range in ground arith)

in_range-IsInt : (b : Bool) (o : Option ℕ) {i : ℤ} → in_range b o ≡ some i → IsInt i
unfolding in_range
in_range-IsInt b none h = cc
in_range-IsInt false (some n) {i} h = elim (Bool-cases (ltb n int_limit)) [
  | inl small ↦ subst IsInt (some-injective _ _ (rw small at h)) (ltb→lt n int_limit small)
  | inr large ↦ absurd (some-ne-none _ (sym (rw large at h)))
]
in_range-IsInt true (some zero) h = subst IsInt (some-injective _ _ h) (omega arith)
in_range-IsInt true (some (suc n)) h = elim (Bool-cases (ltb n int_limit)) [
  | inl small ↦ subst IsInt (some-injective _ _ (rw small at h)) (ltb→lt n int_limit small)
  | inr large ↦ absurd (some-ne-none _ (sym (rw large at h)))
]

atoi-in_range :
    (s : Bytes) → (atoi s ≡ none) ⊎ ((b : Bool) × (o : Option ℕ) × (atoi s ≡ in_range b o))
unfolding atoi
atoi-in_range [] = inl refl
atoi-in_range (c ∷ s) = elim (Bool-cases (c == b'-')) [
  | inl minus ↦ inr (true, read_ℕ s, rw minus)
  | inr m ↦ elim (Bool-cases (c == b'+')) [
    | inl plus ↦ inr (false, read_ℕ s, rw (m, plus))
    | inr p ↦ inr (false, read_ℕ (c ∷ s), rw (m, p))
  ]
]

-- `Atoi` returns a value that an `int` holds: nothing wraps around.
pub atoi-IsInt : (s : Bytes) {i : ℤ} → atoi s ≡ some i → IsInt i
atoi-IsInt s h = elim (atoi-in_range s) [
  | inl e ↦ absurd (some-ne-none _ (sym h ∙ e))
  | inr (b, o, e) ↦ in_range-IsInt b o (sym e ∙ h)
]

itoa_test : itoa (negsuc 1233) ≡ codes "-1234"
unfolding itoa
itoa_test = refl

atoi_test : atoi (codes "+0042") ≡ some (pos 42)
unfolding atoi
atoi_test = refl

atoi_overflow : atoi (codes "9223372036854775808") ≡ none
unfolding atoi
atoi_overflow = refl
