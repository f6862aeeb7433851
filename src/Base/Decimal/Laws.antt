-- ===== src/Base/Decimal/Laws.antt =====
-- What is printed with `%d` is read back.
use linstor_gateway.Base.{
  ℕ, zero, suc, ◌+◌, ◌-◌, ◌*◌, ◌/◌, ◌%◌, ◌^◌, ◌<◌, ◌≡◌, refl, ap, ◌∙◌, Bool, true, false, [], ◌∷◌,
  ◌++◌, some, arith, ltb, ◌==◌, inl, inr, Bool-cases,
}
use linstor_gateway.Base.Int.{pos}
use linstor_gateway.Base.Lists.{all}
use linstor_gateway.Base.Text.{is_space, Text, strip_prefix}
use linstor_gateway.Base.Decimal.{
  digits_onto, max_digits, itoa, read_digits, is_digit, atoi, take_digits, number_token, scan_token,
  scan_number,
}

abbrev power_of_ten : ℕ → ℕ
power_of_ten zero = 1
power_of_ten (suc n) = 10 * power_of_ten n

read_digit :
    (a n : ℕ) (out : Text)
    → read_digits a ((b'0' + n % 10) ∷ out) ≡ read_digits (a * 10 + n % 10) out
unfolding read_digits
read_digit a n out =
    let t : is_digit (b'0' + n % 10) ≡ true = ground arith in
    let e : b'0' + n % 10 - b'0' ≡ n % 10 = omega arith in rw (t, e) refl

read_digits-digits_onto :
    (fuel n : ℕ) (out : Text)
    → n < power_of_ten fuel
    → read_digits 0 (digits_onto fuel n out) ≡ read_digits n out
unfolding digits_onto
read_digits-digits_onto zero n out h = ap (λ (k : ℕ). read_digits k out) (omega arith)
read_digits-digits_onto (suc fuel) n out h = elim (Bool-cases (ltb n 10)) [
  | inl e ↦ rw e (read_digit 0 n out ∙ ap (λ (k : ℕ). read_digits k out) (ground arith))
  | inr e ↦ rw e (
      read_digits-digits_onto fuel (n / 10) ((b'0' + n % 10) ∷ out) (ground arith)
      ∙ read_digit (n / 10) n out
      ∙ ap (λ (k : ℕ). read_digits k out) (omega arith))
]

-- A text that begins with a digit.
abbrev pub starts_digit : Text → Bool
starts_digit [] = false
starts_digit (c ∷ s) = is_digit c

digits_onto_start :
    (fuel n : ℕ) (out : Text)
    → starts_digit out ≡ true
    → starts_digit (digits_onto fuel n out) ≡ true
unfolding digits_onto
digits_onto_start zero n out h = h
digits_onto_start (suc fuel) n out h =
    let t : is_digit (b'0' + n % 10) ≡ true = ground arith in
    elim (Bool-cases (ltb n 10)) [
      | inl e ↦ rw e t
      | inr e ↦ rw e (digits_onto_start fuel (n / 10) ((b'0' + n % 10) ∷ out) t)
    ]

pub itoa_start : (n : ℕ) → starts_digit (itoa (pos n)) ≡ true
unfolding itoa digits_onto
itoa_start n =
    let t : is_digit (b'0' + n % 10) ≡ true = ground arith in
    elim (Bool-cases (ltb n 10)) [
      | inl e ↦ rw e t
      | inr e ↦ rw e (digits_onto_start 19 (n / 10) ((b'0' + n % 10) ∷ []) t)
    ]

digits_onto-all :
    (fuel n : ℕ) (out : Text)
    → all is_digit out ≡ true
    → all is_digit (digits_onto fuel n out) ≡ true
unfolding digits_onto
digits_onto-all zero n out h = h
digits_onto-all (suc fuel) n out h =
    let t : is_digit (b'0' + n % 10) ≡ true = ground arith in
    let more : all is_digit ((b'0' + n % 10) ∷ out) ≡ true = rw t h in
    elim (Bool-cases (ltb n 10)) [
      | inl e ↦ rw e more
      | inr e ↦ rw e (digits_onto-all fuel (n / 10) ((b'0' + n % 10) ∷ out) more)
    ]

pub itoa_digits : (n : ℕ) → all is_digit (itoa (pos n)) ≡ true
unfolding itoa
itoa_digits n = digits_onto-all max_digits n [] refl

read_digits-itoa : (n : ℕ) → n < 2 ^ 63 → read_digits 0 (itoa (pos n)) ≡ some n
unfolding itoa
read_digits-itoa n h =
    read_digits-digits_onto max_digits n [] (omega arith) ∙ unfold read_digits in refl

atoi_of_digits :
    (s : Text) (n : ℕ)
    → starts_digit s ≡ true
    → read_digits 0 s ≡ some n
    → n < 2 ^ 63
    → atoi s ≡ some (pos n)
unfolding atoi
atoi_of_digits [] n d e h = cc
atoi_of_digits (c ∷ s) n d e h =
    let m : (c == b'-') ≡ false = ground arith in
    let p : (c == b'+') ≡ false = ground arith in
    let l : ltb n (2 ^ 63) ≡ true = ground arith in rw (m, p) (rw e (rw l refl))

-- A number that an `int` can hold is read back.
pub atoi-itoa : (n : ℕ) → n < 2 ^ 63 → atoi (itoa (pos n)) ≡ some (pos n)
atoi-itoa n h = atoi_of_digits (itoa (pos n)) n (itoa_start n) (read_digits-itoa n h) h

take_all_digits : (s : Text) → all is_digit s ≡ true → take_digits s ≡ s
unfolding take_digits
take_all_digits [] h = refl
take_all_digits (c ∷ s) h =
    let t : is_digit c ≡ true = ground arith in rw t (ap (◌∷◌ c) (take_all_digits s (ground arith)))

scan_token_digits :
    (s : Text) → starts_digit s ≡ true → all is_digit s ≡ true → scan_token (some s) ≡ atoi s
unfolding scan_token number_token
scan_token_digits [] d h = cc
scan_token_digits (c ∷ s) d h =
    let a : is_space c ≡ false = ground arith in
    let m : (c == b'-') ≡ false = ground arith in
    let p : (c == b'+') ≡ false = ground arith in
    rw a (rw (m, p) (ap atoi (take_all_digits (c ∷ s) h)))

-- The scan reads back the number behind its literal.
pub scan_number-itoa :
    (prefix : Text) (n : ℕ)
    → strip_prefix prefix (prefix ++ itoa (pos n)) ≡ some (itoa (pos n))
    → n < 2 ^ 63
    → scan_number prefix (prefix ++ itoa (pos n)) ≡ some (pos n)
unfolding scan_number
scan_number-itoa prefix n e h =
    rw e (scan_token_digits (itoa (pos n)) (itoa_start n) (itoa_digits n) ∙ atoi-itoa n h)
