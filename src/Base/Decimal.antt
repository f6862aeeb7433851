-- ===== src/Base/Decimal.antt =====
-- `%d` and `strconv.Itoa`, and `strconv.Atoi`, for 64-bit integers.
pub mod Laws
use linstor_gateway.Base.{
  ℕ, zero, suc, ◌+◌, ◌-◌, ◌*◌, ◌/◌, ◌%◌, ◌^◌, ◌<◌, ◌≡◌, refl, Bool, true, false, ◌&&◌, ◌||◌, [],
  ◌∷◌, Option, none, some, arith, ltb, leb, ◌==◌, if◌then◌else◌,
}
use linstor_gateway.Base.Int.{ℤ, pos, negsuc}
use linstor_gateway.Base.Text.{Text, skip_spaces, strip_prefix}

-- The digits in front of `out`. Twenty digits hold every 64-bit number.
unfoldable pub digits_onto : ℕ → ℕ → Text → Text
digits_onto zero n out = out
digits_onto (suc fuel) n out =
    let d = b'0' + n % 10 in
    let more = digits_onto fuel (n / 10) (d ∷ out) in if ltb n 10 then d ∷ out else more

abbrev pub max_digits : ℕ
max_digits = 20

unfoldable pub itoa : ℤ → Text
unfolding digits_onto
itoa (pos n) = digits_onto max_digits n []
itoa (negsuc n) = b'-' ∷ digits_onto max_digits (suc n) []

abbrev pub is_digit : ℕ → Bool
is_digit c = leb b'0' c && leb c b'9'

unfoldable pub read_digits : ℕ → Text → Option ℕ
read_digits n [] = some n
read_digits n (c ∷ s) =
    let rest = read_digits (n * 10 + (c - b'0')) s in if is_digit c then rest else none

abbrev unsigned : Text → Option ℕ
unsigned [] = none
unsigned (c ∷ s) = read_digits 0 (c ∷ s)

abbrev positive : Option ℕ → Option ℤ
positive none = none
positive (some n) = if ltb n (2 ^ 63) then some (pos n) else none

abbrev negative : Option ℕ → Option ℤ
negative none = none
negative (some zero) = some (pos 0)
negative (some (suc n)) = if ltb n (2 ^ 63) then some (negsuc n) else none

-- `none` is an error of `Atoi`: no digits, another byte, or out of the range of an `int`.
unfoldable pub atoi : Text → Option ℤ
unfolding read_digits
atoi [] = none
atoi (c ∷ s) =
    if c == b'-'
    then negative (unsigned s)
    else if c == b'+'
    then positive (unsigned s)
    else positive (unsigned (c ∷ s))

-- The scan `fmt.Sscanf(s, literal + "%d", &number)` of one line: the literal, spaces, a sign and the
-- digits up to another byte.
unfoldable pub take_digits : Text → Text
take_digits [] = []
take_digits (c ∷ s) = let rest = take_digits s in if is_digit c then c ∷ rest else []

unfoldable pub number_token : Text → Text
unfolding take_digits
number_token [] = []
number_token (c ∷ s) = if c == b'-' || c == b'+' then c ∷ take_digits s else take_digits (c ∷ s)

unfoldable pub scan_token : Option Text → Option ℤ
unfolding number_token
scan_token none = none
scan_token (some s) = atoi (number_token (skip_spaces s))

unfoldable pub scan_number : Text → Text → Option ℤ
unfolding scan_token
scan_number prefix s = scan_token (strip_prefix prefix s)

unfoldable pub passes_below : (ℕ → Bool) → ℕ → Bool
passes_below test zero = true
passes_below test (suc bound) = passes_below test bound && test bound

pub test-passes_below :
    (test : ℕ → Bool) (bound i : ℕ) → passes_below test bound ≡ true → i < bound → test i ≡ true
unfolding passes_below
test-passes_below test zero i all below = absurd (omega arith)
test-passes_below test (suc bound) i all below = ground (arith, test-passes_below test bound i)
