-- ===== src/Values.antt =====
-- The values that the fields of the toolkit give, and how JavaScript compares two of them with `==`, as
-- `f_sendConfFormCommand` of src/client/Vyatta/utils/vyatta-cli-command.js and
-- `f_handleConfFieldOffFocus` of src/client/Vyatta/js/vyatta-panels.js do. A field for a number gives a
-- number, which is natural since the fields allow neither a sign nor decimals, or an empty text. A text
-- is converted to a number exactly, without the rounding of numbers above 2 ^ 53; a text of anything but
-- a natural number equals none of these.
use Prim.Native.Nat.{◌/◌, ◌%◌, ◌^◌}
use vyatta_webgui.Base.{
  ℕ, zero, suc, ◌+◌, ◌-◌, ◌*◌, ◌≡◌, refl, Bool, true, false, ◌&&◌, ◌||◌, Option, none, some, [],
  ◌∷◌, leb, ◌==◌, if◌then◌else◌, length, ==_refl,
}
use vyatta_webgui.Text.{Text, text_eq, codes}
use vyatta_webgui.Text.Equality.{text_eq_refl}
use vyatta_webgui.Cookies.{skip_spaces}

pub data Value : Type 0 where
  text : Text → Value
  number : ℕ → Value

abbrev pub digit : ℕ → Option ℕ
digit c = if leb 48 c && leb c 57 then some (c - 48) else none

-- A digit to the base sixteen.
abbrev pub hex_digit : ℕ → Option ℕ
hex_digit c =
    if leb 48 c && leb c 57
    then some (c - 48)
    else if leb 97 c && leb c 102
    then some (c - 87)
    else if leb 65 c && leb c 70
    then some (c - 55)
    else none

-- The digits at the beginning of a text: how many there are, the number that they continue, and the
-- rest.
pub record Digits : Type 0 where
  pub many : ℕ
  pub value : ℕ
  pub rest : Text

unfoldable pub read_digits : ℕ → (ℕ → Option ℕ) → ℕ → ℕ → Text → Digits
read_digits base of_char many n [] = record { many = many; value = n; rest = [] }
read_digits base of_char many n (c ∷ s) = elim (of_char c) [
  | none ↦ record { many = many; value = n; rest = c ∷ s }
  | some d ↦ read_digits base of_char (suc many) (base * n + d) s
]

abbrev pub at_end : Text → ℕ → Option ℕ
at_end s n = if length (skip_spaces s) == 0 then some n else none

-- `m * 10 ^ (up - down)`, where that is a natural number.
abbrev pub scaled : ℕ → (up down : ℕ) → Option ℕ
scaled m up down =
    if leb down up
    then some (m * 10 ^ (up - down))
    else if m % 10 ^ (down - up) == 0
    then some (m / 10 ^ (down - up))
    else none

abbrev pub at_end_scaled : ℕ → (up down : ℕ) → Text → Option ℕ
at_end_scaled m up down s = if length (skip_spaces s) == 0 then scaled m up down else none

-- The exponent after its `e`, with its sign, for a number with `down` decimals.
unfoldable pub after_e : ℕ → ℕ → Text → Option ℕ
after_e m down s =
    let negative : Bool = elim s [ [] ↦ false | c ∷ _ ↦ c == 45 ] in
    let signed : Bool = elim s [ [] ↦ false | c ∷ _ ↦ c == 43 || c == 45 ] in
    let e = read_digits 10 digit 0 0 (if signed then (elim s [ [] ↦ [] | _ ∷ r ↦ r ]) else s) in
    if e.many == 0
    then none
    else if negative
    then at_end_scaled m 0 (down + e.value) e.rest
    else at_end_scaled m e.value down e.rest

-- What follows the digits of a decimal number.
unfoldable pub exponent : ℕ → ℕ → Text → Option ℕ
exponent m down [] = scaled m 0 down
exponent m down (c ∷ s) =
    if c == 101 || c == 69 then after_e m down s else at_end_scaled m 0 down (c ∷ s)

unfoldable pub decimals : Digits → Text → Option ℕ
decimals whole [] = if whole.many == 0 then none else some whole.value
decimals whole (c ∷ s) =
    if c == 46
    then (let all_digits = read_digits 10 digit whole.many whole.value s in
        if all_digits.many == 0
        then none
        else exponent all_digits.value (all_digits.many - whole.many) all_digits.rest)
    else if whole.many == 0
    then none
    else exponent whole.value 0 (c ∷ s)

unfoldable pub decimal : Text → Option ℕ
decimal s = let whole = read_digits 10 digit 0 0 s in decimals whole whole.rest

-- A number without a sign, decimal or with a prefix for another base.
unfoldable pub prefixed : Text → Option ℕ
prefixed (c ∷ (x ∷ s)) =
    let based : ℕ → (ℕ → Option ℕ) → Option ℕ = λ base of_char.
      let r = read_digits base of_char 0 0 s in
      if r.many == 0 then none else at_end r.rest r.value in
    if c == 48 && (x == 120 || x == 88) then based 16 hex_digit else decimal (c ∷ (x ∷ s))
prefixed (c ∷ []) = decimal (c ∷ [])
prefixed [] = some 0

-- The text as a natural number, where it is one; one that is empty is zero.
unfoldable pub trimmed_number : Text → Option ℕ
trimmed_number [] = some 0
trimmed_number (c ∷ s) =
    if c == 43
    then decimal s
    else if c == 45
    then elim (decimal s) [ none ↦ none | some zero ↦ some 0 | some (suc n) ↦ none ]
    else prefixed (c ∷ s)

unfoldable pub to_number : Text → Option ℕ
to_number s = trimmed_number (skip_spaces s)

abbrev pub is_number : Option ℕ → ℕ → Bool
is_number none n = false
is_number (some m) n = m == n

-- `a == b`
unfoldable pub loosely_equal : Value → Value → Bool
loosely_equal (text s) (text t) = text_eq s t
loosely_equal (text s) (number n) = is_number (to_number s) n
loosely_equal (number m) (text t) = is_number (to_number t) m
loosely_equal (number m) (number n) = m == n

pub loosely_equal_refl : (v : Value) → loosely_equal v v ≡ true
unfolding loosely_equal
loosely_equal_refl (text s) = text_eq_refl s
loosely_equal_refl (number n) = ==_refl n

-- The digits of a number, the last first, with as many rounds as it is big.
unfoldable pub digits_from : ℕ → ℕ → Text → Text
digits_from zero n s = s
digits_from (suc fuel) n s =
    let more = digits_from fuel (n / 10) ((48 + n % 10) ∷ s) in
    if n / 10 == 0 then (48 + n % 10) ∷ s else more

-- A value as it is put in a text: a number in decimal digits.
unfoldable pub shown : Value → Text
shown (text s) = s
shown (number n) = digits_from (suc n) n []

zero_equals_blank : loosely_equal (text []) (number 0) ≡ true
unfolding loosely_equal to_number trimmed_number skip_spaces
zero_equals_blank = refl

spaced_hex : to_number (codes " 0x1F ") ≡ some 31
unfolding to_number trimmed_number skip_spaces prefixed read_digits
spaced_hex = refl

with_exponent : to_number (codes "12.50e1") ≡ some 125
unfolding to_number trimmed_number skip_spaces prefixed read_digits decimal decimals exponent
    after_e
with_exponent = refl

digits_of_number : shown (number 9000) ≡ codes "9000"
unfolding shown digits_from
digits_of_number = refl
