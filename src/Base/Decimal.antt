-- ===== src/Base/Decimal.antt =====
-- strconv.Itoa and strconv.Atoi for 64-bit integers.
use Prim.Native.Nat.{ℕ, zero, suc, ◌+◌, ◌-◌, ◌*◌, ◌/◌, ◌%◌, ◌^◌, ◌≤◌, ◌<◌}
use mathlib.Core.Path.{◌≡◌}
use mathlib.Core.Logic.{inl, inr}
use mathlib.Core.Bool.{Bool, true, false, ◌&&◌}
use mathlib.Core.Option.{Option, none, some}
use mathlib.Core.List.{[], ◌∷◌}
use native.Mathlib.Omega.{arith}
use gnomock.Base.Tests.{ltb, leb, ◌==◌, if◌then◌else◌, Bool-cases}
use gnomock.Base.Int.{ℤ, pos, negsuc, pos_part, neg_part, sign_of}
use gnomock.Base.Strings.{Text}
use gnomock.Base.{contains_byte, refl}

-- The digits of `n` in front of `rest`.
digits_onto : ℕ → ℕ → Text → Text
digits_onto zero n rest = rest
digits_onto (suc fuel) n rest =
    let more = digits_onto fuel (n / 10) ((48 + n % 10) ∷ rest) in
    if ltb n 10 then (48 + n) ∷ rest else more

unfoldable pub digits : ℕ → Text
unfolding digits_onto
digits n = digits_onto (suc n) n []

unfoldable pub itoa : ℤ → Text
itoa (pos n) = digits n
itoa (negsuc n) = b'-' ∷ digits (suc n)

digits_value : ℕ → Text → Option ℕ
digits_value n [] = some n
digits_value n (c ∷ s) = if leb 48 c && leb c 57 then digits_value (n * 10 + (c - 48)) s else none

-- The sizes that an int64 of the given sign can have.
in_range : Bool → ℕ → Bool
in_range true n = leb n (2 ^ 63)
in_range false n = ltb n (2 ^ 63)

unsigned : Bool → Text → Option ℤ
unfolding in_range digits_value sign_of
unsigned negative [] = none
unsigned negative (c ∷ s) = elim (digits_value 0 (c ∷ s)) [
  | none ↦ none
  | some n ↦ if in_range negative n then some (sign_of negative n) else none
]

-- `none` stands for a *NumError.
unfoldable pub atoi : Text → Option ℤ
unfolding unsigned
atoi [] = none
atoi (c ∷ s) =
    if c == b'-'
    then unsigned true s
    else if c == b'+'
    then unsigned false s
    else unsigned false (c ∷ s)

digits_value-digits_onto :
    (fuel n : ℕ) (rest : Text)
    → n < fuel
    → digits_value 0 (digits_onto fuel n rest) ≡ digits_value n rest
unfolding digits_value digits_onto
digits_value-digits_onto zero n rest h = elim h [ ]
digits_value-digits_onto (suc fuel) n rest h =
    ground (arith, digits_value-digits_onto fuel (n / 10) ((48 + n % 10) ∷ rest))

-- The first byte of the digits is a digit.
digits_onto-cons :
    (fuel n : ℕ) (rest : Text)
    → n < fuel
    → (c : ℕ) × (s : Text) × (digits_onto fuel n rest ≡ c ∷ s) × (48 ≤ c)
unfolding digits_onto
digits_onto-cons zero n rest h = elim h [ ]
digits_onto-cons (suc fuel) n rest h = elim (Bool-cases (ltb n 10)) [
  | inl small ↦ (48 + n, rest, ground arith, omega arith)
  | inr big ↦
      let (c, s, e, le) = digits_onto-cons fuel (n / 10) ((48 + n % 10) ∷ rest) (ground arith) in
      (c, s, ground arith, le)
]

contains_byte-digits_onto :
    (b fuel n : ℕ) (rest : Text)
    → b < 48
    → contains_byte b rest ≡ false
    → contains_byte b (digits_onto fuel n rest) ≡ false
unfolding contains_byte digits_onto
contains_byte-digits_onto b zero n rest h e = e
contains_byte-digits_onto b (suc fuel) n rest h e =
    ground (arith, contains_byte-digits_onto b fuel (n / 10) ((48 + n % 10) ∷ rest) h)

-- A byte below the digits is not among them.
pub contains_byte-digits : (b n : ℕ) → b < 48 → contains_byte b (digits n) ≡ false
unfolding digits contains_byte
contains_byte-digits b n h = contains_byte-digits_onto b (suc n) n [] h refl

-- A 64-bit integer.
abbrev pub IsInt64 : ℤ → Type 0
IsInt64 n = (pos_part n < 2 ^ 63) × (neg_part n ≤ 2 ^ 63)

pub atoi-digits : (n : ℕ) → n < 2 ^ 63 → atoi (digits n) ≡ some (pos n)
unfolding atoi digits
atoi-digits n h =
    let (c, s, e, le) = digits_onto-cons (suc n) n [] (omega arith) in
    ground (arith, digits_value-digits_onto (suc n) n [])

unsigned-digits : (n : ℕ) → suc n ≤ 2 ^ 63 → unsigned true (digits (suc n)) ≡ some (negsuc n)
unfolding unsigned digits
unsigned-digits n h =
    let (c, s, e, le) = digits_onto-cons (suc (suc n)) (suc n) [] (omega arith) in
    ground (arith, digits_value-digits_onto (suc (suc n)) (suc n) [])

-- Reading back what was printed gives the number, over all 64-bit integers.
pub atoi-itoa : (n : ℤ) → IsInt64 n → atoi (itoa n) ≡ some n
unfolding itoa atoi
atoi-itoa (pos n) h = atoi-digits n h.0
atoi-itoa (negsuc n) h = unsigned-digits n h.1
