-- ===== src/Text/Decimal.antt =====
-- Decimal printing (`to_string` of an unsigned integer) and parsing (`str::parse`).
use ghaf_givc.Prelude.{
  ℕ, zero, suc, ◌+◌, ◌-◌, ◌*◌, ◌/◌, ◌%◌, ◌≤◌, ◌<◌, ◌≡◌, ◌≢◌, refl, ◌∙◌, Bool, true, false, ◌&&◌,
  Option, none, some, [], ◌∷◌, ◌++◌, ltb, leb, ◌==◌, nat_eq, if◌then◌else◌, arith, All, Bool-cases,
  inl, inr, ap,
}
use mathlib.Core.List.{append-nil, append_assoc, concat-ne-nil}
use ghaf_givc.Text.Defs.{Text}
use ghaf_givc.Text.Split.{Lacks}

abbrev pub is_digit : ℕ → Bool
is_digit c = leb b'0' c && leb c b'9'

unfoldable pub decimal_fuel : ℕ → ℕ → Text
decimal_fuel zero n = []
decimal_fuel (suc fuel) n =
    let high = decimal_fuel fuel (n / 10) in
    if ltb n 10 then (n + b'0') ∷ [] else high ++ (n % 10 + b'0') ∷ []

-- The fuel exceeds the number of digits.
unfoldable pub decimal : ℕ → Text
unfolding decimal_fuel
decimal n = decimal_fuel (suc n) n

-- The digits behind `acc`; every partial value must stay within `max`.
unfoldable pub parse_digits : ℕ → ℕ → Text → Option ℕ
parse_digits max acc [] = some acc
parse_digits max acc (c ∷ s) =
    let value = acc * 10 + (c - b'0') in
    let rest = parse_digits max value s in if is_digit c && leb value max then rest else none

-- Digits, at least one.
unfoldable pub parse_number : ℕ → Text → Option ℕ
unfolding parse_digits
parse_number max [] = none
parse_number max (c ∷ s) = parse_digits max 0 (c ∷ s)

-- `parse::<u16>` and `parse::<u32>`: a leading `+` is allowed.
unfoldable pub parse_unsigned : ℕ → Text → Option ℕ
unfolding parse_number
parse_unsigned max [] = none
parse_unsigned max (c ∷ s) = if c == b'+' then parse_number max s else parse_number max (c ∷ s)

abbrev pub u16_max : ℕ
u16_max = 0xffff

abbrev pub u32_max : ℕ
u32_max = 0xffff_ffff

-- Every character is a digit.
abbrev pub AllDigits : Text → Type 0
AllDigits s = All (λ c. is_digit c ≡ true) s

AllDigits-append : (s t : Text) → AllDigits s → AllDigits t → AllDigits (s ++ t)
AllDigits-append [] t h k = k
AllDigits-append (c ∷ s) t h k = (h.0, AllDigits-append s t h.1 k)

decimal_fuel-AllDigits : (fuel n : ℕ) → AllDigits (decimal_fuel fuel n)
unfolding decimal_fuel
decimal_fuel-AllDigits zero n = tt
decimal_fuel-AllDigits (suc fuel) n = elim (Bool-cases (ltb n 10)) [
  | inl small ↦ rw small (ground arith, tt)
  | inr large ↦
      rw large (AllDigits-append _ _ (decimal_fuel-AllDigits fuel (n / 10)) (ground arith, tt))
]

pub decimal-AllDigits : (n : ℕ) → AllDigits (decimal n)
unfolding decimal
decimal-AllDigits n = decimal_fuel-AllDigits (suc n) n

-- The last digit is read back.
parse_digits_last :
    (max n : ℕ) (t : Text)
    → n ≤ max
    → parse_digits max (n / 10) ((n % 10 + b'0') ∷ t) ≡ parse_digits max n t
unfolding parse_digits
parse_digits_last max n t k =
    let e : n / 10 * 10 + (n % 10 + b'0' - b'0') ≡ n = omega arith in rw e (ground arith)

parse_digits-decimal_fuel :
    (max fuel n : ℕ) (t : Text)
    → n < fuel
    → n ≤ max
    → parse_digits max 0 (decimal_fuel fuel n ++ t) ≡ parse_digits max n t
unfolding parse_digits decimal_fuel
parse_digits-decimal_fuel max zero n t h k = absurd (omega arith)
parse_digits-decimal_fuel max (suc fuel) n t h k = elim (Bool-cases (ltb n 10)) [
  | inl small ↦ rw small (ground arith)
  | inr large ↦ rw large (
      rw append_assoc (
        parse_digits-decimal_fuel max fuel (n / 10) _ (ground arith) (omega arith)
        ∙ parse_digits_last max n t k))
]

decimal_fuel-ne-nil : (fuel n : ℕ) → n < fuel → decimal_fuel fuel n ≢ []
unfolding decimal_fuel
decimal_fuel-ne-nil zero n h = elim h [ ]
decimal_fuel-ne-nil (suc fuel) n h = elim (Bool-cases (ltb n 10)) [
  | inl small ↦ rw small (λ e. cc)
  | inr large ↦ rw large (λ e. concat-ne-nil _ (decimal_fuel fuel (n / 10)) e)
]

parse_unsigned_digits :
    (max : ℕ) (s : Text) → AllDigits s → s ≢ [] → parse_unsigned max s ≡ parse_digits max 0 s
unfolding parse_unsigned parse_number
parse_unsigned_digits max [] h k = absurd (k refl)
parse_unsigned_digits max (c ∷ s) h k = ground arith

-- A number within the range is read back from its digits.
pub parse_unsigned-decimal : (max n : ℕ) → n ≤ max → parse_unsigned max (decimal n) ≡ some n
unfolding decimal parse_digits
parse_unsigned-decimal max n h =
    parse_unsigned_digits max _ (decimal_fuel-AllDigits (suc n) n)
      (decimal_fuel-ne-nil (suc n) n (omega arith))
    ∙ rw (← append-nil (decimal_fuel (suc n) n))
        (parse_digits-decimal_fuel max (suc n) n [] (omega arith) h)

-- The number that a text of digits stands for is found again.
pub decimal_injective : (m n : ℕ) → decimal m ≡ decimal n → m ≡ n
decimal_injective m n e =
    cc (
      parse_unsigned-decimal (m + n) m (omega arith),
      parse_unsigned-decimal (m + n) n (omega arith),
    )

AllDigits-Lacks : (sep : ℕ) (s : Text) → is_digit sep ≡ false → AllDigits s → Lacks sep s
AllDigits-Lacks sep [] k h = tt
AllDigits-Lacks sep (c ∷ s) k h = ((λ e. cc (h.0, ap is_digit e)), AllDigits-Lacks sep s k h.1)

pub decimal-Lacks : (sep n : ℕ) → is_digit sep ≡ false → Lacks sep (decimal n)
decimal-Lacks sep n k = AllDigits-Lacks sep _ k (decimal-AllDigits n)

-- `parse::<i32>`: a sign, then digits; the negative range is one longer.
pub data ℤ : Type 0 where
  pos : ℕ → ℤ
  negsuc : ℕ → ℤ

abbrev pub i32_max : ℕ
i32_max = 0x7fff_ffff

abbrev negate : ℕ → ℤ
negate zero = pos 0
negate (suc n) = negsuc n

abbrev pub map_option : {A B : Type 0} → (A → B) → Option A → Option B
map_option f none = none
map_option f (some a) = some (f a)

unfoldable pub parse_i32 : Text → Option ℤ
unfolding parse_number parse_unsigned
parse_i32 [] = none
parse_i32 (c ∷ s) =
    if c == b'-'
    then map_option negate (parse_number (i32_max + 1) s)
    else map_option pos (parse_unsigned i32_max (c ∷ s))

parse_i32_digits :
    (s : Text) → AllDigits s → s ≢ [] → parse_i32 s ≡ map_option pos (parse_unsigned i32_max s)
unfolding parse_i32
parse_i32_digits [] h k = absurd (k refl)
parse_i32_digits (c ∷ s) h k = ground arith

pub parse_i32-decimal : (n : ℕ) → n ≤ i32_max → parse_i32 (decimal n) ≡ some (pos n)
unfolding decimal
parse_i32-decimal n h =
    parse_i32_digits _ (decimal_fuel-AllDigits (suc n) n)
      (decimal_fuel-ne-nil (suc n) n (omega arith))
    ∙ ap (map_option pos) (parse_unsigned-decimal i32_max n h)
