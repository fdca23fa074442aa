-- ===== src/Barcodes.antt =====
-- EAN-13 barcodes, src/modules/admin-barcodes/admin-barcodes.ean13.ts. A string is the list of its
-- UTF-16 code units.
pub mod CheckDigit
pub mod Mint
use achichiz_back_end.Prelude.{
  Bool, List, Result, [], err, false, get_or, if◌then◌else◌, leb, length, ltb, ok, suc, take, true,
  ℕ, ◌%◌, ◌&&◌, ◌*◌, ◌++◌, ◌+◌, ◌-◌, ◌==◌, ◌>>=◌, ◌∷◌,
}

abbrev pub ean13_length : ℕ
ean13_length = 13

abbrev pub payload_length : ℕ
payload_length = 12

-- `\d`.
abbrev pub is_digit : ℕ → Bool
is_digit u = leb 48 u && leb u 57

abbrev pub all_digits : List ℕ → Bool
all_digits [] = true
all_digits (u ∷ us) = is_digit u && all_digits us

-- `DIGITS_ONLY.test(text)`.
abbrev pub digits_only : List ℕ → Bool
digits_only text = ltb 0 (length text) && all_digits text

-- `Number(c)` of a digit.
abbrev pub number_of : ℕ → ℕ
number_of u = u - 48

-- The weight of the position `i`.
abbrev pub weight : ℕ → ℕ
weight i = if i % 2 == 0 then 1 else 3

-- The loop, from position `i` on.
unfoldable pub sum_from : ℕ → List ℕ → ℕ
sum_from i [] = 0
sum_from i (u ∷ us) = number_of u * weight i + sum_from (suc i) us

pub data Ean13Error : Type 0 where
  bad_payload wrong_length : List ℕ → Ean13Error

unfoldable pub ean13_weighted_sum : List ℕ → Result Ean13Error ℕ
unfolding sum_from
ean13_weighted_sum payload =
    if (length payload == payload_length) && digits_only payload
    then ok (sum_from 0 payload)
    else err (bad_payload payload)

unfoldable pub ean13_check_digit : List ℕ → Result Ean13Error ℕ
unfolding ean13_weighted_sum
ean13_check_digit payload = do total ← ean13_weighted_sum payload; ok ((10 - total % 10) % 10)

unfoldable pub complete_ean13 : List ℕ → Result Ean13Error (List ℕ)
unfolding ean13_check_digit
complete_ean13 payload = do digit ← ean13_check_digit payload; ok (payload ++ ((48 + digit) ∷ []))

unfoldable pub is_valid_ean13 : List ℕ → Result Ean13Error Bool
unfolding ean13_check_digit
is_valid_ean13 code =
    if (length code == ean13_length) && digits_only code
    then (do
      digit ← ean13_check_digit (take payload_length code)
      ok (digit == number_of (get_or code payload_length 0)))
    else ok false

unfoldable pub build_ean13 : List ℕ → List ℕ → Result Ean13Error (List ℕ)
unfolding complete_ean13
build_ean13 prefix body =
    if length (prefix ++ body) == payload_length
    then complete_ean13 (prefix ++ body)
    else err (wrong_length (prefix ++ body))
