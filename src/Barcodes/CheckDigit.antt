-- ===== src/Barcodes/CheckDigit.antt =====
-- What the check digit of a barcode guarantees.
use mathlib.Core.Path.{subst}
use achichiz_back_end.Prelude.{
  Bool-cases, List, [], ap, arith, false, get_or, inl, inr, length, length-append, length-set,
  length-take, ok, ok-injective, refl, set, suc, sym, take, true, zero, ℕ, ◌%◌, ◌&&◌, ◌*◌, ◌++◌,
  ◌+◌, ◌-◌, ◌<◌, ◌==◌, ◌∙◌, ◌∷◌, ◌≡◌, ◌≢◌,
}
use achichiz_back_end.Barcodes.{
  all_digits, complete_ean13, digits_only, ean13_length, is_digit, is_valid_ean13, number_of,
  payload_length, sum_from, weight,
}

sum_from-snoc :
    (i j : ℕ) (us : List ℕ) (u : ℕ)
    → j ≡ i + length us
    → sum_from i (us ++ (u ∷ [])) ≡ sum_from i us + number_of u * weight j
unfolding sum_from
sum_from-snoc i j [] u e = let same : j ≡ i = omega arith in rw same (omega arith)
sum_from-snoc i j (v ∷ us) u e = omega (arith, sum_from-snoc (suc i) j us u (omega arith))

-- The sum of a code whose digit at one position is replaced.
sum_from-set :
    (i k j : ℕ) (us : List ℕ) (d : ℕ)
    → k < length us
    → j ≡ i + k
    → sum_from i (set us k d) + number_of (get_or us k 0) * weight j
      ≡ sum_from i us + number_of d * weight j
unfolding sum_from
sum_from-set i k j [] d h e = elim h [ ]
sum_from-set i zero j (u ∷ us) d h e = let same : j ≡ i = omega arith in rw same (omega arith)
sum_from-set i (suc k) j (u ∷ us) d h e =
    omega (arith, sum_from-set (suc i) k j us d (omega arith) (omega arith))

all_digits-set :
    (us : List ℕ) (k d : ℕ)
    → all_digits us ≡ true
    → is_digit d ≡ true
    → all_digits (set us k d) ≡ true
all_digits-set [] k d h e = refl
all_digits-set (u ∷ us) zero d h e = ground arith
all_digits-set (u ∷ us) (suc k) d h e = ground (arith, all_digits-set us k d)

all_digits-get_or :
    (us : List ℕ) (k : ℕ) → all_digits us ≡ true → k < length us → is_digit (get_or us k 0) ≡ true
all_digits-get_or [] k h e = elim e [ ]
all_digits-get_or (u ∷ us) zero h e = ground arith
all_digits-get_or (u ∷ us) (suc k) h e = all_digits-get_or us k (ground arith) (omega arith)

all_digits-take : (n : ℕ) (us : List ℕ) → all_digits us ≡ true → all_digits (take n us) ≡ true
all_digits-take zero us h = refl
all_digits-take (suc n) [] h = refl
all_digits-take (suc n) (u ∷ us) h = ground (arith, all_digits-take n us)

take-snoc : (n : ℕ) (us : List ℕ) → length us ≡ suc n → us ≡ take n us ++ (get_or us n 0 ∷ [])
take-snoc n [] h = cc
take-snoc zero (u ∷ []) h = refl
take-snoc zero (u ∷ v ∷ us) h = cc
take-snoc (suc n) (u ∷ us) h = ap (◌∷◌ u) (take-snoc n us (omega arith))

-- Of a total and a last digit: the digit completes the total to a multiple of ten.
check_digit_iff :
    (total digit : ℕ) → digit < 10 → ((10 - total % 10) % 10 == digit) ≡ ((total + digit) % 10 == 0)
check_digit_iff total digit h = ground arith

-- Thirteen digits are valid exactly when their weighted sum is a multiple of ten.
is_valid_ean13-sum :
    (code : List ℕ)
    → length code ≡ 13
    → all_digits code ≡ true
    → is_valid_ean13 code ≡ ok (sum_from 0 code % 10 == 0)
unfolding is_valid_ean13
is_valid_ean13-sum code h e =
    let payload = take payload_length code in
    let last = get_or code payload_length 0 in
    let count : length payload ≡ payload_length = omega (arith, length-take payload_length code) in
    let total : sum_from 0 code ≡ sum_from 0 payload + number_of last =
      ap (sum_from 0) (take-snoc payload_length code h)
      ∙ omega (arith, sum_from-snoc 0 payload_length payload last (omega arith)) in
    let digit : number_of last < 10 =
      ground (arith, all_digits-get_or code payload_length e (omega arith)) in
    let well_formed : ((length code == ean13_length) && digits_only code) ≡ true = ground arith in
    let well_formed_payload : ((length payload == payload_length) && digits_only payload) ≡ true =
      ground (arith, count, all_digits-take payload_length code e) in
    rw (well_formed, well_formed_payload, total)
      (ap ok (check_digit_iff (sum_from 0 payload) (number_of last) digit))

all_digits-snoc :
    (us : List ℕ) (u : ℕ)
    → all_digits us ≡ true
    → is_digit u ≡ true
    → all_digits (us ++ (u ∷ [])) ≡ true
all_digits-snoc [] u h e = ground arith
all_digits-snoc (v ∷ us) u h e = ground (arith, all_digits-snoc us u)

take-append : (us vs : List ℕ) → take (length us) (us ++ vs) ≡ us
take-append [] vs = refl
take-append (u ∷ us) vs = ap (◌∷◌ u) (take-append us vs)

-- A payload of twelve digits is completed to a code of thirteen, which begins with the payload and is
-- valid.
pub complete_ean13-is_valid_ean13 :
    (payload : List ℕ)
    → length payload ≡ payload_length
    → all_digits payload ≡ true
    → (code : List ℕ) × (complete_ean13 payload ≡ ok code)
      × (is_valid_ean13 code ≡ ok true)
      × (length code ≡ ean13_length)
      × (take payload_length code ≡ payload)
unfolding complete_ean13
complete_ean13-is_valid_ean13 payload h e =
    let total = sum_from 0 payload in
    let digit = (10 - total % 10) % 10 in
    let code = payload ++ ((48 + digit) ∷ []) in
    let well_formed : ((length payload == payload_length) && digits_only payload) ≡ true =
      ground arith in
    let count : length code ≡ ean13_length =
      omega (arith, length-append payload ((48 + digit) ∷ [])) in
    let sums : sum_from 0 code ≡ total + digit =
      omega (arith, sum_from-snoc 0 payload_length payload (48 + digit) (omega arith)) in
    let multiple : (sum_from 0 code % 10 == 0) ≡ true = rw sums (ground arith) in
    let small : is_digit (48 + digit) ≡ true = ground arith in
    (
      code,
      rw well_formed refl,
      is_valid_ean13-sum code count (all_digits-snoc payload (48 + digit) e small) ∙ ap ok multiple,
      count,
      subst (λ n. take n code ≡ payload) h (take-append payload ((48 + digit) ∷ [])),
    )

valid-form :
    (code : List ℕ)
    → is_valid_ean13 code ≡ ok true
    → (length code ≡ ean13_length) × (all_digits code ≡ true)
unfolding is_valid_ean13
valid-form code valid = elim (Bool-cases ((length code == ean13_length) && digits_only code)) [
  | inl form ↦ ground arith
  | inr no_form ↦ cc (rw no_form at valid)
]

misread_once :
    (s t a b : ℕ)
    → a < 10
    → b < 10
    → a ≢ b
    → t + a * 1 ≡ s + b * 1
    → (s % 10 == 0) ≡ true
    → (t % 10 == 0) ≡ false
misread_once s t a b ha hb other e h = ground arith

misread_thrice :
    (s t a b : ℕ)
    → a < 10
    → b < 10
    → a ≢ b
    → t + a * 3 ≡ s + b * 3
    → (s % 10 == 0) ≡ true
    → (t % 10 == 0) ≡ false
misread_thrice s t a b ha hb other e h = ground arith

-- Both weights are prime to ten.
misread :
    (s t a b i : ℕ)
    → a < 10
    → b < 10
    → a ≢ b
    → t + a * weight i ≡ s + b * weight i
    → (s % 10 == 0) ≡ true
    → (t % 10 == 0) ≡ false
misread s t a b i ha hb other e h = elim (Bool-cases (i % 2 == 0)) [
  | inl even ↦ misread_once s t a b ha hb other (rw even at e) h
  | inr odd ↦ misread_thrice s t a b ha hb other (rw odd at e) h
]

-- A scanner that misreads exactly one digit of a valid code is noticed: the code with another digit
-- in any one position is not valid.
pub is_valid_ean13-set :
    (code : List ℕ) (k d : ℕ)
    → is_valid_ean13 code ≡ ok true
    → k < ean13_length
    → is_digit d ≡ true
    → d ≢ get_or code k 0
    → is_valid_ean13 (set code k d) ≡ ok false
is_valid_ean13-set code k d valid h e other =
    let (count, digits) = valid-form code valid in
    let old : is_digit (get_or code k 0) ≡ true = all_digits-get_or code k digits (omega arith) in
    let multiple : (sum_from 0 code % 10 == 0) ≡ true =
      ok-injective (sym (is_valid_ean13-sum code count digits) ∙ valid) in
    let apart : (sum_from 0 (set code k d) % 10 == 0) ≡ false =
      misread (sum_from 0 code) (sum_from 0 (set code k d)) (number_of (get_or code k 0))
        (number_of d) k (ground arith) (ground arith) (ground arith)
        (sum_from-set 0 k k code d (omega arith) (omega arith)) multiple in
    is_valid_ean13-sum (set code k d) (length-set code k d ∙ count)
      (all_digits-set code k d digits e)
    ∙ ap ok apart
