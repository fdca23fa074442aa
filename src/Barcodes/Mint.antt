-- ===== src/Barcodes/Mint.antt =====
-- The minting of distinct codes, from a source of digits that is a parameter: `draw n k` are the
-- digits that its n-th call gives when asked for k.
use mathlib.Core.Path.{subst}
use achichiz_back_end.Prelude.{
  >>=-eq-ok, All, All-implies, Bool, Bool-cases, List, Result, Result-cases, [], any, ap, arith,
  err, false, if◌then◌else◌, inl, inr, length, length-append, ltb, ltb→lt, max, ok, ok-injective,
  refl, suc, sym, true, zero, ℕ, ◌&&◌, ◌*◌, ◌++◌, ◌+◌, ◌-◌, ◌==◌, ◌>>=◌, ◌||◌, ◌∙◌, ◌∷◌, ◌≡◌, ◌≤◌,
}
use achichiz_back_end.Barcodes.{
  Ean13Error, all_digits, build_ean13, complete_ean13, is_digit, is_valid_ean13, payload_length,
  wrong_length,
}
use achichiz_back_end.Barcodes.CheckDigit.{complete_ean13-is_valid_ean13}

abbrev pub same_code : List ℕ → List ℕ → Bool
same_code [] [] = true
same_code (a ∷ us) (b ∷ vs) = (a == b) && same_code us vs
same_code _ _ = false

unfoldable pub body_length_for : List ℕ → ℕ
body_length_for prefix = payload_length - length prefix

unfoldable pub mint_ean13 : List ℕ → (ℕ → List ℕ) → Result Ean13Error (List ℕ)
unfolding body_length_for
mint_ean13 prefix random_digits = build_ean13 prefix (random_digits (body_length_for prefix))

-- The loop, with the attempts that are left; `n` calls were made. `seen` is the set of `minted`.
unfoldable pub mint_loop :
    List ℕ
    → ℕ
    → (ℕ → ℕ → List ℕ)
    → List (List ℕ)
    → ℕ
    → ℕ
    → List (List ℕ)
    → Result Ean13Error (List (List ℕ))
unfolding mint_ean13
mint_loop prefix count draw exclude zero n minted = ok minted
mint_loop prefix count draw exclude (suc attempts) n minted = elim (ltb (length minted) count) [
  | false ↦ ok minted
  | true ↦ do
    candidate ← mint_ean13 prefix (draw n)
    mint_loop prefix count draw exclude attempts (n + 1) (
        if any (same_code candidate) minted || any (same_code candidate) exclude
        then minted
        else minted ++ (candidate ∷ []))
]

pub data MintError : Type 0 where
  malformed : Ean13Error → MintError
  not_enough : ℕ → MintError

-- `Math.max(64, count * 16)`, where no option says otherwise.
abbrev pub default_attempts : ℕ → ℕ
default_attempts count = max 64 (count * 16)

unfoldable pub mint_distinct_ean13 :
    List ℕ → ℕ → (ℕ → ℕ → List ℕ) → List (List ℕ) → ℕ → Result MintError (List (List ℕ))
unfolding mint_loop
mint_distinct_ean13 prefix count draw exclude max_attempts =
    elim (mint_loop prefix count draw exclude max_attempts 0 []) [
      | err e ↦ err (malformed e)
      | ok minted ↦ if ltb (length minted) count then err (not_enough count) else ok minted
    ]

-- No code stands twice, and none is excluded.
abbrev pub IsNew : List (List ℕ) → List ℕ → Type 0
IsNew codes code = any (same_code code) codes ≡ false

abbrev pub AllNew : List (List ℕ) → Type 0
AllNew [] = Unit
AllNew (code ∷ codes) = All (λ later. same_code later code ≡ false) codes × AllNew codes

All-snoc {ℓ κ} :
    {A : Type ℓ} (P : A → Type κ) (xs : List A) (x : A) → All P xs → P x → All P (xs ++ (x ∷ []))
All-snoc P [] x h p = (p, tt)
All-snoc P (y ∷ ys) x (q, h) p = (q, All-snoc P ys x h p)

AllNew-snoc :
    (codes : List (List ℕ)) (code : List ℕ)
    → AllNew codes
    → IsNew codes code
    → AllNew (codes ++ (code ∷ []))
AllNew-snoc [] code d n = (tt, tt)
AllNew-snoc (c ∷ codes) code (h, d) n = elim (Bool-cases (same_code code c)) [
  | inl same ↦ let wrong = rw same at n in cc
  | inr differs ↦ (
    All-snoc (λ (later : List ℕ). same_code later c ≡ false) codes code h differs,
    AllNew-snoc codes code d (rw differs at n),
  )
]

-- What the loop keeps: few enough codes, all new, none excluded, each minted by the source.
pub record Minted (prefix : List ℕ) (count : ℕ) (draw : ℕ → ℕ → List ℕ)
    (exclude minted : List (List ℕ)) : Type 0 where
  pub few : length minted ≤ count
  pub distinct : AllNew minted
  pub allowed : All (IsNew exclude) minted
  pub drawn : All (λ (code : List ℕ). (n : ℕ) × (mint_ean13 prefix (draw n) ≡ ok code)) minted

mint_loop-Minted :
    (prefix : List ℕ) (count : ℕ) (draw : ℕ → ℕ → List ℕ) (exclude : List (List ℕ)) (attempts n : ℕ)
    (minted : List (List ℕ)) {out : List (List ℕ)}
    → Minted prefix count draw exclude minted
    → mint_loop prefix count draw exclude attempts n minted ≡ ok out
    → Minted prefix count draw exclude out
unfolding mint_loop
mint_loop-Minted prefix count draw exclude zero n minted h e =
    subst (Minted prefix count draw exclude) (ok-injective e) h
mint_loop-Minted prefix count draw exclude (suc attempts) n minted h e =
    elim (Bool-cases (ltb (length minted) count)) [
      | inr full ↦
          subst (Minted prefix count draw exclude) (ok-injective (rw (mint_loop, full) at e)) h
      | inl room ↦
          let (candidate, drew, rest) =
            >>=-eq-ok (mint_ean13 prefix (draw n)) _ (rw (mint_loop, room) at e) in
          elim (Bool-cases
            (any (same_code candidate) minted || any (same_code candidate) exclude)) [
              | inl known ↦
                  mint_loop-Minted prefix count draw exclude attempts (n + 1) minted h
                    (rw known at rest)
              | inr fresh ↦
                  let is_new : IsNew minted candidate = ground arith in
                  let is_allowed : IsNew exclude candidate = ground arith in
                  let next : Minted prefix count draw exclude (minted ++ (candidate ∷ [])) =
                    record {
                      few = omega (
                        arith,
                        length-append minted (candidate ∷ []),
                        ltb→lt (length minted) count room,
                      );
                      distinct = AllNew-snoc minted candidate h.distinct is_new;
                      allowed = All-snoc (IsNew exclude) minted candidate h.allowed is_allowed;
                      drawn = All-snoc _ minted candidate h.drawn (n, drew);
                    } in
                  mint_loop-Minted prefix count draw exclude attempts (n + 1)
                    (minted ++ (candidate ∷ [])) next (rw fresh at rest)
            ]
    ]

all_digits-append :
    (us vs : List ℕ) → all_digits us ≡ true → all_digits vs ≡ true → all_digits (us ++ vs) ≡ true
all_digits-append [] vs h k = k
all_digits-append (u ∷ us) vs h k =
    let now : is_digit u ≡ true = ground arith in
    let rest : all_digits us ≡ true = ground arith in
    let ih = all_digits-append us vs rest k in rw (now, ih) refl

-- What the code relies on of its source: as many digits as it asks for.
abbrev pub GivesDigits : (ℕ → ℕ → List ℕ) → Type 0
GivesDigits draw = (n k : ℕ) → (length (draw n k) ≡ k) × (all_digits (draw n k) ≡ true)

build_whole :
    (prefix body : List ℕ)
    → length (prefix ++ body) ≡ payload_length
    → build_ean13 prefix body ≡ complete_ean13 (prefix ++ body)
unfolding build_ean13
build_whole prefix body whole =
    let test : (length (prefix ++ body) == payload_length) ≡ true = ground arith in
    ap
      (λ (b : Bool).
        if b then complete_ean13 (prefix ++ body) else err (wrong_length (prefix ++ body)))
      test

mint_ean13-is_valid_ean13 :
    (prefix : List ℕ) (draw : ℕ → ℕ → List ℕ) (n : ℕ) {code : List ℕ}
    → GivesDigits draw
    → length prefix ≤ payload_length
    → all_digits prefix ≡ true
    → mint_ean13 prefix (draw n) ≡ ok code
    → is_valid_ean13 code ≡ ok true
unfolding mint_ean13 body_length_for
mint_ean13-is_valid_ean13 prefix draw n digits short numeric e =
    let body = draw n (payload_length - length prefix) in
    let (count, figures) = digits n (payload_length - length prefix) in
    let whole : length (prefix ++ body) ≡ payload_length =
      omega (arith, length-append prefix body, count, short) in
    let (code, done, valid, thirteen, begins) =
      complete_ean13-is_valid_ean13 (prefix ++ body) whole
        (all_digits-append prefix body numeric figures) in
    let built = build_whole prefix body whole in
    let same = ok-injective (sym done ∙ sym built ∙ e) in rw (← same) valid

-- A batch that is minted has as many codes as were asked for, no code twice and none that was to be
-- excluded, and each of them is a valid code, where the prefix is of at most twelve digits and the
-- source gives digits.
pub mint_distinct_ean13-Minted :
    (prefix : List ℕ) (count : ℕ) (draw : ℕ → ℕ → List ℕ) (exclude : List (List ℕ))
    (max_attempts : ℕ) {codes : List (List ℕ)}
    → GivesDigits draw
    → length prefix ≤ payload_length
    → all_digits prefix ≡ true
    → mint_distinct_ean13 prefix count draw exclude max_attempts ≡ ok codes
    → (length codes ≡ count)
      × AllNew codes
      × All (IsNew exclude) codes
      × All (λ (code : List ℕ). is_valid_ean13 code ≡ ok true) codes
unfolding mint_distinct_ean13
mint_distinct_ean13-Minted prefix count draw exclude max_attempts digits short numeric e =
    elim (Result-cases (mint_loop prefix count draw exclude max_attempts 0 [])) [
      | inr (x, failed) ↦ let wrong = rw (mint_distinct_ean13, failed) at e in cc
      | inl (minted, done) ↦
          let h =
            mint_loop-Minted prefix count draw exclude max_attempts 0 []
              (record { few = omega arith; distinct = tt; allowed = tt; drawn = tt }) done in
          elim (Bool-cases (ltb (length minted) count)) [
            | inl lacking ↦ let wrong = rw (mint_distinct_ean13, done, lacking) at e in cc
            | inr enough ↦
                let same = ok-injective (rw (mint_distinct_ean13, done, enough) at e) in
                let exact : length minted ≡ count = ground (arith, h.few) in
                rw (← same) (
                  exact,
                  h.distinct,
                  h.allowed,
                  All-implies _ (λ (code : List ℕ). is_valid_ean13 code ≡ ok true) minted
                      (λ code (n, drew).
                        mint_ean13-is_valid_ean13 prefix draw n digits short numeric drew)
                      h.drawn,
                )
          ]
    ]
