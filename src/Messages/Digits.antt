-- ===== src/Messages/Digits.antt =====
-- A number that `%d` has written is the number that `%d` reads.
use native.Mathlib.Numerals.{unary_clauses}
use cse.Base.{
  ℕ, zero, suc, ◌+◌, ◌-◌, ◌*◌, ◌/◌, ◌%◌, ◌^◌, ◌≤◌, ◌<◌, ◌≡◌, refl, sym, ap, subst, ◌∙◌, inl, inr,
  Bytes, [], ◌∷◌, ◌++◌, some, true, false, ◌==◌, ltb, All, digits_fuel, decimal, arith, Bool-cases,
  lt→ltb, ltb→lt, u32,
}
use cse.Messages.{is_space, skip, is_digit, digits, number, scan_int, negated}

abbrev pub IsDigit : ℕ → Type 0
IsDigit c = is_digit c ≡ true

-- No digit stands first.
abbrev pub NoDigitFirst : Bytes → Type 0
NoDigitFirst [] = Unit
NoDigitFirst (c ∷ cs) = is_digit c ≡ false

-- The number that digits after `n` make.
value : ℕ → Bytes → ℕ
value n [] = n
value n (c ∷ cs) = value (n * 10 + (c - 48)) cs

digits-append :
    (xs rest : Bytes) (n : ℕ)
    → All IsDigit xs
    → NoDigitFirst rest
    → digits n (xs ++ rest) ≡ (value n xs, rest)
unfolding digits value
digits-append [] [] n d h = refl
digits-append [] (c ∷ cs) n d h = rw h refl
digits-append (x ∷ xs) rest n d h = rw d.0 (digits-append xs rest (n * 10 + (x - 48)) d.1 h)

value-append : (xs : Bytes) (c n : ℕ) → value n (xs ++ (c ∷ [])) ≡ value n xs * 10 + (c - 48)
unfolding value
value-append [] c n = refl
value-append (x ∷ xs) c n = value-append xs c (n * 10 + (x - 48))

All-append : (xs : Bytes) (c : ℕ) → All IsDigit xs → IsDigit c → All IsDigit (xs ++ (c ∷ []))
All-append [] c d e = (e, tt)
All-append (x ∷ xs) c d e = (d.0, All-append xs c d.1 e)

shown-IsDigit : (n : ℕ) → n < 10 → IsDigit (n + 48)
unfolding is_digit
shown-IsDigit n h = ground arith

digits_fuel-IsDigit : (f n : ℕ) → All IsDigit (digits_fuel f n)
unfolding digits_fuel
digits_fuel-IsDigit zero n = tt
digits_fuel-IsDigit (suc f) n = elim (Bool-cases (ltb n 10)) [
  | inl p ↦ rw p (shown-IsDigit n (ground arith), tt)
  | inr p ↦ rw p (
      All-append (digits_fuel f (n / 10)) (n % 10 + 48) (digits_fuel-IsDigit f (n / 10))
        (shown-IsDigit (n % 10) (omega arith)))
]

digits_fuel-value : (f n : ℕ) → n < 10 ^ f → value 0 (digits_fuel f n) ≡ n
unfolding digits_fuel value
digits_fuel-value zero n h = omega arith
digits_fuel-value (suc f) n h = elim (Bool-cases (ltb n 10)) [
  | inl p ↦ rw p (omega arith)
  | inr p ↦
      let h' = simp unary_clauses at h in
      let lt : n / 10 < 10 ^ f = omega (arith, h') in
      rw (p, value-append (digits_fuel f (n / 10)) (n % 10 + 48) 0, digits_fuel-value f (n / 10) lt)
        (omega arith)
]

not_sign : (k : ℕ) → IsDigit k → ((k == 45) ≡ false) × ((k == 43) ≡ false) × (is_space k ≡ false)
unfolding is_digit is_space
not_sign k e = (ground arith, ground arith, ground arith)

read_digits :
    (xs rest : Bytes) (c : ℕ)
    → All IsDigit (c ∷ xs)
    → NoDigitFirst rest
    → scan_int (c ∷ (xs ++ rest)) ≡ some (value 0 (c ∷ xs), rest)
unfolding scan_int number
read_digits xs rest c d h =
    let (minus, plus, _) = not_sign c d.0 in
    rw (minus, plus, d.0) (ap some (digits-append (c ∷ xs) rest 0 d h))

snoc_cons : (xs : Bytes) (c : ℕ) → (a : ℕ) × (ys : Bytes) × (xs ++ (c ∷ []) ≡ a ∷ ys)
snoc_cons [] c = (c, [], refl)
snoc_cons (x ∷ xs) c = (x, xs ++ (c ∷ []), refl)

digits_fuel-cons : (f n : ℕ) → (a : ℕ) × (ys : Bytes) × (digits_fuel (suc f) n ≡ a ∷ ys)
unfolding digits_fuel
digits_fuel-cons f n = elim (Bool-cases (ltb n 10)) [
  | inl p ↦ (n + 48, [], rw p refl)
  | inr p ↦ let (a, ys, e) = snoc_cons (digits_fuel f (n / 10)) (n % 10 + 48) in (a, ys, rw p e)
]

decimal-eq-digits_fuel : (n : ℕ) → n < 2 ^ 31 → decimal n ≡ digits_fuel 10 n
unfolding decimal
decimal-eq-digits_fuel n h = rw (lt→ltb n (2 ^ 31) h) refl

skip_digit : (c : ℕ) (cs : Bytes) → IsDigit c → skip (c ∷ cs) ≡ c ∷ cs
unfolding skip
skip_digit c cs d = let (_, _, e) = not_sign c d in rw e refl

read_positive :
    (n : ℕ) (rest : Bytes)
    → n < 2 ^ 31
    → NoDigitFirst rest
    → (skip (decimal n ++ rest) ≡ decimal n ++ rest)
      × (scan_int (decimal n ++ rest) ≡ some (n, rest))
read_positive n rest h k =
    let (a, ys, e) = digits_fuel-cons 9 n in
    let whole : decimal n ≡ a ∷ ys = decimal-eq-digits_fuel n h ∙ e in
    let all : All IsDigit (a ∷ ys) = subst (All IsDigit) e (digits_fuel-IsDigit 10 n) in
    let v : value 0 (a ∷ ys) ≡ n = sym (ap (value 0) e) ∙ digits_fuel-value 10 n (omega arith) in
    (
      rw whole (skip_digit a (ys ++ rest) all.0),
      rw whole (read_digits ys rest a all k ∙ ap (λ (m : ℕ). some (m, rest)) v),
    )

number_digits :
    (xs rest : Bytes) (c : ℕ)
    → All IsDigit (c ∷ xs)
    → NoDigitFirst rest
    → number (c ∷ (xs ++ rest)) ≡ some (value 0 (c ∷ xs), rest)
unfolding number
number_digits xs rest c d h = rw d.0 (ap some (digits-append (c ∷ xs) rest 0 d h))

decimal-eq-minus : (n : ℕ) → 2 ^ 31 ≤ n → decimal n ≡ 45 ∷ digits_fuel 10 (2 ^ 32 - n)
unfolding decimal
decimal-eq-minus n h = let big : ltb n (2 ^ 31) ≡ false = ground arith in rw big refl

read_minus : (cs : Bytes) → scan_int (45 ∷ cs) ≡ negated (number cs)
unfolding scan_int
read_minus cs = refl

read_negative :
    (n : ℕ) (rest : Bytes)
    → 2 ^ 31 ≤ n
    → n < 2 ^ 32
    → NoDigitFirst rest
    → (skip (decimal n ++ rest) ≡ decimal n ++ rest)
      × (scan_int (decimal n ++ rest) ≡ some (n, rest))
read_negative n rest low high k =
    let m : ℕ = 2 ^ 32 - n in
    let (a, ys, e) = digits_fuel-cons 9 m in
    let whole : decimal n ≡ 45 ∷ (a ∷ ys) = decimal-eq-minus n low ∙ ap (λ ds. 45 ∷ ds) e in
    let all : All IsDigit (a ∷ ys) = subst (All IsDigit) e (digits_fuel-IsDigit 10 m) in
    let v : value 0 (a ∷ ys) ≡ m = sym (ap (value 0) e) ∙ digits_fuel-value 10 m (omega arith) in
    let back : u32 (2 ^ 32 - m) ≡ n = omega arith in
    (
      rw whole (unfold skip is_space in refl),
      rw whole (
          read_minus (a ∷ (ys ++ rest))
          ∙ (ap negated (number_digits ys rest a all k)
              ∙ ap (λ (j : ℕ). some (j, rest)) (ap (λ i. u32 (2 ^ 32 - i)) v ∙ back))),
    )

-- What `%d` writes of an `int` is not skipped, and read back as the same `int`.
pub scan_int-decimal :
    (n : ℕ) (rest : Bytes)
    → n < 2 ^ 32
    → NoDigitFirst rest
    → (skip (decimal n ++ rest) ≡ decimal n ++ rest)
      × (scan_int (decimal n ++ rest) ≡ some (n, rest))
scan_int-decimal n rest h k = elim (Bool-cases (ltb n (2 ^ 31))) [
  | inl p ↦ read_positive n rest (ltb→lt _ _ p) k
  | inr p ↦ read_negative n rest (ground arith) h k
]
