-- ===== src/Utils/Digits.antt =====
-- `utils_parse_u64_range` against the value of a decimal numeral, and printing.
use tcpclient.Base.{
  ltb, ltb→lt, lt→ltb, Bool-cases, All, All-append, Bytes, IsText, ℕ, zero, suc, ◌+◌, ◌-◌, ◌*◌, ◌/◌,
  ◌%◌, ◌^◌, ◌≤◌, ◌<◌, ◌≡◌, refl, sym, ap, ◌∙◌, ◌≢◌, ◌↔◌, inl, inr, some, [], ◌∷◌, ◌++◌, arith,
}
use tcpclient.Utils.{parse_u64_loop, utils_parse_u64_range, digits, decimal}

abbrev pub IsDigit : ℕ → Type 0
IsDigit c = (b'0' ≤ c) × (c ≤ b'9')

-- The number that the digits `s` stand for behind a numeral of value `v`.
unfoldable pub value : ℕ → Bytes → ℕ
value v [] = v
value v (c ∷ s) = value (v * 10 + (c - b'0')) s

value-ge : (v : ℕ) (s : Bytes) → v ≤ value v s
unfolding value
value-ge v [] = omega arith
value-ge v (c ∷ s) = omega (arith, value-ge (v * 10 + (c - b'0')) s)

-- Success of the loop, both ways.
parse_u64_loop-value :
    (v : ℕ) (s : Bytes) → All IsDigit s → value v s < 2 ^ 64 → parse_u64_loop v s ≡ some (value v s)
unfolding parse_u64_loop value
parse_u64_loop-value v [] h k = refl
parse_u64_loop-value v (c ∷ s) h k =
    ground
      (arith, value-ge (v * 10 + (c - b'0')) s, parse_u64_loop-value (v * 10 + (c - b'0')) s h.1 k)

parse_u64_loop-IsDigit :
    (v : ℕ) (s : Bytes) (n : ℕ)
    → v < 2 ^ 64
    → parse_u64_loop v s ≡ some n
    → All IsDigit s × (n ≡ value v s) × (n < 2 ^ 64)
unfolding parse_u64_loop value
parse_u64_loop-IsDigit v [] n lt e = ground arith
parse_u64_loop-IsDigit v (c ∷ s) n lt e =
    ground (arith, parse_u64_loop-IsDigit (v * 10 + (c - b'0')) s n)

-- The parser succeeds exactly on non-empty ranges of digits whose value fits a uint64_t, and then
-- with that value.
pub parse_u64_range_iff :
    (s : Bytes) (n : ℕ)
    → (utils_parse_u64_range s ≡ some n)
      ↔ ((s ≢ []) × All IsDigit s × (n ≡ value 0 s) × (n < 2 ^ 64))
unfolding utils_parse_u64_range
parse_u64_range_iff [] n = (λ e. cc, λ h. absurd (h.0 refl))
parse_u64_range_iff (c ∷ s) n = (
  (λ e. let (d, v, b) = parse_u64_loop-IsDigit 0 (c ∷ s) n (omega arith) e in ((λ p. cc), d, v, b)),
  (λ h. parse_u64_loop-value 0 (c ∷ s) h.1 (rw (← h.2) h.3) ∙ ap some (sym h.2)),
)

value-append : (v : ℕ) (s t : Bytes) → value v (s ++ t) ≡ value (value v s) t
unfolding value
value-append v [] t = refl
value-append v (c ∷ s) t = value-append (v * 10 + (c - b'0')) s t

append_ne : (t : Bytes) (c : ℕ) → t ++ (c ∷ []) ≢ []
append_ne [] c = λ p. cc
append_ne (x ∷ t) c = λ p. cc

append-IsDigit :
    (s : Bytes) (n d m : ℕ)
    → d < 10
    → m ≡ n * 10 + d
    → All IsDigit s × (value 0 s ≡ n)
    → All IsDigit (s ++ ((d + b'0') ∷ []))
      × (value 0 (s ++ ((d + b'0') ∷ [])) ≡ m)
      × (s ++ ((d + b'0') ∷ []) ≢ [])
append-IsDigit s n d m lt eq (h, e) = (
  All-append IsDigit s _ h (omega arith),
  value-append 0 s ((d + b'0') ∷ []) ∙ rw e (unfold value in (omega arith)),
  append_ne s _,
)

one-IsDigit :
    (n : ℕ)
    → n < 10
    → All IsDigit ((n + b'0') ∷ []) × (value 0 ((n + b'0') ∷ []) ≡ n) × ((n + b'0') ∷ [] ≢ [])
unfolding value
one-IsDigit n h = (omega arith, omega arith, append_ne [] (n + b'0'))

digits_lem :
    (fuel n : ℕ)
    → n < 10 ^ suc fuel
    → All IsDigit (digits (suc fuel) n)
      × (value 0 (digits (suc fuel) n) ≡ n)
      × (digits (suc fuel) n ≢ [])
unfolding digits
digits_lem zero n h = rw (lt→ltb n 10 (omega arith)) (one-IsDigit n (omega arith))
digits_lem (suc f) n h =
    let ih = digits_lem f (n / 10) (omega arith) in
    elim (Bool-cases (ltb n 10)) [
      | inl small ↦ rw small (one-IsDigit n (ltb→lt n 10 small))
      | inr big ↦ rw big (
          append-IsDigit (digits (suc f) (n / 10)) (n / 10) (n % 10) n (omega arith) (omega arith)
            (ih.0, ih.1))
    ]

-- The decimal digits of a number that fits 64 bits are read back by the parser as this number.
pub parse_u64_range-decimal : (n : ℕ) → n < 2 ^ 64 → utils_parse_u64_range (decimal n) ≡ some n
unfolding decimal
parse_u64_range-decimal n h =
    let (d, v, ne) = digits_lem 19 n (omega arith) in
    (parse_u64_range_iff (digits 20 n) n).1 (ne, d, sym v, h)

IsDigit-ne_zero : (s : Bytes) → All IsDigit s → IsText s
IsDigit-ne_zero [] h = tt
IsDigit-ne_zero (c ∷ s) h = (λ e. omega arith, IsDigit-ne_zero s h.1)

-- A printed number is a text of at least one digit.
pub decimal-IsText : (n : ℕ) → n < 2 ^ 64 → IsText (decimal n) × (decimal n ≢ [])
unfolding decimal
decimal-IsText n h =
    let (d, v, ne) = digits_lem 19 n (omega arith) in (IsDigit-ne_zero (digits 20 n) d, ne)

pub decimal-IsDigit : (n : ℕ) → n < 2 ^ 64 → All IsDigit (decimal n)
unfolding decimal
decimal-IsDigit n h = let (d, v, ne) = digits_lem 19 n (omega arith) in d
