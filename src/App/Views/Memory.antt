-- ===== src/App/Views/Memory.antt =====
-- Reading bytes of which more are shown than are read.
use tcpclient.Base.{
  Option-cases, length, get_or, take, drop, Bytes, split_nul, c_string, split_nul-append,
  split_nul-eq, ℕ, zero, suc, ◌≤◌, ◌<◌, ◌≡◌, refl, ap, inl, inr, Option, none, some, List, [], ◌∷◌,
  ◌++◌, append_assoc, arith,
}
use tcpclient.Utils.{utils_read_u16_be, utils_read_u32_be, utils_read_u64_be}

pub drop-append :
    {A : Type 0} (n : ℕ) (xs ys : List A) → n ≤ length xs → drop n (xs ++ ys) ≡ drop n xs ++ ys
drop-append zero xs ys h = refl
drop-append (suc n) [] ys h = absurd (omega arith)
drop-append (suc n) (x ∷ xs) ys h = drop-append n xs ys (omega arith)

pub take-append :
    {A : Type 0} (n : ℕ) (xs ys : List A) → n ≤ length xs → take n (xs ++ ys) ≡ take n xs
take-append zero xs ys h = refl
take-append (suc n) [] ys h = absurd (omega arith)
take-append (suc n) (x ∷ xs) ys h = ap (◌∷◌ x) (take-append n xs ys (omega arith))

pub get_or-append : (xs ys : Bytes) (i : ℕ) → i < length xs → get_or (xs ++ ys) i 0 ≡ get_or xs i 0
get_or-append [] ys i h = absurd (omega arith)
get_or-append (x ∷ xs) ys zero h = refl
get_or-append (x ∷ xs) ys (suc i) h = get_or-append xs ys i (omega arith)

pub split_nul-more :
    (m more : Bytes) {a b : Bytes}
    → split_nul m ≡ some (a, b)
    → split_nul (m ++ more) ≡ some (a, b ++ more)
split_nul-more m more {a} {b} e =
    let (eq, ok) = split_nul-eq m a b e in
    rw (eq, append_assoc a (0 ∷ b) more) (split_nul-append a (b ++ more) ok)

pub c_string-more :
    (m more : Bytes) {s : Bytes} → c_string m ≡ some s → c_string (m ++ more) ≡ some s
unfolding c_string
c_string-more m more {s} e = elim (Option-cases (split_nul m)) [
  | inl nothing ↦ absurd (cc)
  | inr ((a, b), found) ↦ ground (arith, split_nul-more m more {a = a} {b = b} found)
]

pub read_u16-more :
    (m more : Bytes) → 2 ≤ length m → utils_read_u16_be (m ++ more) ≡ utils_read_u16_be m
unfolding utils_read_u16_be
read_u16-more m more h =
    omega (arith, get_or-append m more 0 (omega arith), get_or-append m more 1 (omega arith))

pub read_u32-more :
    (m more : Bytes) → 4 ≤ length m → utils_read_u32_be (m ++ more) ≡ utils_read_u32_be m
unfolding utils_read_u32_be
read_u32-more m more h = omega (
  arith,
  get_or-append m more 0 (omega arith),
  get_or-append m more 1 (omega arith),
  get_or-append m more 2 (omega arith),
  get_or-append m more 3 (omega arith),
)

pub read_u64-more :
    (m more : Bytes) → 8 ≤ length m → utils_read_u64_be (m ++ more) ≡ utils_read_u64_be m
unfolding utils_read_u64_be
read_u64-more m more h = omega (
  arith,
  get_or-append m more 0 (omega arith),
  get_or-append m more 1 (omega arith),
  get_or-append m more 2 (omega arith),
  get_or-append m more 3 (omega arith),
  get_or-append m more 4 (omega arith),
  get_or-append m more 5 (omega arith),
  get_or-append m more 6 (omega arith),
  get_or-append m more 7 (omega arith),
)

-- Two options of which the second has all that the first has, and what follows them.
pub grows :
    {B C : Type 0} (o o' : Option B) (k : B → Option C) {d : C}
    → ((b : B) → o ≡ some b → o' ≡ some b)
    → (elim o [ none ↦ none | some b ↦ k b ]) ≡ some d
    → (elim o' [ none ↦ none | some b ↦ k b ]) ≡ some d
grows none o' k h e = absurd (cc)
grows (some b) o' k h e = rw (h b refl) e
