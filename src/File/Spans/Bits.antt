-- ===== src/File/Spans/Bits.antt =====
-- The bits of one byte, checked by evaluation over all bytes.
use Prim.Native.Nat.{bit_and, bit_or}
use tcpclient.Base.{
  ltb, ◌==◌, if◌then◌else◌, ℕ, zero, suc, ◌+◌, ◌*◌, ◌/◌, ◌%◌, ◌^◌, ◌<◌, ◌≡◌, refl, sym, Bool, true,
  false, not, ◌&&◌, ◌||◌, arith, ℕ_discrete,
}

-- Whether a test succeeds at every number under a bound, tried from the top.
passes : (ℕ → Bool) → ℕ → Bool
passes test zero = true
passes test (suc top) = if test top then passes test top else false

passes-at :
    (test : ℕ → Bool) {bound : ℕ} (k : ℕ) → k < bound → passes test bound ≡ true → test k ≡ true
unfolding passes
passes-at test {bound = zero} k under e = absurd (omega arith)
passes-at test {bound = suc top} k under e = elim (ℕ_discrete k top) [
  | yes here ↦ rw here (ground arith)
  | no other ↦ passes-at test {bound = top} k (omega arith) (ground arith)
]

-- Whether bit `k` of a byte is set.
unfoldable pub bit_set : ℕ → ℕ → Bool
bit_set b k = not (bit_and b (2 ^ k) == 0)

same : Bool → Bool → Bool
same true b = b
same false b = not b

-- One bit of one byte with another bit set, the three packed in a number below 2 ^ 14.
set_bit_test : ℕ → Bool
unfolding same bit_set
set_bit_test x =
    let b = x / 64 in
    let k = x / 8 % 8 in
    let j = x % 8 in
    let s = bit_or b (2 ^ k) in ltb s 256 && same (bit_set s j) (k == j || bit_set b j)

set_bit_table : passes set_bit_test (2 ^ 14) ≡ true
unfolding passes set_bit_test
set_bit_table = refl

same_eq : (a b : Bool) → same a b ≡ true → a ≡ b
unfolding same
same_eq true true h = refl
same_eq true false h = sym h
same_eq false true h = h
same_eq false false h = refl

set_bit_at :
    (x b k j : ℕ)
    → x / 64 ≡ b
    → x / 8 % 8 ≡ k
    → x % 8 ≡ j
    → set_bit_test x ≡ true
    → (bit_or b (2 ^ k) < 256) × (bit_set (bit_or b (2 ^ k)) j ≡ (k == j || bit_set b j))
set_bit_at x b k j eb ek ej t = (ground (arith, parts), same_eq _ _ (ground (arith, parts)))
  where
    parts :
        (ltb (bit_or b (2 ^ k)) 256 && same (bit_set (bit_or b (2 ^ k)) j) (k == j || bit_set b j))
        ≡ true
    parts = rw (← eb, ← ek, ← ej) (unfold set_bit_test in t)

-- A set bit is read as set; the other bits are as before; the result is a byte.
pub bit_set-bit_or :
    (b k j : ℕ)
    → b < 256
    → k < 8
    → j < 8
    → (bit_or b (2 ^ k) < 256) × (bit_set (bit_or b (2 ^ k)) j ≡ (k == j || bit_set b j))
bit_set-bit_or b k j hb hk hj =
    let x : ℕ = b * 64 + k * 8 + j in
    set_bit_at x b k j (omega arith) (omega arith) (omega arith)
      (passes-at set_bit_test {bound = 2 ^ 14} x (omega arith) set_bit_table)
