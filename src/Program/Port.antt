-- ===== src/Program/Port.antt =====
-- The test on the port.
use tcpclient.Base.{
  if-holds, leb, ◌==◌, Bool-cases, length, All, Bytes, ℕ, ◌+◌, ◌-◌, ◌*◌, ◌≤◌, ◌≡◌, refl, sym, ap,
  ◌∙◌, ◌≢◌, ◌↔◌, ◌⊎◌, inl, inr, Bool, true, false, ◌&&◌, ◌||◌, some, [], ◌∷◌, ◌++◌, arith,
}
use tcpclient.Utils.Digits.{IsDigit, value}
use tcpclient.Program.{
  is_space, skip_spaces, strtol_digits, Strtol, strtol_sign, strtol, out_of_long, port_in_range,
  port_of,
}

abbrev pub IsSpace : ℕ → Type 0
IsSpace c = is_space c ≡ true

-- The bytes that `strtol` takes for a port: blanks, a plus sign or none, and digits.
pub record IsPort (arg : Bytes) (p : ℕ) : Type 0 where
  pub blanks : Bytes
  pub sign : Bytes
  pub ds : Bytes
  pub layout : arg ≡ blanks ++ (sign ++ ds)
  pub blanks_space : All IsSpace blanks
  pub plus_sign : (sign ≡ []) ⊎ (sign ≡ b'+' ∷ [])
  pub not_empty : ds ≢ []
  pub all_digits : All IsDigit ds
  pub is_value : p ≡ value 0 ds
  pub low : 1 ≤ p
  pub high : p ≤ 65535

skip_spaces-split : (s : Bytes) → (b : Bytes) × (s ≡ b ++ skip_spaces s) × All IsSpace b
unfolding skip_spaces
skip_spaces-split [] = ([], refl, tt)
skip_spaces-split (c ∷ s) = elim (Bool-cases (is_space c)) [
  | inl yes_space ↦
      let (b, e, h) = skip_spaces-split s in (c ∷ b, rw yes_space (ap (◌∷◌ c) e), (yes_space, h))
  | inr other ↦ ([], rw other refl, tt)
]

-- Blanks in front are skipped, and a text that starts with none stays.
skip_spaces-append : (b s : Bytes) → All IsSpace b → skip_spaces s ≡ s → skip_spaces (b ++ s) ≡ s
unfolding skip_spaces
skip_spaces-append [] s h k = k
skip_spaces-append (c ∷ b) s h k = rw h.0 (skip_spaces-append b s h.1 k)

nonempty : Bytes → Bool
nonempty [] = false
nonempty (c ∷ s) = true

digits-strtol :
    (v : ℕ) (any : Bool) (s : Bytes)
    → All IsDigit s
    → strtol_digits v any s ≡ (value v s, any || nonempty s, [])
unfolding strtol_digits value nonempty
digits-strtol v true [] h = refl
digits-strtol v false [] h = refl
digits-strtol v true (c ∷ s) h =
    let digit : (leb b'0' c && leb c b'9') ≡ true = ground (arith, h.0) in
    rw digit (digits-strtol (v * 10 + (c - b'0')) true s h.1)
digits-strtol v false (c ∷ s) h =
    let digit : (leb b'0' c && leb c b'9') ≡ true = ground (arith, h.0) in
    rw digit (digits-strtol (v * 10 + (c - b'0')) true s h.1)

strtol-digits : (v : ℕ) (any : Bool) (s : Bytes) → (strtol_digits v any s).2 ≡ [] → All IsDigit s
unfolding strtol_digits
strtol-digits v any [] e = tt
strtol-digits v any (c ∷ s) e =
    if-holds (λ (r : ℕ × Bool × Bytes). r.2 ≡ [] → All IsDigit (c ∷ s)) (leb b'0' c && leb c b'9')
      (λ t e'. (ground arith, strtol-digits (v * 10 + (c - b'0')) true s e')) (λ f e'. absurd (cc))
      e

-- A sign and digits, as `strtol_sign` reads them.
abbrev Reads : Bytes → ℕ → Type 0
Reads u p =
    (sign : Bytes) × (ds : Bytes) × (u ≡ sign ++ ds)
    × ((sign ≡ []) ⊎ (sign ≡ b'+' ∷ []))
    × (ds ≢ [])
    × All IsDigit ds
    × (p ≡ value 0 ds)

-- The digits that `strtol` read to the end.
digits_read :
    (ds : Bytes)
    → (strtol_digits 0 false ds).1 ≡ true
    → (strtol_digits 0 false ds).2 ≡ []
    → (ds ≢ []) × All IsDigit ds × ((strtol_digits 0 false ds).0 ≡ value 0 ds)
unfolding nonempty
digits_read ds moved done_all =
    let d : All IsDigit ds = strtol-digits 0 false ds done_all in
    let e = digits-strtol 0 false ds d in
    ((λ h. by_empty ds h (rw e at moved)), d, ap (λ (r : ℕ × Bool × Bytes). r.0) e)
  where
    by_empty : (s : Bytes) → s ≡ [] → nonempty s ≡ true → ⊥
    by_empty [] h k = absurd (cc)
    by_empty (c ∷ s) h k = absurd (cc)

sign_read :
    (u : Bytes)
    → (strtol_sign u).negative ≡ false
    → (strtol_sign u).moved ≡ true
    → (strtol_sign u).tail ≡ []
    → Reads u (strtol_sign u).magnitude
unfolding strtol_sign
sign_read [] n m t = let (ne, d, v) = digits_read [] m t in ([], [], refl, inl refl, ne, d, v)
sign_read (c ∷ s) n m t =
    if-holds
      (λ (r : Strtol).
        r.negative ≡ false → r.moved ≡ true → r.tail ≡ [] → Reads (c ∷ s) r.magnitude)
      (c == b'-') (λ e n m t. absurd (cc))
      (λ e.
        if-holds
          (λ (r : Strtol).
            r.negative ≡ false → r.moved ≡ true → r.tail ≡ [] → Reads (c ∷ s) r.magnitude)
          (c == b'+')
          (λ plus n m t.
            let (ne, d, v) = digits_read s m t in
            let same : c ≡ b'+' = ground arith in (b'+' ∷ [], s, rw same refl, inr refl, ne, d, v))
          (λ other n m t.
            let (ne, d, v) = digits_read (c ∷ s) m t in ([], c ∷ s, refl, inl refl, ne, d, v)))
      n m t

-- The other way.
read_sign :
    (sign ds : Bytes)
    → (sign ≡ []) ⊎ (sign ≡ b'+' ∷ [])
    → ds ≢ []
    → All IsDigit ds
    → (strtol_sign (sign ++ ds)
        ≡ record { negative = false; magnitude = value 0 ds; moved = true; tail = [] })
      × (skip_spaces (sign ++ ds) ≡ sign ++ ds)
unfolding strtol_sign skip_spaces is_space nonempty
read_sign sign [] h ne d = absurd (ne refl)
read_sign sign (c ∷ ds) (inl e) ne d =
    let e' = digits-strtol 0 false (c ∷ ds) d in
    let minus : (c == b'-') ≡ false = ground (arith, d.0) in
    let plus : (c == b'+') ≡ false = ground (arith, d.0) in
    rw e (rw (minus, plus, e') refl, ground (arith, d.0))
read_sign sign (c ∷ ds) (inr e) ne d =
    let e' = digits-strtol 0 false (c ∷ ds) d in rw e (rw e' refl, refl)

length_zero : (s : Bytes) → (length s == 0) ≡ true → s ≡ []
length_zero [] e = refl
length_zero (c ∷ s) e = absurd (ground arith)

-- What the test of `main` lets through.
abbrev Passes : Strtol → ℕ → Type 0
Passes r p =
    (r.negative ≡ false)
    × (r.moved ≡ true)
    × (r.tail ≡ [])
    × (r.magnitude ≡ p)
    × (1 ≤ p)
    × (p ≤ 65535)

accepted : (r : Strtol) (p : ℕ) → port_in_range r ≡ some p → Passes r p
unfolding port_in_range
accepted r p e = (
  ground arith,
  ground arith,
  length_zero r.tail (ground arith),
  ground arith,
  ground arith,
  ground arith,
)

in_range :
    (v p : ℕ)
    → p ≡ v
    → 1 ≤ p
    → p ≤ 65535
    → port_in_range (record { negative = false; magnitude = v; moved = true; tail = [] }) ≡ some p
unfolding port_in_range out_of_long
in_range v p e lo hi = ground arith

-- Port numbers are exactly the decimal numerals from 1 to 65535, behind blanks and a plus sign.
pub port_of_iff : (arg : Bytes) (p : ℕ) → (port_of arg ≡ some p) ↔ IsPort arg p
unfolding port_of strtol
port_of_iff arg p = (
  (λ e.
      let r : Strtol = strtol_sign (skip_spaces arg) in
      let (n, m, t, v, lo, hi) : Passes r p = accepted r p e in
      let (sign, ds, eq, plus, ne, d, w) = sign_read (skip_spaces arg) n m t in
      let (b, split, sp) = skip_spaces-split arg in
      record {
        blanks = b;
        sign = sign;
        ds = ds;
        layout = split ∙ ap (λ u. b ++ u) eq;
        blanks_space = sp;
        plus_sign = plus;
        not_empty = ne;
        all_digits = d;
        is_value = sym v ∙ w;
        low = lo;
        high = hi;
      }),
  (λ h.
      let (e, k) = read_sign (h.sign) (h.ds) h.plus_sign h.not_empty h.all_digits in
      let skipped : skip_spaces arg ≡ h.sign ++ h.ds =
        rw h.layout (skip_spaces-append (h.blanks) (h.sign ++ h.ds) h.blanks_space k) in
      ap (λ u. port_in_range (strtol_sign u)) skipped
      ∙ ap port_in_range e
      ∙ in_range (value 0 (h.ds)) p h.is_value h.low h.high),
)
