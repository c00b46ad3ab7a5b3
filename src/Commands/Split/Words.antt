-- ===== src/Commands/Split/Words.antt =====
-- The scan for blanks and words.
use mathlib.Core.Path.{subst}
use tcpclient.Base.{
  leb, ◌==◌, Bool-cases, length, All, Bytes, ℕ, ◌<◌, ◌≡◌, refl, sym, ap, ◌∙◌, ◌≢◌, ◌⊎◌, inl, inr,
  true, false, ◌||◌, some, [], ◌∷◌, ◌++◌, arith,
}
use tcpclient.Commands.{is_blank, skip_blanks, take_word, split_args}

abbrev pub IsBlank : ℕ → Type 0
IsBlank c = is_blank c ≡ true

abbrev pub IsInk : ℕ → Type 0
IsInk c = is_blank c ≡ false

-- Empty, or it starts with a byte of this kind.
abbrev pub StartsInk : Bytes → Type 0
StartsInk [] = Unit
StartsInk (c ∷ s) = IsInk c

abbrev pub StartsBlank : Bytes → Type 0
StartsBlank [] = Unit
StartsBlank (c ∷ s) = IsBlank c

pub skip_blanks_lem :
    (s : Bytes) → (b : Bytes) × All IsBlank b × (s ≡ b ++ skip_blanks s) × StartsInk (skip_blanks s)
unfolding skip_blanks
skip_blanks_lem [] = ([], tt, refl, tt)
skip_blanks_lem (c ∷ s) = elim (Bool-cases (is_blank c)) [
  | inl blank ↦
      let (b, all, e, ink) = skip_blanks_lem s in rw blank (c ∷ b, (blank, all), ap (◌∷◌ c) e, ink)
  | inr ink ↦ rw ink ([], tt, refl, ink)
]

pub skip_blanks-append : (b s : Bytes) → All IsBlank b → StartsInk s → skip_blanks (b ++ s) ≡ s
unfolding skip_blanks
skip_blanks-append [] [] h k = refl
skip_blanks-append [] (c ∷ s) h k = rw k
skip_blanks-append (c ∷ b) s h k = rw (h.0) (skip_blanks-append b s h.1 k)

take_word_lem :
    (s : Bytes)
    → (s ≡ (take_word s).0 ++ (take_word s).1)
      × All IsInk (take_word s).0
      × StartsBlank (take_word s).1
unfolding take_word
take_word_lem [] = (refl, tt, tt)
take_word_lem (c ∷ s) = elim (Bool-cases (is_blank c)) [
  | inl blank ↦ rw blank (refl, tt, blank)
  | inr ink ↦ let (e, all, b) = take_word_lem s in rw ink (ap (◌∷◌ c) e, (ink, all), b)
]

take_word-append :
    (w rest : Bytes) → All IsInk w → StartsBlank rest → take_word (w ++ rest) ≡ (w, rest)
unfolding take_word
take_word-append [] [] h k = refl
take_word-append [] (c ∷ rest) h k = rw k
take_word-append (c ∷ w) rest h k = rw (h.0, take_word-append w rest h.1 k)

-- `args` is `word`, which is not empty and shorter than `size`, then `text`, which starts with no
-- blank; blanks stand between the two, and may stand in front.
pub record IsSplit (args : Bytes) (size : ℕ) (word text : Bytes) : Type 0 where
  pub lead : Bytes
  pub gap : ℕ
  pub gaps : Bytes
  pub first : ℕ
  pub tail : Bytes
  pub layout : args ≡ lead ++ (word ++ (gap ∷ (gaps ++ text)))
  pub text_is : text ≡ first ∷ tail
  pub lead_blank : All IsBlank lead
  pub gap_blank : IsBlank gap
  pub gaps_blank : All IsBlank gaps
  pub word_ink : All IsInk word
  pub first_ink : IsInk first
  pub word_ne_nil : word ≢ []
  pub word_fits : length word < size

split_args_of :
    (lead ws gaps tail : Bytes) (w gap first size : ℕ)
    → All IsBlank lead
    → IsBlank gap
    → All IsBlank gaps
    → All IsInk (w ∷ ws)
    → IsInk first
    → length (w ∷ ws) < size
    → split_args (lead ++ ((w ∷ ws) ++ (gap ∷ (gaps ++ (first ∷ tail))))) size
      ≡ some (w ∷ ws, first ∷ tail)
unfolding split_args
split_args_of lead ws gaps tail w gap first size hl hg hgs hw hf lt = ground (
  arith,
  skip_blanks-append lead ((w ∷ ws) ++ (gap ∷ (gaps ++ (first ∷ tail)))) hl hw.0,
  take_word-append (w ∷ ws) (gap ∷ (gaps ++ (first ∷ tail))) hw hg,
  skip_blanks-append (gap ∷ gaps) (first ∷ tail) (hg, hgs) hf,
)

pub IsSplit-split_args :
    (args : Bytes) (size : ℕ) (word text : Bytes)
    → IsSplit args size word text
    → split_args args size ≡ some (word, text)
IsSplit-split_args args size [] text s = absurd (s.word_ne_nil refl)
IsSplit-split_args args size (w ∷ ws) text s =
    rw (s.layout, s.text_is)
      (split_args_of s.lead ws s.gaps s.tail w s.gap s.first size s.lead_blank s.gap_blank
        s.gaps_blank s.word_ink s.first_ink s.word_fits)

-- What the scan found, put together.
IsSplit-scan :
    (args b rest : Bytes) (c : ℕ) (p : Bytes) (size d : ℕ) (q : Bytes) (word : Bytes)
    → All IsBlank b
    → args ≡ b ++ (c ∷ p)
    → c ∷ p ≡ word ++ rest
    → All IsInk word
    → StartsBlank rest
    → (length word == 0 || leb size (length word)) ≡ false
    → skip_blanks rest ≡ d ∷ q
    → IsSplit args size word (d ∷ q)
IsSplit-scan args b rest c p size d q word hb e f hw hr t s = go (skip_blanks_lem rest)
  where
    go :
        (x : Bytes) × All IsBlank x × (rest ≡ x ++ skip_blanks rest) × StartsInk (skip_blanks rest)
        → IsSplit args size word (d ∷ q)
    go ([], all, eq, ink) = absurd (cc (subst StartsBlank (eq ∙ s) hr, subst StartsInk s ink))
    go (g ∷ gs, all, eq, ink) = record {
      lead = b;
      gap = g;
      gaps = gs;
      first = d;
      tail = q;
      layout = e ∙ ap (◌++◌ b) (f ∙ ap (◌++◌ word) (eq ∙ rw s));
      text_is = refl;
      lead_blank = hb;
      gap_blank = all.0;
      gaps_blank = all.1;
      word_ink = hw;
      first_ink = rw s at ink;
      word_ne_nil = λ z. ground arith;
      word_fits = ground arith;
    }

pub List-cases : (s : Bytes) → (s ≡ []) ⊎ ((c : ℕ) × (p : Bytes) × (s ≡ c ∷ p))
List-cases [] = inl refl
List-cases (c ∷ p) = inr (c, p, refl)

split_args_inv :
    (args : Bytes) (size : ℕ) (word text : Bytes)
    → split_args args size ≡ some (word, text)
    → (c : ℕ) × (p : Bytes) × (d : ℕ) × (q : Bytes) × (skip_blanks args ≡ c ∷ p)
      × (word ≡ (take_word (c ∷ p)).0)
      × ((length word == 0 || leb size (length word)) ≡ false)
      × (skip_blanks (take_word (c ∷ p)).1 ≡ d ∷ q)
      × (text ≡ d ∷ q)
unfolding split_args
split_args_inv args size word text e = elim (List-cases (skip_blanks args)) [
  | inl r ↦ absurd (ground arith)
  | inr (c, p, r) ↦ elim (List-cases (skip_blanks (take_word (c ∷ p)).1)) [
    | inl s ↦ absurd (ground arith)
    | inr (d, q, s) ↦ (c, p, d, q, r, ground arith, ground arith, s, ground arith)
  ]
]

pub split_args-IsSplit :
    (args : Bytes) (size : ℕ) (word text : Bytes)
    → split_args args size ≡ some (word, text)
    → IsSplit args size word text
split_args-IsSplit args size word text e =
    let (c, p, d, q, r, w, t, s, x) = split_args_inv args size word text e in
    let (b, hb, eb, ink) = skip_blanks_lem args in
    let (f, hw, hr) = take_word_lem (c ∷ p) in
    rw (x) (
      IsSplit-scan args b (take_word (c ∷ p)).1 c p size d q word hb (eb ∙ ap (◌++◌ b) r)
        (f ∙ ap (λ z. z ++ (take_word (c ∷ p)).1) (sym w)) (rw w hw) hr t s)
