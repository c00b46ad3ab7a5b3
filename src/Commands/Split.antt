-- ===== src/Commands/Split.antt =====
-- The splitting of a command's arguments, described without the scan.
pub mod Words
use mathlib.Core.Path.{subst}
use tcpclient.Base.{
  Option-cases, length, All, Bytes, codes, ℕ, ◌^◌, ◌<◌, ◌≡◌, refl, ap, ◌∙◌, ◌≢◌, ◌↔◌, inl, inr,
  some, [], ◌∷◌, ◌++◌, arith,
}
use tcpclient.Utils.{utils_parse_u64_range}
use tcpclient.Utils.Digits.{IsDigit, value, parse_u64_range_iff}
use tcpclient.Commands.{
  skip_blanks, split_args, commands_parse_priv, commands_parse_gmsg, commands_parse_sendfile,
  commands_parse_tid_arg,
}
use tcpclient.Commands.Split.Words.{
  IsBlank, StartsInk, skip_blanks_lem, skip_blanks-append, IsSplit, IsSplit-split_args, List-cases,
  split_args-IsSplit,
}

-- `/priv`: the parser accepts exactly the lines that consist of the command, a target of one word
-- shorter than the buffer, and a message; it returns these two, the message with its inner blanks.
pub parse_priv_iff :
    (args : Bytes) (target_sz : ℕ) (target msg : Bytes)
    → (commands_parse_priv (codes "/priv" ++ args) target_sz ≡ some (target, msg))
      ↔ IsSplit args target_sz target msg
unfolding commands_parse_priv
parse_priv_iff args target_sz target msg =
    (split_args-IsSplit args target_sz target msg, IsSplit-split_args args target_sz target msg)

-- `/gmsg`: the parser accepts exactly the lines that consist of the command, a group of one word
-- shorter than the buffer, and a message; it returns these two, the message with its inner blanks.
pub parse_gmsg_iff :
    (args : Bytes) (group_sz : ℕ) (group msg : Bytes)
    → (commands_parse_gmsg (codes "/gmsg" ++ args) group_sz ≡ some (group, msg))
      ↔ IsSplit args group_sz group msg
unfolding commands_parse_gmsg
parse_gmsg_iff args group_sz group msg =
    (split_args-IsSplit args group_sz group msg, IsSplit-split_args args group_sz group msg)

-- `/sendfile`: the parser accepts exactly the lines that consist of the command, a target of one word
-- shorter than its buffer, and a file name shorter than its own; it returns these two.
pub parse_sendfile_iff :
    (args : Bytes) (target_sz filename_sz : ℕ) (target filename : Bytes)
    → (commands_parse_sendfile (codes "/sendfile" ++ args) target_sz filename_sz
        ≡ some (target, filename))
      ↔ (IsSplit args target_sz target filename × (length filename < filename_sz))
unfolding commands_parse_sendfile
parse_sendfile_iff args target_sz filename_sz target filename = (
  (λ e. let (a, b) = inverse e in (split_args-IsSplit args target_sz target filename a, b)),
  (λ h.
      let a = IsSplit-split_args args target_sz target filename h.0 in let b = h.1 in ground arith),
)
  where
    inverse :
        commands_parse_sendfile (codes "/sendfile" ++ args) target_sz filename_sz
          ≡ some (target, filename)
        → (split_args args target_sz ≡ some (target, filename)) × (length filename < filename_sz)
    inverse e = ground arith

tid_arg_inv :
    (arg : Bytes) (tid : ℕ)
    → commands_parse_tid_arg arg ≡ some tid
    → (c : ℕ) × (p : Bytes) × (skip_blanks arg ≡ c ∷ p)
      × (utils_parse_u64_range (c ∷ p) ≡ some tid)
      × (tid < 2 ^ 32)
unfolding commands_parse_tid_arg
tid_arg_inv arg tid e = elim (List-cases (skip_blanks arg)) [
  | inl r ↦ absurd (ground arith)
  | inr (c, p, r) ↦ elim (Option-cases (utils_parse_u64_range (c ∷ p))) [
    | inl s ↦ absurd (ground arith)
    | inr (n, s) ↦ (c, p, r, ground arith, ground arith)
  ]
]

digit_ink : (s : Bytes) → All IsDigit s → StartsInk s
digit_ink [] h = tt
digit_ink (c ∷ s) h = ground arith

tid_arg_of :
    (b s : Bytes) (tid : ℕ)
    → All IsBlank b
    → s ≢ []
    → All IsDigit s
    → tid ≡ value 0 s
    → tid < 2 ^ 32
    → commands_parse_tid_arg (b ++ s) ≡ some tid
unfolding commands_parse_tid_arg
tid_arg_of b [] tid hb ne d v lt = absurd (ne refl)
tid_arg_of b (c ∷ s) tid hb ne d v lt = ground (
  arith,
  skip_blanks-append b (c ∷ s) hb (digit_ink (c ∷ s) d),
  (parse_u64_range_iff (c ∷ s) tid).1 ((λ z. cc), d, v, omega arith),
)

-- The parser of a transfer id accepts exactly digits behind blanks whose value fits 32 bits.
pub parse_tid_arg_iff :
    (arg : Bytes) (tid : ℕ)
    → (commands_parse_tid_arg arg ≡ some tid) ↔ (
        (b : Bytes) × (s : Bytes) × (arg ≡ b ++ s)
        × All IsBlank b
        × (s ≢ [])
        × All IsDigit s
        × (tid ≡ value 0 s)
        × (tid < 2 ^ 32))
parse_tid_arg_iff arg tid = (read, write)
  where
    read :
        commands_parse_tid_arg arg ≡ some tid
        → (b : Bytes) × (s : Bytes) × (arg ≡ b ++ s)
          × All IsBlank b
          × (s ≢ [])
          × All IsDigit s
          × (tid ≡ value 0 s)
          × (tid < 2 ^ 32)
    read e =
        let (b, hb, eb, ink) = skip_blanks_lem arg in
        let (c, p, r, u, lt) = tid_arg_inv arg tid e in
        let (ne, d, v, x) = (parse_u64_range_iff (c ∷ p) tid).0 u in
        (b, c ∷ p, eb ∙ ap (◌++◌ b) r, hb, ne, d, v, lt)

    write :
        (b : Bytes) × (s : Bytes) × (arg ≡ b ++ s)
          × All IsBlank b
          × (s ≢ [])
          × All IsDigit s
          × (tid ≡ value 0 s)
          × (tid < 2 ^ 32)
        → commands_parse_tid_arg arg ≡ some tid
    write (b, s, e, hb, ne, d, v, lt) = rw e (tid_arg_of b s tid hb ne d v lt)
