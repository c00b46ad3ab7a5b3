-- ===== src/Commands.antt =====
-- src/commands.c: the splitting of a command's arguments. `Commands.Login` is the login dialogue.
-- A line is a C string; the results that the functions write through pointers are in the `some`.
pub mod Split
pub mod Login
pub mod Dispatch
use tcpclient.Base.{
  ltb, leb, ◌==◌, if◌then◌else◌, length, drop, Bytes, ℕ, Bool, ◌||◌, Option, none, some, [], ◌∷◌,
}
use tcpclient.Utils.{uint32_max, utils_parse_u64_range}

abbrev pub is_blank : ℕ → Bool
is_blank c = c == b' ' || c == b'\t'

-- `while (*p == ' ' || *p == '\t') p++`
unfoldable pub skip_blanks : Bytes → Bytes
skip_blanks [] = []
skip_blanks (c ∷ p) = if is_blank c then skip_blanks p else c ∷ p

-- `while (*p != '\0' && *p != ' ' && *p != '\t') p++`: what is passed over, and `p`.
unfoldable pub take_word : Bytes → Bytes × Bytes
take_word [] = ([], [])
take_word (c ∷ p) =
    let (word, rest) = take_word p in if is_blank c then ([], c ∷ p) else (c ∷ word, rest)

-- The body that the three functions share: the word, if it fits, and what follows the blanks.
unfoldable pub split_args : Bytes → ℕ → Option (Bytes × Bytes)
split_args args size = elim (skip_blanks args) [
  | [] ↦ none
  | c ∷ p ↦
      let (word, rest) = take_word (c ∷ p) in
      if length word == 0 || leb size (length word)
      then none
      else elim (skip_blanks rest) [ [] ↦ none | d ∷ q ↦ some (word, d ∷ q) ]
]

unfoldable pub commands_parse_priv : Bytes → ℕ → Option (Bytes × Bytes)
commands_parse_priv text target_sz = split_args (drop 5 text) target_sz

unfoldable pub commands_parse_gmsg : Bytes → ℕ → Option (Bytes × Bytes)
commands_parse_gmsg text group_sz = split_args (drop 5 text) group_sz

unfoldable pub commands_parse_sendfile : Bytes → ℕ → ℕ → Option (Bytes × Bytes)
commands_parse_sendfile text target_sz filename_sz = elim (split_args (drop 9 text) target_sz) [
  | none ↦ none
  | some (target, filename) ↦
      if leb filename_sz (length filename) then none else some (target, filename)
]

unfoldable pub commands_parse_tid_arg : Bytes → Option ℕ
commands_parse_tid_arg arg = elim (skip_blanks arg) [
  | [] ↦ none
  | c ∷ p ↦ elim (utils_parse_u64_range (c ∷ p)) [
    | none ↦ none
    | some tid ↦ if ltb uint32_max tid then none else some tid
  ]
]
