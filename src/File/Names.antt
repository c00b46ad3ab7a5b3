-- ===== src/File/Names.antt =====
-- File names: `file_basename_sanitize`, `file_unique_name` and `file_join_path`.
pub mod Safety
use mathlib.Core.List.{map}
use tcpclient.Base.{
  ltb, leb, ◌==◌, if◌then◌else◌, length, Bytes, codes, str_equal, ℕ, zero, suc, ◌+◌, Bool, not,
  ◌||◌, Option, none, some, [], ◌∷◌, ◌++◌,
}
use tcpclient.Utils.{decimal}

abbrev pub is_separator : ℕ → Bool
is_separator c = c == b'/' || c == b'\\'

-- The loop over `raw`: `base` is what stands behind the last separator seen.
unfoldable pub base_loop : Bytes → Bytes → Bytes
base_loop base [] = base
base_loop base (c ∷ p) = base_loop (if is_separator c then p else base) p

-- `(c < 0x20) ? '_' : c` on a `char`, which is signed on the program's platform (x86-64): the
-- bytes from 128 on are negative, so they are replaced too.
unfoldable pub clean : ℕ → ℕ
clean c = if ltb c 0x20 || leb 128 c then b'_' else c

unfoldable pub file_basename_sanitize : Bytes → ℕ → Option Bytes
file_basename_sanitize raw out_sz =
    let base = base_loop raw raw in
    if length base == 0 || leb out_sz (length base)
    then none
    else if str_equal base (codes ".") || str_equal base (codes "..")
    then none
    else some (map clean base)

abbrev pub candidate_size : ℕ
candidate_size = 512

-- base, base (1), base (2) …
unfoldable pub candidate : Bytes → ℕ → Bytes
candidate base i = if i == 0 then base else base ++ (codes " (" ++ (decimal i ++ codes ")"))

-- The loop, with the rounds that are left and the number of this one.
unfoldable pub unique_loop : Bytes → (Bytes → Bool) → ℕ → ℕ → ℕ → Option Bytes
unique_loop base exists out_sz zero i = none
unique_loop base exists out_sz (suc rounds) i =
    let later = unique_loop base exists out_sz rounds (i + 1) in
    let name = candidate base i in
    if leb candidate_size (length name)
    then none
    else if not (exists name)
    then (if leb out_sz (length name) then none else some name)
    else later

unfoldable pub file_unique_name : Bytes → (Bytes → Bool) → ℕ → Option Bytes
file_unique_name base exists out_sz = unique_loop base exists out_sz 1000 0

unfoldable pub file_join_path : Bytes → Bytes → ℕ → Option Bytes
file_join_path dir name out_sz =
    let path = dir ++ (b'/' ∷ name) in if leb out_sz (length path) then none else some path
