-- ===== src/Base/Strings.antt =====
-- Bytes and C strings. A byte is a number; a C string is the list of its bytes before the NUL.
use Prim.Native.Nat.{ℕ, ◌<◌}
use Prim.Native.Char.{code}
use Prim.Native.String.{String}
use mathlib.Core.Path.{◌≡◌, refl}
use mathlib.Core.Logic.{◌≢◌, ◌↔◌, inl, inr}
use mathlib.Core.Bool.{Bool, true, false, ◌&&◌, ◌||◌}
use mathlib.Core.Option.{Option, none, some}
use mathlib.Core.List.{List, [], ◌∷◌, ◌++◌}
use native.Mathlib.Omega.{arith}
use tcpclient.Base.Tests.{◌==◌, if◌then◌else◌, Option-cases}
use tcpclient.Base.Lists.{All}

abbrev pub Bytes : Type 0
Bytes = List ℕ

abbrev pub IsByte : ℕ → Type 0
IsByte b = b < 256

-- The bytes of a literal; every literal is ASCII.
abbrev pub codes : String → Bytes
codes String.[] = []
codes (String.◌∷◌ c s) = code c ∷ codes s

-- `strcmp(a, b) == 0`
unfoldable pub str_equal : Bytes → Bytes → Bool
str_equal [] [] = true
str_equal (x ∷ xs) (y ∷ ys) = x == y && str_equal xs ys
str_equal _ _ = false

-- `strncmp(s, prefix, strlen(prefix)) == 0`
unfoldable pub starts_with : Bytes → Bytes → Bool
starts_with [] s = true
starts_with (x ∷ xs) [] = false
starts_with (x ∷ xs) (y ∷ ys) = x == y && starts_with xs ys

-- `strstr(s, needle) != NULL`
unfoldable pub contains : Bytes → Bytes → Bool
unfolding starts_with
contains needle [] = starts_with needle []
contains needle (c ∷ s) = starts_with needle (c ∷ s) || contains needle s

-- What a read of memory finds before the first NUL and behind it; `none` if there is no NUL.
unfoldable pub split_nul : Bytes → Option (Bytes × Bytes)
split_nul [] = none
split_nul (c ∷ s) =
    let rest = split_nul s in
    if c == 0 then some ([], s) else elim rest [ none ↦ none | some (a, b) ↦ some (c ∷ a, b) ]

-- The C string that starts in front of `memory`; `none` if it runs out of `memory`.
unfoldable pub c_string : Bytes → Option Bytes
unfolding split_nul
c_string memory = elim (split_nul memory) [ none ↦ none | some (text, _) ↦ some text ]

-- A C string holds no NUL.
abbrev pub IsText : Bytes → Type 0
IsText = All (λ c. c ≢ 0)

pub split_nul-append : (s rest : Bytes) → IsText s → split_nul (s ++ (0 ∷ rest)) ≡ some (s, rest)
unfolding split_nul
split_nul-append [] rest h = refl
split_nul-append (c ∷ s) rest h = ground (arith, split_nul-append s rest h.1)

pub c_string-append : (s rest : Bytes) → IsText s → c_string (s ++ (0 ∷ rest)) ≡ some s
unfolding c_string
c_string-append s rest h = ground (arith, split_nul-append s rest h)

pub split_nul-eq : (m a b : Bytes) → split_nul m ≡ some (a, b) → (m ≡ a ++ (0 ∷ b)) × IsText a
unfolding split_nul
split_nul-eq [] a b h = cc
split_nul-eq (c ∷ s) a b h = elim (Option-cases (split_nul s)) [
  | inl e ↦ ground arith
  | inr ((u, v), e) ↦ ground (arith, split_nul-eq s u v e)
]

pub str_equal_iff : (a b : Bytes) → (str_equal a b ≡ true) ↔ (a ≡ b)
unfolding str_equal
str_equal_iff (x ∷ a) (y ∷ b) = ground (arith, str_equal_iff a b)
str_equal_iff _ _ = ground arith

pub starts_with-append : (p s : Bytes) → starts_with p (p ++ s) ≡ true
unfolding starts_with
starts_with-append [] s = refl
starts_with-append (x ∷ p) s = ground (arith, starts_with-append p s)

pub contains-append : (n a s : Bytes) → contains n (a ++ (n ++ s)) ≡ true
unfolding contains
contains-append [] [] [] = refl
contains-append [] [] (x ∷ s) = refl
contains-append (y ∷ n) [] s = ground (arith, starts_with-append (y ∷ n) s)
contains-append n (x ∷ a) s = ground (arith, contains-append n a s)
