-- ===== src/Ui/Users.antt =====
-- The buffer of the list of online users.
use tcpclient.Utils.{utils_read_u16_be}
use tcpclient.Ui.{users_size, users_loop, online_users_text}
use tcpclient.Base.{
  ltb, if◌then◌else◌, Bool-cases, length, drop, length-append, Bytes, split_nul, ℕ, zero, suc, ◌+◌,
  ◌<◌, ◌≡◌, refl, ◌⊎◌, inl, inr, ◌&&◌, Option, none, some, [], ◌∷◌, ◌++◌, arith,
}

abbrev FitsIn : ℕ → Option Bytes → Type 0
FitsIn n none = Unit
FitsIn n (some users) = length users < n

-- One name is appended only where it and a space and the NUL fit.
abbrev append_name : ℕ → Bytes → Bytes → Bytes
append_name seen users name =
    if ltb (length users + length name + 2) users_size
    then users ++ ((if ltb 0 seen then b' ' ∷ [] else []) ++ name)
    else users

append_name_fits :
    (seen : ℕ) (users name : Bytes)
    → length users < users_size
    → length (append_name seen users name) < users_size
append_name_fits seen users name h = ground (
  arith,
  length-append users ((if ltb 0 seen then b' ' ∷ [] else []) ++ name),
  length-append (if ltb 0 seen then b' ' ∷ [] else []) name,
)

split_nul-cases :
    (memory : Bytes)
    → (split_nul memory ≡ none)
      ⊎ ((rest : Bytes) × (split_nul memory ≡ some ([], rest)))
      ⊎ ((x : ℕ) × (name : Bytes) × (rest : Bytes) × (split_nul memory ≡ some (x ∷ name, rest)))
split_nul-cases memory = go (split_nul memory)
  where
    go :
        (o : Option (Bytes × Bytes))
        → (o ≡ none)
          ⊎ ((rest : Bytes) × (o ≡ some ([], rest)))
          ⊎ ((x : ℕ) × (name : Bytes) × (rest : Bytes) × (o ≡ some (x ∷ name, rest)))
    go none = inl refl
    go (some ([], rest)) = inr (inl (rest, refl))
    go (some (x ∷ name, rest)) = inr (inr (x, name, rest, refl))

users_loop_fits :
    (fuel plen count i seen : ℕ) (users memory : Bytes)
    → length users < users_size
    → FitsIn users_size (users_loop fuel plen count i seen users memory)
unfolding users_loop
users_loop_fits zero plen count i seen users memory h = h
users_loop_fits (suc fuel) plen count i seen users memory h =
    elim (Bool-cases (ltb i plen && ltb seen count)) [
      | inr stop ↦ rw stop h
      | inl go ↦ rw go (elim (split_nul-cases memory) [
        | inl e ↦ rw e tt
        | inr (inl (rest, e)) ↦ rw e h
        | inr (inr (x, name, rest, e)) ↦ rw e (
            users_loop_fits fuel plen count (i + length (x ∷ name) + 1) (seen + 1)
              (append_name seen users (x ∷ name)) rest (append_name_fits seen users (x ∷ name) h))
      ])
    ]

-- Whatever payload the server sends, where the list of users is read within the received bytes, the
-- collected text leaves room for its NUL in the buffer of 1024 bytes.
pub online_users_text_fits :
    (memory : Bytes) (plen : ℕ) {count : ℕ} {users : Bytes}
    → online_users_text memory plen ≡ some (count, users)
    → length users < users_size
unfolding online_users_text
online_users_text_fits memory plen e =
    ground
      (arith, users_loop_fits (plen + 1) plen (utils_read_u16_be memory) 4 0 [] (drop 4 memory))

-- Any two amounts of fuel that exceed the bytes of the payload still ahead give the same result, so
-- the loop over the names ends within them.
pub users_loop_fuel :
    (f g plen count i seen : ℕ) (users memory : Bytes)
    → plen < i + f
    → plen < i + g
    → users_loop f plen count i seen users memory ≡ users_loop g plen count i seen users memory
unfolding users_loop
users_loop_fuel zero zero plen count i seen users memory hf hg = refl
users_loop_fuel zero (suc g) plen count i seen users memory hf hg = ground arith
users_loop_fuel (suc f) zero plen count i seen users memory hf hg = ground arith
users_loop_fuel (suc f) (suc g) plen count i seen users memory hf hg =
    elim (Bool-cases (ltb i plen && ltb seen count)) [
      | inr stop ↦ rw stop
      | inl go ↦ rw go (elim (split_nul-cases memory) [
        | inl e ↦ rw e
        | inr (inl (rest, e)) ↦ rw e
        | inr (inr (x, name, rest, e)) ↦ rw e (
            users_loop_fuel f g plen count (i + length (x ∷ name) + 1) (seen + 1)
              (append_name seen users (x ∷ name)) rest (omega arith) (omega arith))
      ])
    ]
