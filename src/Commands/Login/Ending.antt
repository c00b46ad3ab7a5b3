-- ===== src/Commands/Login/Ending.antt =====
-- The login dialogue comes to its end: each round takes input.
use tcpclient.Base.{
  if-holds, ◌==◌, length, Bytes, ℕ, zero, suc, ◌+◌, ◌-◌, ◌≤◌, ◌<◌, ◌≡◌, refl, sym, ap, Bool, true,
  false, ◌||◌, Option, none, some, [], ◌∷◌, arith,
}
use tcpclient.Utils.{max_username_len, max_password_len, utils_trim_newline}
use tcpclient.System.{Notice, Os, ask_user, ask_password, credentials_empty, answer_too_long, line}
use tcpclient.Client.{Client}
use tcpclient.Ui.{emit}
use tcpclient.Commands.Login.{
  take_line, fgets, has_newline, drain_stdin, prompt_rounds, prompt_line, send_auth, is_empty,
  login_rounds, commands_login,
}

take_line-le : (room : ℕ) (input : Bytes) → length (take_line room input).1 ≤ length input
unfolding take_line
take_line-le zero input = omega arith
take_line-le (suc room) [] = omega arith
take_line-le (suc room) (c ∷ input) =
    if-holds (λ (r : Bytes × Bytes). length r.1 ≤ suc (length input)) (c == b'\n')
      (λ e. omega arith) (λ e. omega (arith, take_line-le room input))

take_line-lt :
    (room : ℕ) (c : ℕ) (input : Bytes)
    → length (take_line (suc room) (c ∷ input)).1 < suc (length input)
unfolding take_line
take_line-lt room c input =
    if-holds (λ (r : Bytes × Bytes). length r.1 < suc (length input)) (c == b'\n')
      (λ e. omega arith) (λ e. omega (arith, take_line-le room input))

-- A line that is read leaves less input.
fgets-shorter :
    (size : ℕ) (input : Bytes) {r : Bytes × Bytes}
    → 2 ≤ size
    → fgets size input ≡ some r
    → length r.1 < length input
unfolding fgets
fgets-shorter size [] h e = absurd (cc)
fgets-shorter size (c ∷ input) {r} h e =
    let room : size - 1 ≡ suc (size - 2) = omega arith in
    let rest : r.1 ≡ (take_line (size - 1) (c ∷ input)).1 =
      ap (λ (o : Option (Bytes × Bytes)). elim o [ none ↦ [] | some p ↦ p.1 ]) (sym e) in
    let short : length (take_line (size - 1) (c ∷ input)).1 < suc (length input) =
      rw room (take_line-lt (size - 2) c input) in
    omega (arith, short, ap length rest)

drain_stdin-le : (input : Bytes) → length (drain_stdin input) ≤ length input
unfolding drain_stdin
drain_stdin-le [] = omega arith
drain_stdin-le (c ∷ input) =
    if-holds (λ (s : Bytes). length s ≤ suc (length input)) (c == b'\n') (λ e. omega arith)
      (λ e. omega (arith, drain_stdin-le input))

-- One round of `prompt_rounds`, with what the rounds behind it do.
abbrev Rounds : Type 0
Rounds = Bytes → Client → Client × Bytes × Option Bytes

abbrev on_newline : Rounds → ℕ → Bytes → Bytes → Client → Bool → Client × Bytes × Option Bytes
on_newline later size buf rest c b = elim b [
  | true ↦ (c, rest, some (utils_trim_newline buf))
  | false ↦ later (drain_stdin rest) (emit (line (answer_too_long (size - 1))) c)
]

abbrev on_line : Rounds → ℕ → Client → Option (Bytes × Bytes) → Client × Bytes × Option Bytes
on_line later size c o = elim o [
  | none ↦ (c, [], none)
  | some (buf, rest) ↦ on_newline later size buf rest c (has_newline buf)
]

-- More fuel than bytes of input changes nothing.
prompt_rounds_fuel :
    (f g : ℕ) (label : Notice) (size : ℕ) (input : Bytes) (c : Client)
    → 2 ≤ size
    → length input < f
    → length input < g
    → prompt_rounds f label size input c ≡ prompt_rounds g label size input c
unfolding prompt_rounds
prompt_rounds_fuel zero g label size input c h k l = absurd (omega arith)
prompt_rounds_fuel (suc f) zero label size input c h k l = absurd (omega arith)
prompt_rounds_fuel (suc f) (suc g) label size input c h k l =
    by_line (fgets size input) (λ r e. fgets-shorter size input {r = r} h e)
      (λ s d le. prompt_rounds_fuel f g label size s d h (omega (arith, le)) (omega (arith, le)))
  where
    by_line :
        (o : Option (Bytes × Bytes))
        → ((r : Bytes × Bytes) → o ≡ some r → length r.1 < length input)
        → ((s : Bytes) (d : Client)
            → length s < length input
            → prompt_rounds f label size s d ≡ prompt_rounds g label size s d)
        → on_line (prompt_rounds f label size) size (emit (line label) c) o
          ≡ on_line (prompt_rounds g label size) size (emit (line label) c) o
    by_line none shorter later = refl
    by_line (some (buf, rest)) shorter later = by_newline (has_newline buf)
      where
        by_newline :
            (b : Bool)
            → on_newline (prompt_rounds f label size) size buf rest (emit (line label) c) b
              ≡ on_newline (prompt_rounds g label size) size buf rest (emit (line label) c) b
        by_newline true = refl
        by_newline false =
            later (drain_stdin rest) _
              (omega (arith, drain_stdin-le rest, shorter (buf, rest) refl))

-- What is left of the input; an answer has taken some of it.
abbrev Shrinks : Bytes → Client × Bytes × Option Bytes → Type 0
Shrinks input r =
    (length r.1 ≤ length input) × ((answer : Bytes) → r.2 ≡ some answer → length r.1 < length input)

weaken-Shrinks :
    (s input : Bytes) (r : Client × Bytes × Option Bytes)
    → length s ≤ length input
    → Shrinks s r
    → Shrinks input r
weaken-Shrinks s input r le h =
    (omega (arith, le, h.0), λ answer e. omega (arith, le, h.1 answer e))

prompt_rounds-Shrinks :
    (fuel : ℕ) (label : Notice) (size : ℕ) (input : Bytes) (c : Client)
    → 2 ≤ size
    → Shrinks input (prompt_rounds fuel label size input c)
unfolding prompt_rounds
prompt_rounds-Shrinks zero label size input c h = (omega arith, λ answer e. absurd (cc))
prompt_rounds-Shrinks (suc fuel) label size input c h =
    by_line (fgets size input) (λ r e. fgets-shorter size input {r = r} h e)
      (λ s d. prompt_rounds-Shrinks fuel label size s d h)
  where
    by_line :
        (o : Option (Bytes × Bytes))
        → ((r : Bytes × Bytes) → o ≡ some r → length r.1 < length input)
        → ((s : Bytes) (d : Client) → Shrinks s (prompt_rounds fuel label size s d))
        → Shrinks input (on_line (prompt_rounds fuel label size) size (emit (line label) c) o)
    by_line none shorter later = (omega arith, λ answer e. absurd (cc))
    by_line (some (buf, rest)) shorter later = by_newline (has_newline buf)
      where
        by_newline :
            (b : Bool)
            → Shrinks input
                (on_newline (prompt_rounds fuel label size) size buf rest (emit (line label) c) b)
        by_newline true =
            (omega (arith, shorter (buf, rest) refl), λ answer e. shorter (buf, rest) refl)
        by_newline false =
            let d : Client = emit (line (answer_too_long (size - 1))) (emit (line label) c) in
            weaken-Shrinks (drain_stdin rest) input
              (prompt_rounds fuel label size (drain_stdin rest) d)
              (omega (arith, drain_stdin-le rest, shorter (buf, rest) refl))
              (later (drain_stdin rest) d)

prompt_line-Shrinks :
    (label : Notice) (size : ℕ) (input : Bytes) (c : Client)
    → 2 ≤ size
    → Shrinks input (prompt_line label size input c)
unfolding prompt_line
prompt_line-Shrinks label size input c h =
    prompt_rounds-Shrinks (length input + 1) label size input c h

-- One round of `login_rounds`, by the two answers.
abbrev Logins : Type 0
Logins = Bytes → Client → Client × Bytes × Bool

abbrev on_empty : Os → Logins → Bytes → Bytes → Client → Bytes → Bool → Client × Bytes × Bool
on_empty os later u p c input b = elim b [
  | true ↦ later input (emit (line credentials_empty) c)
  | false ↦ let (c3, sent_ok) = send_auth os u p c in (c3, input, sent_ok)
]

abbrev on_password : Os → Logins → Bytes → Client × Bytes × Option Bytes → Client × Bytes × Bool
on_password os later u r = elim r.2 [
  | none ↦ (r.0, r.1, false)
  | some p ↦ on_empty os later u p r.0 r.1 (is_empty u || is_empty p)
]

abbrev on_user : Os → Logins → Client × Bytes × Option Bytes → Client × Bytes × Bool
on_user os later r = elim r.2 [
  | none ↦ (r.0, r.1, false)
  | some u ↦ on_password os later u (prompt_line ask_password max_password_len r.1 r.0)
]

login_rounds_fuel :
    (os : Os) (f g : ℕ) (input : Bytes) (c : Client)
    → length input < f
    → length input < g
    → login_rounds os f input c ≡ login_rounds os g input c
unfolding login_rounds
login_rounds_fuel os zero g input c k l = absurd (omega arith)
login_rounds_fuel os (suc f) zero input c k l = absurd (omega arith)
login_rounds_fuel os (suc f) (suc g) input c k l =
    by_user (prompt_line ask_user max_username_len input c)
      (prompt_line-Shrinks ask_user max_username_len input c (omega arith))
      (λ s d le. login_rounds_fuel os f g s d (omega (arith, le)) (omega (arith, le)))
  where
    by_user :
        (r : Client × Bytes × Option Bytes)
        → Shrinks input r
        → ((s : Bytes) (d : Client)
            → length s < length input
            → login_rounds os f s d ≡ login_rounds os g s d)
        → on_user os (login_rounds os f) r ≡ on_user os (login_rounds os g) r
    by_user (c1, input1, none) h later = refl
    by_user (c1, input1, some u) h later =
        by_password (prompt_line ask_password max_password_len input1 c1)
          (prompt_line-Shrinks ask_password max_password_len input1 c1 (omega arith))
      where
        by_password :
            (r : Client × Bytes × Option Bytes)
            → Shrinks input1 r
            → on_password os (login_rounds os f) u r ≡ on_password os (login_rounds os g) u r
        by_password (c2, input2, none) h' = refl
        by_password (c2, input2, some p) h' = by_empty (is_empty u || is_empty p)
          where
            by_empty :
                (b : Bool)
                → on_empty os (login_rounds os f) u p c2 input2 b
                  ≡ on_empty os (login_rounds os g) u p c2 input2 b
            by_empty true = later input2 _ (omega (arith, h.0, h'.1 p refl))
            by_empty false = refl

-- The loops of the login dialogue end, whatever stands on standard input: from any number of rounds
-- above the input's length on, more rounds change nothing, neither for the loop of `prompt_line`
-- with a buffer of two bytes or more, nor for the loop of `commands_login`.
pub login_ends :
    (os : Os) (fuel : ℕ) (label : Notice) (size : ℕ) (input : Bytes) (c : Client)
    → length input < fuel
    → 2 ≤ size
    → (prompt_rounds fuel label size input c ≡ prompt_line label size input c)
      × (login_rounds os fuel input c ≡ commands_login os input c)
unfolding prompt_line commands_login
login_ends os fuel label size input c k h = (
  prompt_rounds_fuel fuel (length input + 1) label size input c h k (omega arith),
  login_rounds_fuel os fuel (length input + 1) input c k (omega arith),
)
