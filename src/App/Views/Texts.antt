-- ===== src/App/Views/Texts.antt =====
-- The texts of a frame do not depend on what stands behind it.
use tcpclient.Base.{
  ltb, leb, if◌then◌else◌, length, drop, length-append, Bytes, split_nul, c_string, ℕ, zero, suc,
  ◌+◌, ◌≤◌, ◌≡◌, refl, sym, ap, ◌∙◌, Bool, true, false, ◌&&◌, Option, none, some, [], ◌∷◌, ◌++◌,
  arith, dec_lt,
}
use tcpclient.System.{server_text, online_users}
use tcpclient.Utils.{utils_read_u16_be}
use tcpclient.Client.{Client}
use tcpclient.Ui.{ui_display_incoming, ui_print_error, users_size, users_loop, online_users_text}
use tcpclient.File.Events.{file_handle_error}
use tcpclient.App.{text_of, show_text, show_error, show_users}
use tcpclient.App.Views.Memory.{drop-append, split_nul-more, c_string-more, read_u16-more, grows}

pub show_text-more :
    (m more : Bytes) (next : Bytes → Client → Client) (c : Client) {d : Client}
    → show_text (some m) next c ≡ some d
    → show_text (some (m ++ more)) next c ≡ some d
unfolding show_text text_of
show_text-more m more next c e =
    grows (c_string m) (c_string (m ++ more))
      (λ text. some (next text (ui_display_incoming (server_text text) c)))
      (λ s found. c_string-more m more {s = s} found) e

-- What `show_error` does with the message.
abbrev error_of : Option Bytes → ℕ → Client → Option Client
error_of o code c = elim o [
  | none ↦ none
  | some message ↦ some (file_handle_error code (ui_print_error code message c))
]

pub show_error-more :
    (m more : Bytes) (plen : ℕ) (c : Client) {d : Client}
    → plen ≤ length m
    → show_error (some m) plen c ≡ some d
    → show_error (some (m ++ more)) plen c ≡ some d
unfolding show_error
show_error-more m more plen c {d} le e = by_length (leb 3 plen) (λ long. ground (arith, long)) e
  where
    by_length :
        (b : Bool)
        → (b ≡ true → 3 ≤ length m)
        → (if b then error_of (c_string (drop 3 m)) (utils_read_u16_be m) c else some c) ≡ some d
        → (if b
            then error_of (c_string (drop 3 (m ++ more))) (utils_read_u16_be (m ++ more)) c
            else some c)
          ≡ some d
    by_length false h e = e
    by_length true h e =
        ap (λ t. error_of (c_string t) (utils_read_u16_be (m ++ more)) c)
          (drop-append 3 m more (h refl))
        ∙ ap (λ n. error_of (c_string (drop 3 m ++ more)) n c)
            (read_u16-more m more (omega (arith, h refl)))
        ∙ grows (c_string (drop 3 m)) (c_string (drop 3 m ++ more))
            (λ message. some (
              file_handle_error (utils_read_u16_be m)
                (ui_print_error (utils_read_u16_be m) message c)))
            (λ s found. c_string-more (drop 3 m) more {s = s} found) e

-- One round of `users_loop`, by the name that it finds.
abbrev on_name : ℕ → ℕ → ℕ → ℕ → ℕ → Bytes → Option (Bytes × Bytes) → Option Bytes
on_name fuel plen count i seen users o = elim o [
  | none ↦ none
  | some ([], rest) ↦ some users
  | some (x ∷ name, rest) ↦
      users_loop fuel plen count (i + length (x ∷ name) + 1) (seen + 1)
        (if ltb (length users + length (x ∷ name) + 2) users_size
          then users ++ ((if ltb 0 seen then b' ' ∷ [] else []) ++ (x ∷ name))
          else users)
        rest
]

users_loop-more :
    (fuel plen count i seen : ℕ) (users m more : Bytes) {text : Bytes}
    → users_loop fuel plen count i seen users m ≡ some text
    → users_loop fuel plen count i seen users (m ++ more) ≡ some text
unfolding users_loop
users_loop-more zero plen count i seen users m more e = e
users_loop-more (suc fuel) plen count i seen users m more {text} e =
    by_test (ltb i plen && ltb seen count) (split_nul m)
      (λ a b found. split_nul-more m more {a = a} {b = b} found)
      (λ i' seen' users' rest e'. users_loop-more fuel plen count i' seen' users' rest more e') e
  where
    by_test :
        (b : Bool) (o : Option (Bytes × Bytes))
        → ((a r : Bytes) → o ≡ some (a, r) → split_nul (m ++ more) ≡ some (a, r ++ more))
        → ((i' seen' : ℕ) (users' rest : Bytes)
            → users_loop fuel plen count i' seen' users' rest ≡ some text
            → users_loop fuel plen count i' seen' users' (rest ++ more) ≡ some text)
        → (if b then on_name fuel plen count i seen users o else some users) ≡ some text
        → (if b then on_name fuel plen count i seen users (split_nul (m ++ more)) else some users)
          ≡ some text
    by_test false o h later e = e
    by_test true none h later e = absurd (cc)
    by_test true (some ([], rest)) h later e =
        ap (on_name fuel plen count i seen users) (h [] rest refl) ∙ e
    by_test true (some (x ∷ name, rest)) h later e =
        ap (on_name fuel plen count i seen users) (h (x ∷ name) rest refl) ∙ later _ _ _ rest e

-- A payload of less than five bytes names nobody.
users_loop-brief :
    (plen count : ℕ) (m : Bytes) → plen ≤ 4 → users_loop (plen + 1) plen count 4 0 [] m ≡ some []
unfolding users_loop
users_loop-brief plen count m h =
    let same : plen + 1 ≡ suc plen = omega arith in
    let none_left : ltb 4 plen ≡ false = ground arith in rw (same, none_left) refl

drop_four-more :
    (plen count : ℕ) (m more : Bytes) {text : Bytes}
    → plen ≤ length m
    → users_loop (plen + 1) plen count 4 0 [] (drop 4 m) ≡ some text
    → users_loop (plen + 1) plen count 4 0 [] (drop 4 (m ++ more)) ≡ some text
drop_four-more plen count m more le e = elim (dec_lt (length m) 4) [
  | no long ↦
      rw (drop-append 4 m more (omega (arith, long)))
        (users_loop-more (plen + 1) plen count 4 0 [] (drop 4 m) more e)
  | yes brief ↦
      users_loop-brief plen count (drop 4 (m ++ more)) (omega arith)
      ∙ sym (users_loop-brief plen count (drop 4 m) (omega arith))
      ∙ e
]

-- What `online_users_text` does with its count.
abbrev users_of : ℕ → Option Bytes → Option (ℕ × Bytes)
users_of count o = elim o [ none ↦ none | some users ↦ some (count, users) ]

online_users_text-more :
    (m more : Bytes) (plen : ℕ) {r : ℕ × Bytes}
    → plen ≤ length m
    → online_users_text m plen ≡ some r
    → online_users_text (m ++ more) plen ≡ some r
unfolding online_users_text
online_users_text-more m more plen {r} le e = elim (dec_lt (length m) 2) [
  | no long ↦
      let there : ltb (length m) 2 ≡ false = ground arith in
      let there_too : ltb (length (m ++ more)) 2 ≡ false = ground (arith, length-append m more) in
      let known : users_of (utils_read_u16_be m)
            (users_loop (plen + 1) plen (utils_read_u16_be m) 4 0 [] (drop 4 m))
          ≡ some r =
        rw there at e in
      let count : ℕ = utils_read_u16_be m in
      let now : users_of count (users_loop (plen + 1) plen count 4 0 [] (drop 4 (m ++ more)))
          ≡ some r =
        grows (users_loop (plen + 1) plen count 4 0 [] (drop 4 m))
          (users_loop (plen + 1) plen count 4 0 [] (drop 4 (m ++ more)))
          (λ users. some (count, users))
          (λ users found. drop_four-more plen count m more {text = users} le found) known in
      rw there_too (
        ap (λ n. users_of n (users_loop (plen + 1) plen n 4 0 [] (drop 4 (m ++ more))))
          (read_u16-more m more (omega (arith, long)))
        ∙ now)
  | yes brief ↦
      let missing : ltb (length m) 2 ≡ true = ground arith in
      let nothing : users_of 0 none ≡ some r = rw missing at e in absurd (cc)
]

pub show_users-more :
    (m more : Bytes) (plen : ℕ) (c : Client) {d : Client}
    → plen ≤ length m
    → show_users (some m) plen c ≡ some d
    → show_users (some (m ++ more)) plen c ≡ some d
unfolding show_users
show_users-more m more plen c le e =
    grows (online_users_text m plen) (online_users_text (m ++ more) plen)
      (λ r. some (ui_display_incoming (online_users (r.0) (r.1)) c))
      (λ r found. online_users_text-more m more plen {r = r} le found) e
