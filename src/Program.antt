-- ===== src/Program.antt =====
-- src/main.c, with `app_connect` and `app_destroy` of src/app.c: the program from its arguments to
-- its exit code. The answers of the kernel and of the allocator are the record `World`.
pub mod Port
pub mod Release
pub mod Running
use tcpclient.Base.{
  ltb, leb, ◌==◌, if◌then◌else◌, length, Bytes, ℕ, ◌+◌, ◌-◌, ◌*◌, ◌^◌, ◌⊎◌, Bool, true, false, not,
  ◌&&◌, ◌||◌, Option, none, some, List, [], ◌∷◌,
}
use tcpclient.Conn.{
  Attempt, conn_connect, descriptors_after, Conn, Held, conn_close, conn, unresolved, refused,
}
use tcpclient.System.{Os}
use tcpclient.Client.{Client, start}
use tcpclient.File.Events.{file_reset_all}
use tcpclient.App.{rbuf_init, App, Turn, app_run}
use tcpclient.App.Login.{login_turns, login_loop, logged_in, failed, still_waiting, login_undefined}

-- `isspace` in the C locale.
unfoldable pub is_space : ℕ → Bool
is_space c = c == b' ' || (leb 9 c && leb c 13)

unfoldable pub skip_spaces : Bytes → Bytes
skip_spaces [] = []
skip_spaces (c ∷ s) = if is_space c then skip_spaces s else c ∷ s

-- The value of the digits in front, on top of `v`, whether there was one, and the rest.
unfoldable pub strtol_digits : ℕ → Bool → Bytes → ℕ × Bool × Bytes
strtol_digits v any [] = (v, any, [])
strtol_digits v any (c ∷ s) =
    let further = strtol_digits (v * 10 + (c - b'0')) true s in
    if leb b'0' c && leb c b'9' then further else (v, any, c ∷ s)

-- What `strtol(s, &end, 10)` answers: a sign, a magnitude, whether `end` moved, and what `end`
-- shows.
pub record Strtol : Type 0 where
  pub negative : Bool
  pub magnitude : ℕ
  pub moved : Bool
  pub tail : Bytes

abbrev signed : Bool → ℕ × Bool × Bytes → Strtol
signed negative (v, any, tail) = record {
  negative = negative;
  magnitude = v;
  moved = any;
  tail = tail;
}

unfoldable pub strtol_sign : Bytes → Strtol
unfolding strtol_digits
strtol_sign [] = signed false (strtol_digits 0 false [])
strtol_sign (c ∷ s) =
    if c == b'-'
    then signed true (strtol_digits 0 false s)
    else if c == b'+'
    then signed false (strtol_digits 0 false s)
    else signed false (strtol_digits 0 false (c ∷ s))

unfoldable pub strtol : Bytes → Strtol
unfolding strtol_sign
strtol s = strtol_sign (skip_spaces s)

-- `errno != 0` of `strtol`: the value is no 64-bit `long`.
unfoldable pub out_of_long : Strtol → Bool
out_of_long r = if r.negative then ltb (2 ^ 63) r.magnitude else leb (2 ^ 63) r.magnitude

-- The test on what `strtol` answers; `none` is the message and EXIT_FAILURE.
unfoldable pub port_in_range : Strtol → Option ℕ
unfolding out_of_long
port_in_range r =
    if out_of_long r
      || not r.moved
      || not (length r.tail == 0)
      || r.negative
      || ltb r.magnitude 1
      || ltb 65535 r.magnitude
    then none
    else some r.magnitude

unfoldable pub port_of : Bytes → Option ℕ
unfolding strtol port_in_range
port_of arg = port_in_range (strtol arg)

-- What the program finds: for `conn_connect` with this port, for the allocator, while it waits in
-- `login_loop` and in `app_run`, and on standard input.
pub record World : Type 0 where
  pub addresses : ℕ → ℕ ⊎ List Attempt
  pub calloc_ok : Bool
  pub malloc_ok : Bool
  pub login_turns : List Turn
  pub turns : List Turn
  pub input : Bytes

-- The application at the end of a call, with its connection and what the process holds.
pub record Process : Type 0 where
  pub app : App
  pub conn : Option Conn
  pub held : Held

-- `app_destroy`
unfoldable pub app_destroy : Process → Process
app_destroy p =
    let held : Held = conn_close p.conn p.held in
    record {
      app = record (p.app) { client = file_reset_all p.app.client };
      conn = none;
      held = record held { blocks = held.blocks - 2 };
    }

-- How `app_connect` ends: NULL, with what the process holds then, or an application; or not within
-- the given turns, or outside defined behaviour.
pub data Connected : Type 0 where
  not_connected : Client → Held → Connected
  ready : Process → Connected
  connecting : Connected
  connect_undefined : Connected

abbrev pub nothing_held : Held
nothing_held = record { descriptors = 0; blocks = 0 }

abbrev pub new_app : World → App
new_app w = record {
  client = start;
  rbuf = [];
  rbuf_cap = rbuf_init;
  running = true;
  input = w.input;
}

-- Behind `conn_connect`, with the descriptor and the number of those that are open.
unfoldable pub connect_app : Os → World → ℕ → ℕ → Connected
connect_app os w descriptors fd =
    let c : Conn = record { fd = some fd } in
    let held : Held = record { descriptors = descriptors; blocks = 1 } in
    if not w.calloc_ok
    then not_connected start (conn_close (some c) held)
    else if not w.malloc_ok
    then (let left : Held = conn_close (some c) (record held { blocks = 2 }) in
        not_connected start (record left { blocks = left.blocks - 1 }))
    else let held : Held = record held { blocks = 3 } in
      elim (login_loop os w.login_turns (new_app w)) [
        | logged_in a ↦ ready (record {
          app = record a { client = file_reset_all a.client };
          conn = some c;
          held = held;
        })
        | failed a ↦
            let p : Process = app_destroy (record { app = a; conn = some c; held = held }) in
            not_connected p.app.client p.held
        | still_waiting a ↦ connecting
        | login_undefined ↦ connect_undefined
      ]

unfoldable pub app_connect : Os → World → ℕ → Connected
app_connect os w port =
    let descriptors = descriptors_after (w.addresses port) in
    elim (conn_connect (w.addresses port)) [
      | conn fd ↦ connect_app os w descriptors fd
      | unresolved e ↦ not_connected start (record { descriptors = descriptors; blocks = 0 })
      | refused e ↦ not_connected start (record { descriptors = descriptors; blocks = 0 })
    ]

-- The end of `main`: the exit code 0 or 1, with the transfers and what the process holds.
pub data Exit : Type 0 where
  exit : ℕ → Client → Held → Exit
  unfinished : Exit
  exit_undefined : Exit

-- Behind `app_connect`. `app_run` always returns 0.
unfoldable pub run_and_destroy : Os → World → Process → Exit
run_and_destroy os w p = elim (app_run os w.turns p.app) [
  | none ↦ exit_undefined
  | some (a, ended) ↦
      let q = app_destroy (record p { app = a }) in
      if ended then exit 0 q.app.client q.held else unfinished
]

unfoldable pub with_port : Os → World → ℕ → Exit
with_port os w port = elim (app_connect os w port) [
  | not_connected c held ↦ exit 1 c held
  | ready p ↦ run_and_destroy os w p
  | connecting ↦ unfinished
  | connect_undefined ↦ exit_undefined
]

-- `main`, with the arguments behind the program's name.
unfoldable pub main : Os → World → List Bytes → Exit
main os w (host ∷ []) = with_port os w 18080
main os w (host ∷ port ∷ []) = elim (port_of port) [
  | none ↦ exit 1 start nothing_held
  | some p ↦ with_port os w p
]
main os w [] = exit 1 start nothing_held
main os w (host ∷ port ∷ other ∷ rest) = exit 1 start nothing_held
