-- ===== src/Conn.antt =====
-- src/conn.c: the connection. The kernel's answers to `send`, `socket` and `connect` are inputs.
pub mod Delivery
use tcpclient.Base.{
  take, drop, Bytes, ℕ, ◌+◌, ◌-◌, ◌⊎◌, inl, inr, Bool, true, false, Option, none, some, List, [],
  ◌∷◌, ◌++◌,
}

-- What `send` answers during one call of `conn_send_all`. The calls that matter return, so the
-- answers end: with an error other than EINTR, if the data are not all taken before.
pub data SendAnswers : Type 0 where
  broken : SendAnswers
  eintr : SendAnswers → SendAnswers
  wrote : ℕ → SendAnswers → SendAnswers

-- The loop, on the data that are left: its result (`true` is 0, `false` is -1), and the bytes that
-- the kernel took.
unfoldable pub conn_send_all : SendAnswers → Bytes → Bool × Bytes
conn_send_all a [] = (true, [])
conn_send_all broken (x ∷ data_left) = (false, [])
conn_send_all (eintr a) (x ∷ data_left) = conn_send_all a (x ∷ data_left)
conn_send_all (wrote n a) (x ∷ data_left) =
    let (result, more) = conn_send_all a (drop n (x ∷ data_left)) in
    (result, take n (x ∷ data_left) ++ more)

-- What `socket` and `connect` answer for one address; `malloc_ok` is the allocation of the handle.
pub data Attempt : Type 0 where
  socket_failed : ℕ → Attempt
  connect_failed : ℕ → Attempt
  connected : ℕ → Bool → Attempt

pub data Connection : Type 0 where
  conn : ℕ → Connection
  unresolved : ℕ → Connection
  refused : ℕ → Connection

abbrev pub enomem : ℕ
enomem = 12

-- The loop over the addresses: the handle, or `last_errno`.
unfoldable pub connect_loop : ℕ → List Attempt → Connection
connect_loop last_errno [] = refused last_errno
connect_loop last_errno (socket_failed e ∷ rest) = connect_loop e rest
connect_loop last_errno (connect_failed e ∷ rest) = connect_loop e rest
connect_loop last_errno (connected fd true ∷ rest) = conn fd
connect_loop last_errno (connected fd false ∷ rest) = refused enomem

-- `getaddrinfo` answers an error code, or one attempt for each address.
unfoldable pub conn_connect : ℕ ⊎ List Attempt → Connection
unfolding connect_loop
conn_connect (inl gai) = unresolved gai
conn_connect (inr addresses) = connect_loop 0 addresses

-- The calls of `socket` that succeed in the loop, and the calls of `close`.
unfoldable pub connect_descriptors : List Attempt → ℕ × ℕ
connect_descriptors [] = (0, 0)
connect_descriptors (socket_failed e ∷ rest) = connect_descriptors rest
connect_descriptors (connect_failed e ∷ rest) =
    let (opened, closed) = connect_descriptors rest in (opened + 1, closed + 1)
connect_descriptors (connected fd true ∷ rest) = (1, 0)
connect_descriptors (connected fd false ∷ rest) = (1, 1)

-- The descriptors that `conn_connect` leaves open: those of `socket` less those of `close`.
unfoldable pub descriptors_after : ℕ ⊎ List Attempt → ℕ
unfolding connect_descriptors
descriptors_after (inl gai) = 0
descriptors_after (inr addresses) =
    let (opened, closed) = connect_descriptors addresses in opened - closed

-- `conn_t`, whose `fd` is a descriptor, or -1 (`none`).
pub record Conn : Type 0 where
  pub fd : Option ℕ

unfoldable pub conn_get_fd : Conn → Option ℕ
conn_get_fd c = c.fd

-- What the process holds of the kernel and the heap, besides the transfers' own: the connection's
-- descriptor, and the blocks of `conn_t`, `app_t` and the read buffer.
pub record Held : Type 0 where
  pub descriptors : ℕ
  pub blocks : ℕ

-- `conn_close`: the descriptor, if there is one, and the block; nothing for NULL.
unfoldable pub conn_close : Option Conn → Held → Held
conn_close none held = held
conn_close (some c) held = elim c.fd [
  | none ↦ record held { blocks = held.blocks - 1 }
  | some fd ↦ record { descriptors = held.descriptors - 1; blocks = held.blocks - 1 }
]
