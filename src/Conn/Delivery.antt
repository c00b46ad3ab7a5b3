-- ===== src/Conn/Delivery.antt =====
-- What `conn_send_all` delivers, and which address `conn_connect` takes.
use tcpclient.Base.{
  length, take, drop, All, length-drop, take-append-drop, Bytes, ℕ, ◌+◌, ◌≤◌, ◌≡◌, refl, sym, ◌∙◌,
  ◌⊎◌, inl, inr, Bool, true, false, List, [], ◌∷◌, ◌++◌, append_assoc, arith,
}
use tcpclient.Conn.{
  SendAnswers, conn_send_all, Attempt, Connection, connect_loop, conn_connect, connect_descriptors,
  descriptors_after, broken, eintr, wrote, socket_failed, connect_failed, connected, conn,
  unresolved, refused,
}

-- The kernel has taken all of `data`, or a proper beginning of it.
abbrev pub Delivers : Bytes → Bool × Bytes → Type 0
Delivers sent (true, taken) = taken ≡ sent
Delivers sent (false, taken) = (x : ℕ) × (rest : Bytes) × (sent ≡ taken ++ (x ∷ rest))

Delivers-take :
    (n : ℕ) (s : Bytes) (r : Bool × Bytes)
    → Delivers (drop n s) r
    → Delivers s (r.0, take n s ++ r.1)
Delivers-take n s (true, taken) h = rw h (take-append-drop n s)
Delivers-take n s (false, taken) (x, rest, h) =
    (x, rest, sym (take-append-drop n s) ∙ rw h (sym (append_assoc (take n s) taken (x ∷ rest))))

-- However `send` splits and interrupts the transfer, `conn_send_all` returns 0 only when exactly
-- the given bytes went out, in order; if it returns -1, a proper beginning of them went out.
pub conn_send_all-Delivers : (a : SendAnswers) (sent : Bytes) → Delivers sent (conn_send_all a sent)
unfolding conn_send_all
conn_send_all-Delivers a [] = refl
conn_send_all-Delivers broken (x ∷ s) = (x, s, refl)
conn_send_all-Delivers (eintr a) (x ∷ s) = conn_send_all-Delivers a (x ∷ s)
conn_send_all-Delivers (wrote n a) (x ∷ s) =
    Delivers-take n (x ∷ s) _ (conn_send_all-Delivers a (drop n (x ∷ s)))

-- How many bytes the answers offer to take.
abbrev pub offered : SendAnswers → ℕ
offered broken = 0
offered (eintr a) = offered a
offered (wrote n a) = n + offered a

-- Where the answers of `send` take, all together, as many bytes as are given before one that is an
-- error, the call returns 0.
pub conn_send_all_completes :
    (a : SendAnswers) (sent : Bytes) → length sent ≤ offered a → (conn_send_all a sent).0 ≡ true
unfolding conn_send_all
conn_send_all_completes a [] h = refl
conn_send_all_completes broken (x ∷ s) h = absurd (omega arith)
conn_send_all_completes (eintr a) (x ∷ s) h = conn_send_all_completes a (x ∷ s) h
conn_send_all_completes (wrote n a) (x ∷ s) h =
    conn_send_all_completes a (drop n (x ∷ s)) (omega (arith, length-drop n (x ∷ s)))

abbrev Fails : Attempt → Type 0
Fails (connected fd ok) = ⊥
Fails _ = Unit

-- The first address that connects is taken, whatever failed before it and whatever follows it, where
-- the memory for its handle is granted.
pub connect_loop_first :
    (failed rest : List Attempt) (fd e : ℕ)
    → All Fails failed
    → connect_loop e (failed ++ (connected fd true ∷ rest)) ≡ conn fd
unfolding connect_loop
connect_loop_first [] rest fd e h = refl
connect_loop_first (socket_failed x ∷ failed) rest fd e h = connect_loop_first failed rest fd x h.1
connect_loop_first (connect_failed x ∷ failed) rest fd e h = connect_loop_first failed rest fd x h.1
connect_loop_first (connected x b ∷ failed) rest fd e h = absurd h.0

-- One descriptor for a connection, none for a failure.
abbrev pub expected_descriptors : Connection → ℕ
expected_descriptors (conn fd) = 1
expected_descriptors (unresolved gai) = 0
expected_descriptors (refused e) = 0

connect_descriptors_lem :
    (last : ℕ) (addresses : List Attempt)
    → (connect_descriptors addresses).0
      ≡ (connect_descriptors addresses).1 + expected_descriptors (connect_loop last addresses)
unfolding connect_descriptors connect_loop
connect_descriptors_lem last [] = refl
connect_descriptors_lem last (socket_failed e ∷ rest) = connect_descriptors_lem e rest
connect_descriptors_lem last (connect_failed e ∷ rest) =
    omega (arith, connect_descriptors_lem e rest)
connect_descriptors_lem last (connected fd true ∷ rest) = refl
connect_descriptors_lem last (connected fd false ∷ rest) = refl

-- `conn_connect` leaves open exactly the descriptor of the connection that it returns.
pub descriptors_after_lem :
    (answers : ℕ ⊎ List Attempt)
    → descriptors_after answers ≡ expected_descriptors (conn_connect answers)
unfolding descriptors_after conn_connect
descriptors_after_lem (inl gai) = refl
descriptors_after_lem (inr addresses) = omega (arith, connect_descriptors_lem 0 addresses)
