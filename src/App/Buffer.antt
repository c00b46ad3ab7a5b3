-- ===== src/App/Buffer.antt =====
-- The bound of the read buffer of `app_t`.
use tcpclient.Base.{
  if-holds, option-holds, ltb, length, drop, All, length-drop, All-append, Bytes, IsByte, ℕ, zero,
  suc, ◌*◌, ◌≤◌, ◌<◌, ◌≡◌, refl, ◌⊎◌, inl, inr, Bool, true, false, not, Option, none, some, [], ◌∷◌,
  ◌++◌, arith,
}
use tcpclient.System.{Os, disconnected, recv_failed}
use tcpclient.Client.{Client}
use tcpclient.Protocol.{Parsed, protocol_parse, need_more, bad, frame}
use tcpclient.Protocol.Parsing.{parse_frame-append}
use tcpclient.App.{
  rbuf_init, rbuf_max, App, stop_with, app_ensure_capacity, app_handle_frame, Dispatched,
  dispatch_loop, app_dispatch, RecvAnswer, app_handle_socket, leftover, broken_stream, undefined,
  received, recv_eintr, recv_error,
}
use tcpclient.App.Dispatching.{on_parsed, after_loop, waiting-bound}

-- Between two calls: the buffer waits for more, and it was doubled once at most.
pub record Buffered (a : App) : Type 0 where
  pub small : length a.rbuf < 65540
  pub bytes : All IsByte a.rbuf
  pub cap : (a.rbuf_cap ≡ rbuf_init) ⊎ (a.rbuf_cap ≡ 2 * rbuf_init)

-- The bytes that are left over wait for more.
abbrev Settled : Dispatched → Type 0
Settled (leftover buf c) = (length buf < 65540) × All IsByte buf
Settled (broken_stream c) = Unit
Settled undefined = Unit

All-drop : (n : ℕ) (xs : Bytes) → All IsByte xs → All IsByte (drop n xs)
All-drop zero xs h = h
All-drop (suc n) [] h = h
All-drop (suc n) (x ∷ xs) h = All-drop n xs h.1

dispatch_loop-Settled :
    (os : Os) (fuel : ℕ) (buf : Bytes) (c : Client)
    → length buf ≤ fuel
    → All IsByte buf
    → Settled (dispatch_loop os fuel buf c)
unfolding dispatch_loop
dispatch_loop-Settled os zero buf c le h = (omega (arith, le), h)
dispatch_loop-Settled os (suc fuel) buf c le h = by_parsed (protocol_parse buf) refl (λ n c' pos.
    dispatch_loop-Settled os fuel (drop n buf) c' (omega (arith, length-drop n buf))
      (All-drop n buf h))
  where
    by_parsed :
        (p : Parsed)
        → protocol_parse buf ≡ p
        → ((n : ℕ) (c' : Client) → 0 < n → Settled (dispatch_loop os fuel (drop n buf) c'))
        → Settled (on_parsed os fuel buf c p)
    by_parsed need_more e later = (waiting-bound buf h e, h)
    by_parsed bad e later = tt
    by_parsed (frame t v n consumed) e later =
        option-holds Settled (app_handle_frame os t v n c) tt (λ c' answered.
          later consumed c' (omega (arith, parse_frame-append buf [] t v n consumed e)))

doubled-Buffered :
    (a : App)
    → Buffered a
    → a.rbuf_cap ≤ length a.rbuf
    → Buffered (record a { rbuf_cap = a.rbuf_cap * 2 })
doubled-Buffered a b h = record {
  small = b.small;
  bytes = b.bytes;
  cap = elim b.cap [
    | inl once ↦ inr (omega arith)
    | inr twice ↦ absurd (omega (arith, b.small, twice))
  ];
}

-- While the buffer is within its bound and `realloc` succeeds, `app_ensure_capacity` makes room for
-- one byte at least, keeps the bytes and the bound, and never meets the limit of 256 KB.
pub app_ensure_capacity-Buffered :
    (a : App)
    → Buffered a
    → ((app_ensure_capacity true a).1 ≡ true)
      × ((app_ensure_capacity true a).0.rbuf ≡ a.rbuf)
      × (length a.rbuf < (app_ensure_capacity true a).0.rbuf_cap)
      × Buffered (app_ensure_capacity true a).0
unfolding app_ensure_capacity
app_ensure_capacity-Buffered a b =
    let P : App × Bool → Type 0 =
      λ r. (r.1 ≡ true) × (r.0.rbuf ≡ a.rbuf) × (length a.rbuf < r.0.rbuf_cap) × Buffered (r.0) in
    if-holds P (ltb (length a.rbuf) a.rbuf_cap) (λ e. (refl, refl, ground arith, b))
      (λ e.
        if-holds P (ltb rbuf_max (a.rbuf_cap * 2)) (λ over. absurd (limit over))
          (λ under. (refl, refl, doubled_room (ground arith), doubled-Buffered a b (ground arith))))
  where
    limit : ltb rbuf_max (a.rbuf_cap * 2) ≡ true → ⊥
    limit over = elim b.cap [ inl once ↦ ground (arith, once) | inr twice ↦ ground (arith, twice) ]

    doubled_room : a.rbuf_cap ≤ length a.rbuf → length a.rbuf < a.rbuf_cap * 2
    doubled_room le = elim b.cap [
      | inl once ↦ omega (arith, b.small, once)
      | inr twice ↦ omega (arith, b.small, twice)
    ]

-- What a call leaves behind, unless it ends the loop.
abbrev pub Kept : Option (App × Bool) → Type 0
Kept none = Unit
Kept (some r) = (r.0.running ≡ true) → Buffered (r.0)

ensure-Kept :
    (realloc_ok : Bool) (a : App)
    → Buffered a
    → Kept (some (app_ensure_capacity realloc_ok a))
      × ((app_ensure_capacity realloc_ok a).1 ≡ true
          → Buffered (app_ensure_capacity realloc_ok a).0)
unfolding app_ensure_capacity
ensure-Kept realloc_ok a b =
    let P : App × Bool → Type 0 = λ r. Kept (some r) × (r.1 ≡ true → Buffered (r.0)) in
    if-holds P (ltb (length a.rbuf) a.rbuf_cap) (λ e. ((λ h. b), (λ h. b)))
      (λ e.
        if-holds P (ltb rbuf_max (a.rbuf_cap * 2))
          (λ over. ((λ h. absurd (cc)), (λ h. absurd (cc))))
          (λ under.
            if-holds P (not realloc_ok) (λ n. ((λ h. absurd (cc)), (λ h. absurd (cc))))
              (λ n. (
                (λ h. doubled-Buffered a b (ground arith)),
                (λ h. doubled-Buffered a b (ground arith)),
              ))))

after_loop-Kept :
    (a : App) (d : Dispatched)
    → Settled d
    → (a.rbuf_cap ≡ rbuf_init) ⊎ (a.rbuf_cap ≡ 2 * rbuf_init)
    → Kept (elim (after_loop a d) [ none ↦ none | some a2 ↦ some (a2, true) ])
after_loop-Kept a (leftover buf c) s cap = λ h. record { small = s.0; bytes = s.1; cap = cap }
after_loop-Kept a (broken_stream c) s cap = λ h. absurd (cc)
after_loop-Kept a undefined s cap = tt

-- From a buffer within its bound, and whatever bytes `recv` delivers, a call of `app_handle_socket`
-- that has defined behaviour and leaves `running` set leaves a buffer within its bound: less than
-- 65540 bytes, and a capacity that was doubled once at most.
pub app_handle_socket-Kept :
    (os : Os) (realloc_ok : Bool) (answer : RecvAnswer) (a : App)
    → Buffered a
    → ((bytes : Bytes) → answer ≡ received bytes → All IsByte bytes)
    → Kept (app_handle_socket os realloc_ok answer a)
unfolding app_handle_socket app_dispatch
app_handle_socket-Kept os realloc_ok answer a b h =
    if-holds Kept (not (app_ensure_capacity realloc_ok a).1) (λ e. (ensure-Kept realloc_ok a b).0)
      (λ e.
        by_answer (app_ensure_capacity realloc_ok a).0 answer
          ((ensure-Kept realloc_ok a b).1 (ground arith)) h)
  where
    by_answer :
        (a1 : App) (r : RecvAnswer)
        → Buffered a1
        → ((bytes : Bytes) → r ≡ received bytes → All IsByte bytes)
        → Kept (elim r [
          | received [] ↦ some (stop_with disconnected a1, false)
          | received (x ∷ bytes) ↦
              elim (app_dispatch os (record a1 { rbuf = a1.rbuf ++ (x ∷ bytes) })) [
                | none ↦ none
                | some a2 ↦ some (a2, true)
              ]
          | recv_eintr ↦ some (a1, true)
          | recv_error ↦ some (stop_with recv_failed a1, false)
        ])
    by_answer a1 (received []) b1 h = λ on. absurd (cc)
    by_answer a1 (received (x ∷ bytes)) b1 h =
        let buf : Bytes = a1.rbuf ++ (x ∷ bytes) in
        after_loop-Kept (record a1 { rbuf = buf }) (dispatch_loop os (length buf) buf a1.client)
          (dispatch_loop-Settled os (length buf) buf a1.client (omega arith)
            (All-append IsByte a1.rbuf (x ∷ bytes) b1.bytes (h (x ∷ bytes) refl)))
          b1.cap
    by_answer a1 recv_eintr b1 h = λ on. b1
    by_answer a1 recv_error b1 h = λ on. absurd (cc)
