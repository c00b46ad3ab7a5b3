-- ===== src/App/Dispatching.antt =====
-- The frames in the read buffer are handled once each, in their order, and the buffer's bound.
use tcpclient.Base.{
  length, drop, All, length-append, drop-length, Bytes, IsByte, ℕ, zero, suc, ◌+◌, ◌^◌, ◌≤◌, ◌<◌,
  ◌≡◌, refl, sym, ap, ◌∙◌, Option, none, some, List, [], ◌∷◌, arith,
}
use tcpclient.System.{Os, protocol_error}
use tcpclient.Utils.{utils_write_u16_be}
use tcpclient.Client.{Client}
use tcpclient.Protocol.{Parsed, protocol_parse, need_more, bad, frame}
use tcpclient.Protocol.Parsing.{
  whole_frame, view_of, parse-whole_frame, parse-parse_five, whole_frame-append,
}
use tcpclient.App.{
  App, with_client, stop_with, app_handle_frame, Dispatched, dispatch_loop, app_dispatch, leftover,
  broken_stream, undefined,
}

-- The bytes of these frames, and then `rest`.
unfoldable pub stream : List (ℕ × Bytes) → Bytes → Bytes
stream [] rest = rest
stream ((t, body) ∷ frames) rest = whole_frame t body (stream frames rest)

-- Each frame is given to `app_handle_frame` once, in the order in which they stand.
unfoldable pub handle_all : Os → List (ℕ × Bytes) → Bytes → Client → Option Client
handle_all os [] rest c = some c
handle_all os ((t, body) ∷ frames) rest c =
    elim (app_handle_frame os t (view_of body (stream frames rest)) (length body) c) [
      | none ↦ none
      | some c' ↦ handle_all os frames rest c'
    ]

abbrev pub Fits : ℕ × Bytes → Type 0
Fits f = length (f.1) < 2 ^ 16

length-whole_frame :
    (t : ℕ) (body rest : Bytes) → length (whole_frame t body rest) ≡ 5 + length body + length rest
unfolding whole_frame utils_write_u16_be
length-whole_frame t body rest = omega (arith, length-append body rest)

drop-whole_frame :
    (t : ℕ) (body rest : Bytes) → drop (5 + length body) (whole_frame t body rest) ≡ rest
drop-whole_frame t body rest =
    ap (drop (5 + length body)) (sym (whole_frame-append t body rest))
    ∙ drop-length (whole_frame t body []) rest (5 + length body)
        (omega (arith, length-whole_frame t body []))

abbrev pub outcome : Bytes → Option Client → Dispatched
outcome rest none = undefined
outcome rest (some c) = leftover rest c

-- One round of the loop, by what was parsed; and what `app_dispatch` does behind the loop.
abbrev pub on_parsed : Os → ℕ → Bytes → Client → Parsed → Dispatched
on_parsed os fuel buf c p = elim p [
  | need_more ↦ leftover buf c
  | bad ↦ broken_stream c
  | frame msg_type payload plen consumed ↦ elim (app_handle_frame os msg_type payload plen c) [
    | none ↦ undefined
    | some c' ↦ dispatch_loop os fuel (drop consumed buf) c'
  ]
]

abbrev pub after_loop : App → Dispatched → Option App
after_loop a d = elim d [
  | leftover buf c ↦ some (record a { client = c; rbuf = buf })
  | broken_stream c ↦ some (stop_with protocol_error (with_client a c))
  | undefined ↦ none
]

dispatch_with_fuel :
    (os : Os) (fuel : ℕ) (frames : List (ℕ × Bytes)) (rest : Bytes) (c : Client)
    → length (stream frames rest) ≤ fuel
    → All Fits frames
    → protocol_parse rest ≡ need_more
    → dispatch_loop os fuel (stream frames rest) c ≡ outcome rest (handle_all os frames rest c)
unfolding stream handle_all dispatch_loop
dispatch_with_fuel os zero [] rest c h ok more = refl
dispatch_with_fuel os (suc fuel) [] rest c h ok more = ap (on_parsed os fuel rest c) more
dispatch_with_fuel os zero ((t, body) ∷ frames) rest c h ok more =
    absurd (omega (arith, length-whole_frame t body (stream frames rest)))
dispatch_with_fuel os (suc fuel) ((t, body) ∷ frames) rest c h ok more =
    ap (on_parsed os fuel (whole_frame t body (stream frames rest)) c)
      (parse-whole_frame t body (stream frames rest) ok.0)
    ∙ (by_answer (app_handle_frame os t (view_of body (stream frames rest)) (length body) c) (λ c'.
        dispatch_with_fuel os fuel frames rest c'
          (omega (arith, length-whole_frame t body (stream frames rest))) ok.1 more))
  where
    by_answer :
        (o : Option Client)
        → ((c' : Client)
            → dispatch_loop os fuel (stream frames rest) c'
              ≡ outcome rest (handle_all os frames rest c'))
        → (elim o [
          | none ↦ undefined
          | some c' ↦
              dispatch_loop os fuel
                (drop (5 + length body) (whole_frame t body (stream frames rest)))
                c'
        ])
          ≡ outcome rest (elim o [ none ↦ none | some c' ↦ handle_all os frames rest c' ])
    by_answer none later = refl
    by_answer (some c') later = rw (drop-whole_frame t body (stream frames rest)) (later c')

-- Where the buffer holds whole frames and then bytes on which the parser asks for more,
-- `app_dispatch` hands each frame once to `app_handle_frame`, in their order, and leaves exactly
-- those bytes in the buffer; it is undefined only where one of the calls is.
pub app_dispatch-stream :
    (os : Os) (a : App) (frames : List (ℕ × Bytes)) (rest : Bytes)
    → a.rbuf ≡ stream frames rest
    → All Fits frames
    → protocol_parse rest ≡ need_more
    → app_dispatch os a ≡ elim (handle_all os frames rest a.client) [
      | none ↦ none
      | some c ↦ some (record a { client = c; rbuf = rest })
    ]
unfolding app_dispatch
app_dispatch-stream os a frames rest e ok more =
    ap (after_loop a) (
      ap (λ b. dispatch_loop os (length b) b a.client) e
      ∙ dispatch_with_fuel os (length (stream frames rest)) frames rest a.client (omega arith) ok
          more)
    ∙ by_answer (handle_all os frames rest a.client)
  where
    by_answer :
        (o : Option Client)
        → after_loop a (outcome rest o)
          ≡ elim o [ none ↦ none | some c ↦ some (record a { client = c; rbuf = rest }) ]
    by_answer none = refl
    by_answer (some c) = refl

-- A buffer that waits for more holds less than a frame of the largest size.
pub waiting-bound :
    (buf : Bytes) → All IsByte buf → protocol_parse buf ≡ need_more → length buf < 65540
waiting-bound [] h e = omega arith
waiting-bound (a ∷ []) h e = omega arith
waiting-bound (a ∷ b ∷ []) h e = omega arith
waiting-bound (a ∷ b ∷ t ∷ []) h e = omega arith
waiting-bound (a ∷ b ∷ t ∷ d ∷ []) h e = omega arith
waiting-bound (a ∷ b ∷ t ∷ d ∷ k ∷ rest) (ha, (hb, (ht, (hd, (hk, h))))) e =
    ground (arith, parse-parse_five a b t d k rest)
