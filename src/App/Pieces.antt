-- ===== src/App/Pieces.antt =====
-- The stream may be cut anywhere: the bytes that are left over and those that come later are handled
-- as if they had come together.
use tcpclient.App.Views.Memory.{drop-append}
use tcpclient.App.Views.{app_handle_frame-more}
use tcpclient.Base.{
  if◌then◌else◌, length, drop, length-append, length-drop, Bytes, ℕ, zero, suc, ◌≤◌, ◌<◌, ◌≡◌, refl,
  sym, ap, ◌∙◌, Bool, true, false, Option, none, some, [], ◌∷◌, ◌++◌, arith,
}
use tcpclient.System.{Os, protocol_error}
use tcpclient.Ui.{ui_print}
use tcpclient.Client.{Client}
use tcpclient.Protocol.{Parsed, protocol_parse, need_more, bad, frame}
use tcpclient.Protocol.Parsing.{extend, parse-parse_five, parse_frame-append}
use tcpclient.App.{
  App, app_handle_frame, Dispatched, dispatch_loop, app_dispatch, leftover, broken_stream,
  undefined,
}
use tcpclient.App.Dispatching.{on_parsed, after_loop}

-- The pointer of a parsed frame shows its payload at least.
payload-shown :
    (buf : Bytes) {t n k : ℕ} {v : Bytes} → protocol_parse buf ≡ frame t (some v) n k → n ≤ length v
payload-shown [] h = absurd (unfold protocol_parse in cc h)
payload-shown (x ∷ []) h = absurd (unfold protocol_parse in cc h)
payload-shown (x ∷ y ∷ []) h = absurd (unfold protocol_parse in cc h)
payload-shown (x ∷ y ∷ z ∷ []) h = absurd (unfold protocol_parse in cc h)
payload-shown (x ∷ y ∷ z ∷ w ∷ []) h = absurd (unfold protocol_parse in cc h)
payload-shown (a ∷ b ∷ z ∷ d ∷ e ∷ rest) {t} {n} {k} {v} h =
    ground (arith, parse-parse_five a b z d e rest)

-- Fuel of the buffer's length is enough.
dispatch_loop_fuel :
    (os : Os) (f g : ℕ) (buf : Bytes) (c : Client)
    → length buf ≤ f
    → length buf ≤ g
    → dispatch_loop os f buf c ≡ dispatch_loop os g buf c
unfolding dispatch_loop
dispatch_loop_fuel os zero zero buf c h k = refl
dispatch_loop_fuel os zero (suc g) [] c h k = unfold protocol_parse in refl
dispatch_loop_fuel os zero (suc g) (x ∷ buf) c h k = absurd (omega arith)
dispatch_loop_fuel os (suc f) zero [] c h k = unfold protocol_parse in refl
dispatch_loop_fuel os (suc f) zero (x ∷ buf) c h k = absurd (omega arith)
dispatch_loop_fuel os (suc f) (suc g) buf c h k = by_parsed (protocol_parse buf) refl (λ n c' pos.
    dispatch_loop_fuel os f g (drop n buf) c' (omega (arith, length-drop n buf))
      (omega (arith, length-drop n buf)))
  where
    by_parsed :
        (p : Parsed)
        → protocol_parse buf ≡ p
        → ((n : ℕ) (c' : Client)
            → 0 < n
            → dispatch_loop os f (drop n buf) c' ≡ dispatch_loop os g (drop n buf) c')
        → on_parsed os f buf c p ≡ on_parsed os g buf c p
    by_parsed need_more e later = refl
    by_parsed bad e later = refl
    by_parsed (frame t v n consumed) e later =
        by_answer (app_handle_frame os t v n c)
          (λ c'. later consumed c' (omega (arith, (parse_frame-append buf [] t v n consumed e).1)))
      where
        by_answer :
            (o : Option Client)
            → ((c' : Client)
                → dispatch_loop os f (drop consumed buf) c'
                  ≡ dispatch_loop os g (drop consumed buf) c')
            → elim o as (λ (x : Option Client). Dispatched) [
              | none ↦ undefined
              | some c' ↦ dispatch_loop os f (drop consumed buf) c'
            ]
              ≡ elim o as (λ (x : Option Client). Dispatched) [
                | none ↦ undefined
                | some c' ↦ dispatch_loop os g (drop consumed buf) c'
              ]
        by_answer none later = refl
        by_answer (some c') later = later c'

abbrev left_bytes : Dispatched → Bytes
left_bytes (leftover buf c) = buf
left_bytes (broken_stream c) = []
left_bytes undefined = []

abbrev left_client : Client → Dispatched → Client
left_client d (leftover buf c) = c
left_client d (broken_stream c) = d
left_client d undefined = d

-- A frame is answered the same way when more follows.
answer-more :
    (os : Os) (t : ℕ) (v : Option Bytes) (n k : ℕ) (buf more : Bytes) (c : Client) {d : Client}
    → protocol_parse buf ≡ frame t v n k
    → app_handle_frame os t v n c ≡ some d
    → (g : ℕ)
    → on_parsed os g (buf ++ more) c (protocol_parse (buf ++ more))
      ≡ dispatch_loop os g (drop k buf ++ more) d
answer-more os t v n k buf more c {d} e answered g =
    let (same, kn, kl) = parse_frame-append buf more t v n k e in
    ap (on_parsed os g (buf ++ more) c) same
    ∙ by_view v e answered
    ∙ ap (λ b. dispatch_loop os g b d) (drop-append k buf more kl)
  where
    by_view :
        (v : Option Bytes)
        → protocol_parse buf ≡ frame t v n k
        → app_handle_frame os t v n c ≡ some d
        → on_parsed os g (buf ++ more) c (extend (frame t v n k) more)
          ≡ dispatch_loop os g (drop k (buf ++ more)) d
    by_view none e answered =
        ap
          (λ (o : Option Client). elim o as (λ (x : Option Client). Dispatched) [
            | none ↦ undefined
            | some c' ↦ dispatch_loop os g (drop k (buf ++ more)) c'
          ])
          answered
    by_view (some m) e answered =
        ap
          (λ (o : Option Client). elim o as (λ (x : Option Client). Dispatched) [
            | none ↦ undefined
            | some c' ↦ dispatch_loop os g (drop k (buf ++ more)) c'
          ])
          (app_handle_frame-more os t m more n c {d = d} (payload-shown buf {v = m} e) answered)

loop-append :
    (os : Os) (fuel g : ℕ) (buf more : Bytes) (c : Client) {rest : Bytes} {d : Client}
    → length buf ≤ fuel
    → length (buf ++ more) ≤ g
    → dispatch_loop os fuel buf c ≡ leftover rest d
    → dispatch_loop os g (buf ++ more) c ≡ dispatch_loop os (length (rest ++ more)) (rest ++ more) d
unfolding dispatch_loop
loop-append os zero g buf more c {rest} {d} h k e =
    let same : rest ≡ buf = ap left_bytes (sym e) in
    let same_client : d ≡ c = ap (left_client c) (sym e) in
    rw (same, same_client)
      (dispatch_loop_fuel os g (length (buf ++ more)) (buf ++ more) c k (omega arith))
loop-append os (suc fuel) zero [] [] c {rest} {d} h k e =
    let read_on : leftover [] c ≡ leftover rest d =
      dispatch_loop_fuel os 0 (suc fuel) [] c (omega arith) (omega arith) ∙ e in
    let same : rest ≡ [] = ap left_bytes (sym read_on) in
    let same_client : d ≡ c = ap (left_client c) (sym read_on) in rw (same, same_client) refl
loop-append os (suc fuel) zero [] (y ∷ more) c h k e = absurd (omega arith)
loop-append os (suc fuel) zero (x ∷ buf) more c h k e = absurd (omega arith)
loop-append os (suc fuel) (suc g) buf more c {rest} {d} h k e =
    by_parsed (protocol_parse buf) refl
      (λ n c' pos le e'.
        loop-append os fuel g (drop n buf) more c' {rest = rest} {d = d}
          (omega (arith, length-drop n buf))
          (omega
            (arith, length-append (drop n buf) more, length-append buf more, length-drop n buf))
          e')
      e
  where
    by_parsed :
        (p : Parsed)
        → protocol_parse buf ≡ p
        → ((n : ℕ) (c' : Client)
            → 0 < n
            → n ≤ length buf
            → dispatch_loop os fuel (drop n buf) c' ≡ leftover rest d
            → dispatch_loop os g (drop n buf ++ more) c'
              ≡ dispatch_loop os (length (rest ++ more)) (rest ++ more) d)
        → on_parsed os fuel buf c p ≡ leftover rest d
        → dispatch_loop os (suc g) (buf ++ more) c
          ≡ dispatch_loop os (length (rest ++ more)) (rest ++ more) d
    by_parsed need_more e' later e =
        let same : rest ≡ buf = ap left_bytes (sym e) in
        let same_client : d ≡ c = ap (left_client c) (sym e) in
        rw (same, same_client)
          (dispatch_loop_fuel os (suc g) (length (buf ++ more)) (buf ++ more) c k (omega arith))
    by_parsed bad e' later e = absurd (cc)
    by_parsed (frame t v n consumed) e' later e = by_answer (app_handle_frame os t v n c) refl e
      where
        by_answer :
            (o : Option Client)
            → app_handle_frame os t v n c ≡ o
            → elim o as (λ (x : Option Client). Dispatched) [
              | none ↦ undefined
              | some c' ↦ dispatch_loop os fuel (drop consumed buf) c'
            ]
              ≡ leftover rest d
            → dispatch_loop os (suc g) (buf ++ more) c
              ≡ dispatch_loop os (length (rest ++ more)) (rest ++ more) d
        by_answer none answered e = absurd (cc)
        by_answer (some c') answered e =
            let (same, kn, kl) = parse_frame-append buf more t v n consumed e' in
            answer-more os t v n consumed buf more c {d = c'} e' answered g
            ∙ later consumed c' (omega (arith, kn)) kl e

-- What counts of the state behind `app_dispatch`: the client, whether it goes on, and then the bytes
-- that are left over.
abbrev pub seen : Option App → Option (Client × Bool × Bytes)
seen none = none
seen (some a) = some (a.client, a.running, (if a.running then a.rbuf else []))

-- The same, by the end of the loop.
abbrev seen_end : Dispatched → Option (Client × Bool × Bytes)
seen_end (leftover buf c) = some (c, true, buf)
seen_end (broken_stream c) = some (ui_print protocol_error c, false, [])
seen_end undefined = none

seen-after_loop : (a : App) (d : Dispatched) → a.running ≡ true → seen (after_loop a d) ≡ seen_end d
seen-after_loop a (leftover buf c) on = rw on refl
seen-after_loop a (broken_stream c) on = refl
seen-after_loop a undefined on = refl

-- What a client does does not depend on where the stream is cut: if `app_dispatch` leaves it
-- running, then calling it again once more bytes have arrived is the same as calling it once with
-- all the bytes: in the transfers and the effects, in whether it goes on and with which bytes left
-- over, and in whether the behaviour is undefined.
pub app_dispatch-append :
    (os : Os) (a : App) (more : Bytes) {a1 : App}
    → a.running ≡ true
    → app_dispatch os a ≡ some a1
    → a1.running ≡ true
    → seen (app_dispatch os (record a1 { rbuf = a1.rbuf ++ more }))
      ≡ seen (app_dispatch os (record a { rbuf = a.rbuf ++ more }))
unfolding app_dispatch
app_dispatch-append os a more {a1} on e on1 =
    by_end (dispatch_loop os (length a.rbuf) a.rbuf a.client) refl e
  where
    by_end :
        (d : Dispatched)
        → dispatch_loop os (length a.rbuf) a.rbuf a.client ≡ d
        → after_loop a d ≡ some a1
        → seen (app_dispatch os (record a1 { rbuf = a1.rbuf ++ more }))
          ≡ seen (app_dispatch os (record a { rbuf = a.rbuf ++ more }))
    by_end (leftover rest c) e' e =
        let same_client : a1.client ≡ c =
          ap (λ (o : Option App). elim o [ none ↦ c | some b ↦ b.client ]) (sym e) in
        let same_bytes : a1.rbuf ≡ rest =
          ap (λ (o : Option App). elim o [ none ↦ rest | some b ↦ b.rbuf ]) (sym e) in
        seen-after_loop (record a1 { rbuf = a1.rbuf ++ more })
          (dispatch_loop os (length (a1.rbuf ++ more)) (a1.rbuf ++ more) a1.client) on1
        ∙ ap (λ b. seen_end (dispatch_loop os (length (b ++ more)) (b ++ more) a1.client))
            same_bytes
        ∙ ap (λ d. seen_end (dispatch_loop os (length (rest ++ more)) (rest ++ more) d)) same_client
        ∙ ap seen_end (
            sym (
              loop-append os (length a.rbuf) (length (a.rbuf ++ more)) a.rbuf more a.client
                {rest = rest} {d = c} (omega arith) (omega arith) e'))
        ∙ sym (
            seen-after_loop (record a { rbuf = a.rbuf ++ more })
              (dispatch_loop os (length (a.rbuf ++ more)) (a.rbuf ++ more) a.client) on)
    by_end (broken_stream c) e' e =
        let stopped : a1.running ≡ false =
          ap (λ (o : Option App). elim o [ none ↦ false | some b ↦ b.running ]) (sym e) in
        absurd (cc)
    by_end undefined e' e = absurd (cc)
