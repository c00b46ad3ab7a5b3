-- ===== src/Protocol/Parsing.antt =====
-- `protocol_parse` on well-formed frames, on their beginnings, and on a growing buffer.
use tcpclient.Base.{
  ltb, ◌==◌, if◌then◌else◌, length, length-append, Bytes, ℕ, ◌+◌, ◌*◌, ◌^◌, ◌≤◌, ◌<◌, ◌≡◌, refl,
  sym, ap, ◌∙◌, ◌⊎◌, inl, inr, Bool, true, false, Option, none, some, [], ◌∷◌, ◌++◌, append-nil,
  arith,
}
use tcpclient.Utils.{proto_magic, utils_read_u16_be, utils_write_u16_be}
use tcpclient.Protocol.{header, Parsed, scan_magic, protocol_parse, need_more, bad, frame}

-- A frame with a payload of `length body` bytes, in front of `rest`.
unfoldable pub whole_frame : ℕ → Bytes → Bytes → Bytes
unfolding header
whole_frame msg_type body rest = header msg_type (length body) ++ (body ++ rest)

abbrev pub view_of : Bytes → Bytes → Option Bytes
view_of body rest = if ltb 0 (length body) then some (body ++ rest) else none

-- A frame whose payload is shorter than 65536 bytes is parsed with its type and payload whatever
-- follows it, and exactly its bytes are consumed.
pub parse-whole_frame :
    (t : ℕ) (body rest : Bytes)
    → length body < 2 ^ 16
    → protocol_parse (whole_frame t body rest)
      ≡ frame t (view_of body rest) (length body) (5 + length body)
unfolding protocol_parse whole_frame utils_write_u16_be utils_read_u16_be
parse-whole_frame t body rest h = ground (arith, length-append body rest)

-- More input behind a frame: the view grows, and nothing else changes.
abbrev pub extend : Parsed → Bytes → Parsed
extend need_more more = need_more
extend bad more = bad
extend (frame t none n c) more = frame t none n c
extend (frame t (some v) n c) more = frame t (some (v ++ more)) n c

-- `protocol_parse` on a buffer that holds a header, without the scan.
abbrev pub parse_five : ℕ → ℕ → ℕ → ℕ → ℕ → Bytes → Parsed
parse_five a b t d e rest =
    if a * 2 ^ 8 + b == proto_magic
    then (if ltb (length rest) (d * 2 ^ 8 + e)
        then need_more
        else frame t (if ltb 0 (d * 2 ^ 8 + e) then some rest else none) (d * 2 ^ 8 + e)
            (5 + (d * 2 ^ 8 + e)))
    else bad

if_same : {A : Type 0} (b : Bool) (x : A) → (if b then x else x) ≡ x
if_same true x = refl
if_same false x = refl

pub parse-parse_five :
    (a b t d e : ℕ) (rest : Bytes)
    → protocol_parse (a ∷ b ∷ t ∷ d ∷ e ∷ rest) ≡ parse_five a b t d e rest
unfolding protocol_parse utils_read_u16_be
parse-parse_five a b t d e rest =
    rw (if_same (scan_magic (b ∷ t ∷ d ∷ e ∷ rest)) bad) (ground arith)

-- A protocol error stays one, however much input follows.
pub parse_bad-append :
    (buf more : Bytes) → protocol_parse buf ≡ bad → protocol_parse (buf ++ more) ≡ bad
parse_bad-append [] more h = absurd (unfold protocol_parse in cc h)
parse_bad-append (a ∷ []) more h = absurd (unfold protocol_parse in cc h)
parse_bad-append (a ∷ b ∷ []) more h = absurd (unfold protocol_parse in cc h)
parse_bad-append (a ∷ b ∷ c ∷ []) more h = absurd (unfold protocol_parse in cc h)
parse_bad-append (a ∷ b ∷ c ∷ d ∷ []) more h = absurd (unfold protocol_parse in cc h)
parse_bad-append (a ∷ b ∷ t ∷ d ∷ e ∷ rest) more h =
    ground (arith, parse-parse_five a b t d e rest, parse-parse_five a b t d e (rest ++ more))

-- A parsed frame is parsed the same way when more input follows, except that its payload pointer
-- shows the additional bytes too; the bytes consumed are the header and the payload, and all of them
-- are in the buffer.
pub parse_frame-append :
    (buf more : Bytes) (t : ℕ) (v : Option Bytes) (n c : ℕ)
    → protocol_parse buf ≡ frame t v n c
    → (protocol_parse (buf ++ more) ≡ extend (frame t v n c) more) × (c ≡ 5 + n) × (c ≤ length buf)
parse_frame-append [] more t v n c h = absurd (unfold protocol_parse in cc h)
parse_frame-append (x ∷ []) more t v n c h = absurd (unfold protocol_parse in cc h)
parse_frame-append (x ∷ y ∷ []) more t v n c h = absurd (unfold protocol_parse in cc h)
parse_frame-append (x ∷ y ∷ z ∷ []) more t v n c h = absurd (unfold protocol_parse in cc h)
parse_frame-append (x ∷ y ∷ z ∷ w ∷ []) more t v n c h = absurd (unfold protocol_parse in cc h)
parse_frame-append (a ∷ b ∷ z ∷ d ∷ e ∷ rest) more t v n c h = ground (
  arith,
  parse-parse_five a b z d e rest,
  parse-parse_five a b z d e (rest ++ more),
  length-append rest more,
)

length-whole_frame : (t : ℕ) (body : Bytes) → length (whole_frame t body []) ≡ 5 + length body
unfolding whole_frame utils_write_u16_be
length-whole_frame t body = rw append-nil (omega arith)

Parsed-cases :
    (p : Parsed)
    → (p ≡ need_more)
      ⊎ (p ≡ bad)
      ⊎ ((t : ℕ) × (v : Option Bytes) × (n : ℕ) × (c : ℕ) × (p ≡ frame t v n c))
Parsed-cases need_more = inl refl
Parsed-cases bad = inr (inl refl)
Parsed-cases (frame t v n c) = inr (inr (t, v, n, c, refl))

-- On every proper beginning of a frame whose payload is shorter than 65536 bytes the parser asks
-- for more.
pub parse_front :
    (t : ℕ) (body front back : Bytes) (x : ℕ)
    → length body < 2 ^ 16
    → whole_frame t body [] ≡ front ++ (x ∷ back)
    → protocol_parse front ≡ need_more
parse_front t body front back x h e = elim (Parsed-cases (protocol_parse front)) [
  | inl done ↦ done
  | inr (inl wrong) ↦ cc (whole, parse_bad-append front (x ∷ back) wrong)
  | inr (inr (t', v, n, c, early)) ↦
      let (later, cn, le) = parse_frame-append front (x ∷ back) t' v n c early in
      absurd (ground (arith, whole, later, same_length, length-append front (x ∷ back)))
]
  where
    whole :
        protocol_parse (front ++ (x ∷ back))
        ≡ frame t (view_of body []) (length body) (5 + length body)
    whole = rw (← e) (parse-whole_frame t body [] h)

    same_length : 5 + length body ≡ length (front ++ (x ∷ back))
    same_length = sym (length-whole_frame t body) ∙ ap length e

pub whole_frame-append :
    (t : ℕ) (body rest : Bytes) → whole_frame t body [] ++ rest ≡ whole_frame t body rest
unfolding whole_frame utils_write_u16_be
whole_frame-append t body rest = rw append-nil

pub parse-whole_frame_n :
    (t : ℕ) (body rest : Bytes) (n : ℕ)
    → n ≡ length body
    → n < 2 ^ 16
    → protocol_parse (whole_frame t body rest) ≡ frame t (view_of body rest) n (5 + n)
parse-whole_frame_n t body rest n e h = rw e (parse-whole_frame t body rest (omega arith))
