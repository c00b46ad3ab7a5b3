-- ===== src/File/Storage/Content.antt =====
-- What a file holds after a sequence of writes, against the bytes that it should hold.
use tcpclient.Base.{
  ltb, leb, if◌then◌else◌, Bool-cases, length, get_or, take, drop, All, length-take, Bytes, ℕ, zero,
  suc, ◌+◌, ◌-◌, ◌<◌, ◌≡◌, refl, ap, ◌∙◌, inl, inr, true, ◌&&◌, Option, none, some, [], ◌∷◌, arith,
}
use tcpclient.File.Storage.{Spans, written}

-- The byte at position `p` by the newest write there.
unfoldable pub byte_at : Spans → ℕ → Option ℕ
byte_at [] p = none
byte_at ((offset, bytes) ∷ s) p =
    let older = byte_at s p in
    if leb offset p && ltb p (offset + length bytes)
    then some (get_or bytes (p - offset) 0)
    else older

-- These bytes are the content's at this offset.
abbrev pub IsSlice : Bytes → ℕ → Bytes → Type 0
IsSlice content offset bytes =
    (q : ℕ) → q < length bytes → get_or bytes q 0 ≡ get_or content (offset + q) 0

abbrev pub AllSlices : Bytes → Spans → Type 0
AllSlices content s = All (λ (w : ℕ × Bytes). IsSlice content (w.0) (w.1)) s

-- Where all writes are slices of one content, in whatever order and however often, each position
-- that was written holds the content's byte.
pub slices-byte_at :
    (content : Bytes) (s : Spans) (p : ℕ)
    → AllSlices content s
    → written s p ≡ true
    → byte_at s p ≡ some (get_or content p 0)
unfolding byte_at written
slices-byte_at content [] p h e = absurd (cc)
slices-byte_at content ((offset, bytes) ∷ s) p h e =
    elim (Bool-cases (leb offset p && ltb p (offset + length bytes))) [
      | inl here ↦
          let same : offset + (p - offset) ≡ p = ground arith in
          let right : get_or bytes (p - offset) 0 ≡ get_or content p 0 =
            h.0 (p - offset) (ground arith) ∙ ap (λ n. get_or content n 0) same in
          rw (here, right) refl
      | inr elsewhere ↦ rw elsewhere (slices-byte_at content s p h.1 (rw elsewhere at e))
    ]

get_or-drop : (n q : ℕ) (xs : Bytes) → get_or (drop n xs) q 0 ≡ get_or xs (n + q) 0
get_or-drop zero q xs = ap (λ m. get_or xs m 0) (omega arith)
get_or-drop (suc n) q [] = refl
get_or-drop (suc n) q (x ∷ xs) =
    let same : suc n + q ≡ suc (n + q) = omega arith in rw same (get_or-drop n q xs)

get_or-take : (n q : ℕ) (xs : Bytes) → q < n → get_or (take n xs) q 0 ≡ get_or xs q 0
get_or-take zero q xs h = absurd (omega arith)
get_or-take (suc n) q [] h = refl
get_or-take (suc n) zero (x ∷ xs) h = refl
get_or-take (suc n) (suc q) (x ∷ xs) h = get_or-take n q xs (omega arith)

pub take-drop-IsSlice :
    (content : Bytes) (offset len : ℕ) → IsSlice content offset (take len (drop offset content))
take-drop-IsSlice content offset len q h =
    get_or-take len q (drop offset content) (omega (arith, length-take len (drop offset content)))
    ∙ get_or-drop offset q content
