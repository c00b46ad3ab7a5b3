-- ===== src/File/Names/Safety.antt =====
-- What a name can be after `file_basename_sanitize` and `file_unique_name`.
use mathlib.Core.List.{map}
use tcpclient.Base.{
  ◌==◌, ==_iff, Bool-cases, length, All, All-append, Bytes, codes, str_equal, str_equal_iff, ℕ,
  zero, suc, ◌+◌, ◌≤◌, ◌<◌, ◌≡◌, refl, ap, ◌≢◌, inl, inr, Bool, true, false, some, [], ◌∷◌, ◌++◌,
  append_assoc, append-nil, arith,
}
use tcpclient.File.Names.{
  is_separator, base_loop, clean, file_basename_sanitize, candidate, unique_loop, file_unique_name,
}

abbrev pub NoSeparator : ℕ → Type 0
NoSeparator c = is_separator c ≡ false

base_loop-NoSeparator :
    (seen p : Bytes) → All NoSeparator seen → All NoSeparator (base_loop (seen ++ p) p)
unfolding base_loop
base_loop-NoSeparator seen [] h = rw append-nil h
base_loop-NoSeparator seen (c ∷ p) h = elim (Bool-cases (is_separator c)) [
  | inl sep ↦ rw sep (base_loop-NoSeparator [] p tt)
  | inr plain ↦ rw plain (
      rw append_assoc at (
        base_loop-NoSeparator (seen ++ (c ∷ [])) p
          (All-append NoSeparator seen (c ∷ []) h (plain, tt))))
]

-- A byte of a saved name: ASCII, no control character below the blank, and no separator.
pub record IsSafe (c : ℕ) : Type 0 where
  pub visible : 0x20 ≤ c
  pub ascii : c < 128
  pub no_separator : NoSeparator c

clean-IsSafe : (c : ℕ) → NoSeparator c → IsSafe (clean c)
unfolding clean
clean-IsSafe c h = ground arith

map-clean-IsSafe : (s : Bytes) → All NoSeparator s → All IsSafe (map clean s)
map-clean-IsSafe [] h = tt
map-clean-IsSafe (c ∷ s) h = (clean-IsSafe c h.0, map-clean-IsSafe s h.1)

length-map-clean : (s : Bytes) → length (map clean s) ≡ length s
length-map-clean [] = refl
length-map-clean (c ∷ s) = ap suc (length-map-clean s)

-- Cleaning makes no dots.
clean_dot : (c : ℕ) → clean c ≡ b'.' → c ≡ b'.'
unfolding clean
clean_dot c h = ground arith

map-clean_dot : (s : Bytes) → map clean s ≡ codes "." → s ≡ codes "."
map-clean_dot [] h = cc
map-clean_dot (c ∷ []) h = ground (arith, clean_dot c)
map-clean_dot (c ∷ d ∷ s) h = absurd (cc)

map-clean_dots : (s : Bytes) → map clean s ≡ codes ".." → s ≡ codes ".."
map-clean_dots [] h = cc
map-clean_dots (c ∷ []) h = absurd (cc)
map-clean_dots (c ∷ d ∷ []) h = ground (arith, clean_dot c, clean_dot d)
map-clean_dots (c ∷ d ∷ e ∷ s) h = absurd (cc)

sanitize_inv :
    (raw : Bytes) (out_sz : ℕ) (out : Bytes)
    → file_basename_sanitize raw out_sz ≡ some out
    → (out ≡ map clean (base_loop raw raw))
      × (base_loop raw raw ≢ [])
      × (length (base_loop raw raw) < out_sz)
      × (str_equal (base_loop raw raw) (codes ".") ≡ false)
      × (str_equal (base_loop raw raw) (codes "..") ≡ false)
unfolding file_basename_sanitize
sanitize_inv raw out_sz out e =
    (ground arith, ground arith, ground arith, ground arith, ground arith)

-- Whatever name the server sends, a name that passes is safe in a directory: it is not empty, it
-- fits its buffer, all its bytes are from 0x20 to 0x7F and none is a slash or a backslash, and it is
-- neither "." nor "..".
pub sanitize-IsSafe :
    (raw : Bytes) (out_sz : ℕ) {out : Bytes}
    → file_basename_sanitize raw out_sz ≡ some out
    → All IsSafe out × (out ≢ []) × (length out < out_sz) × (out ≢ codes ".") × (out ≢ codes "..")
sanitize-IsSafe raw out_sz {out} e =
    let (eq, ne, lt, d1, d2) = sanitize_inv raw out_sz out e in
    rw eq (
      map-clean-IsSafe (base_loop raw raw) (base_loop-NoSeparator [] raw tt),
      (λ z. ne (map_nil (base_loop raw raw) z)),
      rw length-map-clean lt,
      (λ z. cc (d1, (str_equal_iff (base_loop raw raw) (codes ".")).1 (map-clean_dot _ z))),
      (λ z. cc (d2, (str_equal_iff (base_loop raw raw) (codes "..")).1 (map-clean_dots _ z))),
    )
  where
    map_nil : (s : Bytes) → map clean s ≡ [] → s ≡ []
    map_nil [] z = refl
    map_nil (c ∷ s) z = cc

unique_loop_lem :
    (base : Bytes) (exists : Bytes → Bool) (out_sz rounds i : ℕ) (name : Bytes)
    → unique_loop base exists out_sz rounds i ≡ some name
    → (k : ℕ) × (i ≤ k)
      × (k < i + rounds)
      × (name ≡ candidate base k)
      × (exists name ≡ false)
      × (length name < out_sz)
      × ((j : ℕ) → i ≤ j → j < k → exists (candidate base j) ≡ true)
unfolding unique_loop
unique_loop_lem base exists out_sz zero i name e = absurd (cc)
unique_loop_lem base exists out_sz (suc r) i name e =
    elim (Bool-cases (exists (candidate base i))) [
      | inl there ↦
          let (k, le, lt, eq, no_file, fits, before) =
            unique_loop_lem base exists out_sz r (i + 1) name (ground arith) in
          (
            k,
            omega arith,
            omega arith,
            eq,
            no_file,
            fits,
            (λ j hj hk. elim (Bool-cases (i == j)) [
              | inl same ↦ rw (← (==_iff i j).0 same) there
              | inr other ↦ before j (ground arith) hk
            ]),
          )
      | inr free ↦ (
        i,
        omega arith,
        omega arith,
        ground arith,
        ground arith,
        ground arith,
        (λ j hj hk. absurd (omega arith)),
      )
    ]

-- A name that is returned is the first free one of the base and its candidates 1 to 999, in this
-- order; it is shorter than its buffer, and the probe says that it is free.
pub unique_name_lem :
    (base : Bytes) (exists : Bytes → Bool) (out_sz : ℕ) {name : Bytes}
    → file_unique_name base exists out_sz ≡ some name
    → (k : ℕ) × (k < 1000)
      × (name ≡ candidate base k)
      × (exists name ≡ false)
      × (length name < out_sz)
      × ((j : ℕ) → j < k → exists (candidate base j) ≡ true)
unfolding file_unique_name
unique_name_lem base exists out_sz {name} e =
    let (k, le, lt, eq, no_file, fits, before) = unique_loop_lem base exists out_sz 1000 0 name e in
    (k, omega arith, eq, no_file, fits, (λ j hj. before j (omega arith) hj))
