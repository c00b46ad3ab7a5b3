-- ===== src/File/Init.antt =====
-- `file_parse_init_payload`: sender, file name and size, each ended by a NUL.
use tcpclient.Utils.Digits.{parse_u64_range-decimal, decimal-IsText}
use tcpclient.Base.{
  leb, ◌==◌, if◌then◌else◌, length, take, take-length, Bytes, split_nul, IsText, split_nul-append,
  ℕ, ◌^◌, ◌<◌, ◌≡◌, refl, ◌≢◌, false, ◌||◌, Option, none, some, [], ◌∷◌, ◌++◌, arith,
}
use tcpclient.Utils.{utils_parse_u64_range, decimal}

pub record InitFields : Type 0 where
  pub sender : Bytes
  pub filename : Bytes
  pub size : ℕ

-- The checks on the three segments.
unfoldable pub init_fields : Bytes → Bytes → Bytes → ℕ → ℕ → Option InitFields
init_fields s1 s2 s3 sender_sz filename_sz =
    if length s1 == 0 || leb sender_sz (length s1)
    then none
    else if length s2 == 0 || leb filename_sz (length s2)
    then none
    else if length s3 == 0
    then none
    else elim (utils_parse_u64_range s3) [
      | none ↦ none
      | some size ↦ some (record { sender = s1; filename = s2; size = size })
    ]

-- `payload` is what the pointer shows; `memchr` looks at the first `plen` bytes.
unfoldable pub file_parse_init_payload : Bytes → ℕ → ℕ → ℕ → Option InitFields
file_parse_init_payload payload plen sender_sz filename_sz = elim (split_nul (take plen payload)) [
  | none ↦ none
  | some (s1, r1) ↦ elim (split_nul r1) [
    | none ↦ none
    | some (s2, r2) ↦ elim (split_nul r2) [
      | none ↦ none
      | some (s3, r3) ↦ init_fields s1 s2 s3 sender_sz filename_sz
    ]
  ]
]

length-ne_nil : (s : Bytes) → s ≢ [] → (length s == 0) ≡ false
length-ne_nil [] h = absurd (h refl)
length-ne_nil (c ∷ s) h = ground arith

init_fields_lem :
    (sender filename : Bytes) (size sender_sz filename_sz : ℕ)
    → sender ≢ []
    → filename ≢ []
    → length sender < sender_sz
    → length filename < filename_sz
    → size < 2 ^ 64
    → init_fields sender filename (decimal size) sender_sz filename_sz
      ≡ some (record { sender = sender; filename = filename; size = size })
unfolding init_fields
init_fields_lem sender filename size sender_sz filename_sz ns nf ls lf h = ground (
  arith,
  length-ne_nil sender ns,
  length-ne_nil filename nf,
  length-ne_nil (decimal size) (decimal-IsText size h).1,
  parse_u64_range-decimal size h,
)

-- The payload that a sender builds of a name, a file name and a printed size is read back as these
-- three, whatever follows it in memory, where both names are not empty, hold no NUL and are shorter
-- than their buffers, and the size fits 64 bits.
pub parse_init_payload_lem :
    (sender filename rest : Bytes) (size sender_sz filename_sz : ℕ)
    → IsText sender
    → IsText filename
    → sender ≢ []
    → filename ≢ []
    → length sender < sender_sz
    → length filename < filename_sz
    → size < 2 ^ 64
    → let payload = sender ++ (0 ∷ (filename ++ (0 ∷ (decimal size ++ (0 ∷ []))))) in
      file_parse_init_payload (payload ++ rest) (length payload) sender_sz filename_sz
      ≡ some (record { sender = sender; filename = filename; size = size })
unfolding file_parse_init_payload
parse_init_payload_lem sender filename rest size sender_sz filename_sz ts tf ns nf ls lf h =
    let payload : Bytes = sender ++ (0 ∷ (filename ++ (0 ∷ (decimal size ++ (0 ∷ []))))) in
    ground (
      arith,
      take-length payload rest (length payload) refl,
      split_nul-append sender (filename ++ (0 ∷ (decimal size ++ (0 ∷ [])))) ts,
      split_nul-append filename (decimal size ++ (0 ∷ [])) tf,
      split_nul-append (decimal size) [] (decimal-IsText size h).0,
      init_fields_lem sender filename size sender_sz filename_sz ns nf ls lf h,
    )
