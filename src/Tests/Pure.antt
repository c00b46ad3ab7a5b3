-- ===== src/Tests/Pure.antt =====
-- The pure functions at concrete inputs.
use tcpclient.Base.{
  ◌==◌, length, drop, All, Bytes, IsByte, codes, str_equal, split_nul, ℕ, ◌*◌, ◌^◌, ◌≤◌, ◌<◌, ◌≡◌,
  refl, ◌≢◌, ◌↔◌, Bool, true, false, ◌||◌, none, some, [], ◌∷◌, ◌++◌, arith,
}
use tcpclient.Utils.{utils_parse_u64_range, utils_read_u16_be, decimal}
use tcpclient.Utils.Digits.{IsDigit, value, parse_u64_range_iff, parse_u64_range-decimal}
use tcpclient.Commands.{
  commands_parse_priv, commands_parse_gmsg, commands_parse_sendfile, commands_parse_tid_arg,
}
use tcpclient.Commands.Split.{parse_priv_iff, parse_gmsg_iff, parse_sendfile_iff, parse_tid_arg_iff}
use tcpclient.Commands.Split.Words.{IsBlank, IsSplit}
use tcpclient.Conn.{
  conn_send_all, connect_loop, broken, eintr, wrote, socket_failed, connect_failed, connected, conn,
}
use tcpclient.Conn.Delivery.{
  Delivers, conn_send_all-Delivers, conn_send_all_completes, connect_loop_first,
}
use tcpclient.Ui.{users_size, users_loop, online_users_text}
use tcpclient.Ui.Users.{online_users_text_fits, users_loop_fuel}
use tcpclient.File.Init.{file_parse_init_payload, parse_init_payload_lem}
use tcpclient.File.Names.{
  base_loop, clean, file_basename_sanitize, candidate, unique_loop, file_unique_name,
}
use tcpclient.File.Names.Safety.{IsSafe, sanitize-IsSafe, unique_name_lem}
use tcpclient.File.Chunks.{file_chunk_plan}
use tcpclient.File.Chunks.Cover.{chunk_len, chunk_plan_lem}
use tcpclient.File.Spans.{file_recv_span_check, file_recv_span_mark}
use tcpclient.File.Spans.Marks.{marked, chunk_of, IsFresh, span_check_iff, span_mark_lem}

parse_u64_range_iff_example : (utils_parse_u64_range (codes "650") ≡ some 650) ↔ (
    (codes "650" ≢ []) × All IsDigit (codes "650") × (650 ≡ value 0 (codes "650")) × (650 < 2 ^ 64))
parse_u64_range_iff_example = parse_u64_range_iff (codes "650") 650

parse_u64_range-decimal_example : utils_parse_u64_range (decimal 131000) ≡ some 131000
parse_u64_range-decimal_example = parse_u64_range-decimal 131000 (omega arith)

conn_send_all-Delivers_example :
    Delivers (codes "hello") (conn_send_all (wrote 2 (eintr (wrote 3 broken))) (codes "hello"))
conn_send_all-Delivers_example =
    conn_send_all-Delivers (wrote 2 (eintr (wrote 3 broken))) (codes "hello")

conn_send_all_completes_example :
    (conn_send_all (wrote 2 (eintr (wrote 3 broken))) (codes "hello")).0 ≡ true
conn_send_all_completes_example =
    conn_send_all_completes (wrote 2 (eintr (wrote 3 broken))) (codes "hello") (omega arith)

connect_loop_first_example :
    connect_loop 0 ((socket_failed 97 ∷ connect_failed 111 ∷ []) ++ (connected 5 true ∷ []))
    ≡ conn 5
connect_loop_first_example =
    connect_loop_first (socket_failed 97 ∷ connect_failed 111 ∷ []) [] 5 0 (tt, (tt, tt))

abbrev two_users : Bytes
two_users = 0 ∷ 2 ∷ 0 ∷ 0 ∷ (codes "ann" ++ (0 ∷ (codes "bob" ++ (0 ∷ []))))

online_users_text_fits_example : length (codes "ann bob") < users_size
unfolding online_users_text tcpclient.Utils.utils_read_u16_be tcpclient.Base.split_nul
online_users_text_fits_example =
    online_users_text_fits two_users 12 {count = 2} {users = codes "ann bob"} refl

users_loop_fuel_example :
    users_loop 9 12 2 4 0 [] (drop 4 two_users) ≡ users_loop 13 12 2 4 0 [] (drop 4 two_users)
users_loop_fuel_example =
    users_loop_fuel 9 13 12 2 4 0 [] (drop 4 two_users) (omega arith) (omega arith)

parse_priv_iff_example :
    (commands_parse_priv (codes "/priv" ++ codes " bob hi there") 32
      ≡ some (codes "bob", codes "hi there"))
    ↔ IsSplit (codes " bob hi there") 32 (codes "bob") (codes "hi there")
parse_priv_iff_example = parse_priv_iff (codes " bob hi there") 32 (codes "bob") (codes "hi there")

parse_gmsg_iff_example :
    (commands_parse_gmsg (codes "/gmsg" ++ codes " dev hi") 32 ≡ some (codes "dev", codes "hi"))
    ↔ IsSplit (codes " dev hi") 32 (codes "dev") (codes "hi")
parse_gmsg_iff_example = parse_gmsg_iff (codes " dev hi") 32 (codes "dev") (codes "hi")

parse_sendfile_iff_example :
    (commands_parse_sendfile (codes "/sendfile" ++ codes " bob a b") 32 256
      ≡ some (codes "bob", codes "a b"))
    ↔ (IsSplit (codes " bob a b") 32 (codes "bob") (codes "a b") × (length (codes "a b") < 256))
parse_sendfile_iff_example =
    parse_sendfile_iff (codes " bob a b") 32 256 (codes "bob") (codes "a b")

parse_tid_arg_iff_example : (commands_parse_tid_arg (codes " 42") ≡ some 42) ↔ (
    (b : Bytes) × (s : Bytes) × (codes " 42" ≡ b ++ s)
    × All IsBlank b
    × (s ≢ [])
    × All IsDigit s
    × (42 ≡ value 0 s)
    × (42 < 2 ^ 32))
parse_tid_arg_iff_example = parse_tid_arg_iff (codes " 42") 42

sanitize-IsSafe_example :
    All IsSafe (codes "passwd")
    × (codes "passwd" ≢ [])
    × (length (codes "passwd") < 256)
    × (codes "passwd" ≢ codes ".")
    × (codes "passwd" ≢ codes "..")
unfolding file_basename_sanitize tcpclient.File.Names.base_loop str_equal tcpclient.File.Names.clean
sanitize-IsSafe_example = sanitize-IsSafe (codes "../etc/passwd") 256 {out = codes "passwd"} refl

-- Only the plain name is taken.
abbrev taken_name : Bytes → Bool
taken_name name = str_equal name (codes "a")

unique_name_lem_example :
    (k : ℕ) × (k < 1000)
    × (codes "a (1)" ≡ candidate (codes "a") k)
    × (taken_name (codes "a (1)") ≡ false)
    × (length (codes "a (1)") < 256)
    × ((j : ℕ) → j < k → taken_name (candidate (codes "a") j) ≡ true)
unfolding file_unique_name tcpclient.File.Names.unique_loop candidate str_equal decimal
unique_name_lem_example = unique_name_lem (codes "a") taken_name 256 {name = codes "a (1)"} refl

parse_init_payload_lem_example :
    let payload = codes "ann" ++ (0 ∷ (codes "a.txt" ++ (0 ∷ (decimal 5 ++ (0 ∷ []))))) in
    file_parse_init_payload (payload ++ codes "rest") (length payload) 32 256
    ≡ some (record { sender = codes "ann"; filename = codes "a.txt"; size = 5 })
parse_init_payload_lem_example =
    parse_init_payload_lem (codes "ann") (codes "a.txt") (codes "rest") 5 32 256 (ground arith)
      (ground arith) (λ e. cc) (λ e. cc) (omega arith) (omega arith) (omega arith)

chunk_plan_lem_example :
    (1 * 65500 < 131000
      → file_chunk_plan 131000 65500 1 ≡ some (1 * 65500, chunk_len 131000 65500 (1 * 65500)))
    × (131000 ≤ 1 * 65500 → file_chunk_plan 131000 65500 1 ≡ none)
chunk_plan_lem_example = chunk_plan_lem 131000 65500 1 (omega arith) (omega arith)

abbrev one_bit : Bytes
one_bit = 1 ∷ []

span_check_iff_example :
    (file_recv_span_check 131000 one_bit (length one_bit) 65500 65500 ≡ true)
    ↔ IsFresh 131000 one_bit 65500 65500
span_check_iff_example = span_check_iff 131000 one_bit 65500 65500

span_mark_lem_example :
    (map' : Bytes) × (file_recv_span_mark one_bit (length one_bit) 65500 ≡ some map')
    × (length map' ≡ length one_bit)
    × All IsByte map'
    × ((j : ℕ) → marked map' j ≡ (chunk_of 65500 == j || marked one_bit j))
span_mark_lem_example = span_mark_lem one_bit 65500 (omega arith, tt) refl (omega arith)
