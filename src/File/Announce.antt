-- ===== src/File/Announce.antt =====
-- `file_parse_announcement`: the kind and the transfer id of a server announcement.
use tcpclient.Base.{
  ltb, leb, ◌==◌, if◌then◌else◌, length, get_or, drop, Bytes, codes, starts_with, contains, ℕ, not,
  ◌&&◌, ◌||◌, Option, none, some, [], ◌∷◌,
}
use tcpclient.Utils.{uint32_max, utils_parse_u64_range}

-- `file_ann_kind_t`, without FILE_ANN_NONE, which goes with the result -1 only.
pub data AnnKind : Type 0 where
  sending incoming taken refused complete cancelled disconnected : AnnKind

-- `while (*dig >= '0' && *dig <= '9') dig++`: the digits, and what `dig` points to.
unfoldable pub take_digits : Bytes → Bytes × Bytes
take_digits [] = ([], [])
take_digits (c ∷ s) =
    let (ds, rest) = take_digits s in
    if leb b'0' c && leb c b'9' then (c ∷ ds, rest) else ([], c ∷ s)

-- The id at `num`; a ':' or a ' ' must stand behind its digits.
unfoldable pub announced_tid : Bytes → Option ℕ
announced_tid num =
    let (ds, rest) = take_digits num in
    if length ds == 0 || not (get_or rest 0 0 == b':' || get_or rest 0 0 == b' ')
    then none
    else elim (utils_parse_u64_range ds) [
      | none ↦ none
      | some tid ↦ if ltb uint32_max tid then none else some tid
    ]

-- The kind of a text that starts with "File transfer #": the first of these phrases that it holds.
unfoldable pub classify : Bytes → Option AnnKind
classify p =
    if contains (codes "Waiting for acceptance") p
    then some AnnKind.sending
    else if contains (codes "accepted by") p
    then some AnnKind.taken
    else if contains (codes "rejected by") p
    then some AnnKind.refused
    else if contains (codes "complete") p
    then some AnnKind.complete
    else if contains (codes "cancelled by") p
    then some AnnKind.cancelled
    else if contains (codes "cancelled: ") p
    then some AnnKind.disconnected
    else none

-- An id and a kind, or the failure of either.
abbrev pub both : Option AnnKind → Option ℕ → Option (AnnKind × ℕ)
both (some kind) (some tid) = some (kind, tid)
both _ none = none
both none _ = none

abbrev pub without_prefix : Bytes → Bytes
without_prefix text = if starts_with (codes "[Server] ") text then drop 9 text else text

unfoldable pub file_parse_announcement : Bytes → Option (AnnKind × ℕ)
unfolding announced_tid classify
file_parse_announcement text =
    let p = without_prefix text in
    if starts_with (codes "Incoming file transfer #") p
    then both (some AnnKind.incoming) (announced_tid (drop 24 p))
    else if starts_with (codes "File transfer #") p
    then both (classify p) (announced_tid (drop 15 p))
    else none
