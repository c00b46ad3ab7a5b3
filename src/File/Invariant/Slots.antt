-- ===== src/File/Invariant/Slots.antt =====
-- Sums and predicates over the slots when one slot is replaced.
use tcpclient.Base.{
  Bool-cases, length, get_or, set, All, All-get_or, ℕ, zero, suc, ◌+◌, ◌≤◌, ◌<◌, ◌≡◌, refl, ap, inl,
  inr, Bool, true, false, not, none, some, List, [], ◌∷◌, arith,
}
use tcpclient.Client.{RecvTask, no_recv}
use tcpclient.File.Storage.{Spans}
use tcpclient.File.Tasks.{find_from, is_free}
use tcpclient.File.Invariant.{weigh, handle_weight, Kind, TaskOk}

pub weigh-set :
    (w : RecvTask → ℕ) (ts : List RecvTask) (i : ℕ) (t : RecvTask)
    → i < length ts
    → weigh w (set ts i t) + w (get_or ts i no_recv) ≡ weigh w ts + w t
weigh-set w [] i t h = absurd (omega arith)
weigh-set w (x ∷ ts) zero t h = omega arith
weigh-set w (x ∷ ts) (suc i) t h = omega (arith, weigh-set w ts i t (omega arith))

-- A task that is not active is the same whatever was stored.
TaskOk-idle : (s s' : Spans) (t : RecvTask) → t.fp ≡ false → TaskOk s t → TaskOk s' t
TaskOk-idle s s' t h k = by_flag t.busy t.fp h k
  where
    by_flag : (b f : Bool) → f ≡ false → Kind b f s t → Kind b f s' t
    by_flag b true e k = absurd (cc)
    by_flag false false e k = k
    by_flag true false e k = k

pub All-idle :
    (s s' : Spans) (ts : List RecvTask)
    → weigh handle_weight ts ≡ 0
    → All (TaskOk s) ts
    → All (TaskOk s') ts
All-idle s s' [] h k = tt
All-idle s s' (t ∷ ts) h k =
    (TaskOk-idle s s' t (ground arith) k.0, All-idle s s' ts (omega arith) k.1)

-- Where no other task is active, one slot may change together with what was stored.
pub All-set_stored :
    (s s' : Spans) (ts : List RecvTask) (i : ℕ) (t : RecvTask)
    → weigh handle_weight ts ≤ handle_weight (get_or ts i no_recv)
    → All (TaskOk s) ts
    → TaskOk s' t
    → All (TaskOk s') (set ts i t)
All-set_stored s s' [] i t h k new = tt
All-set_stored s s' (x ∷ ts) zero t h k new = (new, All-idle s s' ts (omega arith) k.1)
All-set_stored s s' (x ∷ ts) (suc i) t h k new = (
  TaskOk-idle s s' x (ground (arith, weight-le ts i)) k.0,
  All-set_stored s s' ts i t (omega (arith, weight-le ts i)) k.1 new,
)
  where
    weight-le :
        (us : List RecvTask) (j : ℕ) → handle_weight (get_or us j no_recv) ≤ weigh handle_weight us
    weight-le [] j = omega arith
    weight-le (u ∷ us) zero = omega arith
    weight-le (u ∷ us) (suc j) = omega (arith, weight-le us j)

-- The task at an index is as the invariant says.
pub slot-TaskOk :
    (s : Spans) (ts : List RecvTask) (i : ℕ) → All (TaskOk s) ts → TaskOk s (get_or ts i no_recv)
slot-TaskOk s ts i h = All-get_or (TaskOk s) ts i no_recv h refl

-- A search that succeeds gives an index in range whose task passes the test.
find_from_lem :
    (test : RecvTask → Bool) (ts : List RecvTask) (base : ℕ) {i : ℕ}
    → find_from test ts base ≡ some i
    → (k : ℕ) × (i ≡ base + k) × (k < length ts) × (test (get_or ts k no_recv) ≡ true)
unfolding find_from
find_from_lem test [] base e = absurd (cc)
find_from_lem test (t ∷ ts) base {i} e = elim (Bool-cases (test t)) [
  | inl here ↦ (0, ground arith, omega arith, here)
  | inr further ↦
      let (k, eq, lt, ok) = find_from_lem test ts (base + 1) {i = i} (ground arith) in
      (suc k, omega arith, omega arith, ok)
]

pub find_lem :
    (test : RecvTask → Bool) (ts : List RecvTask) {i : ℕ}
    → find_from test ts 0 ≡ some i
    → (i < length ts) × (test (get_or ts i no_recv) ≡ true)
find_lem test ts {i} e =
    let (k, eq, lt, ok) = find_from_lem test ts 0 {i = i} e in
    let same : i ≡ k = omega arith in rw same (lt, ok)

pub find_none :
    (test : RecvTask → Bool) (ts : List RecvTask) (base : ℕ)
    → find_from test ts base ≡ none
    → All (λ t. test t ≡ false) ts
unfolding find_from
find_none test [] base e = tt
find_none test (t ∷ ts) base e = (ground arith, find_none test ts (base + 1) (ground arith))

pub set-set : (ts : List RecvTask) (i : ℕ) (a b : RecvTask) → set (set ts i a) i b ≡ set ts i b
set-set [] i a b = refl
set-set (t ∷ ts) zero a b = refl
set-set (t ∷ ts) (suc i) a b = ap (λ us. t ∷ us) (set-set ts i a b)

pub get_or-cleared : (ts : List RecvTask) (i : ℕ) → get_or (set ts i no_recv) i no_recv ≡ no_recv
get_or-cleared [] i = refl
get_or-cleared (t ∷ ts) zero = refl
get_or-cleared (t ∷ ts) (suc i) = get_or-cleared ts i

-- A free slot is zeroed; a pending one holds nothing.
pub free-zeroed : (s : Spans) (t : RecvTask) → is_free t ≡ true → TaskOk s t → t ≡ no_recv
free-zeroed s t h k = by_flag t.busy t.fp h k
  where
    by_flag : (b f : Bool) → not b ≡ true → Kind b f s t → t ≡ no_recv
    by_flag true f e k = absurd (cc)
    by_flag false false e k = k
    by_flag false true e k = absurd k
