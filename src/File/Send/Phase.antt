-- ===== src/File/Send/Phase.antt =====
-- The protocol of a transfer as its sender goes through it, without the code's flags: an abstract
-- machine, and the task of src/file.c seen as a state of it.
use mathlib.Core.Path.{subst}
use tcpclient.Base.{
  ◌==◌, if◌then◌else◌, ℕ, zero, suc, ◌+◌, ◌*◌, ◌^◌, ◌<◌, min, ◌≡◌, refl, sym, ap, ◌⊎◌, Bool, true,
  false,
}
use tcpclient.Client.{SendState, SendTask, idle, pending_tid, pending, active, done, wait_complete}
use tcpclient.File.Chunks.{chunk_data_max}

pub data Phase : Type 0 where
  free : Phase
  -- INIT is sent, for a file of this size; the server has not told the id
  offered : ℕ → Phase
  -- the id and the size; the other user has not answered
  named : ℕ → ℕ → Phase
  -- the id, the size and how much is sent
  sending : ℕ → ℕ → ℕ → Phase
  sent_all : ℕ → ℕ → Phase
  -- COMPLETE is sent
  confirming : ℕ → ℕ → Phase

-- What a call tells the task.
pub data Signal : Type 0 where
  -- the id of the own transfer; the other user accepts
  told_id accepted : ℕ → Signal
  -- the transfer of this id is over: rejected or cancelled
  over : ℕ → Signal
  -- the other user has the whole file
  confirmed : ℕ → Signal
  -- the target is unknown; whatever is under way ends
  unknown_user stop : Signal
  nothing : Signal

-- The id by which a transfer is known: 0 while the server has not told it.
abbrev pub id_of : Phase → ℕ
id_of free = 0
id_of (offered size) = 0
id_of (named tid size) = tid
id_of (sending tid size sent) = tid
id_of (sent_all tid size) = tid
id_of (confirming tid size) = tid

-- The machine's answer to a signal.
abbrev pub react : Signal → Phase → Phase
react (told_id tid) (offered size) = named tid size
react (told_id tid) p = p
react (accepted tid) (named t size) = if t == tid then sending t size 0 else named t size
react (accepted tid) p = p
react (over tid) free = free
react (over tid) p = if id_of p == tid then free else p
react (confirmed tid) (confirming t size) = if t == tid then free else confirming t size
react (confirmed tid) p = p
react unknown_user (offered size) = free
react unknown_user p = p
react stop p = free
react nothing p = p

-- A tick that sends so many chunks at most.
pub data Sends : ℕ → Phase → Phase → Type 0 where
  pause :
      {tid size sent : ℕ} → sent < size → Sends zero (sending tid size sent) (sending tid size sent)
  -- one chunk, or the rest of the file
  advance :
      {n tid size sent more : ℕ} {q : Phase}
      → sent < size
      → more ≡ min size (sent + chunk_data_max)
      → Sends n (sending tid size more) q
      → Sends (suc n) (sending tid size sent) q
  -- a read or a frame fails
  fail : {n tid size sent : ℕ} → sent < size → Sends (suc n) (sending tid size sent) free
  finish : {n tid size sent : ℕ} → sent ≡ size → Sends n (sending tid size sent) (sent_all tid size)

-- A tick; the test says whether a COMPLETE frame can be sent.
abbrev pub AfterTick : Bool → Phase → Phase → Type 0
AfterTick ok (sending tid size sent) q = Sends 2 (sending tid size sent) q
AfterTick ok (sent_all tid size) q = q ≡ (if ok then confirming tid size else sent_all tid size)
AfterTick ok free q = q ≡ free
AfterTick ok (offered size) q = q ≡ offered size
AfterTick ok (named tid size) q = q ≡ named tid size
AfterTick ok (confirming tid size) q = q ≡ confirming tid size

-- A call, as the machine sees it.
pub data Event : Type 0 where
  signals : Signal → Event
  submits : Event
  clock : Bool → Event

-- `/sendfile` offers a file of some size from the free machine, or changes nothing.
abbrev pub Obeys : Event → Phase → Phase → Type 0
Obeys (signals s) p q = q ≡ react s p
Obeys submits p q = (q ≡ p) ⊎ ((p ≡ free) × ((size : ℕ) × (0 < size) × (q ≡ offered size)))
Obeys (clock ok) p q = AfterTick ok p q

abbrev pub phase_of : Bool → SendState → SendTask → Phase
phase_of false s t = free
phase_of true idle t = free
phase_of true pending_tid t = offered t.size
phase_of true pending t = named t.tid t.size
phase_of true active t = sending t.tid t.size t.sent
phase_of true done t = sent_all t.tid t.size
phase_of true wait_complete t = confirming t.tid t.size

abbrev pub phase : SendTask → Phase
phase t = phase_of t.busy t.state t

-- What holds of a busy task: a size that a file can have, and how much of it is sent.
abbrev pub HasSize : SendTask → Type 0
HasSize t = (0 < t.size) × (t.size < 2 ^ 63)

abbrev pub Standing : Bool → SendState → SendTask → Type 0
Standing false s t = Unit
Standing true idle t = ⊥
Standing true pending_tid t = HasSize t × (t.sent ≡ 0) × (t.tid ≡ 0)
Standing true pending t = HasSize t × (t.sent ≡ 0)
Standing true active t = HasSize t × ((k : ℕ) × (t.sent ≡ min t.size (k * chunk_data_max)))
Standing true done t = HasSize t × (t.sent ≡ t.size)
Standing true wait_complete t = HasSize t × (t.sent ≡ t.size)

abbrev pub IsSound : SendTask → Type 0
IsSound t = Standing t.busy t.state t

-- From a sound task to a sound task, as the machine answers the event.
abbrev pub Follows : Event → SendTask → SendTask → Type 0
Follows e s t = IsSound s → IsSound t × Obeys e (phase s) (phase t)

pub phase-free : (t : SendTask) → t.busy ≡ false → phase t ≡ free
phase-free t e = ap (λ b. phase_of b t.state t) e

-- A call that treats the task as another one does.
pub same-Follows : (e : Event) (s t u : SendTask) → u ≡ t → Follows e s t → Follows e s u
same-Follows e s t u same f = subst (λ v. Follows e s v) (sym same) f

pub kept-Follows : (s t : SendTask) → t ≡ s → Follows (signals nothing) s t
kept-Follows s t same = same-Follows (signals nothing) s s t same (λ h. (h, refl))
