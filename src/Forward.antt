-- ===== src/Forward.antt =====
-- `webhookLogHook` of internal/waf/logging.go, which forwards log events in batches to a webhook.
--
-- The state is the queue, the batches of the workers, the count of drops, and what the webhook has
-- accepted. Whether a request to the webhook succeeds is a Boolean outcome. A worker's timer may run
-- out at any time, and a channel operation is one step.
pub mod Bounds
pub mod Conserved
mod Tests
use synit_waf.Prelude.{
  ℕ, zero, suc, ◌+◌, ◌<◌, Bool, true, false, not, ◌||◌, ◌&&◌, Option, none, some, List, [], ◌∷◌,
  ◌++◌, length, get_elem?, set, ltb, leb, ◌==◌, if◌then◌else◌,
}
use synit_waf.Request.Text.{Bytes}

-- The events of a batch, in order.
abbrev pub Batch : Type 0
Batch = List Bytes

abbrev pub max_payload_bytes : ℕ
max_payload_bytes = 16384

abbrev pub max_batch_entries : ℕ
max_batch_entries = 100

abbrev pub max_batch_bytes : ℕ
max_batch_bytes = 524288

pub record Forwarder : Type 0 where
  pub queue : List Bytes
  pub capacity : ℕ
  pub closed : Bool
  pub dropped : ℕ
  pub workers : List Batch
  pub accepted : List Batch

-- `batch.Len()`: a newline stands between two events.
unfoldable pub batch_bytes : Batch → ℕ
batch_bytes [] = 0
batch_bytes (p ∷ []) = length p
batch_bytes (p ∷ q ∷ batch) = length p + (1 + batch_bytes (q ∷ batch))

unfoldable pub enqueue : Bytes → Forwarder → Forwarder
enqueue payload s =
    if ltb max_payload_bytes (length payload)
    then record s { dropped = suc s.dropped }
    else if s.closed
    then s
    else if ltb (length s.queue) s.capacity
    then record s { queue = s.queue ++ payload ∷ [] }
    else record s { dropped = suc s.dropped }

unfoldable pub send : Batch → Bool → Forwarder → Forwarder
send batch ok s =
    if ok
    then record s { accepted = s.accepted ++ batch ∷ [] }
    else record s { dropped = s.dropped + length batch }

-- The worker's batch is sent, unless it is empty, and a new one begun.
unfoldable pub flush : ℕ → Bool → Forwarder → Forwarder
unfolding send
flush worker ok s = elim (get_elem? s.workers worker) [
  | none ↦ s
  | some batch ↦
      if length batch == 0
      then s
      else send batch ok (record s { workers = set s.workers worker [] })
]

unfoldable pub is_full : Batch → Bool
unfolding batch_bytes
is_full batch = leb max_batch_entries (length batch) || leb max_batch_bytes (batch_bytes batch)

-- A worker takes the first event of the queue into its batch, and sends a batch that is full.
unfoldable pub receive_from : List Bytes → ℕ → Bool → Forwarder → Forwarder
unfolding flush is_full
receive_from [] worker ok s = s
receive_from (payload ∷ rest) worker ok s = elim (get_elem? s.workers worker) [
  | none ↦ s
  | some batch ↦
      let longer = batch ++ payload ∷ [] in
      let taken : Forwarder = record s { queue = rest; workers = set s.workers worker longer } in
      if is_full longer then flush worker ok taken else taken
]

unfoldable pub receive : ℕ → Bool → Forwarder → Forwarder
receive worker ok s = receive_from s.queue worker ok s

unfoldable pub close : Forwarder → Forwarder
close s = record s { closed = true }

-- An event that fits and comes after the closing is passed over in silence; any other counts.
unfoldable pub counted : Bytes → Forwarder → List Bytes
counted payload s =
    if s.closed && not (ltb max_payload_bytes (length payload)) then [] else payload ∷ []

-- One step; the list is that of the events offered that count.
pub data Move : Forwarder → List Bytes → Forwarder → Type 0 where
  offers : {s : Forwarder} (payload : Bytes) → Move s (counted payload s) (enqueue payload s)
  receives : {s : Forwarder} (worker : ℕ) (ok : Bool) → Move s [] (receive worker ok s)
  flushes : {s : Forwarder} (worker : ℕ) (ok : Bool) → Move s [] (flush worker ok s)
  closes : {s : Forwarder} → Move s [] (close s)

pub data Moves : Forwarder → List Bytes → Forwarder → Type 0 where
  done : {s : Forwarder} → Moves s [] s
  then_move :
      {s t u : Forwarder} {some_events more : List Bytes}
      → Move s some_events t
      → Moves t more u
      → Moves s (some_events ++ more) u
