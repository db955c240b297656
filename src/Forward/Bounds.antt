-- ===== src/Forward/Bounds.antt =====
-- The bounds of the log forwarder of internal/waf/logging.go: the queue, the batches under way and the
-- batches sent.
use synit_waf.Prelude.{
  ℕ, zero, suc, ◌+◌, ◌<◌, ◌≤◌, Bool, true, false, some, List, [], ◌∷◌, ◌++◌, length, All,
  length-append, All-append, All-set, All-get_elem?, set-set, get_elem?, set, ◌==◌, ◌≡◌, refl, sym,
  ap, subst, inl, inr, arith, Bool-cases, Option-cases,
}
use synit_waf.Request.Text.{Bytes}
use synit_waf.Forward.{
  Batch, max_payload_bytes, max_batch_entries, max_batch_bytes, Forwarder, batch_bytes, enqueue,
  send, flush, is_full, receive_from, receive, close, Move, offers, receives, flushes, closes,
  Moves, done, then_move,
}

abbrev pub IsSmall : Bytes → Type 0
IsSmall payload = length payload ≤ max_payload_bytes

-- A batch that still takes events.
abbrev pub IsOpen : Batch → Type 0
IsOpen batch = (length batch < max_batch_entries) × (batch_bytes batch < max_batch_bytes)

-- A batch that may be sent: the last event may exceed the limit on bytes.
abbrev pub IsSent : Batch → Type 0
IsSent batch =
    (length batch ≤ max_batch_entries) × (batch_bytes batch ≤ max_batch_bytes + max_payload_bytes)

abbrev pub IsBounded : Forwarder → Type 0
IsBounded s =
    (length s.queue ≤ s.capacity)
    × All IsSmall s.queue
    × All IsOpen s.workers
    × All IsSent s.accepted

get_elem?-set :
    (ws : List Batch) (i : ℕ) (b c : Batch)
    → get_elem? ws i ≡ some b
    → get_elem? (set ws i c) i ≡ some c
get_elem?-set [] i b c e = absurd (cc)
get_elem?-set (w ∷ ws) zero b c e = refl
get_elem?-set (w ∷ ws) (suc i) b c e = get_elem?-set ws i b c e

batch_bytes-snoc :
    (b : Batch) (p : Bytes) → batch_bytes (b ++ p ∷ []) ≤ batch_bytes b + (1 + length p)
unfolding batch_bytes
batch_bytes-snoc [] p = omega arith
batch_bytes-snoc (q ∷ []) p = omega arith
batch_bytes-snoc (q ∷ r ∷ b) p = omega (arith, batch_bytes-snoc (r ∷ b) p)

-- What one more event makes of a batch under way, and what it is when it is not full.
IsSent-snoc : (b : Batch) (p : Bytes) → IsOpen b → IsSmall p → IsSent (b ++ p ∷ [])
IsSent-snoc b p opened small = (
  omega (arith, length-append b (p ∷ []), opened),
  omega (arith, batch_bytes-snoc b p, opened, small),
)

IsOpen-is_full : (b : Batch) → is_full b ≡ false → IsOpen b
unfolding is_full
IsOpen-is_full b more = (ground arith, ground arith)

IsSent-of_IsOpen : (b : Batch) → IsOpen b → IsSent b
IsSent-of_IsOpen b opened = (omega (arith, opened), omega (arith, opened))

empty-IsOpen : IsOpen []
unfolding batch_bytes
empty-IsOpen = (omega arith, omega arith)

snoc-not_empty : (b : Batch) (p : Bytes) → (length (b ++ p ∷ []) == 0) ≡ false
snoc-not_empty b p = ground (arith, length-append b (p ∷ []))

enqueue-IsBounded : (payload : Bytes) (s : Forwarder) → IsBounded s → IsBounded (enqueue payload s)
unfolding enqueue
enqueue-IsBounded payload s h =
    ground
      (arith, length-append s.queue (payload ∷ []), All-append IsSmall s.queue (payload ∷ []) h.1)

send-IsBounded :
    (batch : Batch) (ok : Bool) (s : Forwarder)
    → IsSent batch
    → IsBounded s
    → IsBounded (send batch ok s)
unfolding send
send-IsBounded batch true s sent (room, small, opened, gone) =
    (room, small, opened, All-append IsSent s.accepted (batch ∷ []) gone (sent, tt))
send-IsBounded batch false s sent h = h

-- A worker's batch may be sent once all others, and the empty one in its place, are under way.
flush-IsBounded_when :
    (worker : ℕ) (ok : Bool) (s : Forwarder) (batch : Batch)
    → get_elem? s.workers worker ≡ some batch
    → (length batch == 0) ≡ false
    → IsSent batch
    → IsBounded (record s { workers = set s.workers worker [] })
    → IsBounded (flush worker ok s)
unfolding flush
flush-IsBounded_when worker ok s batch there some_events sent h =
    let reset : Forwarder = record s { workers = set s.workers worker [] } in
    let step : flush worker ok s ≡ send batch ok reset = rw (there, some_events, flush) in
    subst IsBounded (sym step) (send-IsBounded batch ok reset sent h)

flush-IsBounded :
    (worker : ℕ) (ok : Bool) (s : Forwarder) → IsBounded s → IsBounded (flush worker ok s)
unfolding flush batch_bytes
flush-IsBounded worker ok s h = elim (Option-cases (get_elem? s.workers worker)) [
  | inl absent ↦
      let step : flush worker ok s ≡ s = rw (absent, flush) in subst IsBounded (sym step) h
  | inr (batch, there) ↦ elim (Bool-cases (length batch == 0)) [
    | inl empty ↦
        let step : flush worker ok s ≡ s = rw (there, empty, flush) in subst IsBounded (sym step) h
    | inr some_events ↦
        let opened = All-get_elem? IsOpen s.workers worker batch h.2 there in
        flush-IsBounded_when worker ok s batch there some_events (IsSent-of_IsOpen batch opened)
          (h.0, h.1, All-set IsOpen s.workers worker [] h.2 empty-IsOpen, h.3)
  ]
]

receive_from-IsBounded :
    (queue : List Bytes) (worker : ℕ) (ok : Bool) (s : Forwarder)
    → s.queue ≡ queue
    → IsBounded s
    → IsBounded (receive_from queue worker ok s)
unfolding receive_from
receive_from-IsBounded [] worker ok s queued h = h
receive_from-IsBounded (payload ∷ rest) worker ok s queued h =
    elim (Option-cases (get_elem? s.workers worker)) [
      | inl absent ↦
          let step : receive_from (payload ∷ rest) worker ok s ≡ s = rw (absent, receive_from) in
          subst IsBounded (sym step) h
      | inr (batch, there) ↦
          let opened = All-get_elem? IsOpen s.workers worker batch h.2 there in
          let longer = batch ++ payload ∷ [] in
          let smalls : All IsSmall (payload ∷ rest) = subst (All IsSmall) queued h.1 in
          let waiting : length s.queue ≡ suc (length rest) = ap length queued in
          let room : length rest ≤ s.capacity = omega (arith, h.0) in
          let taken : Forwarder = record s {
            queue = rest;
            workers = set s.workers worker longer;
          } in
          elim (Bool-cases (is_full longer)) [
            | inl full ↦
                let step : receive_from (payload ∷ rest) worker ok s ≡ flush worker ok taken =
                  rw (there, full, receive_from) in
                let others : All IsOpen (set (set s.workers worker longer) worker []) =
                  subst (All IsOpen) (sym (set-set s.workers worker longer []))
                    (All-set IsOpen s.workers worker [] h.2 empty-IsOpen) in
                subst IsBounded (sym step) (
                  flush-IsBounded_when worker ok taken longer
                    (get_elem?-set s.workers worker batch longer there)
                    (snoc-not_empty batch payload) (IsSent-snoc batch payload opened smalls.0)
                    (room, smalls.1, others, h.3))
            | inr more ↦
                let step : receive_from (payload ∷ rest) worker ok s ≡ taken =
                  rw (there, more, receive_from) in
                let kept =
                  All-set IsOpen s.workers worker longer h.2 (IsOpen-is_full longer more) in
                subst IsBounded (sym step) (room, smalls.1, kept, h.3)
          ]
    ]

Move-IsBounded : {s t : Forwarder} {n : List Bytes} → Move s n t → IsBounded s → IsBounded t
unfolding close receive
Move-IsBounded {s} (offers payload) h = enqueue-IsBounded payload s h
Move-IsBounded {s} (receives worker ok) h = receive_from-IsBounded s.queue worker ok s refl h
Move-IsBounded {s} (flushes worker ok) h = flush-IsBounded worker ok s h
Move-IsBounded closes h = h

-- Whatever the workers do and however the requests end, the queue keeps its capacity, an event in it
-- is at most 16 KiB, a batch under way is below both limits, and a batch that the webhook accepted has
-- at most 100 events and exceeds 512 KiB by at most one event.
pub Moves-IsBounded : {s t : Forwarder} {n : List Bytes} → Moves s n t → IsBounded s → IsBounded t
Moves-IsBounded done h = h
Moves-IsBounded (then_move first rest) h = Moves-IsBounded rest (Move-IsBounded first h)
