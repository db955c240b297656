-- ===== src/Forward/Conserved.antt =====
-- The books of the log forwarder of internal/waf/logging.go: no event is lost that is not counted, and
-- none is altered, invented or doubled.
use synit_waf.Prelude.{
  ℕ, zero, suc, ◌+◌, Bool, true, false, some, List, [], ◌∷◌, ◌++◌, length, length-append, get_elem?,
  set, ◌==◌, ltb, ◌≡◌, refl, sym, ap, subst, inl, inr, arith, Bool-cases, Option-cases,
  if◌then◌else◌,
}
use synit_waf.Request.Text.{Bytes, bytes_eq}
use synit_waf.Forward.{
  Batch, max_payload_bytes, Forwarder, enqueue, send, flush, is_full, receive_from, receive, close,
  counted, Move, offers, receives, flushes, closes, Moves, done, then_move,
}

-- How often an event stands in a list.
abbrev pub times : Bytes → List Bytes → ℕ
times p [] = 0
times p (q ∷ qs) = let n = times p qs in if bytes_eq q p then suc n else n

abbrev pub times_in : Bytes → List Batch → ℕ
times_in p [] = 0
times_in p (b ∷ batches) = times p b + times_in p batches

-- How often it waits in the queue, is under way or was accepted.
abbrev pub places : Bytes → Forwarder → ℕ
places p s = times p s.queue + (times_in p s.workers + times_in p s.accepted)

-- With the events of one list lost, which the count of drops says, the forwarder holds what it held and
-- what it was offered, each event as often.
abbrev pub Accounts : List Bytes → Forwarder → Forwarder → Type 0
Accounts offered s t =
    (lost : List Bytes) × (t.dropped ≡ s.dropped + length lost)
    × ((p : Bytes) → places p t + times p lost ≡ times p offered + places p s)

times-append : (p : Bytes) (xs ys : List Bytes) → times p (xs ++ ys) ≡ times p xs + times p ys
times-append p [] ys = omega arith
times-append p (x ∷ xs) ys = ground (arith, times-append p xs ys)

times_in-append :
    (p : Bytes) (xs ys : List Batch) → times_in p (xs ++ ys) ≡ times_in p xs + times_in p ys
times_in-append p [] ys = omega arith
times_in-append p (x ∷ xs) ys = omega (arith, times_in-append p xs ys)

times_in-set :
    (p : Bytes) (ws : List Batch) (i : ℕ) (old new : Batch)
    → get_elem? ws i ≡ some old
    → times_in p (set ws i new) + times p old ≡ times_in p ws + times p new
times_in-set p [] i old new e = absurd (cc)
times_in-set p (w ∷ ws) zero old new e =
    let same : times p w ≡ times p old = ap (times p) (cc) in omega (arith, same)
times_in-set p (w ∷ ws) (suc i) old new e = omega (arith, times_in-set p ws i old new e)

enqueue-Accounts :
    (payload : Bytes) (s : Forwarder) → Accounts (counted payload s) s (enqueue payload s)
unfolding enqueue counted
enqueue-Accounts payload s =
    let event = payload ∷ [] in
    elim (Bool-cases (ltb max_payload_bytes (length payload))) [
      | inl long ↦ (event, ground arith, λ p. ground arith)
      | inr short ↦ elim (Bool-cases s.closed) [
        | inl over ↦ ([], ground arith, λ p. ground arith)
        | inr running ↦ elim (Bool-cases (ltb (length s.queue) s.capacity)) [
          | inl room ↦ ([], ground arith, λ p. ground (arith, times-append p s.queue event))
          | inr full ↦ (event, ground arith, λ p. ground arith)
        ]
      ]
    ]

send-Accounts : (batch : Batch) (ok : Bool) (s : Forwarder) → Accounts batch s (send batch ok s)
unfolding send
send-Accounts batch true s =
    ([], omega arith, λ p. omega (arith, times_in-append p s.accepted (batch ∷ [])))
send-Accounts batch false s = (batch, refl, λ p. omega arith)

flush-Accounts : (worker : ℕ) (ok : Bool) (s : Forwarder) → Accounts [] s (flush worker ok s)
unfolding flush
flush-Accounts worker ok s =
    let same : Accounts [] s s = ([], omega arith, λ p. omega arith) in
    elim (Option-cases (get_elem? s.workers worker)) [
      | inl absent ↦
          let step : flush worker ok s ≡ s = rw (absent, flush) in
          subst (Accounts [] s) (sym step) same
      | inr (batch, there) ↦ elim (Bool-cases (length batch == 0)) [
        | inl empty ↦
            let step : flush worker ok s ≡ s = rw (there, empty, flush) in
            subst (Accounts [] s) (sym step) same
        | inr some_events ↦
            let reset : Forwarder = record s { workers = set s.workers worker [] } in
            let step : flush worker ok s ≡ send batch ok reset = rw (there, some_events, flush) in
            let (lost, drops, moved) = send-Accounts batch ok reset in
            let sent : Accounts [] s (send batch ok reset) = (
              lost,
              drops,
              λ p. omega (arith, moved p, times_in-set p s.workers worker batch [] there),
            ) in
            subst (Accounts [] s) (sym step) sent
      ]
    ]

-- The forwarder after a worker has put an event into its batch.
abbrev take_into : ℕ → Bytes → List Bytes → Batch → Forwarder → Forwarder
take_into worker payload rest batch s = record s {
  queue = rest;
  workers = set s.workers worker (batch ++ payload ∷ []);
}

take_into-places :
    (worker : ℕ) (payload : Bytes) (rest : List Bytes) (batch : Batch) (s : Forwarder) (p : Bytes)
    → s.queue ≡ payload ∷ rest
    → get_elem? s.workers worker ≡ some batch
    → places p (take_into worker payload rest batch s) ≡ places p s
take_into-places worker payload rest batch s p queued there =
    let waiting : times p s.queue ≡ times p (payload ∷ rest) = ap (times p) queued in
    ground (
      arith,
      waiting,
      times-append p batch (payload ∷ []),
      times_in-set p s.workers worker batch (batch ++ payload ∷ []) there,
    )

receive_from-Accounts :
    (queue : List Bytes) (worker : ℕ) (ok : Bool) (s : Forwarder)
    → s.queue ≡ queue
    → Accounts [] s (receive_from queue worker ok s)
unfolding receive_from
receive_from-Accounts [] worker ok s queued = ([], omega arith, λ p. omega arith)
receive_from-Accounts (payload ∷ rest) worker ok s queued =
    elim (Option-cases (get_elem? s.workers worker)) [
      | inl absent ↦
          let step : receive_from (payload ∷ rest) worker ok s ≡ s = rw (absent, receive_from) in
          subst (Accounts [] s) (sym step) ([], omega arith, λ p. omega arith)
      | inr (batch, there) ↦
          let taken : Forwarder = take_into worker payload rest batch s in
          let kept = λ (p : Bytes). take_into-places worker payload rest batch s p queued there in
          elim (Bool-cases (is_full (batch ++ payload ∷ []))) [
            | inl full ↦
                let step : receive_from (payload ∷ rest) worker ok s ≡ flush worker ok taken =
                  rw (there, full, receive_from) in
                let (lost, drops, moved) = flush-Accounts worker ok taken in
                subst (Accounts [] s) (sym step) (lost, drops, λ p. omega (arith, moved p, kept p))
            | inr more ↦
                let step : receive_from (payload ∷ rest) worker ok s ≡ taken =
                  rw (there, more, receive_from) in
                subst (Accounts [] s) (sym step) ([], omega arith, λ p. omega (arith, kept p))
          ]
    ]

Move-Accounts : {s t : Forwarder} {offered : List Bytes} → Move s offered t → Accounts offered s t
unfolding close receive
Move-Accounts {s} (offers payload) = enqueue-Accounts payload s
Move-Accounts {s} (receives worker ok) = receive_from-Accounts s.queue worker ok s refl
Move-Accounts {s} (flushes worker ok) = flush-Accounts worker ok s
Move-Accounts closes = ([], omega arith, λ p. omega arith)

-- Whatever the workers do and however the requests end, and for one list of lost events, as many as
-- the count of drops grows by: each event is now in the queue, in a batch under way, in an accepted
-- batch or among the lost ones as often as it was in the first three before and was offered since,
-- where an offer that fits and comes after the closing does not count.
pub Moves-Accounts :
    {s t : Forwarder} {offered : List Bytes} → Moves s offered t → Accounts offered s t
Moves-Accounts done = ([], omega arith, λ p. omega arith)
Moves-Accounts (then_move {some_events = now} {more = later} first rest) =
    let (lost, drops, moved) = Move-Accounts first in
    let (lost_later, drops_later, moved_later) = Moves-Accounts rest in
    (
      lost ++ lost_later,
      omega (arith, drops, drops_later, length-append lost lost_later),
      λ p.
          omega (
            arith,
            moved p,
            moved_later p,
            times-append p lost lost_later,
            times-append p now later,
          ),
    )
