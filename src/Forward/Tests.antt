-- ===== src/Forward/Tests.antt =====
-- The log forwarder of internal/waf/logging.go at concrete events.
use synit_waf.Prelude.{List, true, false, [], ◌∷◌, ◌≡◌, refl, arith}
use synit_waf.Request.Text.{Bytes}
use synit_waf.Forward.{
  Forwarder, batch_bytes, enqueue, flush, receive, receive_from, close, counted, offers, receives,
  flushes, closes, Moves, done, then_move,
}
use synit_waf.Forward.Conserved.{Accounts, Moves-Accounts}
use synit_waf.Forward.Bounds.{IsBounded, Moves-IsBounded}

abbrev event : Bytes
event = 123 ∷ 125 ∷ []

abbrev idle : Forwarder
idle = record {
  queue = [];
  capacity = 1;
  closed = false;
  dropped = 0;
  workers = [] ∷ [];
  accepted = [];
}

-- One event is taken by the worker and sent; of two more, the second finds the queue full; the last
-- comes after the closing.
abbrev ends : Forwarder
ends =
    enqueue event
      (close (enqueue event (enqueue event (flush 0 true (receive 0 true (enqueue event idle))))))

abbrev offered : List Bytes
offered = event ∷ event ∷ event ∷ []

run : Moves idle offered ends
unfolding enqueue flush receive receive_from close counted
run = then_move (offers event) (
    then_move (receives 0 true) (
      then_move (flushes 0 true) (
        then_move (offers event)
          (then_move (offers event) (then_move closes (then_move (offers event) done))))))

run_ends : (ends.dropped ≡ 1) × (ends.accepted ≡ (event ∷ []) ∷ [])
unfolding enqueue flush receive receive_from close
run_ends = (refl, refl)

Moves-Accounts_example : Accounts offered idle ends
Moves-Accounts_example = Moves-Accounts run

idle-IsBounded : IsBounded idle
unfolding batch_bytes
idle-IsBounded = (omega arith, tt, ((omega arith, omega arith), tt), tt)

Moves-IsBounded_example : IsBounded ends
Moves-IsBounded_example = Moves-IsBounded run idle-IsBounded
