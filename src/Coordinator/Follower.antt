-- ===== src/Coordinator/Follower.antt =====
-- `Allow` of internal/waf/coordinator.go for a follower: the one connection to the leader, opened on
-- demand, closed when idle or after any error.
--
-- The network and the leader's reply are the environment's: each call takes what they answer.
use synit_waf.Prelude.{
  ℕ, ◌-◌, ◌*◌, Bool, true, false, ◌&&◌, not, Option, none, some, leb, if◌then◌else◌, ◌≡◌, refl, ◌⊎◌,
  arith,
}
use synit_waf.Coordinator.{second}

-- The follower's fields of `Coordinator`: `client` and `clientConn` are set and cleared together.
pub record Link : Type 0 where
  pub connected : Bool
  pub last_used : ℕ
  pub closed : Bool

-- What the network does in one call: whether the dial and the two deadlines succeed, and the reply
-- of the remote procedure call, if one comes.
pub record Network : Type 0 where
  pub dials : Bool
  pub sets_deadline : Bool
  pub reply : Option Bool
  pub resets_deadline : Bool

abbrev pub idle_timeout : ℕ
idle_timeout = 30 * second

-- `closeFollowerClientLocked`.
unfoldable pub close_client : Link → Link
close_client l = record l { connected = false; last_used = 0 }

-- The connection is dropped when it has been idle for too long.
unfoldable pub drop_idle_client : ℕ → Link → Link
unfolding close_client
drop_idle_client now l =
    if l.connected && leb idle_timeout (now - l.last_used) then close_client l else l

-- `dialFollowerLocked`, where there is no connection.
unfoldable pub ensure_client : ℕ → Network → Link → Option Link
ensure_client now net l =
    if l.connected
    then some l
    else if net.dials
    then some (record l { connected = true; last_used = now })
    else none

-- The call over a connection that stands. `used` is the clock behind the reply.
unfoldable pub exchange : ℕ → Network → Link → Option Bool × Link
unfolding close_client
exchange used net l = if not net.sets_deadline then (none, close_client l) else elim net.reply [
  | none ↦ (none, close_client l)
  | some b ↦
      if net.resets_deadline
      then (some b, record l { last_used = used })
      else (none, close_client (record l { last_used = used }))
]

-- `none` is an error.
unfoldable pub follower_allow : ℕ → ℕ → Network → Link → Option Bool × Link
unfolding drop_idle_client ensure_client exchange
follower_allow now used net l =
    if l.closed then (none, l) else elim (ensure_client now net (drop_idle_client now l)) [
      | none ↦ (none, drop_idle_client now l)
      | some open_link ↦ exchange used net open_link
    ]

-- `Close`, for the follower.
unfoldable pub close_link : Link → Link
close_link l = record { connected = false; last_used = 0; closed = true }

-- A call that answers gives the leader's reply over a link that was not closed, and leaves the
-- connection open, used at that time.
pub follower_allow_answers :
    (now used : ℕ) (net : Network) (l : Link) (b : Bool)
    → (follower_allow now used net l).0 ≡ some b
    → (net.reply ≡ some b)
      × (l.closed ≡ false)
      × ((follower_allow now used net l).1
          ≡ record { connected = true; last_used = used; closed = false })
unfolding follower_allow
follower_allow_answers now used net l b h = ground arith

-- A call that fails leaves no connection, unless the link was closed before.
pub follower_allow_fails :
    (now used : ℕ) (net : Network) (l : Link)
    → (follower_allow now used net l).0 ≡ none
    → (l.closed ≡ true) ⊎ ((follower_allow now used net l).1.connected ≡ false)
unfolding follower_allow
follower_allow_fails now used net l h = ground arith

-- Where the network serves every step, an open link gets the leader's reply, whether it was connected
-- before, idle for too long, or not connected.
pub follower_allow_serves :
    (now used : ℕ) (net : Network) (l : Link) (b : Bool)
    → l.closed ≡ false
    → net.dials ≡ true
    → net.sets_deadline ≡ true
    → net.resets_deadline ≡ true
    → net.reply ≡ some b
    → (follower_allow now used net l).0 ≡ some b
unfolding follower_allow
follower_allow_serves now used net l b h d s r e = ground arith

-- Once closed, a link opens no connection and answers no call.
pub follower_allow_closed :
    (now used : ℕ) (net : Network) (l : Link)
    → follower_allow now used net (close_link l) ≡ (none, close_link l)
unfolding follower_allow close_link
follower_allow_closed now used net l = refl
