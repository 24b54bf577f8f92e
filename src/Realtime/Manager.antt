-- ===== src/Realtime/Manager.antt =====
-- `WebSocketManager` of app/realtime/websocket_manager.py. The dictionary of connections is a list
-- in the order of insertion. Whether a socket takes a message is a parameter, and so is whether a
-- session is valid; closing a socket and the tasks of the event loop are not modelled.
use civiclens.Access.{AuthContext}
use civiclens.Realtime.Events.{DomainEvent, View, may_receive, view_for}
use civiclens.Prelude.{
  ℕ, ◌+◌, String, Bool, false, not, ◌&&◌, Option, none, some, List, [], ◌∷◌, map, if◌then◌else◌,
  length, filter, str_eq, opt_eq, is_empty,
}

pub record Connection : Type 0 where
  pub id : String
  pub ctx : AuthContext
  pub session_hash : Option String

pub record Manager : Type 0 where
  pub conns : List Connection
  pub delivered_total : ℕ
  pub dropped_total : ℕ

pub empty_manager : Manager
empty_manager = record { conns = []; delivered_total = 0; dropped_total = 0 }

unfoldable pub connection_count : Manager → ℕ
connection_count m = length m.conns

-- `self._conns[c.id] = c`
unfoldable pub put : Connection → List Connection → List Connection
put c [] = c ∷ []
put c (d ∷ ds) = let rest = put c ds in if str_eq d.id c.id then c ∷ ds else d ∷ rest

-- `connect`, with the identifier that `uuid4` gives.
unfoldable pub connect : String → AuthContext → Option String → Manager → Manager
unfolding put
connect id ctx session_hash m = record m {
  conns = put (record { id = id; ctx = ctx; session_hash = session_hash }) m.conns;
}

abbrev pub has_other_id : String → Connection → Bool
has_other_id id c = not (str_eq c.id id)

-- `self._conns.pop(connection_id, None)`
unfoldable pub disconnect : String → Manager → Manager
disconnect id m = record m { conns = filter (has_other_id id) m.conns }

-- `_close`, without the closing of the socket.
unfoldable pub close_all : List Connection → Manager → Manager
unfolding disconnect
close_all [] m = m
close_all (c ∷ cs) m = close_all cs (disconnect c.id m)

abbrev pub in_session : String → Connection → Bool
in_session hash c = opt_eq c.session_hash (some hash)

unfoldable pub drop_session : String → Manager → ℕ × Manager
unfolding close_all
drop_session hash m =
    let victims = filter (in_session hash) m.conns in (length victims, close_all victims m)

-- `conn.session_hash and not await is_valid(conn.session_hash)`
abbrev pub is_stale : (String → Bool) → Option String → Bool
is_stale is_valid none = false
is_stale is_valid (some hash) = not (is_empty hash) && not (is_valid hash)

unfoldable pub sweep_from : (String → Bool) → List Connection → ℕ × Manager → ℕ × Manager
unfolding disconnect
sweep_from is_valid [] (dropped, m) = (dropped, m)
sweep_from is_valid (c ∷ cs) (dropped, m) =
    sweep_from is_valid cs
      (if is_stale is_valid c.session_hash then (dropped + 1, disconnect c.id m) else (dropped, m))

unfoldable pub sweep : (String → Bool) → Manager → ℕ × Manager
unfolding sweep_from
sweep is_valid m = sweep_from is_valid m.conns (0, m)

abbrev pub targets : DomainEvent → List Connection → List Connection
targets event conns = filter (λ c. may_receive c.ctx event) conns

-- What `deliver` sends.
unfoldable pub sends : DomainEvent → Manager → List (Connection × View)
sends event m = map (λ c. (c, view_for c.ctx event)) (targets event m.conns)

-- The loop of `deliver` over the results: `takes` says whether a message went through.
unfoldable pub count_results :
    (Connection → View → Bool) → List (Connection × View) → ℕ × Manager → ℕ × Manager
unfolding disconnect
count_results takes [] (sent, m) = (sent, m)
count_results takes ((c, view) ∷ rest) (sent, m) = count_results takes rest (
    if takes c view
    then (sent + 1, m)
    else (sent, disconnect c.id (record m { dropped_total = m.dropped_total + 1 })))

unfoldable pub deliver : (Connection → View → Bool) → DomainEvent → Manager → ℕ × Manager
unfolding sends count_results
deliver takes event m =
    let (sent, m') = count_results takes (sends event m) (0, m) in
    (sent, record m' { delivered_total = m'.delivered_total + sent })
