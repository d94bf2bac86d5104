-- ===== src/Events/SseManager.antt =====
-- src/events/sse-manager.ts: SSEManager, and the way src/api/routes/events.ts lets a client in. An
-- operation gives the manager and the messages that it sends; whether a send succeeds is told later,
-- by `sent` or `close_connection`. A time is a number of milliseconds. The sockets are left out.
pub mod Caps
pub mod Replay
use wood_fired_tasks.Prelude.{
  ℕ, zero, suc, ◌+◌, ◌-◌, Bool, true, false, not, ◌&&◌, ◌||◌, Option, none, some, List, [], ◌∷◌,
  ◌++◌, map, keep, length, String, leb, ltb, ◌==◌, str_eq, if◌then◌else◌,
}
use wood_fired_tasks.Prelude.Dict.{get, put, drop_key}

-- An event; its data only tells the project.
pub record Payload : Type 0 where
  pub event_type : String
  pub timestamp : ℕ
  pub about_project : Option ℕ

pub record Filters : Type 0 where
  pub project_id : Option ℕ
  pub event_types : Option (List String)

pub record Connection : Type 0 where
  pub filters : Filters
  pub last_event_id : ℕ
  pub created_at : ℕ
  pub api_key_fingerprint : String
  pub ip : String

pub record Buffered : Type 0 where
  pub id : ℕ
  pub event : Payload

-- The parameters of the constructor.
pub record Limits : Type 0 where
  pub max_buffer_size : ℕ
  pub buffer_ttl_ms : ℕ
  pub max_connection_age_ms : ℕ
  pub max_connections_per_key : ℕ
  pub max_connections_per_ip : ℕ
  pub max_connections : ℕ

pub record Manager : Type 0 where
  pub connections : List (String × Connection)
  pub event_buffer : List Buffered
  pub next_event_id : ℕ
  pub total_events_sent : ℕ

pub data Message : Type 0 where
  event_message : String → Buffered → Message
  replay_gap : String → ℕ → ℕ → Message
  ping : String → Message

pub data Decision : Type 0 where
  accepted denied_global denied_per_key denied_per_ip : Decision

abbrev pub new_manager : Manager
new_manager = record {
  connections = [];
  event_buffer = [];
  next_event_id = 1;
  total_events_sent = 0;
}

-- How many connections pass the test.
unfoldable pub count : (Connection → Bool) → List (String × Connection) → ℕ
count test [] = 0
count test ((id, c) ∷ cs) = (if test c then 1 else 0) + count test cs

abbrev pub of_key : String → Connection → Bool
of_key fingerprint c = str_eq c.api_key_fingerprint fingerprint

abbrev pub of_ip : String → Connection → Bool
of_ip ip c = str_eq c.ip ip

abbrev pub anyone : Connection → Bool
anyone c = true

unfoldable pub can_accept : Limits → Manager → String → String → Decision
can_accept limits m fingerprint ip =
    if leb limits.max_connections (count anyone m.connections)
    then denied_global
    else if leb limits.max_connections_per_key (count (of_key fingerprint) m.connections)
    then denied_per_key
    else if leb limits.max_connections_per_ip (count (of_ip ip) m.connections)
    then denied_per_ip
    else accepted

abbrev includes_type : List String → String → Bool
includes_type [] t = false
includes_type (x ∷ xs) t = str_eq x t || includes_type xs t

abbrev type_matches : Option (List String) → String → Bool
type_matches none t = true
type_matches (some types) t = includes_type types t

-- A filter on project 0 is none, and an event without a project passes every filter.
abbrev project_matches : Option ℕ → Option ℕ → Bool
project_matches none project = true
project_matches (some zero) project = true
project_matches (some (suc n)) none = true
project_matches (some (suc n)) (some project) = project == suc n

unfoldable pub matches_filters : Payload → Filters → Bool
matches_filters event filters =
    type_matches filters.event_types event.event_type
    && project_matches filters.project_id event.about_project

-- The gap that `replayEvents` reports: events are asked for that are no longer there.
unfoldable pub gap : String → ℕ → List Buffered → List Message
gap id from [] = []
gap id from (earliest ∷ rest) =
    if ltb 0 from && ltb (from + 1) earliest.id then replay_gap id from earliest.id ∷ [] else []

unfoldable pub missed : ℕ → Filters → List Buffered → List Buffered
missed from filters buffer =
    keep (λ e. matches_filters e.event filters) (keep (λ e. ltb from e.id) buffer)

unfoldable pub replay_events : Manager → String → ℕ → List Message
replay_events m id from = elim (get m.connections id) [
  | none ↦ []
  | some c ↦
      gap id from m.event_buffer ++ map (event_message id) (missed from c.filters m.event_buffer)
]

abbrev or_zero : Option ℕ → ℕ
or_zero none = 0
or_zero (some n) = n

-- The connection of a client that is let in.
abbrev pub opened : ℕ → Filters → Option ℕ → String → String → Connection
opened now filters last fingerprint ip = record {
  filters = filters;
  last_event_id = or_zero last;
  created_at = now;
  api_key_fingerprint = fingerprint;
  ip = ip;
}

unfoldable pub add_connection :
    ℕ → Manager → String → Filters → Option ℕ → String → String → Manager × List Message
add_connection now m id filters last fingerprint ip =
    let m' = record m {
      connections = put m.connections id (opened now filters last fingerprint ip);
    } in
    (m', elim last [ none ↦ [] | some from ↦ replay_events m' id from ])

-- A request for the stream of events.
pub record Request : Type 0 where
  pub filters : Filters
  pub last : Option ℕ
  pub fingerprint : String
  pub ip : String

-- The route asks in a hook of the request and adds in its handler: between the two, a request that was
-- let in is on its way, and other requests may come and go.
pub record Route : Type 0 where
  pub manager : Manager
  pub admitted : List Request

-- The hook: 429 unless the manager accepts.
unfoldable pub admit : Limits → Route → Request → Route × Decision
admit limits s r = elim (can_accept limits s.manager r.fingerprint r.ip) [
  | accepted ↦ (record s { admitted = s.admitted ++ r ∷ [] }, accepted)
  | denied_global ↦ (s, denied_global)
  | denied_per_key ↦ (s, denied_per_key)
  | denied_per_ip ↦ (s, denied_per_ip)
]

-- The handler of a request.
unfoldable pub register : ℕ → Manager → String → Request → Manager × List Message
register now m id r = add_connection now m id r.filters r.last r.fingerprint r.ip

-- `removeConnection`, and `closeConnection` without the socket.
unfoldable pub close_connection : Manager → String → Manager
close_connection m id = record m { connections = drop_key m.connections id }

unfoldable pub drop_first : ℕ → List Buffered → List Buffered
drop_first zero es = es
drop_first (suc n) [] = []
drop_first (suc n) (e ∷ es) = drop_first n es

-- `slice(-max)`, which is the whole buffer for a maximum of 0.
unfoldable pub keep_last : ℕ → List Buffered → List Buffered
keep_last max es =
    if ltb max (length es) then if max == 0 then es else drop_first (length es - max) es else es

unfoldable pub prune_event_buffer : ℕ → Limits → List Buffered → List Buffered
prune_event_buffer now limits es =
    keep (λ e. ltb now (e.event.timestamp + limits.buffer_ttl_ms))
      (keep_last limits.max_buffer_size es)

unfoldable pub send_to : List (String × Connection) → Buffered → List Message
send_to [] e = []
send_to ((id, c) ∷ cs) e =
    (if matches_filters e.event c.filters then event_message id e ∷ [] else []) ++ send_to cs e

abbrev pub numbered : ℕ → Payload → Buffered
numbered id event = record { id = id; event = event }

unfoldable pub broadcast : ℕ → Limits → Manager → Payload → Manager × List Message
broadcast now limits m event =
    let e = numbered m.next_event_id event in
    (
      record m {
        event_buffer = prune_event_buffer now limits (m.event_buffer ++ e ∷ []);
        next_event_id = suc m.next_event_id;
      },
      send_to m.connections e,
    )

-- A send that succeeded.
unfoldable pub sent : Manager → String → ℕ → Manager
sent m id event_id = elim (get m.connections id) [
  | none ↦ record m { total_events_sent = suc m.total_events_sent }
  | some c ↦ record m {
    connections = put m.connections id (record c { last_event_id = event_id });
    total_events_sent = suc m.total_events_sent;
  }
]

abbrev pub too_old : ℕ → Limits → Connection → Bool
too_old now limits c = ltb (c.created_at + limits.max_connection_age_ms) now

-- The loop of `heartbeatSweep`: an old connection is closed, any other gets a ping.
unfoldable pub sweep_each :
    ℕ → Limits → List (String × Connection) → Manager → Manager × List Message
sweep_each now limits [] m = (m, [])
sweep_each now limits ((id, c) ∷ cs) m =
    let next = if too_old now limits c then close_connection m id else m in
    let (last, pings) = sweep_each now limits cs next in
    (last, if too_old now limits c then pings else ping id ∷ pings)

unfoldable pub heartbeat_sweep : ℕ → Limits → Manager → Manager × List Message
heartbeat_sweep now limits m = sweep_each now limits m.connections m

unfoldable pub shutdown : Manager → Manager
shutdown m = record m { connections = []; event_buffer = [] }
