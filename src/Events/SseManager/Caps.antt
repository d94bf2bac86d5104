-- ===== src/Events/SseManager/Caps.antt =====
-- How far the caps on connections hold, with requests between their check and their registration.
use mathlib.Core.Option.{some-injective}
use wood_fired_tasks.Prelude.{
  ℕ, ◌+◌, ◌≤◌, ◌≡◌, ◌<◌, ◌⊎◌, refl, ap, subst, ◌∙◌, inl, inr, Bool, true, some, List, [], ◌∷◌, ◌++◌,
  String, length, str_eq, if◌then◌else◌, arith, Bool-cases, Option-cases, eq_iff,
}
use wood_fired_tasks.Prelude.Dict.{get, put, drop_key}
use wood_fired_tasks.Events.SseManager.{
  Payload, Decision, accepted, denied_global, denied_per_key, denied_per_ip, Connection, Limits,
  Manager, new_manager, count, of_key, of_ip, anyone, can_accept, opened, Request, Route, admit,
  register, add_connection, close_connection, broadcast, sent, too_old, sweep_each, heartbeat_sweep,
  shutdown,
}

-- What a cap counts: all connections, those of a key, or those of an address.
data View : Type 0 where
  all : View
  key address : String → View

abbrev counts : View → Connection → Bool
counts all = anyone
counts (key fingerprint) = of_key fingerprint
counts (address ip) = of_ip ip

abbrev cap : Limits → View → ℕ
cap limits all = limits.max_connections
cap limits (key fingerprint) = limits.max_connections_per_key
cap limits (address ip) = limits.max_connections_per_ip

-- The connection that a request asks for, at time 0: no view looks at the time.
abbrev asked : Request → Connection
asked r = opened 0 r.filters r.last r.fingerprint r.ip

-- The requests on their way that a view counts.
unfoldable pending : View → List Request → ℕ
pending v [] = 0
pending v (r ∷ rs) = (if counts v (asked r) then 1 else 0) + pending v rs

abbrev on_way : View → Route → ℕ
on_way v s = count (counts v) s.manager.connections + pending v s.admitted

-- With k requests on their way at most.
record IsBounded (limits : Limits) (k : ℕ) (s : Route) : Type 0 where
  few : length s.admitted ≤ k
  room : (v : View) → on_way v s < cap limits v + k

count-put :
    (test : Connection → Bool) (cs : List (String × Connection)) (id : String) (c : Connection)
    → count test (put cs id c) ≤ (if test c then 1 else 0) + count test cs
unfolding count put
count-put test [] id c = ground arith
count-put test ((j, d) ∷ cs) id c = ground (arith, count-put test cs id c)

count-drop_key :
    (test : Connection → Bool) (cs : List (String × Connection)) (id : String)
    → count test (drop_key cs id) ≤ count test cs
unfolding count drop_key
count-drop_key test [] id = ground arith
count-drop_key test ((j, d) ∷ cs) id = ground (arith, count-drop_key test cs id)

-- A connection that is put in place of an equal one, as far as the test goes, changes no count.
count-replace :
    (test : Connection → Bool) (cs : List (String × Connection)) (id : String) (c d : Connection)
    → get cs id ≡ some c
    → test d ≡ test c
    → count test (put cs id d) ≡ count test cs
unfolding count get put
count-replace test [] id c d found same = ground (arith, found)
count-replace test ((j, e) ∷ cs) id c d found same = elim (Bool-cases (str_eq j id)) [
  | inl hit ↦
      let e_is_c = ap test (some-injective e c (ground (arith, found, hit))) in
      ground (arith, hit, same, e_is_c)
  | inr miss ↦ ground (arith, miss, count-replace test cs id c d (ground (arith, found, miss)) same)
]

pending-append :
    (v : View) (before after : List Request)
    → pending v (before ++ after) ≡ pending v before + pending v after
unfolding pending
pending-append v [] after = omega arith
pending-append v (r ∷ before) after = omega (arith, pending-append v before after)

length_append :
    (before after : List Request) → length (before ++ after) ≡ length before + length after
length_append [] after = omega arith
length_append (r ∷ before) after = omega (arith, length_append before after)

pending-one : (v : View) (r : Request) → pending v (r ∷ []) ≡ (if counts v (asked r) then 1 else 0)
unfolding pending
pending-one v r = omega arith

pending-le_length : (v : View) (rs : List Request) → pending v rs ≤ length rs
unfolding pending
pending-le_length v [] = omega arith
pending-le_length v (r ∷ rs) = ground (arith, pending-le_length v rs)

-- The manager lets a request in while every cap that counts it has room.
accepted-room :
    (limits : Limits) (m : Manager) (r : Request)
    → can_accept limits m r.fingerprint r.ip ≡ accepted
    → (v : View) → counts v (asked r) ≡ true
    → count (counts v) m.connections < cap limits v
unfolding can_accept
accepted-room limits m r ok all h = ground (arith, ok)
accepted-room limits m r ok (key f) h = ground (arith, ok, h, eq_iff r.fingerprint f)
accepted-room limits m r ok (address a) h = ground (arith, ok, h, eq_iff r.ip a)

admit-cases :
    (limits : Limits) (s : Route) (r : Request)
    → (can_accept limits s.manager r.fingerprint r.ip ≡ accepted)
        × ((admit limits s r).0 ≡ record s { admitted = s.admitted ++ r ∷ [] })
      ⊎ ((admit limits s r).0 ≡ s)
unfolding admit
admit-cases limits s r = cases (can_accept limits s.manager r.fingerprint r.ip) refl
  where
    cases :
        (d : Decision)
        → can_accept limits s.manager r.fingerprint r.ip ≡ d
        → (can_accept limits s.manager r.fingerprint r.ip ≡ accepted)
            × ((admit limits s r).0 ≡ record s { admitted = s.admitted ++ r ∷ [] })
          ⊎ ((admit limits s r).0 ≡ s)
    cases accepted e = inl (e, rw (admit, e) refl)
    cases denied_global e = inr (rw (admit, e) refl)
    cases denied_per_key e = inr (rw (admit, e) refl)
    cases denied_per_ip e = inr (rw (admit, e) refl)

admit-IsBounded :
    (limits : Limits) (k : ℕ) (s : Route) (r : Request)
    → length s.admitted < k
    → IsBounded limits k s
    → IsBounded limits k (admit limits s r).0
unfolding admit
admit-IsBounded limits k s r free h = elim (admit-cases limits s r) [
  | inr denied ↦ rw (denied) h
  | inl (ok, e) ↦ rw (e) record {
    few = omega (arith, free, length_append s.admitted (r ∷ []));
    room = λ v. elim (Bool-cases (counts v (asked r))) [
      | inl counted ↦ omega (
        arith,
        free,
        accepted-room limits s.manager r ok v counted,
        pending-le_length v (s.admitted ++ r ∷ []),
        length_append s.admitted (r ∷ []),
      )
      | inr other ↦ omega (
        arith,
        h.room v,
        pending-append v s.admitted (r ∷ []),
        pending-one v r ∙ ap (λ b. if b then 1 else 0) other,
      )
    ];
  }
]

-- A request that leaves the way.
pending-drop :
    (v : View) (before : List Request) (r : Request) (after : List Request)
    → pending v (before ++ r ∷ after)
      ≡ (if counts v (asked r) then 1 else 0) + pending v (before ++ after)
unfolding pending
pending-drop v [] r after = refl
pending-drop v (x ∷ before) r after = omega (arith, pending-drop v before r after)

length-drop :
    (before : List Request) (r : Request) (after : List Request)
    → length (before ++ r ∷ after) ≡ 1 + length (before ++ after)
length-drop [] r after = omega arith
length-drop (x ∷ before) r after = omega (arith, length-drop before r after)

counts-opened :
    (v : View) (now : ℕ) (r : Request)
    → counts v (opened now r.filters r.last r.fingerprint r.ip) ≡ counts v (asked r)
counts-opened all now r = refl
counts-opened (key f) now r = refl
counts-opened (address a) now r = refl

count-register :
    (v : View) (now : ℕ) (m : Manager) (id : String) (r : Request)
    → count (counts v) (register now m id r).0.connections
      ≤ (if counts v (asked r) then 1 else 0) + count (counts v) m.connections
unfolding register add_connection
count-register v now m id r =
    subst
      (λ b.
        count (counts v) (register now m id r).0.connections
        ≤ (if b then 1 else 0) + count (counts v) m.connections)
      (counts-opened v now r)
      (count-put (counts v) m.connections id (opened now r.filters r.last r.fingerprint r.ip))

-- What the manager does on its own lets no view grow.
abbrev IsNoMore : Manager → Manager → Type 0
IsNoMore n m = (v : View) → count (counts v) n.connections ≤ count (counts v) m.connections

close_connection-IsNoMore : (m : Manager) (id : String) → IsNoMore (close_connection m id) m
unfolding close_connection
close_connection-IsNoMore m id v = count-drop_key (counts v) m.connections id

counts-sent :
    (v : View) (c : Connection) (event_id : ℕ)
    → counts v (record c { last_event_id = event_id }) ≡ counts v c
counts-sent all c event_id = refl
counts-sent (key f) c event_id = refl
counts-sent (address a) c event_id = refl

sent-IsNoMore : (m : Manager) (id : String) (event_id : ℕ) → IsNoMore (sent m id event_id) m
unfolding sent
sent-IsNoMore m id event_id v = elim (Option-cases (get m.connections id)) [
  | inl missing ↦ rw (sent, missing) (omega arith)
  | inr (c, found) ↦
      let same =
        count-replace (counts v) m.connections id c (record c { last_event_id = event_id }) found
          (counts-sent v c event_id) in
      rw (sent, found) (omega (arith, same))
]

sweep_each-IsNoMore :
    (now : ℕ) (limits : Limits) (cs : List (String × Connection)) (m : Manager)
    → IsNoMore (sweep_each now limits cs m).0 m
unfolding sweep_each
sweep_each-IsNoMore now limits [] m v = omega arith
sweep_each-IsNoMore now limits ((id, c) ∷ cs) m v = elim (Bool-cases (too_old now limits c)) [
  | inl old ↦ rw (old) (
      omega (
        arith,
        sweep_each-IsNoMore now limits cs (close_connection m id) v,
        close_connection-IsNoMore m id v,
      ))
  | inr young ↦ rw (young) (sweep_each-IsNoMore now limits cs m v)
]

-- What the manager does, requests aside.
pub data Beat (limits : Limits) : Manager → Manager → Type 0 where
  closes : (m : Manager) (id : String) → Beat limits m (close_connection m id)
  broadcasts :
      (m : Manager) (now : ℕ) (event : Payload) → Beat limits m (broadcast now limits m event).0
  arrives : (m : Manager) (id : String) (event_id : ℕ) → Beat limits m (sent m id event_id)
  beats : (m : Manager) (now : ℕ) → Beat limits m (heartbeat_sweep now limits m).0
  stops : (m : Manager) → Beat limits m (shutdown m)

-- A check leaves at most k requests on their way; a request on its way is registered, or it fails.
pub data Step (limits : Limits) (k : ℕ) : Route → Route → Type 0 where
  checks : (s : Route) (r : Request) → length s.admitted < k → Step limits k s (admit limits s r).0
  registers :
      (m : Manager) (before : List Request) (r : Request) (after : List Request) (now : ℕ)
      (id : String)
      → Step limits k
          (record { manager = m; admitted = before ++ r ∷ after })
          (record { manager = (register now m id r).0; admitted = before ++ after })
  fails :
      (m : Manager) (before : List Request) (r : Request) (after : List Request)
      → Step limits k
          (record { manager = m; admitted = before ++ r ∷ after })
          (record { manager = m; admitted = before ++ after })
  acts :
      (m n : Manager) (rs : List Request)
      → Beat limits m n
      → Step limits k
          (record { manager = m; admitted = rs })
          (record { manager = n; admitted = rs })

pub data Reach (limits : Limits) (k : ℕ) : Route → Type 0 where
  start : Reach limits k (record { manager = new_manager; admitted = [] })
  next : {s t : Route} → Reach limits k s → Step limits k s t → Reach limits k t

Beat-IsNoMore : {limits : Limits} {m n : Manager} → Beat limits m n → IsNoMore n m
unfolding broadcast heartbeat_sweep shutdown count
Beat-IsNoMore (closes m id) = close_connection-IsNoMore m id
Beat-IsNoMore (broadcasts m now event) = λ v. omega arith
Beat-IsNoMore (arrives m id event_id) = sent-IsNoMore m id event_id
Beat-IsNoMore {limits} (beats m now) = sweep_each-IsNoMore now limits m.connections m
Beat-IsNoMore (stops m) = λ v. omega arith

Step-IsBounded :
    {limits : Limits} {k : ℕ} {s t : Route}
    → Step limits k s t
    → IsBounded limits k s
    → IsBounded limits k t
Step-IsBounded {limits} {k} (checks s r free) h = admit-IsBounded limits k s r free h
Step-IsBounded (registers m before r after now id) h = record {
  few = omega (arith, h.few, length-drop before r after);
  room = λ v. omega (arith, h.room v, pending-drop v before r after, count-register v now m id r);
}
Step-IsBounded (fails m before r after) h = record {
  few = omega (arith, h.few, length-drop before r after);
  room = λ v. omega (arith, h.room v, pending-drop v before r after);
}
Step-IsBounded (acts m n rs beat) h = record {
  few = h.few;
  room = λ v. omega (arith, h.room v, Beat-IsNoMore beat v);
}

Reach-IsBounded :
    {limits : Limits} {k : ℕ} {s : Route} → 0 < k → Reach limits k s → IsBounded limits k s
unfolding count pending
Reach-IsBounded some_way start = record { few = omega arith; room = λ v. omega (arith, some_way) }
Reach-IsBounded some_way (next r step) = Step-IsBounded step (Reach-IsBounded some_way r)

pub record IsWithin (limits : Limits) (k : ℕ) (m : Manager) : Type 0 where
  pub global : count anyone m.connections < limits.max_connections + k
  pub per_key :
      (fingerprint : String)
      → count (of_key fingerprint) m.connections < limits.max_connections_per_key + k
  pub per_ip : (ip : String) → count (of_ip ip) m.connections < limits.max_connections_per_ip + k

-- However requests are checked, registered and fail, with at most k of them at once between their
-- check and their registration, and whatever is closed, sent, broadcast, swept and shut down in
-- between, the number of connections is below the global cap plus k, that of every key below the cap
-- of a key plus k, and that of every address below the cap of an address plus k; with one request at a
-- time, the caps hold.
pub Reach-IsWithin :
    {limits : Limits} {k : ℕ} {s : Route} → 0 < k → Reach limits k s → IsWithin limits k s.manager
Reach-IsWithin some_way r =
    let h = Reach-IsBounded some_way r in
    record {
      global = omega (arith, h.room all);
      per_key = λ f. omega (arith, h.room (key f));
      per_ip = λ a. omega (arith, h.room (address a));
    }
