-- ===== src/Auth/DeviceFlow.antt =====
-- src/services/device-flow-store.ts: the sessions of RFC 8628, by their device codes and by their user
-- codes, and the two routes that move them, src/api/routes/auth/device-html.ts (verify, from the
-- lookup on) and device-token.ts (poll). A session is found and changed in the Map of device codes,
-- as the source changes the shared object. The codes that are drawn, the tokens that are minted and
-- the users that exist come from outside. A time is a number of milliseconds.
pub mod Links
pub mod Changes
pub mod Sound
pub mod Delivery
mod Examples
pub mod Routes
use wood_fired_tasks.Prelude.{
  ℕ, zero, suc, ◌+◌, ◌-◌, ◌*◌, min, Bool, true, false, not, ◌&&◌, ◌||◌, Option, none, some, List,
  [], ◌∷◌, String, str_eq, ltb, leb, ◌==◌, if◌then◌else◌,
}
use wood_fired_tasks.Prelude.Dict.{get, put, drop_key}
use wood_fired_tasks.Prelude.Text.{Text}
use wood_fired_tasks.Auth.Hostname.{sanitize_hostname}

pub data Status : Type 0 where
  pending approved denied expired : Status

pub record Session : Type 0 where
  pub device_code : String
  pub user_code : String
  pub hostname : Text
  pub client_id : String
  pub created_at : ℕ
  pub expires_at : ℕ
  pub interval : ℕ
  pub last_poll_at : ℕ
  pub status : Status
  pub approved_user_id : Option ℕ
  pub minted_token_id : Option ℕ
  pub minted_token : Option String

pub record Store : Type 0 where
  pub by_device_code : List (String × Session)
  pub by_user_code : List (String × String)

abbrev pub no_sessions : Store
no_sessions = record { by_device_code = []; by_user_code = [] }

abbrev pub session_ttl_ms : ℕ
session_ttl_ms = 600000

abbrev pub is_some {ℓ} : {A : Type ℓ} → Option A → Bool
is_some none = false
is_some (some a) = true

-- The loop over user codes, of which the i-th that is drawn is `draw i`; `none` is the error after too
-- many collisions.
unfoldable pub pick_user_code : ℕ → (ℕ → String) → ℕ → List (String × String) → Option String
pick_user_code zero draw i by_user_code = none
pick_user_code (suc tries) draw i by_user_code =
    let rest = pick_user_code tries draw (suc i) by_user_code in
    if is_some (get by_user_code (draw i)) then rest else some (draw i)

abbrev pub new_session : ℕ → String → String → String → Option Text → Session
new_session now device_code user_code client_id hostname = record {
  device_code = device_code;
  user_code = user_code;
  hostname = sanitize_hostname hostname;
  client_id = client_id;
  created_at = now;
  expires_at = now + session_ttl_ms;
  interval = 5;
  last_poll_at = 0;
  status = pending;
  approved_user_id = none;
  minted_token_id = none;
  minted_token = none;
}

-- `createSession`: 33 user codes are tried.
unfoldable pub create_session :
    ℕ → String → (ℕ → String) → String → Option Text → Store → Option (Session × Store)
create_session now device_code draw client_id hostname store =
    elim (pick_user_code 33 draw 0 store.by_user_code) [
      | none ↦ none
      | some user_code ↦ some (
        new_session now device_code user_code client_id hostname,
        record {
          by_device_code =
              put store.by_device_code device_code
                (new_session now device_code user_code client_id hostname);
          by_user_code = put store.by_user_code user_code device_code;
        },
      )
    ]

abbrev pub find_by_device_code : Store → String → Option Session
find_by_device_code store code = get store.by_device_code code

unfoldable pub find_by_user_code : Store → String → Option Session
find_by_user_code store code = elim (get store.by_user_code code) [
  | none ↦ none
  | some device_code ↦ get store.by_device_code device_code
]

-- A write to the fields of a session.
unfoldable pub save : Store → Session → Store
save store session = record store {
  by_device_code = put store.by_device_code session.device_code session;
}

abbrev is_user : Option ℕ → ℕ → Bool
is_user none user_id = false
is_user (some u) user_id = u == user_id

unfoldable pub approve_session : Session → ℕ → Store → Store × Bool
approve_session session user_id store = elim session.status [
  | pending ↦
      (save store (record session { status = approved; approved_user_id = some user_id }), true)
  | approved ↦ (store, is_user session.approved_user_id user_id)
  | denied ↦ (store, false)
  | expired ↦ (store, false)
]

unfoldable pub approve : Store → String → ℕ → Store × Bool
approve store user_code user_id = elim (find_by_user_code store user_code) [
  | none ↦ (store, false)
  | some session ↦ approve_session session user_id store
]

unfoldable pub deny_session : Session → Store → Store × Bool
deny_session session store = elim session.status [
  | pending ↦ (save store (record session { status = denied }), true)
  | approved ↦ (store, false)
  | denied ↦ (store, false)
  | expired ↦ (store, false)
]

unfoldable pub deny : Store → String → Store × Bool
deny store user_code = elim (find_by_user_code store user_code) [
  | none ↦ (store, false)
  | some session ↦ deny_session session store
]

unfoldable pub drop_codes : String → Session → Store → Store
drop_codes device_code session store = record {
  by_device_code = drop_key store.by_device_code device_code;
  by_user_code = drop_key store.by_user_code session.user_code;
}

unfoldable pub remove_session : Store → String → Store
remove_session store device_code = elim (get store.by_device_code device_code) [
  | none ↦ store
  | some session ↦ drop_codes device_code session store
]

unfoldable pub clean_one : ℕ → Store → String → Store
clean_one now store device_code = elim (get store.by_device_code device_code) [
  | none ↦ store
  | some session ↦
      if ltb session.expires_at now then drop_codes device_code session store else store
]

-- A tick of the cleanup, over the keys of the Map; each session is read when the loop comes to it.
unfoldable pub clean_each : ℕ → List (String × Session) → Store → Store
clean_each now [] store = store
clean_each now ((device_code, s) ∷ rest) store =
    clean_each now rest (clean_one now store device_code)

abbrev pub clean_up : ℕ → Store → Store
clean_up now store = clean_each now store.by_device_code store

unfoldable pub record_on_session : Status → Session → ℕ → String → Store → Store × Bool
record_on_session approved session token_id token store = (
  save store (record session { minted_token_id = some token_id; minted_token = some token }),
  true,
)
record_on_session pending session token_id token store = (store, false)
record_on_session denied session token_id token store = (store, false)
record_on_session expired session token_id token store = (store, false)

unfoldable pub record_minted_token : Store → String → ℕ → String → Store × Bool
record_minted_token store user_code token_id token = elim (find_by_user_code store user_code) [
  | none ↦ (store, false)
  | some session ↦ record_on_session session.status session token_id token store
]
