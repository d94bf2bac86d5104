-- ===== src/Auth/DeviceFlow/Routes.antt =====
-- The routes of the device flow: verify in src/api/routes/auth/device-html.ts, after its gates of form,
-- and poll in src/api/routes/auth/device-token.ts.
use wood_fired_tasks.Prelude.{
  ℕ, ◌+◌, ◌-◌, ◌*◌, min, Bool, true, false, not, ◌&&◌, ◌||◌, Option, none, some, String, str_eq,
  ltb, if◌then◌else◌,
}
use wood_fired_tasks.Auth.DeviceFlow.{
  Status, pending, approved, denied, expired, Session, Store, find_by_device_code,
  find_by_user_code, save, approve, record_minted_token, remove_session,
}

-- What the page says; the id is that of a token that is revoked.
pub data Page : Type 0 where
  code_expired signed_in mint_failed vanished : Page
  not_stashed : ℕ → Page

abbrev pub is_over : Status → Bool
is_over pending = false
is_over approved = false
is_over denied = true
is_over expired = true

-- The minting of a token for the user: an id and the token, or an error of the database.
unfoldable pub mint : Option (ℕ × String) → String → Store → Store × Page
mint none user_code store = (store, mint_failed)
mint (some (token_id, token)) user_code store =
    let (store', stashed) = record_minted_token store user_code token_id token in
    (store', if stashed then signed_in else not_stashed token_id)

-- The answer of `approve` is not looked at.
unfoldable pub verify : ℕ → String → ℕ → Option (ℕ × String) → Store → Store × Page
verify now user_code user_id minted store = elim (find_by_user_code store user_code) [
  | none ↦ (store, code_expired)
  | some session ↦
      if ltb session.expires_at now || is_over session.status
      then (store, code_expired)
      else let store' = (approve store user_code user_id).0 in
        elim (find_by_user_code store' user_code) [
          | none ↦ (store', vanished)
          | some again ↦ mint minted user_code store'
        ]
]

-- The answer to a poll; an expired token may come with the id of one that is revoked.
pub data Answer : Type 0 where
  unsupported_grant_type invalid_client slow_down authorization_pending access_denied : Answer
  expired_token : Option ℕ → Answer
  delivered : String → ℕ → ℕ → Answer

abbrev pub device_code_grant : String
device_code_grant = "urn:ietf:params:oauth:grant-type:device_code"

-- A token for a user, or what is missing.
unfoldable pub hand_over : (ℕ → Bool) → Session → Store → Store × Answer
hand_over user_exists session store = elim session.minted_token [
  | none ↦ (store, authorization_pending)
  | some token ↦ elim session.minted_token_id [
    | none ↦ (store, authorization_pending)
    | some token_id ↦ elim session.approved_user_id [
      | none ↦ (store, authorization_pending)
      | some user_id ↦ (
        remove_session store session.device_code,
        if user_exists user_id
            then delivered token token_id user_id
            else expired_token (some token_id),
      )
    ]
  ]
]

-- The `switch` on the status.
unfoldable pub by_status : Status → (ℕ → Bool) → Session → Store → Store × Answer
by_status pending user_exists session store = (store, authorization_pending)
by_status approved user_exists session store = hand_over user_exists session store
by_status denied user_exists session store = (store, access_denied)
by_status expired user_exists session store = (store, expired_token none)

abbrev pub too_soon : ℕ → Session → Bool
too_soon now session =
    ltb 0 session.last_poll_at && ltb (now - session.last_poll_at) ((session.interval - 1) * 1000)

abbrev pub slowed : ℕ → Session → Session
slowed now session = record session { interval = min (session.interval + 5) 60; last_poll_at = now }

abbrev pub polled : ℕ → Session → Session
polled now session = record session { last_poll_at = now }

-- The poll of a session that is found.
unfoldable pub poll_session : ℕ → (ℕ → Bool) → Session → Store → Store × Answer
poll_session now user_exists session store =
    if ltb session.expires_at now
    then (store, expired_token none)
    else if too_soon now session
    then (save store (slowed now session), slow_down)
    else by_status session.status user_exists (polled now session) (save store (polled now session))

unfoldable pub poll : ℕ → String → (ℕ → Bool) → String → String → String → Store → Store × Answer
poll now expected_client user_exists grant_type client_id device_code store =
    if not (str_eq grant_type device_code_grant)
    then (store, unsupported_grant_type)
    else if not (str_eq client_id expected_client)
    then (store, invalid_client)
    else elim (find_by_device_code store device_code) [
      | none ↦ (store, expired_token none)
      | some session ↦ poll_session now user_exists session store
    ]
