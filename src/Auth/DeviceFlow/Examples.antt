-- ===== src/Auth/DeviceFlow/Examples.antt =====
-- A sign-in from the first code to the token, and a code that two users send in.
use wood_fired_tasks.Prelude.{ℕ, ◌≡◌, refl, Bool, true, none, some, [], ◌∷◌, String, arith}
use wood_fired_tasks.Prelude.Dict.{get, put, drop_key}
use wood_fired_tasks.Prelude.Text.{codes, lower, trim}
use wood_fired_tasks.Auth.Hostname.{
  sanitize_hostname, sanitize_trimmed, cut, strip_end, strip_start, collapse, replace_runs,
}
use wood_fired_tasks.Auth.Hostname.Names.{IsName, sanitize_hostname-IsName}
use wood_fired_tasks.Auth.DeviceFlow.{
  approved, Session, Store, no_sessions, pick_user_code, new_session, create_session,
  find_by_user_code, save, approve_session, approve, record_on_session, record_minted_token,
  drop_codes, remove_session,
}
use wood_fired_tasks.Auth.DeviceFlow.Links.{IsLinked}
use wood_fired_tasks.Auth.DeviceFlow.Routes.{
  signed_in, delivered, mint, verify, hand_over, by_status, poll_session, poll, device_code_grant,
  authorization_pending,
}
use wood_fired_tasks.Auth.DeviceFlow.Sound.{Reach, start, next, creates, verifies, Reach-IsLinked}
use wood_fired_tasks.Auth.DeviceFlow.Delivery.{IsReady, poll-IsHandover, verify-overwrites}

-- Spaces and an underscore.
sanitized : sanitize_hostname (some (codes "  My_ -Laptop! ")) ≡ codes "my-laptop"
unfolding sanitize_hostname sanitize_trimmed cut strip_end strip_start collapse replace_runs lower
    trim
sanitized = refl

sanitize_hostname-IsName_example : IsName (sanitize_hostname (some (codes "My_Laptop")))
sanitize_hostname-IsName_example = sanitize_hostname-IsName (some (codes "My_Laptop"))

abbrev draw : ℕ → String
draw n = "ABCD2345"

abbrev session : Session
session = new_session 1000 "device" "ABCD2345" "cli" none

abbrev with_session : Store
with_session = record {
  by_device_code = ("device", session) ∷ [];
  by_user_code = ("ABCD2345", "device") ∷ [];
}

runs : Unit {0}
unfolding create_session pick_user_code get put drop_key verify approve approve_session
    find_by_user_code save mint record_minted_token record_on_session poll poll_session by_status
    hand_over remove_session drop_codes
runs = tt

created : create_session 1000 "device" draw "cli" none no_sessions ≡ some (session, with_session)
unfolding runs
created = refl

abbrev signed : Store
signed = (verify 2000 "ABCD2345" 7 (some (1, "wft_pat_7")) with_session).0

created_reached : Reach with_session
unfolding runs
created_reached =
    next start (creates no_sessions 1000 "device" draw "cli" none session with_session refl refl)

signed_reached : Reach signed
signed_reached =
    next created_reached (verifies with_session 2000 "ABCD2345" 7 (some (1, "wft_pat_7")))

Reach-IsLinked_example : IsLinked signed
Reach-IsLinked_example = Reach-IsLinked signed_reached

abbrev anyone : ℕ → Bool
anyone n = true

abbrev issued : Session
issued = record session {
  status = approved;
  approved_user_id = some 7;
  minted_token_id = some 1;
  minted_token = some "wft_pat_7";
}

signed_found : find_by_user_code signed "ABCD2345" ≡ some issued
unfolding runs
signed_found = refl

too_early :
    (poll 1500 "cli" anyone device_code_grant "cli" "device" with_session).1 ≡ authorization_pending
unfolding runs
too_early = refl

handed :
    (poll 3000 "cli" anyone device_code_grant "cli" "device" signed).1 ≡ delivered "wft_pat_7" 1 7
unfolding runs
handed = refl

poll-IsHandover_example :
    (s : Session) × (get signed.by_device_code "device" ≡ some s)
    × IsReady 3000 anyone s "wft_pat_7" 1 7
    × (get
          (poll 3000 "cli" anyone device_code_grant "cli" "device" signed).0.by_device_code
          "device"
        ≡ none)
poll-IsHandover_example =
    poll-IsHandover 3000 "cli" anyone device_code_grant "cli" "device" signed "wft_pat_7" 1 7
      (Reach-IsLinked signed_reached) handed

-- User 8 sends the code in that user 7 has approved.
verify-overwrites_example :
    ((verify 2500 "ABCD2345" 8 (some (2, "wft_pat_8")) signed).1 ≡ signed_in)
    × (find_by_user_code (verify 2500 "ABCD2345" 8 (some (2, "wft_pat_8")) signed).0 "ABCD2345"
        ≡ some (record issued { minted_token_id = some 2; minted_token = some "wft_pat_8" }))
verify-overwrites_example =
    verify-overwrites 2500 "ABCD2345" 8 2 "wft_pat_8" signed issued (Reach-IsLinked signed_reached)
      signed_found refl (omega arith)

-- The device gets the token of user 8, in the name of user 7.
mixed_up :
    (poll 3000 "cli" anyone device_code_grant "cli" "device"
      (verify 2500 "ABCD2345" 8 (some (2, "wft_pat_8")) signed).0).1
    ≡ delivered "wft_pat_8" 2 7
unfolding runs
mixed_up = refl
