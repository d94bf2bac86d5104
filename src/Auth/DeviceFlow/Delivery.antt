-- ===== src/Auth/DeviceFlow/Delivery.antt =====
-- To whom a poll hands a token, and whose token it is.
use wood_fired_tasks.Prelude.{
  ℕ, ◌≤◌, ◌≡◌, refl, sym, ap, ◌∙◌, inl, inr, Bool, true, false, ◌||◌, Option, none, some, String,
  str_eq, eq_iff, ltb, if◌then◌else◌, arith, Bool-cases, Option-cases,
}
use wood_fired_tasks.Prelude.Dict.{get, get-put, get-drop_key}
use wood_fired_tasks.Auth.DeviceFlow.{
  Status, pending, approved, denied, expired, Session, Store, find_by_user_code, save,
  approve_session, approve, drop_codes, remove_session, record_on_session, record_minted_token,
}
use wood_fired_tasks.Auth.DeviceFlow.Routes.{
  delivered, signed_in, not_stashed, mint, verify, hand_over, by_status, polled, too_soon,
  poll_session, poll, is_over, device_code_grant,
}
use wood_fired_tasks.Auth.DeviceFlow.Links.{IsLinked}

-- What a session held when its token was handed over.
pub record IsReady (now : ℕ) (exists : ℕ → Bool) (s : Session) (token : String) (token_id user : ℕ)
    : Type 0 where
  pub in_time : now ≤ s.expires_at
  pub is : s.status ≡ approved
  pub by_user : s.approved_user_id ≡ some user
  pub known : exists user ≡ true
  pub with_token : s.minted_token ≡ some token
  pub with_id : s.minted_token_id ≡ some token_id

delivered-eq :
    (t token : String) (i token_id u user : ℕ)
    → delivered t i u ≡ delivered token token_id user
    → (t ≡ token) × (i ≡ token_id) × (u ≡ user)
delivered-eq t token i token_id u user h = (cc, cc, cc)

hand_over-eq :
    (exists : ℕ → Bool) (s : Session) (store : Store) (token : String) (token_id user : ℕ)
    → (hand_over exists s store).1 ≡ delivered token token_id user
    → ((hand_over exists s store).0 ≡ remove_session store s.device_code)
      × (s.approved_user_id ≡ some user)
      × (exists user ≡ true)
      × (s.minted_token ≡ some token)
      × (s.minted_token_id ≡ some token_id)
unfolding hand_over
hand_over-eq exists s store token token_id user h = elim (Option-cases s.minted_token) [
  | inl a ↦ absurd (ground (arith, h, a))
  | inr (t, a) ↦ elim (Option-cases s.minted_token_id) [
    | inl b ↦ absurd (ground (arith, h, a, b))
    | inr (i, b) ↦ elim (Option-cases s.approved_user_id) [
      | inl c ↦ absurd (ground (arith, h, a, b, c))
      | inr (u, c) ↦ elim (Bool-cases (exists u)) [
        | inr gone ↦ absurd (ground (arith, h, a, b, c, gone))
        | inl there ↦
            let (same_token, same_id, same_user) =
              delivered-eq t token i token_id u user
                (sym (rw (hand_over, a, b, c, there) refl) ∙ h) in
            (
              rw (hand_over, a, b, c) refl,
              c ∙ ap some same_user,
              sym (ap exists same_user) ∙ there,
              a ∙ ap some same_token,
              b ∙ ap some same_id,
            )
      ]
    ]
  ]
]

by_status-eq :
    (st : Status) (exists : ℕ → Bool) (s : Session) (store : Store) (token : String)
    (token_id user : ℕ)
    → (by_status st exists s store).1 ≡ delivered token token_id user
    → (st ≡ approved)
      × ((hand_over exists s store).1 ≡ delivered token token_id user)
      × ((by_status st exists s store).0 ≡ (hand_over exists s store).0)
unfolding by_status
by_status-eq pending exists s store token token_id user h = absurd (ground (arith, h))
by_status-eq denied exists s store token token_id user h = absurd (ground (arith, h))
by_status-eq expired exists s store token token_id user h = absurd (ground (arith, h))
by_status-eq approved exists s store token token_id user h = (refl, h, refl)

remove_session-gone :
    (store : Store) (dc : String) → get (remove_session store dc).by_device_code dc ≡ none
unfolding remove_session drop_codes
remove_session-gone store dc = elim (Option-cases (get store.by_device_code dc)) [
  | inl out ↦ rw (remove_session, out) out
  | inr (s, e) ↦
      rw (remove_session, e)
        (get-drop_key store.by_device_code dc dc ∙ rw ((eq_iff dc dc).1 refl) refl)
]

-- What a poll answers when it hands a token over.
pub record IsHandover (now : ℕ) (exists : ℕ → Bool) (s : Session) (after : Store) (token : String)
    (token_id user : ℕ) : Type 0 where
  pub ready : IsReady now exists s token token_id user
  pub gone : get after.by_device_code s.device_code ≡ none

poll_session-IsHandover :
    (now : ℕ) (exists : ℕ → Bool) (s : Session) (store : Store) (token : String) (token_id user : ℕ)
    → (poll_session now exists s store).1 ≡ delivered token token_id user
    → IsHandover now exists s (poll_session now exists s store).0 token token_id user
unfolding poll_session
poll_session-IsHandover now exists s store token token_id user h =
    elim (Bool-cases (ltb s.expires_at now)) [
      | inl late ↦ absurd (ground (arith, h, late))
      | inr early ↦ elim (Bool-cases (too_soon now s)) [
        | inl soon ↦ absurd (ground (arith, h, early, soon))
        | inr paced ↦
            let answer : (by_status s.status exists (polled now s) (save store (polled now s))).1
                ≡ delivered token token_id user =
              sym (rw (poll_session, early, paced) refl) ∙ h in
            let (is, handed, same) =
              by_status-eq s.status exists (polled now s) (save store (polled now s)) token token_id
                user answer in
            let (removed, user_is, known, token_is, id_is) =
              hand_over-eq exists (polled now s) (save store (polled now s)) token token_id user
                handed in
            record {
              ready = record {
                in_time = ground (arith, early);
                is = is;
                by_user = user_is;
                known = known;
                with_token = token_is;
                with_id = id_is;
              };
              gone =
                  rw (poll_session, early, paced, same, removed)
                    (remove_session-gone (save store (polled now s)) s.device_code);
            }
      ]
    ]

-- A poll hands a token over only for the session under its device code, while it is in time, approved
-- by the user who is named, who still exists, and with the token that is handed over; afterwards
-- there is no session under the code.
pub poll-IsHandover :
    (now : ℕ) (expected : String) (exists : ℕ → Bool) (grant client dc : String) (store : Store)
    (token : String) (token_id user : ℕ)
    → IsLinked store
    → (poll now expected exists grant client dc store).1 ≡ delivered token token_id user
    → (s : Session) × (get store.by_device_code dc ≡ some s)
      × IsReady now exists s token token_id user
      × (get (poll now expected exists grant client dc store).0.by_device_code dc ≡ none)
unfolding poll
poll-IsHandover now expected exists grant client dc store token token_id user l h =
    elim (Bool-cases (str_eq grant device_code_grant)) [
      | inr g ↦ absurd (ground (arith, h, g))
      | inl g ↦ elim (Bool-cases (str_eq client expected)) [
        | inr c ↦ absurd (ground (arith, h, g, c))
        | inl c ↦ elim (Option-cases (get store.by_device_code dc)) [
          | inl out ↦ absurd (ground (arith, h, g, c, out))
          | inr (s, e) ↦
              let a =
                poll_session-IsHandover now exists s store token token_id user
                  (sym (rw (poll, g, c, e) refl) ∙ h) in
              (
                s,
                e,
                a.ready,
                rw (poll, g, c, e)
                    (ap (get (poll_session now exists s store).0.by_device_code)
                        (sym (l.indexed dc s e).0)
                      ∙ a.gone),
              )
        ]
      ]
    ]

-- What is saved under its own device code is found by its user code.
find-save :
    (store : Store) (uc : String) (s new : Session)
    → IsLinked store
    → find_by_user_code store uc ≡ some s
    → new.device_code ≡ s.device_code
    → find_by_user_code (save store new) uc ≡ some new
unfolding find_by_user_code save
find-save store uc s new l found same = elim (Option-cases (get store.by_user_code uc)) [
  | inl out ↦ absurd (ground (arith, found, out))
  | inr (dc, e) ↦
      let there : get store.by_device_code dc ≡ some s =
        sym (rw (find_by_user_code, e) refl) ∙ found in
      rw (find_by_user_code, e)
        (get-put store.by_device_code new.device_code dc new
          ∙ rw ((eq_iff new.device_code dc).1 (same ∙ (l.indexed dc s there).0)) refl)
]

approve-kept :
    (store : Store) (uc : String) (user : ℕ) (s : Session)
    → find_by_user_code store uc ≡ some s
    → s.status ≡ approved
    → (approve store uc user).0 ≡ store
unfolding approve approve_session
approve-kept store uc user s found is = rw (approve, found, approve_session, is) refl

verify_again :
    (now : ℕ) (uc : String) (user : ℕ) (minted : Option (ℕ × String)) (store : Store) (s : Session)
    → find_by_user_code store uc ≡ some s
    → s.status ≡ approved
    → now ≤ s.expires_at
    → verify now uc user minted store ≡ mint minted uc store
unfolding verify
verify_again now uc user minted store s found is in_time =
    let calm : (ltb s.expires_at now || is_over s.status) ≡ false = ground (arith, in_time, is) in
    rw
      (
        verify,
        found,
        calm,
        approve-kept store uc user s found is,
        found,
        approve-kept store uc user s found is,
      )
      refl

mint-stashes :
    (token_id : ℕ) (token uc : String) (store : Store) (s : Session)
    → find_by_user_code store uc ≡ some s
    → s.status ≡ approved
    → mint (some (token_id, token)) uc store ≡ (
      save store (record s { minted_token_id = some token_id; minted_token = some token }),
      signed_in,
    )
unfolding mint record_minted_token record_on_session
mint-stashes token_id token uc store s found is =
    let new : Session = record s { minted_token_id = some token_id; minted_token = some token } in
    let stashed : record_minted_token store uc token_id token ≡ (save store new, true) =
      rw (record_minted_token, found) (ap (λ st. record_on_session st s token_id token store) is) in
    ap (λ (r : Store × Bool). (r.0, if r.1 then signed_in else not_stashed token_id)) stashed

-- A code that one user has approved can be sent in by another one, in time: the session keeps its
-- user, but has the token that was minted for the other one.
pub verify-overwrites :
    (now : ℕ) (uc : String) (user token_id : ℕ) (token : String) (store : Store) (s : Session)
    → IsLinked store
    → find_by_user_code store uc ≡ some s
    → s.status ≡ approved
    → now ≤ s.expires_at
    → ((verify now uc user (some (token_id, token)) store).1 ≡ signed_in)
      × (find_by_user_code (verify now uc user (some (token_id, token)) store).0 uc
          ≡ some (record s { minted_token_id = some token_id; minted_token = some token }))
verify-overwrites now uc user token_id token store s l found is in_time =
    let after =
      verify_again now uc user (some (token_id, token)) store s found is in_time
      ∙ mint-stashes token_id token uc store s found is in
    let new : Session = record s { minted_token_id = some token_id; minted_token = some token } in
    (
      ap (λ r. r.1) after,
      ap (λ r. find_by_user_code r.0 uc) after ∙ find-save store uc s new l found refl,
    )
