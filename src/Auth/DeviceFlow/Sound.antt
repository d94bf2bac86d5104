-- ===== src/Auth/DeviceFlow/Sound.antt =====
-- What holds of the sessions after any sequence of calls.
use wood_fired_tasks.Prelude.{
  ℕ, ◌≡◌, refl, ap, ◌∙◌, inl, inr, ◌⊎◌, Bool, ◌||◌, Option, none, some, String, str_eq, ltb, arith,
  Bool-cases, Option-cases,
}
use wood_fired_tasks.Prelude.Dict.{get}
use wood_fired_tasks.Prelude.Text.{Text}
use wood_fired_tasks.Auth.DeviceFlow.{
  Status, pending, approved, denied, expired, Session, Store, no_sessions, create_session,
  find_by_user_code, save, approve, deny, remove_session, clean_up,
}
use wood_fired_tasks.Auth.DeviceFlow.Routes.{
  mint, verify, hand_over, by_status, slowed, polled, too_soon, poll_session, poll, is_over,
  device_code_grant,
}
use wood_fired_tasks.Auth.DeviceFlow.Links.{IsLinked, save-IsLinked, create_session-IsLinked}
use wood_fired_tasks.Auth.DeviceFlow.Changes.{
  Held, approve-IsLinked, deny-IsLinked, record_minted_token-IsLinked, remove_session-IsLinked,
  clean_each-IsLinked,
}

mint-IsLinked :
    (minted : Option (ℕ × String)) (uc : String) (store : Store)
    → IsLinked store
    → IsLinked (mint minted uc store).0
unfolding mint
mint-IsLinked none uc store l = l
mint-IsLinked (some (token_id, token)) uc store l =
    record_minted_token-IsLinked store uc token_id token l

verify-IsLinked :
    (now : ℕ) (uc : String) (user : ℕ) (minted : Option (ℕ × String)) (store : Store)
    → IsLinked store
    → IsLinked (verify now uc user minted store).0
unfolding verify
verify-IsLinked now uc user minted store l = elim (Option-cases (find_by_user_code store uc)) [
  | inl out ↦ rw (verify, out) l
  | inr (s, e) ↦ elim (Bool-cases (ltb s.expires_at now || is_over s.status)) [
    | inl over ↦ rw (verify, e, over) l
    | inr still ↦ elim (Option-cases (find_by_user_code (approve store uc user).0 uc)) [
      | inl gone ↦ rw (verify, e, still, gone) (approve-IsLinked store uc user l)
      | inr (again, f) ↦
          rw (verify, e, still, f)
            (mint-IsLinked minted uc (approve store uc user).0 (approve-IsLinked store uc user l))
    ]
  ]
]

-- A poll only changes the pace of the session, and may then remove it.
hand_over-store :
    (exists : ℕ → Bool) (s : Session) (store : Store)
    → ((hand_over exists s store).0 ≡ store)
      ⊎ ((hand_over exists s store).0 ≡ remove_session store s.device_code)
unfolding hand_over
hand_over-store exists s store = elim (Option-cases s.minted_token) [
  | inl a ↦ inl (rw (hand_over, a) refl)
  | inr (token, a) ↦ elim (Option-cases s.minted_token_id) [
    | inl b ↦ inl (rw (hand_over, a, b) refl)
    | inr (token_id, b) ↦ elim (Option-cases s.approved_user_id) [
      | inl c ↦ inl (rw (hand_over, a, b, c) refl)
      | inr (user, c) ↦ inr (rw (hand_over, a, b, c) refl)
    ]
  ]
]

by_status-IsLinked :
    (st : Status) (exists : ℕ → Bool) (s : Session) (store : Store)
    → IsLinked store
    → IsLinked (by_status st exists s store).0
unfolding by_status
by_status-IsLinked pending exists s store l = l
by_status-IsLinked denied exists s store l = l
by_status-IsLinked expired exists s store l = l
by_status-IsLinked approved exists s store l = elim (hand_over-store exists s store) [
  | inl same ↦ rw (same) l
  | inr gone ↦ rw (gone) (remove_session-IsLinked store s.device_code l)
]

poll_session-IsLinked :
    (now : ℕ) (exists : ℕ → Bool) (s : Session) (store : Store)
    → IsLinked store
    → Held store s
    → IsLinked (poll_session now exists s store).0
unfolding poll_session
poll_session-IsLinked now exists s store l at =
    let ok = l.sound s.device_code s at in
    elim (Bool-cases (ltb s.expires_at now)) [
      | inl late ↦ rw (poll_session, late) l
      | inr early ↦ elim (Bool-cases (too_soon now s)) [
        | inl soon ↦
            rw (poll_session, early, soon)
              (save-IsLinked store s (slowed now s) l at refl
                (record { fits = ok.fits; slow = omega (arith, ok.slow); quick = omega arith }))
        | inr paced ↦
            rw (poll_session, early, paced)
              (by_status-IsLinked s.status exists (polled now s) (save store (polled now s)) (
                save-IsLinked store s (polled now s) l at refl
                  (record { fits = ok.fits; slow = ok.slow; quick = ok.quick })))
      ]
    ]

poll-IsLinked :
    (now : ℕ) (expected : String) (exists : ℕ → Bool) (grant client dc : String) (store : Store)
    → IsLinked store
    → IsLinked (poll now expected exists grant client dc store).0
unfolding poll
poll-IsLinked now expected exists grant client dc store l =
    elim (Bool-cases (str_eq grant device_code_grant)) [
      | inr g ↦ rw (poll, g) l
      | inl g ↦ elim (Bool-cases (str_eq client expected)) [
        | inr c ↦ rw (poll, g, c) l
        | inl c ↦ elim (Option-cases (get store.by_device_code dc)) [
          | inl out ↦ rw (poll, g, c, out) l
          | inr (s, e) ↦
              rw (poll, g, c, e)
                (poll_session-IsLinked now exists s store l
                  (ap (get store.by_device_code) (l.indexed dc s e).0 ∙ e))
        ]
      ]
    ]

-- What can happen to the store; a device code that is drawn is not in use.
pub data Step : Store → Store → Type 0 where
  creates :
      (store : Store) (now : ℕ) (code : String) (draw : ℕ → String) (client : String)
      (host : Option Text) (made : Session) (after : Store)
      → get store.by_device_code code ≡ none
      → create_session now code draw client host store ≡ some (made, after)
      → Step store after
  verifies :
      (store : Store) (now : ℕ) (uc : String) (user : ℕ) (minted : Option (ℕ × String))
      → Step store (verify now uc user minted store).0
  denies : (store : Store) (uc : String) → Step store (deny store uc).0
  polls :
      (store : Store) (now : ℕ) (expected : String) (exists : ℕ → Bool) (grant client dc : String)
      → Step store (poll now expected exists grant client dc store).0
  cleans : (store : Store) (now : ℕ) → Step store (clean_up now store)

pub data Reach : Store → Type 0 where
  start : Reach no_sessions
  next : {s t : Store} → Reach s → Step s t → Reach t

Step-IsLinked : {s t : Store} → Step s t → IsLinked s → IsLinked t
Step-IsLinked (creates store now code draw client host made after unused h) l =
    create_session-IsLinked now code draw client host store made after l unused h
Step-IsLinked (verifies store now uc user minted) l = verify-IsLinked now uc user minted store l
Step-IsLinked (denies store uc) l = deny-IsLinked store uc l
Step-IsLinked (polls store now expected exists grant client dc) l =
    poll-IsLinked now expected exists grant client dc store l
Step-IsLinked (cleans store now) l = clean_each-IsLinked now store.by_device_code store l

-- After any sequence of calls, the two Maps name the same sessions; a session has a user exactly if it
-- is approved, and a token only then; its pace is between 5 and 60 seconds.
pub Reach-IsLinked : {s : Store} → Reach s → IsLinked s
unfolding get
Reach-IsLinked start = record {
  indexed = λ dc s h. absurd (ground (arith, h));
  found = λ uc dc h. absurd (ground (arith, h));
  sound = λ dc s h. absurd (ground (arith, h));
}
Reach-IsLinked (next r step) = Step-IsLinked step (Reach-IsLinked r)
