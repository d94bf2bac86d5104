-- ===== src/Auth/DeviceFlow/Changes.antt =====
-- The operations of the store keep its sessions sound.
use wood_fired_tasks.Prelude.{
  ℕ, ◌≡◌, refl, sym, ap, subst, ◌∙◌, inl, inr, Bool, false, none, some, List, [], ◌∷◌, String, ltb,
  arith, Bool-cases, Option-cases,
}
use wood_fired_tasks.Prelude.Dict.{get}
use wood_fired_tasks.Auth.DeviceFlow.{
  Status, pending, approved, denied, expired, Session, Store, find_by_user_code, approve_session,
  approve, deny_session, deny, remove_session, clean_one, clean_each, record_on_session,
  record_minted_token,
}
use wood_fired_tasks.Auth.DeviceFlow.Links.{
  FitsStatus, IsSound, IsLinked, save-IsLinked, drop_codes-IsLinked,
}

-- The session that a user code names stands under its own device code.
pub find_by_user_code-held :
    (store : Store) (uc : String) (s : Session)
    → IsLinked store
    → find_by_user_code store uc ≡ some s
    → get store.by_device_code s.device_code ≡ some s
unfolding find_by_user_code
find_by_user_code-held store uc s l h = elim (Option-cases (get store.by_user_code uc)) [
  | inl out ↦ absurd (ground (arith, h, out))
  | inr (dc, e) ↦
      let there : get store.by_device_code dc ≡ some s = sym (rw (find_by_user_code, e) refl) ∙ h in
      ap (get store.by_device_code) (l.indexed dc s there).0 ∙ there
]

pub data Cases (st : Status) : Type 0 where
  is_pending : st ≡ pending → Cases st
  is_approved : st ≡ approved → Cases st
  is_denied : st ≡ denied → Cases st
  is_expired : st ≡ expired → Cases st

pub Status-Cases : (st : Status) → Cases st
Status-Cases pending = is_pending refl
Status-Cases approved = is_approved refl
Status-Cases denied = is_denied refl
Status-Cases expired = is_expired refl

-- What the status of a session says, at a status that it is known to have.
fits_at :
    (s : Session) (st : Status)
    → IsSound s
    → s.status ≡ st
    → FitsStatus st s.approved_user_id s.minted_token_id s.minted_token
fits_at s st ok e =
    subst (λ x. FitsStatus x s.approved_user_id s.minted_token_id s.minted_token) e ok.fits

abbrev pub Held : Store → Session → Type 0
Held store s = get store.by_device_code s.device_code ≡ some s

pub approve_session-IsLinked :
    (s : Session) (user : ℕ) (store : Store)
    → IsLinked store
    → Held store s
    → IsLinked (approve_session s user store).0
unfolding approve_session
approve_session-IsLinked s user store l at =
    let ok = l.sound s.device_code s at in
    elim (Status-Cases s.status) [
      | is_pending e ↦
          rw (approve_session, e)
            (save-IsLinked store s (record s { status = approved; approved_user_id = some user }) l
              at refl (record { fits = refl; slow = ok.slow; quick = ok.quick }))
      | is_approved e ↦ rw (approve_session, e) l
      | is_denied e ↦ rw (approve_session, e) l
      | is_expired e ↦ rw (approve_session, e) l
    ]

pub deny_session-IsLinked :
    (s : Session) (store : Store)
    → IsLinked store
    → Held store s
    → IsLinked (deny_session s store).0
unfolding deny_session
deny_session-IsLinked s store l at =
    let ok = l.sound s.device_code s at in
    elim (Status-Cases s.status) [
      | is_pending e ↦
          rw (deny_session, e)
            (save-IsLinked store s (record s { status = denied }) l at refl
              (record { fits = fits_at s pending ok e; slow = ok.slow; quick = ok.quick }))
      | is_approved e ↦ rw (deny_session, e) l
      | is_denied e ↦ rw (deny_session, e) l
      | is_expired e ↦ rw (deny_session, e) l
    ]

pub record_on_session-IsLinked :
    (st : Status) (s : Session) (token_id : ℕ) (token : String) (store : Store)
    → IsLinked store
    → Held store s
    → s.status ≡ st
    → IsLinked (record_on_session st s token_id token store).0
unfolding record_on_session
record_on_session-IsLinked pending s token_id token store l at e = l
record_on_session-IsLinked denied s token_id token store l at e = l
record_on_session-IsLinked expired s token_id token store l at e = l
record_on_session-IsLinked approved s token_id token store l at e =
    let ok = l.sound s.device_code s at in
    save-IsLinked store s (record s { minted_token_id = some token_id; minted_token = some token })
      l at refl
      (record {
        fits =
            subst (λ x. FitsStatus x s.approved_user_id (some token_id) (some token)) (sym e)
              (fits_at s approved ok e);
        slow = ok.slow;
        quick = ok.quick;
      })

-- A change that is made to the session that a user code names.
pub by_user_code-IsLinked :
    (store : Store) (uc : String) (change : Session → Store → Store × Bool)
    → IsLinked store
    → ((s : Session) → Held store s → IsLinked (change s store).0)
    → IsLinked
        (elim (find_by_user_code store uc) as (λ o. Store × Bool) [
          | none ↦ (store, false)
          | some s ↦ change s store
        ]).0
by_user_code-IsLinked store uc change l keeps = elim (Option-cases (find_by_user_code store uc)) [
  | inl out ↦ rw (out) l
  | inr (s, e) ↦ rw (e) (keeps s (find_by_user_code-held store uc s l e))
]

pub approve-IsLinked :
    (store : Store) (uc : String) (user : ℕ) → IsLinked store → IsLinked (approve store uc user).0
unfolding approve
approve-IsLinked store uc user l =
    by_user_code-IsLinked store uc (λ s st. approve_session s user st) l
      (λ s at. approve_session-IsLinked s user store l at)

pub deny-IsLinked : (store : Store) (uc : String) → IsLinked store → IsLinked (deny store uc).0
unfolding deny
deny-IsLinked store uc l =
    by_user_code-IsLinked store uc deny_session l (λ s at. deny_session-IsLinked s store l at)

pub record_minted_token-IsLinked :
    (store : Store) (uc : String) (token_id : ℕ) (token : String)
    → IsLinked store
    → IsLinked (record_minted_token store uc token_id token).0
unfolding record_minted_token
record_minted_token-IsLinked store uc token_id token l =
    by_user_code-IsLinked store uc (λ s st. record_on_session s.status s token_id token st) l
      (λ s at. record_on_session-IsLinked s.status s token_id token store l at refl)

pub remove_session-IsLinked :
    (store : Store) (dc : String) → IsLinked store → IsLinked (remove_session store dc)
unfolding remove_session
remove_session-IsLinked store dc l = elim (Option-cases (get store.by_device_code dc)) [
  | inl out ↦ rw (remove_session, out) l
  | inr (s, e) ↦ rw (remove_session, e) (drop_codes-IsLinked store dc s l e)
]

pub clean_one-IsLinked :
    (now : ℕ) (store : Store) (dc : String) → IsLinked store → IsLinked (clean_one now store dc)
unfolding clean_one
clean_one-IsLinked now store dc l = elim (Option-cases (get store.by_device_code dc)) [
  | inl out ↦ rw (clean_one, out) l
  | inr (s, e) ↦ elim (Bool-cases (ltb s.expires_at now)) [
    | inl late ↦ rw (clean_one, e, late) (drop_codes-IsLinked store dc s l e)
    | inr early ↦ rw (clean_one, e, early) l
  ]
]

pub clean_each-IsLinked :
    (now : ℕ) (entries : List (String × Session)) (store : Store)
    → IsLinked store
    → IsLinked (clean_each now entries store)
unfolding clean_each
clean_each-IsLinked now [] store l = l
clean_each-IsLinked now ((dc, s) ∷ rest) store l =
    clean_each-IsLinked now rest (clean_one now store dc) (clean_one-IsLinked now store dc l)
