-- ===== src/Auth/DeviceFlow/Links.antt =====
-- The two Maps of sessions name the same sessions: what a write, a removal and a new session keep.
use wood_fired_tasks.Prelude.{
  ℕ, zero, suc, ◌≤◌, ◌≡◌, refl, sym, ap, subst, ◌∙◌, inl, inr, ◌⊎◌, true, false, Option, none, some,
  List, String, str_eq, eq_iff, arith, Bool-cases, Option-cases,
}
use mathlib.Core.Option.{some-injective}
use wood_fired_tasks.Prelude.Dict.{get, put, drop_key, get-put, get-drop_key}
use wood_fired_tasks.Prelude.Text.{Text}
use wood_fired_tasks.Auth.DeviceFlow.{
  Status, approved, Session, Store, is_some, pick_user_code, new_session, create_session, save,
  drop_codes,
}

-- A session by itself: only an approved one has a user or a token, and its pace is between 5 and 60.
abbrev pub FitsStatus : Status → Option ℕ → Option ℕ → Option String → Type 0
FitsStatus approved user token_id token = is_some user ≡ true
FitsStatus status user token_id token = (user ≡ none) × (token_id ≡ none) × (token ≡ none)

pub record IsSound (s : Session) : Type 0 where
  pub fits : FitsStatus s.status s.approved_user_id s.minted_token_id s.minted_token
  pub slow : 5 ≤ s.interval
  pub quick : s.interval ≤ 60

-- The two Maps name the same sessions, and each session is sound.
pub record IsLinked (store : Store) : Type 0 where
  pub indexed :
      (dc : String) (s : Session)
      → get store.by_device_code dc ≡ some s
      → (s.device_code ≡ dc) × (get store.by_user_code s.user_code ≡ some dc)
  pub found :
      (uc dc : String)
      → get store.by_user_code uc ≡ some dc
      → (s : Session) × (get store.by_device_code dc ≡ some s) × (s.user_code ≡ uc)
  pub sound : (dc : String) (s : Session) → get store.by_device_code dc ≡ some s → IsSound s

-- What is read after a write.
put-get-cases {ℓ} :
    {V : Type ℓ} (m : List (String × V)) (k j : String) (v w : V)
    → get (put m k v) j ≡ some w
    → (k ≡ j) × (v ≡ w) ⊎ (str_eq k j ≡ false) × (get m j ≡ some w)
put-get-cases m k j v w h = elim (Bool-cases (str_eq k j)) [
  | inl same ↦
      inl ((eq_iff k j).0 same, some-injective v w (sym (get-put m k j v ∙ rw (same) refl) ∙ h))
  | inr other ↦ inr (other, sym (get-put m k j v ∙ rw (other) refl) ∙ h)
]

pub save-IsLinked :
    (store : Store) (old new : Session)
    → IsLinked store
    → get store.by_device_code new.device_code ≡ some old
    → new.user_code ≡ old.user_code
    → IsSound new
    → IsLinked (save store new)
unfolding save
save-IsLinked store old new l at same_code ok = record {
  indexed = λ dc s h. elim (put-get-cases store.by_device_code new.device_code dc new s h) [
    | inl (here, is) ↦ (
      sym (ap (λ x. x.device_code) is) ∙ here,
      ap (get store.by_user_code) (sym (ap (λ x. x.user_code) is) ∙ same_code)
          ∙ (l.indexed new.device_code old at).1
          ∙ ap some here,
    )
    | inr (_, before) ↦ l.indexed dc s before
  ];
  found = λ uc dc h.
      let (s, there, code) = l.found uc dc h in
      elim (Bool-cases (str_eq new.device_code dc)) [
        | inl same ↦
            let here : new.device_code ≡ dc = (eq_iff new.device_code dc).0 same in
            let is : old ≡ s =
              some-injective old s (sym at ∙ ap (get store.by_device_code) here ∙ there) in
            (
              new,
              get-put store.by_device_code new.device_code dc new ∙ rw (same) refl,
              same_code ∙ ap (λ x. x.user_code) is ∙ code,
            )
        | inr other ↦
            (s, get-put store.by_device_code new.device_code dc new ∙ rw (other) there, code)
      ];
  sound = λ dc s h. elim (put-get-cases store.by_device_code new.device_code dc new s h) [
    | inl (here, is) ↦ subst IsSound is ok
    | inr (_, before) ↦ l.sound dc s before
  ];
}

drop-get-cases {ℓ} :
    {V : Type ℓ} (m : List (String × V)) (k j : String) (w : V)
    → get (drop_key m k) j ≡ some w
    → (str_eq k j ≡ false) × (get m j ≡ some w)
drop-get-cases m k j w h = elim (Bool-cases (str_eq k j)) [
  | inl same ↦
      let gone : get (drop_key m k) j ≡ none = get-drop_key m k j ∙ rw (same) refl in
      absurd (ground (arith, sym gone ∙ h))
  | inr other ↦ (other, sym (get-drop_key m k j ∙ rw (other) refl) ∙ h)
]

-- Two reads of one key agree.
same_read {ℓ} :
    {V : Type ℓ} (m : List (String × V)) (k j : String) (v w : V)
    → get m k ≡ some v
    → get m j ≡ some w
    → k ≡ j
    → v ≡ w
same_read m k j v w h g e = some-injective v w (sym h ∙ ap (get m) e ∙ g)

differ : (k j : String) → ¬ (k ≡ j) → str_eq k j ≡ false
differ k j n = elim (Bool-cases (str_eq k j)) [
  | inl same ↦ absurd (n ((eq_iff k j).0 same))
  | inr other ↦ other
]

differ-false : (k j : String) → str_eq k j ≡ false → ¬ (k ≡ j)
differ-false k j h e = ground (arith, h, (eq_iff k j).1 e)

pub drop_codes-IsLinked :
    (store : Store) (code : String) (session : Session)
    → IsLinked store
    → get store.by_device_code code ≡ some session
    → IsLinked (drop_codes code session store)
unfolding drop_codes
drop_codes-IsLinked store code session l at = record {
  indexed = λ dc s h.
      let (other, there) = drop-get-cases store.by_device_code code dc s h in
      let (own, back) = l.indexed dc s there in
      let apart : ¬ (session.user_code ≡ s.user_code) = λ e. differ-false code dc other (
        same_read store.by_user_code session.user_code s.user_code code dc
          (l.indexed code session at).1 back e) in
      (
        own,
        get-drop_key store.by_user_code session.user_code s.user_code
            ∙ rw (differ session.user_code s.user_code apart) back,
      );
  found = λ uc dc h.
      let (other, there) = drop-get-cases store.by_user_code session.user_code uc dc h in
      let (s, held, is) = l.found uc dc there in
      let apart : ¬ (code ≡ dc) = λ e.
        differ-false session.user_code uc other (
          ap (λ x. x.user_code) (same_read store.by_device_code code dc session s at held e)
          ∙ is) in
      (s, get-drop_key store.by_device_code code dc ∙ rw (differ code dc apart) held, is);
  sound = λ dc s h. l.sound dc s (drop-get-cases store.by_device_code code dc s h).1;
}

pick_user_code-fresh :
    (tries : ℕ) (draw : ℕ → String) (i : ℕ) (m : List (String × String)) (uc : String)
    → pick_user_code tries draw i m ≡ some uc
    → get m uc ≡ none
unfolding pick_user_code
pick_user_code-fresh zero draw i m uc h = absurd (ground (arith, h))
pick_user_code-fresh (suc tries) draw i m uc h = elim (Option-cases (get m (draw i))) [
  | inl free ↦
      ap (get m) (sym (some-injective (draw i) uc (sym (rw (pick_user_code, free) refl) ∙ h)))
      ∙ free
  | inr (dc, taken) ↦ pick_user_code-fresh tries draw (suc i) m uc (ground (arith, h, taken))
]

none-some {ℓ} :
    {V : Type ℓ} (m : List (String × V)) (k j : String) (v : V)
    → get m k ≡ none
    → get m j ≡ some v
    → ¬ (k ≡ j)
none-some m k j v h g e = ground (arith, sym h ∙ ap (get m) e ∙ g)

pub create_session-IsLinked :
    (now : ℕ) (code : String) (draw : ℕ → String) (client : String) (host : Option Text)
    (store : Store) (made : Session) (after : Store)
    → IsLinked store
    → get store.by_device_code code ≡ none
    → create_session now code draw client host store ≡ some (made, after)
    → IsLinked after
unfolding create_session
create_session-IsLinked now code draw client host store made after l unused h =
    elim (Option-cases (pick_user_code 33 draw 0 store.by_user_code)) [
      | inl out ↦ absurd (ground (arith, h, out))
      | inr (uc, picked) ↦
          let free = pick_user_code-fresh 33 draw 0 store.by_user_code uc picked in
          let new = new_session now code uc client host in
          subst IsLinked
            (ap (λ p. p.1)
              (some-injective (new, inserted uc) (made, after)
                (sym (rw (create_session, picked) refl) ∙ h)))
            record {
              indexed = λ dc s g. elim (put-get-cases store.by_device_code code dc new s g) [
                | inl (here, is) ↦ (
                  sym (ap (λ x. x.device_code) is) ∙ here,
                  get-put store.by_user_code uc s.user_code code
                      ∙ rw ((eq_iff uc s.user_code).1 (ap (λ x. x.user_code) is)) (ap some here),
                )
                | inr (_, there) ↦
                    let (own, back) = l.indexed dc s there in
                    (
                      own,
                      get-put store.by_user_code uc s.user_code code
                          ∙ rw
                              (differ uc s.user_code
                                (none-some store.by_user_code uc s.user_code dc free back))
                              back,
                    )
              ];
              found = λ uc' dc g. elim (put-get-cases store.by_user_code uc uc' code dc g) [
                | inl (here, is) ↦ (
                  new,
                  get-put store.by_device_code code dc new ∙ rw ((eq_iff code dc).1 is) refl,
                  here,
                )
                | inr (_, there) ↦
                    let (s, held, is) = l.found uc' dc there in
                    (
                      s,
                      get-put store.by_device_code code dc new
                          ∙ rw
                              (differ code dc
                                (none-some store.by_device_code code dc s unused held))
                              held,
                      is,
                    )
              ];
              sound = λ dc s g. elim (put-get-cases store.by_device_code code dc new s g) [
                | inl (_, is) ↦
                    subst IsSound is (record {
                      fits = (refl, refl, refl);
                      slow = omega arith;
                      quick = omega arith;
                    })
                | inr (_, there) ↦ l.sound dc s there
              ];
            }
    ]
  where
    inserted : String → Store
    inserted uc = record {
      by_device_code = put store.by_device_code code (new_session now code uc client host);
      by_user_code = put store.by_user_code uc code;
    }
