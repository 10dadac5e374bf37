-- ===== src/AutoSession/Settled.antt =====
-- A request that is repeated does not create a second session.
use kimi_proxy.Base.{
  ℕ, suc, is_some, ◌≡◌, refl, ◌⊎◌, inl, inr, String, Bool, false, Option, none, some, Dict, arith,
  Bool-cases, ◌=ₛ◌, eq_iff, eq_refl,
}
use kimi_proxy.Base.Text.{strip}
use kimi_proxy.Base.Tables.{Table}
use kimi_proxy.Json.{Fields}
use kimi_proxy.Router.{Model, map_model_name}
use kimi_proxy.Database.{
  nonempty, SessionRow, Database, create_session, get_active_session, new_row,
}
use kimi_proxy.Database.Valid.{IsValid}
use kimi_proxy.Database.Active.{get_active_session-create_session}
use kimi_proxy.AutoSession
use kimi_proxy.AutoSession.{
  Outside, Chosen, normalized, normalize_optional_string, both_differ, differ,
  should_auto_create_session, auto_create_session, process_auto_session,
  extract_external_session_id_from_request,
}

both_differ_self : (o : Option String) → both_differ o o ≡ false
unfolding both_differ
both_differ_self none = refl
both_differ_self (some a) = rw (eq_refl a) refl

differ_self : (o : Option String) → differ o o ≡ false
unfolding differ
differ_self none = refl
differ_self (some a) = rw (eq_refl a) refl

-- an empty model is stored as NULL, and both are normalized to none
normalize-nonempty :
    (model : String) → normalize_optional_string (nonempty (some model)) ≡ normalized model
unfolding normalize_optional_string nonempty normalized strip
normalize-nonempty model = elim (Bool-cases (model =ₛ "")) [
  | inl p ↦ rw (p, (eq_iff model "").0 p) refl
  | inr p ↦ rw p refl
]

-- A session that was created for a provider, a model and an external id is kept by a request for the
-- same three.
pub should_auto_create_session-new_row :
    (now id : ℕ) (name provider model : String) (external : Option String)
    → should_auto_create_session provider model
        (some (id, new_row now name provider (some model) external))
        external
      ≡ false
unfolding should_auto_create_session new_row
should_auto_create_session-new_row now id name provider model external =
    rw
      (
        both_differ_self (normalized provider),
        both_differ_self (normalize_optional_string external),
        normalize-nonempty model,
        differ_self (normalized model),
      )
      refl

note_external_id_kept :
    (id : ℕ) (s : SessionRow) (external : Option String) (db : Database)
    → s.external_session_id ≡ external
    → (AutoSession.note_external_id (some (id, s)) external db).1 ≡ (some (id, s), false)
unfolding AutoSession.note_external_id
note_external_id_kept id s none db e = refl
note_external_id_kept id s (some x) db e =
    elim (Bool-cases (is_some (normalize_optional_string s.external_session_id))) [
      | inl p ↦ rw p refl
      | inr p ↦ rw (p, e) refl
    ]

module _ (o o' : Outside) (models : Dict Model) (statuses statuses' : Table Bool) (model : String)
    (external : Option String) (later : ℕ) (db'' : Database) where
  -- what a request does that created a session, and what it does again
  abbrev IsSettled : Option String → Database × Chosen → Type 0
  IsSettled provider (db', (chosen, created)) =
      (c : ℕ × SessionRow) × ((chosen ≡ some c)
        × ((get_active_session later db').1 ≡ some c)
        × ((AutoSession.with_provider o' models statuses' model external (some c) db'' provider).1
            ≡ (some c, false)))

  created_again :
      (provider : String) (current : Option (ℕ × SessionRow)) (db : Database)
      → IsValid db
      → let r =
          AutoSession.use_created current
            (auto_create_session o provider (map_model_name model models) external db) in
        (r.1.1 ≡ false) ⊎ IsSettled (some provider) r
  unfolding AutoSession.use_created auto_create_session AutoSession.with_provider create_session
  created_again provider current db h = elim (Bool-cases o.broadcasts) [
    | inl p ↦ rw p (
        inr (
          _,
          (
            refl,
            (get_active_session-create_session o.now later (AutoSession.session_name o provider)
                provider (some (map_model_name model models)) external db h).0,
            rw
                (should_auto_create_session-new_row o.now (suc db.last_session)
                  (AutoSession.session_name o provider) provider (map_model_name model models)
                  external)
                (note_external_id_kept (suc db.last_session) _ external db'' refl),
          ),
        ))
    | inr p ↦ rw p (inl refl)
  ]

  note_external_id_keeps :
      (current : Option (ℕ × SessionRow)) (db : Database)
      → (AutoSession.note_external_id current external db).1.1 ≡ false
  unfolding AutoSession.note_external_id
  note_external_id_keeps none db = refl
  note_external_id_keeps (some (id, s)) db = go external
    where
      go : (x : Option String) → (AutoSession.note_external_id (some (id, s)) x db).1.1 ≡ false
      go none = refl
      go (some x) = ground arith

  with_provider_again :
      (provider : Option String) (current : Option (ℕ × SessionRow)) (db : Database)
      → IsValid db
      → let r = AutoSession.with_provider o models statuses model external current db provider in
        (r.1.1 ≡ false) ⊎ IsSettled provider r
  unfolding AutoSession.with_provider
  with_provider_again none current db h = inl refl
  with_provider_again (some provider) current db h =
      elim (Bool-cases
        (should_auto_create_session provider (map_model_name model models) current external)) [
          | inl p ↦ elim (Bool-cases (AutoSession.is_automatic current statuses)) [
            | inl q ↦ rw (p, q) (created_again provider current db h)
            | inr q ↦ rw (p, q) (inl refl)
          ]
          | inr p ↦ rw p (inl (note_external_id_keeps current db))
        ]

-- A request that has created a session, and is repeated with that session, keeps it; the session is
-- the active one of the database.
pub process_auto_session-again :
    (o o' : Outside) (models : Dict Model) (statuses statuses' : Table Bool) (model : String)
    (request_body : Fields) (current : Option (ℕ × SessionRow)) (later : ℕ) (db db'' : Database)
    → IsValid db
    → let (db', (chosen, created)) =
        process_auto_session o models statuses model request_body current db in
      (created ≡ false)
      ⊎ ((c : ℕ × SessionRow) × ((chosen ≡ some c)
            × ((get_active_session later db').1 ≡ some c)
            × ((process_auto_session o' models statuses' model request_body (some c) db'').1
                ≡ (some c, false))))
unfolding process_auto_session
process_auto_session-again o o' models statuses statuses' model request_body current later db db''
      h =
    elim (Bool-cases (model =ₛ "")) [
      | inl p ↦ rw p (inl refl)
      | inr p ↦ rw p (
          with_provider_again o o' models statuses statuses' model
            (extract_external_session_id_from_request request_body) later db'' _ current db h)
    ]
