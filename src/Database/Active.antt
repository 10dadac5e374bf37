-- ===== src/Database/Active.antt =====
-- Which session is active after a session is created or activated.
use kimi_proxy.Base.{
  ℕ, suc, ◌≡◌, refl, ap, subst, ==_iff, inl, inr, String, true, Option, none, some, is_some, [],
  ◌∷◌, ◌++◌, arith, Bool-cases, ◌==◌,
}
use kimi_proxy.Base.Tables.{Table, find, update}
use kimi_proxy.Database
use kimi_proxy.Database.{
  SessionRow, Database, new_row, newest_active, deactivate, get_active_session, create_session,
  set_active_session, invalidate_session_cache, get_session_by_id,
}
use kimi_proxy.Database.Valid.{
  IsValid, AreGiven, update_absent, find-deactivate-none, find-snoc, find-AreGiven,
}

newest_active-snoc :
    (k : ℕ) (s : SessionRow) (t : Table SessionRow)
    → s.is_active ≡ true
    → newest_active (deactivate t ++ (k, s) ∷ []) ≡ some (k, s)
unfolding newest_active deactivate Database.newer
newest_active-snoc k s [] h = rw h refl
newest_active-snoc k s ((j, r) ∷ t) h = newest_active-snoc k s t h

newest_active-deactivate : (t : Table SessionRow) → newest_active (deactivate t) ≡ none
unfolding newest_active deactivate
newest_active-deactivate [] = refl
newest_active-deactivate ((j, r) ∷ t) = newest_active-deactivate t

-- the row that is activated, with its id
abbrev pub activated_row : ℕ → Option SessionRow → Option (ℕ × SessionRow)
activated_row k none = none
activated_row k (some s) = some (k, record s { is_active = true })

newest_active-activated :
    (last k : ℕ) (t : Table SessionRow)
    → AreGiven last t
    → newest_active (update k Database.activated (deactivate t)) ≡ activated_row k (find k t)
unfolding newest_active deactivate update Database.activated find Database.newer
newest_active-activated last k [] h = refl
newest_active-activated last k ((i, s) ∷ t) h = elim (Bool-cases (i == k)) [
  | inl p ↦ rw p (
      rw
        (
          update_absent k Database.activated (deactivate t)
              (find-deactivate-none k t (subst (λ j. find j t ≡ none) ((==_iff i k).0 p) h.1)),
          newest_active-deactivate t,
        )
        (ap (λ j. some (j, record s { is_active = true })) ((==_iff i k).0 p)))
  | inr p ↦ rw p (newest_active-activated last k t h.2)
]

is_some-deactivate :
    (k : ℕ) (t : Table SessionRow) → is_some (find k (deactivate t)) ≡ is_some (find k t)
unfolding find deactivate
is_some-deactivate k [] = refl
is_some-deactivate k ((i, s) ∷ t) = ground (arith, is_some-deactivate k t)

-- A session that is created is the active one, at any later time, and can be read by its id.
pub get_active_session-create_session :
    (now later : ℕ) (name provider : String) (model external_session_id : Option String)
    (db : Database)
    → IsValid db
    → let (db', created) = create_session now name provider model external_session_id db in
      ((get_active_session later db').1 ≡ some created)
      × (get_session_by_id created.0 db' ≡ some created.1)
      × (get_session_by_id created.0 db ≡ none)
unfolding create_session get_active_session get_session_by_id invalidate_session_cache new_row
    Database.cached_or_fetched Database.fetch
get_active_session-create_session now later name provider model external_session_id db h = (
  newest_active-snoc (suc db.last_session) _ db.sessions refl,
  rw
      (find-snoc (suc db.last_session) (suc db.last_session)
        (new_row now name provider model external_session_id) (deactivate db.sessions)
        (find-deactivate-none (suc db.last_session) db.sessions
          (find-AreGiven db.last_session (suc db.last_session) db.sessions (omega arith) h.0)))
      (ground arith),
  find-AreGiven db.last_session (suc db.last_session) db.sessions (omega arith) h.0,
)

-- `set_active_session` says whether it found the session. It makes that session the active one, at
-- any later time; without such a session, no session is active any more.
pub get_active_session-set_active_session :
    (later k : ℕ) (db : Database)
    → IsValid db
    → let (db', found) = set_active_session k db in
      (found ≡ is_some (get_session_by_id k db))
      × ((get_active_session later db').1 ≡ activated_row k (get_session_by_id k db))
unfolding set_active_session get_active_session get_session_by_id invalidate_session_cache
    Database.update_row Database.cached_or_fetched Database.fetch
get_active_session-set_active_session later k db h =
    (is_some-deactivate k db.sessions, newest_active-activated db.last_session k db.sessions h.0)
