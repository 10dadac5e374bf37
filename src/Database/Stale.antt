-- ===== src/Database/Stale.antt =====
-- The cache of the active session: when it agrees with the table, and when it does not.
use kimi_proxy.Base.{
  ℕ, ◌-◌, ◌<◌, ◌≡◌, refl, ◌⊎◌, inl, inr, ℤ, String, Bool, true, false, Option, none, some, List, [],
  ◌∷◌, arith, Bool-cases, ltb,
}
use kimi_proxy.Database
use kimi_proxy.Database.{
  SessionRow, Database, newest_active, get_active_session, create_session, update_session_model,
  update_session_external_id, update_session_first_prompt, set_active_session,
  active_session_cache_ttl, update_session_reserved_tokens, invalidate_session_cache,
}
use kimi_proxy.Database.Delete.{delete_session}
use kimi_proxy.Database.Valid.{
  Call, get_active, create, set_model, set_external_id, first_prompt, set_active, set_reserved,
  compacted, set_auto, set_threshold, increment, reset, route, delete, step, steps,
}

-- the cache is empty or has the session that the table gives
abbrev pub IsCoherent : Database → Type 0
IsCoherent db =
    (db.cached_active_session ≡ none) ⊎ (db.cached_active_session ≡ newest_active db.sessions)

-- the operations that write columns of the sessions and leave the cache
abbrev pub leaves_cache : Call → Bool
leaves_cache (set_reserved id tokens) = true
leaves_cache (compacted ratio now id before after preserved summarized reason) = true
leaves_cache (set_auto id enabled) = true
leaves_cache (set_threshold id threshold) = true
leaves_cache (increment id) = true
leaves_cache (reset id) = true
leaves_cache (route id model) = true
leaves_cache c = false

cached_or_fetched-IsCoherent :
    (now : ℕ) (db : Database) (cached : Option (ℕ × SessionRow))
    → IsCoherent db
    → IsCoherent (Database.cached_or_fetched now db cached).0
unfolding Database.cached_or_fetched Database.fetch
cached_or_fetched-IsCoherent now db none h = inr refl
cached_or_fetched-IsCoherent now db (some s) h =
    elim (Bool-cases (ltb (now - db.cached_active_session_time) active_session_cache_ttl)) [
      | inl p ↦ rw p h
      | inr p ↦ rw p (inr refl)
    ]

name_after-IsCoherent :
    (id : ℕ) (prompt : String) (db : Database) (found : Option SessionRow)
    → db.cached_active_session ≡ none
    → (Database.name_after id prompt db found).cached_active_session ≡ none
unfolding Database.name_after
name_after-IsCoherent id prompt db none h = h
name_after-IsCoherent id prompt db (some s) h = ground arith

delete_session-cached :
    (raises : Bool) (id : ℕ) (db : Database)
    → (delete_session raises id db).0.cached_active_session ≡ none
unfolding delete_session invalidate_session_cache
delete_session-cached true id db = refl
delete_session-cached false id db = ground arith

step-IsCoherent :
    (c : Call) (db : Database) → leaves_cache c ≡ false → IsCoherent db → IsCoherent (step c db)
unfolding get_active_session create_session update_session_model update_session_external_id
    update_session_first_prompt set_active_session invalidate_session_cache Database.update_row
step-IsCoherent (get_active now) db e h =
    cached_or_fetched-IsCoherent now db db.cached_active_session h
step-IsCoherent (create now name provider model external) db e h = inl refl
step-IsCoherent (set_model id model) db e h = inl refl
step-IsCoherent (set_external_id id external) db e h = inl refl
step-IsCoherent (first_prompt id prompt) db e h =
    inl (name_after-IsCoherent id prompt (invalidate_session_cache db) _ refl)
step-IsCoherent (set_active id) db e h = inl refl
step-IsCoherent (set_reserved id tokens) db e h = absurd cc
step-IsCoherent (compacted ratio now id before after preserved summarized reason) db e h = absurd cc
step-IsCoherent (set_auto id enabled) db e h = absurd cc
step-IsCoherent (set_threshold id threshold) db e h = absurd cc
step-IsCoherent (increment id) db e h = absurd cc
step-IsCoherent (reset id) db e h = absurd cc
step-IsCoherent (route id model) db e h = absurd cc
step-IsCoherent (delete raises id) db e h = inl (delete_session-cached raises id db)

answer-IsCoherent :
    (now : ℕ) (db : Database) (cached : Option (ℕ × SessionRow))
    → (cached ≡ none) ⊎ (cached ≡ newest_active db.sessions)
    → (Database.cached_or_fetched now db cached).1 ≡ newest_active db.sessions
unfolding Database.cached_or_fetched Database.fetch
answer-IsCoherent now db none h = refl
answer-IsCoherent now db (some s) (inl e) = cc
answer-IsCoherent now db (some s) (inr e) = ground arith

abbrev pub AllInvalidate : List Call → Type 0
AllInvalidate [] = Unit
AllInvalidate (c ∷ cs) = (leaves_cache c ≡ false) × AllInvalidate cs

steps-IsCoherent :
    (cs : List Call) (db : Database) → AllInvalidate cs → IsCoherent db → IsCoherent (steps cs db)
steps-IsCoherent [] db all h = h
steps-IsCoherent (c ∷ cs) db all h =
    steps-IsCoherent cs (step c db) all.1 (step-IsCoherent c db all.0 h)

-- After any calls but those that leave the cache (reserved tokens, compactions, the columns of
-- automatic compactions, the model that routing writes), the active session is read as the table has
-- it, from the cache or not, at any time, if the cache agreed with the table before.
pub get_active_session-steps :
    (cs : List Call) (db : Database) (now : ℕ)
    → AllInvalidate cs
    → IsCoherent db
    → (get_active_session now (steps cs db)).1 ≡ newest_active (steps cs db).sessions
unfolding get_active_session
get_active_session-steps cs db now all h =
    answer-IsCoherent now (steps cs db) (steps cs db).cached_active_session
      (steps-IsCoherent cs db all h)

-- The number of reserved tokens that is written while the active session is in the cache is not read
-- for two seconds after the cache was filled.
pub get_active_session_stale :
    (now : ℕ) (db : Database) (id k : ℕ) (tokens : ℤ) (s : SessionRow)
    → db.cached_active_session ≡ some (id, s)
    → now - db.cached_active_session_time < active_session_cache_ttl
    → (get_active_session now (update_session_reserved_tokens k tokens db).0).1 ≡ some (id, s)
unfolding get_active_session update_session_reserved_tokens Database.cached_or_fetched
get_active_session_stale now db id k tokens s e fresh = rw e (ground arith)
