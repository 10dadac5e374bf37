-- ===== src/Database/Valid.antt =====
-- The invariant of the sessions: ids are distinct and were all given, and at most one is active.
use kimi_proxy.Base.{
  ℕ, suc, ◌+◌, ◌-◌, ◌≤◌, ◌<◌, ltb, is_some, ◌≡◌, refl, subst, ◌∙◌, inl, inr, ==_iff, ℤ, String,
  Bool, true, false, Option, none, some, List, [], ◌∷◌, ◌++◌, arith, Bool-cases, ◌==◌,
  if◌then◌else◌,
}
use kimi_proxy.Base.Tables.{Table, find, update, erase, find-update, find-erase}
use kimi_proxy.Database
use kimi_proxy.Database.{
  SessionRow, Database, new_row, deactivate, get_active_session, create_session,
  update_session_model, update_session_external_id, update_session_first_prompt, set_active_session,
  update_session_reserved_tokens, invalidate_session_cache, active_session_cache_ttl,
}
use kimi_proxy.Database.Usage.{save_compaction_history}
use kimi_proxy.Database.Automatic
use kimi_proxy.Database.Automatic.{
  update_session_auto_compaction, update_session_auto_threshold,
  increment_consecutive_auto_compactions, reset_consecutive_auto_compactions, write_fallback_model,
}
use kimi_proxy.Database.Delete.{delete_session}

-- every id was given, and none is there twice
abbrev pub AreGiven : ℕ → Table SessionRow → Type 0
AreGiven last [] = Unit
AreGiven last ((i, s) ∷ t) = (i ≤ last) × (find i t ≡ none) × AreGiven last t

-- the number of active sessions
unfoldable pub active_count : Table SessionRow → ℕ
active_count [] = 0
active_count ((i, s) ∷ t) = let rest = active_count t in if s.is_active then suc rest else rest

abbrev pub IsValid : Database → Type 0
IsValid db = AreGiven db.last_session db.sessions × (active_count db.sessions ≤ 1)

pub find-deactivate-none :
    (i : ℕ) (t : Table SessionRow) → find i t ≡ none → find i (deactivate t) ≡ none
unfolding find deactivate
find-deactivate-none i [] h = refl
find-deactivate-none i ((j, s) ∷ t) h = ground (arith, find-deactivate-none i t)

deactivate-AreGiven :
    (last : ℕ) (t : Table SessionRow) → AreGiven last t → AreGiven last (deactivate t)
unfolding deactivate
deactivate-AreGiven last [] h = tt
deactivate-AreGiven last ((i, s) ∷ t) h =
    (h.0, find-deactivate-none i t h.1, deactivate-AreGiven last t h.2)

active_count-deactivate : (t : Table SessionRow) → active_count (deactivate t) ≡ 0
unfolding active_count deactivate
active_count-deactivate [] = refl
active_count-deactivate ((i, s) ∷ t) = active_count-deactivate t

pub find-snoc :
    (i k : ℕ) (s : SessionRow) (t : Table SessionRow)
    → find i t ≡ none
    → find i (t ++ (k, s) ∷ []) ≡ (if k == i then some s else none)
unfolding find
find-snoc i k s [] h = refl
find-snoc i k s ((j, r) ∷ t) h = ground (arith, find-snoc i k s t)

pub find-AreGiven :
    (last k : ℕ) (t : Table SessionRow) → last < k → AreGiven last t → find k t ≡ none
unfolding find
find-AreGiven last k [] lt h = refl
find-AreGiven last k ((i, s) ∷ t) lt h = ground (arith, h.0, find-AreGiven last k t lt h.2)

snoc-AreGiven :
    (last : ℕ) (s : SessionRow) (t : Table SessionRow)
    → AreGiven last t
    → AreGiven (suc last) (t ++ (suc last, s) ∷ [])
unfolding find
snoc-AreGiven last s [] h = (omega arith, refl, tt)
snoc-AreGiven last s ((i, r) ∷ t) h = (
  omega (arith, h.0),
  find-snoc i (suc last) s t h.1 ∙ ground (arith, h.0),
  snoc-AreGiven last s t h.2,
)

active_count-snoc :
    (k : ℕ) (s : SessionRow) (t : Table SessionRow)
    → active_count (t ++ (k, s) ∷ []) ≡ active_count t + (if s.is_active then 1 else 0)
unfolding active_count
active_count-snoc k s [] = ground arith
active_count-snoc k s ((j, r) ∷ t) = ground (arith, active_count-snoc k s t)

update-AreGiven :
    (last k : ℕ) (f : SessionRow → SessionRow) (t : Table SessionRow)
    → AreGiven last t
    → AreGiven last (update k f t)
unfolding update
update-AreGiven last k f [] h = tt
update-AreGiven last k f ((i, s) ∷ t) h =
    (h.0, find-update k i f t ∙ ground (arith, h.1), update-AreGiven last k f t h.2)

-- an update that leaves the column `is_active` alone
active_count-update :
    (k : ℕ) (f : SessionRow → SessionRow) (t : Table SessionRow)
    → ((s : SessionRow) → (f s).is_active ≡ s.is_active)
    → active_count (update k f t) ≡ active_count t
unfolding active_count update
active_count-update k f [] h = refl
active_count-update k f ((i, s) ∷ t) h = ground (arith, active_count-update k f t h, h s)

-- an update of an id that is not there
pub update_absent :
    (k : ℕ) (f : SessionRow → SessionRow) (t : Table SessionRow)
    → find k t ≡ none
    → update k f t ≡ t
unfolding update find
update_absent k f [] h = refl
update_absent k f ((i, s) ∷ t) h = ground (arith, update_absent k f t)

active_count-activated :
    (last k : ℕ) (t : Table SessionRow)
    → AreGiven last t
    → active_count (update k Database.activated (deactivate t)) ≤ 1
unfolding active_count update deactivate Database.activated
active_count-activated last k [] h = omega arith
active_count-activated last k ((i, s) ∷ t) h = elim (Bool-cases (i == k)) [
  | inl p ↦ rw p (
      rw
        (update_absent k Database.activated (deactivate t)
          (find-deactivate-none k t (subst (λ j. find j t ≡ none) ((==_iff i k).0 p) h.1)))
        (omega (arith, active_count-deactivate t)))
  | inr p ↦ rw p (active_count-activated last k t h.2)
]

erase-AreGiven : (last k : ℕ) (t : Table SessionRow) → AreGiven last t → AreGiven last (erase k t)
unfolding erase
erase-AreGiven last k [] h = tt
erase-AreGiven last k ((i, s) ∷ t) h =
    ground (arith, erase-AreGiven last k t h.2, find-erase k i t, h.1)

active_count-erase : (k : ℕ) (t : Table SessionRow) → active_count (erase k t) ≤ active_count t
unfolding active_count erase
active_count-erase k [] = omega arith
active_count-erase k ((i, s) ∷ t) = ground (arith, active_count-erase k t)

-- the operations on the database, with their arguments
pub data Call : Type 0 where
  get_active : ℕ → Call
  create : ℕ → String → String → Option String → Option String → Call
  set_model : ℕ → String → Call
  set_external_id : ℕ → Option String → Call
  first_prompt : ℕ → String → Call
  set_active : ℕ → Call
  set_reserved : ℕ → ℤ → Call
  compacted : (ℤ → ℕ → ℕ) → ℕ → ℕ → ℕ → ℕ → ℕ → ℕ → String → Call
  set_auto : ℕ → Bool → Call
  set_threshold : ℕ → ℕ → Call
  increment : ℕ → Call
  reset : ℕ → Call
  route : ℕ → String → Call
  -- with whether a statement raises
  delete : Bool → ℕ → Call

abbrev pub step : Call → Database → Database
step (get_active now) db = (get_active_session now db).0
step (create now name provider model external) db =
    (create_session now name provider model external db).0
step (set_model id model) db = (update_session_model id model db).0
step (set_external_id id external) db = (update_session_external_id id external db).0
step (first_prompt id prompt) db = update_session_first_prompt id prompt db
step (set_active id) db = (set_active_session id db).0
step (set_reserved id tokens) db = (update_session_reserved_tokens id tokens db).0
step (compacted ratio now id before after preserved summarized reason) db =
    (save_compaction_history ratio now id before after preserved summarized reason db).0
step (set_auto id enabled) db = (update_session_auto_compaction id enabled db).0
step (set_threshold id threshold) db = (update_session_auto_threshold id threshold db).0
step (increment id) db = (increment_consecutive_auto_compactions id db).0
step (reset id) db = (reset_consecutive_auto_compactions id db).0
step (route id model) db = write_fallback_model id model db
step (delete raises id) db = (delete_session raises id db).0

abbrev pub steps : List Call → Database → Database
steps [] db = db
steps (c ∷ cs) db = steps cs (step c db)

cached_or_fetched-IsValid :
    (now : ℕ) (db : Database) (cached : Option (ℕ × SessionRow))
    → IsValid db
    → IsValid (Database.cached_or_fetched now db cached).0
unfolding Database.cached_or_fetched Database.fetch
cached_or_fetched-IsValid now db none h = h
cached_or_fetched-IsValid now db (some s) h =
    elim (Bool-cases (ltb (now - db.cached_active_session_time) active_session_cache_ttl)) [
      | inl p ↦ rw p h
      | inr p ↦ rw p h
    ]

update-IsValid :
    (db : Database) (k : ℕ) (f : SessionRow → SessionRow)
    → ((s : SessionRow) → (f s).is_active ≡ s.is_active)
    → IsValid db
    → AreGiven db.last_session (update k f db.sessions)
      × (active_count (update k f db.sessions) ≤ 1)
update-IsValid db k f same h = (
  update-AreGiven db.last_session k f db.sessions h.0,
  rw (active_count-update k f db.sessions same) h.1,
)

name_after-IsValid :
    (id : ℕ) (prompt : String) (db : Database) (found : Option SessionRow)
    → IsValid db
    → IsValid (Database.name_after id prompt db found)
unfolding Database.name_after Database.renamed
name_after-IsValid id prompt db none h = h
name_after-IsValid id prompt db (some s) h =
    ground (arith, update-IsValid db id (Database.renamed prompt) (λ r. refl) h)

delete_session-IsValid :
    (raises : Bool) (id : ℕ) (db : Database) → IsValid db → IsValid (delete_session raises id db).0
unfolding delete_session invalidate_session_cache
delete_session-IsValid true id db h = h
delete_session-IsValid false id db h = elim (Bool-cases (is_some (find id db.sessions))) [
  | inl p ↦ rw p (
    erase-AreGiven db.last_session id db.sessions h.0,
    omega (arith, active_count-erase id db.sessions, h.1),
  )
  | inr p ↦ rw p h
]

step-IsValid : (c : Call) (db : Database) → IsValid db → IsValid (step c db)
unfolding get_active_session create_session new_row update_session_model update_session_external_id
    update_session_first_prompt set_active_session update_session_reserved_tokens
    save_compaction_history invalidate_session_cache update_session_auto_compaction
    update_session_auto_threshold increment_consecutive_auto_compactions
    reset_consecutive_auto_compactions write_fallback_model Automatic.one_more
step-IsValid (get_active now) db h = cached_or_fetched-IsValid now db db.cached_active_session h
step-IsValid (create now name provider model external) db h = (
  snoc-AreGiven db.last_session _ (deactivate db.sessions)
      (deactivate-AreGiven db.last_session db.sessions h.0),
  rw
      (
        active_count-snoc (suc db.last_session) _ (deactivate db.sessions),
        active_count-deactivate db.sessions,
      )
      (omega arith),
)
step-IsValid (set_model id model) db h = update-IsValid db id _ (λ s. refl) h
step-IsValid (set_external_id id external) db h = update-IsValid db id _ (λ s. refl) h
step-IsValid (first_prompt id prompt) db h =
    name_after-IsValid id prompt (invalidate_session_cache db) _ h
step-IsValid (set_active id) db h = (
  update-AreGiven db.last_session id Database.activated (deactivate db.sessions)
      (deactivate-AreGiven db.last_session db.sessions h.0),
  active_count-activated db.last_session id db.sessions h.0,
)
step-IsValid (set_reserved id tokens) db h = update-IsValid db id _ (λ s. refl) h
step-IsValid (compacted ratio now id before after preserved summarized reason) db h =
    update-IsValid db id _ (λ s. refl) h
step-IsValid (set_auto id enabled) db h = update-IsValid db id _ (λ s. refl) h
step-IsValid (set_threshold id threshold) db h = update-IsValid db id _ (λ s. refl) h
step-IsValid (increment id) db h = update-IsValid db id _ (λ s. refl) h
step-IsValid (reset id) db h = update-IsValid db id _ (λ s. refl) h
step-IsValid (route id model) db h = update-IsValid db id _ (λ s. refl) h
step-IsValid (delete raises id) db h = delete_session-IsValid raises id db h

-- Whatever is done to the sessions, their ids stay distinct and among those that were given, and at
-- most one session is active.
pub steps-IsValid : (cs : List Call) (db : Database) → IsValid db → IsValid (steps cs db)
steps-IsValid [] db h = h
steps-IsValid (c ∷ cs) db h = steps-IsValid cs (step c db) (step-IsValid c db h)
