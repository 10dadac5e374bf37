-- ===== src/Database/Delete/Bulk.antt =====
-- What a deletion of several sessions reports, and which sessions are left.
use kimi_proxy.Base.{
  ℕ, suc, ◌+◌, ◌≡◌, refl, sym, ap, fun_ext, ◌∙◌, Bool, true, false, not, ◌&&◌, is_some, List, [],
  ◌∷◌, ◌++◌, length, length-append, arith, Bool-cases, inl, inr, ◌==◌, if◌then◌else◌,
}
use mathlib.Core.List.{append-nil, append_assoc}
use kimi_proxy.Base.Tables.{find, find-erase}
use kimi_proxy.Database.{Database, invalidate_session_cache, get_session_by_id}
use kimi_proxy.Database.Delete
use kimi_proxy.Database.Delete.Gone.{delete_session-refers}
use kimi_proxy.Database.Delete.{Deletions, delete_session, delete_sessions_bulk}

-- the sessions that are there but for one
abbrev pub without : ℕ → (ℕ → Bool) → ℕ → Bool
without k there j = there j && not (k == j)

-- the ids that fail, of the sessions that are there: those whose deletion raises, and those that are
-- not there, or no longer
abbrev pub failing : (ℕ → Bool) → List (ℕ × Bool) → List ℕ
failing there [] = []
failing there ((k, raises) ∷ ids) =
    let later = failing (without k there) ids in
    let again = k ∷ failing there ids in if there k && not raises then later else again

-- the sessions that are left
abbrev pub left : (ℕ → Bool) → List (ℕ × Bool) → ℕ → Bool
left there [] = there
left there ((k, raises) ∷ ids) =
    if there k && not raises then left (without k there) ids else left there ids

abbrev pub is_there : Database → ℕ → Bool
is_there db j = is_some (get_session_by_id j db)

abbrev pub is_empty : List ℕ → Bool
is_empty [] = true
is_empty (k ∷ ks) = false

abbrev pub processed : Deletions → ℕ
processed r = r.deleted_count + length r.failed_ids

processed-note :
    (k : ℕ) (b : Bool) (r : Deletions) → processed (Delete.note k b r) ≡ suc (processed r)
unfolding Delete.note
processed-note k true r = omega arith
processed-note k false r = omega (arith, length-append r.failed_ids (k ∷ []))

is_empty-snoc : (ks : List ℕ) (k : ℕ) → is_empty (ks ++ k ∷ []) ≡ false
is_empty-snoc [] k = refl
is_empty-snoc (j ∷ ks) k = refl

success-note :
    (k : ℕ) (b : Bool) (r : Deletions)
    → r.success ≡ is_empty r.failed_ids
    → (Delete.note k b r).success ≡ is_empty (Delete.note k b r).failed_ids
unfolding Delete.note
success-note k true r h = h
success-note k false r h = rw (is_empty-snoc r.failed_ids k) refl

delete_all-processed :
    (ids : List (ℕ × Bool)) (db : Database) (r : Deletions)
    → processed (Delete.delete_all ids db r).1 ≡ processed r + length ids
unfolding Delete.delete_all
delete_all-processed [] db r = omega arith
delete_all-processed ((k, raises) ∷ ids) db r =
    let (db', found) = delete_session raises k db in
    omega (arith, delete_all-processed ids db' (Delete.note k found r), processed-note k found r)

delete_all-success :
    (ids : List (ℕ × Bool)) (db : Database) (r : Deletions)
    → r.success ≡ is_empty r.failed_ids
    → (Delete.delete_all ids db r).1.success ≡ is_empty (Delete.delete_all ids db r).1.failed_ids
unfolding Delete.delete_all
delete_all-success [] db r h = h
delete_all-success ((k, raises) ∷ ids) db r h =
    delete_all-success ids (delete_session raises k db).0
      (Delete.note k (delete_session raises k db).1 r)
      (success-note k (delete_session raises k db).1 r h)

deleted_there :
    (raises : Bool) (k : ℕ) (db : Database)
    → is_there (delete_session raises k db).0
      ≡ (if is_there db k && not raises then without k (is_there db) else is_there db)
unfolding delete_session get_session_by_id invalidate_session_cache
deleted_there true k db = ground arith
deleted_there false k db = elim (Bool-cases (is_some (find k db.sessions))) [
  | inl p ↦ rw p (fun_ext (λ j. rw (find-erase k j db.sessions) (ground arith)))
  | inr p ↦ rw p refl
]

note-failing :
    (b : Bool) (k : ℕ) (ids : List (ℕ × Bool)) (r : Deletions) (there there' : ℕ → Bool)
    → there' ≡ (if b then without k there else there)
    → (Delete.note k b r).failed_ids ++ failing there' ids
      ≡ r.failed_ids ++ (if b then failing (without k there) ids else k ∷ failing there ids)
unfolding Delete.note
note-failing true k ids r there there' e = ap (λ t. r.failed_ids ++ failing t ids) e
note-failing false k ids r there there' e =
    ap (λ t. (r.failed_ids ++ k ∷ []) ++ failing t ids) e
    ∙ append_assoc r.failed_ids (k ∷ []) (failing there ids)

delete_all-failing :
    (ids : List (ℕ × Bool)) (db : Database) (r : Deletions)
    → (Delete.delete_all ids db r).1.failed_ids ≡ r.failed_ids ++ failing (is_there db) ids
unfolding Delete.delete_all
delete_all-failing [] db r = sym (append-nil r.failed_ids)
delete_all-failing ((k, raises) ∷ ids) db r =
    let (db', found) = delete_session raises k db in
    delete_all-failing ids db' (Delete.note k found r)
    ∙ (ap (λ c. (Delete.note k c r).failed_ids ++ failing (is_there db') ids)
          (delete_session-refers raises k db).0
        ∙ note-failing (is_there db k && not raises) k ids r (is_there db) (is_there db')
            (deleted_there raises k db))

left-if :
    (b : Bool) (x y : ℕ → Bool) (ids : List (ℕ × Bool))
    → left (if b then x else y) ids ≡ (if b then left x ids else left y ids)
left-if true x y ids = refl
left-if false x y ids = refl

delete_all-left :
    (ids : List (ℕ × Bool)) (db : Database) (r : Deletions)
    → is_there (Delete.delete_all ids db r).0 ≡ left (is_there db) ids
unfolding Delete.delete_all
delete_all-left [] db r = refl
delete_all-left ((k, raises) ∷ ids) db r =
    let (db', found) = delete_session raises k db in
    delete_all-left ids db' (Delete.note k found r)
    ∙ (ap (λ t. left t ids) (deleted_there raises k db)
        ∙ left-if (is_there db k && not raises) (without k (is_there db)) (is_there db) ids)

-- The ids that are reported as failed are those whose deletion raises and those that are not there,
-- or no longer, in their order; the others are counted, and the whole succeeds exactly if none
-- failed. Exactly the sessions that were deleted are gone.
pub delete_sessions_bulk-failing :
    (ids : List (ℕ × Bool)) (db : Database)
    → let (db', r) = delete_sessions_bulk ids db in
      (r.failed_ids ≡ failing (is_there db) ids)
      × (r.deleted_count + length r.failed_ids ≡ length ids)
      × (r.success ≡ is_empty r.failed_ids)
      × (is_there db' ≡ left (is_there db) ids)
unfolding delete_sessions_bulk
delete_sessions_bulk-failing ids db =
    let none_yet : Deletions = record { success = true; deleted_count = 0; failed_ids = [] } in
    (
      delete_all-failing ids db none_yet,
      omega (arith, delete_all-processed ids db none_yet),
      delete_all-success ids db none_yet refl,
      delete_all-left ids db none_yet,
    )
