-- ===== src/Pruner/Store/Expiry.antt =====
-- How long the store answers.
use kimi_proxy.Base.{
  ℕ, ◌-◌, ◌*◌, ◌≤◌, String, ◌≡◌, ◌≢◌, refl, ap, ◌∙◌, Bool, true, false, Option, none, some, List,
  [], ◌∷◌, Dict, lookup, assign, lookup-assign, arith, eq_iff, ltb, ◌=ₛ◌, Bool-cases, inl, inr,
  if◌then◌else◌,
}
use kimi_proxy.Pruner.Store
use kimi_proxy.Pruner.Store.{StoredPrune, PruneStore, second}

-- each key stands once, as in every Python dictionary
abbrev has_key : String → Dict StoredPrune → Bool
has_key k [] = false
has_key k ((j, _) ∷ d) = if j =ₛ k then true else has_key k d

abbrev pub IsDict : Dict StoredPrune → Type 0
IsDict [] = Unit
IsDict ((k, _) ∷ d) = (has_key k d ≡ false) × IsDict d

abbrev live : ℕ → ℕ → Option StoredPrune → Option StoredPrune
live ttl now none = none
live ttl now (some item) = if ltb (ttl * second) (now - item.created_at_s) then none else some item

lookup-absent : (k : String) (d : Dict StoredPrune) → has_key k d ≡ false → lookup k d ≡ none
unfolding lookup
lookup-absent k [] h = refl
lookup-absent k ((j, v) ∷ d) h = ground (arith, lookup-absent k d)

-- the collection drops exactly what has expired
lookup-gc :
    (ttl now : ℕ) (k : String) (d : Dict StoredPrune)
    → IsDict d
    → lookup k (Store.gc ttl now d) ≡ live ttl now (lookup k d)
unfolding Store.gc lookup
lookup-gc ttl now k [] h = refl
lookup-gc ttl now k ((j, item) ∷ d) h =
    ground (arith, lookup-gc ttl now k d h.1, lookup-absent j d h.0, eq_iff j k)

has_key-gc :
    (ttl now : ℕ) (k : String) (d : Dict StoredPrune)
    → has_key k d ≡ false
    → has_key k (Store.gc ttl now d) ≡ false
unfolding Store.gc
has_key-gc ttl now k [] h = refl
has_key-gc ttl now k ((j, item) ∷ d) h = ground (arith, has_key-gc ttl now k d)

gc-IsDict : (ttl now : ℕ) (d : Dict StoredPrune) → IsDict d → IsDict (Store.gc ttl now d)
unfolding Store.gc
gc-IsDict ttl now [] h = tt
gc-IsDict ttl now ((j, item) ∷ d) h =
    ground (arith, gc-IsDict ttl now d h.1, has_key-gc ttl now j d h.0)

has_key-assign :
    (j k : String) (v : StoredPrune) (d : Dict StoredPrune)
    → j ≢ k
    → has_key j d ≡ false
    → has_key j (assign k v d) ≡ false
unfolding assign
has_key-assign j k v [] n h = ground (arith, eq_iff k j)
has_key-assign j k v ((i, w) ∷ d) n h = ground (arith, has_key-assign j k v d n)

assign-IsDict :
    (k : String) (v : StoredPrune) (d : Dict StoredPrune) → IsDict d → IsDict (assign k v d)
unfolding assign
assign-IsDict k v [] h = (refl, tt)
assign-IsDict k v ((i, w) ∷ d) h = elim (Bool-cases (i =ₛ k)) [
  | inl p ↦ rw p h
  | inr p ↦ rw p (
    has_key-assign i k v d (λ (e : i ≡ k). ground (arith, eq_iff i k)) h.0,
    assign-IsDict k v d h.1,
  )
]

-- The keys of the store stay distinct, whatever is stored and read.
put-IsDict :
    (s : PruneStore) (now : ℕ) (k : String) (lines : List String)
    → IsDict s.items
    → IsDict (Store.put s now k lines).items
unfolding Store.put
put-IsDict s now k lines h = gc-IsDict s.ttl_s now _ (assign-IsDict k _ s.items h)

live-live :
    (ttl t0 t1 : ℕ) (o : Option StoredPrune) → t0 ≤ t1 → live ttl t1 (live ttl t0 o) ≡ live ttl t1 o
live-live ttl t0 t1 none h = refl
live-live ttl t0 t1 (some item) h = ground arith

get-live :
    (s : PruneStore) (now : ℕ) (j : String)
    → IsDict s.items
    → (Store.get s now j).1 ≡ Store.lines_found (live s.ttl_s now (lookup j s.items))
unfolding Store.get
get-live s now j h = ap Store.lines_found (lookup-gc s.ttl_s now j s.items h)

live-assign :
    (ttl t0 t1 : ℕ) (k j : String) (lines : List String) (d : Dict StoredPrune)
    → t0 ≤ t1
    → Store.lines_found
        (live ttl t1 (lookup j (assign k (record { created_at_s = t0; lines = lines }) d)))
      ≡ (if k =ₛ j
          then if ltb (ttl * second) (t1 - t0) then none else some lines
          else Store.lines_found (live ttl t1 (lookup j d)))
unfolding Store.lines_found
live-assign ttl t0 t1 k j lines d h =
    ground (arith, lookup-assign k j (record { created_at_s = t0; lines = lines }) d)

-- In a store whose keys are distinct, lines that are stored at one time are read back at a later
-- time exactly if no more than the time to live has passed, and the lines of any other key are
-- read as if nothing had been stored.
pub get-put :
    (s : PruneStore) (t0 t1 : ℕ) (k j : String) (lines : List String)
    → IsDict s.items
    → t0 ≤ t1
    → (Store.get (Store.put s t0 k lines) t1 j).1 ≡ (
        if k =ₛ j
        then if ltb (s.ttl_s * second) (t1 - t0) then none else some lines
        else (Store.get s t1 j).1)
unfolding Store.put Store.lines_found
get-put s t0 t1 k j lines h le =
    let ttl = s.ttl_s in
    let d = assign k (record { created_at_s = t0; lines = lines }) s.items in
    rw (get-live s t1 j h) (
      get-live (Store.put s t0 k lines) t1 j (put-IsDict s t0 k lines h)
      ∙ ap (λ o. Store.lines_found (live ttl t1 o))
          (unfold Store.put in lookup-gc ttl t0 j d (assign-IsDict k _ s.items h))
      ∙ ap Store.lines_found (live-live ttl t0 t1 (lookup j d) le)
      ∙ live-assign ttl t0 t1 k j lines s.items le)
