-- ===== src/Database/Usage/Totals.antt =====
-- What a request adds to the tokens of its session.
use kimi_proxy.Base.{
  ℕ, suc, ◌+◌, ◌≤◌, ◌<◌, ◌≡◌, refl, ◌∙◌, String, Bool, some, List, [], ◌∷◌, ◌++◌, All, arith, ◌==◌,
  if◌then◌else◌,
}
use native.Mathlib.Nat.{add-zero, add_assoc}
use kimi_proxy.Base.Tables.{Table, update}
use kimi_proxy.Database.{Database, MetricRow}
use kimi_proxy.Database.Usage
use kimi_proxy.Database.Usage.{
  Tokens, RealTokens, save_metric, new_metric, with_real, real_tokens,
  update_metric_with_real_tokens, input_of, output_of, last_metric_of, get_session_total_tokens,
  get_session_cumulative_tokens, rows_of, sum_from,
}

-- every metric is older, or as old, and has an id that was given
abbrev pub ArePast : ℕ → ℕ → Table MetricRow → Type 0
ArePast now last = All (λ (row : ℕ × MetricRow). (row.0 ≤ last) × (row.1.timestamp ≤ now))

-- the sums, as plain recursions
abbrev pub input_sum : List MetricRow → ℕ
input_sum [] = 0
input_sum (m ∷ ms) = input_of m + input_sum ms

abbrev pub output_sum : List MetricRow → ℕ
output_sum [] = 0
output_sum (m ∷ ms) = output_of m + output_sum ms

abbrev tokens_of : ℕ → ℕ → Tokens
tokens_of i o = record { input_tokens = i; output_tokens = o; total_tokens = i + o }

sum_from-sums :
    (a b : ℕ) (ms : List MetricRow)
    → sum_from a b ms ≡ tokens_of (a + input_sum ms) (b + output_sum ms)
unfolding sum_from
sum_from-sums a b [] = rw (add-zero a, add-zero b) refl
sum_from-sums a b (m ∷ ms) =
    sum_from-sums (a + input_of m) (b + output_of m) ms
    ∙ rw (add_assoc a (input_of m) (input_sum ms), add_assoc b (output_of m) (output_sum ms)) refl

rows_of-snoc :
    (j i : ℕ) (m : MetricRow) (t : Table MetricRow)
    → rows_of j (t ++ (i, m) ∷ []) ≡ rows_of j t ++ (if m.session_id == j then m ∷ [] else [])
unfolding rows_of
rows_of-snoc j i m [] = ground arith
rows_of-snoc j i m ((k, n) ∷ t) = ground (arith, rows_of-snoc j i m t)

latest-snoc :
    (k now last : ℕ) (m : MetricRow) (t : Table MetricRow)
    → m.session_id ≡ k
    → m.timestamp ≡ now
    → ArePast now last t
    → last_metric_of k (t ++ (suc last, m) ∷ []) ≡ some (suc last, m)
unfolding last_metric_of Usage.latest Usage.later
latest-snoc k now last m [] e f h = ground arith
latest-snoc k now last m ((i, n) ∷ t) e f h = ground (arith, latest-snoc k now last m t e f h.1)

update-snoc :
    (now last : ℕ) (f : MetricRow → MetricRow) (m : MetricRow) (t : Table MetricRow)
    → ArePast now last t
    → update (suc last) f (t ++ (suc last, m) ∷ []) ≡ t ++ (suc last, f m) ∷ []
unfolding update
update-snoc now last f m [] h = ground arith
update-snoc now last f m ((i, n) ∷ t) h = ground (arith, update-snoc now last f m t h.1)

-- The totals of a session are those of its last request: the estimate while it runs, and then the
-- numbers of the provider, if these say that there was a prompt.
pub get_session_total_tokens-save_metric :
    (now k tokens percentage : ℕ) (preview : String) (estimated : Bool) (source : String)
    (memory chat share : ℕ) (ratio : ℕ → ℕ → ℕ) (prompt completion total max_context : ℕ)
    (db : Database)
    → ArePast now db.last_metric db.metrics
    → 0 < prompt
    → let (db', id) =
        save_metric now k tokens percentage preview estimated source memory chat share db in
      (get_session_total_tokens k db' ≡ tokens_of tokens 0)
      × (get_session_total_tokens k
            (update_metric_with_real_tokens ratio id prompt completion total max_context db').0
          ≡ tokens_of prompt completion)
unfolding save_metric new_metric update_metric_with_real_tokens with_real real_tokens
    get_session_total_tokens input_of output_of Usage.totals_of
get_session_total_tokens-save_metric now k tokens percentage preview estimated source memory chat
      share ratio prompt completion total max_context db past real =
    let m = new_metric now k tokens percentage preview estimated source memory chat share in
    let r = real_tokens ratio prompt completion total max_context in
    (
      rw (latest-snoc k now db.last_metric m db.metrics refl refl past) refl,
      rw
          (
            update-snoc now db.last_metric (with_real r) m db.metrics past,
            latest-snoc k now db.last_metric (with_real r m) db.metrics refl refl past,
          )
          (ground arith),
    )

input_sum-append : (xs ys : List MetricRow) → input_sum (xs ++ ys) ≡ input_sum xs + input_sum ys
input_sum-append [] ys = omega arith
input_sum-append (m ∷ xs) ys = omega (arith, input_sum-append xs ys)

output_sum-append : (xs ys : List MetricRow) → output_sum (xs ++ ys) ≡ output_sum xs + output_sum ys
output_sum-append [] ys = omega arith
output_sum-append (m ∷ xs) ys = omega (arith, output_sum-append xs ys)

tokens_eq : {a b c d : ℕ} → a ≡ b → c ≡ d → tokens_of a c ≡ tokens_of b d
tokens_eq p q = rw (p, q) refl

get_session_cumulative_tokens-sums :
    (j : ℕ) (db : Database)
    → get_session_cumulative_tokens j db
      ≡ tokens_of (input_sum (rows_of j db.metrics)) (output_sum (rows_of j db.metrics))
unfolding get_session_cumulative_tokens
get_session_cumulative_tokens-sums j db =
    sum_from-sums 0 0 (rows_of j db.metrics) ∙ tokens_eq (omega arith) (omega arith)

-- A request adds its tokens to the input of its session, and nothing to any other session.
pub get_session_cumulative_tokens-save_metric :
    (now k tokens percentage : ℕ) (preview : String) (estimated : Bool) (source : String)
    (memory chat share j : ℕ) (db : Database)
    → let db' =
        (save_metric now k tokens percentage preview estimated source memory chat share db).0 in
      let before = get_session_cumulative_tokens j db in
      get_session_cumulative_tokens j db'
      ≡ tokens_of (before.input_tokens + (if k == j then tokens else 0)) before.output_tokens
unfolding save_metric new_metric input_of output_of
get_session_cumulative_tokens-save_metric now k tokens percentage preview estimated source memory
      chat share j db =
    let m = new_metric now k tokens percentage preview estimated source memory chat share in
    rw
      (
        get_session_cumulative_tokens-sums j db,
        get_session_cumulative_tokens-sums j
            (save_metric now k tokens percentage preview estimated source memory chat share db).0,
        rows_of-snoc j (suc db.last_metric) m db.metrics,
        input_sum-append (rows_of j db.metrics) (if k == j then m ∷ [] else []),
        output_sum-append (rows_of j db.metrics) (if k == j then m ∷ [] else []),
      )
      (tokens_eq (ground arith) (ground arith))
