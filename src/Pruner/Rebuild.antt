-- ===== src/Pruner/Rebuild.antt =====
-- `_reconstruct_pruned_text` (deepinfra_engine.py): the kept lines and the markers of what is left
-- out. The set of kept lines is its ascending list, and the output is a list of lines.
pub mod Layout
use Prim.Native.Char.{code}
use kimi_proxy.Base.{
  ℕ, zero, suc, ◌+◌, ◌-◌, ◌≤◌, String, count, ◌<>◌, Bool, true, false, ◌&&◌, ◌||◌, Option, none,
  some, List, [], ◌∷◌, ◌++◌, length, get_elem?, leb, ltb, ◌==◌, ◌>>=◌, if◌then◌else◌,
}
use kimi_proxy.Base.Text.{decimal, join}

-- `[A-Za-z0-9_]`
is_word : ℕ → Bool
is_word c = (leb 65 c && leb c 90) || (leb 97 c && leb c 122) || (leb 48 c && leb c 57) || (c == 95)

long_run : String → Option String
long_run run = if leb 4 (count run) then some run else none

-- The first match of `[A-Za-z0-9_]{4,}`, which takes the whole of a run. `run` is the part that is
-- read of the current one.
first_run : String → String → Option String
unfolding is_word long_run
first_run run String.[] = long_run run
first_run run (String.◌∷◌ c s) =
    let found = long_run run in
    let skip = first_run "" s in
    let grow = first_run (run <> String.◌∷◌ c "") s in
    if is_word (code c) then grow else (elim found [ none ↦ skip | some w ↦ some w ])

unfoldable pub first_keyword : (String → String) → String → Option String
unfolding first_run
first_keyword lower text = first_run "" (lower text)

reason_of : Option String → String
reason_of none = "hors focus"
reason_of (some keyword) = "hors focus: " <> keyword

unfoldable pub prune_reason : (String → String) → String → String
unfolding reason_of first_keyword
prune_reason lower goal_hint = reason_of (first_keyword lower goal_hint)

unfoldable pub marker_text : String → ℕ → ℕ → ℕ → String → String
marker_text prune_id start_line end_line n reason =
    "⟦PRUNÉ: prune_id="
    <> (prune_id
        <> (" lignes "
            <> (decimal start_line
                <> ("-"
                    <> (decimal end_line
                        <> (" (" <> (decimal n <> (") raison=" <> (reason <> "⟧")))))))))

-- the dict of an annotation, whose "kind" is always "pruned_block"
pub record Annotation : Type 0 where
  pub original_start_line : ℕ
  pub original_end_line : ℕ
  pub pruned_line_count : ℕ
  pub reason : String
  pub marker : String

-- `out_lines` and `annotations`
pub record Output : Type 0 where
  pub out_lines : List String
  pub annotations : List Annotation

pub record Options : Type 0 where
  pub prune_id : String
  pub reason : String
  pub annotate_lines : Bool
  pub include_markers : Bool

module _ (o : Options) (lines : List String) where
  unfoldable pub kept_text : ℕ → String → String
  kept_text i content = if o.annotate_lines then decimal (i + 1) <> ("│ " <> content) else content

  -- `lines[i]` raises past the end
  emit_content : ℕ → Option String → Output → Option Output
  emit_content i none out = none
  emit_content i (some content) out =
      some (record out { out_lines = out.out_lines ++ kept_text i content ∷ [] })

  emit_kept : ℕ → Output → Option Output
  unfolding emit_content
  emit_kept i out = emit_content i (get_elem? lines i) out

  unfoldable pub annotation : ℕ → ℕ → Annotation
  annotation start_idx end_idx =
      let pruned_count = end_idx + 1 - start_idx in
      record {
        original_start_line = start_idx + 1;
        original_end_line = end_idx + 1;
        pruned_line_count = pruned_count;
        reason = o.reason;
        marker = marker_text o.prune_id (start_idx + 1) (end_idx + 1) pruned_count o.reason;
      }

  -- The block of the lines before `stop`, so that an empty text, whose last index is -1, emits none.
  emit_pruned_block : ℕ → ℕ → Output → Output
  emit_pruned_block start_idx zero out = out
  emit_pruned_block start_idx (suc end_idx) out = if ltb end_idx start_idx then out else record {
    out_lines =
        if o.include_markers
        then out.out_lines ++ (annotation start_idx end_idx).marker ∷ []
        else out.out_lines;
    annotations = out.annotations ++ annotation start_idx end_idx ∷ [];
  }

  -- The loop over `kept_sorted`; `next` is `last_kept + 1`.
  emit_all : ℕ → List ℕ → Output → Option Output
  unfolding emit_kept emit_pruned_block
  emit_all next [] out =
      some (if ltb next (length lines) then emit_pruned_block next (length lines) out else out)
  emit_all next (k ∷ ks) out =
      let before = if ltb next k then emit_pruned_block next k out else out in
      emit_kept k before >>= λ out'. emit_all (suc k) ks out'

  unfoldable pub reconstruct_lines : List ℕ → Option Output
  unfolding emit_all
  reconstruct_lines [] =
      some (emit_pruned_block 0 (length lines) (record { out_lines = []; annotations = [] }))
  reconstruct_lines (k ∷ ks) = emit_all 0 (k ∷ ks) (record { out_lines = []; annotations = [] })

  text_of : Option Output → Option (String × List Annotation)
  text_of none = none
  text_of (some out) = some (join "\n" out.out_lines, out.annotations)

  unfoldable pub reconstruct_pruned_text : List ℕ → Option (String × List Annotation)
  unfolding text_of reconstruct_lines
  reconstruct_pruned_text keep_set = text_of (reconstruct_lines keep_set)
