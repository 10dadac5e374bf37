-- ===== src/Compaction/Reserved.antt =====
-- What `get_context_with_reserved` gives back.
use kimi_proxy.Base.{
  bind-some, ℕ, ◌≡◌, Option, some, List, arith, sub_ℕ, leb_ℤ, pos, Bool, true, false, none, ◌>>=◌,
  subst, if◌then◌else◌,
}
use kimi_proxy.Json.{Fields}
use kimi_proxy.Python.{Python}
use kimi_proxy.Tokens.{count_tokens_tiktoken}
use kimi_proxy.Compaction
use kimi_proxy.Compaction.{
  CompactionConfig, Advice, fits_in_context, get_context_with_reserved, compact,
}

-- the advice that fits is given exactly if the tokens fit
abbrev pub is_fitting : Advice → Bool
is_fitting (fits_in_context _ _ _) = true
is_fitting _ = false

module _ (py : Python) (config : CompactionConfig) (messages : List Fields)
    (size reserved : ℕ) where
  advise-is_fitting :
      (tokens : ℕ) (r : Compaction.CompactionResult)
      → is_fitting (Compaction.advise tokens (sub_ℕ size reserved) r) ≡ false
  unfolding Compaction.advise
  advise-is_fitting tokens r = ground arith

  answer : ℕ → Bool → Option (List Fields × Advice)
  answer tokens fits =
      if fits
      then some (messages, fits_in_context tokens (sub_ℕ size reserved) reserved)
      else compact py config messages 0 none
        >>= (λ r. some (messages, Compaction.advise tokens (sub_ℕ size reserved) r))

  answer-unchanged :
      (tokens : ℕ) (fits : Bool) (out : List Fields) (a : Advice)
      → answer tokens fits ≡ some (out, a)
      → (out ≡ messages) × (is_fitting a ≡ fits)
  unfolding answer
  answer-unchanged tokens true out a h = (ground arith, ground arith)
  answer-unchanged tokens false out a h =
      let (r, _, k) =
        bind-some (compact py config messages 0 none)
          (λ r. some (messages, Compaction.advise tokens (sub_ℕ size reserved) r)) (out, a) h in
      (ground arith, ground (arith, advise-is_fitting tokens r))

  -- Also where a compaction is advised, the messages come back unchanged, and the answer says that
  -- they fit exactly if their tokens are at most the size without the reserve.
  pub get_context_with_reserved_unchanged :
      (tokens : ℕ) (out : List Fields) (a : Advice)
      → count_tokens_tiktoken py messages ≡ some tokens
      → get_context_with_reserved py config messages size reserved ≡ some (out, a)
      → (out ≡ messages) × (is_fitting a ≡ leb_ℤ (pos tokens) (sub_ℕ size reserved))
  unfolding get_context_with_reserved answer
  get_context_with_reserved_unchanged tokens out a c h =
      answer-unchanged tokens (leb_ℤ (pos tokens) (sub_ℕ size reserved)) out a (
        subst (λ o. (o >>= (λ t. answer t (leb_ℤ (pos t) (sub_ℕ size reserved)))) ≡ some (out, a)) c
          h)
