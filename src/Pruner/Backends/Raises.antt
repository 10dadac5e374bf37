-- ===== src/Pruner/Backends/Raises.antt =====
-- DeepInfra without its key.
use kimi_proxy.Base.{
  ℕ, String, true, Option, none, some, List, [], ◌∷◌, ◌>>=◌, ◌≡◌, refl, arith, elem, ◌=ₛ◌,
  Bool-cases, inl, inr, or_else, eq_iff,
}
use kimi_proxy.Base.Text.{strip}
use kimi_proxy.Config.Sections.{McpPrunerBackendConfig}
use kimi_proxy.Pruner.Target.{Rounding}
use kimi_proxy.Pruner.Backends.{Services, Pass, get_deepinfra_client_config, run_backends}
use kimi_proxy.Pruner.Backends

bind-none :
    {A B : Type 0} (o : Option A) (f : A → Option B) → ((a : A) → f a ≡ none) → (o >>= f) ≡ none
bind-none none f h = refl
bind-none (some a) f h = h a

module _ (fl : Rounding) (sv : Services) (toml_cfg : McpPrunerBackendConfig)
    (default_endpoint_url : String) (lines : List String) (goal_hint : String)
    (keep_target : ℕ) where
  run_backend_raises :
      (b : String) (p : Pass)
      → strip (or_else (sv.env "DEEPINFRA_API_KEY") "") ≡ ""
      → (b =ₛ "deepinfra") ≡ true
      → Backends.run_backend fl sv toml_cfg default_endpoint_url lines goal_hint keep_target b p
        ≡ none
  unfolding Backends.run_backend get_deepinfra_client_config
  run_backend_raises b p h e = rw ((eq_iff b "deepinfra").0 e, h) refl

  -- Where DeepInfra is one of the backends and its key is missing or blank, running the
  -- backends raises, whatever the others have kept.
  pub run_backends_raises :
      (backends : List String) (p : Pass)
      → strip (or_else (sv.env "DEEPINFRA_API_KEY") "") ≡ ""
      → elem "deepinfra" backends ≡ true
      → run_backends fl sv toml_cfg default_endpoint_url lines goal_hint keep_target backends p
        ≡ none
  unfolding run_backends elem
  run_backends_raises [] p h e = cc
  run_backends_raises (b ∷ bs) p h e = elim (Bool-cases (b =ₛ "deepinfra")) [
    | inl q ↦ rw (run_backend_raises b p h q) refl
    | inr q ↦
        bind-none
          (Backends.run_backend fl sv toml_cfg default_endpoint_url lines goal_hint keep_target b p)
          (run_backends fl sv toml_cfg default_endpoint_url lines goal_hint keep_target bs)
          (λ p'. run_backends_raises bs p' h (ground arith))
  ]
