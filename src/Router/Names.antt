-- ===== src/Router/Names.antt =====
-- The names and the addresses that the router gives.
use kimi_proxy.Base.{
  String, ◌≡◌, refl, sym, ap, ◌∙◌, subst, Bool, true, false, not, ◌&&◌, Option, none, some, or_else,
  [], ◌∷◌, Dict, lookup, arith, ◌=ₛ◌, eq_refl, Option-cases, inl, inr, if◌then◌else◌,
}
use kimi_proxy.Base.Text.{contains, rstrip_slash, contains-rstrip_slash}
use kimi_proxy.Router
use kimi_proxy.Router.{
  Session, Provider, Model, get_target_url_for_session, map_model_name, kimi_url,
}

-- the text holds neither of the two addresses that the code tests for
abbrev pub IsElsewhere : String → Type 0
IsElsewhere url = (contains "127.0.0.1:8000" url ≡ false) × (contains "localhost:8000" url ≡ false)

kimi_url-IsElsewhere : IsElsewhere kimi_url
unfolding contains
kimi_url-IsElsewhere = (refl, refl)

IsElsewhere-if :
    (b : Bool) (url : String)
    → (b ≡ true → IsElsewhere url)
    → IsElsewhere (if b then rstrip_slash url else kimi_url)
IsElsewhere-if false url h = kimi_url-IsElsewhere
IsElsewhere-if true url h =
    (contains-rstrip_slash _ url (h refl).0, contains-rstrip_slash _ url (h refl).1)

IsElsewhere-target :
    (url : String)
    → IsElsewhere (
        if not (url =ₛ "")
          && not (contains "127.0.0.1:8000" url)
          && not (contains "localhost:8000" url)
        then rstrip_slash url
        else kimi_url)
IsElsewhere-target url = IsElsewhere-if _ url (λ e. (ground arith, ground arith))

-- The target of a request holds neither `127.0.0.1:8000` nor `localhost:8000`, whatever the
-- configuration.
pub get_target_url_for_session-IsElsewhere :
    (s : Option Session) (providers : Dict Provider)
    → IsElsewhere (get_target_url_for_session s providers)
unfolding get_target_url_for_session
get_target_url_for_session-IsElsewhere none providers = kimi_url-IsElsewhere
get_target_url_for_session-IsElsewhere (some s) providers =
    IsElsewhere-target
      (Router.base_url_of (lookup (or_else s.provider Router.default_provider) providers))

is_upstream-lookup :
    (name n : String) (m : Model) (models : Dict Model)
    → lookup name models ≡ some m
    → m.model ≡ some n
    → Router.is_upstream n models ≡ true
unfolding lookup Router.is_upstream Router.has_provider
is_upstream-lookup name n m [] h k = ground arith
is_upstream-lookup name n m ((j, w) ∷ ms) h k =
    ground (arith, is_upstream-lookup name n m ms, eq_refl n)

map_unknown-upstream :
    (name n : String) (m : Model) (models : Dict Model)
    → lookup name models ≡ some m
    → m.model ≡ some n
    → Router.map_unknown n models ≡ n
unfolding Router.map_unknown
map_unknown-upstream name n m models h k = rw (is_upstream-lookup name n m models h k) refl

map_model_name-key :
    (name : String) (m : Model) (models : Dict Model)
    → lookup name models ≡ some m
    → map_model_name name models ≡ or_else m.model name
unfolding map_model_name Router.map_found
map_model_name-key name m models h = rw h refl

map_model_name-no_key :
    (name : String) (models : Dict Model)
    → lookup name models ≡ none
    → map_model_name name models ≡ Router.map_unknown name models
unfolding map_model_name Router.map_found
map_model_name-no_key name models h = rw h refl

-- The name of a configured model is mapped once and for all: where its key is mapped to a name that
-- is no key itself, that name is mapped to itself.
pub map_model_name-again :
    (name : String) (m : Model) (models : Dict Model)
    → lookup name models ≡ some m
    → lookup (map_model_name name models) models ≡ none
    → map_model_name (map_model_name name models) models ≡ map_model_name name models
map_model_name-again name m models h k = elim (Option-cases m.model) [
  | inl p ↦ ground (arith, map_model_name-key name m models h)
  | inr (n, p) ↦
      let e = map_model_name-key name m models h ∙ ap (λ o. or_else o name) p in
      ap (λ t. map_model_name t models) e
      ∙ map_model_name-no_key n models (subst (λ t. lookup t models ≡ none) e k)
      ∙ map_unknown-upstream name n m models h p
      ∙ sym e
]
