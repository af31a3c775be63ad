-- ===== src/Programs/Wiring.antt =====
-- cmd/baseline/main.go: the configuration, the embedder that it builds, and the column of the vectors.
use baseline.Embed.Width.{embedder_of-has_width}
use baseline.Embed.{Client, embedder_of, new_client}
use baseline.Facts.Repo.{has_width}
use baseline.HttpClient.{Transport}
use baseline.Platform.Closed.{load-Complete}
use baseline.Platform.{Config, Env, load, env_or}
use baseline.Prelude.{
  ℕ, ◌≡◌, refl, ◌∙◌, sym, ap, Option, some, List, [], text_eq, Text, text, true, arith, inl, ℤ,
  nat_eq, ℕ_discrete, Text-discrete, pos_part,
}
use baseline.Programs.{build_embedder}
use baseline.Server.Respond.{atoi, scan_uint}

default_dims :
    (env : Env)
    → env (text "EMBEDDER_DIMS") ≡ []
    → env_or env (text "EMBEDDER_DIMS") (text "768") ≡ text "768"
unfolding env_or Text-discrete
default_dims env h = rw h refl

atoi_default : atoi (text "768") ≡ (ℤ.pos 768, true)
unfolding atoi scan_uint ℕ_discrete
atoi_default = refl

built-dims :
    (send : Transport) (decode : Text → Option (List ℕ)) (cfg : Config) (client : Client)
    → build_embedder send decode cfg ≡ some client
    → client.dims ≡ cfg.embedder_dims
unfolding build_embedder new_client
built-dims send decode cfg client h = ground arith

-- Where a configuration is loaded with the number of dimensions not set, the embedder that the program
-- builds of it, if it builds one, never hands on a vector that the column of the facts would refuse.
pub build_embedder-has_width :
    (env : Env) (cfg : Config) (send : Transport) (decode : Text → Option (List ℕ))
    (client : Client) (prompt : Text)
    → load env ≡ inl cfg
    → env (text "EMBEDDER_DIMS") ≡ []
    → build_embedder send decode cfg ≡ some client
    → has_width (embedder_of client prompt) ≡ true
build_embedder-has_width env cfg send decode client prompt loaded unset built =
    embedder_of-has_width client prompt (
      built-dims send decode cfg client built
      ∙ ap (λ r. pos_part r.0)
          (sym (load-Complete env cfg loaded).dims_read
            ∙ ap atoi (default_dims env unset)
            ∙ atoi_default))
