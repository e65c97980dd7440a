-- ===== src/Demo/Credentials/Private.antt =====
-- Which credentials the processes of the demonstrations are given.
use ai_protocol.Base.{◌≡◌, ◌≢◌}
use ai_protocol.Base.Lists.{All}
use ai_protocol.Base.Text.{codes}
use ai_protocol.Release.Name.{Text, IsIn}
use ai_protocol.Demo.Credentials.{tokens, Environment}

-- The secrets are fresh: they differ from one another, and from a value that is no secret.
pub record AreFresh (secret : Text → Text) : Type 0 where
  pub distinct : (m n : Text) → IsIn m tokens → IsIn n tokens → secret m ≡ secret n → m ≡ n

abbrev pub IsNoSecret : (Text → Text) → Text → Type 0
IsNoSecret secret value = (m : Text) → IsIn m tokens → value ≢ secret m

-- No entry of an environment holds a secret.
abbrev pub HoldsNone : (Text → Text) → Environment → Type 0
HoldsNone secret env = All (λ e. IsNoSecret secret e.1) env

-- The only secret that an environment holds is that of one role, under one name.
abbrev pub HoldsOnly : (Text → Text) → Text → Text → Environment → Type 0
HoldsOnly secret n role env =
    All (λ e. (m : Text) → IsIn m tokens → e.1 ≡ secret m → (e.0 ≡ n) × (m ≡ role)) env

-- What a demonstration puts into an environment beside the secrets.
pub record ArePlain (secret : Text → Text) (path socket origin gateway_port catalog_port : Text)
    : Type 0 where
  pub of_path : IsNoSecret secret path
  pub of_socket : IsNoSecret secret socket
  pub of_origin : IsNoSecret secret origin
  pub of_gateway_port : IsNoSecret secret gateway_port
  pub of_catalog_port : IsNoSecret secret catalog_port
  pub of_one : IsNoSecret secret (codes "1")
  pub of_sixty : IsNoSecret secret (codes "60")
