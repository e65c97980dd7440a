-- ===== src/Demo/Credentials.antt =====
-- The credentials of the demonstrations and the environments of the processes that they start:
-- examples/setup_demo.py, examples/quickstart.py and examples/dynamic_demo.py.
pub mod Private
use ai_protocol.Base.{if◌then◌else◌, ℕ, not, Option, none, some, List, [], ◌∷◌, ◌++◌}
use ai_protocol.Base.Lists.{drop, keep}
use ai_protocol.Base.Text.{codes}
use ai_protocol.Result.{Result, ok, err, system_exit}
use ai_protocol.Json.{str}
use ai_protocol.Release.Name.{Text, eq_text, mem, keys}

-- `TOKENS`; `names` of dynamic_demo.py lists the same.
abbrev pub tokens : List Text
tokens =
    codes "AGENT_TOKEN_1"
    ∷ codes "AGENT_TOKEN_2"
    ∷ codes "PRODUCT_ONLY_TOKEN"
    ∷ codes "INTERACTIVE_TOKEN"
    ∷ codes "OTHER_AGENT_TOKEN"
    ∷ codes "ADMIN_TOKEN"
    ∷ []

abbrev pub agent_token : Text
agent_token = codes "AGENT_TOKEN_1"

-- The environment of a process: the first entry of a name counts, so that `d | e` is `e ++ d`.
abbrev pub Environment : Type 0
Environment = List (Text × Text)

-- `environment.pop(name, None)`
abbrev pub pop : Text → Environment → Environment
pop n env = keep (λ e. not (eq_text n e.0)) env

-- A file: its permissions and what it holds.
pub record File : Type 0 where
  pub mode : ℕ
  pub text : Text

abbrev pub Directory : Type 0
Directory = List (Text × File)

-- `os.open(path, os.O_WRONLY | os.O_CREAT | os.O_EXCL, 0o600)`, and what is written; `none` where
-- the file exists.
abbrev pub create : Text → Text → Directory → Option Directory
create path text files =
    if mem path (keys files)
    then none
    else some ((path, record { mode = 384; text = text }) ∷ files)

-- `f"export {name}={value}\n"`, for each name.
abbrev pub exports : (Text → Text) → List Text → Text
exports value [] = []
exports value (n ∷ ns) = codes "export " ++ (n ++ (61 ∷ (value n ++ (10 ∷ exports value ns))))

-- `main` of setup_demo.py.
unfoldable pub setup : (Text → Text) → Text → Directory → Result Directory
setup secret destination files = elim (create destination (exports secret tokens) files) [
  | none ↦ err (system_exit (str ".env.demo already exists; credentials were not changed"))
  | some after ↦ ok after
]

-- `tokens` of quickstart.py, as entries.
abbrev pub entries_of : (Text → Text) → List Text → Environment
entries_of secret [] = []
entries_of secret (n ∷ ns) = (n, secret n) ∷ entries_of secret ns

module _ (path : Text) where
  -- `base_env`
  abbrev pub base_env : Environment
  base_env = (codes "PATH", path) ∷ (codes "PYTHONUNBUFFERED", codes "1") ∷ []

  unfoldable pub catalog_env : Text → Environment
  catalog_env catalog_port = (codes "CATALOG_PORT", catalog_port) ∷ base_env

  unfoldable pub gateway_env : (Text → Text) → Text → Text → Environment
  gateway_env secret catalog_port gateway_port =
      (codes "CATALOG_PORT", catalog_port)
      ∷ (codes "GATEWAY_PORT", gateway_port)
      ∷ (entries_of secret tokens ++ base_env)

  unfoldable pub dispatcher_env : (Text → Text) → Text → Text → Environment
  dispatcher_env secret origin socket =
      (codes "SERVICE_URL", origin)
      ∷ (codes "DISPATCH_SOCKET", socket)
      ∷ (codes "DISPATCH_TOKEN_VARS", codes "AGENT_TOKEN_1,AGENT_TOKEN_2,PRODUCT_ONLY_TOKEN")
      ∷ (entries_of secret tokens ++ base_env)

  -- The environment of the client with a role.
  unfoldable pub client_env : (Text → Text) → Text → Text → Environment
  client_env secret socket n =
      (codes "AGENT_TOKEN_1", secret n) ∷ (codes "DISPATCH_SOCKET", socket) ∷ base_env

-- The entries of `agent.env`, and its lines, with the value in quotes.
abbrev pub agent_entries : (Text → Text) → Text → Text → Environment
agent_entries secret origin socket =
    (codes "AGENT_TOKEN_1", secret agent_token)
    ∷ (codes "SERVICE_URL", origin)
    ∷ (codes "DISPATCH_SOCKET", socket)
    ∷ []

abbrev pub quoted_exports : Environment → Text
quoted_exports [] = []
quoted_exports ((n, value) ∷ env) =
    codes "export " ++ (n ++ (codes "='" ++ (value ++ (codes "'" ++ (10 ∷ quoted_exports env)))))

unfoldable pub write_agent_file : (Text → Text) → Text → Text → Text → Directory → Option Directory
write_agent_file secret origin socket path files =
    create path (quoted_exports (agent_entries secret origin socket)) files

-- The environment of the gateway of dynamic_demo.py, from the one that is inherited.
unfoldable pub demo_environment : (Text → Text) → Text → Text → Environment → Environment
demo_environment secret gateway_port catalog_port inherited =
    (codes "GATEWAY_PORT", gateway_port)
    ∷ (codes "CATALOG_PORT", catalog_port)
    ∷ (entries_of secret tokens ++ pop (codes "TEST_429") (pop (codes "OPENAI_API_KEY") inherited))

-- `for name in names[1:]: client_environment.pop(name, None)`
abbrev pub pop_all : List Text → Environment → Environment
pop_all [] env = env
pop_all (n ∷ ns) env = pop_all ns (pop n env)

-- The environment of the load client of dynamic_demo.py.
unfoldable pub load_environment : Environment → Environment
load_environment environment =
    (codes "LOAD_AGENT_TASKS", codes "60")
    ∷ (codes "LOAD_DEADLINE_SECS", codes "60")
    ∷ pop_all (drop 1 tokens) environment
