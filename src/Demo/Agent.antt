-- ===== src/Demo/Agent.antt =====
-- examples/llm_client.py: a language model chooses an operation, and the client executes it. What the
-- model answers and how its arguments are read, `json.loads`, are arguments.
pub mod Choice
pub mod Asks
use ai_protocol.Base.{String, List}
use ai_protocol.Result.{Result}
use ai_protocol.Json.{Json, elements}
use ai_protocol.Http.{Jsonschema, Answer}
use ai_protocol.World.{Action, World, lift, ◌>>=◌}
use ai_protocol.Protocol.Discover.{discover}
use ai_protocol.Protocol.Execute.{Event, Surroundings, execute}
use ai_protocol.Demo.Agent.Choice.{Tool, Output, choose}

-- `main`, given what the request for the policy ended in.
unfoldable pub main :
    Surroundings
    → Jsonschema
    → (List Tool → Result (List Output))
    → (String → Result Json)
    → Answer
    → Action (World Event) Json
main env js decide loads policy = do
  operations ← lift (discover js policy)
  chosen ← lift (choose decide loads (elements operations))
  execute env js chosen.0 chosen.1 120000
