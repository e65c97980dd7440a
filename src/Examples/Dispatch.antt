-- ===== src/Examples/Dispatch.antt =====
-- The connector at work: a reply that stays away, and one that cannot be parsed.
use ai_protocol.Base.{◌≡◌, refl, true, none, [], ◌∷◌, ◌++◌}
use ai_protocol.Base.Int.{pos, ◌+ℤ◌}
use ai_protocol.Base.Text.{codes}
use ai_protocol.Result.{other_error, ok, err}
use ai_protocol.Json.{str}
use ai_protocol.Regex.{fullmatch}
use ai_protocol.Dispatcher.{
  Peer, silent, line, read_reply, Exchange, lost_reply, exchange, finite, call_until, call,
}
use ai_protocol.Examples.Data.{dicts_only, no_params, plain_bytes, any_instance}

abbrev handed_over : Exchange
handed_over =
    call dicts_only any_instance plain_bytes "id" "token" (str "echo") no_params (finite (pos 5000))
      none (pos 0) (pos 0) (pos 1) silent

-- It returns, with one payload written.
handed_over_lost : handed_over ≡ (ok lost_reply, (codes "{}" ++ 10 ∷ []) ∷ [])
unfolding fullmatch call call_until exchange ◌+ℤ◌
handed_over_lost = refl

-- A line nested too deeply for the parser.
abbrev nested : Peer
nested =
    line (record { size = 60001; terminated = true; parsed = err (other_error "RecursionError") })

abbrev broken_off : Exchange
broken_off =
    call dicts_only any_instance plain_bytes "id" "token" (str "echo") no_params (finite (pos 5000))
      none (pos 0) (pos 0) (pos 1) nested

recursion_escapes : broken_off.0 ≡ err (other_error "RecursionError")
unfolding fullmatch call call_until exchange read_reply ◌+ℤ◌
recursion_escapes = refl
