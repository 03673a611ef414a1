-- ===== src/Examples/Streaming.antt =====
-- `exec_streaming` of crates/rustbox-vm/src/agent_client.rs on concrete messages. The codec prints
-- an exit message as the empty object and output as its own bytes behind a tag.
use rustbox.Prelude.{ℕ, Text, codes, List, [], ◌∷◌, Result, ok, err, ◌≡◌, refl, zero, suc, subst}
use rustbox.Prelude.Int.{pos}
use rustbox.Core.Protocol.{AgentRequest, AgentResponse, OutputStream}
use rustbox.Wire.Frame.{Codec}

abbrev pings : Codec AgentRequest
pings = record { to_vec = λ request. ok (codes "ping"); from_slice = λ bytes. ok AgentRequest.ping }

-- What the agent prints: output under the empty identifier, and the exit.
print : AgentResponse → Result Text (List ℕ)
print (AgentResponse.output [] OutputStream.stdout bytes) = ok (1 ∷ bytes)
print (AgentResponse.exec_done id (pos n)) = ok (0 ∷ n ∷ id)
print _ = err (codes "unknown")

parse : List ℕ → Result Text AgentResponse
parse (zero ∷ n ∷ id) = ok (AgentResponse.exec_done id (pos n))
parse (suc zero ∷ bytes) = ok (AgentResponse.output [] OutputStream.stdout bytes)
parse _ = err (codes "unknown")

abbrev exits : Codec AgentResponse
exits = record { to_vec = print; from_slice = parse }

exits_compatible :
    (a : AgentResponse) (payload : List ℕ) → print a ≡ ok payload → parse payload ≡ ok a
unfolding print parse
exits_compatible (AgentResponse.output [] OutputStream.stdout bytes) payload e =
    let same : 1 ∷ bytes ≡ payload = cc in
    subst (λ p. parse p ≡ ok (AgentResponse.output [] OutputStream.stdout bytes)) same refl
exits_compatible (AgentResponse.exec_done id (pos n)) payload e =
    let same : 0 ∷ n ∷ id ≡ payload = cc in
    subst (λ p. parse p ≡ ok (AgentResponse.exec_done id (pos n))) same refl
exits_compatible _ payload e = absurd cc

abbrev decimal : ℕ → Text
decimal n = n ∷ []

abbrev chunks : List (OutputStream × List ℕ)
chunks = (OutputStream.stdout, codes "hi") ∷ []
