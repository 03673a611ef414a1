-- ===== src/Examples/Agent.antt =====
-- The agent of crates/rustbox-agent/src on a guest whose every process prints "hi" and a warning and
-- then exits with 3.
use rustbox.Prelude.{
  ℕ, Text, codes, List, [], ◌∷◌, ◌++◌, zero, suc, true, false, none, some, Result, ok, err, ◌≡◌,
  refl, arith, subst, All,
}
use rustbox.Prelude.{text_eq, Option, strip_prefix, starts_with}
use rustbox.Prelude.Dict
use rustbox.Prelude.Int.{pos}
use rustbox.Core.Command.{CommandRequest, CommandOutput}
use rustbox.Core.Protocol.{AgentRequest, AgentResponse, OutputStream}
use rustbox.Network.Proxy.Request
use rustbox.Vm.AgentClient.{AgentTransport, Sockets, connect_line, ask}
use rustbox.Vm.AgentClient.Served.{conversation_on, IsServed, ask-handle_request}
use rustbox.Wire.Stream.{Reader, to_be_bytes}
use rustbox.Wire.Frame.{Codec}
use rustbox.Wire.Frame.RoundTrip.{sound}
use rustbox.Wire.Frame.Sequence.{Fits}
use rustbox.Agent.Guest.{Guest}
use rustbox.Agent.Executor.{
  CommandExecutor, spawn_command, track, run_task, collect_exit, stream_output,
}
use rustbox.Agent.Handler.{handle_request}
use rustbox.Agent.Connection.{handle_connection}
use rustbox.Agent.Connection.Serving.{handle_connection-handle_all}
use rustbox.Agent.Delivery.{IsDelivered, last_from, exec-IsDelivered}
use rustbox.Agent.Executor.Outputs.{bytes_of}

-- The state counts the identifiers.
abbrev guest : Guest ℕ
guest = record {
  now_v7 = λ n. (n ∷ [], n);
  spawn = λ command n. (ok (record { id = some 40 }), n);
  reads = λ child n. (
    (OutputStream.stdout, ok (codes "h"))
        ∷ (OutputStream.stderr, ok (codes "!"))
        ∷ (OutputStream.stderr, ok [])
        ∷ (OutputStream.stdout, ok (codes "i"))
        ∷ (OutputStream.stdout, ok [])
        ∷ [],
    n,
  );
  wait = λ child n. (ok (some (pos 3)), n);
  try_from = λ signal. ok 9;
  kill = λ pid signal n. (ok tt, n);
  parent = λ path. none;
  create_dir_all = λ path n. (ok tt, n);
  write = λ path content n. (ok tt, n);
  read = λ path n. (err (codes "not found"), n);
  decimal = λ n. [];
}

abbrev executor : CommandExecutor ℕ
executor = record { children = []; guest = 0 }

abbrev hi : CommandRequest
hi = record { cmd = codes "hi"; args = []; cwd = none; env = none; sudo = false; detached = false }

abbrev requests : Codec AgentRequest
requests = record {
  to_vec = λ request. ok (codes "ping");
  from_slice = λ bytes. ok AgentRequest.ping;
}

print : AgentResponse → Result Text (List ℕ)
print (AgentResponse.output id OutputStream.stdout (b ∷ [])) = ok (1 ∷ b ∷ id)
print (AgentResponse.output id OutputStream.stderr (b ∷ [])) = ok (2 ∷ b ∷ id)
print (AgentResponse.exec_done id (pos n)) = ok (0 ∷ n ∷ id)
print (AgentResponse.exec_started id) = ok (3 ∷ id)
print _ = err (codes "unknown")

parse : List ℕ → Result Text AgentResponse
parse (zero ∷ n ∷ id) = ok (AgentResponse.exec_done id (pos n))
parse (suc zero ∷ b ∷ id) = ok (AgentResponse.output id OutputStream.stdout (b ∷ []))
parse (suc (suc zero) ∷ b ∷ id) = ok (AgentResponse.output id OutputStream.stderr (b ∷ []))
parse (suc (suc (suc zero)) ∷ id) = ok (AgentResponse.exec_started id)
parse _ = err (codes "unknown")

abbrev responses : Codec AgentResponse
responses = record { to_vec = print; from_slice = parse }

abbrev decimal : ℕ → Text
decimal n = n ∷ []

compatible : (a : AgentResponse) (payload : List ℕ) → print a ≡ ok payload → parse payload ≡ ok a
unfolding print parse
compatible (AgentResponse.output id OutputStream.stdout (b ∷ [])) payload e =
    let same : 1 ∷ b ∷ id ≡ payload = cc in
    subst (λ p. parse p ≡ ok (AgentResponse.output id OutputStream.stdout (b ∷ []))) same refl
compatible (AgentResponse.output id OutputStream.stderr (b ∷ [])) payload e =
    let same : 2 ∷ b ∷ id ≡ payload = cc in
    subst (λ p. parse p ≡ ok (AgentResponse.output id OutputStream.stderr (b ∷ []))) same refl
compatible (AgentResponse.exec_done id (pos n)) payload e =
    let same : 0 ∷ n ∷ id ≡ payload = cc in
    subst (λ p. parse p ≡ ok (AgentResponse.exec_done id (pos n))) same refl
compatible (AgentResponse.exec_started id) payload e =
    let same : 3 ∷ id ≡ payload = cc in
    subst (λ p. parse p ≡ ok (AgentResponse.exec_started id)) same refl
compatible _ payload e = absurd cc

unfoldable fits : All (Fits responses) (handle_request guest (AgentRequest.exec hi) executor).0
unfolding print handle_request spawn_command track run_task collect_exit stream_output Dict.get
    Dict.insert text_eq
fits = (
  (3 ∷ 0 ∷ [], refl, omega arith),
  (
    (1 ∷ 104 ∷ 0 ∷ [], refl, omega arith),
    (
      (2 ∷ 33 ∷ 0 ∷ [], refl, omega arith),
      ((1 ∷ 105 ∷ 0 ∷ [], refl, omega arith), ((0 ∷ 3 ∷ 0 ∷ [], refl, omega arith), tt)),
    ),
  ),
)

exec-IsDelivered_example :
    (outs : List CommandOutput) × IsDelivered requests responses responses
      (codes "eof")
      decimal
      []
      none
      200
      (handle_request guest (AgentRequest.exec hi) executor).0
      fits
      outs
    × (last_from (CommandOutput.stdout []) outs ≡ CommandOutput.exit (pos 3))
    × (bytes_of OutputStream.stdout outs ≡ codes "hi")
    × (bytes_of OutputStream.stderr outs ≡ codes "!")
unfolding fits to_be_bytes handle_request spawn_command track run_task collect_exit stream_output
    Dict.get Dict.insert text_eq
exec-IsDelivered_example =
    exec-IsDelivered requests responses responses (codes "eof") decimal compatible [] none guest hi
      executor (record { id = some 40 }) 0 refl refl 200 fits (omega arith)

-- Requests that are all pings, and answers that are all printed as "pong".
to_ping : AgentRequest → Result Text (List ℕ)
to_ping AgentRequest.ping = ok (codes "ping")
to_ping _ = err (codes "unknown")

to_ping_compatible :
    (a : AgentRequest) (payload : List ℕ)
    → to_ping a ≡ ok payload
    → requests.from_slice payload ≡ ok a
unfolding to_ping
to_ping_compatible AgentRequest.ping payload e = refl
to_ping_compatible _ payload e = absurd cc

abbrev pings : Codec AgentRequest
pings = record { to_vec = to_ping; from_slice = λ bytes. ok AgentRequest.ping }

abbrev pongs : Codec AgentResponse
pongs = record {
  to_vec = λ response. ok (codes "pong");
  from_slice = λ bytes. ok AgentResponse.pong;
}

handle_connection-handle_all_example :
    handle_connection guest requests pongs 100 (record {
      reader = record {
        bytes = to_be_bytes 4 ++ codes "ping" ++ (to_be_bytes 4 ++ codes "ping" ++ []);
        fault = none;
      };
      writer = sound [];
      executor = executor;
    })
    ≡ (
      some (ok tt),
      record {
        reader = record { bytes = []; fault = none };
        writer = sound (to_be_bytes 4 ++ codes "pong" ++ (to_be_bytes 4 ++ codes "pong" ++ []));
        executor = executor;
      },
    )
unfolding to_ping to_be_bytes handle_request
handle_connection-handle_all_example =
    handle_connection-handle_all guest pings requests pongs (λ response. codes "pong")
      (λ response. refl) to_ping_compatible 100 (AgentRequest.ping ∷ AgentRequest.ping ∷ [])
      ((codes "ping", refl, omega arith), ((codes "ping", refl, omega arith), tt)) [] executor
      (omega arith)

-- Sockets behind which the agent handles what is written to vsock port 5123.
abbrev reply_to : Option (List ℕ) → CommandExecutor ℕ → Reader × CommandExecutor ℕ
reply_to none ex = (record { bytes = []; fault = none }, ex)
reply_to (some []) ex = (record { bytes = codes "OK 5123\n"; fault = none }, ex)
reply_to (some (b ∷ bytes)) ex =
    let done = conversation_on guest requests pongs (λ ex. ex) (b ∷ bytes) ex in
    (record { bytes = done.writer.written; fault = none }, done.executor)

abbrev sockets : Sockets (CommandExecutor ℕ)
sockets = record {
  connect = λ transport ex. (ok (sound []), ex);
  answer = λ transport bytes ex. reply_to (strip_prefix (connect_line 5123) bytes) ex;
  read_line = λ r. (ok r.bytes, record { bytes = []; fault = none });
  eof = codes "eof";
  requests = pings;
  responses = pongs;
}

served :
    IsServed guest requests pongs
      (λ ex. ex)
      sockets
      (AgentTransport.vsock (codes "/run/box.vsock") 5123)
unfolding strip_prefix starts_with Request.decimal
served = record {
  opened = λ ex. refl;
  greeted = λ uds_path guest_port ex same.
      let e : 5123 ≡ guest_port = cc in
      subst
        (λ port.
          let reply = reply_to (strip_prefix (connect_line 5123) (connect_line port)) ex in
          (line : Text) × ((sockets.read_line reply.0).0 ≡ ok line)
          × (starts_with (codes "OK") line ≡ true)
          × (reply.1 ≡ ex))
        e (codes "OK 5123\n", refl, refl, refl);
  handled = λ b bytes ex. (refl, refl);
}

ask-handle_request_example :
    let transport = AgentTransport.vsock (codes "/run/box.vsock") 5123 in
    ((ask sockets transport AgentRequest.ping executor).0 ≡ ok AgentResponse.pong)
    × ((ask sockets transport AgentRequest.ping executor).1 ≡ executor)
unfolding handle_request to_ping
ask-handle_request_example =
    ask-handle_request guest requests pongs (λ ex. ex) sockets
      (AgentTransport.vsock (codes "/run/box.vsock") 5123) served to_ping_compatible
      (λ response. codes "pong") (λ response. refl) AgentRequest.ping
      (codes "ping", refl, omega arith) executor AgentResponse.pong [] refl (omega arith) refl
