-- ===== src/Transport/Peers.antt =====
-- pkg/transport/server.go and pkg/transport/client.go: an acceptor behind a server, and the client
-- that is a proposer's peer. What the connection does is a parameter.
use interactive_paxos.Prelude.{Option, Result, ok, err, Error, ◌≡◌, refl, ap, ◌∙◌}
use interactive_paxos.Messages.{PrepareRequest, PrepareResponse, AcceptRequest, AcceptResponse}
use interactive_paxos.Store.{Store}
use interactive_paxos.Acceptor
use interactive_paxos.Acceptor.{Acceptor}
use interactive_paxos.Transport.{
  ProtoPrepareRequest, ProtoPrepareResponse, ProtoAcceptRequest, ProtoAcceptResponse,
  prepare_request_to_proto, prepare_request_from_proto, prepare_response_to_proto,
  prepare_response_from_proto, accept_request_to_proto, accept_request_from_proto,
  accept_response_to_proto, accept_response_from_proto, prepare_request-round_trip,
  prepare_response-round_trip, accept_request-round_trip, accept_response-round_trip,
}

abbrev pub map_result : {A B : Type 0} → (A → B) → Result A → Result B
map_result f (ok a) = ok (f a)
map_result f (err e) = err e

module _ {S : Type 0} (ops : Store S) where
  -- `service.Prepare`
  unfoldable pub service_prepare :
      Option ProtoPrepareRequest → Acceptor S → Result (Option ProtoPrepareResponse) × Acceptor S
  service_prepare req a =
      let (r, a') = Acceptor.prepare ops a (prepare_request_from_proto req) in
      (map_result prepare_response_to_proto r, a')

  -- `service.Accept`
  unfoldable pub service_accept :
      Option ProtoAcceptRequest → Acceptor S → Result (Option ProtoAcceptResponse) × Acceptor S
  service_accept req a =
      let (r, a') = Acceptor.accept ops a (accept_request_from_proto req) in
      (map_result accept_response_to_proto r, a')

-- `Client.Prepare`
unfoldable pub client_prepare :
    (Option ProtoPrepareRequest → Result (Option ProtoPrepareResponse))
    → PrepareRequest
    → Result PrepareResponse
client_prepare call req =
    map_result prepare_response_from_proto (call (prepare_request_to_proto req))

-- `Client.Accept`
unfoldable pub client_accept :
    (Option ProtoAcceptRequest → Result (Option ProtoAcceptResponse))
    → AcceptRequest
    → Result AcceptResponse
client_accept call req = map_result accept_response_from_proto (call (accept_request_to_proto req))

-- What a connection makes of the server's answer: a reply arrives as it is, an error as a status.
abbrev pub carried : {A : Type 0} → (Error → Error) → Result A → Result A
carried status_of (ok a) = ok a
carried status_of (err e) = err (status_of e)

map_result-carried :
    {A B : Type 0} (status_of : Error → Error) (f : A → B) (g : B → A)
    → ((a : A) → g (f a) ≡ a)
    → (r : Result A) → map_result g (carried status_of (map_result f r)) ≡ carried status_of r
map_result-carried status_of f g e (ok a) = ap ok (e a)
map_result-carried status_of f g e (err x) = refl

module _ {S : Type 0} (ops : Store S) (a : Acceptor S) (status_of : Error → Error) where
  -- Over a connection that hands the server's reply back, and an error of the server as the status that
  -- it makes of it, a client's `Prepare` returns the reply that the acceptor's `Prepare` returns for the
  -- same request, or the status of its error, and the acceptor behind the server does what it does
  -- without one.
  pub client_prepare-service_prepare :
      (req : PrepareRequest)
      → (client_prepare (λ m. carried status_of (service_prepare ops m a).0) req
          ≡ carried status_of (Acceptor.prepare ops a req).0)
        × ((service_prepare ops (prepare_request_to_proto req) a).1
            ≡ (Acceptor.prepare ops a req).1)
  unfolding client_prepare service_prepare
  client_prepare-service_prepare req = (
    map_result-carried status_of prepare_response_to_proto prepare_response_from_proto
          prepare_response-round_trip _
        ∙ ap (λ r. carried status_of (Acceptor.prepare ops a r).0) (prepare_request-round_trip req),
    ap (λ r. (Acceptor.prepare ops a r).1) (prepare_request-round_trip req),
  )

  -- The same for `Accept`.
  pub client_accept-service_accept :
      (req : AcceptRequest)
      → (client_accept (λ m. carried status_of (service_accept ops m a).0) req
          ≡ carried status_of (Acceptor.accept ops a req).0)
        × ((service_accept ops (accept_request_to_proto req) a).1 ≡ (Acceptor.accept ops a req).1)
  unfolding client_accept service_accept
  client_accept-service_accept req = (
    map_result-carried status_of accept_response_to_proto accept_response_from_proto
          accept_response-round_trip _
        ∙ ap (λ r. carried status_of (Acceptor.accept ops a r).0) (accept_request-round_trip req),
    ap (λ r. (Acceptor.accept ops a r).1) (accept_request-round_trip req),
  )
