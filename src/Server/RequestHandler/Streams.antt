-- ===== src/Server/RequestHandler/Streams.antt =====
-- What `request_handler` leaves of the connection.
use virtual_blackboard.Prelude.{ℕ, ◌≡◌, ok, arith}
use virtual_blackboard.ClientList.{ClientList}
use virtual_blackboard.ClientList.Seg.{Ptr}
use virtual_blackboard.Server.World.{
  World, Code, send, log_message, trigger_broadcast, with_clients,
}
use virtual_blackboard.Server.RequestHandler.{
  docent_request, give_back, self_service, query_docent, ask_docent, change_access, request,
}

module _ (w : World) (s : ClientList) where
  docent_request-streams : (r : World × Code) → docent_request w s ≡ ok r → r.0.streams ≡ w.streams
  unfolding docent_request send log_message trigger_broadcast with_clients
  docent_request-streams r e = ground arith

  self_service-streams :
      (sfd : ℕ) (r : World × Code) → self_service sfd w s ≡ ok r → r.0.streams ≡ w.streams
  unfolding self_service trigger_broadcast with_clients
  self_service-streams sfd r e = ground arith

  query_docent-streams :
      (user docent : Ptr) (r : World × Code)
      → query_docent user docent w s ≡ ok r
      → r.0.streams ≡ w.streams
  unfolding query_docent send log_message with_clients
  query_docent-streams user docent r e = ground arith

  ask_docent-streams :
      (sfd : ℕ) (docent : Ptr) (r : World × Code)
      → ask_docent sfd docent w s ≡ ok r
      → r.0.streams ≡ w.streams
  unfolding ask_docent with_clients
  ask_docent-streams sfd docent r e = grind (arith, query_docent-streams)

  change_access-streams :
      (sfd write : ℕ) (r : World × Code)
      → change_access sfd write w s ≡ ok r
      → r.0.streams ≡ w.streams
  unfolding change_access give_back trigger_broadcast with_clients
  change_access-streams sfd write r e = ground (
    arith,
    docent_request-streams r,
    self_service-streams sfd r,
    ask_docent-streams sfd s.user_docent r,
  )

-- The part of the handler behind `recv` reads nothing more.
pub request-streams :
    (sfd write : ℕ) (w : World) (r : World × Code)
    → request sfd write w ≡ ok r
    → r.0.streams ≡ w.streams
unfolding request with_clients
request-streams sfd write w r e = grind (arith, change_access-streams)
