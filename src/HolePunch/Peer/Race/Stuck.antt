-- ===== src/HolePunch/Peer/Race/Stuck.antt =====
-- Where `connect_to_peer` of gday_hole_punch/src/client/peer_connector.rs does not come to a peer.
use gday_old.Base.{
  ℕ, ◌≡◌, ◌↔◌, refl, sym, ◌∙◌, ap, Bool, Option, none, some, List, [], ◌∷◌, ◌++◌, map, All,
}
use gday_old.Base.Outcome.{panics, Result, ok}
use gday_old.Base.Text.{Bytes}
use gday_old.HolePunch.Contact.{SocketAddr, V4, V6, Contact, no_contact}
use gday_old.HolePunch.Client.{PeerConnector}
use gday_old.HolePunch.Peer.{Attempt, try_accept, attempts_of, attempts, Crypto}
use gday_old.HolePunch.Peer.Race.{
  silent, gives, Stream, Future, pending, SelectOk, Network, TcpSocket, verify_stream, accept_loop,
  get_local_socket, run_attempt, connect_to_peer,
}
use gday_old.HolePunch.Peer.Race.First.{Refused}

module _ (crypto : Crypto) (peer_id : ℕ) (is_creator : Bool) where
  accept_loop_stuck :
      (strangers : List Stream) (stream : Stream) (later : List (Result ℕ Stream))
      → All (Refused crypto peer_id is_creator) strangers
      → verify_stream crypto peer_id is_creator stream ≡ pending
      → accept_loop crypto peer_id is_creator (map ok strangers ++ ok stream ∷ later) ≡ pending
  unfolding accept_loop
  accept_loop_stuck [] stream later refused v = rw v
  accept_loop_stuck (s ∷ strangers) stream later ((e, failed), refused) v =
      rw failed (accept_loop_stuck strangers stream later refused v)

  -- A listening attempt to which a connection comes that stays silent, once any number of connections have failed to
  -- be verified, waits for ever: whatever comes in later, the peer included, is not looked at.
  pub run_attempt_stuck :
      (net : Attempt → Network) (local : SocketAddr) (socket : TcpSocket) (strangers : List Stream)
      (stream : Stream) (later : List (Result ℕ Stream))
      → get_local_socket (net (try_accept local)).os local ≡ ok socket
      → (net (try_accept local)).listen ≡ none
      → (net (try_accept local)).accepts ≡ map ok strangers ++ ok stream ∷ later
      → All (Refused crypto peer_id is_creator) strangers
      → stream.inbound_message ≡ silent
      → stream.message_written ≡ gives tt
      → run_attempt crypto peer_id is_creator net (try_accept local) ≡ pending
  unfolding run_attempt verify_stream
  run_attempt_stuck net local socket strangers stream later opened listens accepts refused quiet
        written =
      rw (opened, listens, accepts)
        (accept_loop_stuck strangers stream later refused (rw (written, quiet) refl))

no_attempt :
    {A : Type 0} (family : A → SocketAddr) (local peer_private peer_public : Option A)
    → attempts_of family local peer_private peer_public ≡ []
    → local ≡ none
no_attempt family none peer_private peer_public e = refl
no_attempt family (some local) peer_private peer_public e = cc

both_nil : {A : Type 0} (s t : List A) → s ++ t ≡ [] → (s ≡ []) × (t ≡ [])
both_nil [] t e = (refl, e)
both_nil (x ∷ s) t e = cc

same_contact : (contact : Contact) → contact.v6 ≡ none → contact.v4 ≡ none → contact ≡ no_contact
same_contact contact e6 e4 = rw (e6, e4)

selected :
    (select : SelectOk) (futs : List (Future ℕ Bytes)) → select.select_ok futs ≡ panics → futs ≡ []
selected select [] e = refl
selected select (fut ∷ futs) e = let (r, found) = select.of_some fut futs in cc (sym e ∙ found)

mapped_nil : {A B : Type 0} (f : A → B) (s : List A) → map f s ≡ [] → s ≡ []
mapped_nil f [] e = refl
mapped_nil f (x ∷ s) e = cc

-- Whatever the network does, `connect_to_peer` panics exactly where the contact that the server has
-- sent for this client has no private address.
pub connect_to_peer_panics :
    (crypto : Crypto) (select : SelectOk) (net : Attempt → Network) (this : PeerConnector)
    (peer_id : ℕ)
    → (connect_to_peer crypto select net this peer_id ≡ panics) ↔ (this.local.private ≡ no_contact)
unfolding connect_to_peer attempts
connect_to_peer_panics crypto select net this peer_id =
    let run = run_attempt crypto peer_id this.is_creator net in
    let private = this.local.private in
    (
      λ panicked.
          let nothing =
            mapped_nil run (attempts this) (selected select (map run (attempts this)) panicked) in
          let (no_v6, no_v4) = both_nil _ _ nothing in
          same_contact private (no_attempt V6 private.v6 _ _ no_v6)
            (no_attempt V4 private.v4 _ _ no_v4),
      λ e. rw (ap (λ (c : Contact). c.v6) e, ap (λ (c : Contact). c.v4) e) select.of_nothing,
    )
