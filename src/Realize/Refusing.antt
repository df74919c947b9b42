-- ===== src/Realize/Refusing.antt =====
-- Updates of a client in which what arrives is refused: client.c over incoming.c.
use nimble_client_c.Protocol.Updating.{wait_or_send-kept}
use nimble_client_c.Lifecycle.Pacing.{
  update_quiet, update_out_of_order-phase, update_out_of_order, update_failed,
}
use nimble_client_c.Realize.Hearing.{update_silent, IsHealthy}
use nimble_client_c.Realize.Answers.{verdict}
use nimble_client_c.Lifecycle.{check_if_disconnect_is_needed, judge_connection, begin_update}
use nimble_client_c.Prelude.{
  refl, ◌∙◌, pos, ap, [], length, ◌∷◌, ◌<◌, List, ◌≢◌, arith, false, ◌≡◌, ℤ, is_positive,
}
use nimble_client_c.Client.{disconnected, synced, datagram, World, failure, NimbleClient, Received}
use nimble_client_c.Platform.{Platform}
use nimble_client_c.Lifecycle

-- What is relied on of ordered-datagram: a datagram that is not newer leaves the logic as it was.
pub record LateLaw (P : Platform) : Type 0 where
  pub keeps :
      (l : P.OrderedIn) (s : P.InStream)
      → is_positive (P.ordered_receive l s).0 ≡ false
      → (P.ordered_receive l s).1 ≡ l

-- What the receive loop refuses: a failure, and a datagram that is not newer than the last one taken.
abbrev pub IsRefused : (P : Platform) → P.OrderedIn → Received → Type 0
IsRefused P l (failure n) = Unit
IsRefused P l (datagram octets) =
    (0 < length octets) × (is_positive (P.ordered_receive l (P.in_init octets)).0 ≡ false)

-- What an update leaves alone that takes no answer in.
abbrev pub Same : {P : Platform} → NimbleClient P → NimbleClient P → Type 0
Same c c' =
    (c'.state ≡ c.state)
    × (verdict c' ≡ verdict c)
    × (c'.join_participant_phase ≡ c.join_participant_phase)
    × (c'.ordered_datagram_in ≡ c.ordered_datagram_in)

-- The participants besides.
abbrev pub Unmoved : {P : Platform} → NimbleClient P → NimbleClient P → Type 0
Unmoved c c' = Same c c' × (c'.local_participant_lookup ≡ c.local_participant_lookup)

module _ {P : Platform} where
  judged-order :
      (c : NimbleClient P) (now : ℤ)
      → (judge_connection (begin_update c now)).ordered_datagram_in ≡ c.ordered_datagram_in
  unfolding judge_connection begin_update check_if_disconnect_is_needed
  judged-order c now = ground arith

  pub update_quiet-order :
      (c : NimbleClient P) (w : World P) (now : ℤ)
      → w.inbox ≡ []
      → (Lifecycle.update c w now).client.ordered_datagram_in ≡ c.ordered_datagram_in
  update_quiet-order c w now quiet =
      let judged = judge_connection (begin_update c now) in
      let k = wait_or_send-kept judged (record w { inbox = [] }) now (pos 0) in
      rw (update_quiet c w now quiet) (ap (λ x. x.4) k ∙ judged-order c now)

  pub update_silent-Same :
      (c : NimbleClient P) (w : World P) (now : ℤ)
      → c.state ≢ synced
      → IsHealthy (verdict c)
      → w.inbox ≡ []
      → let o = Lifecycle.update c w now in Same c o.client × (o.world.inbox ≡ [])
  update_silent-Same c w now other healthy quiet =
      let (state, decided, empty, phase) = update_silent c w now other healthy quiet in
      ((state, decided, phase, update_quiet-order c w now quiet), empty)

  begin_update-Unmoved : (c : NimbleClient P) (now : ℤ) → Unmoved c (begin_update c now)
  unfolding begin_update
  begin_update-Unmoved c now = ground arith

  pub update_refused :
      LateLaw P
      → (c : NimbleClient P) (w : World P) (now : ℤ) (x : Received) (rest : List Received)
      → c.state ≢ disconnected
      → IsRefused P c.ordered_datagram_in x
      → w.inbox ≡ x ∷ rest
      → let o = Lifecycle.update c w now in Unmoved c o.client × (o.world.inbox ≡ rest)
  update_refused L c w now (failure n) rest live refused waiting =
      rw (update_failed c w now n rest waiting) (begin_update-Unmoved c now, refl)
  update_refused L c w now (datagram octets) rest live (filled, late) waiting =
      let (_, world, state, _, quality) =
        update_out_of_order c w now octets rest waiting filled live late in
      let (phase, entries, order) =
        update_out_of_order-phase c w now octets rest waiting filled live late in
      (
        (
          (
            state,
            ap (λ q. (q.reason, q.considering_disconnect_counter)) quality,
            phase,
            order ∙ L.keeps c.ordered_datagram_in (P.in_init octets) late,
          ),
          entries,
        ),
        ap (λ v. v.inbox) world,
      )
