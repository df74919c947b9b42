-- ===== src/Lifecycle/Pacing.antt =====
-- Updates on which nothing arrives: how the client waits between its requests, and how one bad
-- datagram ends an update: `nimbleClientUpdate`.
use nimble_client_c.Protocol.{view}
use nimble_client_c.Protocol.Updating.{note_packet_in-view, begin_update-view}
use mathlib.Core.Path.{subst}
use nimble_client_c.Incoming.Receiving.{receive_all_stops, feed_each}
use nimble_client_c.Prelude.{
  negsuc, false, true, is_positive, int_of_long, is_negative, suc, ℕ, pos, [], ◌∷◌, ℤ, List, refl,
  ◌<◌, ◌-ℤ◌, sym, ◌+◌, ◌∙◌, length, arith, ◌≢◌, if◌then◌else◌, ap, ◌≡◌,
}
use nimble_client_c.Platform.{Platform}
use nimble_client_c.Client.{
  failure, disconnected, datagram, Received, Outcome, synced, NimbleClient, World,
}
use nimble_client_c.Incoming.{
  feed, note_packet_in, receive_from, receive_all_datagrams_from_transport,
}
use nimble_client_c.Incoming.Rejects.{order_of, feed_out_of_order}
use nimble_client_c.Lifecycle.{
  check_if_disconnect_is_needed, update, begin_update, judge_connection, wait_or_send,
}

-- Updates at the given times, one after the other.
unfoldable pub updates :
    {P : Platform} → List ℤ → NimbleClient P → World P → NimbleClient P × World P
updates [] c w = (c, w)
updates (now ∷ times) c w = let o = update c w now in updates times o.client o.world

-- An update without a datagram.
module _ {P : Platform} (c : NimbleClient P) (w : World P) (now : ℤ) (quiet : w.inbox ≡ []) where
  receive_all_quiet :
      (c' : NimbleClient P)
      → receive_all_datagrams_from_transport c' w
        ≡ record { code = pos 0; client = c'; world = record w { inbox = [] } }
  unfolding receive_all_datagrams_from_transport receive_from
  receive_all_quiet c' = ap (λ inbox. receive_from inbox 0 c' w) quiet

  pub update_quiet :
      update c w now
      ≡ wait_or_send (judge_connection (begin_update c now)) (record w { inbox = [] }) now (pos 0)
  unfolding update
  update_quiet =
      ap
        (λ got.
          if is_negative got.code
          then record got { code = int_of_long got.code }
          else wait_or_send (judge_connection got.client) got.world now (int_of_long got.code))
        (receive_all_quiet (begin_update c now))

-- A client of which nothing is to be sent before `n` more updates, and that cannot lose a
-- connection.
abbrev pub IsWaiting : {P : Platform} → ℕ → NimbleClient P → World P → Type 0
IsWaiting n c w = (c.wait_time ≡ pos n) × (c.state ≢ synced) × (w.inbox ≡ [])

pub wait_or_send_waits :
    {P : Platform} (n : ℕ) (c : NimbleClient P) (w : World P) (now : ℤ)
    → c.wait_time ≡ pos (suc n)
    → wait_or_send c w now (pos 0)
      ≡ record { code = pos 0; client = record c { wait_time = pos n }; world = w }
unfolding wait_or_send
wait_or_send_waits n c w now e =
    let more : is_positive c.wait_time ≡ true = ground arith in
    let fewer : c.wait_time -ℤ pos 1 ≡ pos n = ground arith in
    rw more
      (ap (λ t. record { code = pos 0; client = record c { wait_time = t }; world = w }) fewer)

pub begun :
    {P : Platform} (c : NimbleClient P) (now : ℤ)
    → c.state ≢ synced
    → let c' = judge_connection (begin_update c now) in
      (c'.wait_time ≡ c.wait_time) × (c'.state ≡ c.state)
unfolding judge_connection begin_update check_if_disconnect_is_needed
begun c now h = ground arith

-- One update of a waiting client.
abbrev pub Waited : {P : Platform} → ℕ → NimbleClient P → World P → Outcome P → Type 0
Waited n c w o =
    (o.client.wait_time ≡ pos n) × (o.client.state ≡ c.state) × (o.world ≡ w) × (o.code ≡ pos 0)

pub update_waits :
    {P : Platform} (n : ℕ) (c : NimbleClient P) (w : World P) (now : ℤ)
    → IsWaiting (suc n) c w
    → Waited n c w (update c w now)
update_waits n c w now k =
    let (waits, same) = begun c now k.1 in
    let judged = judge_connection (begin_update c now) in
    rw
      (
        update_quiet c w now k.2,
        wait_or_send_waits n judged (record w { inbox = [] }) now (waits ∙ k.0),
      )
      (refl, same, ap (λ inbox. record w { inbox = inbox }) (sym k.2), refl)

-- While a client that is not synced waits and nothing arrives, no more updates than it waits for
-- send anything or change its state or the world; each takes one from what is left to wait.
updates_wait :
    {P : Platform} (times : List ℤ) (n : ℕ) (c : NimbleClient P) (w : World P)
    → IsWaiting (length times + n) c w
    → ((updates times c w).0.wait_time ≡ pos n)
      × ((updates times c w).0.state ≡ c.state)
      × ((updates times c w).1 ≡ w)
unfolding updates
updates_wait [] n c w k = (k.0 ∙ ap pos (omega arith), refl, refl)
updates_wait (now ∷ times) n c w k =
    let o = update c w now in
    let (left, state, same, _) =
      update_waits (length times + n) c w now (k.0 ∙ ap pos (omega arith), k.1, k.2) in
    let (left', state', same') =
      updates_wait times n o.client o.world
        (left, (λ s. k.1 (sym state ∙ s)), ap (λ w'. w'.inbox) same ∙ k.2) in
    (left', state' ∙ state, same' ∙ same)

-- The client at the first datagram of an update: what it had before.
pub at_first_datagram :
    {P : Platform} (c : NimbleClient P) (now : ℤ)
    → let c' = note_packet_in (begin_update c now) in
      (c'.state ≡ c.state)
      × (c'.wait_time ≡ c.wait_time)
      × (c'.quality ≡ c.quality)
      × (c'.ordered_datagram_in ≡ c.ordered_datagram_in)
      × (c'.join_participant_phase ≡ c.join_participant_phase)
      × (c'.local_participant_lookup ≡ c.local_participant_lookup)
unfolding note_packet_in begin_update
at_first_datagram c now = ground arith

module _ {P : Platform} (c : NimbleClient P) (w : World P) (now : ℤ) (octets : List ℕ)
    (rest : List Received) (waiting : w.inbox ≡ datagram octets ∷ rest) (filled : 0 < length octets)
    (live : c.state ≢ disconnected) (late : is_positive (order_of c octets).0 ≡ false) where
  fed_late :
      let c' = note_packet_in (begin_update c now) in
      feed c' (record w { inbox = rest }) octets ≡ record {
        code = negsuc 90;
        client = record c' { ordered_datagram_in = (order_of c' octets).1 };
        world = record w { inbox = rest };
      }
  fed_late =
      let c' = note_packet_in (begin_update c now) in
      let (state, _, _, order, _, _) = at_first_datagram c now in
      feed_out_of_order c' (record w { inbox = rest }) octets filled (λ d. live (sym state ∙ d))
        (subst (λ l. is_positive (P.ordered_receive l (P.in_init octets)).0 ≡ false) (sym order)
          late)

  receive_all_late :
      receive_all_datagrams_from_transport (begin_update c now) w
      ≡ feed (note_packet_in (begin_update c now)) (record w { inbox = rest }) octets
  unfolding feed_each
  receive_all_late =
      receive_all_stops [] (begin_update c now) (begin_update c now) w w tt (omega arith) octets
        rest filled waiting refl (rw fed_late refl)

  -- A datagram out of order at the head of those that wait ends the update with -91: nothing is sent,
  -- the datagrams behind it still wait, and neither the client's state, nor its waiting time, nor
  -- the quality of its connection takes account of the tick.
  pub update_out_of_order :
      let o = update c w now in
      (o.code ≡ negsuc 90)
      × (o.world ≡ record w { inbox = rest })
      × (o.client.state ≡ c.state)
      × (o.client.wait_time ≡ c.wait_time)
      × (o.client.quality ≡ c.quality)
  unfolding update
  update_out_of_order =
      let (state, wait, quality, _, _, _) = at_first_datagram c now in
      rw (receive_all_late ∙ fed_late) (refl, refl, state, wait, quality)

  -- What else it leaves alone: the phase of the joining and the participants. The ordering logic is
  -- what it makes of the datagram.
  pub update_out_of_order-phase :
      let o = update c w now in
      (o.client.join_participant_phase ≡ c.join_participant_phase)
      × (o.client.local_participant_lookup ≡ c.local_participant_lookup)
      × (o.client.ordered_datagram_in ≡ (order_of c octets).1)
  unfolding update
  update_out_of_order-phase =
      let (_, _, _, order, phase, entries) = at_first_datagram c now in
      rw (receive_all_late ∙ fed_late)
        (phase, entries, ap (λ l. (P.ordered_receive l (P.in_init octets)).1) order)

  pub update_out_of_order-view : let o = update c w now in view o.client o.world ≡ view c w
  unfolding update
  update_out_of_order-view =
      rw (receive_all_late ∙ fed_late)
        (note_packet_in-view (begin_update c now) w ∙ begin_update-view c w now)

-- A receiving that fails ends the update with its code; what waits behind still waits.
pub update_failed :
    {P : Platform} (c : NimbleClient P) (w : World P) (now : ℤ) (n : ℕ) (rest : List Received)
    → w.inbox ≡ failure n ∷ rest
    → update c w now ≡ record {
      code = int_of_long (negsuc n);
      client = begin_update c now;
      world = record w { inbox = rest };
    }
unfolding update receive_all_datagrams_from_transport receive_from
update_failed c w now n rest waiting = rw waiting refl
