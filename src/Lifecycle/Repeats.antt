-- ===== src/Lifecycle/Repeats.antt =====
-- A datagram that the transport delivers more than once: client.c over receive_transport.c and
-- incoming.c.
use nimble_client_c.Protocol.Updating.{note_usable-view, note_packet_in-view}
use nimble_client_c.Incoming.Receiving.{receive_all_stops, feed_each}
use mathlib.Core.Path.{subst}
use nimble_client_c.Incoming.Unchanged.{note_packet_in-same, feed_ordered-Unchanged}
use nimble_client_c.Realize.Answers.{feed_newer}
use nimble_client_c.Incoming.Rejects.{feed_out_of_order, order_of}
use nimble_client_c.Lifecycle.Pacing.{
  at_first_datagram, update_out_of_order-view, update_out_of_order-phase, update_out_of_order,
  updates,
}
use nimble_client_c.Incoming.{note_usable, note_packet_in, is_disconnected, feed, note_dropped}
use nimble_client_c.Client.{disconnected, datagram, World, Received, NimbleClient}
use nimble_client_c.Prelude.{
  suc, refl, ap, sym, ◌∙◌, magnitude, ◌∷◌, is_negative, [], ℤ, arith, false, true, ◌≢◌, length,
  replicate, ◌<◌, ◌≡◌, List, is_positive, ℕ,
}
use nimble_client_c.Platform.{Platform}
use nimble_client_c.Protocol.{view}
use nimble_client_c.Lifecycle.{update, begin_update}

-- What is relied on of ordered-datagram: a datagram that was taken for newer is not newer the next
-- time, and one that is not newer leaves the logic as it was.
pub record RepeatLaw (P : Platform) : Type 0 where
  pub repeats :
      (l : P.OrderedIn) (s : P.InStream)
      → is_positive (P.ordered_receive l s).0 ≡ true
      → is_positive (P.ordered_receive (P.ordered_receive l s).1 s).0 ≡ false
  pub keeps :
      (l : P.OrderedIn) (s : P.InStream)
      → is_positive (P.ordered_receive l s).0 ≡ false
      → (P.ordered_receive l s).1 ≡ l

abbrev pub copies : ℕ → List ℕ → List Received
copies n octets = replicate n (datagram octets)

-- A client that goes on, and for which the octets are not newer.
record IsPast {P : Platform} (octets : List ℕ) (c : NimbleClient P) : Type 0 where
  pub live : c.state ≢ disconnected
  pub late : is_positive (order_of c octets).0 ≡ false

module _ {P : Platform} (L : RepeatLaw P) (octets : List ℕ) (filled : 0 < length octets) where
  abbrev IsLate : P.OrderedIn → Type 0
  IsLate l = is_positive (P.ordered_receive l (P.in_init octets)).0 ≡ false

  -- The copies that still wait are worked off, one in each update.
  updates-IsPast :
      (times : List ℤ) (c : NimbleClient P) (w : World P)
      → IsPast octets c
      → w.inbox ≡ copies (length times) octets
      → let (c', w') = updates times c w in (view c' w' ≡ view c w) × (w'.inbox ≡ [])
  unfolding updates
  updates-IsPast [] c w k waiting = (refl, waiting)
  updates-IsPast (now ∷ times) c w k waiting =
      let rest = copies (length times) octets in
      let o = update c w now in
      let (_, world, state, _, _) =
        update_out_of_order c w now octets rest waiting filled k.live k.late in
      let (_, _, order) =
        update_out_of_order-phase c w now octets rest waiting filled k.live k.late in
      let same = order ∙ L.keeps c.ordered_datagram_in (P.in_init octets) k.late in
      let (seen, empty) =
        updates-IsPast times o.client o.world
          (record { live = λ e. k.live (sym state ∙ e); late = subst IsLate (sym same) k.late })
          (ap (λ v. v.inbox) world) in
      (seen ∙ update_out_of_order-view c w now octets rest waiting filled k.live k.late, empty)

  note_dropped-order :
      (c : NimbleClient P) (n : ℕ)
      → let c' = note_dropped c n in
        (c'.ordered_datagram_in ≡ c.ordered_datagram_in) × (c'.state ≡ c.state)
  unfolding note_dropped
  note_dropped-order c n = ground arith

  -- A client that has taken the octets in.
  feed-IsPast :
      (c : NimbleClient P) (w : World P)
      → c.state ≢ disconnected
      → is_positive (order_of c octets).0 ≡ true
      → is_negative (feed c w octets).code ≡ false
      → IsPast octets (feed c w octets).client
  feed-IsPast c w live newer good =
      let d = order_of c octets in
      let noted = note_dropped (record c { ordered_datagram_in = d.1 }) (magnitude d.0) in
      let fed = feed_newer c w octets filled live newer in
      let (order, state) =
        note_dropped-order (record c { ordered_datagram_in = d.1 }) (magnitude d.0) in
      let running : is_disconnected noted.state ≡ false = rw state (ground arith) in
      let (order', _, running') = feed_ordered-Unchanged noted w d.2 running (rw fed at good) in
      let same : (feed c w octets).client.ordered_datagram_in ≡ d.1 =
        ap (λ o. o.client.ordered_datagram_in) fed ∙ order' ∙ order in
      let still : is_disconnected (feed c w octets).client.state ≡ false =
        subst (λ o. is_disconnected o.client.state ≡ false) (sym fed) running' in
      record {
        live = λ e. absurd (ground arith);
        late = subst IsLate (sym same) (L.repeats c.ordered_datagram_in (P.in_init octets) newer);
      }

  note_usable-IsPast : (c : NimbleClient P) → IsPast octets c → IsPast octets (note_usable c)
  unfolding note_usable
  note_usable-IsPast c k = record { live = k.live; late = k.late }

  note_packet_in-IsPast : (c : NimbleClient P) → IsPast octets c → IsPast octets (note_packet_in c)
  note_packet_in-IsPast c k =
      let (order, _, state) = note_packet_in-same c in
      record { live = λ e. k.live (sym state ∙ e); late = subst IsLate (sym order) k.late }

  -- The update that takes the first of the copies in stops at the second.
  update_first :
      (c : NimbleClient P) (w : World P) (now : ℤ) (rest : List Received)
      → w.inbox ≡ datagram octets ∷ datagram octets ∷ rest
      → c.state ≢ disconnected
      → is_positive (order_of c octets).0 ≡ true
      → let fed =
          feed
            (note_packet_in (begin_update c now))
            (record w { inbox = datagram octets ∷ rest })
            octets in
        is_negative fed.code ≡ false
        → let o = update c w now in
          (view o.client o.world ≡ view fed.client fed.world)
          × IsPast octets o.client
          × (o.world.inbox ≡ rest)
  unfolding update feed_each
  update_first c w now rest waiting live newer good =
      let cb = begin_update c now in
      let c0 = note_packet_in cb in
      let w0 = record w { inbox = datagram octets ∷ rest } in
      let fed = feed c0 w0 octets in
      let c1 = note_usable fed.client in
      let c2 = note_packet_in c1 in
      let w2 = record (fed.world) { inbox = rest } in
      let (state, _, _, order, _, _) = at_first_datagram c now in
      let newer0 : is_positive (order_of c0 octets).0 ≡ true =
        subst (λ l. is_positive (P.ordered_receive l (P.in_init octets)).0 ≡ true) (sym order)
          newer in
      let past = note_packet_in-IsPast c1 (
        note_usable-IsPast fed.client
          (feed-IsPast c0 w0 (λ e. live (sym state ∙ e)) newer0 good)) in
      let refused = feed_out_of_order c2 w2 octets filled past.live past.late in
      let received =
        receive_all_stops (octets ∷ []) cb c1 w fed.world (filled, tt) (omega arith) octets rest
          filled waiting (rw good refl) (rw refused refl) in
      let same = L.keeps c2.ordered_datagram_in (P.in_init octets) past.late in
      rw (received ∙ refused) (
        note_packet_in-view c1 fed.world ∙ note_usable-view fed.client fed.world,
        record { live = past.live; late = subst IsLate (sym same) past.late },
        refl,
      )

  -- A datagram that is delivered any number of times is handled once: if some copies of it, at least
  -- two, wait in the transport, the first is newer than the last one taken and fed without an error,
  -- then, after as many updates as there are copies less one, nothing waits any more, and the session
  -- is what that one feeding made of it: its state, its participants, its game state and the blocks.
  -- (The client is not disconnected, and the ordering logic keeps its laws.)
  pub updates-repeated :
      (times : List ℤ) (now : ℤ) (c : NimbleClient P) (w : World P)
      → w.inbox ≡ copies (suc (suc (length times))) octets
      → c.state ≢ disconnected
      → is_positive (order_of c octets).0 ≡ true
      → let fed =
          feed
            (note_packet_in (begin_update c now))
            (record w { inbox = copies (suc (length times)) octets })
            octets in
        is_negative fed.code ≡ false
        → let (c', w') = updates (now ∷ times) c w in
          (view c' w' ≡ view fed.client fed.world) × (w'.inbox ≡ [])
  unfolding updates
  updates-repeated times now c w waiting live newer good =
      let o = update c w now in
      let (seen, past, left) =
        update_first c w now (copies (length times) octets) waiting live newer good in
      let (seen', empty) = updates-IsPast times o.client o.world past left in (seen' ∙ seen, empty)
