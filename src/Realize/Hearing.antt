-- ===== src/Realize/Hearing.antt =====
-- An update of a client in which one answer of the server arrives, or nothing: client.c over
-- incoming.c.
use nimble_client_c.Protocol.Sending.{kept}
use nimble_client_c.Lifecycle.Pacing.{update_quiet, begun}
use nimble_client_c.Protocol.Updating.{wait_or_send-kept, begin_update-view}
use nimble_client_c.Quality.{is_synced, is_keep}
use nimble_client_c.Incoming.Receiving.{receive_all_feeds_each, feed_each}
use nimble_client_c.Quality.Patience.{update-reason, update-counter-le}
use nimble_client_c.Quality
use nimble_client_c.Realize.Answers.{feed_answered, body, Answer, Delivers, standing, verdict}
use nimble_client_c.Prelude.{
  inr, inl, Bool-cases, suc, true, ◌≤◌, length, is_negative, sym, ◌∙◌, ap, ◌∷◌, pos, List, refl, [],
  false, arith, ◌≢◌, ◌<◌, ℤ, ◌≡◌, ℕ,
}
use nimble_client_c.Lifecycle.{
  update, check_if_disconnect_is_needed, begin_update, judge_connection,
}
use nimble_client_c.Incoming.{feed, note_usable, note_packet_in}
use nimble_client_c.Platform.{IncomingCommand, Platform}
use nimble_client_c.Client.{
  datagram, disconnected, World, ClientState, ConnectionQuality, synced, keep_connection,
  NimbleClient, DisconnectReason,
}

-- A connection that is nowhere near being given up.
abbrev pub IsHealthy : DisconnectReason × ℕ → Type 0
IsHealthy (reason, counter) = (reason ≡ keep_connection) × (counter < 60)

is_synced_eq : (s : ClientState) → is_synced s ≡ true → s ≡ synced
is_synced_eq s h = ground arith

kept_reason : (r : DisconnectReason) → is_keep r ≡ true → r ≡ keep_connection
kept_reason r h = ground arith

module _ {P : Platform} where
  update-IsHealthy :
      (q : ConnectionQuality P) (s : ClientState)
      → IsHealthy (q.reason, q.considering_disconnect_counter)
      → Quality.should_disconnect (Quality.update q s) ≡ false
  unfolding Quality.should_disconnect
  update-IsHealthy q s h = ground (arith, update-counter-le q s, update-reason q s)

  update_idle : (q : ConnectionQuality P) (s : ClientState) → s ≢ synced → Quality.update q s ≡ q
  unfolding Quality.update
  update_idle q s h = ground arith

  pub update-keeps :
      (q : ConnectionQuality P)
      → q.reason ≡ keep_connection
      → q.considering_disconnect_counter < 60
      → ((Quality.update q synced).reason ≡ keep_connection)
        × ((Quality.update q synced).considering_disconnect_counter
            ≤ suc q.considering_disconnect_counter)
  update-keeps q e h =
      let counts = update-counter-le q synced in
      elim (Bool-cases (is_keep (Quality.update q synced).reason)) [
        | inl keeps ↦ (kept_reason (Quality.update q synced).reason keeps, counts)
        | inr gives_up ↦ absurd (ground (arith, update-reason q synced gives_up, counts))
      ]

  pub judge_connection-state :
      (c : NimbleClient P) → IsHealthy (verdict c) → (judge_connection c).state ≡ c.state
  unfolding judge_connection check_if_disconnect_is_needed
  judge_connection-state c h = ground (arith, update-IsHealthy c.quality c.state h)

  judge_connection-verdict :
      (c : NimbleClient P)
      → IsHealthy (verdict c)
      → c.state ≢ synced
      → verdict (judge_connection c) ≡ verdict c
  unfolding judge_connection check_if_disconnect_is_needed
  judge_connection-verdict c h s = ground (arith, update_idle c.quality c.state s)

  judge_connection-phase :
      (c : NimbleClient P) → (judge_connection c).join_participant_phase ≡ c.join_participant_phase
  unfolding judge_connection check_if_disconnect_is_needed
  judge_connection-phase c = ground arith

  judge_synced-keeps :
      (c : NimbleClient P)
      → c.state ≡ synced
      → IsHealthy (verdict c)
      → let c' = judge_connection c in
        (c'.quality.reason ≡ keep_connection)
        × (c'.quality.considering_disconnect_counter ≤ suc c.quality.considering_disconnect_counter)
  unfolding judge_connection check_if_disconnect_is_needed
  judge_synced-keeps c e h =
      let (keeps, counts) = update-keeps c.quality h.0 h.1 in ground (arith, keeps, counts)

  judge_connection-keeps :
      (c : NimbleClient P)
      → IsHealthy (verdict c)
      → let c' = judge_connection c in
        (c'.quality.reason ≡ keep_connection)
        × (c'.quality.considering_disconnect_counter ≤ suc c.quality.considering_disconnect_counter)
  judge_connection-keeps c h = elim (Bool-cases (is_synced c.state)) [
    | inl e ↦ judge_synced-keeps c (is_synced_eq c.state e) h
    | inr e ↦
        let same = judge_connection-verdict c h (λ s. absurd (ground arith)) in
        (ap (λ v. v.0) same ∙ h.0, omega (arith, ap (λ v. v.1) same))
  ]

  pub heard_first :
      (c : NimbleClient P) (now : ℤ)
      → let c' = note_packet_in (begin_update c now) in
        (standing c' ≡ standing c) × (c'.ordered_datagram_in ≡ c.ordered_datagram_in)
  unfolding note_packet_in begin_update
  heard_first c now = ground arith

  pub begin_update-heard :
      (c : NimbleClient P) (now : ℤ)
      → ((begin_update c now).state ≡ c.state) × (verdict (begin_update c now) ≡ verdict c)
  unfolding begin_update
  begin_update-heard c now = ground arith

  pub note_usable-heard :
      (c : NimbleClient P)
      → ((note_usable c).state ≡ c.state) × (verdict (note_usable c) ≡ verdict c)
  unfolding note_usable Quality.received_usable_datagram
  note_usable-heard c = (refl, refl)

  note_usable-phase :
      (c : NimbleClient P) → (note_usable c).join_participant_phase ≡ c.join_participant_phase
  unfolding note_usable
  note_usable-phase c = refl

  -- An update in which one datagram arrives that is taken for well ends as the judging of the client
  -- that was fed.
  pub update_fed :
      (c : NimbleClient P) (w : World P) (now : ℤ) (octets : List ℕ)
      → w.inbox ≡ datagram octets ∷ []
      → 0 < length octets
      → let f = feed (note_packet_in (begin_update c now)) (record w { inbox = [] }) octets in
        let o = update c w now in
        is_negative f.code ≡ false
        → kept o.client o.world
          ≡ kept (judge_connection (note_usable f.client)) (record f.world { inbox = [] })
  unfolding update feed_each
  update_fed c w now octets waiting filled good =
      let cb = begin_update c now in
      let f = feed (note_packet_in cb) (record w { inbox = [] }) octets in
      let got = note_usable f.client in
      let received =
        receive_all_feeds_each (octets ∷ []) cb got w f.world (filled, tt) (omega arith) waiting
          (rw good refl) in
      rw received
        (wait_or_send-kept (judge_connection got) (record f.world { inbox = [] }) now (pos 1))

  -- An update in which a message that answers arrives.
  pub update_answered :
      (c : NimbleClient P) (w : World P) (now : ℤ) (octets : List ℕ) (cmd : IncomingCommand)
      (u : ClientState)
      → c.state ≢ disconnected
      → IsHealthy (verdict c)
      → w.inbox ≡ datagram octets ∷ []
      → Delivers P c.ordered_datagram_in octets cmd
      → Answer (standing c) (body P c.ordered_datagram_in octets) cmd u
      → let o = update c w now in
        (o.client.state ≡ u)
        × (u ≢ synced → verdict o.client ≡ verdict c)
        × (o.world.inbox ≡ [])
        × (o.client.join_participant_phase ≡ c.join_participant_phase)
        × (o.client.quality.reason ≡ keep_connection)
        × (o.client.quality.considering_disconnect_counter
            ≤ suc c.quality.considering_disconnect_counter)
  update_answered c w now octets cmd u live healthy waiting d a =
      let cb = begin_update c now in
      let (same, order) = heard_first c now in
      let f = feed (note_packet_in cb) (record w { inbox = [] }) octets in
      let (code, state, decided, phase) =
        feed_answered (note_packet_in cb) (record w { inbox = [] }) octets cmd u
          (λ e. live (sym (ap (λ x. x.state) same) ∙ e)) (rw order d) (rw (same, order) a) in
      let got = note_usable f.client in
      let (state', decided') = note_usable-heard f.client in
      let reached : got.state ≡ u = state' ∙ state in
      let known : verdict got ≡ verdict c = decided' ∙ decided ∙ ap (λ x. x.decided) same in
      let fine : IsHealthy (verdict got) = rw known healthy in
      let (keeps, counts) = judge_connection-keeps got fine in
      let k = update_fed c w now octets waiting d.filled (rw code refl) in
      (
        ap (λ x. x.0.state) k ∙ judge_connection-state got fine ∙ reached,
        λ other.
            ap (λ x. (x.1.reason, x.1.considering_disconnect_counter)) k
            ∙ judge_connection-verdict got fine (λ e. other (sym reached ∙ e))
            ∙ known,
        ap (λ x. x.2) k,
        ap (λ x. x.0.phase) k
            ∙ judge_connection-phase got
            ∙ note_usable-phase f.client
            ∙ phase
            ∙ ap (λ x. x.phase) same,
        ap (λ x. x.1.reason) k ∙ keeps,
        omega (arith, ap (λ x. x.1.considering_disconnect_counter) k, counts, ap (λ v. v.1) known),
      )

  -- An update in which nothing arrives.
  pub update_silent :
      (c : NimbleClient P) (w : World P) (now : ℤ)
      → c.state ≢ synced
      → IsHealthy (verdict c)
      → w.inbox ≡ []
      → let o = update c w now in
        (o.client.state ≡ c.state)
        × (verdict o.client ≡ verdict c)
        × (o.world.inbox ≡ [])
        × (o.client.join_participant_phase ≡ c.join_participant_phase)
  update_silent c w now other healthy quiet =
      let judged = judge_connection (begin_update c now) in
      let kept = wait_or_send-kept judged (record w { inbox = [] }) now (pos 0) in
      let (begun_state, first) = begin_update-heard c now in
      let (_, state) = begun c now other in
      rw (update_quiet c w now quiet) (
        ap (λ k. k.0.state) kept ∙ state,
        ap (λ k. (k.1.reason, k.1.considering_disconnect_counter)) kept
            ∙ judge_connection-verdict (begin_update c now) (rw first healthy)
                (λ e. other (sym begun_state ∙ e))
            ∙ first,
        ap (λ k. k.2) kept,
        ap (λ k. k.0.phase) kept
            ∙ judge_connection-phase (begin_update c now)
            ∙ ap (λ v. v.phase) (begin_update-view c w now),
      )
