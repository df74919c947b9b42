-- ===== src/Realize/Silence.antt =====
-- How long a realizer stays synced without hearing from the server: network_realizer.c over client.c
-- and connection_quality.c.
use mathlib.Core.Path.{subst}
use mathlib.Core.Path.{subst}
use nimble_client_c.Prelude.{
  ap, refl, sym, ◌∙◌, arith, ◌≡◌, ◌<◌, ◌+◌, ◌^◌, [], ◌∷◌, List, ℕ, ℤ, false, if◌then◌else◌, leb,
  length, pos, suc, true,
}
use native.Mathlib.Decide.{dec_lt}
use nimble_client_c.Platform.{Platform}
use nimble_client_c.Client.{disconnected, NimbleClient, synced, World}
use nimble_client_c.Incoming.{is_disconnected}
use nimble_client_c.Lifecycle
use nimble_client_c.Lifecycle.{begin_update, check_if_disconnect_is_needed, judge_connection}
use nimble_client_c.Lifecycle.Pacing.{update_quiet}
use nimble_client_c.Protocol.Updating.{wait_or_send-kept}
use nimble_client_c.Quality
use nimble_client_c.Quality.Silence.{AfterSilence, update-AfterSilence}
use nimble_client_c.Realize.{NimbleClientRealize, realize_update, RealizeState}
use nimble_client_c.Realize.Handshake.{await, tick}
use nimble_client_c.Realize.Joining.{realize_update_synced}

module _ {P : Platform} where
  begin_update-same :
      (c : NimbleClient P) (now : ℤ)
      → ((begin_update c now).state ≡ c.state) × ((begin_update c now).quality ≡ c.quality)
  unfolding begin_update
  begin_update-same c now = ground arith

  judge_synced :
      (c : NimbleClient P)
      → c.state ≡ synced
      → let q = Quality.update c.quality synced in
        ((judge_connection c).quality ≡ q)
        × ((judge_connection c).state
            ≡ (if Quality.should_disconnect q then disconnected else synced))
  unfolding judge_connection check_if_disconnect_is_needed
  judge_synced c e = ground arith

  judge_disconnected :
      (c : NimbleClient P) → c.state ≡ disconnected → (judge_connection c).state ≡ disconnected
  unfolding judge_connection check_if_disconnect_is_needed
  judge_disconnected c e = ground arith

  -- An update in which nothing arrives.
  update_judges :
      (c : NimbleClient P) (w : World P) (now : ℤ)
      → w.inbox ≡ []
      → let c' = (Lifecycle.update c w now).client in
        let judged = judge_connection (begin_update c now) in
        (c'.state ≡ judged.state) × (c'.quality ≡ judged.quality)
  update_judges c w now quiet =
      let judged = judge_connection (begin_update c now) in
      let kept = wait_or_send-kept judged (record w { inbox = [] }) now (pos 0) in
      rw (update_quiet c w now quiet) (ap (λ k. k.0.state) kept, ap (λ k. k.1) kept)

  should_disconnect_after :
      (n : ℕ) (c : NimbleClient P)
      → AfterSilence n c.quality
      → Quality.should_disconnect c.quality ≡ leb 76 n
  unfolding Quality.should_disconnect
  should_disconnect_after n c a = ground (arith, a)

  update_synced_silence :
      (n : ℕ) (c : NimbleClient P) (w : World P) (now : ℤ)
      → suc n < 2 ^ 64
      → c.state ≡ synced
      → AfterSilence n c.quality
      → w.inbox ≡ []
      → let c' = (Lifecycle.update c w now).client in
        (c'.state ≡ (if leb 76 (suc n) then disconnected else synced))
        × AfterSilence (suc n) c'.quality
  update_synced_silence n c w now small at a quiet =
      let cb = begin_update c now in
      let (state, quality) = update_judges c w now quiet in
      let (same, same') = begin_update-same c now in
      let (q, s) = judge_synced cb (same ∙ at) in
      let after : AfterSilence (suc n) (judge_connection cb).quality =
        subst (AfterSilence (suc n)) (sym (q ∙ ap (λ x. Quality.update x synced) same'))
          (update-AfterSilence n c.quality small a) in
      (
        state
            ∙ s
            ∙ ap (λ x. if Quality.should_disconnect x then disconnected else synced) (sym q)
            ∙ ap (λ b. if b then disconnected else synced)
                (should_disconnect_after (suc n) (judge_connection cb) after),
        subst (AfterSilence (suc n)) (sym quality) after,
      )

  update_disconnected_silence :
      (c : NimbleClient P) (w : World P) (now : ℤ)
      → c.state ≡ disconnected
      → w.inbox ≡ []
      → (Lifecycle.update c w now).client.state ≡ disconnected
  update_disconnected_silence c w now at quiet =
      (update_judges c w now quiet).0
      ∙ judge_disconnected (begin_update c now) ((begin_update-same c now).0 ∙ at)

-- A realizer that reached its goal, after `n` silent updates.
record Silent {P : Platform} (n : ℕ) (r : NimbleClientRealize P) : Type 0 where
  pub target : r.target_state ≡ RealizeState.synced
  pub own : r.state ≡ (if leb 77 n then RealizeState.disconnected else RealizeState.synced)
  pub at : r.client.state ≡ (if leb 76 n then disconnected else synced)
  pub hears_nothing : n < 76 → AfterSilence n r.client.quality

module _ {P : Platform} where
  realize_update_disconnected :
      (r : NimbleClientRealize P) (w : World P) (now : ℤ)
      → r.client.state ≡ disconnected
      → let r' = (realize_update r w now).0 in
        (r'.state ≡ RealizeState.disconnected)
        × (r'.client ≡ r.client)
        × (r'.target_state ≡ r.target_state)
  unfolding realize_update
  realize_update_disconnected r w now e =
      let gone : is_disconnected r.client.state ≡ true = ground arith in rw gone (refl, refl, refl)

  tick-Silent :
      (n : ℕ) (r : NimbleClientRealize P) (w : World P) (now : ℤ)
      → suc n < 2 ^ 64
      → Silent n r
      → Silent (suc n) (tick now (r, w)).0
  tick-Silent n r w now small k = elim (dec_lt n 76) [
    | yes early ↦
        let at : r.client.state ≡ synced = ground (arith, k.at) in
        let own : r.state ≡ RealizeState.synced = ground (arith, k.own) in
        let still : leb 77 (suc n) ≡ false = ground arith in
        let (state, after) =
          update_synced_silence n r.client (record w { inbox = [] }) now small at
            (k.hears_nothing early) refl in
        rw (realize_update_synced r (record w { inbox = [] }) now k.target own (λ e. cc)) (record {
          target = k.target;
          own =
              own
              ∙ ap (λ b. if b then RealizeState.disconnected else RealizeState.synced) (sym still);
          at = state;
          hears_nothing = λ _. after;
        })
    | no late ↦
        let at : r.client.state ≡ disconnected = ground (arith, k.at) in
        let gone : leb 76 (suc n) ≡ true = ground arith in
        let over : leb 77 (suc n) ≡ true = ground arith in
        let (own, same, target) = realize_update_disconnected r (record w { inbox = [] }) now at in
        record {
          target = target ∙ k.target;
          own =
              own
              ∙ ap (λ b. if b then RealizeState.disconnected else RealizeState.synced) (sym over);
          at =
              ap (λ c. c.state) same ∙ at ∙ ap (λ b. if b then disconnected else synced) (sym gone);
          hears_nothing = λ h. absurd (omega arith);
        }
  ]

  await-Silent :
      (times : List ℤ) (n : ℕ) (r : NimbleClientRealize P) (w : World P)
      → n + length times < 2 ^ 64
      → Silent n r
      → Silent (n + length times) (await times (r, w)).0
  unfolding await
  await-Silent [] n r w small k = subst (λ m. Silent m r) (omega arith) k
  await-Silent (now ∷ times) n r w small k =
      let (r', w') = tick now (r, w) in
      subst (λ m. Silent m (await times (r', w')).0) (omega arith)
        (await-Silent times (suc n) r' w' (omega arith) (tick-Silent n r w now (omega arith) k))

  -- A synced realizer that has just heard from the server, and then hears nothing: its client is
  -- disconnected exactly from the 76th update on, and the realizer exactly from the 77th on; before
  -- that both stay synced (for fewer than 2 ^ 64 updates).
  pub await_gives_up :
      (times : List ℤ) (r : NimbleClientRealize P) (w : World P)
      → length times < 2 ^ 64
      → r.target_state ≡ RealizeState.synced
      → r.state ≡ RealizeState.synced
      → r.client.state ≡ synced
      → AfterSilence 0 r.client.quality
      → let (r', _) = await times (r, w) in
        (r'.client.state ≡ (if leb 76 (length times) then disconnected else synced))
        × (r'.state
            ≡ (if leb 77 (length times) then RealizeState.disconnected else RealizeState.synced))
  await_gives_up times r w small target own at fresh =
      let k =
        await-Silent times 0 r w (omega arith)
          (record { target = target; own = own; at = at; hears_nothing = λ _. fresh }) in
      let n : 0 + length times ≡ length times = omega arith in
      (
        k.at ∙ ap (λ m. if leb 76 m then disconnected else synced) n,
        k.own ∙ ap (λ m. if leb 77 m then RealizeState.disconnected else RealizeState.synced) n,
      )
