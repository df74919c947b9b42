-- ===== src/Protocol/Safety.antt =====
-- What no update of the client can do, whatever arrives.
use nimble_client_c.Prelude.{refl, ◌∙◌, ◌⊎◌, inr, ◌<◌, ◌≡◌, ◌≤◌, arith, inl, ℤ, ◌≢◌}
use nimble_client_c.Platform.{Platform}
use nimble_client_c.Client.{
  idle, ClientState, synced, disconnected, joining_participant, NimbleClient, World,
}
use nimble_client_c.Protocol.{
  view, View, Step, stay, give_up, connect, join, refuse, finish_download, Reach, here, next,
}
use nimble_client_c.Protocol.Updating.{update-Reach}
use nimble_client_c.Lifecycle.{update}

Step-disconnected : {v u : View} → Step v u → v.state ≡ disconnected → u ≡ v
Step-disconnected (stay e) d = e
Step-disconnected (connect h e) d = cc
Step-disconnected (join ps h j e) d = absurd (h d)
Step-disconnected (refuse h e) d = absurd (h d)
Step-disconnected (Step.start_download h e) d = absurd (h d)
Step-disconnected (finish_download os h s e) d = absurd (h d)
Step-disconnected (give_up h e) d = cc

Reach-disconnected : {v u : View} → Reach v u → v.state ≡ disconnected → u ≡ v
Reach-disconnected here d = refl
Reach-disconnected {v} (next {u = u} r st) d =
    let same = Reach-disconnected r d in Step-disconnected st (rw same d) ∙ same

-- An update of a disconnected client changes nothing of the session: not its state, its
-- participants, its game state or the game state blocks.
update_disconnected :
    {P : Platform} (c : NimbleClient P) (w : World P) (now : ℤ)
    → c.state ≡ disconnected
    → let o = update c w now in view o.client o.world ≡ view c w
update_disconnected c w now d = Reach-disconnected (update-Reach c w now) d

-- The participants of a view, with how many are counted.
abbrev pub Settled : View → View → Type 0
Settled v u =
    (u.phase ≢ joining_participant)
    × (u.entries ≡ v.entries)
    × (u.count ≡ v.count)
    × (u.overrun ≡ v.overrun)

Step-Settled : {v u : View} → Step v u → v.phase ≢ joining_participant → Settled v u
Step-Settled (stay e) d = rw e (d, refl, refl, refl)
Step-Settled (connect h e) d = rw e (d, refl, refl, refl)
Step-Settled (join ps h j e) d = absurd (d j)
Step-Settled (refuse h e) d = rw e ((λ q. cc), refl, refl, refl)
Step-Settled (Step.start_download h e) d = rw e (d, refl, refl, refl)
Step-Settled (finish_download os h s e) d = rw e (d, refl, refl, refl)
Step-Settled (give_up h e) d = rw e (d, refl, refl, refl)

Reach-Settled : {v u : View} → Reach v u → v.phase ≢ joining_participant → Settled v u
Reach-Settled here d = (d, refl, refl, refl)
Reach-Settled (next r st) d =
    let a = Reach-Settled r d in
    let b = Step-Settled st a.0 in (b.0, b.1 ∙ a.1, b.2 ∙ a.2, b.3 ∙ a.3)

-- Once the join was answered, by a join response or by a refusal, no update changes the
-- participants, and the client is not joining after it.
pub update-Settled :
    {P : Platform} (c : NimbleClient P) (w : World P) (now : ℤ)
    → c.join_participant_phase ≢ joining_participant
    → let o = update c w now in Settled (view c w) (view o.client o.world)
update-Settled c w now d = Reach-Settled (update-Reach c w now) d

-- What a view owes to downloads: a game state block was taken for each.
abbrev pub Downloaded : View → View → Type 0
Downloaded v u =
    (v.next_block ≤ u.next_block)
    × ((v.next_block < u.next_block)
        ⊎ ((u.game_state ≡ v.game_state)
            × (u.state_blocks ≡ v.state_blocks)
            × ((u.state ≢ synced) ⊎ (v.state ≡ synced))))

kept : (s : ClientState) → (s ≢ synced) ⊎ (s ≡ synced)
kept synced = inr refl
kept idle = inl (λ e. cc)
kept _ = inl (λ e. cc)

Step-Downloaded : {v u : View} → Step v u → Downloaded v u
Step-Downloaded {v} (stay e) = rw e (omega arith, inr (refl, refl, kept v.state))
Step-Downloaded (connect h e) = rw e (omega arith, inr (refl, refl, inl (λ s. cc)))
Step-Downloaded {v} (join ps h j e) = rw e (omega arith, inr (refl, refl, kept v.state))
Step-Downloaded {v} (refuse h e) = rw e (omega arith, inr (refl, refl, kept v.state))
Step-Downloaded (Step.start_download h e) = rw e (omega arith, inr (refl, refl, inl (λ s. cc)))
Step-Downloaded (finish_download os h s e) = rw e (omega arith, inl (omega arith))
Step-Downloaded (give_up h e) = rw e (omega arith, inr (refl, refl, inl (λ s. cc)))

Downloaded-trans : (v u t : View) → Downloaded v u → Downloaded u t → Downloaded v t
Downloaded-trans v u t (a, inl l) (b, q) = (omega arith, inl (omega arith))
Downloaded-trans v u t (a, inr (g, bs, k)) (b, inl l) = (omega arith, inl (omega arith))
Downloaded-trans v u t (a, inr (g, bs, k)) (b, inr (g', bs', inl n)) =
    (omega arith, inr (g' ∙ g, bs' ∙ bs, inl n))
Downloaded-trans v u t (a, inr (g, bs, inr k)) (b, inr (g', bs', inr k')) =
    (omega arith, inr (g' ∙ g, bs' ∙ bs, inr k))
Downloaded-trans v u t (a, inr (g, bs, inl n)) (b, inr (g', bs', inr k')) = absurd (n k')

Reach-Downloaded : {v u : View} → Reach v u → Downloaded v u
Reach-Downloaded {v} here = (omega arith, inr (refl, refl, kept v.state))
Reach-Downloaded {v} (next {u} {t} r st) =
    Downloaded-trans v u t (Reach-Downloaded r) (Step-Downloaded st)

-- An update makes a client synced only if in it a download was completed, for which a game state
-- block was taken; if none was, the game state and the game state blocks are as before. (What the
-- pending steps take from the same allocator is not among them.)
pub update-Downloaded :
    {P : Platform} (c : NimbleClient P) (w : World P) (now : ℤ)
    → let o = update c w now in Downloaded (view c w) (view o.client o.world)
update-Downloaded c w now = Reach-Downloaded (update-Reach c w now)
