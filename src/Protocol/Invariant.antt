-- ===== src/Protocol/Invariant.antt =====
-- What holds of every session that the protocol can reach.
use nimble_client_c.GameState.Memory.{free-IsFresh, IsFresh, IsHeld}
use nimble_client_c.Protocol.Updating.{update-Reach}
use nimble_client_c.Prelude.{
  Option, ℕ, Bool, List, length, refl, ap, [], zero, arith, true, replicate, none, ◌∷◌, ◌||◌, false,
  some, inl, suc, ℤ, ◌≡◌, ◌∙◌,
}
use nimble_client_c.Platform.{ResponseParticipant, Platform}
use nimble_client_c.Client.{
  synced, idle, max_local_users_count, World, NimbleClient, ParticipantEntry,
}
use nimble_client_c.Protocol.{
  view, View, Step, stay, give_up, connect, join, refuse, finish_download, Reach, here, next,
}
use nimble_client_c.Handlers.{write_participants}
use nimble_client_c.GameState.{free}
use nimble_client_c.Lifecycle.{update, reset, unused_entry}

-- The first `n` entries are in use.
abbrev pub UsedBelow : ℕ → List ParticipantEntry → Type 0
UsedBelow zero es = Unit
UsedBelow (suc n) [] = ⊥
UsedBelow (suc n) (e ∷ es) = (e.is_used ≡ true) × UsedBelow n es

abbrev pub has_game_state : Option ℕ → Bool
has_game_state none = false
has_game_state (some b) = true

pub record IsValid (v : View) : Type 0 where
  pub entries_length : length v.entries ≡ max_local_users_count
  pub counted : v.overrun ≡ false → UsedBelow v.count v.entries
  pub held : IsHeld v.game_state v.state_blocks
  pub fresh : IsFresh v.next_block v.state_blocks
  pub downloaded : v.state ≡ synced → has_game_state v.game_state ≡ true

length-write_participants :
    (ps : List ResponseParticipant) (es : List ParticipantEntry)
    → length (write_participants ps es).0 ≡ length es
unfolding write_participants
length-write_participants [] es = refl
length-write_participants (p ∷ ps) [] = refl
length-write_participants (p ∷ ps) (e ∷ es) = ap suc (length-write_participants ps es)

write_participants-UsedBelow :
    (ps : List ResponseParticipant) (es : List ParticipantEntry)
    → (write_participants ps es).1 ≡ false
    → UsedBelow (length ps) (write_participants ps es).0
unfolding write_participants
write_participants-UsedBelow [] es h = tt
write_participants-UsedBelow (p ∷ ps) [] h = cc
write_participants-UsedBelow (p ∷ ps) (e ∷ es) h = (refl, write_participants-UsedBelow ps es h)

or-false : (a b : Bool) → (a || b) ≡ false → b ≡ false
or-false a b h = ground arith

Step-IsValid : {v u : View} → Step v u → IsValid v → IsValid u
Step-IsValid (stay e) k = rw e k
Step-IsValid (connect h e) k = rw e (record {
  entries_length = k.entries_length;
  counted = k.counted;
  held = k.held;
  fresh = k.fresh;
  downloaded = λ d. cc;
})
Step-IsValid {v} (join ps h j e) k = rw e (record {
  entries_length = length-write_participants ps v.entries ∙ k.entries_length;
  counted = λ o. write_participants-UsedBelow ps v.entries (or-false v.overrun _ o);
  held = k.held;
  fresh = k.fresh;
  downloaded = k.downloaded;
})
Step-IsValid (refuse h e) k = rw e (record {
  entries_length = k.entries_length;
  counted = k.counted;
  held = k.held;
  fresh = k.fresh;
  downloaded = k.downloaded;
})
Step-IsValid (Step.start_download h e) k = rw e (record {
  entries_length = k.entries_length;
  counted = k.counted;
  held = k.held;
  fresh = k.fresh;
  downloaded = λ d. cc;
})
Step-IsValid (finish_download octets h s e) k = rw e (record {
  entries_length = k.entries_length;
  counted = k.counted;
  held = inl refl;
  fresh = (omega arith, k.fresh);
  downloaded = λ d. refl;
})
Step-IsValid (give_up h e) k = rw e (record {
  entries_length = k.entries_length;
  counted = k.counted;
  held = k.held;
  fresh = k.fresh;
  downloaded = λ d. cc;
})

Reach-IsValid : {v u : View} → Reach v u → IsValid v → IsValid u
Reach-IsValid here k = k
Reach-IsValid (next r st) k = Step-IsValid st (Reach-IsValid r k)

-- An update, whatever arrives, keeps the session valid: there are eight participant entries, those
-- that are counted are in use (as long as no response overran them), the game state is a live game
-- state block, those blocks are distinct, and a synced client has a game state.
pub update-IsValid :
    {P : Platform} (c : NimbleClient P) (w : World P) (now : ℤ)
    → IsValid (view c w)
    → let o = update c w now in IsValid (view o.client o.world)
update-IsValid c w now k = Reach-IsValid (update-Reach c w now) k

module _ {P : Platform} (c : NimbleClient P) (w : World P) where
  reset-view : view (reset c w).0 (reset c w).1 ≡ record {
    state = idle;
    phase = c.join_participant_phase;
    entries = replicate max_local_users_count unused_entry;
    overrun = c.lookup_overrun;
    count = 0;
    game_state = none;
    state_blocks = free c.joined_game_state.game_state w.state_blocks;
    next_block = w.next_block;
  }
  unfolding reset
  reset-view = ground arith

-- A reset makes the session valid, whatever the client held before, if the game state blocks
-- are distinct and below the next one.
pub reset-IsValid :
    {P : Platform} (c : NimbleClient P) (w : World P)
    → IsFresh w.next_block w.state_blocks
    → IsValid (view (reset c w).0 (reset c w).1)
reset-IsValid c w k = rw (reset-view c w) (record {
  entries_length = refl;
  counted = λ o. tt;
  held = tt;
  fresh = free-IsFresh c.joined_game_state.game_state w.next_block w.state_blocks k;
  downloaded = λ d. cc;
})
