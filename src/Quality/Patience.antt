-- ===== src/Quality/Patience.antt =====
-- The calls of connection_quality.c in any order: what the tick counters count, and when the
-- recommendation to disconnect is made.
use nimble_client_c.Prelude.{
  inr, inl, inc_size, ◌⊎◌, ℕ, suc, ◌^◌, ◌≤◌, ◌<◌, ◌≡◌, refl, if◌then◌else◌, arith, List, [], ◌∷◌,
  Bool, true, false, length,
}
use nimble_client_c.Platform.{Platform}
use nimble_client_c.Client.{
  DisconnectReason, idle, DisconnectReason, idle, ConnectionQuality, synced, ClientState,
}
use nimble_client_c.Quality.{
  rate, consider, recommendation, count_tick, is_keep, is_keep, reset, update, should_disconnect,
  dropped_datagrams, received_usable_datagram, received_authoritative_steps, game_step_latency,
  is_synced,
}

-- A call that the client makes of its quality record.
pub data Call : Type 0 where
  tick : ClientState → Call
  dropped : ℕ → Call
  usable_datagram : Call
  steps : Call
  latency : ℕ → Call

unfoldable pub apply : {P : Platform} → Call → ConnectionQuality P → ConnectionQuality P
apply (tick s) q = update q s
apply (dropped n) q = dropped_datagrams q n
apply usable_datagram q = received_usable_datagram q
apply steps q = received_authoritative_steps q
apply (latency n) q = game_step_latency q n

-- The calls stand with the last one first.
unfoldable pub run : {P : Platform} → List Call → ConnectionQuality P → ConnectionQuality P
run [] q = q
run (c ∷ cs) q = apply c (run cs q)

abbrev pub synced_tick : Call → Bool
synced_tick (tick s) = is_synced s
synced_tick _ = false

abbrev pub count_synced_ticks : List Call → ℕ
count_synced_ticks [] = 0
count_synced_ticks (c ∷ cs) =
    let rest = count_synced_ticks cs in if synced_tick c then suc rest else rest

abbrev is_steps : Call → Bool
is_steps steps = true
is_steps _ = false

abbrev is_usable_datagram : Call → Bool
is_usable_datagram usable_datagram = true
is_usable_datagram _ = false

-- The synced ticks since the last call that `resets` picks.
abbrev ticks_since : (Call → Bool) → List Call → ℕ
ticks_since resets [] = 0
ticks_since resets (c ∷ cs) =
    let rest = ticks_since resets cs in
    if resets c then 0 else if synced_tick c then suc rest else rest

pub record Counted {P : Platform} (cs : List Call) (q : ConnectionQuality P) : Type 0 where
  steps_exact : q.ticks_without_steps ≡ ticks_since is_steps cs
  pub datagrams_exact : q.ticks_without_datagrams ≡ ticks_since is_usable_datagram cs
  counter_bounded : q.considering_disconnect_counter ≤ count_synced_ticks cs
  steps_bounded : ticks_since is_steps cs ≤ length cs
  pub datagrams_bounded : ticks_since is_usable_datagram cs ≤ length cs
  ticks_bounded : count_synced_ticks cs ≤ length cs
  pub patient : is_keep q.reason ≡ false → 60 < count_synced_ticks cs

update-ticks :
    {P : Platform} (q : ConnectionQuality P) (s : ClientState)
    → ((update q s).ticks_without_steps
        ≡ (if is_synced s then inc_size q.ticks_without_steps else q.ticks_without_steps))
      × ((update q s).ticks_without_datagrams
          ≡ (if is_synced s then inc_size q.ticks_without_datagrams else q.ticks_without_datagrams))
unfolding update
update-ticks q s = ground arith

pub update-counter-le :
    {P : Platform} (q : ConnectionQuality P) (s : ClientState)
    → (update q s).considering_disconnect_counter ≤ (
        if is_synced s
        then suc q.considering_disconnect_counter
        else q.considering_disconnect_counter)
unfolding update
update-counter-le q s = ground arith

consider-reason :
    {P : Platform} (r : DisconnectReason) (q : ConnectionQuality P)
    → is_keep (consider r q).reason ≡ false
    → (is_keep q.reason ≡ false) ⊎ (60 < (consider r q).considering_disconnect_counter)
unfolding consider
consider-reason r q h = ground arith

pub update-reason :
    {P : Platform} (q : ConnectionQuality P) (s : ClientState)
    → is_keep (update q s).reason ≡ false
    → (is_keep q.reason ≡ false)
      ⊎ ((is_synced s ≡ true) × (60 < (update q s).considering_disconnect_counter))
unfolding update
update-reason q synced h =
    elim (consider-reason (recommendation (count_tick q)) (rate (count_tick q)) h) [
      | inl e ↦ inl e
      | inr e ↦ inr (refl, e)
    ]
update-reason q idle h = inl h
update-reason q _ h = inl h

apply-Counted :
    {P : Platform} (c : Call) (cs : List Call) (q : ConnectionQuality P)
    → suc (length cs) < 2 ^ 64
    → Counted cs q
    → Counted (c ∷ cs) (apply c q)
unfolding apply dropped_datagrams received_usable_datagram received_authoritative_steps
    game_step_latency
apply-Counted (tick s) cs q h k =
    ground (arith, update-ticks q s, update-counter-le q s, update-reason q s)
apply-Counted (dropped n) cs q h k = ground arith
apply-Counted usable_datagram cs q h k = ground arith
apply-Counted steps cs q h k = ground arith
apply-Counted (latency n) cs q h k = ground arith

run-Counted :
    {P : Platform} (cs : List Call) (q : ConnectionQuality P)
    → length cs < 2 ^ 64
    → Counted cs (run cs (reset q))
unfolding run reset
run-Counted [] q h = ground arith
run-Counted (c ∷ cs) q h = apply-Counted c cs _ h (run-Counted cs q (omega arith))

-- Over any fewer than 2 ^ 64 calls after a reset, the two tick counters are the synced ticks since
-- the last authoritative steps and since the last usable datagram.
pub run_counters :
    {P : Platform} (cs : List Call) (q : ConnectionQuality P)
    → length cs < 2 ^ 64
    → ((run cs (reset q)).ticks_without_steps ≡ ticks_since is_steps cs)
      × ((run cs (reset q)).ticks_without_datagrams ≡ ticks_since is_usable_datagram cs)
run_counters cs q h = ground (arith, run-Counted cs q h)

-- Whatever is received or dropped, a disconnect is recommended only after more than 60 synced ticks
-- since the reset (over fewer than 2 ^ 64 calls).
pub should_disconnect_patient :
    {P : Platform} (cs : List Call) (q : ConnectionQuality P)
    → length cs < 2 ^ 64
    → should_disconnect (run cs (reset q)) ≡ true
    → 60 < count_synced_ticks cs
unfolding should_disconnect
should_disconnect_patient cs q h d = ground (arith, run-Counted cs q h)

apply-should_disconnect :
    {P : Platform} (c : Call) (q : ConnectionQuality P)
    → should_disconnect q ≡ true
    → should_disconnect (apply c q) ≡ true
unfolding should_disconnect apply update dropped_datagrams received_usable_datagram
    received_authoritative_steps game_step_latency
apply-should_disconnect (tick s) q h = ground arith
apply-should_disconnect (dropped n) q h = h
apply-should_disconnect usable_datagram q h = h
apply-should_disconnect steps q h = h
apply-should_disconnect (latency n) q h = h

-- A recommendation to disconnect is never withdrawn by any later calls; only a reset does that.
should_disconnect-run :
    {P : Platform} (cs : List Call) (q : ConnectionQuality P)
    → should_disconnect q ≡ true
    → (should_disconnect (run cs q) ≡ true) × (should_disconnect (reset q) ≡ false)
unfolding run should_disconnect reset
should_disconnect-run [] q h = (h, refl)
should_disconnect-run (c ∷ cs) q h =
    (apply-should_disconnect c (run cs q) (should_disconnect-run cs q h).0, refl)
