-- ===== src/Quality/Silence.antt =====
-- How long the server may be silent: connection_quality.c over many ticks.
use nimble_client_c.Prelude.{ℕ, zero, suc, ◌-◌, ◌^◌, ◌≤◌, ◌<◌, ◌≡◌, leb, arith}
use nimble_client_c.Platform.{Platform}
use nimble_client_c.Client.{ConnectionQuality, keep_connection, not_receiving_datagrams, synced}
use nimble_client_c.Quality.{reset, update, should_disconnect}

-- `n` updates of a synced client, with nothing received between them.
pub silent_ticks : {P : Platform} → ℕ → ConnectionQuality P → ConnectionQuality P
silent_ticks zero q = q
silent_ticks (suc n) q = update (silent_ticks n q) synced

pub record AfterSilence {P : Platform} (n : ℕ) (q : ConnectionQuality P) : Type 0 where
  pub steps : q.ticks_without_steps ≡ n
  pub datagrams : q.ticks_without_datagrams ≡ n
  pub counter : q.considering_disconnect_counter ≡ n - 15
  pub kept : n < 76 → q.reason ≡ keep_connection
  pub lost : 76 ≤ n → q.reason ≡ not_receiving_datagrams

pub update-AfterSilence :
    {P : Platform} (n : ℕ) (q : ConnectionQuality P)
    → suc n < 2 ^ 64
    → AfterSilence n q
    → AfterSilence (suc n) (update q synced)
unfolding update
update-AfterSilence n q h a = ground arith

silent_ticks-AfterSilence :
    {P : Platform} (n : ℕ) (q : ConnectionQuality P)
    → n < 2 ^ 64
    → AfterSilence n (silent_ticks n (reset q))
unfolding silent_ticks reset
silent_ticks-AfterSilence zero q h = ground arith
silent_ticks-AfterSilence (suc n) q h =
    update-AfterSilence n _ h (silent_ticks-AfterSilence n q (omega arith))

-- After a reset, a synced client that receives nothing recommends to disconnect exactly from the
-- 76th update on (for fewer than 2 ^ 64 updates): 15 ticks are tolerated and 61 considered.
should_disconnect-silent_ticks :
    {P : Platform} (n : ℕ) (q : ConnectionQuality P)
    → n < 2 ^ 64
    → should_disconnect (silent_ticks n (reset q)) ≡ leb 76 n
unfolding should_disconnect
should_disconnect-silent_ticks n q h = ground (arith, silent_ticks-AfterSilence n q h)
