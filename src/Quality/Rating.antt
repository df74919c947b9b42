-- ===== src/Quality/Rating.antt =====
-- The quality rating stays on its scale: connection_quality.c, under laws of `float`.
use nimble_client_c.Quality.Patience.{
  synced_tick, steps, usable_datagram, latency, tick, count_synced_ticks, Call, run, apply,
}
use nimble_client_c.Quality.{
  count_tick, game_step_latency, received_authoritative_steps, received_usable_datagram,
  dropped_datagrams, max_ticks_without_steps, update, max_ticks_without_datagrams,
  ConnectionQuality, latency_factors, degrade_low_is_better, rate,
}
use nimble_client_c.Prelude.{
  ◌≡◌, [], ◌∷◌, ◌⊎◌, ◌-ℤ◌, to_size, to_int, List, magnitude, arith, ◌-◌, inr, inl, ltb, false,
  Bool-cases, true, ◌<◌, ◌≤◌, if◌then◌else◌, ℕ, Bool,
}
use nimble_client_c.Platform.{Platform}

-- What the rating uses of `float` between 0 and 1: the values that `degradeLowIsBetter` gives are
-- there, products stay there, and five times such a value is at most 5 as an octet.
pub record UnitInterval (P : Platform) : Type 1 where
  pub In : P.Float → Type 0
  pub one : In P.float_one
  pub zero : In P.float_zero
  pub nine_tenths : In P.float_nine_tenths
  pub falling :
      (a b : ℕ)
      → a ≤ b
      → 0 < b
      → In (P.float_sub P.float_one (P.float_div (P.float_of_size a) (P.float_of_size b)))
  pub product : (x y : P.Float) → In x → In y → In (P.float_mul x y)
  pub scaled : (x : P.Float) → In x → P.float_to_u8 (P.float_mul x P.float_five) ≤ 5

module _ {P : Platform} (unit : UnitInterval P) where
  degrade-In :
      (v divisor lower : ℕ) → lower < divisor → unit.In (degrade_low_is_better P v divisor lower)
  unfolding degrade_low_is_better
  degrade-In v divisor lower h = elim (Bool-cases (ltb v lower)) [
    | inl low ↦ rw low unit.one
    | inr up ↦ rw up (elim (Bool-cases (ltb divisor v)) [
      | inl high ↦ rw high unit.zero
      | inr within ↦
          rw within (unit.falling (v - lower) (divisor - lower) (ground arith) (omega arith))
    ])
  ]

  if-In : (b : Bool) (x y : P.Float) → unit.In x → unit.In y → unit.In (if b then x else y)
  if-In true x y h k = h
  if-In false x y h k = k

  latency_factors-In :
      (q : ConnectionQuality P)
      → let f = latency_factors q (degrade_low_is_better P) in unit.In f.0 × unit.In f.1
  unfolding latency_factors
  latency_factors-In q = elim (Bool-cases (P.avg_is_set q.latency_ms_stat)) [
    | inr unset ↦ rw unset (unit.one, unit.one)
    | inl set ↦ rw set (
      if-In
          (ltb 3
            (magnitude (to_int (to_size (P.avg q.latency_ms_stat)) -ℤ to_int q.last_latency_ms)))
          P.float_nine_tenths P.float_one unit.nine_tenths unit.one,
      degrade-In (to_size (P.avg q.latency_ms_stat)) 250 60 (omega arith),
    )
  ]

  rate-quality_rating : (q : ConnectionQuality P) → (rate q).quality_rating ≤ 5
  unfolding rate
  rate-quality_rating q =
      let factors = latency_factors-In q in
      unit.scaled _ (
        unit.product _ _
          (unit.product _ _
            (unit.product _ _
              (unit.product _ _
                (degrade-In q.ticks_without_datagrams max_ticks_without_datagrams 10 (omega arith))
                (degrade-In q.ticks_without_steps max_ticks_without_steps 10 (omega arith)))
              factors.1)
            factors.0)
          (degrade-In q.dropped_datagram_counter 10 1 (omega arith)))

  apply-quality_rating :
      (c : Call) (q : ConnectionQuality P)
      → q.quality_rating ≤ 5 ⊎ (synced_tick c ≡ true)
      → (apply c q).quality_rating ≤ 5
  unfolding apply update dropped_datagrams received_usable_datagram received_authoritative_steps
      game_step_latency
  apply-quality_rating (tick s) q h = ground (arith, rate-quality_rating (count_tick q))
  apply-quality_rating (Call.dropped n) q h = ground arith
  apply-quality_rating usable_datagram q h = ground arith
  apply-quality_rating steps q h = ground arith
  apply-quality_rating (latency n) q h = ground arith

  -- If `float` keeps to the unit interval as the rating expects, a rating of at most 5 is at most 5
  -- after any calls, whatever was received, dropped or measured; and a tick of a synced client makes
  -- it so, whatever it was.
  pub run-quality_rating :
      (cs : List Call) (q : ConnectionQuality P)
      → q.quality_rating ≤ 5 ⊎ (0 < count_synced_ticks cs)
      → (run cs q).quality_rating ≤ 5
  unfolding run
  run-quality_rating [] q (inl h) = h
  run-quality_rating [] q (inr h) = absurd (omega arith)
  run-quality_rating (c ∷ cs) q h = elim (Bool-cases (synced_tick c)) [
    | inl t ↦ apply-quality_rating c (run cs q) (inr t)
    | inr t ↦ apply-quality_rating c (run cs q) (inl (run-quality_rating cs q (rw t at h)))
  ]
