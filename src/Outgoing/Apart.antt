-- ===== src/Outgoing/Apart.antt =====
-- Sequence numbers that never meet, for an ordering logic that counts: prepare_header.c.
use nimble_client_c.Prelude.{
  ap, refl, sym, ◌∙◌, arith, ◌≡◌, ◌≢◌, ◌≤◌, ◌<◌, ◌+◌, ◌-◌, ◌%◌, ◌∷◌, ◌++◌, [], List, ℕ, suc,
}
use mathlib.Core.Path.{subst}
use native.Mathlib.Nat.{mod-add-mod, mod-eq-sub-mod, mod-eq_of_lt, mod-lt}
use native.Mathlib.Decide.{dec_lt}
use nimble_client_c.Platform.{Platform}
use nimble_client_c.Client.{Sent}
use nimble_client_c.Outgoing.Moves.{
  here, Move, next, numbered, Numbering, prepared, sent, skipped, Trail, unused, Writes,
}

-- What is relied on of ordered-datagram and of the streams: the logic has a number, which a commit
-- raises by one, modulo the period; and what is written behind a header leaves it the number.
pub record NumberLaws (P : Platform) : Type 0 where
  pub period : ℕ
  pub number : P.OrderedOut → ℕ
  pub number_of : List ℕ → ℕ
  pub in_range : (l : P.OrderedOut) → number l < period
  pub prepares : (l : P.OrderedOut) → number (prepared P l) ≡ number l
  pub commits : (l : P.OrderedOut) → number (P.ordered_commit l) ≡ (number l + 1) % period
  pub stamps :
      (l : P.OrderedOut) (out : P.OutStream)
      → Writes P (numbered P l) out
      → number_of (P.out_octets out) ≡ number l

-- None of the datagrams has that number; and no two of them have the same.
abbrev Misses : {P : Platform} → (List ℕ → ℕ) → ℕ → List (Sent P) → Type 0
Misses f n [] = Unit
Misses f n (d ∷ ds) = (f d.octets ≢ n) × Misses f n ds

abbrev pub AllApart : {P : Platform} → (List ℕ → ℕ) → List (Sent P) → Type 0
AllApart f [] = Unit
AllApart f (d ∷ ds) = Misses f (f d.octets) ds × AllApart f ds

-- Fewer steps than the period do not come back to the start.
add-mod-ne : (m a d : ℕ) → a < m → 0 < d → d < m → (a + d) % m ≢ a
add-mod-ne m a d ha pd hd = elim (dec_lt (a + d) m) [
  | yes p ↦ omega (arith, mod-eq_of_lt p)
  | no p ↦ omega (
    arith,
    mod-eq-sub-mod {n = a + d} {m = m} (omega arith),
    mod-eq_of_lt {n = a + d - m} {m = m} (omega arith),
  )
]

mod-add-ne : (m a i j : ℕ) → i < j → j < i + m → (a + j) % m ≢ (a + i) % m
mod-add-ne m a i j h k e =
    add-mod-ne m ((a + i) % m) (j - i) (mod-lt (a + i) (omega arith)) (omega arith) (omega arith)
      (mod-add-mod (a + i) m (j - i) ∙ ap (λ n. n % m) (omega arith) ∙ e)

mod-add-suc : (m a k : ℕ) → ((a + k) % m + 1) % m ≡ (a + suc k) % m
mod-add-suc m a k = mod-add-mod (a + k) m 1 ∙ ap (λ n. n % m) (omega arith)

module _ {P : Platform} (L : NumberLaws P) where
  -- The datagrams have numbers `a + j`, for falling `j` below `k`, the newest first.
  abbrev Stamped : ℕ → ℕ → List (Sent P) → Type 0
  Stamped a k [] = Unit
  Stamped a k (d ∷ ds) =
      (j : ℕ) × (j < k) × (L.number_of d.octets ≡ (a + j) % L.period) × Stamped a j ds

  Stamped-mono : (a k k' : ℕ) (ds : List (Sent P)) → k ≤ k' → Stamped a k ds → Stamped a k' ds
  Stamped-mono a k k' [] h s = s
  Stamped-mono a k k' (d ∷ ds) h (j, below, e, s) = (j, omega arith, e, s)

  Stamped-Misses :
      (a k j : ℕ) (ds : List (Sent P))
      → k ≤ j
      → j < L.period
      → Stamped a k ds
      → Misses L.number_of ((a + j) % L.period) ds
  Stamped-Misses a k j [] h p s = tt
  Stamped-Misses a k j (d ∷ ds) h p (i, below, e, s) = (
    λ same. mod-add-ne L.period a i j (omega arith) (omega arith) (sym same ∙ e),
    Stamped-Misses a i j ds (omega arith) p s,
  )

  Stamped-AllApart :
      (a k : ℕ) (ds : List (Sent P)) → k ≤ L.period → Stamped a k ds → AllApart L.number_of ds
  Stamped-AllApart a k [] h s = tt
  Stamped-AllApart a k (d ∷ ds) h (j, below, e, s) = (
    subst (λ n. Misses L.number_of n ds) (sym e)
        (Stamped-Misses a j j ds (omega arith) (omega arith) s),
    Stamped-AllApart a j ds (omega arith) s,
  )

  -- What a trail has sent, and the number behind it: `k` numbers are used up.
  abbrev Leads : Numbering P → ℕ → Numbering P → Type 0
  Leads x n y =
      (k : ℕ) × (ds : List (Sent P)) × (k ≤ n)
      × (y.1 ≡ ds ++ x.1)
      × (L.number y.0 ≡ (L.number x.0 + k) % L.period)
      × Stamped (L.number x.0) k ds

  counts :
      (x y : Numbering P) (k : ℕ)
      → L.number y.0 ≡ (L.number x.0 + k) % L.period
      → L.number (P.ordered_commit (prepared P y.0)) ≡ (L.number x.0 + suc k) % L.period
  counts x y k at =
      L.commits (prepared P y.0)
      ∙ ap (λ n. (n + 1) % L.period) (L.prepares y.0 ∙ at)
      ∙ mod-add-suc L.period (L.number x.0) k

  Move-Leads : (x y z : Numbering P) (n : ℕ) → Leads x n y → Move y z → Leads x (suc n) z
  Move-Leads x y z n (k, ds, few, box, at, s) (unused e) =
      (k, ds, omega arith, ap (λ t. t.1) e ∙ box, ap (λ t. L.number t.0) e ∙ L.prepares y.0 ∙ at, s)
  Move-Leads x y z n (k, ds, few, box, at, s) (skipped e) = (
    suc k,
    ds,
    omega arith,
    ap (λ t. t.1) e ∙ box,
    ap (λ t. L.number t.0) e ∙ counts x y k at,
    Stamped-mono (L.number x.0) k (suc k) ds (omega arith) s,
  )
  Move-Leads x y z n (k, ds, few, box, at, s) (sent t out written e) = (
    suc k,
    record { through = t; octets = P.out_octets out } ∷ ds,
    omega arith,
    ap (λ t. t.1) e ∙ ap (λ b. record { through = t; octets = P.out_octets out } ∷ b) box,
    ap (λ t. L.number t.0) e ∙ counts x y k at,
    (k, omega arith, L.stamps y.0 out written ∙ at, s),
  )

  Trail-Leads : (x : Numbering P) {n : ℕ} {y : Numbering P} → Trail x n y → Leads x n y
  Trail-Leads x here = (
    0,
    [],
    omega arith,
    refl,
    sym (mod-eq_of_lt (L.in_range x.0)) ∙ ap (λ m. m % L.period) (omega arith),
    tt,
  )
  Trail-Leads x (next t v) = Move-Leads x _ _ _ (Trail-Leads x t) v

  -- No two datagrams sent along a trail shorter than the period have the same number.
  pub Trail-AllApart :
      {x : Numbering P} {n : ℕ} {y : Numbering P}
      → Trail x n y
      → n ≤ L.period
      → (ds : List (Sent P)) × (y.1 ≡ ds ++ x.1) × AllApart L.number_of ds
  Trail-AllApart {x} t h =
      let (k, ds, few, box, at, s) = Trail-Leads x t in
      (ds, box, Stamped-AllApart (L.number x.0) k ds (omega arith) s)
