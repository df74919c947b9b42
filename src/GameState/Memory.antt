-- ===== src/GameState/Memory.antt =====
-- The live game state blocks: game_state.c.
use nimble_client_c.Prelude.{
  none, some, List, ℕ, Option, ==_iff, inr, inl, ◌==◌, refl, arith, Bool-cases, ◌⊎◌, ◌<◌, ◌∷◌, [],
  ◌↔◌, ◌≢◌, ◌≤◌, ◌≡◌,
}
use nimble_client_c.GameState.{free_block, free, destroy}
use nimble_client_c.Client.{World, GameState}
use nimble_client_c.Platform.{Platform}

abbrev pub IsLive : ℕ → List (ℕ × List ℕ) → Type 0
IsLive b [] = ⊥
IsLive b ((b', _) ∷ rest) = (b ≡ b') ⊎ IsLive b rest

abbrev pub IsHeld : Option ℕ → List (ℕ × List ℕ) → Type 0
IsHeld none state_blocks = Unit
IsHeld (some b) state_blocks = IsLive b state_blocks

-- The blocks are named by distinct numbers below the bound, the newest first.
abbrev pub IsFresh : ℕ → List (ℕ × List ℕ) → Type 0
IsFresh n [] = Unit
IsFresh n ((b, _) ∷ rest) = (b < n) × IsFresh b rest

IsFresh-mono : {m n : ℕ} (bs : List (ℕ × List ℕ)) → m ≤ n → IsFresh m bs → IsFresh n bs
IsFresh-mono [] h k = tt
IsFresh-mono ((b, _) ∷ bs) h k = (omega arith, k.1)

free_block-IsFresh : (b n : ℕ) (bs : List (ℕ × List ℕ)) → IsFresh n bs → IsFresh n (free_block b bs)
unfolding free_block
free_block-IsFresh b n [] k = tt
free_block-IsFresh b n ((b', os) ∷ bs) k =
    ground (arith, free_block-IsFresh b b' bs k.1, IsFresh-mono {m = b'} {n = n} bs)

pub free-IsFresh :
    (g : Option ℕ) (n : ℕ) (bs : List (ℕ × List ℕ)) → IsFresh n bs → IsFresh n (free g bs)
free-IsFresh none n bs k = k
free-IsFresh (some b) n bs k = free_block-IsFresh b n bs k

live-lt : (b n : ℕ) (bs : List (ℕ × List ℕ)) → IsFresh n bs → IsLive b bs → b < n
live-lt b n [] k l = elim l [ ]
live-lt b n ((b', os) ∷ bs) k (inl e) = omega arith
live-lt b n ((b', os) ∷ bs) k (inr l) = omega (arith, live-lt b b' bs k.1 l)

free_block-IsLive : (b n : ℕ) (bs : List (ℕ × List ℕ)) → IsFresh n bs → ¬ IsLive b (free_block b bs)
unfolding free_block
free_block-IsLive b n [] k = λ l. l
free_block-IsLive b n ((b', os) ∷ bs) k = elim (Bool-cases (b' == b)) [
  | inl e ↦ rw e (λ l. absurd (omega (arith, live-lt b b' bs k.1 l, (==_iff b' b).0 e)))
  | inr e ↦ rw e (λ l. elim l [ inl q ↦ ground arith | inr q ↦ free_block-IsLive b b' bs k.1 q ])
]

free_block-IsLive_ne :
    (b b' : ℕ) (bs : List (ℕ × List ℕ)) → b' ≢ b → IsLive b' (free_block b bs) ↔ IsLive b' bs
unfolding free_block
free_block-IsLive_ne b b' [] h = (λ l. l, λ l. l)
free_block-IsLive_ne b b' ((d, os) ∷ bs) h = elim (Bool-cases (d == b)) [
  | inl e ↦ rw e (inr, λ l. elim l [ inl q ↦ absurd (ground arith) | inr q ↦ q ])
  | inr e ↦
      let ih = free_block-IsLive_ne b b' bs h in
      rw e (
        λ l. elim l [ inl q ↦ inl q | inr q ↦ inr (ih.0 q) ],
        λ l. elim l [ inl q ↦ inl q | inr q ↦ inr (ih.1 q) ],
      )
]

-- Freeing a game state ends that block's life and no other's: the pointer is null, the block is not
-- live any more, and another block is live exactly if it was.
destroy_frees :
    {P : Platform} (g : GameState) (w : World P) (b b' : ℕ)
    → g.game_state ≡ some b
    → IsFresh w.next_block w.state_blocks
    → b' ≢ b
    → ((destroy g w).0.game_state ≡ none)
      × (¬ IsLive b (destroy g w).1.state_blocks)
      × (IsLive b' (destroy g w).1.state_blocks ↔ IsLive b' w.state_blocks)
unfolding destroy
destroy_frees g w b b' e k h =
    rw (e, free)
      (
        refl,
        free_block-IsLive b w.next_block w.state_blocks k,
        free_block-IsLive_ne b b' w.state_blocks h,
      )
