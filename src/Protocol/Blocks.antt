-- ===== src/Protocol/Blocks.antt =====
-- The live game state blocks along the steps of a session: the one that is held and those lost.
use nimble_client_c.GameState.{free, free_block}
use nimble_client_c.Protocol.{
  give_up, finish_download, start_download, refuse, join, connect, stay, Step, here, next, Reach,
  View,
}
use nimble_client_c.Protocol.Invariant.{has_game_state}
use nimble_client_c.Client.{World, NimbleClient}
use nimble_client_c.Prelude.{
  ==_iff, refl, ap, ltb, ◌||◌, false, none, suc, ◌∷◌, ◌++◌, ◌∷◌, ◌+◌, arith, true, some, ◌-◌, ◌≡◌,
  ◌≤◌, length, ℕ, Bool, List, Option,
}
use nimble_client_c.Platform.{Platform}

-- What a client holds for its game state, the live blocks, and the next block.
abbrev pub Purse : Type 0
Purse = Option ℕ × List (ℕ × List ℕ) × ℕ

abbrev pub purse : {P : Platform} → NimbleClient P → World P → Purse
purse c w = (c.joined_game_state.game_state, w.state_blocks, w.next_block)

-- A purse after any number of blocks was taken, each of them for the game state.
pub data Takes (x : Purse) : Purse → Type 0 where
  untouched : Takes x x
  take :
      {y z : Purse} (octets : List ℕ)
      → Takes x y
      → z ≡ (some y.2, (y.2, octets) ∷ y.1, suc y.2)
      → Takes x z

-- What the live blocks are: the one that is held, the lost ones, and those of before.
abbrev pub Owns : List (ℕ × List ℕ) → List (ℕ × List ℕ) → Purse → Type 0
Owns extra base (none, bs, n) = bs ≡ extra ++ base
Owns extra base (some b, bs, n) = (octets : List ℕ) × (bs ≡ (b, octets) ∷ extra ++ base)

-- How many blocks are lost when so many are taken: all that were held before the last.
abbrev pub lost_by : Bool → ℕ → ℕ
lost_by true n = n
lost_by false n = n - 1

-- What has become of a purse, with the blocks that are lost then.
abbrev pub Spent : List (ℕ × List ℕ) → List (ℕ × List ℕ) → Purse → Purse → Type 0
Spent extra base x y =
    (more : List (ℕ × List ℕ)) × Owns more base y
    × (length more ≡ length extra + lost_by (has_game_state x.0) (y.2 - x.2))

pub lost_by-zero : (held : Bool) (n : ℕ) → lost_by held (n - n) ≡ 0
lost_by-zero true n = omega arith
lost_by-zero false n = omega arith

abbrev Counted : List (ℕ × List ℕ) → List (ℕ × List ℕ) → Purse → Purse → Type 0
Counted extra base x y =
    Spent extra base x y × (x.2 ≤ y.2) × (has_game_state y.0 ≡ (has_game_state x.0 || ltb x.2 y.2))

lost_by-first :
    (held : Bool) (m n : ℕ)
    → m ≤ n
    → false ≡ (held || ltb m n)
    → lost_by held (suc n - m) ≡ lost_by held (n - m)
lost_by-first true m n up h = cc
lost_by-first false m n up h = ground arith

lost_by-later :
    (held : Bool) (m n : ℕ)
    → m ≤ n
    → true ≡ (held || ltb m n)
    → lost_by held (suc n - m) ≡ suc (lost_by held (n - m))
lost_by-later true m n up h = omega arith
lost_by-later false m n up h = ground arith

holds-suc : (held : Bool) (m n : ℕ) → m ≤ n → true ≡ (held || ltb m (suc n))
holds-suc true m n up = refl
holds-suc false m n up = ground arith

holds-same : (held : Bool) (n : ℕ) → held ≡ (held || ltb n n)
holds-same true n = refl
holds-same false n = ground arith

taken :
    (extra base : List (ℕ × List ℕ)) (x y : Purse) (octets : List ℕ)
    → Counted extra base x y
    → Counted extra base x (some y.2, (y.2, octets) ∷ y.1, suc y.2)
taken extra base x (none, bs, n) octets ((more, own, len), up, held) =
    let first = lost_by-first (has_game_state x.0) x.2 n up held in
    (
      (more, (octets, ap (λ l. (n, octets) ∷ l) own), omega (arith, len, first)),
      omega arith,
      holds-suc (has_game_state x.0) x.2 n up,
    )
taken extra base x (some b, bs, n) octets ((more, (os, own), len), up, held) =
    let later = lost_by-later (has_game_state x.0) x.2 n up held in
    (
      ((b, os) ∷ more, (octets, ap (λ l. (n, octets) ∷ l) own), omega (arith, len, later)),
      omega arith,
      holds-suc (has_game_state x.0) x.2 n up,
    )

pub unspent :
    (extra base : List (ℕ × List ℕ)) (x : Purse) → Owns extra base x → Spent extra base x x
unspent extra base x own = (extra, own, omega (arith, lost_by-zero (has_game_state x.0) x.2))

pub Takes-Counted :
    (extra base : List (ℕ × List ℕ)) (x y : Purse)
    → Owns extra base x
    → Takes x y
    → Counted extra base x y
Takes-Counted extra base x _ own untouched =
    (unspent extra base x own, omega arith, holds-same (has_game_state x.0) x.2)
Takes-Counted extra base x z own (take {y} octets t e) =
    rw e (taken extra base x y octets (Takes-Counted extra base x y own t))

pub freed-Owns :
    (extra base : List (ℕ × List ℕ)) (x : Purse) → Owns extra base x → free x.0 x.1 ≡ extra ++ base
unfolding free_block
freed-Owns extra base (none, bs, n) own = own
freed-Owns extra base (some b, bs, n) (octets, own) = rw (own, (==_iff b b).1 refl) refl

-- A step of the protocol takes a block or leaves the purse.
abbrev held_by : View → Purse
held_by v = (v.game_state, v.state_blocks, v.next_block)

Step-Takes : {x : Purse} {v u : View} → Step v u → Takes x (held_by v) → Takes x (held_by u)
Step-Takes (stay e) t = rw e t
Step-Takes (connect h e) t = rw e t
Step-Takes (join ps h j e) t = rw e t
Step-Takes (refuse h e) t = rw e t
Step-Takes (start_download h e) t = rw e t
Step-Takes (finish_download octets h s e) t = rw e (take octets t refl)
Step-Takes (give_up h e) t = rw e t

pub Reach-Takes : {v u : View} → Reach v u → Takes (held_by v) (held_by u)
Reach-Takes here = untouched
Reach-Takes (next r s) = Step-Takes s (Reach-Takes r)
