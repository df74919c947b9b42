-- ===== src/Lifecycle/Entries.antt =====
-- Arrays that are read and written at an index: the participants of a response and the entries of
-- the lookup, client.c and join_game_response.c.
use nimble_client_c.Client.{ParticipantEntry}
use nimble_client_c.Prelude.{
  refl, zero, [], ap, arith, false, suc, some, ◌∷◌, ◌≡◌, none, true, ◌≤◌, length, Option, Bool,
  ◌++◌, List, ℕ,
}

-- The element at an index.
unfoldable pub participant_at : {A : Type 0} → List A → ℕ → Option A
participant_at [] i = none
participant_at (x ∷ xs) zero = some x
participant_at (x ∷ xs) (suc i) = participant_at xs i

-- A write at an index, which past the last entry is dropped and reported.
unfoldable pub set_entry :
    ℕ → ParticipantEntry → List ParticipantEntry → List ParticipantEntry × Bool
set_entry i e [] = ([], true)
set_entry zero e (x ∷ es) = (e ∷ es, false)
set_entry (suc i) e (x ∷ es) = let (rest, overrun) = set_entry i e es in (x ∷ rest, overrun)

pub participant_at-append :
    {A : Type 0} (xs : List A) (y : A) (ys : List A)
    → participant_at (xs ++ y ∷ ys) (length xs) ≡ some y
unfolding participant_at
participant_at-append [] y ys = refl
participant_at-append (x ∷ xs) y ys = participant_at-append xs y ys

pub participant_at-past :
    {A : Type 0} (xs : List A) (i : ℕ) → length xs ≤ i → participant_at xs i ≡ none
unfolding participant_at
participant_at-past [] i h = refl
participant_at-past (x ∷ xs) zero h = absurd (omega arith)
participant_at-past (x ∷ xs) (suc i) h = participant_at-past xs i (omega arith)

pub set_entry-append :
    (e y : ParticipantEntry) (xs ys : List ParticipantEntry)
    → set_entry (length xs) e (xs ++ y ∷ ys) ≡ (xs ++ e ∷ ys, false)
unfolding set_entry
set_entry-append e y [] ys = refl
set_entry-append e y (x ∷ xs) ys = ap (λ r. (x ∷ r.0, r.1)) (set_entry-append e y xs ys)

pub set_entry-past :
    (i : ℕ) (e : ParticipantEntry) (xs : List ParticipantEntry)
    → length xs ≤ i
    → set_entry i e xs ≡ (xs, true)
unfolding set_entry
set_entry-past i e [] h = refl
set_entry-past zero e (x ∷ xs) h = absurd (omega arith)
set_entry-past (suc i) e (x ∷ xs) h = ap (λ r. (x ∷ r.0, r.1)) (set_entry-past i e xs (omega arith))
