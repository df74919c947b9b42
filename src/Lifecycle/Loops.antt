-- ===== src/Lifecycle/Loops.antt =====
-- The loops over the participants as they are written, by index: `nimbleClientOnJoinGameResponse` and
-- `nimbleClientFindParticipantId`.
use nimble_client_c.Lifecycle.Entries.{
  participant_at-append, set_entry-append, set_entry, participant_at-past, participant_at,
  set_entry-past,
}
use nimble_client_c.Lifecycle.{find_in_entries}
use mathlib.Core.List.{append_assoc}
use nimble_client_c.Handlers.{write_participants, entry_of}
use nimble_client_c.Platform.{ResponseParticipant}
use nimble_client_c.Client.{ParticipantEntry}
use nimble_client_c.Prelude.{
  Bool-cases, ◌+◌, sym, inr, ◌∙◌, inl, length-append, ◌⊎◌, ◌^◌, ◌<◌, ◌||◌, ◌==◌, refl, zero, ltb,
  [], inc_size, if◌then◌else◌, ap, arith, false, suc, some, ◌∷◌, ◌≡◌, none, true, ◌≤◌, length,
  Option, Bool, ◌++◌, List, ℕ,
}

-- The loop over the participants of a response, on fuel; `none` means that it ran out.
unfoldable pub write_loop :
    ℕ
    → ℕ
    → List ResponseParticipant
    → List ParticipantEntry
    → Bool
    → Option (List ParticipantEntry × Bool)
write_loop zero i ps es overrun = none
write_loop (suc fuel) i ps es overrun =
    if ltb i (length ps)
    then elim (participant_at ps i) [
      | none ↦ none
      | some p ↦
          let (es', past) = set_entry i (entry_of p) es in
          write_loop fuel (inc_size i) ps es' (overrun || past)
    ]
    else some (es, overrun)

-- The loop over the entries that are counted: it returns at the first with that index.
unfoldable pub find_loop : ℕ → ℕ → ℕ → List ParticipantEntry → ℕ → Option (Option ℕ)
find_loop zero i count es index = none
find_loop (suc fuel) i count es index =
    let more = find_loop fuel (inc_size i) count es index in
    if ltb i count
    then elim (participant_at es i) [
      | none ↦ some none
      | some e ↦ if e.local_user_device_index == index then some (some e.participant_id) else more
    ]
    else some none

or-false : (a : Bool) → (a || false) ≡ a
or-false a = ground arith

or-true : (a b : Bool) → ((a || true) || b) ≡ (a || true)
or-true a b = ground arith

write_participants-none : (ps : List ResponseParticipant) → (write_participants ps []).0 ≡ []
unfolding write_participants
write_participants-none [] = refl
write_participants-none (p ∷ ps) = refl

write_loop_done :
    (fuel i : ℕ) (all : List ResponseParticipant) (es : List ParticipantEntry) (overrun : Bool)
    → ltb i (length all) ≡ false
    → write_loop (suc fuel) i all es overrun ≡ some (es, overrun)
unfolding write_loop
write_loop_done fuel i all es overrun ends = rw ends refl

-- The loop at an index, with a participant there.
write_loop_at :
    (fuel i : ℕ) (all qs ps : List ResponseParticipant) (p : ResponseParticipant)
    (es es' : List ParticipantEntry) (overrun past : Bool)
    → all ≡ qs ++ p ∷ ps
    → i ≡ length qs
    → length all < 2 ^ 64
    → set_entry i (entry_of p) es ≡ (es', past)
    → (write_loop (suc fuel) i all es overrun ≡ write_loop fuel (suc i) all es' (overrun || past))
      × (suc i ≡ length (qs ++ p ∷ []))
unfolding write_loop
write_loop_at fuel i all qs ps p es es' overrun past e at small writes =
    let sizes = length-append qs (p ∷ ps) in
    let there : ltb i (length all) ≡ true = ground (arith, ap length e, sizes) in
    let next : inc_size i ≡ suc i = ground (arith, ap length e, sizes) in
    let found : participant_at all i ≡ some p =
      ap (λ l. participant_at l i) e
      ∙ ap (λ n. participant_at (qs ++ p ∷ ps) n) at
      ∙ participant_at-append qs p ps in
    (rw (there, found, writes, next) refl, omega (arith, length-append qs (p ∷ [])))

-- The loop from an index on, with the participants and the entries ahead of it done.
write_loop_from :
    (fuel i : ℕ) (all qs ps : List ResponseParticipant) (ds es : List ParticipantEntry)
    (overrun : Bool)
    → all ≡ qs ++ ps
    → i ≡ length qs
    → length all < 2 ^ 64
    → length ps < fuel
    → (length ds ≡ length qs) ⊎ ((es ≡ []) × (length ds ≤ length qs))
    → write_loop fuel i all (ds ++ es) overrun
      ≡ some (ds ++ (write_participants ps es).0, overrun || (write_participants ps es).1)
unfolding write_participants
write_loop_from zero i all qs ps ds es overrun e at small enough aligned = absurd (omega arith)
write_loop_from (suc fuel) i all qs [] ds es overrun e at small enough aligned =
    let ends : ltb i (length all) ≡ false = ground (arith, ap length e, length-append qs []) in
    write_loop_done fuel i all (ds ++ es) overrun ends
    ∙ ap (λ b. some (ds ++ es, b)) (sym (or-false overrun))
write_loop_from (suc fuel) i all qs (p ∷ ps) ds [] overrun e at small enough aligned =
    let behind : length ds ≤ length qs = elim aligned [ inl k ↦ omega arith | inr k ↦ k.1 ] in
    let (round, next) =
      write_loop_at fuel i all qs ps p (ds ++ []) (ds ++ []) overrun true e at small
        (set_entry-past i (entry_of p) (ds ++ []) (omega (arith, length-append ds []))) in
    round
    ∙ write_loop_from fuel (suc i) all (qs ++ p ∷ []) ps ds [] (overrun || true)
        (e ∙ sym (append_assoc qs (p ∷ []) ps)) next small (omega arith)
        (inr (refl, omega (arith, next)))
    ∙ ap (λ l. some (ds ++ l, (overrun || true) || (write_participants ps []).1))
        (write_participants-none ps)
    ∙ ap (λ b. some (ds ++ [], b)) (or-true overrun (write_participants ps []).1)
write_loop_from (suc fuel) i all qs (p ∷ ps) ds (y ∷ es) overrun e at small enough aligned =
    let level : length ds ≡ length qs = elim aligned [
      | inl k ↦ k
      | inr k ↦ absurd (let c = k.0 in cc)
    ] in
    let x = entry_of p in
    let (round, next) =
      write_loop_at fuel i all qs ps p (ds ++ y ∷ es) (ds ++ x ∷ es) overrun false e at small
        (ap (λ n. set_entry n x (ds ++ y ∷ es)) (at ∙ sym level) ∙ set_entry-append x y ds es) in
    let ih =
      write_loop_from fuel (suc i) all (qs ++ p ∷ []) ps (ds ++ x ∷ []) es (overrun || false)
        (e ∙ sym (append_assoc qs (p ∷ []) ps)) next small (omega arith)
        (inl (omega (arith, next, length-append ds (x ∷ [])))) in
    let (more, past) = write_participants ps es in
    round
    ∙ ap (λ l. write_loop fuel (suc i) all l (overrun || false)) (sym (append_assoc ds (x ∷ []) es))
    ∙ ih
    ∙ ap (λ l. some (l, (overrun || false) || past)) (append_assoc ds (x ∷ []) more)
    ∙ ap (λ b. some (ds ++ x ∷ more, b || past)) (or-false overrun)

-- The loop over the entries from an index on, with `n` more to be looked at.
find_loop_from :
    (fuel i n count : ℕ) (all ds es : List ParticipantEntry) (index : ℕ)
    → all ≡ ds ++ es
    → i ≡ length ds
    → count ≡ i + n
    → count < 2 ^ 64
    → n < fuel
    → find_loop fuel i count all index ≡ some (find_in_entries n es index)
unfolding find_loop find_in_entries
find_loop_from zero i n count all ds es index e at left small enough = absurd (omega arith)
find_loop_from (suc fuel) i zero count all ds es index e at left small enough =
    let ends : ltb i count ≡ false = ground arith in rw ends refl
find_loop_from (suc fuel) i (suc n) count all ds [] index e at left small enough =
    let goes_on : ltb i count ≡ true = ground arith in
    let past = participant_at-past all i (omega (arith, ap length e, length-append ds [])) in
    rw (goes_on, past) refl
find_loop_from (suc fuel) i (suc n) count all ds (x ∷ es) index e at left small enough =
    let goes_on : ltb i count ≡ true = ground arith in
    let next : inc_size i ≡ suc i = ground arith in
    let found : participant_at all i ≡ some x =
      ap (λ l. participant_at l i) e
      ∙ ap (λ k. participant_at (ds ++ x ∷ es) k) at
      ∙ participant_at-append ds x es in
    let ih =
      find_loop_from fuel (suc i) n count all (ds ++ x ∷ []) es index
        (e ∙ sym (append_assoc ds (x ∷ []) es)) (omega (arith, length-append ds (x ∷ [])))
        (omega arith) small (omega arith) in
    elim (Bool-cases (x.local_user_device_index == index)) [
      | inl k ↦ rw (goes_on, found, k) refl
      | inr k ↦ rw (goes_on, found, k, next) ih
    ]

-- The loops over the participants as they are written, by index, end with more fuel than participants
-- and counted entries, and give what the recursions on the lists give: the one writes the same
-- entries and overruns the same, the other finds the same id or none. (There are fewer than 2 ^ 64
-- participants and counted entries.)
pub participant_loops_lem :
    (fuel : ℕ) (ps : List ResponseParticipant) (es : List ParticipantEntry) (count index : ℕ)
    → length ps < fuel
    → count < fuel
    → length ps < 2 ^ 64
    → count < 2 ^ 64
    → (write_loop fuel 0 ps es false ≡ some (write_participants ps es))
      × (find_loop fuel 0 count es index ≡ some (find_in_entries count es index))
participant_loops_lem fuel ps es count index enough enough' small small' = (
  write_loop_from fuel 0 ps [] ps [] es false refl refl small enough (inl refl),
  find_loop_from fuel 0 count count es [] es index refl refl (omega arith) small' enough',
)
