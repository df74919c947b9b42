-- ===== src/Outgoing/Moves.antt =====
-- The moves of the sequence number and what is written behind a header: what outgoing.c and
-- send_steps.c are made of, with prepare_header.c.
use nimble_client_c.Prelude.{arith, ◌≡◌, ◌≤◌, ◌+◌, ◌∷◌, List, ℕ, Bool, suc}
use nimble_client_c.Platform.{OutgoingCommand, Platform}
use nimble_client_c.Client.{NimbleClient, Sent, World}

-- What a stream becomes by writing behind it.
pub data Writes (P : Platform) (a : P.OutStream) : P.OutStream → Type 0 where
  nothing : Writes P a a
  u8 : {b : P.OutStream} (x : ℕ) → Writes P a b → Writes P a (P.write_u8 b x)
  u16 : {b : P.OutStream} (x : ℕ) → Writes P a b → Writes P a (P.write_u16 b x).1
  command :
      {b : P.OutStream} (x : OutgoingCommand) → Writes P a b → Writes P a (P.write_command b x)
  connect :
      {b : P.OutStream} (v : P.Version) (debug : Bool) (id : ℕ)
      → Writes P a b
      → Writes P a (P.write_connect_request b v debug id)
  join :
      {b : P.OutStream} (nonce : ℕ) (content : P.JoinContent)
      → Writes P a b
      → Writes P a (P.write_join_request b nonce content)
  blob :
      {b : P.OutStream} (l : P.BlobLogicIn) (s : P.BlobIn)
      → Writes P a b
      → Writes P a (P.blob_logic_send l s b).2
  pending :
      {b : P.OutStream} (id mask : ℕ) → Writes P a b → Writes P a (P.pending_out_header b id mask).1
  steps : {b : P.OutStream} (s : P.Steps) → Writes P a b → Writes P a (P.steps_out_serialize b s).1

-- What the client's sequence number and what it has sent depend on.
abbrev pub Numbering : Platform → Type 0
Numbering P = P.OrderedOut × List (Sent P)

abbrev pub numbering : {P : Platform} → NimbleClient P → World P → Numbering P
numbering c w = (c.ordered_datagram_out, w.outbox)

-- The logic and the stream once the sequence number is written, and the logic once it is committed.
abbrev pub prepared : (P : Platform) → P.OrderedOut → P.OrderedOut
prepared P l = (P.ordered_prepare l (P.out_init P.datagram_max_size)).0

abbrev pub numbered : (P : Platform) → P.OrderedOut → P.OutStream
numbered P l = (P.ordered_prepare l (P.out_init P.datagram_max_size)).1

-- A header is written and nothing comes of it; or its number is committed, with nothing sent; or it is
-- committed and a datagram is sent that was written behind it.
pub data Move {P : Platform} (x y : Numbering P) : Type 0 where
  unused : y ≡ (prepared P x.0, x.1) → Move x y
  skipped : y ≡ (P.ordered_commit (prepared P x.0), x.1) → Move x y
  sent :
      (t : P.Transport) (out : P.OutStream)
      → Writes P (numbered P x.0) out
      → y ≡ (
        P.ordered_commit (prepared P x.0),
        record { through = t; octets = P.out_octets out } ∷ x.1,
      )
      → Move x y

-- As many such moves, one after the other.
pub data Trail {P : Platform} (x : Numbering P) : ℕ → Numbering P → Type 0 where
  here : Trail x 0 x
  next : {n : ℕ} {y z : Numbering P} → Trail x n y → Move y z → Trail x (suc n) z

-- At most so many.
abbrev pub Within : {P : Platform} → ℕ → Numbering P → Numbering P → Type 0
Within k x y = (n : ℕ) × (n ≤ k) × Trail x n y

Trail-trans :
    {P : Platform} {m : ℕ} {x y : Numbering P} {n : ℕ} {z : Numbering P}
    → Trail x m y
    → Trail y n z
    → (k : ℕ) × (k ≡ m + n) × Trail x k z
Trail-trans {m = m} t here = (m, omega arith, t)
Trail-trans t (next q v) = let (k, e, r) = Trail-trans t q in (suc k, omega (arith, e), next r v)

pub Within-trans :
    {P : Platform} (a b : ℕ) {x y z : Numbering P}
    → Within a x y
    → Within b y z
    → Within (a + b) x z
Within-trans a b (m, h, t) (n, g, q) = let (k, e, r) = Trail-trans t q in (k, omega (arith, e), r)

-- The stream behind the header, as the client writes it now.
abbrev pub timed : (P : Platform) → P.OrderedOut → ℕ → P.OutStream
timed P l n = (P.write_u16 (numbered P l) (P.time_to_lower_bits (P.clock n))).1

module _ {P : Platform} where
  pub none-Within : (k : ℕ) (x y : Numbering P) → y ≡ x → Within k x y
  none-Within k x y e = (0, omega arith, rw e here)

  pub one_of_two : {x y : Numbering P} → Within 1 x y → Within 2 x y
  one_of_two (n, h, t) = (n, omega arith, t)

  pub once : (x y : Numbering P) → Move x y → Within 1 x y
  once x y v = (1, omega arith, next here v)
  -- What the state's message writes, and that it leaves the logic alone.
