-- ===== src/Incoming/Accounts.antt =====
-- The numbers of the datagrams that are received and of those counted as dropped: incoming.c and
-- receive_transport.c.
use nimble_client_c.Incoming.Unchanged.{
  feed_ordered-Unchanged, note_packet_in-same, note_dropped-counter,
}
use native.Mathlib.Nat.{mod-add-mod, mod-eq_of_lt}
use nimble_client_c.Quality
use nimble_client_c.Prelude.{
  suc, sym, inc_size, [], ◌∷◌, ltb, length, negsuc, pos, ap, List, ◌≤◌, ◌-◌, ℤ, ◌∙◌, inr, inl,
  Bool-cases, is_negative, arith, ◌^◌, magnitude, ◌%◌, true, false, is_positive, ◌+◌, ◌<◌, ◌≡◌, ℕ,
}
use nimble_client_c.Incoming.{
  receive_all_datagrams_from_transport, note_usable, receive_from, note_packet_in,
  read_and_check_ordered_datagram, note_dropped, feed, is_disconnected, feed_ordered,
}
use nimble_client_c.Client.{datagram, failure, Received, World, NimbleClient}
use nimble_client_c.Platform.{Platform}

-- What is relied on of ordered-datagram: the logic has a last number, below a period; a datagram that
-- it takes for newer moves that number on by the positive difference it returns.
pub record OrderLaws (P : Platform) : Type 0 where
  pub period : ℕ
  pub last : P.OrderedIn → ℕ
  pub in_range : (l : P.OrderedIn) → last l < period
  pub receives :
      (l : P.OrderedIn) (s : P.InStream)
      → is_positive (P.ordered_receive l s).0 ≡ true
      → last (P.ordered_receive l s).1 ≡ (last l + magnitude (P.ordered_receive l s).0) % period

-- From one client to another so many datagrams were received and so many counted as dropped.
pub record Accounts {P : Platform} (L : OrderLaws P) (received missed : ℕ) (c c' : NimbleClient P)
    : Type 0 where
  pub numbers :
      L.last c'.ordered_datagram_in ≡ (L.last c.ordered_datagram_in + received + missed) % L.period
  pub counter :
      c'.quality.dropped_datagram_counter ≡ (c.quality.dropped_datagram_counter + missed) % 2 ^ 64
  pub running : is_disconnected c'.state ≡ false

positive_magnitude : (z : ℤ) → is_positive z ≡ true → 1 ≤ magnitude z
positive_magnitude (pos n) h = ground arith
positive_magnitude (negsuc n) h = ground arith

pub positive-is_negative : (z : ℤ) → is_positive z ≡ true → is_negative z ≡ false
positive-is_negative (pos n) h = ground arith
positive-is_negative (negsuc n) h = ground arith

module _ {P : Platform} (L : OrderLaws P) where
  -- A datagram that is in order, once its number is read.
  fed_ordered-Accounts :
      (c : NimbleClient P) (w : World P) (s : P.InStream)
      → c.quality.dropped_datagram_counter < 2 ^ 64
      → is_disconnected c.state ≡ false
      → is_positive (P.ordered_receive c.ordered_datagram_in s).0 ≡ true
      → let d = P.ordered_receive c.ordered_datagram_in s in
        let noted = note_dropped (record c { ordered_datagram_in = d.1 }) (magnitude d.0) in
        is_negative (feed_ordered noted w d.2).code ≡ false
        → Accounts L 1 (magnitude d.0 - 1) c (feed_ordered noted w d.2).client
  fed_ordered-Accounts c w s small running newer good =
      let d = P.ordered_receive c.ordered_datagram_in s in
      let ordered = record c { ordered_datagram_in = d.1 } in
      let noted = note_dropped ordered (magnitude d.0) in
      let (counter, order, state) = note_dropped-counter ordered (magnitude d.0) small in
      let (order', counter', running') =
        feed_ordered-Unchanged noted w d.2 (rw state running) good in
      let some_number = positive_magnitude d.0 newer in
      record {
        numbers =
            ap L.last (order' ∙ order)
            ∙ L.receives c.ordered_datagram_in s newer
            ∙ ap (λ n. n % L.period) (omega (arith, some_number));
        counter = counter' ∙ counter;
        running = running';
      }

  feed-Accounts :
      (c : NimbleClient P) (w : World P) (octets : List ℕ)
      → c.quality.dropped_datagram_counter < 2 ^ 64
      → is_disconnected c.state ≡ false
      → 0 < length octets
      → is_negative (feed c w octets).code ≡ false
      → (missed : ℕ) × Accounts L 1 missed c (feed c w octets).client
  unfolding feed read_and_check_ordered_datagram
  feed-Accounts c w octets small running filled good =
      let d = P.ordered_receive c.ordered_datagram_in (P.in_init octets) in
      let some_octets : ltb (length octets) 1 ≡ false = ground arith in
      elim (Bool-cases (is_positive d.0)) [
        | inr e ↦ absurd (let bad = rw (some_octets, running, e) at good in cc)
        | inl e ↦
            let fine = positive-is_negative d.0 e in
            (
              magnitude d.0 - 1,
              rw (some_octets, running, e, fine)
                  (fed_ordered-Accounts c w (P.in_init octets) small running e
                    (rw (some_octets, running, e, fine) at good)),
            )
      ]

  Accounts-trans :
      {m n a b : ℕ} {c c' c'' : NimbleClient P}
      → Accounts L m a c c'
      → Accounts L n b c' c''
      → Accounts L (m + n) (a + b) c c''
  Accounts-trans {m = m} {n = n} {a = a} {b = b} {c = c} {c' = c'} k q =
      let before = L.last c.ordered_datagram_in in
      let between = L.last c'.ordered_datagram_in in
      let later : between + n + b ≡ between + (n + b) = omega arith in
      let whole : before + m + a + (n + b) ≡ before + (m + n) + (a + b) = omega arith in
      record {
        numbers =
            q.numbers
            ∙ ap (λ i. i % L.period) later
            ∙ ap (λ i. (i + (n + b)) % L.period) k.numbers
            ∙ mod-add-mod (before + m + a) L.period (n + b)
            ∙ ap (λ i. i % L.period) whole;
        counter = omega (arith, k.counter, q.counter);
        running = q.running;
      }

  no-Accounts :
      (c : NimbleClient P)
      → c.quality.dropped_datagram_counter < 2 ^ 64
      → is_disconnected c.state ≡ false
      → Accounts L 0 0 c c
  no-Accounts c small running =
      let last = L.last c.ordered_datagram_in in
      let kept = mod-eq_of_lt {n = last} {m = L.period} (L.in_range c.ordered_datagram_in) in
      let nothing : last ≡ last + 0 + 0 = omega arith in
      record {
        numbers = sym kept ∙ ap (λ i. i % L.period) (nothing);
        counter = omega arith;
        running = running;
      }

  noted-Accounts :
      (missed : ℕ) (c f : NimbleClient P)
      → Accounts L 1 missed (note_packet_in c) f
      → Accounts L 1 missed c (note_usable f)
  unfolding note_usable Quality.received_usable_datagram
  noted-Accounts missed c f k =
      let (order, counter, _) = note_packet_in-same c in
      record {
        numbers = k.numbers ∙ ap (λ l. (L.last l + 1 + missed) % L.period) order;
        counter = k.counter ∙ ap (λ n. (n + missed) % 2 ^ 64) counter;
        running = k.running;
      }

  receive_from-Accounts :
      (inbox : List Received) (count : ℕ) (c : NimbleClient P) (w : World P)
      → count + length inbox < 2 ^ 31
      → c.quality.dropped_datagram_counter < 2 ^ 64
      → is_disconnected c.state ≡ false
      → let o = receive_from inbox count c w in
        is_negative o.code ≡ false
        → (n missed : ℕ) × (o.code ≡ pos (count + n)) × Accounts L n missed c o.client
  unfolding receive_from
  receive_from-Accounts [] count c w few small running good =
      (0, 0, ground arith, no-Accounts c small running)
  receive_from-Accounts (failure n ∷ rest) count c w few small running good = cc
  receive_from-Accounts (datagram octets ∷ rest) count c w few small running good =
      let w' = record w { inbox = rest } in
      let noted = note_packet_in c in
      let fed = feed noted w' octets in
      let usable = note_usable fed.client in
      let (_, counter, state) = note_packet_in-same c in
      elim (Bool-cases (ltb 0 (length octets))) [
        | inr e ↦ rw e (0, 0, ground arith, no-Accounts c small running)
        | inl e ↦ elim (Bool-cases (is_negative fed.code)) [
          | inl n ↦ absurd (let bad = rw (e, n) at good in cc)
          | inr n ↦
              let (m, first) =
                feed-Accounts noted w' octets (rw counter small) (rw state running) (ground arith)
                  n in
              let k = noted-Accounts m c fed.client first in
              let next : inc_size count ≡ suc count = ground arith in
              let (n', m', code, q) =
                receive_from-Accounts rest (inc_size count) usable fed.world (omega arith)
                  (omega (arith, k.counter)) k.running (rw (e, n) at good) in
              rw (e, n) (1 + n', m + m', code ∙ ap pos (omega (arith, next)), Accounts-trans k q)
        ]
      ]

  -- A call that receives all datagrams and reports no error accounts for every sequence number: it
  -- returns how many datagrams it has received, the dropped-datagram counter has grown by some
  -- number, modulo 2 ^ 64, and the last number of the ordering logic has gone on by exactly both
  -- together, modulo its period. (The client is not disconnected at the start, fewer than 2 ^ 31
  -- datagrams wait, and the ordering logic keeps its laws.)
  pub receive_all_accounts :
      (c : NimbleClient P) (w : World P)
      → length w.inbox < 2 ^ 31
      → c.quality.dropped_datagram_counter < 2 ^ 64
      → is_disconnected c.state ≡ false
      → is_negative (receive_all_datagrams_from_transport c w).code ≡ false
      → let o = receive_all_datagrams_from_transport c w in
        let last = L.last c.ordered_datagram_in in
        let counter = c.quality.dropped_datagram_counter in
        (received missed : ℕ) × (o.code ≡ pos received)
        × (L.last o.client.ordered_datagram_in ≡ (last + received + missed) % L.period)
        × (o.client.quality.dropped_datagram_counter ≡ (counter + missed) % 2 ^ 64)
  unfolding receive_all_datagrams_from_transport
  receive_all_accounts c w few small running good =
      let (n, m, code, k) = receive_from-Accounts w.inbox 0 c w (omega arith) small running good in
      (n, m, code ∙ ap pos (omega arith), k.numbers, k.counter)
