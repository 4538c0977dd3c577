-- ===== src/Snapshots/Writing/Packets.antt =====
-- The packets of a snapshot (market_data/snapshot_writer.cpp).
use mathlib.Core.List.{append-nil, append_assoc}
use ndfex.Prelude.{
  ℕ, suc, ◌+◌, ◌≤◌, ◌≡◌, refl, sym, ap, ◌∙◌, inl, inr, Bool, true, List, [], ◌∷◌, ◌++◌, Option,
  some, arith, ltb, Bool-cases,
}
use ndfex.Prelude.Bytes.{length, length-append}
use ndfex.Prelude.Steps.{then_runs}
use ndfex.Feed.{snapshot_magic_number, Message, size_of, write_struct}
use ndfex.Feed.Codec.{length-write_struct, size_of-bounds}
use ndfex.Snapshots.{Writer}
use ndfex.Snapshots.Writing.{
  Sender, buffer_capacity, send, append_message, symbol_messages, write_message, write_all,
  write_symbol,
}

abbrev pub flat : List (List ℕ) → List ℕ
flat [] = []
flat (p ∷ ps) = p ++ flat ps

flat-append : (ps qs : List (List ℕ)) → flat (ps ++ qs) ≡ flat ps ++ flat qs
flat-append [] qs = refl
flat-append (p ∷ ps) qs =
    ap (λ b. p ++ b) (flat-append ps qs) ∙ sym (append_assoc p (flat ps) (flat qs))

-- Every packet fits the buffer.
abbrev pub AllSmall : List (List ℕ) → Type 0
AllSmall [] = Unit {0}
AllSmall (p ∷ ps) = (length p ≤ buffer_capacity) × AllSmall ps

append-AllSmall : (ps qs : List (List ℕ)) → AllSmall ps → AllSmall qs → AllSmall (ps ++ qs)
append-AllSmall [] qs a b = b
append-AllSmall (p ∷ ps) qs (h, a) b = (h, append-AllSmall ps qs a b)

module _ (sendto : List ℕ → Bool) (sends : (buf : List ℕ) → sendto buf ≡ true)
    (nanotime : ℕ → ℕ) where
  -- The bytes of messages, stamped by the calls of the clock from the `t`-th on.
  abbrev pub bytes_of : ℕ → List Message → List ℕ
  bytes_of t [] = []
  bytes_of t (m ∷ ms) = write_struct snapshot_magic_number 0 (nanotime t) m ++ bytes_of (suc t) ms

  -- The messages are in the packets and the buffer, in order.
  record Wrote (ms : List Message) (s : Sender) (r : Option (Sender × List (List ℕ))) : Type 0 where
    after : Sender
    packets : List (List ℕ)
    runs : r ≡ some (after, packets)
    same_bytes : flat packets ++ after.buffer ≡ s.buffer ++ bytes_of s.stamps ms
    small : AllSmall packets
    fits : length after.buffer ≤ buffer_capacity
    stamp : after.stamps ≡ s.stamps + length ms

  append_message-runs :
      (m : Message) (s : Sender)
      → append_message nanotime m s
        ≡ some (
          record {
            buffer = s.buffer ++ write_struct snapshot_magic_number 0 (nanotime s.stamps) m;
            stamps = suc s.stamps;
          },
          [],
        )
  unfolding append_message
  append_message-runs m s = refl

  send-runs : (s : Sender) → send sendto s ≡ some (record s { buffer = [] }, s.buffer ∷ [])
  unfolding send
  send-runs s = rw (sends s.buffer) refl

  message_length :
      (t : ℕ) (m : Message)
      → length (write_struct snapshot_magic_number 0 (nanotime t) m) ≡ size_of m
  message_length t m = length-write_struct snapshot_magic_number 0 (nanotime t) m

  write_message-Wrote :
      (m : Message) (s : Sender)
      → length s.buffer ≤ buffer_capacity
      → Wrote (m ∷ []) s (write_message sendto nanotime m s)
  unfolding write_message length
  write_message-Wrote m s h =
      let struct = write_struct snapshot_magic_number 0 (nanotime s.stamps) m in
      elim (Bool-cases (ltb buffer_capacity (length s.buffer + size_of m))) [
        | inl full ↦ record {
          after = record { buffer = [] ++ struct; stamps = suc s.stamps };
          packets = (s.buffer ∷ []) ++ [];
          runs =
              (rw full refl)
              ∙ then_runs (send sendto) (append_message nanotime m) s _ _ (s.buffer ∷ []) []
                  (send-runs s) (append_message-runs m (record s { buffer = [] }));
          same_bytes =
              append_assoc s.buffer [] struct ∙ ap (λ b. s.buffer ++ b) (sym (append-nil struct));
          small = (h, tt);
          fits = omega (arith, message_length s.stamps m, (size_of-bounds m).1);
          stamp = omega arith;
        }
        | inr room ↦ record {
          after = record { buffer = s.buffer ++ struct; stamps = suc s.stamps };
          packets = [];
          runs = (rw room refl) ∙ append_message-runs m s;
          same_bytes = ap (λ b. s.buffer ++ b) (sym (append-nil struct));
          small = tt;
          fits = ground (arith, room, message_length s.stamps m, length-append s.buffer struct);
          stamp = omega arith;
        }
      ]

  write_all-Wrote :
      (ms : List Message) (s : Sender)
      → length s.buffer ≤ buffer_capacity
      → Wrote ms s (write_all sendto nanotime ms s)
  unfolding write_all length
  write_all-Wrote [] s h = record {
    after = s;
    packets = [];
    runs = refl;
    same_bytes = sym (append-nil s.buffer);
    small = tt;
    fits = h;
    stamp = omega arith;
  }
  write_all-Wrote (m ∷ ms) s h =
      let struct = write_struct snapshot_magic_number 0 (nanotime s.stamps) m in
      let first = write_message-Wrote m s h in
      let rest = write_all-Wrote ms first.after first.fits in
      let stamp_is : first.after.stamps ≡ suc s.stamps = omega (arith, first.stamp) in
      record {
        after = rest.after;
        packets = first.packets ++ rest.packets;
        runs =
            then_runs (write_message sendto nanotime m) (write_all sendto nanotime ms) s first.after
              rest.after first.packets rest.packets first.runs rest.runs;
        same_bytes =
            ap (λ b. b ++ rest.after.buffer) (flat-append first.packets rest.packets)
            ∙ append_assoc (flat first.packets) (flat rest.packets) rest.after.buffer
            ∙ ap (λ b. flat first.packets ++ b) rest.same_bytes
            ∙ sym (append_assoc (flat first.packets) first.after.buffer _)
            ∙ ap (λ b. b ++ bytes_of first.after.stamps ms) first.same_bytes
            ∙ append_assoc s.buffer (struct ++ []) (bytes_of first.after.stamps ms)
            ∙ ap (λ b. s.buffer ++ (b ++ bytes_of first.after.stamps ms)) (append-nil struct)
            ∙ ap (λ t. s.buffer ++ (struct ++ bytes_of t ms)) stamp_is;
        small = append-AllSmall first.packets rest.packets first.small rest.small;
        fits = rest.fits;
        stamp = omega (arith, rest.stamp, stamp_is);
      }

  -- All messages have left, in order, in packets that fit.
  pub record Sends (ms : List Message) (s : Sender) (r : Option (Sender × List (List ℕ)))
      : Type 0 where
    pub after : Sender
    pub packets : List (List ℕ)
    pub runs : r ≡ some (after, packets)
    pub sent : flat packets ≡ bytes_of s.stamps ms
    pub small : AllSmall packets
    pub emptied : after.buffer ≡ []

  -- With a socket that takes every packet and an empty buffer: the snapshot of a symbol leaves in
  -- packets of at most 1460 bytes, which are together the bytes of the information on the
  -- snapshot, the bids and the asks, in order, and the buffer is empty again.
  pub write_symbol-Sends :
      (symbol : ℕ) (w : Writer) (s : Sender)
      → s.buffer ≡ []
      → Sends (symbol_messages symbol w) s (write_symbol sendto nanotime symbol w s)
  unfolding write_symbol length
  write_symbol-Sends symbol w s idle =
      let ms = symbol_messages symbol w in
      let all = write_all-Wrote ms s (omega (arith, ap length idle)) in
      record {
        after = record (all.after) { buffer = [] };
        packets = all.packets ++ (all.after.buffer ∷ []);
        runs =
            then_runs (write_all sendto nanotime ms) (send sendto) s all.after _ all.packets
              (all.after.buffer ∷ []) all.runs (send-runs all.after);
        sent =
            flat-append all.packets (all.after.buffer ∷ [])
            ∙ ap (λ b. flat all.packets ++ b) (append-nil all.after.buffer)
            ∙ all.same_bytes
            ∙ ap (λ b. b ++ bytes_of s.stamps ms) idle;
        small = append-AllSmall all.packets (all.after.buffer ∷ []) all.small (all.fits, tt);
        emptied = refl;
      }
