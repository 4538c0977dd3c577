-- ===== src/Publisher/Frames.antt =====
-- The packets of `MarketDataPublisher` (matching_engine/md_mcast.cpp): each holds whole messages, fits the
-- buffer, and carries on the sequence numbers of the one before.
use mathlib.Core.List.{append-nil, append_assoc}
use mathlib.Core.Path.{subst}
use ndfex.Prelude.{
  ◌≢◌, ℕ, suc, ◌+◌, ◌≤◌, ◌%◌, ◌^◌, ◌≡◌, refl, sym, ap, ◌∙◌, inl, inr, Bool, true, false, List, [],
  ◌∷◌, ◌++◌, some, arith, ltb, Bool-cases,
}
use ndfex.Prelude.Bytes.{length, length-append}
use ndfex.Feed.{magic_number, Message, size_of, write_struct}
use ndfex.Feed.Codec.{length-write_struct, size_of-bounds}
use ndfex.Publisher.{Publisher, buffer_capacity, send, append_msg}

length-snoc : {A : Type 0} (xs : List A) (x : A) → length (xs ++ (x ∷ [])) ≡ suc (length xs)
unfolding length
length-snoc [] x = refl
length-snoc (y ∷ xs) x = omega (arith, length-snoc xs x)

length_zero : {A : Type 0} (xs : List A) → length xs ≡ 0 → xs ≡ []
unfolding length
length_zero [] e = refl
length_zero (x ∷ xs) e = absurd (omega (arith, e))

module _ (nanotime : ℕ → ℕ) where
  -- The bytes of messages with sequence numbers from `s` on, stamped by the calls of the clock from the
  -- `t`-th on.
  unfoldable pub stream : ℕ → ℕ → List Message → List ℕ
  stream s t [] = []
  stream s t (m ∷ ms) =
      write_struct magic_number (s % 2 ^ 32) (nanotime t) m ++ stream (suc s) (suc t) ms

  -- The packets of a list of messages.
  pub data Frames : ℕ → ℕ → List Message → List (List ℕ) → Type 0 where
    end : (s t : ℕ) → Frames s t [] []
    packet :
        (s t : ℕ) (ms rest : List Message) (out : List (List ℕ))
        → length (stream s t ms) ≤ buffer_capacity
        → Frames (s + length ms) (t + length ms) rest out
        → Frames s t (ms ++ rest) (stream s t ms ∷ out)

  stream-snoc :
      (s t : ℕ) (ms : List Message) (m : Message)
      → stream s t (ms ++ (m ∷ []))
        ≡ stream s t ms
          ++ write_struct magic_number ((s + length ms) % 2 ^ 32) (nanotime (t + length ms)) m
  unfolding stream length
  stream-snoc s t [] m =
      append-nil (write_struct magic_number (s % 2 ^ 32) (nanotime t) m)
      ∙ ap (λ k. write_struct magic_number (k % 2 ^ 32) (nanotime t) m) (omega arith)
      ∙ ap (λ k. write_struct magic_number ((s + 0) % 2 ^ 32) (nanotime k) m) (omega arith)
  stream-snoc s t (x ∷ ms) m =
      let first = write_struct magic_number (s % 2 ^ 32) (nanotime t) x in
      ap (λ b. first ++ b) (stream-snoc (suc s) (suc t) ms m)
      ∙ sym (append_assoc first (stream (suc s) (suc t) ms) _)
      ∙ ap
          (λ k.
            (first ++ stream (suc s) (suc t) ms)
            ++ write_struct magic_number (k % 2 ^ 32) (nanotime (suc t + length ms)) m)
          (omega arith)
      ∙ ap
          (λ k.
            (first ++ stream (suc s) (suc t) ms)
            ++ write_struct magic_number ((s + suc (length ms)) % 2 ^ 32) (nanotime k) m)
          (omega arith)

  -- The messages `ms` are in the buffer, the first of them with sequence number `s`.
  pub record Holds (s t : ℕ) (ms : List Message) (p : Publisher) : Type 0 where
    pub buffered : p.buffer ≡ stream s t ms
    pub next_seq : p.seq_num ≡ (s + length ms) % 2 ^ 32
    pub next_stamp : p.stamps ≡ t + length ms
    pub fits : length p.buffer ≤ buffer_capacity

  pub append_msg-Holds :
      (s t : ℕ) (ms : List Message) (m : Message) (p : Publisher)
      → Holds s t ms p
      → length p.buffer + size_of m ≤ buffer_capacity
      → (q : Publisher) × (append_msg nanotime m p ≡ some (q, []))
        × Holds s t (ms ++ (m ∷ [])) q
        × (q.queued_trades ≡ p.queued_trades)
  unfolding append_msg
  append_msg-Holds s t ms m p h room = (
    _,
    refl,
    record {
      buffered =
          ap (λ b. b ++ write_struct magic_number p.seq_num (nanotime p.stamps) m) h.buffered
          ∙ ap (λ k. stream s t ms ++ write_struct magic_number k (nanotime p.stamps) m) h.next_seq
          ∙ ap
              (λ k.
                stream s t ms
                ++ write_struct magic_number ((s + length ms) % 2 ^ 32) (nanotime k) m)
              h.next_stamp
          ∙ sym (stream-snoc s t ms m);
      next_seq = omega (arith, length-snoc ms m, h.next_seq);
      next_stamp = omega (arith, length-snoc ms m, h.next_stamp);
      fits = omega (
        arith,
        length-append p.buffer (write_struct magic_number p.seq_num (nanotime p.stamps) m),
        length-write_struct magic_number p.seq_num (nanotime p.stamps) m,
      );
    },
    refl,
  )

  pub empty-Holds :
      (s t : ℕ) (p : Publisher)
      → p.buffer ≡ []
      → p.seq_num ≡ s % 2 ^ 32
      → p.stamps ≡ t
      → Holds s t [] p
  unfolding stream length
  empty-Holds s t p e seq stamp = record {
    buffered = e;
    next_seq = omega (arith, seq);
    next_stamp = omega (arith, stamp);
    fits = rw e (omega arith);
  }

  stream-some : (s t : ℕ) (m : Message) (ms : List Message) → length (stream s t (m ∷ ms)) ≢ 0
  unfolding stream
  stream-some s t m ms e =
      let first = write_struct magic_number (s % 2 ^ 32) (nanotime t) m in
      let (low, high) = size_of-bounds m in
      omega (
        arith,
        length-append first (stream (suc s) (suc t) ms),
        length-write_struct magic_number (s % 2 ^ 32) (nanotime t) m,
        e,
      )

  -- No bytes are no messages.
  Frames-nothing :
      (s t : ℕ) (ms rest : List Message) (out : List (List ℕ))
      → length (stream s t ms) ≡ 0
      → Frames (s + length ms) (t + length ms) rest out
      → Frames s t (ms ++ rest) out
  unfolding length
  Frames-nothing s t [] rest out e f =
      subst (λ k. Frames k t rest out) (omega arith)
        (subst (λ k. Frames (s + 0) k rest out) (omega arith) f)
  Frames-nothing s t (m ∷ ms) rest out e f = absurd (stream-some s t m ms e)

  -- An empty buffer has room for any message.
  pub Holds-room :
      (s t : ℕ) (m : Message) (p : Publisher)
      → Holds s t [] p
      → length p.buffer + size_of m ≤ buffer_capacity
  unfolding stream length
  Holds-room s t m p h =
      let (low, high) = size_of-bounds m in
      let empty : length p.buffer ≡ 0 = ap length h.buffered in omega (arith, empty, high)

  pub Holds-empty : (s t : ℕ) (p : Publisher) → Holds s t [] p → p.buffer ≡ []
  unfolding stream
  Holds-empty s t p h = h.buffered

  module _ (sendto : List ℕ → Bool) (sends : (b : List ℕ) → sendto b ≡ true) where
    -- Sending what is in the buffer.
    pub record Sends (s t : ℕ) (ms : List Message) (p : Publisher) : Type 0 where
      pub after : Publisher
      pub packets : List (List ℕ)
      pub runs : send sendto p ≡ some (after, packets)
      pub empty : Holds (s + length ms) (t + length ms) [] after
      pub kept : after.queued_trades ≡ p.queued_trades
      pub framed :
          (rest : List Message) (out : List (List ℕ))
          → Frames (s + length ms) (t + length ms) rest out
          → Frames s t (ms ++ rest) (packets ++ out)

    send-runs :
        (p : Publisher)
        → ltb 0 (length p.buffer) ≡ true
        → send sendto p ≡ some (record p { buffer = [] }, p.buffer ∷ [])
    unfolding send
    send-runs p e = ground (arith, sends p.buffer)

    send-idle : (p : Publisher) → ltb 0 (length p.buffer) ≡ false → send sendto p ≡ some (p, [])
    unfolding send
    send-idle p e = ground arith

    pub send-Sends : (s t : ℕ) (ms : List Message) (p : Publisher) → Holds s t ms p → Sends s t ms p
    send-Sends s t ms p h = elim (Bool-cases (ltb 0 (length p.buffer))) [
      | inl some_bytes ↦ record {
        after = record p { buffer = [] };
        packets = p.buffer ∷ [];
        runs = send-runs p some_bytes;
        empty =
            empty-Holds (s + length ms) (t + length ms) (record p { buffer = [] }) refl h.next_seq
              h.next_stamp;
        kept = refl;
        framed = λ rest out f. rw h.buffered (packet s t ms rest out (rw⁻¹ h.buffered h.fits) f);
      }
      | inr no_bytes ↦ record {
        after = p;
        packets = [];
        runs = send-idle p no_bytes;
        empty =
            empty-Holds (s + length ms) (t + length ms) p (length_zero p.buffer (ground arith))
              h.next_seq h.next_stamp;
        kept = refl;
        framed = λ rest out f.
            Frames-nothing s t ms rest out (sym (ap length h.buffered) ∙ ground arith) f;
      }
    ]
