-- ===== src/Publisher/Packets.antt =====
-- What the methods of `MarketDataPublisher` (matching_engine/md_mcast.cpp) send.
use mathlib.Core.List.{append-nil, append_assoc}
use mathlib.Core.Path.{subst, subst₂}
use ndfex.Prelude.{
  ℕ, ◌+◌, ◌<◌, ◌^◌, ◌≡◌, refl, sym, ap, ◌∙◌, inl, inr, Bool, true, false, List, [], ◌∷◌, ◌++◌,
  Option, some, arith, ltb, if◌then◌else◌, Bool-cases,
}
use ndfex.Prelude.Int.{to_int32}
use ndfex.Prelude.Bytes.{length}
use ndfex.Prelude.Steps.{Step, ◌then◌, then_runs}
use ndfex.Protocol.{Side}
use ndfex.Feed.{Message, size_of, trade_summary, new_order, delete_order, modify_order, heartbeat}
use ndfex.Publisher.{
  Publisher, QueuedTrade, buffer_capacity, send, append_msg, write_msg, write_all, trade_messages,
  total_quantity, last_price, clear_trades, publish_trades, publish_queued_trades,
  publish_new_order, publish_delete_order, publish_modify_order, publish_hearbeat,
}
use ndfex.Publisher.Frames.{
  Frames, end, empty-Holds, Holds, append_msg-Holds, send-Sends, Holds-room, Holds-empty,
}

module _ (sendto : List ℕ → Bool) (sends : (b : List ℕ) → sendto b ≡ true) (nanotime : ℕ → ℕ) where
  -- Messages behind those that are in the buffer.
  record Writes (s t : ℕ) (held ms : List Message) (p : Publisher) (ts : List QueuedTrade)
      (run : Step Publisher (List ℕ)) : Type 0 where
    from_seq : ℕ
    from_stamp : ℕ
    pending : List Message
    after : Publisher
    packets : List (List ℕ)
    runs : run p ≡ some (after, packets)
    holds : Holds nanotime from_seq from_stamp pending after
    kept : after.queued_trades ≡ ts
    framed :
        (rest : List Message) (out : List (List ℕ))
        → Frames nanotime from_seq from_stamp (pending ++ rest) out
        → Frames nanotime s t (held ++ (ms ++ rest)) (packets ++ out)

  write_msg-room :
      (m : Message) (p : Publisher)
      → ltb buffer_capacity (length p.buffer + size_of m) ≡ false
      → write_msg sendto nanotime m p ≡ append_msg nanotime m p
  unfolding write_msg
  write_msg-room m p e = rw e refl

  write_msg-full :
      (m : Message) (p : Publisher)
      → ltb buffer_capacity (length p.buffer + size_of m) ≡ true
      → write_msg sendto nanotime m p ≡ (send sendto then append_msg nanotime m) p
  unfolding write_msg
  write_msg-full m p e = rw e refl

  write_msg-Writes :
      (s t : ℕ) (held : List Message) (m : Message) (p : Publisher)
      → Holds nanotime s t held p
      → Writes s t held (m ∷ []) p p.queued_trades (write_msg sendto nanotime m)
  write_msg-Writes s t held m p h =
      elim (Bool-cases (ltb buffer_capacity (length p.buffer + size_of m))) [
        | inr room ↦
            let (q, run, holds, kept) = append_msg-Holds nanotime s t held m p h (ground arith) in
            record {
              from_seq = s;
              from_stamp = t;
              pending = held ++ (m ∷ []);
              after = q;
              packets = [];
              runs = write_msg-room m p room ∙ run;
              holds = holds;
              kept = kept;
              framed = λ rest out f.
                  subst (λ k. Frames nanotime s t k out) (append_assoc held (m ∷ []) rest) f;
            }
        | inl full ↦
            let sent = send-Sends nanotime sendto sends s t held p h in
            let (q, run, holds, kept) =
              append_msg-Holds nanotime (s + length held) (t + length held) [] m sent.after
                sent.empty
                (Holds-room nanotime (s + length held) (t + length held) m sent.after sent.empty) in
            record {
              from_seq = s + length held;
              from_stamp = t + length held;
              pending = m ∷ [];
              after = q;
              packets = sent.packets ++ [];
              runs =
                  write_msg-full m p full
                  ∙ then_runs (send sendto) (append_msg nanotime m) p sent.after q sent.packets []
                      sent.runs run;
              holds = holds;
              kept = kept ∙ sent.kept;
              framed = λ rest out f.
                  subst (λ k. Frames nanotime s t (held ++ (m ∷ rest)) (k ++ out))
                    (sym (append-nil sent.packets)) (sent.framed (m ∷ rest) out f);
            }
      ]

  -- The stamps and sequence numbers go on from where the messages that are held end.
  write_all-Writes :
      (ms : List Message) (s t : ℕ) (held : List Message) (p : Publisher)
      → Holds nanotime s t held p
      → Writes s t held ms p p.queued_trades (write_all sendto nanotime ms)
  unfolding write_all
  write_all-Writes [] s t held p h = record {
    from_seq = s;
    from_stamp = t;
    pending = held;
    after = p;
    packets = [];
    runs = refl;
    holds = h;
    kept = refl;
    framed = λ rest out f. f;
  }
  write_all-Writes (m ∷ ms) s t held p h =
      let one = write_msg-Writes s t held m p h in
      let all = write_all-Writes ms one.from_seq one.from_stamp one.pending one.after one.holds in
      record {
        from_seq = all.from_seq;
        from_stamp = all.from_stamp;
        pending = all.pending;
        after = all.after;
        packets = one.packets ++ all.packets;
        runs =
            then_runs (write_msg sendto nanotime m) (write_all sendto nanotime ms) p one.after
              all.after one.packets all.packets one.runs all.runs;
        holds = all.holds;
        kept = all.kept ∙ one.kept;
        framed = λ rest out f.
            subst (λ k. Frames nanotime s t (held ++ (m ∷ (ms ++ rest))) k)
              (sym (append_assoc one.packets all.packets out))
              (one.framed (ms ++ rest) (all.packets ++ out) (all.framed rest out f));
      }

  -- Two runs, one behind the other.
  then-Writes :
      (s t : ℕ) (held ms ms' : List Message) (p : Publisher) (ts ts' : List QueuedTrade)
      (run run' : Step Publisher (List ℕ)) (w : Writes s t held ms p ts run)
      → Writes w.from_seq w.from_stamp w.pending ms' w.after ts' run'
      → Writes s t held (ms ++ ms') p ts' (run then run')
  then-Writes s t held ms ms' p ts ts' run run' w v = record {
    from_seq = v.from_seq;
    from_stamp = v.from_stamp;
    pending = v.pending;
    after = v.after;
    packets = w.packets ++ v.packets;
    runs = then_runs run run' p w.after v.after w.packets v.packets w.runs v.runs;
    holds = v.holds;
    kept = v.kept;
    framed = λ rest out f.
        subst₂ (λ k o. Frames nanotime s t (held ++ k) o) (sym (append_assoc ms ms' rest))
          (sym (append_assoc w.packets v.packets out))
          (w.framed (ms' ++ rest) (v.packets ++ out) (v.framed rest out f));
  }

  clear_trades-Writes :
      (s t : ℕ) (held : List Message) (p : Publisher)
      → Holds nanotime s t held p
      → Writes s t held [] p [] (clear_trades)
  clear_trades-Writes s t held p h = record {
    from_seq = s;
    from_stamp = t;
    pending = held;
    after = record p { queued_trades = [] };
    packets = [];
    runs = refl;
    holds = record {
      buffered = h.buffered;
      next_seq = h.next_seq;
      next_stamp = h.next_stamp;
      fits = h.fits;
    };
    kept = refl;
    framed = λ rest out f. f;
  }

  -- The method published just these messages, left the buffer empty, and left these trades queued.
  pub record Publishes (ms : List Message) (p : Publisher) (ts : List QueuedTrade)
      (r : Option (Publisher × List (List ℕ))) : Type 0 where
    pub after : Publisher
    pub packets : List (List ℕ)
    pub runs : r ≡ some (after, packets)
    pub framed : Frames nanotime p.seq_num p.stamps ms packets
    pub flushed : after.buffer ≡ []
    pub trades : after.queued_trades ≡ ts

  idle-Holds :
      (p : Publisher) → p.buffer ≡ [] → p.seq_num < 2 ^ 32 → Holds nanotime p.seq_num p.stamps [] p
  idle-Holds p e lt = empty-Holds nanotime p.seq_num p.stamps p e (omega arith) refl

  -- Writing messages, and sending what is in the buffer.
  flush-Publishes :
      (ms : List Message) (p : Publisher) (ts : List QueuedTrade) (run : Step Publisher (List ℕ))
      → Writes p.seq_num p.stamps [] ms p ts run
      → Publishes ms p ts ((run then send sendto) p)
  flush-Publishes ms p ts run w =
      let sent =
        send-Sends nanotime sendto sends w.from_seq w.from_stamp w.pending w.after w.holds in
      record {
        after = sent.after;
        packets = w.packets ++ sent.packets;
        runs =
            then_runs run (send sendto) p w.after sent.after w.packets sent.packets w.runs
              sent.runs;
        framed =
            subst₂ (Frames nanotime p.seq_num p.stamps) (append-nil ms)
              (ap (λ o. w.packets ++ o) (append-nil sent.packets))
              (w.framed [] (sent.packets ++ []) (sent.framed [] [] (end _ _)));
        flushed = Holds-empty nanotime _ _ sent.after sent.empty;
        trades = sent.kept ∙ w.kept;
      }

  module _ (p : Publisher) (none_held : p.buffer ≡ []) (in_range : p.seq_num < 2 ^ 32) where
    one-Publishes :
        (m : Message)
        → Publishes (m ∷ []) p p.queued_trades ((write_msg sendto nanotime m then send sendto) p)
    one-Publishes m =
        flush-Publishes (m ∷ []) p p.queued_trades (write_msg sendto nanotime m)
          (write_msg-Writes p.seq_num p.stamps [] m p (idle-Holds p none_held in_range))

    pub publish_new_order-Publishes :
        (id symbol : ℕ) (side : Side) (quantity price flags : ℕ)
        → Publishes
            (new_order id symbol side quantity (to_int32 price) flags ∷ [])
            p
            p.queued_trades
            (publish_new_order sendto nanotime id symbol side quantity price flags p)
    unfolding publish_new_order
    publish_new_order-Publishes id symbol side quantity price flags = one-Publishes _

    pub publish_delete_order-Publishes :
        (id : ℕ)
        → Publishes
            (delete_order id ∷ [])
            p
            p.queued_trades
            (publish_delete_order sendto nanotime id p)
    unfolding publish_delete_order
    publish_delete_order-Publishes id = one-Publishes _

    pub publish_modify_order-Publishes :
        (id : ℕ) (side : Side) (quantity price : ℕ)
        → Publishes
            (modify_order id side quantity (to_int32 price) ∷ [])
            p
            p.queued_trades
            (publish_modify_order sendto nanotime id side quantity price p)
    unfolding publish_modify_order
    publish_modify_order-Publishes id side quantity price = one-Publishes _

    pub publish_hearbeat-Publishes :
        Publishes (heartbeat ∷ []) p p.queued_trades (publish_hearbeat sendto nanotime p)
    unfolding publish_hearbeat
    publish_hearbeat-Publishes = one-Publishes heartbeat

    -- What a list of queued trades is published as.
    abbrev pub summarised : ℕ → Side → List QueuedTrade → List Message
    summarised symbol aggressor [] = []
    summarised symbol aggressor (t ∷ ts) =
        trade_summary symbol aggressor (total_quantity (t ∷ ts)) (to_int32 (last_price (t ∷ ts)))
        ∷ trade_messages (t ∷ ts)

    queued-Publishes :
        (symbol : ℕ) (aggressor : Side) (ts : List QueuedTrade)
        → p.queued_trades ≡ ts
        → Publishes
            (summarised symbol aggressor ts)
            p
            []
            (publish_trades sendto nanotime symbol aggressor ts p)
    unfolding publish_trades
    queued-Publishes symbol aggressor [] e = record {
      after = p;
      packets = [];
      runs = refl;
      framed = end _ _;
      flushed = none_held;
      trades = e;
    }
    queued-Publishes symbol aggressor (t ∷ ts) e =
        let summary =
          trade_summary symbol aggressor (total_quantity (t ∷ ts))
            (to_int32 (last_price (t ∷ ts))) in
        let messages = trade_messages (t ∷ ts) in
        let one =
          write_msg-Writes p.seq_num p.stamps [] summary p (idle-Holds p none_held in_range) in
        let more =
          write_all-Writes messages one.from_seq one.from_stamp one.pending one.after one.holds in
        let both = then-Writes _ _ [] (summary ∷ []) messages p _ _ _ _ one more in
        let cleared =
          clear_trades-Writes both.from_seq both.from_stamp both.pending both.after both.holds in
        let whole = then-Writes _ _ [] (summary ∷ messages) [] p _ [] _ _ both cleared in
        subst (λ k. Publishes k p [] (publish_trades sendto nanotime symbol aggressor (t ∷ ts) p))
          (ap (λ k. summary ∷ k) (append-nil messages))
          (flush-Publishes (summary ∷ (messages ++ [])) p [] _ whole)

    -- With a socket that takes every packet, an empty buffer and a 32-bit sequence number:
    -- `publish_queued_trades` publishes just a summary of the queued trades and the trades in
    -- order, in packets of whole messages of at most 1460 bytes with sequence numbers that carry
    -- on, or nothing where no trade is queued, and leaves the buffer and the queue empty.
    pub publish_queued_trades-Publishes :
        (symbol : ℕ) (aggressor : Side)
        → Publishes
            (summarised symbol aggressor p.queued_trades)
            p
            []
            (publish_queued_trades sendto nanotime symbol aggressor p)
    unfolding publish_queued_trades
    publish_queued_trades-Publishes symbol aggressor =
        queued-Publishes symbol aggressor p.queued_trades refl
