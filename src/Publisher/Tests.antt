-- ===== src/Publisher/Tests.antt =====
-- A publisher (matching_engine/md_mcast.cpp) with two trades queued.
use ndfex.Prelude.{ℕ, Bool, true, refl, List, [], ◌∷◌, arith}
use ndfex.Protocol.{buy}
use ndfex.Publisher.{Publisher, publish_queued_trades, publish_new_order}
use ndfex.Feed.{new_order}
use ndfex.Prelude.Int.{to_int32}
use ndfex.Publisher.Packets.{
  Publishes, summarised, publish_new_order-Publishes, publish_queued_trades-Publishes,
}

abbrev takes_all : List ℕ → Bool
takes_all buf = true

abbrev clock : ℕ → ℕ
clock n = n

abbrev publisher : Publisher
publisher = record {
  buffer = [];
  seq_num = 5;
  stamps = 0;
  queued_trades =
      (record { order_id = 900; quantity = 3; price = 100 })
      ∷ (record { order_id = 901; quantity = 4; price = 101 })
      ∷ [];
}

publish_queued_trades-Publishes_example :
    Publishes takes_all
      (λ buf. refl)
      clock
      (summarised takes_all
        (λ buf. refl)
        clock
        publisher
        refl
        (omega arith)
        1
        buy
        (publisher.queued_trades))
      publisher
      []
      (publish_queued_trades takes_all clock 1 buy publisher)
publish_queued_trades-Publishes_example =
    publish_queued_trades-Publishes takes_all (λ buf. refl) clock publisher refl (omega arith) 1 buy

publish_new_order-Publishes_example :
    Publishes takes_all
      (λ buf. refl)
      clock
      (new_order 902 1 buy 10 (to_int32 100) 0 ∷ [])
      publisher
      (publisher.queued_trades)
      (publish_new_order takes_all clock 902 1 buy 10 100 0 publisher)
publish_new_order-Publishes_example =
    publish_new_order-Publishes takes_all (λ buf. refl) clock publisher refl (omega arith) 902 1 buy
      10 100 0
