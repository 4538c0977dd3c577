-- ===== src/Lib.antt =====
-- NDFEX is a small exchange. Order entry sessions (order_entry/) hand orders to a matching engine
-- (matching_engine/), which keeps one order book for each symbol; the engine answers the sessions,
-- publishes the market by multicast and reports fills to clearing. Market data clients and trading
-- robots (market_data/, bots/) rebuild the books from what is published.
--
-- This library models the order book (the class OrderLadder of matching_engine/order_ladder.H), the
-- broker that feeds it (matching_engine/me_broker.H), the checks of new orders
-- (order_entry/oe_validator.cpp), the requests of clients (order_entry/oe_stream_parser.H) and
-- their sessions (order_entry/oe_client_handler.cpp), the feed and its publisher
-- (market_data/md_protocol.H, matching_engine/md_mcast.cpp), the writer of snapshots
-- (market_data/snapshot_writer.cpp), and the client that rebuilds the books from it
-- (bots/md_client.cpp, bots/order_book.cpp).
--
--   Prelude       tests on numbers, signed integers, hash maps (std::unordered_map), bytes of packed
--                 structs, and steps that emit outputs
--   Protocol      the enumerations of market_data/md_protocol.H and order_entry/oe_protocol.H
--   Ladder        matching_engine/order_ladder.H
--     State         Order, PriceLevel and the ladder; calls of the subscriber; exceptions
--     Levels        the price levels of one side (std::map)
--     Match         handle_delete_order and match
--     Operations    handle_new_order, new_order, delete_order, modify_order
--     Book          which ladders are well formed; the resting orders of a side, best first
--     Walk, Sweep, Refine      match against its specification
--     Rest, Strike, Amend      queueing, cancelling and modifying against their specifications
--     Market, Enter, Delete    the methods against their specifications
--     Crossing      the best bid stays below the best ask
--     Session       sequences of calls, from the constructor on
--     Trading       quantities, priority and limits of what is traded
--     Unchecked     a side byte that is neither BUY nor SELL
--     Tests         runs at concrete ladders
--   Entry         order_entry/
--     Validator     order_entry/oe_validator.cpp: the checks of a new order
--     Handler       order_entry/oe_client_handler.cpp: the requests of clients
--       Maps          the two maps of orders
--       Outcomes      what a request comes to: refused, or granted
--       Requests      new orders
--       Changes       modifications and deletions
--       Closing       closed sockets
--       Sockets       write_msg, write_msg_to_client
--         Sending       the loop that sends a message
--       Answers       process: the answers of the engine
--         Orders        the maps of orders under these answers
--       Login         on_login
--         Sessions      the maps of sessions under log-ins
--     Stream        order_entry/oe_stream_parser.H: requests out of the bytes of a socket
--       Chunks        the chunks that bytes come in
--       Loops         when the loop over the bytes ends
--   Feed          market_data/md_protocol.H: messages, headers and their bytes
--     Codec         what is written is read back
--   Publisher     matching_engine/md_mcast.cpp, matching_engine/md_mcast.H
--     Frames        packets of whole messages, with their sequence numbers
--     Packets       the methods against these packets
--   Snapshots     market_data/snapshot_writer.cpp: the open orders for snapshots
--     Index         the index of orders by id
--     Methods       the payloads against the index
--     Writing       the messages of a snapshot, sorted and written
--       Packets       the packets of a symbol
--   Bots          bots/
--     OrderBook     bots/order_book.cpp: the orders of the feed, and the quantity at each price
--       Depths        reading and writing levels
--       Tally         levels as sums
--       Changes       an order comes, leaves or is traded
--       Sums          sums of orders
--       Methods       the methods keep levels and orders together
--       Best          the best prices
--     MdClient      bots/md_client.cpp: process_message and the dispatch of messages
--       Packets       when the loop over a packet ends
--       Replay        the packets of the publisher
--       Recovery      wait_for_snapshot
--         Collect       when a snapshot is complete
--   Broker        matching_engine/me_broker.H: requests, answers, owners, clearing
--     Delivery      what becomes of the calls of a ladder
--     Requests      one round of the loop for a new order
--     Owners        whose fill it is
--
-- A method is a function from a ladder to an outcome (a value, or the exception that was thrown),
-- the ladder that it leaves and the calls of the subscriber that it made, in order: what was done
-- before a throw stays done. Pointers to orders are ids, which are followed by a lookup in the map
-- `orders`; the linked list of a price level is the list of its ids. Loops are recursions along the
-- levels and the queues that they walk, so there is no fuel in the ladder. The loops over the bytes
-- of a packet or a socket have fuel, since a message gives its own length: a turn that goes on
-- leaves fewer bytes unless a length is 0, so that one turn more than there are bytes is the fuel
-- to take. A quantity is a natural number that the source's tests keep from going below zero;
-- `filled_quantity` wraps at 2 ^ 32 where it is added to.
--
-- The specification of the book is a market: two lists of resting orders, best first. An incoming
-- order sweeps the other side's list; what is left of it is inserted in its own list behind every
-- order at its price or a better one, unless it is immediate-or-cancel.
--
-- The broker is a function from a request to a result, its state and a list of outputs, in order:
-- answers to clients, messages to the market and fills to clearing. The ladder's calls are
-- delivered when the method has ended, which makes no difference to what is handed on: an
-- exception, in the ladder or in a call, ends the broker's thread. A session's request is a
-- function to a new state and a list of payloads for the engine, with the time that makes an
-- exchange order id as an argument. The validator's answer is an option, with none for a division
-- by zero.
--
-- The publisher's socket and clock, the sockets of clients and what recvfrom gives are parameters.
-- Bytes that a packet does not have are not read as anything: where the source would read them, the
-- model ends with an outcome of its own.
--
-- Not modelled: the order pool's memory, the broker's heartbeats, the client of snapshots, the
-- clients of order entry, clearing, the set-up of sockets, logging and start-up, the trading
-- strategies, the viewers and the web parts.
pub mod Prelude
pub mod Protocol
pub mod Feed
pub mod Publisher
pub mod Bots
pub mod Snapshots
pub mod Ladder
pub mod Entry
pub mod Broker
