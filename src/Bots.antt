-- ===== src/Bots.antt =====
-- bots/: how trading robots see the market.
pub mod OrderBook
pub mod MdClient
