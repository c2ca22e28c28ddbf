-- ===== src/Account.antt =====
-- The dictionary `account_info` that the engine hands to the risk checks.
use llm_trade.Cell.{Cell}

pub record Account (F : Type 0) : Type 0 where
  pub balance : Cell F
  pub equity : Cell F
  pub margin : Cell F
  pub margin_free : Cell F
  pub margin_level : Cell F
