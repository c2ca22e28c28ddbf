-- ===== src/Timebase/Tests.antt =====
-- Runs of the time base.
use llm_trade.Prelude.{refl, []}
use llm_trade.Float.Fixed.{fixed_float}
use llm_trade.Settings.Sample.{usd}
use llm_trade.Broker.Sample.{yen_pair}
use llm_trade.Timebase.{broker_tick_age_seconds, infer_positive_server_offset_seconds}
use llm_trade.Timebase.Age.{IsDated, broker_tick_age_seconds-IsDated}

-- A clock that is three hours and ten seconds ahead.
broker_tick_age_seconds-IsDated_example :
    IsDated yen_pair
      (usd 30_810)
      (usd 20_000)
      []
      (broker_tick_age_seconds yen_pair (usd 30_810) (usd 20_000) [])
unfolding broker_tick_age_seconds infer_positive_server_offset_seconds
broker_tick_age_seconds-IsDated_example =
    broker_tick_age_seconds-IsDated refl yen_pair (usd 30_810) (usd 20_000) [] refl
