-- ===== src/Models.antt =====
-- pkg/models/types.go and pkg/models/constants.go: the data that the other parts share. A string
-- that the program only compares with fixed words is a data type of those words; `other` is any
-- other string. VM identifiers are natural numbers.
use pve_traffic_monitor.Base.{ℕ, ◌*◌}
use pve_traffic_monitor.Base.Text.{Text, codes}
use pve_traffic_monitor.Clock.{Time}

-- The words for periods, with "minute", which only statistics know.
pub data PeriodType : Type 0 where
  minute hour day month : PeriodType
  other : Text → PeriodType

abbrev pub period_text : PeriodType → Text
period_text minute = codes "minute"
period_text hour = codes "hour"
period_text day = codes "day"
period_text month = codes "month"
period_text (other s) = s

pub data Direction : Type 0 where
  both upload tx download rx : Direction
  other : Text → Direction

abbrev pub direction_text : Direction → Text
direction_text both = codes "both"
direction_text upload = codes "upload"
direction_text tx = codes "tx"
direction_text download = codes "download"
direction_text rx = codes "rx"
direction_text (other s) = s

pub data Action : Type 0 where
  shutdown stop disconnect rate_limit : Action
  other : Text → Action

-- All but `total_bytes` is read back by the program.
pub record TrafficRecord : Type 0 where
  pub vmid : ℕ
  pub timestamp : Time
  pub rx_bytes : ℕ
  pub tx_bytes : ℕ
  pub total_bytes : ℕ

pub record TrafficStats (F : Type 0) : Type 0 where
  pub vmid : ℕ
  pub period : PeriodType
  pub start_time : Time
  pub end_time : Time
  pub direction : Direction
  pub rx_bytes : ℕ
  pub tx_bytes : ℕ
  pub total_bytes : ℕ
  pub total_gb : F

pub record AggregatedPoint : Type 0 where
  pub timestamp : Time
  pub rx_bytes : ℕ
  pub tx_bytes : ℕ
  pub total_bytes : ℕ

abbrev pub bytes_per_gb : ℕ
bytes_per_gb = 1024 * 1024 * 1024
