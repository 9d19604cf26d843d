-- ===== src/Manager/Streams.antt =====
-- What manager/manager.go makes of sing-box's streams and of its calls back.
use target_lib.Base.{
  ℕ, ◌+◌, ◌/◌, ◌≤◌, ℤ, pos, negsuc, Bool, true, false, not, ◌&&◌, List, [], ◌∷◌, Option, none, some,
  Text, is_empty, ltb, Result, err, if◌then◌else◌, All, Bool-cases, inl, inr, arith,
}
use target_lib.Manager.{Code, invalid_argument}

-- daemon.LogLevel: 0 panic, 1 fatal, 2 error, 3 warn and so on. A message of a batch may be nil.
pub record DaemonMessage : Type 0 where
  pub level : ℕ
  pub message : Text

pub record DaemonLog : Type 0 where
  pub reset : Bool
  pub messages : List (Option DaemonMessage)

pub record LogMessage : Type 0 where
  pub level : ℕ
  pub message : Text

pub record LogBatch : Type 0 where
  pub reset : Bool
  pub messages : List LogMessage

abbrev pub error_level : ℕ
error_level = 2

-- The loop of Send of logRelay.
abbrev pub append_if : Bool → LogMessage → List LogMessage → List LogMessage
append_if true m rest = rest
append_if false m rest = m ∷ rest

unfoldable pub relayed_messages : List (Option DaemonMessage) → List LogMessage
relayed_messages [] = []
relayed_messages (none ∷ more) = relayed_messages more
relayed_messages (some m ∷ more) =
    append_if (ltb error_level m.level) (record { level = m.level + 1; message = m.message })
      (relayed_messages more)

-- Send of logRelay, none if it sends nothing.
abbrev pub batch_if : LogBatch → Option LogBatch
batch_if b = if is_empty b.messages && not b.reset then none else some b

unfoldable pub relay_log : DaemonLog → Option LogBatch
relay_log log = batch_if (record { reset = log.reset; messages = relayed_messages log.messages })

-- daemon.Status, as far as the traffic goes.
pub record DaemonStatus : Type 0 where
  pub traffic_available : Bool
  pub uplink : ℤ
  pub downlink : ℤ
  pub uplink_total : ℤ
  pub downlink_total : ℤ
  pub connections_in : ℤ
  pub connections_out : ℤ

pub record TrafficStatus : Type 0 where
  pub available : Bool
  pub upload_bytes_per_second : ℤ
  pub download_bytes_per_second : ℤ
  pub upload_total_bytes : ℤ
  pub download_total_bytes : ℤ
  pub inbound_connections : ℤ
  pub outbound_connections : ℤ
  pub sampled_at_unix_ms : ℤ
  pub interval_milliseconds : ℕ

-- The quotient is that of binary64 numbers, rounded towards zero: a parameter. The interval, in
-- nanoseconds, is one of traffic_interval.
module _ (per_second : ℕ → ℕ → ℤ) where
  unfoldable pub bytes_per_second : ℤ → ℕ → ℤ
  bytes_per_second (negsuc n) interval = pos 0
  bytes_per_second (pos n) interval =
      if ltb 0 n && ltb 0 interval then per_second n interval else pos 0

  unfoldable pub traffic_status : DaemonStatus → ℕ → ℤ → TrafficStatus
  traffic_status s interval now = record {
    available = s.traffic_available;
    upload_bytes_per_second = bytes_per_second s.uplink interval;
    download_bytes_per_second = bytes_per_second s.downlink interval;
    upload_total_bytes = s.uplink_total;
    download_total_bytes = s.downlink_total;
    inbound_connections = s.connections_in;
    outbound_connections = s.connections_out;
    sampled_at_unix_ms = now;
    interval_milliseconds = interval / 1000000;
  }

-- CloseConnection: none for a nil request.
unfoldable pub close_connection {ℓ} :
    {A : Type ℓ} → (Text → Result Code A) → Option Text → Result Code A
close_connection close none = err invalid_argument
close_connection close (some id) = if is_empty id then err invalid_argument else close id

-- What is relayed is as severe as an error, and its level is a number of LogLevel that is not 0.
pub relayed_severe :
    (messages : List (Option DaemonMessage))
    → All (λ m. (1 ≤ m.level) × (m.level ≤ 3)) (relayed_messages messages)
unfolding relayed_messages
relayed_severe [] = tt
relayed_severe (none ∷ more) = relayed_severe more
relayed_severe (some m ∷ more) = elim (Bool-cases (ltb error_level m.level)) [
  | inl e ↦ rw e (relayed_severe more)
  | inr e ↦ rw e ((ground arith, ground arith), relayed_severe more)
]
