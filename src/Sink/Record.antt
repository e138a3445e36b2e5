-- ===== src/Sink/Record.antt =====
-- internal/sink/record.go: a row on its way to a sink. An instant is a number, and `state` is the
-- field `Data` of the source.
use kuberecord.Base.{ℕ, List}
use kuberecord.Base.Map.{Map}
use kuberecord.Base.Text.{Text}

-- `Record`
pub record SinkRecord : Type 0 where
  pub timestamp : ℕ
  pub cluster_id : Text
  pub event_type : Text
  pub api_group : Text
  pub api_version : Text
  pub kind : Text
  pub namespace : Text
  pub name : Text
  pub uid : Text
  pub resource_version : Text
  pub labels : Map Text Text
  pub actors : List Text
  pub state : Text
  pub diff : Text
  pub sha256 : Text
