-- ===== src/Engine/Types.antt =====
-- The types of shared/engine.ts that the other components share.
use vanilla_bus.Prelude.{ℕ, Bool, List, Option, Text}
use vanilla_bus.Prelude.Int.{ℤ}
use vanilla_bus.Engine.Value.{Number}

pub data SignalValue : Type 0 where
  num : Number → SignalValue
  str : Text → SignalValue
  bool : Bool → SignalValue

pub data FrameDir : Type 0 where
  rx tx : FrameDir

-- `Record<string, …>` is the list of its entries.
pub record FrameDecode : Type 0 where
  pub name : Text
  pub signals : List (Text × SignalValue)
  pub units : List (Text × Text)

pub record FrameEvent : Type 0 where
  pub bus_id : Text
  pub if_name : Text
  pub ts_us : Number
  pub can_id : ℕ
  pub dlc : ℕ
  pub payload : Text
  pub is_eff : Bool
  pub is_fd : Bool
  pub brs : Bool
  pub is_rtr : Bool
  pub is_err : Bool
  pub dir : FrameDir
  pub rate_ms : Option Number
  pub decode : Option FrameDecode

-- `dropped` is any integer that the engine sends.
pub record RxBatch : Type 0 where
  pub frames : List FrameEvent
  pub dropped : ℤ

pub record DbcCatalogSignal : Type 0 where
  pub name : Text
  pub unit : Text
  pub min : Option Number
  pub max : Option Number
  pub initial : Option Number

pub record DbcCatalogMessage : Type 0 where
  pub name : Text
  pub can_id : ℕ
  pub signals : List DbcCatalogSignal
