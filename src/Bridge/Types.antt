-- ===== src/Bridge/Types.antt =====
-- shared/engine.ts: the requests to transmit, and what answers a call of the renderer.
use vanilla_bus.Prelude.{ℕ, Bool, false, List, Option, Text, codes, not, length, ◌==◌}
use vanilla_bus.Prelude.Int.{ℤ}
use vanilla_bus.Engine.Types.{SignalValue}
use vanilla_bus.Client.State.{RequestError}

pub record TxRawSendRequest : Type 0 where
  pub bus_id : Text
  pub can_id : ℕ
  pub payload : Text
  pub dlc : Option ℤ
  pub is_eff : Option Bool
  pub is_rtr : Option Bool
  pub is_fd : Option Bool
  pub brs : Option Bool

pub record TxDbcSendRequest : Type 0 where
  pub bus_id : Text
  pub message : Text
  pub signals : List (Text × SignalValue)

pub data TxSendRequest : Type 0 where
  raw : TxRawSendRequest → TxSendRequest
  dbc : TxDbcSendRequest → TxSendRequest

pub record TxCyclicStartRequest : Type 0 where
  pub request : TxSendRequest
  pub period_ms : ℕ

abbrev pub is_tx_dbc_send_request : TxSendRequest → Bool
is_tx_dbc_send_request (raw r) = false
is_tx_dbc_send_request (dbc r) = not (length r.message == 0)

-- `{ ok: true, … }` or `{ ok: false, error }`
pub data Checked {ℓ} (A : Type ℓ) : Type ℓ where
  ok : A → Checked A
  refused : RequestError → Checked A

abbrev pub invalid {ℓ} : {A : Type ℓ} → Text → Checked A
invalid message = refused (record { code = codes "invalid_payload"; message = message })
