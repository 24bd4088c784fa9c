-- ===== src/InternalOnion.antt =====
-- The internal onion route: the types of src/net/internalOnion/types.ts. The signature of a control
-- message belongs to src/net/internalOnion/controlPlaneAuth.ts and is not part of the model.
pub mod RouteManager
pub mod Relay
use nkc.Base.{ℕ, Bool, Option, List, String}

pub data RouteStatus : Type 0 where
  building ready degraded rebuilding expired idle : RouteStatus

pub data HopStatus : Type 0 where
  pending ok dead : HopStatus

pub record HopState : Type 0 where
  pub hop_index : ℕ
  pub peer_id : Option String
  pub status : HopStatus
  pub last_seen_ts : Option ℕ
  pub rtt_ms : Option ℕ

pub record RouteState : Type 0 where
  pub desired_hops : ℕ
  pub established_hops : ℕ
  pub status : RouteStatus
  pub circuit_id : Option String
  pub hops : List HopState
  pub last_error : Option String
  pub updated_at_ts : ℕ

pub record HopHello : Type 0 where
  pub circuit_id : String
  pub hop_index : ℕ
  pub ts : ℕ
  pub sender_peer_id : String

pub record HopAck : Type 0 where
  pub circuit_id : String
  pub hop_index : ℕ
  pub ts : ℕ
  pub relay_peer_id : String
  pub accepted : Bool

pub record HopPing : Type 0 where
  pub circuit_id : String
  pub hop_index : ℕ
  pub ts : ℕ

pub record HopPong : Type 0 where
  pub circuit_id : String
  pub hop_index : ℕ
  pub ts : ℕ

pub data ControlMessage : Type 0 where
  hello : HopHello → ControlMessage
  ack : HopAck → ControlMessage
  ping : HopPing → ControlMessage
  pong : HopPong → ControlMessage
