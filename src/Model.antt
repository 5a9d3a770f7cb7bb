-- ===== src/Model.antt =====
-- internal/model/model.go: the records that the store, the router and the proxy exchange.
use astreo_gateway.Base.{ℕ, Bool, List, Text}

pub record Provider : Type 0 where
  pub id : Text
  pub name : Text
  pub slug : Text
  pub protocol : Text
  pub base_url : Text
  pub enabled : Bool
  pub headers : List (Text × Text)

pub record ApiKey : Type 0 where
  pub id : Text
  pub provider_id : Text
  pub label : Text
  pub value : Text
  pub priority : ℕ
  pub enabled : Bool

pub record AliasTarget : Type 0 where
  pub provider_id : Text
  pub model_name : Text
  pub position : ℕ

pub record Alias : Type 0 where
  pub id : Text
  pub name : Text
  pub routing : Text
  pub enabled : Bool
  pub targets : List AliasTarget

pub record GatewayKey : Type 0 where
  pub id : Text
  pub label : Text
  pub hash : Text
  pub prefix : Text
  pub enabled : Bool
