-- ===== src/Device/Service.antt =====
-- The requests of pkg/northbound/device/p4runtime/v1/p4runtime.go that a master alone may make.
pub mod Master
use fabric_sim.Prelude.{ℕ, Bytes, List, [], Option, none, some, ◌≡◌, refl, ◌⊎◌, inl, inr}
use fabric_sim.Outcome.{Error, Outcome, failed, panic}
use fabric_sim.Device.Pipeline.{PipelineConfig, Pipeline, set_pipeline_config}
use fabric_sim.Device.Write.{Update, process_write}
use fabric_sim.Device.Election.{ElectionId, Elections, Checked, checked, nil_pointer, is_master}

-- The fields that p4api.WriteRequest and p4api.SetForwardingPipelineConfigRequest share.
pub record Claim : Type 0 where
  pub device_id : ℕ
  pub role : Bytes
  pub election_id : Option ElectionId

-- checkMastership, and the early return after it; `chassis_id` is that of the device.
unfoldable pub as_master :
    ℕ → Claim → Elections → (Pipeline → Outcome Pipeline) → Pipeline → Outcome Pipeline
unfolding is_master
as_master chassis_id c elections op p =
    elim (is_master c.device_id chassis_id c.role c.election_id elections) [
      | nil_pointer ↦ panic
      | checked (some e) ↦ failed e p
      | checked none ↦ op p
    ]

-- Server.Write: checkForwardingPipeline passes, since GetPipelineConfig never returns nil.
unfoldable pub server_write :
    (Bytes → Bytes)
    → (Bytes → ℕ)
    → ℕ
    → Claim
    → List Update
    → Elections
    → Pipeline
    → Outcome Pipeline
unfolding as_master
server_write sha1 decode chassis_id c us elections =
    as_master chassis_id c elections (process_write sha1 decode us)

-- Server.SetForwardingPipelineConfig
unfoldable pub server_set_config :
    ℕ → Claim → PipelineConfig → Elections → Pipeline → Outcome Pipeline
unfolding as_master
server_set_config chassis_id c fpc elections =
    as_master chassis_id c elections (set_pipeline_config fpc)

-- GetForwardingPipelineConfigRequest_ResponseType
pub data ResponseType : Type 0 where
  all cookie_only p4info_and_cookie device_config_and_cookie : ResponseType

-- Server.GetForwardingPipelineConfig, of the copy that GetPipelineConfig makes
unfoldable pub server_get_config : ResponseType → Pipeline → PipelineConfig
server_get_config all p = p.config
server_get_config cookie_only p = record p.config { p4info = none; device_config = [] }
server_get_config p4info_and_cookie p = record p.config { device_config = [] }
server_get_config device_config_and_cookie p = record p.config { p4info = none }
