-- ===== src/Service.antt =====
-- service/app/custody_service.py: `CustodyService`. The repository is the state that each method
-- returns. Every reading of the clock is an argument, and so is what the task publisher, the relay
-- gateway and the random source answer.
pub mod Commands
pub mod Publish
pub mod Approvals
pub mod Reservation
pub mod Release
pub mod Relay
pub mod Secrets
pub mod Claim
pub mod ClaimLink
pub mod Credentials
pub mod Packet
pub mod Analysis
pub mod Processing
pub mod Begin
pub mod Manifest
use found_roll.Prelude.{ℕ, String, Bool}

-- `Settings`, as far as these methods read it
pub record Settings : Type 0 where
  pub secret_pepper : String
  pub relay_custodian_id : String
  pub claim_link_ttl_microseconds : ℕ
  pub cloud_tasks : Bool
  pub demo_mode : Bool
