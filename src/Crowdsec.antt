-- ===== src/Crowdsec.antt =====
-- The CrowdSec plugin (plugins/crowdsec).
pub mod ProviderReview
pub mod Asn
pub mod Enforcements
