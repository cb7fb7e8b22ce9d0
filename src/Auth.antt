-- ===== src/Auth.antt =====
-- src/auth: what guards the pod before a request has an agent.
pub mod Cache
pub mod Replay
pub mod Addresses
mod Tests
use quadpod.Prelude.{Text}

pub data AuthError : Type 0 where
  malformed : Text → AuthError
  bad_signature expired unknown_issuer : AuthError
  dpop_invalid : Text → AuthError
  binding missing_key unsupported_key_type : AuthError
  fetch_blocked : Text → AuthError
  issuer_not_authorized untrusted_issuer wrong_audience : AuthError
