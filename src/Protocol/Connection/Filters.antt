-- ===== src/Protocol/Connection/Filters.antt =====
-- The log filters of protocol/src/connection.rs. A packet is seen through its model id.
use protanki_protocol_rs.Common.{
  ℕ, Bool, true, false, not, List, [], ◌∷◌, ◌==◌, ◌||◌, if◌then◌else◌, ◌≡◌, arith,
}

pub record SimplePacketDebugFilter : Type 0 where
  pub enabled : Bool

unfoldable pub logging_enabled : SimplePacketDebugFilter
logging_enabled = record { enabled = true }

unfoldable pub logging_disabled : SimplePacketDebugFilter
logging_disabled = record { enabled = false }

unfoldable pub simple_should_log : SimplePacketDebugFilter → Bool → ℕ → Bool
simple_should_log f is_send model_id = f.enabled

pub record ModelPacketDebugFilter : Type 0 where
  pub model_ids : List ℕ
  pub is_whitelist : Bool

unfoldable pub whitelist : List ℕ → ModelPacketDebugFilter
whitelist ids = record { model_ids = ids; is_whitelist = true }

unfoldable pub blacklist : List ℕ → ModelPacketDebugFilter
blacklist ids = record { model_ids = ids; is_whitelist = false }

unfoldable pub contains : List ℕ → ℕ → Bool
contains [] a = false
contains (x ∷ xs) a = x == a || contains xs a

unfoldable pub model_should_log : ModelPacketDebugFilter → Bool → ℕ → Bool
unfolding contains
model_should_log f is_send model_id =
    if contains f.model_ids model_id then f.is_whitelist else not f.is_whitelist

-- Of any packet exactly one of a whitelist and a blacklist of the same ids logs it.
pub blacklist-whitelist :
    (ids : List ℕ) (is_send : Bool) (model_id : ℕ)
    → model_should_log (blacklist ids) is_send model_id
      ≡ not (model_should_log (whitelist ids) is_send model_id)
unfolding model_should_log blacklist whitelist
blacklist-whitelist ids is_send model_id = ground arith
