-- ===== src/Gates/Unreasoned.antt =====
-- What a reason that is not given says of the test that would give it.
use faar_runtime.Common.{◌≡◌, Bool, true, false, not, [], arith}
use faar_runtime.Gates.Capability.Shape.{CapabilityReason, reason_when}

pub unreasoned : (b : Bool) (r : CapabilityReason) → reason_when b r ≡ [] → b ≡ false
unreasoned b r h = ground arith

pub truth : (b : Bool) → not b ≡ false → b ≡ true
truth b h = ground arith
