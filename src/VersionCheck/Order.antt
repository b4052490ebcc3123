-- ===== src/VersionCheck/Order.antt =====
-- Being older is a strict order on the versions that can be read.
use eidetic_daemon.Prelude.{◌≡◌, ◌⊎◌, Bool, true}

-- Either all differences so far are none, or one of the two comes first.
Ordered : Type 0 → Bool → Bool → Type 0
Ordered Same p q = Same ⊎ ((p ≡ true) ⊎ (q ≡ true))
