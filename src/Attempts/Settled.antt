-- ===== src/Attempts/Settled.antt =====
-- How the attempts of `_complete_with_retry` in eventide/host.py follow each other.
use eventide.Prelude.{nat_eq}
