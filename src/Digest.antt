-- ===== src/Digest.antt =====
-- The items of a block header's digest (`sp_runtime::generic::DigestItem`), which the pallets and the
-- node read and write. An engine id, `[u8; 4]`, and the payload are lists of bytes.
use lumenyx.Prelude.{ℕ, List, [], ◌∷◌}

pub data DigestItem : Type 0 where
  pre_runtime consensus seal : List ℕ → List ℕ → DigestItem
  other : List ℕ → DigestItem
  runtime_environment_updated : DigestItem

-- `LUMENYX_ENGINE_ID`, b"LMNX"
abbrev pub lumenyx_engine_id : List ℕ
lumenyx_engine_id = b'L' ∷ b'M' ∷ b'N' ∷ b'X' ∷ []

-- `POOL_PAYOUT_DIGEST_TAG`, b"PPLN"
abbrev pub pool_payout_digest_tag : List ℕ
pool_payout_digest_tag = b'P' ∷ b'P' ∷ b'L' ∷ b'N' ∷ []
