-- ===== src/State/Loading.antt =====
-- src/state.rs: the resolver of a policy text.
use hp_guardian.Prelude.{ℕ, String, List, Result, ok, ◌>>=◌}
use hp_guardian.Models.{PolicyError}
use hp_guardian.Parser.{Yaml}
use hp_guardian.Parser.Conditions.{Formats}
use hp_guardian.Parser.Policy.{parse_rate_limited}
use hp_guardian.Audit.Records.{to_hex}
use hp_guardian.State.{RateLimitedPolicyStore}

-- `RateLimitedPolicyStore::with_clock`; the store and the clock are arguments of `resolve`, and
-- `sha256` gives the bytes of the digest of a text.
unfoldable pub with_clock :
    Yaml → Formats → (String → List ℕ) → String → Result PolicyError RateLimitedPolicyStore
unfolding parse_rate_limited to_hex
with_clock yaml formats sha256 policy_text = do
  engine ← parse_rate_limited yaml formats policy_text
  ok (record { engine = engine; policy_digest = to_hex (sha256 policy_text) })
