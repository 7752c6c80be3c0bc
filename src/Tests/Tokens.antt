-- ===== src/Tests/Tokens.antt =====
-- Capability tokens and policies at concrete inputs.
use helios_os.Prelude.{
  String, true, false, ◌≡◌, ◌≢◌, ◌↔◌, refl, none, some, List, [], ◌∷◌, get, eq_iff, arith,
}
use helios_os.Kernel.Capability.{
  CapabilityToken, CapabilityStore, is_expired, authorize, revoke, authorizes,
}
use helios_os.Kernel.Capability.Authority.{
  Covers, Op, issue_op, authorize_op, exec_all, authorize_iff, revoked_never_authorizes,
}
use helios_os.Tests.Fixtures.{read_token}

abbrev k1 : String
k1 = "k1"

abbrev k2 : String
k2 = "k2"

abbrev a1 : String
a1 = "a1"

abbrev store : CapabilityStore
store = ("k1", read_token) ∷ []

authorize_iff_example : ((authorize 5 6 "k1" "a1" "tool:mcp.read" "tool.call" store).1 ≡ true) ↔ (
    (t : CapabilityToken) × (get "k1" store ≡ some t)
    × Covers t "a1" "tool:mcp.read" "tool.call"
    × (is_expired 6 t ≡ false))
authorize_iff_example = authorize_iff 5 6 "k1" "a1" "tool:mcp.read" "tool.call" store (omega arith)

-- The token works before its end and not at it.
token_runs :
    ((authorize 5 6 "k1" "a1" "tool:mcp.read" "tool.call" store).1 ≡ true)
    × ((authorize 9 9 "k1" "a1" "tool:mcp.read" "tool.call" store).1 ≡ false)
    × ((authorize 5 6 "k1" "a2" "tool:mcp.read" "tool.call" store).1 ≡ false)
unfolding authorize get is_expired authorizes
token_runs = (refl, refl, refl)

other_id : k2 ≢ k1
other_id e = ground (arith, eq_iff k2 k1)

abbrev later_calls : List Op
later_calls =
    issue_op 7 "k2" "a1" "*" "*" none ∷ authorize_op 7 7 "k1" "a1" "tool:mcp.read" "tool.call" ∷ []

revoked_never_authorizes_example :
    (authorize 8 8 "k1" "a1" "tool:mcp.read" "tool.call"
      (exec_all later_calls (revoke "k1" store).0)).1
    ≡ false
revoked_never_authorizes_example =
    revoked_never_authorizes "k1" store later_calls 8 8 "a1" "tool:mcp.read" "tool.call"
      (other_id, (tt, tt))
