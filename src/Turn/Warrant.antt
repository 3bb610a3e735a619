-- ===== src/Turn/Warrant.antt =====
-- What a call needs before it may reach its tool (policy_gate.go and loop.go).
use ia_harness.Base.{String, ◌≡◌, ◌⊎◌, true, false, none, List, ◌∷◌, ok}
use ia_harness.Core.Message.{ToolCall}
use ia_harness.Core.Config.{Decision}
use ia_harness.Policy.{PolicyDecision, authorize}
use ia_harness.Turn.Machine.{Host, InstalledTool, Action, asked}
use ia_harness.Turn.Calls.{invalid_args}

-- A human has approved the call before.
pub data IsApproved (call : ToolCall) : List Action → Type 0 where
  here :
      {d : Decision} {l : List Action} → d.approve ≡ true → IsApproved call (asked call (ok d) ∷ l)
  later : {a : Action} {l : List Action} → IsApproved call l → IsApproved call (a ∷ l)

module _ (host : Host) (agent : String) where
  abbrev pub verdict : InstalledTool → PolicyDecision
  verdict it = authorize host.agents host.policy agent it.tool

  abbrev pub IsLicensed : InstalledTool → ToolCall → List Action → Type 0
  IsLicensed it call before =
      ((verdict it).allowed ≡ true)
      × (((verdict it).requires_confirmation ≡ false) ⊎ IsApproved call before)
      × (invalid_args it call.args ≡ none)
