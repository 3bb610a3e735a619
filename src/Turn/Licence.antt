-- ===== src/Turn/Licence.antt =====
-- A tool is called only where the policy lets the agent call it: the loop over the calls.
use ia_harness.Base.{String, ◌≡◌, inl, inr, false, List, [], ◌∷◌}
use ia_harness.Core.Message.{ToolCall}
use ia_harness.Turn.Machine.{
  Host, InstalledTool, World, Action, saved, save_failed, called, asked, told_checkpoint, told_call,
  told_error, told_result, recorded, asked_model, recorded_model, told_usage, told_compaction,
  told_cache, cached,
}
use ia_harness.Turn.Warrant.{later, IsLicensed}
use ia_harness.Turn.Settling.{IsOpen, Keeps-settle_calls}
use ia_harness.Turn.Calls.{run_call, settle_calls}
use ia_harness.Turn.Runs.{IsStable, Keeps-run_call}
use ia_harness.Turn.Frame.{Fact, Holds, is_call}

module _ (host : Host) (agent : String) where
  -- Every call of a source in the trace had its licence when it was made.
  abbrev pub IsSafe : List Action → Type 0
  IsSafe [] = Unit
  IsSafe (called it call ∷ before) = IsLicensed host agent it call before × IsSafe before
  IsSafe (_ ∷ before) = IsSafe before

  licence_stays :
      (it : InstalledTool) (call : ToolCall) (a : Action) (l : List Action)
      → IsLicensed host agent it call l
      → IsLicensed host agent it call (a ∷ l)
  licence_stays it call a l (allowed, inl no_human, valid) = (allowed, inl no_human, valid)
  licence_stays it call a l (allowed, inr approved, valid) = (allowed, inr (later approved), valid)

  -- The agent of the session, the safety of the trace, and a fact that no action undoes.
  abbrev pub Safe : (List Action → Type 0) → Fact
  Safe L s l = (s.agent_id ≡ agent) × IsSafe l × L l

  IsSafe-more : (a : Action) (l : List Action) → is_call a ≡ false → IsSafe l → IsSafe (a ∷ l)
  IsSafe-more (called it call) l e h = cc
  IsSafe-more (saved s) l e h = h
  IsSafe-more save_failed l e h = h
  IsSafe-more (asked call d) l e h = h
  IsSafe-more (told_checkpoint c) l e h = h
  IsSafe-more (told_call id) l e h = h
  IsSafe-more (told_error id) l e h = h
  IsSafe-more (told_result id status) l e h = h
  IsSafe-more (recorded id status) l e h = h
  IsSafe-more (asked_model req) l e h = h
  IsSafe-more (recorded_model u) l e h = h
  IsSafe-more (told_usage u) l e h = h
  IsSafe-more (told_compaction c) l e h = h
  IsSafe-more (told_cache hit) l e h = h
  IsSafe-more (cached req resp) l e h = h

  Safe-IsStable :
      (L : List Action → Type 0)
      → ((a : Action) (l : List Action) → L l → L (a ∷ l))
      → IsStable (Safe L)
  Safe-IsStable L more = record {
    steady = record {
      act = λ a e (agent_is, safe, h). (agent_is, IsSafe-more a _ e safe, more a _ h);
      checkpoint = λ c c' same status h. h;
    };
    message = λ m h. h;
  }

  abbrev pub Any : List Action → Type 0
  Any l = Unit

  pub safe_stable : IsStable (Safe Any)
  safe_stable = Safe-IsStable Any (λ a l h. h)

  -- A licensed call runs.
  pub Keeps-licensed :
      (it : InstalledTool) (call : ToolCall) (w : World)
      → Holds (Safe Any) w
      → IsLicensed host agent it call w.trace
      → Holds (Safe Any) (run_call host it call w).1
  Keeps-licensed it call w (a, t, u) licence =
      let (a', t', l') =
        Keeps-run_call host (Safe (IsLicensed host agent it call))
          (Safe-IsStable (IsLicensed host agent it call) (licence_stays it call)) it call
          (λ s l (e, safe, h). (e, (h, safe), licence_stays it call _ l h)) w (a, t, licence) in
      (a', t', tt)

  pub safe-IsOpen : IsOpen host agent (Safe Any)
  safe-IsOpen = record {
    stable = safe_stable;
    of_agent = λ h. h.0;
    waits = λ state pending h. h;
    touched = λ t h. h;
    runs = Keeps-licensed;
  }

  -- Whatever a model asks for and the host answers, the loop over the calls of a response calls a
  -- tool only where the policy of the agent allows it, its arguments pass the validator, and a
  -- human approved the call before if the policy wants that: a safe trace stays safe.
  pub settle_calls-IsSafe :
      (catalog : List InstalledTool) (calls : List ToolCall) (w : World)
      → w.session.agent_id ≡ agent
      → IsSafe w.trace
      → IsSafe (settle_calls host catalog calls w).1.trace
  settle_calls-IsSafe catalog calls w a safe =
      let (_, safe', _) =
        Keeps-settle_calls host agent (Safe Any) safe-IsOpen catalog calls w (a, safe, tt) in
      safe'
