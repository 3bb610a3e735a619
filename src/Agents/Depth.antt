-- ===== src/Agents/Depth.antt =====
-- The guard on the depth of a delegation (source.go, Call).
use ia_harness.Base.{
  ℕ, suc, ◌≤◌, ℤ, pos, pos_part, neg_part, ◌+ℤ◌, ◌≤ℤ◌, int_laws, String, ◌≡◌, refl, ap, ◌∙◌, ◌⊎◌,
  eq_of_parts, leb_ℤ, Assoc, true, inl, inr, arith, Result, ok, failed, if◌then◌else◌,
}
use ia_harness.Core.Config.{AgentSpec}
use ia_harness.Agents.{
  new_source, CallContext, DelegateArgs, handed_over, Source, SubAgentRequest, turn_context,
  delegation, hand_over, is_known,
}

-- A call hands over only to a known agent, one level deeper, within the limit, for the same user.
pub record IsHandOver (s : Source) (call child : CallContext) (req : SubAgentRequest) : Type 0 where
  pub level : child.depth ≡ call.depth +ℤ pos 1
  pub within : child.depth ≤ℤ s.max_depth
  pub known : is_known s.agents req.agent_id ≡ true
  pub same_user : child.user_id ≡ call.user_id
  pub user : req.user_id ≡ call.user_id

hand_over-IsHandOver :
    (s : Source) (call child : CallContext) (parsed : DelegateArgs) (req : SubAgentRequest)
    → hand_over s call parsed ≡ handed_over child req
    → IsHandOver s call child req
unfolding hand_over
hand_over-IsHandOver s call child parsed req h = record {
  level = ground arith;
  within = ground arith;
  known = ground arith;
  same_user = ground arith;
  user = ground arith;
}

-- The context of a turn that runs `n` levels of sub-turns below another: a delegation hands a context over, and the
-- turn of the sub-agent makes its own of it, with its session, which is of the user of the request.
pub data Nested (s : Source) (top : CallContext) : ℕ → CallContext → Type 0 where
  itself : Nested s top 0 top
  below :
      {n : ℕ} {call child : CallContext} (name : String) (args : Result String DelegateArgs)
      (req : SubAgentRequest) (session_id : String)
      → Nested s top n call
      → delegation s call name args ≡ handed_over child req
      → Nested s top (suc n) (turn_context child req.user_id session_id)

delegation-IsHandOver :
    (s : Source) (call child : CallContext) (name : String) (args : Result String DelegateArgs)
    (req : SubAgentRequest)
    → delegation s call name args ≡ handed_over child req
    → IsHandOver s call child req
unfolding delegation
delegation-IsHandOver s call child name (failed e) req h = absurd (ground arith)
delegation-IsHandOver s call child name (ok parsed) req h =
    hand_over-IsHandOver s call child parsed req (ground arith)

depth_of :
    (s : Source) (top : CallContext) {n : ℕ} {child : CallContext}
    → Nested s top n child
    → top.depth ≡ pos 0
    → (child.depth ≡ pos n) × (child.user_id ≡ top.user_id) × (pos n ≤ℤ s.max_depth ⊎ (n ≡ 0))
unfolding turn_context
depth_of s top itself e = (e, refl, inr refl)
depth_of s top (below {n} {call} {child} name args req session_id nested handed) e =
    let (d, u, _) = depth_of s top nested e in
    let h = delegation-IsHandOver s call child name args req handed in
    let deeper : child.depth ≡ pos (suc n) =
      h.level
      ∙ eq_of_parts (call.depth +ℤ pos 1) (pos (suc n))
          (omega (int_laws, ap pos_part d, ap neg_part d)) in
    (deeper, h.user ∙ u, inl (omega (arith, h.within, ap pos_part deeper, ap neg_part deeper)))

-- Delegation from a turn at depth 0 nests at most as many levels as the limit of the source, which
-- is 1 where the configuration gives none; the turn of every level stands at its depth and works for
-- the user of the first.
pub depth-new_source :
    (agents : Assoc AgentSpec) (max_depth : ℤ) (top : CallContext) (n : ℕ) (child : CallContext)
    → top.depth ≡ pos 0
    → Nested (new_source agents max_depth) top n child
    → (n ≤ (if leb_ℤ max_depth (pos 0) then 1 else pos_part max_depth))
      × (child.depth ≡ pos n)
      × (child.user_id ≡ top.user_id)
unfolding new_source
depth-new_source agents max_depth top n child e nested =
    let (d, u, w) = depth_of (new_source agents max_depth) top nested e in
    (elim w [ inl h ↦ ground arith | inr z ↦ ground arith ], d, u)
