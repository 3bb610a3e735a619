-- ===== src/Policy/Override.antt =====
-- What the override of a tool changes: idempotence and timeout (policy.go).
use ia_harness.Base.{
  String, pos, ◌≡◌, ◌↔◌, ◌⊎◌, inl, inr, ◌<ℤ◌, ◌≤ℤ◌, true, some, arith, Option-cases, Bool-cases,
}
use ia_harness.Core.Config.{PolicyConfig, ToolPolicy, Tool}
use ia_harness.Policy.{override_of, tool_idempotent, timeout}

module _ (policy : PolicyConfig) (id : String) (tool : Tool) where
  -- A tool is taken as idempotent exactly where it declares so itself or its override does: a
  -- partial override never takes the declaration back.
  pub idempotent_iff : (tool_idempotent policy id tool ≡ true) ↔ (
      (tool.idempotent ≡ true)
      ⊎ (o : ToolPolicy) × (override_of policy id tool ≡ some o) × (o.idempotent ≡ true))
  unfolding tool_idempotent
  idempotent_iff = (to, from)
    where
      to :
          tool_idempotent policy id tool ≡ true
          → (tool.idempotent ≡ true)
            ⊎ (o : ToolPolicy) × (override_of policy id tool ≡ some o) × (o.idempotent ≡ true)
      to h = elim (Option-cases (override_of policy id tool)) [
        | inl none_set ↦ inl (ground arith)
        | inr (o, e) ↦ elim (Bool-cases o.idempotent) [
          | inl y ↦ inr (o, e, y)
          | inr n ↦ inl (ground arith)
        ]
      ]

      from :
          (tool.idempotent ≡ true)
            ⊎ (o : ToolPolicy) × (override_of policy id tool ≡ some o) × (o.idempotent ≡ true)
          → tool_idempotent policy id tool ≡ true
      from (inl d) = ground arith
      from (inr (o, e, y)) = ground arith

  -- The timeout of a policy is never negative, and it is positive exactly where an override sets a
  -- positive one, which it then is.
  pub timeout_lem :
      (pos 0 ≤ℤ timeout policy id tool)
      × ((pos 0 <ℤ timeout policy id tool)
          ↔ ((o : ToolPolicy) × (override_of policy id tool ≡ some o) × (pos 0 <ℤ o.timeout)))
      × ((o : ToolPolicy)
          → override_of policy id tool ≡ some o
          → pos 0 <ℤ o.timeout
          → timeout policy id tool ≡ o.timeout)
  unfolding timeout
  timeout_lem = (
    ground arith,
    (
      λ h. elim (Option-cases (override_of policy id tool)) [
        | inl none_set ↦ absurd (ground arith)
        | inr (o, e) ↦ (o, e, ground arith)
      ],
      λ (o, e, h). ground arith,
    ),
    λ o e h. ground arith,
  )
