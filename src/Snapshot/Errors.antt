-- ===== src/Snapshot/Errors.antt =====
-- When a session has no snapshot, and what a restored session always has.
use ia_harness.Base.{
  ℕ, suc, ◌≡◌, ◌↔◌, true, Option, some, List, [], ◌∷◌, arith, IsInt64, ok, Bool-cases, inl, inr,
  length, Result-cases,
}
use ia_harness.Core.Message.{Bytes, Message, Usage, Session}
use ia_harness.Snapshot.Types.{
  GenMessage, GenUsage, SessionSnapshot, valid_session_state, optional_int, optional_string,
}
use ia_harness.Snapshot.Save.{snapshot_usage, snapshot_with, snapshot_session}
use ia_harness.Snapshot.Restore.{restore_messages, restore_parts, restore_session}
use ia_harness.Snapshot.Fields.{int64_to_int-ok}
use ia_harness.Snapshot.RoundTrip.{cost_back}

usage_saved :
    (usage : Usage)
    → IsInt64 usage.input_tokens
    → IsInt64 usage.output_tokens
    → IsInt64 usage.cost_micros
    → (saved : GenUsage) × (snapshot_usage usage ≡ ok saved)
unfolding snapshot_usage
usage_saved usage input output cost =
    let (saved, e, _) = cost_back usage.cost_micros cost in
    (
      record {
        input_tokens = usage.input_tokens;
        output_tokens = usage.output_tokens;
        estimated = usage.estimated;
        cost_micros = saved;
        currency = optional_string usage.currency;
        cached_input_tokens = optional_int usage.cached_input_tokens;
        cache_write_tokens = optional_int usage.cache_write_tokens;
      },
      rw (
        int64_to_int-ok _ usage.input_tokens input,
        int64_to_int-ok _ usage.output_tokens output,
        e,
      ),
    )

module _ {J : Type 0} where
  -- A session whose totals are int64 has a snapshot exactly where its state is one of the contract.
  pub snapshot_session-ok_iff :
      (s : Session)
      → IsInt64 s.usage.input_tokens
      → IsInt64 s.usage.output_tokens
      → IsInt64 s.usage.cost_micros
      → ((snap : SessionSnapshot J) × (snapshot_session (some s) ≡ ok snap))
        ↔ (valid_session_state s.state ≡ true)
  unfolding snapshot_session
  snapshot_session-ok_iff s input output cost = (
    λ (snap, e). elim (Bool-cases (valid_session_state s.state)) [
      | inl valid ↦ valid
      | inr invalid ↦ cc
    ],
    λ valid.
        let (saved, e) = usage_saved s.usage input output cost in
        (snapshot_with s saved, rw (valid, e)),
  )

module _ {J : Type 0} (marshal : J → Option Bytes) where
  restore_messages-length :
      (i : ℕ) (messages : List (GenMessage J)) (out : List Message)
      → restore_messages marshal i messages ≡ ok out
      → length out ≡ length messages
  unfolding restore_messages
  restore_messages-length i [] out e = ground arith
  restore_messages-length i (m ∷ messages) out e =
      elim (Result-cases (restore_parts marshal 0 m.parts)) [
        | inr (x, f) ↦ ground arith
        | inl (parts, f) ↦ elim (Result-cases (restore_messages marshal (suc i) messages)) [
          | inr (x, g) ↦ ground arith
          | inl (rest, g) ↦ ground (arith, restore_messages-length (suc i) messages rest g)
        ]
      ]

  -- A session that a snapshot restores has a state of the contract, as many messages as the
  -- snapshot, and its identity.
  pub restore_session-keeps :
      (snap : SessionSnapshot J) (s : Session)
      → restore_session marshal snap ≡ ok s
      → (valid_session_state s.state ≡ true)
        × (length s.messages ≡ length snap.messages)
        × (s.id ≡ snap.id)
        × (s.user_id ≡ snap.user_id)
  unfolding restore_session
  restore_session-keeps snap s e = elim (Bool-cases (valid_session_state snap.state)) [
    | inl valid ↦ elim (Result-cases (restore_messages marshal 0 snap.messages)) [
      | inr (x, g) ↦ ground arith
      | inl (ms, g) ↦ ground (arith, restore_messages-length 0 snap.messages ms g)
    ]
    | inr invalid ↦ cc
  ]
