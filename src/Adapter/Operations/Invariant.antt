-- ===== src/Adapter/Operations/Invariant.antt =====
-- src/session-runtime-adapter.ts: what holds of the harness operations between two turns.
use cantelop_sdk.Prelude.{
  suc, ◌≤◌, ◌≡◌, refl, ap, inl, inr, String, true, [], ◌∷◌, length, str_eq, is_some, All,
  Bool-cases,
}
use cantelop_sdk.Activity.{max_queued, max_followup_bytes}
use cantelop_sdk.Adapter.Operations.{
  max_harness_operations, HarnessOperation, Operations, is_open, modify,
}

-- An open operation is dated as cancelled just when its controller is aborted, no operation is dated
-- without that, and its follow-up messages are within their bounds.
pub record IsSound {M : Type 0} (op : HarnessOperation M) : Type 0 where
  pub dated : is_open op.phase ≡ true → is_some op.cancelled_at ≡ is_some op.aborted
  pub aborted_if_dated : is_some op.cancelled_at ≡ true → is_some op.aborted ≡ true
  pub few_followups : length op.followups.messages ≤ max_queued
  pub small_followups : op.followups.bytes ≤ max_followup_bytes

module _ {M : Type 0} where
  abbrev Sound : String × HarnessOperation M → Type 0
  Sound entry = IsSound entry.1

  pub record Inv (ops : Operations M) : Type 0 where
    pub few : length ops ≤ max_harness_operations
    pub sound : All Sound ops

  pub length-modify :
      (id : String) (change : HarnessOperation M → HarnessOperation M) (ops : Operations M)
      → length (modify id change ops) ≡ length ops
  unfolding modify
  length-modify id change [] = refl
  length-modify id change ((key, op) ∷ ops) = elim (Bool-cases (str_eq key id)) [
    | inl e ↦ rw e
    | inr e ↦ rw e (ap suc (length-modify id change ops))
  ]
