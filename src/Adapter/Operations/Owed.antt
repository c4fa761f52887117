-- ===== src/Adapter/Operations/Owed.antt =====
-- src/session-runtime-adapter.ts: the callbacks that operations are owed, and the messages that they
-- have still to send.
use cantelop_sdk.Prelude.{
  ℕ, ◌+◌, ◌≡◌, refl, inl, inr, String, Bool, true, false, Option, none, some, List, [], ◌∷◌, str_eq,
  eq_iff, length, lookup, erase, sum_by, if◌then◌else◌, arith, Bool-cases,
}
use cantelop_sdk.Adapter.Operations.{
  calling, working, flushing, HarnessOperation, Operations, modify,
}

module _ {M : Type 0} where
  abbrev pub is_calling : Option (HarnessOperation M) → Bool
  is_calling none = false
  is_calling (some op) = elim op.phase [ calling ↦ true | working ↦ false | flushing ↦ false ]

  abbrev pub is_working : Option (HarnessOperation M) → Bool
  is_working none = false
  is_working (some op) = elim op.phase [ calling ↦ false | working ↦ true | flushing ↦ false ]

  abbrev pub is_flushing : Option (HarnessOperation M) → Bool
  is_flushing none = false
  is_flushing (some op) = elim op.phase [ calling ↦ false | working ↦ false | flushing ↦ true ]

  -- Every key stands once, as in a `Map`.
  abbrev pub DistinctKeys : Operations M → Type 0
  DistinctKeys [] = Unit
  DistinctKeys ((key, op) ∷ ops) = (lookup key ops ≡ none) × DistinctKeys ops

  unfoldable pub messages_of : Option (HarnessOperation M) → List M
  messages_of none = []
  messages_of (some op) = op.followups.messages

  -- The follow-up messages of an operation that are still to be sent.
  unfoldable pub left_for : String → Operations M → List M
  unfolding messages_of
  left_for id ops = messages_of (lookup id ops)

  -- The callbacks that an operation is owed at most: the return of its call, the end of its promise,
  -- one for each message, and the last of the flush.
  abbrev pub owed_by : HarnessOperation M → ℕ
  owed_by op =
      (elim op.phase [ calling ↦ 3 | working ↦ 2 | flushing ↦ 1 ]) + length op.followups.messages

  abbrev owed_entry : String × HarnessOperation M → ℕ
  owed_entry entry = owed_by entry.1

  abbrev pub owed : Operations M → ℕ
  owed ops = sum_by owed_entry ops

  pub lookup-modify :
      (id other : String) (change : HarnessOperation M → HarnessOperation M) (ops : Operations M)
      (op : HarnessOperation M)
      → lookup id ops ≡ some op
      → lookup other (modify id change ops)
        ≡ (if str_eq id other then some (change op) else lookup other ops)
  unfolding modify
  lookup-modify id other change [] op h = cc h
  lookup-modify id other change ((key, o) ∷ ops) op h = ground (
    arith,
    lookup-modify id other change ops op,
    eq_iff key id,
    eq_iff key other,
    eq_iff id other,
  )

  lookup-erase-none :
      (id other : String) (ops : Operations M)
      → lookup other ops ≡ none
      → lookup other (erase id ops) ≡ none
  lookup-erase-none id other [] h = refl
  lookup-erase-none id other ((key, o) ∷ ops) h = ground (arith, lookup-erase-none id other ops)

  pub lookup-erase :
      (id other : String) (ops : Operations M)
      → DistinctKeys ops
      → lookup other (erase id ops) ≡ (if str_eq id other then none else lookup other ops)
  lookup-erase id other [] d = ground arith
  lookup-erase id other ((key, o) ∷ ops) d =
      ground (
        arith,
        lookup-erase id other ops d.1,
        d.0,
        eq_iff key id,
        eq_iff key other,
        eq_iff id other,
      )

  lookup-modify-none :
      (id other : String) (change : HarnessOperation M → HarnessOperation M) (ops : Operations M)
      → lookup other ops ≡ none
      → lookup other (modify id change ops) ≡ none
  unfolding modify
  lookup-modify-none id other change [] h = refl
  lookup-modify-none id other change ((key, o) ∷ ops) h =
      ground (arith, lookup-modify-none id other change ops)

  pub modify-DistinctKeys :
      (id : String) (change : HarnessOperation M → HarnessOperation M) (ops : Operations M)
      → DistinctKeys ops
      → DistinctKeys (modify id change ops)
  unfolding modify
  modify-DistinctKeys id change [] d = tt
  modify-DistinctKeys id change ((key, o) ∷ ops) d = elim (Bool-cases (str_eq key id)) [
    | inl hit ↦ rw hit d
    | inr miss ↦
        rw miss (lookup-modify-none id key change ops d.0, modify-DistinctKeys id change ops d.1)
  ]

  pub erase-DistinctKeys :
      (id : String) (ops : Operations M) → DistinctKeys ops → DistinctKeys (erase id ops)
  erase-DistinctKeys id [] d = tt
  erase-DistinctKeys id ((key, o) ∷ ops) d = elim (Bool-cases (str_eq key id)) [
    | inl hit ↦ rw hit d.1
    | inr miss ↦ rw miss (lookup-erase-none id key ops d.0, erase-DistinctKeys id ops d.1)
  ]

  pub owed-modify :
      (id : String) (change : HarnessOperation M → HarnessOperation M) (ops : Operations M)
      (op : HarnessOperation M)
      → lookup id ops ≡ some op
      → owed (modify id change ops) + owed_by op ≡ owed ops + owed_by (change op)
  unfolding modify
  owed-modify id change [] op h = cc h
  owed-modify id change ((key, o) ∷ ops) op h = elim (Bool-cases (str_eq key id)) [
    | inl hit ↦ let same : o ≡ op = ground arith in rw (hit, same) (omega arith)
    | inr miss ↦ rw miss (omega (arith, owed-modify id change ops op (rw miss at h)))
  ]

  pub owed-erase :
      (id : String) (ops : Operations M) (op : HarnessOperation M)
      → lookup id ops ≡ some op
      → owed (erase id ops) + owed_by op ≡ owed ops
  owed-erase id [] op h = cc h
  owed-erase id ((key, o) ∷ ops) op h = elim (Bool-cases (str_eq key id)) [
    | inl hit ↦ let same : o ≡ op = ground arith in rw (hit, same) (omega arith)
    | inr miss ↦ rw miss (omega (arith, owed-erase id ops op (rw miss at h)))
  ]
