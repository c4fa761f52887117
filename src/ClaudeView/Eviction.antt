-- ===== src/ClaudeView/Eviction.antt =====
-- src/harnesses/claude-view.ts: the size that the loop of `claudeView` keeps is the size of the view.
use cantelop_sdk.Prelude.{
  codes, ℕ, ◌+◌, ◌≡◌, refl, Bool, true, List, [], ◌∷◌, ◌++◌, map, ltb, if◌then◌else◌, arith, sum_by,
  sum_by-append, error, Result, ok, err,
}
use cantelop_sdk.Stream.{Text, byte_length}
use cantelop_sdk.Stream.Decimal.{decimal}
use cantelop_sdk.ClaudeView.Json.{
  quote, boolean_text, array, member, with_comma, object-size, member-size, array-shift, flag_size,
}
use cantelop_sdk.ClaudeView.{
  view_max_bytes, ViewInput, ConversationEntry, SessionView, ViewedState, view_json, input_json,
  entry_json, run_json, usage_members, full_view, shrunk, evict, claude_view,
}

module _ {U : Type 0} (usage_text : U → Text) where
  abbrev pub shown : SessionView U → List ConversationEntry → List ViewInput → Bool → SessionView U
  shown v entries inputs truncated = record v {
    entries = entries;
    inputs = inputs;
    truncated = truncated;
  }

  abbrev pub view_size : SessionView U → ℕ
  view_size v = byte_length (view_json usage_text v)

  -- The loop that would write the whole view again in each round.
  unfoldable pub reserialise :
      SessionView U → List ConversationEntry → List ViewInput → Bool → Result (SessionView U)
  reserialise v [] [] truncated =
      if ltb view_max_bytes (view_size (shown v [] [] truncated))
      then err (error "Claude view exceeds limit")
      else ok (shown v [] [] truncated)
  reserialise v [] (i ∷ inputs) truncated =
      let rest = reserialise v [] inputs true in
      if ltb view_max_bytes (view_size (shown v [] (i ∷ inputs) truncated))
      then rest
      else ok (shown v [] (i ∷ inputs) truncated)
  reserialise v (e ∷ entries) inputs truncated =
      let rest = reserialise v entries inputs true in
      if ltb view_max_bytes (view_size (shown v (e ∷ entries) inputs truncated))
      then rest
      else ok (shown v (e ∷ entries) inputs truncated)

  -- What no round of the loop changes.
  fixed_size : SessionView U → ℕ
  fixed_size v = sum_by with_comma (
      member "version" (codes "1")
        ∷ member "revision" (decimal v.revision)
        ∷ member "conversationId" (quote v.conversation_id)
        ∷ member "inputs" []
        ∷ member "run" (run_json v.run)
        ∷ member "entries" []
        ∷ usage_members usage_text v.usage
      ++ member "truncated" [] ∷ [])

  view_size_lem :
      (v : SessionView U) (entries : List ConversationEntry) (inputs : List ViewInput) (t : Bool)
      → view_size (shown v entries inputs t)
        ≡ fixed_size v
          + 1
          + byte_length (array (map input_json inputs))
          + byte_length (array (map entry_json entries))
          + byte_length (boolean_text t)
  unfolding view_json fixed_size
  view_size_lem v entries inputs t =
      let ins = array (map input_json inputs) in
      let ens = array (map entry_json entries) in
      let tail = λ (x : Text). usage_members usage_text v.usage ++ member "truncated" x ∷ [] in
      omega (
        arith,
        object-size (member "version" (codes "1")) (
            member "revision" (decimal v.revision)
            ∷ member "conversationId" (quote v.conversation_id)
            ∷ member "inputs" ins
            ∷ member "run" (run_json v.run)
            ∷ member "entries" ens
            ∷ tail (boolean_text t)),
        sum_by-append with_comma (usage_members usage_text v.usage)
            (member "truncated" (boolean_text t) ∷ []),
        sum_by-append with_comma (usage_members usage_text v.usage) (member "truncated" [] ∷ []),
        member-size "inputs" ins,
        member-size "inputs" [],
        member-size "entries" ens,
        member-size "entries" [],
        member-size "truncated" (boolean_text t),
        member-size "truncated" [],
      )

  -- A round of the loop takes off what the view loses.
  shrunk-entry :
      (v : SessionView U) (e : ConversationEntry) (entries : List ConversationEntry)
      (inputs : List ViewInput) (t : Bool)
      → shrunk usage_text t (view_size (shown v (e ∷ entries) inputs t)) (entry_json e) entries
        ≡ view_size (shown v entries inputs true)
  shrunk-entry v e [] inputs t = omega (
    arith,
    view_size_lem v (e ∷ []) inputs t,
    view_size_lem v [] inputs true,
    array-shift (entry_json e) [],
    flag_size t,
    flag_size true,
  )
  shrunk-entry v e (f ∷ entries) inputs t = omega (
    arith,
    view_size_lem v (e ∷ f ∷ entries) inputs t,
    view_size_lem v (f ∷ entries) inputs true,
    array-shift (entry_json e) (map entry_json (f ∷ entries)),
    flag_size t,
    flag_size true,
  )

  shrunk-input :
      (v : SessionView U) (i : ViewInput) (inputs : List ViewInput) (t : Bool)
      → shrunk usage_text t (view_size (shown v [] (i ∷ inputs) t)) (input_json i) inputs
        ≡ view_size (shown v [] inputs true)
  shrunk-input v i [] t = omega (
    arith,
    view_size_lem v [] (i ∷ []) t,
    view_size_lem v [] [] true,
    array-shift (input_json i) [],
    flag_size t,
    flag_size true,
  )
  shrunk-input v i (j ∷ inputs) t = omega (
    arith,
    view_size_lem v [] (i ∷ j ∷ inputs) t,
    view_size_lem v [] (j ∷ inputs) true,
    array-shift (input_json i) (map input_json (j ∷ inputs)),
    flag_size t,
    flag_size true,
  )

  evict-reserialise :
      (v : SessionView U) (entries : List ConversationEntry) (inputs : List ViewInput) (t : Bool)
      → evict usage_text v entries inputs t (view_size (shown v entries inputs t))
        ≡ reserialise v entries inputs t
  unfolding evict reserialise
  evict-reserialise v [] [] t = refl
  evict-reserialise v [] (i ∷ inputs) t =
      rw (shrunk-input v i inputs t) (rw (evict-reserialise v [] inputs true))
  evict-reserialise v (e ∷ entries) inputs t =
      rw (shrunk-entry v e entries inputs t) (rw (evict-reserialise v entries inputs true))

  -- The view that comes of keeping a running size is the one that comes of writing the view out again
  -- after each item dropped.
  pub claude_view-eq-reserialise :
      (s : ViewedState U)
      → claude_view usage_text s
        ≡ (let v = full_view usage_text s in reserialise v v.entries v.inputs v.truncated)
  unfolding claude_view
  claude_view-eq-reserialise s =
      let v = full_view usage_text s in evict-reserialise v v.entries v.inputs v.truncated
