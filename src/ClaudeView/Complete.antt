-- ===== src/ClaudeView/Complete.antt =====
-- src/harnesses/claude-view.ts: what a view holds of the state, and what its flag says.
use cantelop_sdk.Prelude.{
  ℕ, suc, ◌+◌, ◌-◌, ◌≤◌, ◌≡◌, refl, ap, sym, ◌∙◌, ◌⊎◌, inl, inr, Bool, true, false, ◌||◌, List, [],
  ◌∷◌, map, length, drop, any, ltb, map-drop, drop-nil, subst, drop-drop, arith, Bool-cases, ok,
}
use cantelop_sdk.ClaudeView.{
  view_max_bytes, view_items, ViewInput, ConversationEntry, SessionView, ViewedState, full_view,
  view_input, is_long, last_items, claude_view,
}
use cantelop_sdk.Stream.{Text}
use cantelop_sdk.ClaudeView.Eviction.{shown, view_size, reserialise, claude_view-eq-reserialise}

-- The list without some of its first elements.
abbrev pub Suffix {ℓ} : {A : Type ℓ} → List A → List A → Type ℓ
Suffix xs ys = (n : ℕ) × (xs ≡ drop n ys)

module _ {U : Type 0} (usage_text : U → Text) where
  -- What the loop makes of these lists and this flag.
  record Shows (entries : List ConversationEntry) (inputs : List ViewInput) (t : Bool)
      (out : SessionView U) : Type 0 where
    fits : view_size usage_text out ≤ view_max_bytes
    recent_entries : Suffix out.entries entries
    recent_inputs : Suffix out.inputs inputs
    entries_first : (out.inputs ≡ inputs) ⊎ (out.entries ≡ [])
    complete : out.truncated ≡ false → (t ≡ false) × (out.entries ≡ entries) × (out.inputs ≡ inputs)

  Shows-shown :
      (v : SessionView U) (entries : List ConversationEntry) (inputs : List ViewInput) (t : Bool)
      → ltb view_max_bytes (view_size usage_text (shown usage_text v entries inputs t)) ≡ false
      → Shows entries inputs t (shown usage_text v entries inputs t)
  Shows-shown v entries inputs t h = record {
    fits = ground arith;
    recent_entries = (0, refl);
    recent_inputs = (0, refl);
    entries_first = inl refl;
    complete = λ e. (e, refl, refl);
  }

  Shows-entry :
      (e : ConversationEntry) (entries : List ConversationEntry) (inputs : List ViewInput)
      (t : Bool) {out : SessionView U}
      → Shows entries inputs true out
      → Shows (e ∷ entries) inputs t out
  Shows-entry e entries inputs t s = record {
    fits = s.fits;
    recent_entries = let (n, h) = s.recent_entries in (suc n, h);
    recent_inputs = s.recent_inputs;
    entries_first = s.entries_first;
    complete = λ f. let (wrong, _, _) = s.complete f in cc wrong;
  }

  Shows-input :
      (i : ViewInput) (inputs : List ViewInput) (t : Bool) {out : SessionView U}
      → Shows [] inputs true out
      → Shows [] (i ∷ inputs) t out
  Shows-input i inputs t {out} s = record {
    fits = s.fits;
    recent_entries = s.recent_entries;
    recent_inputs = let (n, h) = s.recent_inputs in (suc n, h);
    entries_first = inr (let (n, h) = s.recent_entries in h ∙ drop-nil n);
    complete = λ f. let (wrong, _, _) = s.complete f in cc wrong;
  }

  Shows-ok :
      (v : SessionView U) (entries : List ConversationEntry) (inputs : List ViewInput) (t : Bool)
      {out : SessionView U}
      → ltb view_max_bytes (view_size usage_text (shown usage_text v entries inputs t)) ≡ false
      → ok (shown usage_text v entries inputs t) ≡ ok out
      → Shows entries inputs t out
  Shows-ok v entries inputs t h e =
      subst (Shows entries inputs t) (cc) (Shows-shown v entries inputs t h)

  reserialise-Shows :
      (v : SessionView U) (entries : List ConversationEntry) (inputs : List ViewInput) (t : Bool)
      {out : SessionView U}
      → reserialise usage_text v entries inputs t ≡ ok out
      → Shows entries inputs t out
  unfolding reserialise
  reserialise-Shows v [] [] t h =
      elim (Bool-cases (ltb view_max_bytes (view_size usage_text (shown usage_text v [] [] t)))) [
        | inl over ↦ cc (rw over at h)
        | inr within ↦ Shows-ok v [] [] t within (rw within at h)
      ]
  reserialise-Shows v [] (i ∷ inputs) t h =
      elim (Bool-cases
        (ltb view_max_bytes (view_size usage_text (shown usage_text v [] (i ∷ inputs) t)))) [
          | inl over ↦ Shows-input i inputs t (reserialise-Shows v [] inputs true (rw over at h))
          | inr within ↦ Shows-ok v [] (i ∷ inputs) t within (rw within at h)
        ]
  reserialise-Shows v (e ∷ entries) inputs t h =
      elim (Bool-cases
        (ltb view_max_bytes (view_size usage_text (shown usage_text v (e ∷ entries) inputs t)))) [
          | inl over ↦
              Shows-entry e entries inputs t
                (reserialise-Shows v entries inputs true (rw over at h))
          | inr within ↦ Shows-ok v (e ∷ entries) inputs t within (rw within at h)
        ]

  -- A view fits, holds the last entries and the last inputs of the state, loses inputs only after all
  -- entries, and is marked as truncated unless it holds all of both, with every text whole.
  pub record IsView (s : ViewedState U) (v : SessionView U) : Type 0 where
    pub fits : view_size usage_text v ≤ view_max_bytes
    pub recent_entries : Suffix v.entries s.entries
    pub recent_inputs : Suffix v.inputs (map view_input s.messages)
    pub entries_first :
        (v.inputs ≡ map view_input (last_items view_items s.messages)) ⊎ (v.entries ≡ [])
    pub complete :
        v.truncated ≡ false
        → (s.truncated ≡ false)
          × (v.entries ≡ s.entries)
          × (v.inputs ≡ map view_input s.messages)
          × (any is_long s.messages ≡ false)

  Suffix-last {ℓ} :
      {A : Type ℓ} (k : ℕ) (xs ys : List A) → Suffix xs (last_items k ys) → Suffix xs ys
  unfolding last_items
  Suffix-last k xs ys (n, h) = (length ys - k + n, h ∙ drop-drop n (length ys - k) ys)

  Suffix-view :
      (xs : List ViewInput) (ms : List ViewInput)
      → Suffix xs (map view_input (last_items view_items ms))
      → Suffix xs (map view_input ms)
  unfolding last_items
  Suffix-view xs ms (n, h) =
      let k = length ms - view_items in
      (k + n, h ∙ ap (drop n) (map-drop view_input k ms) ∙ drop-drop n k (map view_input ms))

  last_items_all {ℓ} :
      {A : Type ℓ} (k : ℕ) (xs : List A) → ltb k (length xs) ≡ false → last_items k xs ≡ xs
  unfolding last_items
  last_items_all k xs h = let e : length xs - k ≡ 0 = ground arith in rw e

  or_none :
      (a b c d : Bool)
      → (a || b || c || d) ≡ false
      → (a ≡ false) × (b ≡ false) × (c ≡ false) × (d ≡ false)
  or_none a b c d h = ground arith

  Shows-IsView :
      (s : ViewedState U) (v : SessionView U)
      → (let w = full_view usage_text s in Shows w.entries w.inputs w.truncated v)
      → IsView s v
  unfolding full_view
  Shows-IsView s v h = record {
    fits = h.fits;
    recent_entries = Suffix-last view_items v.entries s.entries h.recent_entries;
    recent_inputs = Suffix-view v.inputs s.messages h.recent_inputs;
    entries_first = h.entries_first;
    complete = λ f.
        let (flag, es, is) = h.complete f in
        let (kept, few_messages, few_entries, short) =
          or_none s.truncated (ltb view_items (length s.messages))
            (ltb view_items (length s.entries)) (any is_long s.messages) flag in
        (
          kept,
          es ∙ last_items_all view_items s.entries few_entries,
          is ∙ ap (map view_input) (last_items_all view_items s.messages few_messages),
          short,
        );
  }

  pub claude_view-IsView :
      (s : ViewedState U) {v : SessionView U} → claude_view usage_text s ≡ ok v → IsView s v
  claude_view-IsView s {v} h =
      let w = full_view usage_text s in
      Shows-IsView s v (
        reserialise-Shows w w.entries w.inputs w.truncated
          (sym (claude_view-eq-reserialise usage_text s) ∙ h))
