-- ===== src/ClaudeView/Observe/Entries.antt =====
-- src/harnesses/claude-view.ts: what `put` keeps of the entries of a conversation.
use cantelop_sdk.Prelude.{
  ℕ, zero, suc, ◌≤◌, ◌≡◌, refl, ap, sym, subst, inl, inr, Bool, true, false, ◌&&◌, Option, none,
  some, List, [], ◌∷◌, ◌++◌, map, any, drop, All, All-append, All-drop, map-append, map-drop, arith,
  Bool-cases,
}
use cantelop_sdk.Stream.{Text, byte_length, text_eq, text_eq→eq}
use cantelop_sdk.ClaudeView.{ConversationEntry, clip}
use cantelop_sdk.ClaudeView.Clip.{clip-IsClipped}
use cantelop_sdk.ClaudeView.Observe.{
  Observed, entry_max_bytes, same_key, find, change_first, put, put_text, assign, appended,
}

abbrev pub Key : Type 0
Key = Text × Text

abbrev pub key : ConversationEntry → Key
key e = (e.id, e.run_id)

abbrev pub key_eq : Key → Key → Bool
key_eq a b = text_eq a.0 b.0 && text_eq a.1 b.1

abbrev pub Distinct : List Key → Type 0
Distinct [] = Unit
Distinct (k ∷ ks) = (any (λ l. key_eq k l) ks ≡ false) × Distinct ks

abbrev pub Fits : ConversationEntry → Type 0
Fits e = byte_length e.text ≤ entry_max_bytes

-- No text is too long, and no two entries have the same id in the same run.
pub record Kept (entries : List ConversationEntry) : Type 0 where
  pub fit : All Fits entries
  pub distinct : Distinct (map key entries)

clip_fits : (text : Text) → byte_length (clip text entry_max_bytes) ≤ entry_max_bytes
clip_fits text = let c = clip-IsClipped text entry_max_bytes in omega (arith, c.fits)

module _ (test : ConversationEntry → Bool) (change : ConversationEntry → ConversationEntry) where
  change_first-All :
      (entries : List ConversationEntry)
      → ((e : ConversationEntry) → Fits e → Fits (change e))
      → All Fits entries
      → All Fits (change_first test change entries)
  unfolding change_first
  change_first-All [] f h = tt
  change_first-All (e ∷ entries) f h = elim (Bool-cases (test e)) [
    | inl hit ↦ rw hit (f e h.0, h.1)
    | inr miss ↦ rw miss (h.0, change_first-All entries f h.1)
  ]

  change_first-keys :
      (entries : List ConversationEntry)
      → ((e : ConversationEntry) → test e ≡ true → key (change e) ≡ key e)
      → map key (change_first test change entries) ≡ map key entries
  unfolding change_first
  change_first-keys [] f = refl
  change_first-keys (e ∷ entries) f = elim (Bool-cases (test e)) [
    | inl hit ↦ rw hit (ap (λ k. k ∷ map key entries) (f e hit))
    | inr miss ↦ rw miss (ap (◌∷◌ (key e)) (change_first-keys entries f))
  ]

  pub change_first-Kept :
      (entries : List ConversationEntry)
      → ((e : ConversationEntry) → Fits e → Fits (change e))
      → ((e : ConversationEntry) → test e ≡ true → key (change e) ≡ key e)
      → Kept entries
      → Kept (change_first test change entries)
  change_first-Kept entries f g h = record {
    fit = change_first-All entries f h.fit;
    distinct = subst Distinct (sym (change_first-keys entries g)) h.distinct;
  }

same_key→eq : (e entry : ConversationEntry) → same_key e entry ≡ true → key entry ≡ key e
same_key→eq e entry h =
    let left : text_eq e.id entry.id ≡ true = ground arith in
    let right : text_eq e.run_id entry.run_id ≡ true = ground arith in
    cc (text_eq→eq e.id entry.id left, text_eq→eq e.run_id entry.run_id right)

any-append_one :
    (k new : Key) (ks : List Key)
    → any (λ l. key_eq k l) ks ≡ false
    → key_eq k new ≡ false
    → any (λ l. key_eq k l) (ks ++ new ∷ []) ≡ false
any-append_one k new [] h e = rw e
any-append_one k new (l ∷ ks) h e = elim (Bool-cases (key_eq k l)) [
  | inl hit ↦ cc (rw hit at h)
  | inr miss ↦ rw miss (any-append_one k new ks (rw miss at h) e)
]

Distinct-append :
    (entry : ConversationEntry) (entries : List ConversationEntry)
    → find (λ e. same_key e entry) entries ≡ none
    → Distinct (map key entries)
    → Distinct (map key entries ++ key entry ∷ [])
unfolding find
Distinct-append entry [] none_found d = (refl, tt)
Distinct-append entry (e ∷ entries) none_found d = elim (Bool-cases (same_key e entry)) [
  | inl hit ↦ cc (rw hit at none_found)
  | inr miss ↦ (
    any-append_one (key e) (key entry) (map key entries) d.0 miss,
    Distinct-append entry entries (rw miss at none_found) d.1,
  )
]

module _ {U : Type 0} where
  put_text-Kept :
      (s : Observed U) (entry : ConversationEntry) (text : Text)
      (previous : Option ConversationEntry)
      → find (λ e. same_key e entry) s.entries ≡ previous
      → Kept s.entries
      → Kept (put_text s entry previous text).entries
  unfolding put_text
  put_text-Kept s entry text (some previous) found h =
      change_first-Kept (λ e. same_key e entry) (assign entry (clip text entry_max_bytes)) s.entries
        (λ e fits. clip_fits text) (λ e same. same_key→eq e entry same) h
  put_text-Kept s entry text none found h = record {
    fit =
        All-append Fits s.entries (record entry { text = clip text entry_max_bytes } ∷ []) h.fit
          (clip_fits text, tt);
    distinct =
        subst Distinct
          (sym (map-append key s.entries (record entry { text = clip text entry_max_bytes } ∷ [])))
          (Distinct-append entry s.entries found h.distinct);
  }

  pub put-Kept :
      (s : Observed U) (entry : ConversationEntry) (append : Bool)
      → Kept s.entries
      → Kept (put s entry append).entries
  unfolding put
  put-Kept s entry append h =
      let previous = find (λ e. same_key e entry) s.entries in
      put_text-Kept s entry (appended append previous entry.text) previous refl h

Distinct-drop : (n : ℕ) (ks : List Key) → Distinct ks → Distinct (drop n ks)
Distinct-drop zero ks d = d
Distinct-drop (suc n) [] d = tt
Distinct-drop (suc n) (k ∷ ks) d = Distinct-drop n ks d.1

pub drop-Kept : (n : ℕ) (entries : List ConversationEntry) → Kept entries → Kept (drop n entries)
drop-Kept n entries h = record {
  fit = All-drop Fits n entries h.fit;
  distinct =
      subst Distinct (sym (map-drop key n entries)) (Distinct-drop n (map key entries) h.distinct);
}
