-- ===== src/CursorBuffer/Invariant.antt =====
-- src/cursor-buffer.ts: what holds of a buffer between two operations.
use cantelop_sdk.Prelude.{
  ℕ, suc, ◌+◌, ◌≤◌, ◌<◌, max, String, ◌≡◌, refl, inl, inr, Bool, true, false, Option, none, some,
  List, [], ◌∷◌, ◌++◌, map, arith, leb, length, length-append, sum_by, sum_by-append, Bool-cases,
  Thrown,
}
use cantelop_sdk.CursorBuffer.{
  Limits, Entry, Buffer, empty, has_capacity, append, shift_through, acknowledge_natural, poll,
  deliver,
}

module _ {ℓ} {A : Type ℓ} where
  -- The cursors run from `n` up to the one before `next`.
  abbrev pub Contiguous : ℕ → List (Entry A) → ℕ → Type 0
  Contiguous n [] next = n ≡ next
  Contiguous n (e ∷ es) next = (e.cursor ≡ n) × Contiguous (suc n) es next

  abbrev pub entry_bytes : Entry A → ℕ
  entry_bytes e = e.bytes

  abbrev pub settles : List (Entry A) → List ℕ
  settles = map λ e. e.settle

  pub record IsValid (b : Buffer A) : Type 0 where
    pub contiguous : Contiguous (suc b.acknowledged) b.entries b.next_cursor
    pub acknowledged_delivered : b.acknowledged ≤ b.delivered
    pub delivered_appended : b.delivered < b.next_cursor
    pub bytes_counted : b.pending_bytes ≡ sum_by entry_bytes b.entries

  pub record IsBounded (b : Buffer A) : Type 0 where
    pub entries_bounded : length b.entries ≤ b.limits.max_pending
    pub bytes_bounded : b.pending_bytes ≤ b.limits.max_pending_bytes

  pub Contiguous-le : (n next : ℕ) (es : List (Entry A)) → Contiguous n es next → n ≤ next
  Contiguous-le n next [] c = omega arith
  Contiguous-le n next (e ∷ es) c = omega (arith, Contiguous-le (suc n) next es c.1)

  pub Contiguous-length :
      (n next : ℕ) (es : List (Entry A)) → Contiguous n es next → n + length es ≡ next
  Contiguous-length n next [] c = omega arith
  Contiguous-length n next (e ∷ es) c = omega (arith, Contiguous-length (suc n) next es c.1)

  pub Contiguous-append :
      (n next : ℕ) (es : List (Entry A)) (e : Entry A)
      → Contiguous n es next
      → e.cursor ≡ next
      → Contiguous n (es ++ e ∷ []) (suc next)
  Contiguous-append n next [] e c h = ground arith
  Contiguous-append n next (x ∷ es) e c h = (c.0, Contiguous-append (suc n) next es e c.1 h)

  pub shift_through-Contiguous :
      (after n next : ℕ) (es : List (Entry A))
      → Contiguous n es next
      → n ≤ suc after
      → after < next
      → Contiguous (suc after) (shift_through after es).0 next
  unfolding shift_through
  shift_through-Contiguous after n next [] c h k = omega arith
  shift_through-Contiguous after n next (e ∷ es) c h k = elim (Bool-cases (leb e.cursor after)) [
    | inl le ↦ rw le (shift_through-Contiguous after (suc n) next es c.1 (ground arith) k)
    | inr gt ↦ let m : n ≡ suc after = ground arith in rw (gt, ← m) c
  ]

  -- An acknowledgment below the first entry removes nothing.
  pub shift_through_below :
      (after n next : ℕ) (es : List (Entry A))
      → Contiguous n es next
      → after < n
      → shift_through after es ≡ (es, [], 0)
  unfolding shift_through
  shift_through_below after n next [] c h = refl
  shift_through_below after n next (e ∷ es) c h = ground arith

  pub shift_through-sum :
      (after : ℕ) (es : List (Entry A))
      → (shift_through after es).2 + sum_by entry_bytes (shift_through after es).0
        ≡ sum_by entry_bytes es
  unfolding shift_through
  shift_through-sum after [] = refl
  shift_through-sum after (e ∷ es) = ground (arith, shift_through-sum after es)

  pub shift_through-settles :
      (after : ℕ) (es : List (Entry A))
      → (shift_through after es).1 ++ settles (shift_through after es).0 ≡ settles es
  unfolding shift_through
  shift_through-settles after [] = refl
  shift_through-settles after (e ∷ es) = ground (arith, shift_through-settles after es)

  pub length-shift_through :
      (after : ℕ) (es : List (Entry A)) → length (shift_through after es).0 ≤ length es
  unfolding shift_through
  length-shift_through after [] = omega arith
  length-shift_through after (e ∷ es) = ground (arith, length-shift_through after es)

  pub empty-IsValid : (l : Limits) (label : String) → IsValid (empty {A = A} l label)
  unfolding empty
  empty-IsValid l label = omega arith

  pub append-IsValid :
      (b : Buffer A) (make : ℕ → A) (bytes settle : ℕ)
      → IsValid b
      → IsValid (append b make bytes settle).0
  unfolding append
  append-IsValid b make bytes settle v =
      let e : Entry A = record {
        cursor = b.next_cursor;
        value = make b.next_cursor;
        bytes = bytes;
        settle = settle;
      } in
      record {
        contiguous =
            Contiguous-append (suc b.acknowledged) b.next_cursor b.entries e v.contiguous refl;
        acknowledged_delivered = v.acknowledged_delivered;
        delivered_appended = omega arith;
        bytes_counted = omega (arith, sum_by-append entry_bytes b.entries (e ∷ []));
      }

  -- `append` makes no check of its own; after a check it keeps both bounds.
  pub append-IsBounded :
      (b : Buffer A) (make : ℕ → A) (bytes settle : ℕ)
      → has_capacity b bytes ≡ true
      → IsBounded (append b make bytes settle).0
  unfolding append has_capacity
  append-IsBounded b make bytes settle h = ground (
    arith,
    length-append b.entries (
        record {
          cursor = b.next_cursor;
          value = make b.next_cursor;
          bytes = bytes;
          settle = settle;
        }
        ∷ []),
  )

  shifted-Contiguous :
      (b : Buffer A) (after : ℕ)
      → IsValid b
      → after ≤ b.delivered
      → Contiguous (suc (max b.acknowledged after)) (shift_through after b.entries).0 b.next_cursor
  shifted-Contiguous b after v h = elim (Bool-cases (leb after b.acknowledged)) [
    | inl le ↦
        let m : max b.acknowledged after ≡ b.acknowledged = ground arith in
        rw (m, shift_through_below after _ _ b.entries v.contiguous (ground arith)) v.contiguous
    | inr gt ↦
        let m : max b.acknowledged after ≡ after = ground arith in
        rw m (
          shift_through-Contiguous after (suc b.acknowledged) b.next_cursor b.entries v.contiguous
            (ground arith) (omega (arith, v.delivered_appended)))
  ]

  pub acknowledge-IsValid :
      (b : Buffer A) (after : ℕ)
      → IsValid b
      → after ≤ b.delivered
      → IsValid (acknowledge_natural b after).buffer
  unfolding acknowledge_natural
  acknowledge-IsValid b after v h =
      ground (arith, shifted-Contiguous b after v h, shift_through-sum after b.entries)

  pub acknowledge-IsBounded :
      (b : Buffer A) (after : ℕ) → IsBounded b → IsBounded (acknowledge_natural b after).buffer
  unfolding acknowledge_natural
  acknowledge-IsBounded b after v = ground (arith, length-shift_through after b.entries)

  pub record SameContents (b c : Buffer A) : Type ℓ where
    pub same_limits : c.limits ≡ b.limits
    pub same_entries : c.entries ≡ b.entries
    pub same_bytes : c.pending_bytes ≡ b.pending_bytes

  deliver-SameContents :
      (b : Buffer A) (wait : Bool) (reader : ℕ) (es : List (Entry A))
      → SameContents b (deliver b wait reader es).0
  unfolding deliver
  deliver-SameContents b true reader [] = ground arith
  deliver-SameContents b false reader [] = ground arith
  deliver-SameContents b wait reader (e ∷ es) = ground arith

  -- A poll moves the cursor of what was delivered and parks readers, and touches nothing else.
  pub poll-SameContents :
      (b : Buffer A) (after reader : ℕ) (aborted : Option Thrown) (wait : Bool)
      → SameContents b (poll b after aborted wait reader).0
  unfolding poll
  poll-SameContents b after reader (some e) wait = ground arith
  poll-SameContents b after reader none wait = deliver-SameContents b wait reader _
