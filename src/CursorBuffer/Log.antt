-- ===== src/CursorBuffer/Log.antt =====
-- src/cursor-buffer.ts: a buffer as a window on the log of all values ever appended. The cursor of
-- a value is its position in that log, from 1.
use cantelop_sdk.Prelude.{
  ℕ, suc, ◌+◌, ◌-◌, ◌≤◌, ◌<◌, max, String, ◌≡◌, refl, sym, ap, ◌∙◌, Bool, true, false, Option, none,
  some, List, [], ◌∷◌, ◌++◌, map, arith, leb, length, length-append, take, drop, All, All-take,
  All-drop, drop-drop, drop-nil, inl, inr, drop-append, drop_all, map-take, map-drop, map-append,
  Bool-cases, Thrown,
}
use cantelop_sdk.CursorBuffer.{
  Limits, Entry, Buffer, Outcome, batch, parked, empty, append, shift_through, acknowledge_natural,
  last_cursor, start_offset, deliver, poll,
}
use cantelop_sdk.CursorBuffer.Invariant.{
  Contiguous, IsValid, Contiguous-le, empty-IsValid, append-IsValid, acknowledge-IsValid,
  shift_through_below,
}

module _ {ℓ} {A : Type ℓ} where
  abbrev pub values : List (Entry A) → List A
  values = map λ (e : Entry A). e.value

  pub record Represents (b : Buffer A) (log : List A) : Type ℓ where
    pub valid : IsValid b
    pub window : values b.entries ≡ drop b.acknowledged log
    pub counted : b.next_cursor ≡ suc (length log)

  abbrev pub answer : Bool → List A → Outcome A
  answer true [] = parked
  answer wait vs = batch vs

  pub empty-Represents : (l : Limits) (label : String) → Represents (empty l label) []
  unfolding empty
  empty-Represents l label = record { valid = empty-IsValid l label; window = refl; counted = refl }

  pub append-Represents :
      (b : Buffer A) (log : List A) (make : ℕ → A) (bytes settle : ℕ)
      → Represents b log
      → Represents (append b make bytes settle).0 (log ++ make (suc (length log)) ∷ [])
  unfolding append
  append-Represents b log make bytes settle r =
      let m : A = make (suc (length log)) in
      record {
        valid = append-IsValid b make bytes settle r.valid;
        window =
            map-append (λ (e : Entry A). e.value) b.entries _
            ∙ rw (r.window, r.counted)
                (sym (
                  drop-append b.acknowledged log (m ∷ []) (
                    omega (
                      arith, r.counted, r.valid.acknowledged_delivered, r.valid.delivered_appended,
                    ))));
        counted = omega (arith, length-append log (m ∷ []), r.counted);
      }

  shift_through-drop :
      (after n next : ℕ) (es : List (Entry A))
      → Contiguous n es next
      → n ≤ suc after
      → (shift_through after es).0 ≡ drop (suc after - n) es
  unfolding shift_through
  shift_through-drop after n next [] c h = sym (drop-nil (suc after - n))
  shift_through-drop after n next (e ∷ es) c h = elim (Bool-cases (leb e.cursor after)) [
    | inl le ↦
        let k : suc after - n ≡ suc (suc after - suc n) = ground arith in
        rw (le, k) (shift_through-drop after (suc n) next es c.1 (ground arith))
    | inr gt ↦ let k : suc after - n ≡ 0 = ground arith in rw (gt, k)
  ]

  below : (n next : ℕ) (es : List (Entry A)) → Contiguous n es next → All (λ e. e.cursor < next) es
  below n next [] c = tt
  below n next (e ∷ es) c =
      (omega (arith, Contiguous-le (suc n) next es c.1), below (suc n) next es c.1)

  last_cursor-lt :
      (d next : ℕ) (es : List (Entry A))
      → d < next
      → All (λ e. e.cursor < next) es
      → last_cursor d es < next
  unfolding last_cursor
  last_cursor-lt d next [] h a = h
  last_cursor-lt d next (e ∷ es) h a = last_cursor-lt e.cursor next es a.0 a.1

  remaining :
      (b : Buffer A) (after : ℕ)
      → IsValid b
      → (shift_through after b.entries).0 ≡ drop (after - b.acknowledged) b.entries
  remaining b after v = elim (Bool-cases (leb after b.acknowledged)) [
    | inl le ↦
        let k : after - b.acknowledged ≡ 0 = ground arith in
        rw (k, shift_through_below after _ _ b.entries v.contiguous (ground arith))
    | inr gt ↦
        let k : after - b.acknowledged ≡ suc after - suc b.acknowledged = omega arith in
        rw k (shift_through-drop after _ _ b.entries v.contiguous (ground arith))
  ]

  pub acknowledge-Represents :
      (b : Buffer A) (log : List A) (after : ℕ)
      → Represents b log
      → after ≤ b.delivered
      → Represents (acknowledge_natural b after).buffer log
  unfolding acknowledge_natural
  acknowledge-Represents b log after r h =
      let m : b.acknowledged + (after - b.acknowledged) ≡ max b.acknowledged after = omega arith in
      let w : values (shift_through after b.entries).0 ≡ drop (max b.acknowledged after) log =
        ap values (remaining b after r.valid)
        ∙ map-drop (λ (e : Entry A). e.value) (after - b.acknowledged) b.entries
        ∙ rw r.window (drop-drop (after - b.acknowledged) b.acknowledged log ∙ rw m refl) in
      record {
        valid = acknowledge-IsValid b after r.valid h;
        window = ground (arith, w);
        counted = ground (arith, r.counted);
      }

  offset :
      (es : List (Entry A)) (log : List A) (known next after : ℕ)
      → Contiguous (suc known) es next
      → values es ≡ drop known log
      → next ≡ suc (length log)
      → values (drop (start_offset es after) es) ≡ drop (max known after) log
  unfolding start_offset
  offset [] log known next after c w n = sym (drop_all (max known after) log (omega arith))
  offset (e ∷ es) log known next after c w n =
      let k : after + 1 - e.cursor ≡ after - known = ground arith in
      let m : known + (after - known) ≡ max known after = omega arith in
      rw k (
        map-drop (λ (x : Entry A). x.value) (after - known) (e ∷ es)
        ∙ ap (drop (after - known)) w
        ∙ drop-drop (after - known) known log
        ∙ rw m refl)

  -- The values that a reader at `after` is due: those after its cursor that are still kept.
  abbrev pub due : Buffer A → List A → ℕ → List A
  due b log after = take b.limits.max_batch (drop (max b.acknowledged after) log)

  due_lem :
      (b : Buffer A) (log : List A) (after : ℕ)
      → Represents b log
      → values (take b.limits.max_batch (drop (start_offset b.entries after) b.entries))
        ≡ due b log after
  due_lem b log after r =
      map-take (λ (x : Entry A). x.value) b.limits.max_batch _
      ∙ ap (take b.limits.max_batch) (
          offset b.entries log b.acknowledged b.next_cursor after r.valid.contiguous r.window
            r.counted)

  deliver_lem :
      (b : Buffer A) (wait : Bool) (reader : ℕ) (es : List (Entry A))
      → (deliver b wait reader es).1 ≡ answer wait (values es)
  unfolding deliver
  deliver_lem b true reader [] = refl
  deliver_lem b false reader [] = refl
  deliver_lem b true reader (e ∷ es) = refl
  deliver_lem b false reader (e ∷ es) = refl

  -- A poll answers with exactly the next values of the log after the cursor, at most a batch of
  -- them and in order; only where there is none does it park, or answer with nothing.
  pub poll-due :
      (b : Buffer A) (log : List A) (after reader : ℕ) (wait : Bool)
      → Represents b log
      → (poll b after none wait reader).1 ≡ answer wait (due b log after)
  unfolding poll
  poll-due b log after reader wait r =
      deliver_lem b wait reader _ ∙ ap (answer wait) (due_lem b log after r)

  deliver-Represents :
      (b : Buffer A) (log : List A) (wait : Bool) (reader : ℕ) (es : List (Entry A))
      → All (λ e. e.cursor < b.next_cursor) es
      → Represents b log
      → Represents (deliver b wait reader es).0 log
  unfolding deliver
  deliver-Represents b log true reader [] a r = ground arith
  deliver-Represents b log false reader [] a r = r
  deliver-Represents b log wait reader (e ∷ es) a r =
      ground (arith, last_cursor-lt 0 b.next_cursor (e ∷ es))

  pub poll-Represents :
      (b : Buffer A) (log : List A) (after reader : ℕ) (aborted : Option Thrown) (wait : Bool)
      → Represents b log
      → Represents (poll b after aborted wait reader).0 log
  unfolding poll
  poll-Represents b log after reader (some e) wait r = r
  poll-Represents b log after reader none wait r =
      deliver-Represents b log wait reader _
        (All-take _ b.limits.max_batch _ (
          All-drop _ (start_offset b.entries after) b.entries
            (below _ b.next_cursor b.entries r.valid.contiguous)))
        r
