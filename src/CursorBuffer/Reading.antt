-- ===== src/CursorBuffer/Reading.antt =====
-- src/cursor-buffer.ts: the calls of `read` and `metadata` as a whole, on every branch.
use mathlib.Core.Path.{ap₂}
use cantelop_sdk.Prelude.{
  Number, negative, other, bind-eq-ok, ensure-eq-ok, ok_inj, ensure, is_safe_natural, ◌&&◌, leb, ℕ,
  suc, ◌+◌, ◌≤◌, ◌<◌, max, ◌≡◌, refl, sym, Bool, true, false, Option, none, some, List, [], ◌∷◌, ap,
  ◌∙◌, arith, length, take, drop, natural, max_safe_integer, Thrown, ok,
}
use cantelop_sdk.CursorBuffer.{
  Entry, Buffer, Acknowledged, Read, acknowledge_natural, acknowledge, poll, read, with_poll,
  deliver, Limits, check_cursor, metadata, earliest_cursor,
}
use cantelop_sdk.CursorBuffer.Invariant.{Contiguous, IsValid, Contiguous-length}
use cantelop_sdk.CursorBuffer.Log.{
  Represents, answer, acknowledge-Represents, poll-Represents, poll-due,
}

module _ {ℓ} {A : Type ℓ} where
  acknowledged_natural :
      (b : Buffer A) (n : ℕ)
      → ((acknowledge_natural b n).buffer.acknowledged ≡ max b.acknowledged n)
        × ((acknowledge_natural b n).buffer.limits ≡ b.limits)
  unfolding acknowledge_natural
  acknowledged_natural b n = (ground arith, ground arith)

  check_cursor_ok :
      (b : Buffer A) (n : ℕ)
      → n ≤ max_safe_integer
      → n < b.next_cursor
      → b.acknowledged ≤ n
      → check_cursor b (natural n) ≡ ok n
  unfolding check_cursor
  check_cursor_ok b n s l k = ground arith

  acknowledge_ok :
      (b : Buffer A) (n : ℕ)
      → n ≤ max_safe_integer
      → n ≤ b.delivered
      → acknowledge b (natural n) ≡ ok (acknowledge_natural b n)
  unfolding acknowledge
  acknowledge_ok b n s d = ground arith

  deliver-acknowledged :
      (b : Buffer A) (wait : Bool) (reader : ℕ) (es : List (Entry A))
      → (deliver b wait reader es).0.acknowledged ≡ b.acknowledged
  unfolding deliver
  deliver-acknowledged b true reader [] = refl
  deliver-acknowledged b false reader [] = refl
  deliver-acknowledged b wait reader (e ∷ es) = refl

  poll-acknowledged :
      (b : Buffer A) (after reader : ℕ) (aborted : Option Thrown) (wait : Bool)
      → (poll b after aborted wait reader).0.acknowledged ≡ b.acknowledged
  unfolding poll
  poll-acknowledged b after reader (some e) wait = refl
  poll-acknowledged b after reader none wait = deliver-acknowledged b wait reader _

  -- A read at a cursor that was delivered and is not yet acknowledged past succeeds: it
  -- acknowledges exactly that cursor, answers with exactly the next values of the log, and leaves a
  -- buffer that still represents the log.
  pub read-due :
      (b : Buffer A) (log : List A) (n reader : ℕ) (wait : Bool)
      → Represents b log
      → n ≤ max_safe_integer
      → b.acknowledged ≤ n
      → n ≤ b.delivered
      → (r : Read A) × (read b (natural n) none wait true reader ≡ ok r)
        × (r.outcome ≡ answer wait (take b.limits.max_batch (drop n log)))
        × (r.buffer.acknowledged ≡ n)
        × Represents r.buffer log
  unfolding read with_poll
  read-due b log n reader wait v s k d =
      let a : Acknowledged A = acknowledge_natural b n in
      let q : Represents a.buffer log = acknowledge-Represents b log n v d in
      let t : n < b.next_cursor = omega (arith, v.valid.delivered_appended) in
      let m : max b.acknowledged n ≡ n = omega arith in
      let same = acknowledged_natural b n in
      (
        with_poll a n none wait reader,
        rw (check_cursor_ok b n s t k, acknowledge_ok b n s d),
        poll-due a.buffer log n reader wait q
            ∙ ap (answer wait) (
                ap₂ take (ap (λ (l : Limits). l.max_batch) same.1) (
                  ap (λ (c : ℕ). drop c log) (ap (λ (c : ℕ). max c n) (same.0 ∙ m) ∙ omega arith))),
        poll-acknowledged a.buffer n reader none wait ∙ same.0 ∙ m,
        poll-Represents a.buffer log n reader none wait q,
      )

  -- A read of this cursor that succeeded.
  pub record IsDue (b : Buffer A) (cursor : Number) (r : Read A) : Type ℓ where
    pub place : ℕ
    pub named : cursor ≡ natural place
    pub safe : place ≤ max_safe_integer
    pub kept : b.acknowledged ≤ place
    pub given : place ≤ b.delivered
    pub acknowledges : r.buffer.acknowledged ≡ place

  check_cursor-eq-ok :
      (b : Buffer A) (cursor : Number) (n : ℕ)
      → check_cursor b cursor ≡ ok n
      → (cursor ≡ natural n) × (n ≤ max_safe_integer) × (b.acknowledged ≤ n)
  unfolding check_cursor
  check_cursor-eq-ok b (natural k) n h = ground arith
  check_cursor-eq-ok b (negative k) n h = cc h
  check_cursor-eq-ok b other n h = cc h

  acknowledge-eq-ok :
      (b : Buffer A) (n : ℕ) (a : Acknowledged A)
      → acknowledge b (natural n) ≡ ok a
      → (n ≤ b.delivered) × (acknowledge_natural b n ≡ a)
  unfolding acknowledge
  acknowledge-eq-ok b n a h =
      let (_, test, left) =
        bind-eq-ok (ensure (is_safe_natural (natural n) && leb n b.delivered) _) _ h in
      let passed = ensure-eq-ok _ _ _ test in (ground (arith, passed), ok_inj _ _ left)

  -- A read that acknowledges is accepted just at the cursors that were delivered and are not yet
  -- acknowledged past, and then acknowledges that cursor: at any other number, one never appended, one
  -- expired or one never delivered, it is refused.
  pub read_accepts :
      (b : Buffer A) (cursor : Number) (reader : ℕ) (aborted : Option Thrown) (wait : Bool)
      → IsValid b
      → ((r : Read A) → read b cursor aborted wait true reader ≡ ok r → IsDue b cursor r)
        × ((n : ℕ)
            → cursor ≡ natural n
            → n ≤ max_safe_integer
            → b.acknowledged ≤ n
            → n ≤ b.delivered
            → (r : Read A) × (read b cursor aborted wait true reader ≡ ok r))
  unfolding read with_poll
  read_accepts b cursor reader aborted wait v = (
    λ r h.
        let (n, checked, next) = bind-eq-ok (check_cursor b cursor) _ h in
        let (a, acknowledged, left) = bind-eq-ok (acknowledge b (natural n)) _ next in
        let (named, safe, kept) = check_cursor-eq-ok b cursor n checked in
        let (given, same) = acknowledge-eq-ok b n a acknowledged in
        let at_n : a.buffer.acknowledged ≡ n =
          ap (λ (x : Acknowledged A). x.buffer.acknowledged) (sym same)
          ∙ (acknowledged_natural b n).0
          ∙ omega (arith, kept) in
        record {
          place = n;
          named = named;
          safe = safe;
          kept = kept;
          given = given;
          acknowledges =
              ap (λ (x : Read A). x.buffer.acknowledged) (sym (ok_inj _ _ left))
              ∙ poll-acknowledged a.buffer n reader aborted wait
              ∙ at_n;
        },
    λ n named safe kept given.
        let t : n < b.next_cursor = omega (arith, v.delivered_appended) in
        (
          with_poll (acknowledge_natural b n) n aborted wait reader,
          rw (named, check_cursor_ok b n safe t kept, acknowledge_ok b n safe given) refl,
        ),
  )

  earliest_lem :
      (next known : ℕ) (es : List (Entry A))
      → Contiguous (suc known) es next
      → earliest_cursor next es ≡ suc known
  unfolding earliest_cursor
  earliest_lem next known [] c = sym c
  earliest_lem next known (e ∷ es) c = c.0

  -- `metadata` reports the cursors just after the last one acknowledged and of the last one
  -- appended: the kept entries are those between, and their number is the difference.
  pub metadata_lem :
      (b : Buffer A) (log : List A)
      → Represents b log
      → ((metadata b).earliest ≡ suc b.acknowledged)
        × ((metadata b).latest ≡ length log)
        × ((metadata b).acknowledged + length b.entries ≡ (metadata b).latest)
  unfolding metadata
  metadata_lem b log r = (
    earliest_lem b.next_cursor b.acknowledged b.entries r.valid.contiguous,
    omega (arith, r.counted),
    omega
        (arith, Contiguous-length (suc b.acknowledged) b.next_cursor b.entries r.valid.contiguous),
  )
