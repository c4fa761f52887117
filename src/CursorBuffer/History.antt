-- ===== src/CursorBuffer/History.antt =====
-- src/cursor-buffer.ts: histories of a buffer, and the calls of `read` as a whole. Reads, waits and
-- their cancellations may come in any order, and a woken reader polls again at any later time.
use cantelop_sdk.Prelude.{
  ℕ, suc, ◌-◌, ◌≤◌, String, ◌≡◌, refl, sym, ap, ◌∙◌, Bool, true, false, Option, none, some, List,
  [], ◌∷◌, ◌++◌, arith, leb, length, append_assoc, append-nil, map-append, Bool-cases, inl, inr,
  ◌⊎◌, leb→le, ◌>>=◌, Number, natural, negative, other, max_safe_integer, Thrown, range_error,
  Result, ok, err,
}
use cantelop_sdk.CursorBuffer.{
  Limits, Entry, Buffer, Acknowledged, Read, empty, append, acknowledge_natural, acknowledge, poll,
  read, with_poll, deliver, wait_for_capacity, abort_capacity_waiter, abort_reader, check_cursor,
  invalid_cursor,
}
use cantelop_sdk.CursorBuffer.Invariant.{settles, shift_through-settles}
use cantelop_sdk.CursorBuffer.Log.{
  Represents, empty-Represents, append-Represents, acknowledge-Represents, poll-Represents,
}

pub data Call {ℓ} (A : Type ℓ) : Type ℓ where
  appends : (ℕ → A) → ℕ → ℕ → Call A
  reads : Number → Option Thrown → Bool → Bool → ℕ → Call A
  resumes : ℕ → Option Thrown → ℕ → Call A
  aborts_read : ℕ → Call A
  waits : ℕ → Option Thrown → ℕ → Call A
  aborts_wait : ℕ → Call A
  acknowledges : Number → Call A

-- A buffer with all values ever appended, and the producers that came with them and were settled.
pub record History {ℓ} (A : Type ℓ) : Type ℓ where
  pub buffer : Buffer A
  pub log : List A
  pub produced : List ℕ
  pub settled : List ℕ

module _ {ℓ} {A : Type ℓ} where
  pub begin : Limits → String → History A
  begin l label = record { buffer = empty l label; log = []; produced = []; settled = [] }

  pub after_read : History A → Result (Read A) → History A
  after_read h (err e) = h
  after_read h (ok r) = record h { buffer = r.buffer; settled = h.settled ++ r.settled }

  pub after_acknowledge : History A → Result (Acknowledged A) → History A
  after_acknowledge h (err e) = h
  after_acknowledge h (ok r) = record h { buffer = r.buffer; settled = h.settled ++ r.settled }

  pub step : History A → Call A → History A
  step h (appends make bytes producer) = record h {
    buffer = (append h.buffer make bytes producer).0;
    log = h.log ++ make (suc (length h.log)) ∷ [];
    produced = h.produced ++ producer ∷ [];
  }
  step h (reads after aborted wait acks reader) =
      after_read h (read h.buffer after aborted wait acks reader)
  step h (resumes after aborted reader) = record h {
    buffer = (poll h.buffer after aborted true reader).0;
  }
  step h (aborts_read reader) = record h { buffer = abort_reader h.buffer reader }
  step h (waits bytes aborted waiter) = record h {
    buffer = (wait_for_capacity h.buffer bytes aborted waiter).0;
  }
  step h (aborts_wait waiter) = record h { buffer = abort_capacity_waiter h.buffer waiter }
  step h (acknowledges after) = after_acknowledge h (acknowledge h.buffer after)

  pub run : History A → List (Call A) → History A
  run h [] = h
  run h (c ∷ cs) = run (step h c) cs

  pub record Inv (h : History A) : Type ℓ where
    pub represents : Represents h.buffer h.log
    pub accounted : h.settled ++ settles h.buffer.entries ≡ h.produced

  pub acknowledge-cases :
      (b : Buffer A) (x : Number)
      → ((e : Thrown) × (acknowledge b x ≡ err e))
        ⊎ ((n : ℕ) × (n ≤ b.delivered) × (acknowledge b x ≡ ok (acknowledge_natural b n)))
  unfolding acknowledge
  acknowledge-cases b (natural n) = elim (Bool-cases (leb n max_safe_integer)) [
    | inr e ↦ inl (range_error "invalid_acknowledgment", rw e)
    | inl s ↦ elim (Bool-cases (leb n b.delivered)) [
      | inr e ↦ inl (range_error "invalid_acknowledgment", rw (s, e))
      | inl e ↦ inr (n, leb→le n b.delivered e, rw (s, e))
    ]
  ]
  acknowledge-cases b (negative n) = inl (range_error "invalid_acknowledgment", refl)
  acknowledge-cases b other = inl (range_error "invalid_acknowledgment", refl)

  check_cursor-cases :
      (b : Buffer A) (x : Number)
      → ((e : Thrown) × (check_cursor b x ≡ err e))
        ⊎ ((n : ℕ) × (x ≡ natural n) × (check_cursor b x ≡ ok n))
  unfolding check_cursor
  check_cursor-cases b (natural n) = elim (Bool-cases (leb n max_safe_integer)) [
    | inr e ↦ inl (invalid_cursor b, rw e)
    | inl s ↦ elim (Bool-cases (leb n (b.next_cursor - 1))) [
      | inr e ↦ inl (range_error "cursor_ahead", rw (s, e))
      | inl l ↦ elim (Bool-cases (leb b.acknowledged n)) [
        | inr e ↦ inl (range_error "cursor_expired", rw (s, l, e))
        | inl e ↦ inr (n, refl, rw (s, l, e))
      ]
    ]
  ]
  check_cursor-cases b (negative n) = inl (invalid_cursor b, refl)
  check_cursor-cases b other = inl (invalid_cursor b, refl)

  acknowledge-accounted :
      (b : Buffer A) (after : ℕ)
      → (acknowledge_natural b after).settled
          ++ settles (acknowledge_natural b after).buffer.entries
        ≡ settles b.entries
  unfolding acknowledge_natural
  acknowledge-accounted b after = ground (arith, shift_through-settles after b.entries)

  acknowledge-Inv :
      (h : History A) (after : ℕ)
      → after ≤ h.buffer.delivered
      → Inv h
      → Inv (after_acknowledge h (ok (acknowledge_natural h.buffer after)))
  unfolding after_acknowledge
  acknowledge-Inv h after d v = record {
    represents = acknowledge-Represents h.buffer h.log after v.represents d;
    accounted =
        append_assoc h.settled _ _
        ∙ ap (◌++◌ h.settled) (acknowledge-accounted h.buffer after)
        ∙ v.accounted;
  }

  deliver-entries :
      (b : Buffer A) (wait : Bool) (reader : ℕ) (es : List (Entry A))
      → (deliver b wait reader es).0.entries ≡ b.entries
  unfolding deliver
  deliver-entries b true reader [] = refl
  deliver-entries b false reader [] = refl
  deliver-entries b wait reader (e ∷ es) = refl

  poll-entries :
      (b : Buffer A) (after reader : ℕ) (aborted : Option Thrown) (wait : Bool)
      → (poll b after aborted wait reader).0.entries ≡ b.entries
  unfolding poll
  poll-entries b after reader (some e) wait = refl
  poll-entries b after reader none wait = deliver-entries b wait reader _

  poll-Inv :
      (h : History A) (after reader : ℕ) (aborted : Option Thrown) (wait : Bool)
      → Inv h
      → Inv (record h { buffer = (poll h.buffer after aborted wait reader).0 })
  poll-Inv h after reader aborted wait v = record {
    represents = poll-Represents h.buffer h.log after reader aborted wait v.represents;
    accounted = rw (poll-entries h.buffer after reader aborted wait) v.accounted;
  }

  begin_read : History A → Result (Acknowledged A) → ℕ → Option Thrown → Bool → ℕ → History A
  begin_read h a n aborted wait reader =
      after_read h (a >>= λ a'. ok (with_poll a' n aborted wait reader))

  begin_read-Inv :
      (h : History A) (n m : ℕ) (aborted : Option Thrown) (wait : Bool) (reader : ℕ)
      → n ≤ h.buffer.delivered
      → Inv h
      → Inv (begin_read h (ok (acknowledge_natural h.buffer n)) m aborted wait reader)
  unfolding begin_read after_read after_acknowledge with_poll
  begin_read-Inv h n m aborted wait reader d v =
      poll-Inv (after_acknowledge h (ok (acknowledge_natural h.buffer n))) m reader aborted wait
        (acknowledge-Inv h n d v)

  unread : Buffer A → Acknowledged A
  unread b = record { buffer = b; settled = []; woken = [] }

  poll_only-Inv :
      (h : History A) (m : ℕ) (aborted : Option Thrown) (wait : Bool) (reader : ℕ)
      → Inv h
      → Inv (begin_read h (ok (unread h.buffer)) m aborted wait reader)
  unfolding begin_read after_read with_poll unread
  poll_only-Inv h m aborted wait reader v = record {
    represents = poll-Represents h.buffer h.log m reader aborted wait v.represents;
    accounted = rw (append-nil h.settled, poll-entries h.buffer m reader aborted wait) v.accounted;
  }

  read-Inv :
      (h : History A) (x : Number) (aborted : Option Thrown) (wait acks : Bool) (reader : ℕ)
      → Inv h
      → Inv (after_read h (read h.buffer x aborted wait acks reader))
  unfolding read begin_read unread after_read
  read-Inv h x aborted wait acks reader v = elim (check_cursor-cases h.buffer x) [
    | inl (e, refused) ↦ rw (refused, after_read) v
    | inr (n, _, accepted) ↦ elim (Bool-cases acks) [
      | inr peek ↦ rw (accepted, peek) (poll_only-Inv h n aborted wait reader v)
      | inl acking ↦ elim (acknowledge-cases h.buffer (natural n)) [
        | inl (e, refused) ↦ rw (accepted, acking, refused, after_read) v
        | inr (m, d, done) ↦
            rw (accepted, acking, done) (begin_read-Inv h m n aborted wait reader d v)
      ]
    ]
  ]

  acknowledges-Inv :
      (h : History A) (x : Number) → Inv h → Inv (after_acknowledge h (acknowledge h.buffer x))
  unfolding after_acknowledge
  acknowledges-Inv h x v = elim (acknowledge-cases h.buffer x) [
    | inl (e, refused) ↦ rw refused v
    | inr (n, d, done) ↦ rw done (acknowledge-Inv h n d v)
  ]

  appends-Inv :
      (h : History A) (make : ℕ → A) (bytes producer : ℕ)
      → Inv h
      → Inv (step h (appends make bytes producer))
  unfolding step append
  appends-Inv h make bytes producer v = record {
    represents = append-Represents h.buffer h.log make bytes producer v.represents;
    accounted =
        ap (◌++◌ h.settled) (map-append (λ (e : Entry A). e.settle) h.buffer.entries _)
        ∙ sym (append_assoc h.settled (settles h.buffer.entries) (producer ∷ []))
        ∙ rw v.accounted refl;
  }

  waits-Inv :
      (h : History A) (bytes : ℕ) (aborted : Option Thrown) (waiter : ℕ)
      → Inv h
      → Inv (step h (waits bytes aborted waiter))
  unfolding step wait_for_capacity
  waits-Inv h bytes (some e) waiter v = ground arith
  waits-Inv h bytes none waiter v = ground arith

  step-Inv : (h : History A) (c : Call A) → Inv h → Inv (step h c)
  unfolding step abort_reader abort_capacity_waiter
  step-Inv h (appends make bytes producer) v = appends-Inv h make bytes producer v
  step-Inv h (reads after aborted wait acks reader) v = read-Inv h after aborted wait acks reader v
  step-Inv h (resumes after aborted reader) v = poll-Inv h after reader aborted true v
  step-Inv h (aborts_read reader) v = ground arith
  step-Inv h (waits bytes aborted waiter) v = waits-Inv h bytes aborted waiter v
  step-Inv h (aborts_wait waiter) v = ground arith
  step-Inv h (acknowledges after) v = acknowledges-Inv h after v

  run_from-Inv : (h : History A) (cs : List (Call A)) → Inv h → Inv (run h cs)
  unfolding run
  run_from-Inv h [] v = v
  run_from-Inv h (c ∷ cs) v = run_from-Inv (step h c) cs (step-Inv h c v)

  begin-Inv : (l : Limits) (label : String) → Inv (begin l label)
  unfolding begin empty
  begin-Inv l label = record { represents = empty-Represents l label; accounted = refl }

  -- After any history of calls, the buffer holds exactly the appended values that are not yet
  -- acknowledged, under contiguous cursors and with its bytes counted; and the producers settled
  -- so far, followed by those of the entries kept, are the producers of all appends in order: each
  -- is settled once, and only in its turn.
  pub run-Inv : (l : Limits) (label : String) (cs : List (Call A)) → Inv (run (begin l label) cs)
  run-Inv l label cs = run_from-Inv (begin l label) cs (begin-Inv l label)
