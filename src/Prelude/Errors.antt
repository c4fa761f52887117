-- ===== src/Prelude/Errors.antt =====
-- What the SDK throws: the class of the error and its message, or the reason of an abort signal.
use Prim.Native.Nat.{ℕ}
use Prim.Native.String.{String}
use mathlib.Core.Bool.{Bool, true, false}
use mathlib.Core.Path.{◌≡◌, refl}

pub data Thrown : Type 0 where
  type_error : String → Thrown
  range_error : String → Thrown
  error : String → Thrown
  protocol_error : ℕ → String → Thrown
  remote_error : String → ℕ → Thrown
  abort_reason : String → Thrown

pub data Result {ℓ} (Value : Type ℓ) : Type ℓ where
  err : Thrown → Result Value
  ok : Value → Result Value

-- What a call threw passes through; `do` blocks chain calls by these.
infixl 5 ◌>>=◌ ◌>>◌
abbrev pub ◌>>=◌ {ℓ κ} : {Out : Type κ} {In : Type ℓ} → Result In → (In → Result Out) → Result Out
err thrown >>= next = err thrown
ok value >>= next = next value

abbrev pub ◌>>◌ {κ} : {Out : Type κ} → Result (Unit {0}) → Result Out → Result Out
checked >> next = checked >>= λ _. next

-- `if (!test) throw e`.
abbrev pub ensure : Bool → Thrown → Result (Unit {0})
ensure true e = ok tt
ensure false e = err e

-- A chain that succeeds has a first step that does, and goes on from its value.
pub bind-eq-ok {ℓ κ} :
    {In : Type ℓ} {Out : Type κ} (m : Result In) (next : In → Result Out) {out : Out}
    → (m >>= next) ≡ ok out
    → (value : In) × (m ≡ ok value) × (next value ≡ ok out)
bind-eq-ok (err thrown) next h = cc h
bind-eq-ok (ok value) next h = (value, refl, h)

-- A check that passes has tested true.
pub ensure-eq-ok : (test : Bool) (e : Thrown) (u : Unit {0}) → ensure test e ≡ ok u → test ≡ true
ensure-eq-ok true e u h = refl
ensure-eq-ok false e u h = cc h

pub ok_inj {ℓ} : {Value : Type ℓ} (value other : Value) → ok value ≡ ok other → value ≡ other
ok_inj value other h = cc
