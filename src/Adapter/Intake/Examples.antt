-- ===== src/Adapter/Intake/Examples.antt =====
-- src/session-runtime-adapter.ts: a runtime of texts that takes in a message and starts a recovery.
use cantelop_sdk.Prelude.{
  ◌≡◌, refl, String, true, false, none, some, List, [], ◌∷◌, error, protocol_error, ok, err,
}
use cantelop_sdk.Adapter.Intake.{
  dispatch, cancel, Runtime, RuntimeRecovery, enqueued, bind_session, bind_to, recover,
  recover_known, fits,
}
use cantelop_sdk.Adapter.Intake.Generations.{Inv, run_runtime-Inv}
use cantelop_sdk.Adapter.Intake.Recovering.{bind_session-again, recover-again}
use cantelop_sdk.Adapter.Intake.Turns.{
  Turn, binds, admits, sends, resumes, control_ends, cancels, message_starts, new_runtime, run,
}
use cantelop_sdk.Messages.{absent, Digest}
use cantelop_sdk.Messages.Canonical.{Json, quoted}
use cantelop_sdk.Protocol.Envelopes.{SessionIdentity}
use cantelop_sdk.Quiescence.{observe_message}

abbrev identity : Digest
identity = record {
  format = record { precedes = λ s t. true; quote = λ s. s };
  byte_length = λ s. 10;
  sha256 = λ s. s;
}

abbrev ping : Json
ping = quoted "ping"

abbrev session : SessionIdentity
session = record { id = "s1"; workspace_id = "w1"; keep_alive_seconds = 60 }

abbrev elsewhere : SessionIdentity
elsewhere = record { id = "s1"; workspace_id = "w2"; keep_alive_seconds = 60 }

abbrev history : List (Turn String String)
history =
    binds session
    ∷ admits identity "m1" ping session dispatch 1000 absent none none
    ∷ message_starts "m1" 1001
    ∷ resumes "r1" "m0" session 1002
    ∷ admits identity "m2" ping session cancel 1003 absent none none
    ∷ control_ends
    ∷ sends identity "m3" ping 1004
    ∷ cancels "m1" "message_cancelled" (error "stop") 1005
    ∷ []

abbrev fresh : Runtime String String
fresh = new_runtime "sbx-1" 300000 4096 false true

run_runtime-Inv_example : Inv (run fresh history)
run_runtime-Inv_example = run_runtime-Inv "sbx-1" 300000 4096 false true history

abbrev bound : Runtime String String
bound = record fresh { bound_session = some session }

fresh_bound : bind_session fresh session ≡ ok bound
unfolding bind_session bind_to
fresh_bound = refl

bind_session-again_example :
    bind_session (run bound history) elsewhere ≡ err (protocol_error 409 "session_mismatch")
bind_session-again_example = bind_session-again fresh bound session history elsewhere fresh_bound

abbrev recovery : RuntimeRecovery
recovery = record {
  interrupted_message_id = "m0";
  session = session;
  generation = (observe_message bound.quiescence "m0").1;
}

abbrev recovering : Runtime String String
recovering = record (enqueued bound "r1" 1000) {
  quiescence = (observe_message bound.quiescence "m0").0;
  recoveries = ("r1", recovery) ∷ [];
}

bound_recovering : recover bound "r1" "m0" session 1000 ≡ ok (recovering, recovery)
unfolding recover recover_known
bound_recovering = refl

recover-again_example :
    recover (run recovering history) "r1" "m0" elsewhere 2000
    ≡ err (protocol_error 409 "recovery_conflict")
unfolding fits
recover-again_example =
    recover-again bound recovering "r1" "m0" session 1000 recovery history "m0" elsewhere 2000
      bound_recovering
