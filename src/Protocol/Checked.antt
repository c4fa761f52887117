-- ===== src/Protocol/Checked.antt =====
-- src/integration-protocol.ts: what a command that was accepted is known to be.
use cantelop_sdk.Prelude.{
  ◌≡◌, refl, Bool, true, false, Option, some, List, [], ◌∷◌, String, arith, ok, Result, ensure,
  ◌>>◌, Thrown,
}
use cantelop_sdk.Protocol.Values.{Value, string, Members, get, has}
use cantelop_sdk.Protocol.Commands.{is_keep_alive, is_timeout}

-- A guard that was passed.
pub passed :
    {A : Type 0} (test : Bool) (e : Thrown) (rest : Result A) (a : A)
    → ensure test e >> rest ≡ ok a
    → (test ≡ true) × (rest ≡ ok a)
passed true e rest a h = (refl, h)
passed false e rest a h = ground arith

abbrev pub request_keys : List String
request_keys = "type" ∷ "message" ∷ "keepAliveSeconds" ∷ "timeoutMs" ∷ []

abbrev pub request : Option Value
request = some (string "request")

-- What is checked of the fields of a request.
pub record RequestFields (c : Members) : Type 0 where
  pub has_message : has "message" c ≡ true
  pub keep_alive : is_keep_alive (get "keepAliveSeconds" c) ≡ true
  pub timeout : is_timeout (get "timeoutMs" c) ≡ true
