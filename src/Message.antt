-- ===== src/Message.antt =====
-- message/message.go: the messages on the two Unix sockets.
-- encoding/json is outside the repository: `Json` holds what the code calls of it. `MakeMessage` is the encoder's result, as the
-- marshalled types hold no value that `json.Marshal` refuses.
use go_test_cluster.Prelude.{
  ℕ, zero, suc, ◌≡◌, refl, Bool, List, [], ◌∷◌, ◌++◌, map, Option, none, some, arith, leb, length,
  take, if◌then◌else◌,
}
use go_test_cluster.Prelude.Int.{ℤ, pos}
use go_test_cluster.Prelude.Text.{Bytes, codes}

-- MESSAGE_ID_HELLO, MESSAGE_ID_RESOUCE and MESSAGE_ID_RESOUCE_RESPONSE, by `iota` from 0.
abbrev pub message_id_hello : ℤ
message_id_hello = pos 0

abbrev pub message_id_resource : ℤ
message_id_resource = pos 1

abbrev pub message_id_resource_response : ℤ
message_id_resource_response = pos 2

pub record MessageHeader : Type 0 where
  pub seq_no : ℕ  -- uint64
  pub destination_id : ℤ
  pub source_id : ℤ
  pub types : ℤ

-- `Body` is an `interface{}` that no code reads; it stands as the text of its JSON value.
pub record MessageCommon : Type 0 where
  pub header : MessageHeader
  pub body : Bytes

pub record MessageHello : Type 0 where
  pub header : MessageHeader
  pub pid : ℤ
  pub message : Bytes

pub record Parameter : Type 0 where
  pub name : Bytes
  pub value : Bytes

-- The embedded body's fields are promoted, as in Go.
pub record MessageResourceControllRequest : Type 0 where
  pub header : MessageHeader
  pub rscid : ℤ
  pub operation : Bytes
  pub resource_name : Bytes
  pub interval : ℤ  -- int64, in milliseconds
  pub timeout : ℤ
  pub delay : ℤ
  pub async : Bool
  pub param_len : ℤ
  pub parameters : List Parameter

pub record MessageResourceControllResponse : Type 0 where
  pub header : MessageHeader
  pub pid : ℤ
  pub rscid : ℤ
  pub operation : Bytes
  pub resource_name : Bytes
  pub result_code : ℤ
  pub message : Bytes

-- What the program calls of encoding/json. `json.Unmarshal` into a `MessageCommon` may fail after
-- it has filled some of it, and the callers go on with what is there: the pair holds the value
-- and whether there was an error. The other results are not used after an error.
pub record Json : Type 0 where
  pub marshal_hello : MessageHello → Bytes
  pub marshal_request : MessageResourceControllRequest → Bytes
  pub marshal_response : MessageResourceControllResponse → Bytes
  pub unmarshal_common : Bytes → MessageCommon × Bool
  pub unmarshal_hello : Bytes → Option MessageHello
  pub unmarshal_request : Bytes → Option MessageResourceControllRequest
  pub unmarshal_response : Bytes → Option MessageResourceControllResponse

-- The documented round trip, for one message: what the encoder wrote decodes to it, and its header
-- is what a `MessageCommon` gets. It is assumed of valid UTF-8 texts and of numbers that fit their
-- types, so it stands as a hypothesis on the message in hand.
pub record IsHelloCoded (j : Json) (m : MessageHello) : Type 0 where
  pub common : (j.unmarshal_common (j.marshal_hello m)).0.header ≡ m.header
  pub whole : j.unmarshal_hello (j.marshal_hello m) ≡ some m

pub record IsResponseCoded (j : Json) (m : MessageResourceControllResponse) : Type 0 where
  pub common : (j.unmarshal_common (j.marshal_response m)).0.header ≡ m.header
  pub whole : j.unmarshal_response (j.marshal_response m) ≡ some m

pub record IsRequestCoded (j : Json) (m : MessageResourceControllRequest) : Type 0 where
  pub common : (j.unmarshal_common (j.marshal_request m)).0.header ≡ m.header
  pub whole : j.unmarshal_request (j.marshal_request m) ≡ some m

-- A number of rounds: a negative one is none.
abbrev pub nonneg : ℤ → ℕ
nonneg (pos n) = n
nonneg (ℤ.negsuc n) = 0

-- One string of `ParametersToString`: name, "=", value.
abbrev pub parameter_text : Parameter → Bytes
parameter_text p = p.name ++ (codes "=" ++ p.value)

-- The loop of `ParametersToString` over `n` indices; an index past the end of the slice panics,
-- which is `none`.
pub parameters_loop : ℕ → List Parameter → Option (List Bytes)
parameters_loop zero ps = some []
parameters_loop (suc n) [] = none
parameters_loop (suc n) (p ∷ ps) =
    let rest = parameters_loop n ps in
    elim rest [ none ↦ none | some ts ↦ some (parameter_text p ∷ ts) ]

-- `ParametersToString(len, p)`; a negative `len` runs no round.
unfoldable pub parameters_to_string : ℤ → List Parameter → Option (List Bytes)
unfolding parameters_loop
parameters_to_string (pos n) ps = parameters_loop n ps
parameters_to_string (ℤ.negsuc n) ps = some []

parameters_loop-take :
    (n : ℕ) (ps : List Parameter)
    → parameters_loop n ps
      ≡ (if leb n (length ps) then some (map parameter_text (take n ps)) else none)
unfolding parameters_loop
parameters_loop-take zero [] = refl
parameters_loop-take zero (p ∷ ps) = ground arith
parameters_loop-take (suc n) [] = ground arith
parameters_loop-take (suc n) (p ∷ ps) = ground (arith, parameters_loop-take n ps)

-- `ParametersToString` gives the texts of the first `len` parameters, none for a negative `len`,
-- and panics exactly where `len` is more than there are.
pub parameters_to_string-take :
    (len : ℤ) (ps : List Parameter)
    → parameters_to_string len ps ≡ (
        if leb (nonneg len) (length ps)
        then some (map parameter_text (take (nonneg len) ps))
        else none)
unfolding parameters_to_string
parameters_to_string-take (pos n) ps = parameters_loop-take n ps
parameters_to_string-take (ℤ.negsuc n) ps = ground arith
