-- ===== src/Samples.antt =====
-- A small encoding for the tests: the first byte is the number of the message, the second its type.
use go_test_cluster.Prelude.{ℕ, true, false, [], ◌∷◌, Option, none, some}
use go_test_cluster.Prelude.Int.{ℤ, pos}
use go_test_cluster.Prelude.Text.{Bytes, codes}
use go_test_cluster.Message.{
  MessageHeader, MessageHello, MessageResourceControllRequest, MessageResourceControllResponse,
  Json,
}

abbrev pub header_of : Bytes → MessageHeader
header_of (n ∷ t ∷ _) = record {
  seq_no = n;
  destination_id = pos 1;
  source_id = pos 2;
  types = pos t;
}
header_of _ = record { seq_no = 0; destination_id = pos 0; source_id = pos 0; types = pos 0 }

abbrev pub number : ℤ → ℕ
number (pos n) = n
number (ℤ.negsuc n) = 0

abbrev pub encode : MessageHeader → Bytes
encode h = h.seq_no ∷ number h.types ∷ []

abbrev pub sample_hello : MessageHello
sample_hello = record { header = header_of (7 ∷ 0 ∷ []); pid = pos 9; message = codes "HELLO" }

abbrev pub sample_request : MessageResourceControllRequest
sample_request = record {
  header = header_of (8 ∷ 1 ∷ []);
  rscid = pos 1;
  operation = codes "start";
  resource_name = codes "Dummy";
  interval = pos 0;
  timeout = pos 20;
  delay = pos 0;
  async = false;
  param_len = pos 0;
  parameters = [];
}

abbrev pub sample_response : MessageResourceControllResponse
sample_response = record {
  header = header_of (8 ∷ 2 ∷ []);
  pid = pos 9;
  rscid = pos 1;
  operation = codes "start";
  resource_name = codes "Dummy";
  result_code = pos 0;
  message = codes "OK";
}

abbrev decode_hello : Bytes → Option MessageHello
decode_hello [] = none
decode_hello _ = some sample_hello

abbrev decode_request : Bytes → Option MessageResourceControllRequest
decode_request [] = none
decode_request _ = some sample_request

abbrev decode_response : Bytes → Option MessageResourceControllResponse
decode_response [] = none
decode_response _ = some sample_response

abbrev pub sample_json : Json
sample_json = record {
  marshal_hello = λ m. encode m.header;
  marshal_request = λ m. encode m.header;
  marshal_response = λ m. encode m.header;
  unmarshal_common = λ b. (record { header = header_of b; body = [] }, true);
  unmarshal_hello = decode_hello;
  unmarshal_request = decode_request;
  unmarshal_response = decode_response;
}
