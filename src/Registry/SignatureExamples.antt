-- ===== src/Registry/SignatureExamples.antt =====
-- A registration of a signed manifest over the toy primitives.
use oversight.Prelude.{◌≡◌, refl, true, false, Option, none, some, [], Bytes, codes}
use oversight.Json.{Json, Fields, str, dict, end}
use oversight.Crypto.Examples.{toy}
use oversight.Manifest.{to_dict, strip_none}
use oversight.Manifest.Parser.{new}
use oversight.Manifest.Examples.{signed_draft}
use oversight.Registry.{Server, Setup, Request, ok}
use oversight.Registry.Register.{Registration}
use oversight.Registry.Store.{register, Receipt}
use oversight.Registry.Receipts.{IsReceipt}
use oversight.Registry.Signature.{verify_manifest_signature, IsSigned, register-IsSigned}

abbrev fields_of : Json → Fields
fields_of (dict fs) = fs
fields_of v = end

abbrev signed_fields : Fields
signed_fields = fields_of (strip_none (to_dict true signed_draft))

abbrev loads : Bytes → Option Json
loads text = some (dict signed_fields)

abbrev setup : Setup
setup = record {
  sha256 = λ x. x;
  decode_replace = λ x. x;
  verify_manifest_signature = verify_manifest_signature toy loads;
  text_of_value = λ v. [];
  is_loopback = λ host. none;
  operator_token = [];
  dns_event_secret = [];
  trusted_proxy = false;
}

abbrev request : Request
request = record {
  headers = λ name. none;
  client_host = none;
  monotonic = 5;
  time = 17;
  stamp = codes "2023";
}

abbrev server : Server
server = record {
  database = record { manifests = []; beacons = []; watermarks = []; corpus = []; events = [] };
  tlog = record { leaves = []; cached_root = none; file = [] };
  bucket = record { unit = 1; rate = 10; burst = 30; max_keys = 100; state = [] };
}

abbrev registration : Registration
registration = record { manifest = signed_fields; beacons = []; watermarks = []; corpus = none }

abbrev receipt : Receipt
receipt = record { file_id = str (codes "f1"); registered_beacons = 0; tlog_index = 0 }

answered : (register setup registration request server).1 ≡ ok receipt
unfolding register verify_manifest_signature new
answered = refl

register-IsSigned_example :
    (r : IsReceipt setup registration request server
      (register setup registration request server).0
      receipt)
    × IsSigned toy loads signed_fields r.admitted.issuer_pub
register-IsSigned_example =
    register-IsSigned toy loads setup registration request server receipt refl answered
