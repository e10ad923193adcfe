-- ===== src/Registry/Answers.antt =====
-- registry/server.py, `register`: when a registration is answered with a receipt.
use oversight.Prelude.{length}
use oversight.Tlog.{TransparencyLog, size}
use oversight.Registry.Register.{Admitted}
use oversight.Registry.Store.{Receipt}

-- The receipt for a registration that is logged behind the leaves of `log`.
receipt_for : Admitted → TransparencyLog → Receipt
receipt_for a log = record {
  file_id = a.file_id;
  registered_beacons = length a.signed_beacons;
  tlog_index = size log;
}
