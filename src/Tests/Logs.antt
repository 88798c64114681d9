-- ===== src/Tests/Logs.antt =====
-- The log records of durable-mq and the scan of a segment.
use simon_mq.Base.{
  ℕ, ◌≡◌, ◌≢◌, ◌<◌, ◌≤◌, refl, arith, length, length-replicate, List, [], ◌∷◌, ◌++◌, none, some,
  take, replicate, codes, from_le, le_bytes,
}
use simon_mq.Durable.Record
use simon_mq.Durable.Record.{Record, remaining_length, encode, decode, decoded, sub_slice}
use simon_mq.Durable.Record.RoundTrip.{Fits, decode-encode}
use simon_mq.Durable.Wal.Scan.{max_log_length, scan_segment, scanned, crashed}
use simon_mq.Durable.Wal.Scan.Recover.{Writable, All, file_of, length-encode, recover_after_crash}
use simon_mq.Durable.Wal.Scan.Limits.{scan_segment_terminates, oversized_record_is_lost}
use simon_mq.Durable.Wal.Scan.Corrupt.{small_length_crashes}
use simon_mq.Tests.Fixtures.{orders}

abbrev creation : Record
creation = record { lsn = 1; op_type = Record.op_create_queue; queue_name = orders; payload = [] }

abbrev message : Record
message = record {
  lsn = 2;
  op_type = Record.op_enqueue;
  queue_name = orders;
  payload = codes "one";
}

creation-Fits : Fits creation
creation-Fits = record { lsn_fits = omega arith; op_fits = omega arith; length_fits = omega arith }

message-Fits : Fits message
message-Fits = record { lsn_fits = omega arith; op_fits = omega arith; length_fits = omega arith }

creation-Writable : All Writable (creation ∷ [])
unfolding All
creation-Writable = (record { fits = creation-Fits; limit = omega arith }, tt)

decode-encode_example : decode (encode message ++ (0 ∷ 0 ∷ [])) ≡ decoded message
decode-encode_example = decode-encode message (0 ∷ 0 ∷ []) message-Fits

-- Twenty bytes of the message are written.
recover_after_crash_example :
    scan_segment (file_of (creation ∷ []) ++ take 20 (encode message))
    ≡ some (scanned (creation ∷ []) 27)
unfolding file_of encode le_bytes
recover_after_crash_example =
    recover_after_crash (creation ∷ []) message 20 creation-Writable message-Fits
      (omega (arith, length-encode message))

scan_segment_terminates_example : scan_segment (1 ∷ 2 ∷ 3 ∷ []) ≢ none
scan_segment_terminates_example = scan_segment_terminates (1 ∷ 2 ∷ 3 ∷ [])

abbrev zeros : List ℕ
zeros = replicate 12 0

small_length_crashes_example :
    scan_segment (file_of (creation ∷ []) ++ (zeros ++ [])) ≡ some crashed
unfolding from_le
small_length_crashes_example =
    small_length_crashes (creation ∷ []) zeros [] creation-Writable refl (omega arith) (omega arith)

abbrev with_payload : ℕ → Record
with_payload n = record {
  lsn = 2;
  op_type = Record.op_enqueue;
  queue_name = orders;
  payload = replicate n 0;
}

with_payload-Fits : (n : ℕ) → n ≤ max_log_length → Fits (with_payload n)
with_payload-Fits n h = record {
  lsn_fits = omega arith;
  op_fits = omega arith;
  length_fits = omega (arith, h, length-replicate {A = ℕ} n 0);
}

with_payload-over :
    (n : ℕ) → max_log_length ≤ n → max_log_length < remaining_length (with_payload n)
with_payload-over n h = omega (arith, h, length-replicate {A = ℕ} n 0)

oversized_record_is_lost_example :
    scan_segment
      (file_of (creation ∷ []) ++ (encode (with_payload max_log_length) ++ encode message))
    ≡ some (scanned (creation ∷ []) (length (file_of (creation ∷ []))))
oversized_record_is_lost_example =
    oversized_record_is_lost (creation ∷ []) (with_payload max_log_length) (encode message)
      creation-Writable (with_payload-Fits max_log_length (omega arith))
      (with_payload-over max_log_length (omega arith))
