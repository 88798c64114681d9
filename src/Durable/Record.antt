-- ===== src/Durable/Record.antt =====
-- durable-mq/record/record.go: one log entry as bytes, with a checksum at its end.
pub mod RoundTrip
use simon_mq.Base.{
  ℕ, ◌+◌, ◌-◌, ◌%◌, ◌^◌, Option, none, some, List, [], ◌∷◌, ◌++◌, length, take, drop, get_elem?,
  ltb, leb, ◌==◌, if◌then◌else◌, GoString, le_bytes, from_le, checksum_ieee,
}

abbrev pub op_enqueue : ℕ
op_enqueue = 1

abbrev pub op_ack : ℕ
op_ack = 2

abbrev pub op_create_queue : ℕ
op_create_queue = 3

abbrev pub op_delete_queue : ℕ
op_delete_queue = 4

abbrev pub op_update_sub_policy : ℕ
op_update_sub_policy = 5

abbrev pub op_delete_sub_policy : ℕ
op_delete_sub_policy = 6

abbrev pub op_begin_checkpoint : ℕ
op_begin_checkpoint = 7

abbrev pub op_end_checkpoint : ℕ
op_end_checkpoint = 8

pub record Record : Type 0 where
  pub lsn : ℕ
  pub op_type : ℕ
  pub queue_name : GoString
  pub payload : List ℕ

-- The bytes that follow the length field.
abbrev pub remaining_length : Record → ℕ
remaining_length r = 1 + 4 + length r.queue_name + length r.payload + 4

-- All but the checksum. The source fills one buffer field by field, at the offsets at which the
-- fields stand here.
abbrev pub encode_body : Record → List ℕ
encode_body r =
    le_bytes 8 r.lsn
    ++ (le_bytes 4 (remaining_length r % 2 ^ 32)
        ++ (r.op_type % 256
            ∷ (le_bytes 4 (length r.queue_name % 2 ^ 32) ++ (r.queue_name ++ r.payload))))

unfoldable pub encode : Record → List ℕ
encode r = encode_body r ++ le_bytes 4 (checksum_ieee (encode_body r))

-- `panicked` is an index or a slice bound out of range, or the `make` of a negative length.
pub data Decoded : Type 0 where
  decoded : Record → Decoded
  too_short invalid_crc panicked : Decoded

-- `bs[from:to]` for bounds in range.
abbrev pub sub_slice : List ℕ → ℕ → ℕ → List ℕ
sub_slice bs from to = take (to - from) (drop from bs)

-- The check of the checksum, once the fields are read.
abbrev check_crc : List ℕ → ℕ → Record → Decoded
check_crc bs remaining r =
    if from_le (sub_slice bs (remaining + 8) (remaining + 12))
      == checksum_ieee (take (remaining + 8) bs)
    then decoded r
    else invalid_crc

-- The fields between the length and the checksum. The slice of the name is in range where the
-- payload's length is not negative; where it is negative the source panics at the slice or at the
-- `make` after it, whatever the capacity behind the slice.
abbrev decode_fields : List ℕ → ℕ → ℕ → ℕ → Decoded
decode_fields bs remaining op_type name_length =
    if ltb (remaining + 8) (17 + name_length)
    then panicked
    else check_crc bs remaining (record {
      lsn = from_le (take 8 bs);
      op_type = op_type;
      queue_name = sub_slice bs 17 (17 + name_length);
      payload = sub_slice bs (17 + name_length) (remaining + 8);
    })

abbrev decode_op : Option ℕ → List ℕ → ℕ → Decoded
decode_op none bs remaining = panicked
decode_op (some op_type) bs remaining =
    decode_fields bs remaining op_type (from_le (sub_slice bs 13 17))

unfoldable pub decode : List ℕ → Decoded
decode bs =
    if ltb (length bs) 12
    then too_short
    else let remaining = from_le (sub_slice bs 8 12) in
      if ltb (length bs) (remaining + 12)
      then too_short
      else decode_op (get_elem? bs 12) bs remaining
