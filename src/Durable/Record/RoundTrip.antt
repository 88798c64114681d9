-- ===== src/Durable/Record/RoundTrip.antt =====
-- `Decode` reads what `Encode` wrote.
use simon_mq.Base.{
  ℕ, ◌+◌, ◌-◌, ◌%◌, ◌^◌, ◌≤◌, ◌<◌, ◌≡◌, refl, ◌∙◌, sym, ap, some, List, ◌∷◌, ◌++◌, length, take,
  drop, arith, get_elem?, length-append, get_elem?-drop, ltb_of_le, ==_refl, drop-append,
  take-append, drop-drop, le_bytes, from_le, length-le_bytes, checksum_ieee, checksum_ieee-lt,
  from_le-le_bytes_8, from_le-le_bytes_4,
}
use mathlib.Core.List.{append_assoc}
use native.Mathlib.Nat.{mod-eq_of_lt}
use simon_mq.Durable.Record.{
  Record, remaining_length, encode_body, encode, decoded, decode, sub_slice,
}

-- The numbers of a record fit their fields.
pub record Fits (r : Record) : Type 0 where
  pub lsn_fits : r.lsn < 2 ^ 64
  pub op_fits : r.op_type < 256
  pub length_fits : remaining_length r < 2 ^ 32

-- `Decode` of a buffer whose fields and checksum agree.
decode_read :
    (bs : List ℕ) (remaining op name_length : ℕ)
    → remaining + 12 ≤ length bs
    → from_le (sub_slice bs 8 12) ≡ remaining
    → get_elem? bs 12 ≡ some op
    → from_le (sub_slice bs 13 17) ≡ name_length
    → 17 + name_length ≤ remaining + 8
    → from_le (sub_slice bs (remaining + 8) (remaining + 12))
      ≡ checksum_ieee (take (remaining + 8) bs)
    → decode bs
      ≡ decoded (record {
        lsn = from_le (take 8 bs);
        op_type = op;
        queue_name = sub_slice bs 17 (17 + name_length);
        payload = sub_slice bs (17 + name_length) (remaining + 8);
      })
unfolding decode
decode_read bs remaining op name_length long er eo en fits crc = rw (
  ltb_of_le (length bs) 12 (omega arith),
  er,
  ltb_of_le (length bs) (remaining + 12) long,
  eo,
  en,
  ltb_of_le (remaining + 8) (17 + name_length) fits,
  crc,
  ==_refl,
)

-- The slices of a buffer that is seven fields and a rest, at the offsets of the source.
module _ (a b n4 name payload c rest : List ℕ) (o : ℕ) (a8 : length a ≡ 8) (b4 : length b ≡ 4)
    (n44 : length n4 ≡ 4) (c4 : length c ≡ 4) where
  abbrev after_name : List ℕ
  after_name = payload ++ (c ++ rest)

  abbrev buffer : List ℕ
  buffer = a ++ (b ++ (o ∷ (n4 ++ (name ++ after_name))))

  drop_8 : drop 8 buffer ≡ b ++ (o ∷ (n4 ++ (name ++ after_name)))
  drop_8 = drop-append 8 a _ a8

  drop_12 : drop 12 buffer ≡ o ∷ (n4 ++ (name ++ after_name))
  drop_12 = sym (drop-drop 8 4 buffer) ∙ (ap (drop 4) drop_8 ∙ drop-append 4 b _ b4)

  drop_13 : drop 13 buffer ≡ n4 ++ (name ++ after_name)
  drop_13 = sym (drop-drop 12 1 buffer) ∙ ap (drop 1) drop_12

  drop_17 : drop 17 buffer ≡ name ++ after_name
  drop_17 = sym (drop-drop 13 4 buffer) ∙ (ap (drop 4) drop_13 ∙ drop-append 4 n4 _ n44)

  drop_name : drop (17 + length name) buffer ≡ after_name
  drop_name =
      sym (drop-drop 17 (length name) buffer)
      ∙ (ap (drop (length name)) drop_17 ∙ drop-append (length name) name _ refl)

  drop_payload : drop (17 + length name + length payload) buffer ≡ c ++ rest
  drop_payload =
      sym (drop-drop (17 + length name) (length payload) buffer)
      ∙ (ap (drop (length payload)) drop_name ∙ drop-append (length payload) payload _ refl)

  take_8 : take 8 buffer ≡ a
  take_8 = take-append 8 a _ a8

  slice_length : sub_slice buffer 8 12 ≡ b
  slice_length = ap (take 4) drop_8 ∙ take-append 4 b _ b4

  op_at : get_elem? buffer 12 ≡ some o
  op_at = sym (get_elem?-drop buffer 12 0) ∙ ap (λ xs. get_elem? xs 0) drop_12

  slice_name_length : sub_slice buffer 13 17 ≡ n4
  slice_name_length = ap (take 4) drop_13 ∙ take-append 4 n4 _ n44

  slice_name : sub_slice buffer 17 (17 + length name) ≡ name
  slice_name =
      ap (λ k. take k (drop 17 buffer)) (omega arith)
      ∙ (ap (take (length name)) drop_17 ∙ take-append (length name) name _ refl)

  slice_payload :
      (k : ℕ)
      → k ≡ 17 + length name + length payload
      → sub_slice buffer (17 + length name) k ≡ payload
  slice_payload k e =
      ap (λ j. take j (drop (17 + length name) buffer)) (omega (arith, e))
      ∙ (ap (take (length payload)) drop_name ∙ take-append (length payload) payload _ refl)

  slice_crc :
      (k j : ℕ) → k ≡ 17 + length name + length payload → j ≡ k + 4 → sub_slice buffer k j ≡ c
  slice_crc k j e f =
      let four : j - k ≡ 4 = omega (arith, f) in
      ap (λ i. take i (drop k buffer)) four
      ∙ (ap (λ i. take 4 (drop i buffer)) e ∙ (ap (take 4) drop_payload ∙ take-append 4 c rest c4))

  abbrev body : List ℕ
  body = a ++ (b ++ (o ∷ (n4 ++ (name ++ payload))))

  body_then : body ++ (c ++ rest) ≡ buffer
  body_then = rw (append_assoc a, append_assoc b, append_assoc n4, append_assoc name)

  length-body : length body ≡ 17 + length name + length payload
  length-body = omega (arith, length-append {0}, a8, b4, n44)

  take-body : (k : ℕ) → k ≡ 17 + length name + length payload → take k buffer ≡ body
  take-body k e = ap (take k) (sym body_then) ∙ take-append k body (c ++ rest) (length-body ∙ sym e)

  length-buffer : length buffer ≡ 21 + length name + length payload + length rest
  length-buffer = omega (arith, length-append {0}, a8, b4, n44, c4)

  -- The buffer holds the lengths of its parts and the checksum of its body.
  decode-buffer :
      (remaining : ℕ)
      → remaining ≡ 9 + length name + length payload
      → from_le b ≡ remaining
      → from_le n4 ≡ length name
      → from_le c ≡ checksum_ieee body
      → decode buffer
        ≡ decoded (record { lsn = from_le a; op_type = o; queue_name = name; payload = payload })
  decode-buffer remaining e eb en ec =
      decode_read buffer remaining o (length name) (omega (arith, length-buffer, e))
        (ap from_le slice_length ∙ eb) op_at (ap from_le slice_name_length ∙ en) (omega (arith, e))
        (ap from_le
            (slice_crc (remaining + 8) (remaining + 12) (omega (arith, e)) (omega (arith, e)))
          ∙ (ec ∙ ap checksum_ieee (sym (take-body (remaining + 8) (omega (arith, e))))))
      ∙ fields
    where
      fields :
          decoded (record {
            lsn = from_le (take 8 buffer);
            op_type = o;
            queue_name = sub_slice buffer 17 (17 + length name);
            payload = sub_slice buffer (17 + length name) (remaining + 8);
          })
          ≡ decoded (record { lsn = from_le a; op_type = o; queue_name = name; payload = payload })
      fields = cc (take_8, slice_name, slice_payload (remaining + 8) (omega (arith, e)))

-- `Decode` gives back the record that was encoded, whatever bytes follow it, if the LSN, the
-- operation and the length fit their fields of eight, one and four bytes.
pub decode-encode : (r : Record) (rest : List ℕ) → Fits r → decode (encode r ++ rest) ≡ decoded r
unfolding encode
decode-encode r rest f =
    rw
      (
        append_assoc (encode_body r),
        body_then (le_bytes 8 r.lsn) (le_bytes 4 (remaining_length r % 2 ^ 32))
            (le_bytes 4 (length r.queue_name % 2 ^ 32)) r.queue_name r.payload
            (le_bytes 4 (checksum_ieee (encode_body r))) rest (r.op_type % 256)
            (length-le_bytes 8 _) (length-le_bytes 4 _) (length-le_bytes 4 _) (length-le_bytes 4 _),
      )
      (decode-buffer (le_bytes 8 r.lsn) (le_bytes 4 (remaining_length r % 2 ^ 32))
          (le_bytes 4 (length r.queue_name % 2 ^ 32)) r.queue_name r.payload
          (le_bytes 4 (checksum_ieee (encode_body r))) rest (r.op_type % 256) (length-le_bytes 8 _)
          (length-le_bytes 4 _) (length-le_bytes 4 _) (length-le_bytes 4 _) (remaining_length r)
          (omega arith) (from_le-le_bytes_4 _ (omega arith) ∙ mod-eq_of_lt f.length_fits)
          (from_le-le_bytes_4 _ (omega arith)
            ∙ mod-eq_of_lt {n = length r.queue_name} {m = 2 ^ 32} (omega (arith, f.length_fits)))
          (from_le-le_bytes_4 _ (checksum_ieee-lt (encode_body r)))
        ∙ same_fields)
  where
    same_fields :
        decoded (record {
          lsn = from_le (le_bytes 8 r.lsn);
          op_type = r.op_type % 256;
          queue_name = r.queue_name;
          payload = r.payload;
        })
        ≡ decoded r
    same_fields = cc (from_le-le_bytes_8 r.lsn f.lsn_fits, mod-eq_of_lt f.op_fits)
