-- ===== src/Durable/Wal/Log/Replies.antt =====
-- durable-mq/wal/wal.go: which appends are accepted.
use simon_mq.Base.{
  ℕ, ◌+◌, ◌≡◌, refl, ◌∙◌, ap, inl, inr, Bool, true, false, some, List, length, ltb, Bool-cases,
}
use simon_mq.Durable.Record.{Record, encode}
use simon_mq.Durable.Wal.Writer
use simon_mq.Durable.Wal.Writer.{
  Writer, is_durable, Io, fine, sync_fails, write_fails, Appended, ok, failed, numbered,
  roll_segment, write_record,
}
use simon_mq.Durable.Wal.Log.{Log, off, on, append, syncs, accepts}

abbrev pub is_ok : Appended → Bool
is_ok (ok n) = true
is_ok failed = false

write_record_lem :
    (io : Io) (w : Writer) (buf : List ℕ)
    → (is_ok (write_record io w buf).0 ≡ accepts (some (is_durable w.mode)) io)
      × ((write_record io w buf).1.mode ≡ w.mode)
write_record_lem fine w buf = (refl, refl)
write_record_lem (write_fails k) w buf = (refl, refl)
write_record_lem sync_fails w buf = elim (Bool-cases (is_durable w.mode)) [
  | inl e ↦ rw e (refl, refl)
  | inr e ↦ rw e (refl, refl)
]

-- What an append replies, and that the log stays of its kind.
pub append_lem :
    (io : Io) (log : Log) (r : Record)
    → (is_ok (append io log r).0 ≡ accepts (syncs log) io) × (syncs (append io log r).1 ≡ syncs log)
unfolding append Writer.append roll_segment
append_lem io (off n) r = (refl, refl)
append_lem io (on w rd) r =
    elim (Bool-cases
      (ltb w.max_seg_size (w.current_size + length (encode (numbered w.next_lsn r))))) [
        | inl e ↦ rw e (rolled (roll_segment w) (unfold roll_segment in refl))
        | inr e ↦ rw e (rolled w refl)
      ]
  where
    rolled :
        (w' : Writer)
        → w'.mode ≡ w.mode
        → let o = write_record io w' (encode (numbered w.next_lsn r)) in
          (is_ok o.0 ≡ accepts (some (is_durable w.mode)) io)
          × (some (is_durable o.1.mode) ≡ some (is_durable w.mode))
    rolled w' e =
        let (said, kept) = write_record_lem io w' (encode (numbered w.next_lsn r)) in
        (
          said ∙ ap (λ m. accepts (some (is_durable m)) io) e,
          ap (λ m. some (is_durable m)) (kept ∙ e),
        )
