-- ===== src/Durable/Wal/Writer/Restart.antt =====
-- durable-mq/wal: a process that dies in the middle of an append, and the next start on its directory.
use simon_mq.Base.{
  ℕ, ◌+◌, ◌^◌, ◌<◌, ◌≤◌, ◌≡◌, refl, ◌∙◌, sym, ap, subst, inl, inr, false, some, List, [], ◌∷◌, ◌++◌,
  arith, GoString, str_eq, str_eq_refl, length, take, ltb, ltb→lt, if◌then◌else◌, Bool-cases,
}
use mathlib.Core.List.{append-nil}
use simon_mq.Dict.{get, has, put}
use simon_mq.Dict.Laws.{get-put_self, has-put}
use simon_mq.Durable.Record.{Record, encode}
use simon_mq.Durable.Wal.Scan.Recover.{file_of}
use simon_mq.Durable.Wal.Names.{segment_file_name, wal_suffix}
use simon_mq.Durable.Wal.Names.RoundTrip.{segment_file_name-ne}
use simon_mq.Durable.Wal.Names.Order.{segment-has_suffix}
use simon_mq.Durable.Wal.Segments.{Files, names_with, create_segment}
use simon_mq.Durable.Wal.Writer.{
  Writer, write_fails, append, write_bytes, numbered, roll_segment, or_empty,
}
use simon_mq.Durable.Wal.Writer.Appends.{file_nonempty}
use simon_mq.Durable.Wal.Writer.Logs.{
  IsLog, logged, FilesHold-put, FilesHold-append, names_of-append, records_of-append, has_file,
  names_with-put_present, names_with-put_absent,
}
use simon_mq.Durable.Wal.Reader.Segs.{
  Seg, GoodFrom, Closed, Closed-append, FilesHold, names_of, records_of,
}

-- The directory holds the records of the segments, with the bytes `torn` behind the last of them.
pub record OnDisk (files : Files) (closed : List Seg) (last : Seg) (torn : List ℕ) : Type 0 where
  pub listed : names_with wal_suffix files ≡ names_of closed ++ segment_file_name last.first ∷ []
  pub held : FilesHold files closed
  pub last_file : get files (segment_file_name last.first) ≡ some (file_of last.records ++ torn)
  pub runs : Closed 1 closed last.first
  pub good : GoodFrom last.first last.records
  pub bound : last.first + length last.records < 2 ^ 64
  pub free : (n : ℕ) → last.first < n → n < 2 ^ 64 → has files (segment_file_name n) ≡ false

-- The segments that are found after a crash, with the records of the log before it.
abbrev pub Left : Files → List Record → List ℕ → Type 0
Left files rs torn =
    (closed : List Seg) × (last : Seg) × OnDisk files closed last torn × (logged closed last ≡ rs)

module _ (w : Writer) (closed : List Seg) (last : Seg) (h : IsLog w closed last)
    (bound : w.next_lsn < 2 ^ 64) (torn : List ℕ) where
  stay_torn : Left (write_bytes w torn).sm.files (logged closed last) torn
  stay_torn =
      let bytes = or_empty (get w.sm.files w.file) ++ torn in
      let old : or_empty (get w.sm.files w.file) ≡ file_of last.records =
        ap or_empty (ap (get w.sm.files) h.file ∙ h.last_file) in
      (
        closed,
        last,
        record {
          listed =
              names_with-put_present wal_suffix w.sm.files w.file bytes (has_file h)
              ∙ (h.listed ∙ h.names);
          held =
              subst (λ f. FilesHold (put w.sm.files f bytes) closed) (sym h.file)
                (FilesHold-put w.sm.files 1 last.first closed bytes h.runs (omega (arith, h.next))
                  h.files);
          last_file =
              subst
                (λ f.
                  get (put w.sm.files f bytes) (segment_file_name last.first)
                  ≡ some (file_of last.records ++ torn))
                (sym h.file)
                (get-put_self w.sm.files (segment_file_name last.first) bytes
                  ∙ ap (λ b. some (b ++ torn)) old);
          runs = h.runs;
          good = h.good;
          bound = omega (arith, h.next);
          free = λ n lt b.
              let apart : str_eq w.file (segment_file_name n) ≡ false =
                ap (λ f. str_eq f (segment_file_name n)) h.file
                ∙ segment_file_name-ne last.first n (omega (arith, h.next)) b lt in
              ground (
                arith,
                has-put w.sm.files w.file (segment_file_name n) bytes,
                apart,
                h.free n lt b,
              );
        },
        refl,
      )

  abbrev new_name : GoString
  new_name = segment_file_name w.next_lsn

  abbrev rolled : Files → Files
  rolled files = put files new_name (or_empty (get files new_name) ++ torn)

  rolled_torn :
      0 < length last.records → Left (rolled (put w.sm.files new_name [])) (logged closed last) torn
  rolled_torn some_record =
      let files = put w.sm.files new_name [] in
      let bytes = or_empty (get files new_name) ++ torn in
      let absent : has w.sm.files new_name ≡ false =
        h.free w.next_lsn (omega (arith, h.next)) bound in
      let runs : Closed 1 (closed ++ last ∷ []) w.next_lsn =
        Closed-append 1 last.first w.next_lsn closed last h.runs refl h.good some_record
          (sym h.next) in
      (
        closed ++ last ∷ [],
        record { first = w.next_lsn; records = [] },
        record {
          listed =
              names_with-put_present wal_suffix files new_name bytes
                (ground (arith, has-put w.sm.files new_name new_name [], str_eq_refl new_name))
              ∙ (names_with-put_absent wal_suffix w.sm.files new_name []
                    (segment-has_suffix w.next_lsn) absent
                  ∙ ap (λ names. names ++ new_name ∷ [])
                      (h.listed ∙ (h.names ∙ sym (names_of-append closed last))));
          held = FilesHold-put files 1 w.next_lsn (closed ++ last ∷ []) bytes runs bound (
              FilesHold-put w.sm.files 1 w.next_lsn (closed ++ last ∷ []) [] runs bound
                (FilesHold-append w.sm.files closed last h.files h.last_file));
          last_file =
              get-put_self files new_name bytes
              ∙ (unfold file_of in
                  ap (λ o. some (or_empty o ++ torn)) (get-put_self w.sm.files new_name []));
          runs = runs;
          good = tt;
          bound = omega arith;
          free = λ n lt b.
              let apart : str_eq new_name (segment_file_name n) ≡ false =
                segment_file_name-ne w.next_lsn n bound b lt in
              ground (
                arith,
                has-put files new_name (segment_file_name n) bytes,
                has-put w.sm.files new_name (segment_file_name n) [],
                apart,
                h.free n (omega (arith, h.next)) b,
              );
        },
        append-nil (records_of (closed ++ last ∷ [])) ∙ records_of-append closed last,
      )

  roll_torn :
      0 < length last.records
      → Left (write_bytes (roll_segment w) torn).sm.files (logged closed last) torn
  unfolding roll_segment create_segment
  roll_torn some_record =
      let made : (if has w.sm.files new_name then w.sm.files else put w.sm.files new_name [])
          ≡ put w.sm.files new_name [] =
        rw (h.free w.next_lsn (omega (arith, h.next)) bound) refl in
      subst (λ files. Left (rolled files) (logged closed last) torn) (sym made)
        (rolled_torn some_record)

-- An append that stops after `k` bytes leaves the log as it was, with these bytes behind it.
pub crash_lem :
    (w : Writer) (closed : List Seg) (last : Seg) (r : Record) (k : ℕ)
    → IsLog w closed last
    → w.next_lsn < 2 ^ 64
    → length (encode (numbered w.next_lsn r)) ≤ w.max_seg_size
    → Left
        (append (write_fails k) w r).1.sm.files
        (logged closed last)
        (take k (encode (numbered w.next_lsn r)))
unfolding append
crash_lem w closed last r k h bound fits =
    elim (Bool-cases
      (ltb w.max_seg_size (w.current_size + length (encode (numbered w.next_lsn r))))) [
        | inr e ↦ rw e (stay_torn w closed last h bound (take k (encode (numbered w.next_lsn r))))
        | inl e ↦ rw e (
            roll_torn w closed last h bound (take k (encode (numbered w.next_lsn r))) (
              file_nonempty last.records (
                omega (
                  arith,
                  h.size,
                  ltb→lt w.max_seg_size (w.current_size + length (encode (numbered w.next_lsn r)))
                      e,
                ))))
      ]
