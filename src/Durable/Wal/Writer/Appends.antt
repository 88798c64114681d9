-- ===== src/Durable/Wal/Writer/Appends.antt =====
-- durable-mq/wal/writer.go: what an append does to the segments and the files.
use simon_mq.Base.{
  ◌+◌, ◌^◌, ◌<◌, ◌≤◌, ◌≡◌, refl, ◌∙◌, sym, ap, subst, inl, inr, false, some, List, [], ◌∷◌, ◌++◌,
  arith, GoString, str_eq, str_eq_refl, length, length-append, ltb, ltb→lt, if◌then◌else◌,
  Bool-cases,
}
use mathlib.Core.List.{append_assoc, append-nil}
use native.Mathlib.Nat.{mod-eq_of_lt}
use simon_mq.Dict.{get, has, put}
use simon_mq.Dict.Laws.{get-put_self, has-put}
use simon_mq.Durable.Record.{Record, encode}
use simon_mq.Durable.Wal.Scan.Recover.{Writable, file_of}
use simon_mq.Durable.Wal.Names.{segment_file_name, wal_suffix}
use simon_mq.Durable.Wal.Names.Order.{segment-has_suffix}
use simon_mq.Durable.Wal.Names.RoundTrip.{segment_file_name-ne}
use simon_mq.Durable.Wal.Segments.{Files, create_segment}
use simon_mq.Durable.Wal.Writer.{
  Writer, fine, ok, append, write_bytes, counted, numbered, roll_segment, or_empty,
}
use simon_mq.Durable.Wal.Reader.Segs.{
  Seg, GoodFrom-append, Closed, Closed-append, FilesHold, records_of,
}
use simon_mq.Durable.Wal.Writer.Logs.{
  names_of-append, records_of-append, file_of-append, FilesHold-put, FilesHold-append,
  names_with-put_present, names_with-put_absent, IsLog, has_file, Extended,
}

-- The record goes to the end of the last segment.
stay_lem :
    (w : Writer) (closed : List Seg) (last : Seg) (r : Record)
    → IsLog w closed last
    → r.lsn ≡ w.next_lsn
    → Writable r
    → w.next_lsn + 1 < 2 ^ 64
    → Extended w closed last r (counted (write_bytes w (encode r)) (length (encode r)))
stay_lem w closed last r h e v bound =
    let last' : Seg = record last { records = last.records ++ r ∷ [] } in
    let bytes : or_empty (get w.sm.files w.file) ++ encode r ≡ file_of last'.records =
      ap (λ o. or_empty o ++ encode r) (ap (get w.sm.files) h.file ∙ h.last_file)
      ∙ sym (file_of-append last.records r) in
    (
      closed,
      last',
      record {
        names = h.names;
        listed =
            names_with-put_present wal_suffix w.sm.files w.file
              (or_empty (get w.sm.files w.file) ++ encode r) (has_file h)
            ∙ h.listed;
        files =
            subst
              (λ f.
                FilesHold (put w.sm.files f (or_empty (get w.sm.files w.file) ++ encode r)) closed)
              (sym h.file)
              (FilesHold-put w.sm.files 1 last.first closed
                (or_empty (get w.sm.files w.file) ++ encode r) h.runs (omega (arith, h.next))
                h.files);
        last_file =
            subst
              (λ f.
                get (put w.sm.files f (or_empty (get w.sm.files w.file) ++ encode r))
                  (segment_file_name last.first)
                ≡ some (file_of last'.records))
              (sym h.file)
              (get-put_self w.sm.files (segment_file_name last.first)
                  (or_empty (get w.sm.files w.file) ++ encode r)
                ∙ ap some bytes);
        file = h.file;
        runs = h.runs;
        good = GoodFrom-append last.first last.records r h.good (e ∙ h.next) v;
        next = omega (
          arith,
          mod-eq_of_lt {n = w.next_lsn + 1} {m = 2 ^ 64} bound,
          h.next,
          length-append last.records (r ∷ []),
        );
        size = omega (
          arith,
          h.size,
          ap length (file_of-append last.records r),
          length-append (file_of last.records) (encode r),
        );
        free = λ n lt b.
            let apart : str_eq w.file (segment_file_name n) ≡ false =
              ap (λ f. str_eq f (segment_file_name n)) h.file
              ∙ segment_file_name-ne last.first n (omega (arith, h.next)) b lt in
            ground (
              arith,
              has-put w.sm.files w.file (segment_file_name n)
                  (or_empty (get w.sm.files w.file) ++ encode r),
              apart,
              h.free n lt b,
            );
      },
      sym (append_assoc (records_of closed) last.records (r ∷ [])),
    )

-- A new segment begins, and the record stands in it alone.
module _ (w : Writer) (closed : List Seg) (last : Seg) (r : Record) (h : IsLog w closed last)
    (bound : w.next_lsn + 1 < 2 ^ 64) (some_record : 0 < length last.records) where
  abbrev new_name : GoString
  new_name = segment_file_name w.next_lsn

  abbrev rolled : Files → Writer
  rolled files =
      counted
        (write_bytes
          (record w {
            sm = record w.sm { files = files; segments = w.sm.segments ++ new_name ∷ [] };
            file = new_name;
            current_size = 0;
          })
          (encode r))
        (length (encode r))

  new_bytes : or_empty (get (put w.sm.files new_name []) new_name) ++ encode r ≡ file_of (r ∷ [])
  unfolding file_of
  new_bytes =
      ap (λ o. or_empty o ++ encode r) (get-put_self w.sm.files new_name [])
      ∙ sym (append-nil (encode r))

  rolled-Extended :
      r.lsn ≡ w.next_lsn
      → Writable r
      → Extended w closed last r (rolled (put w.sm.files new_name []))
  rolled-Extended e v =
      let files = put w.sm.files new_name [] in
      let bytes = or_empty (get files new_name) ++ encode r in
      let runs : Closed 1 (closed ++ last ∷ []) w.next_lsn =
        Closed-append 1 last.first w.next_lsn closed last h.runs refl h.good some_record
          (sym h.next) in
      (
        closed ++ last ∷ [],
        record { first = w.next_lsn; records = r ∷ [] },
        record {
          listed =
              names_with-put_present wal_suffix files new_name bytes
                (ground (arith, has-put w.sm.files new_name new_name [], str_eq_refl new_name))
              ∙ (names_with-put_absent wal_suffix w.sm.files new_name []
                    (segment-has_suffix w.next_lsn)
                    (h.free w.next_lsn (omega (arith, h.next)) (omega arith))
                  ∙ ap (λ names. names ++ new_name ∷ []) h.listed);
          names =
              ap (λ names. names ++ new_name ∷ []) (h.names ∙ sym (names_of-append closed last));
          files = FilesHold-put files 1 w.next_lsn (closed ++ last ∷ []) bytes runs (omega arith) (
              FilesHold-put w.sm.files 1 w.next_lsn (closed ++ last ∷ []) [] runs (omega arith)
                (FilesHold-append w.sm.files closed last h.files h.last_file));
          last_file = get-put_self files new_name bytes ∙ ap some new_bytes;
          file = refl;
          runs = runs;
          good = (e, v, tt);
          next = omega (arith, mod-eq_of_lt {n = w.next_lsn + 1} {m = 2 ^ 64} bound);
          size = omega (
            arith,
            ap length new_bytes,
            length-append (or_empty (get files new_name)) (encode r),
            ap (λ o. length (or_empty o)) (get-put_self w.sm.files new_name []),
          );
          free = λ n lt b.
              let apart : str_eq new_name (segment_file_name n) ≡ false =
                segment_file_name-ne w.next_lsn n (omega arith) b lt in
              ground (
                arith,
                has-put files new_name (segment_file_name n) bytes,
                has-put w.sm.files new_name (segment_file_name n) [],
                apart,
                h.free n (omega (arith, h.next)) b,
              );
        },
        ap (λ rs. rs ++ r ∷ []) (records_of-append closed last),
      )

  roll_lem :
      r.lsn ≡ w.next_lsn
      → Writable r
      → Extended w closed last r
          (counted (write_bytes (roll_segment w) (encode r)) (length (encode r)))
  unfolding roll_segment create_segment
  roll_lem e v =
      let absent : has w.sm.files new_name ≡ false =
        h.free w.next_lsn (omega (arith, h.next)) (omega arith) in
      let made : (if has w.sm.files new_name then w.sm.files else put w.sm.files new_name [])
          ≡ put w.sm.files new_name [] =
        rw absent refl in
      subst (λ files. Extended w closed last r (rolled files)) (sym made) (rolled-Extended e v)

pub file_nonempty : (rs : List Record) → 0 < length (file_of rs) → 0 < length rs
unfolding file_of
file_nonempty [] h = absurd (omega arith)
file_nonempty (r ∷ rs) h = omega arith

-- An append of a record that fits a segment puts it, with the next number, behind the others, in the
-- last segment or in a new one.
pub append-Extended :
    (w : Writer) (closed : List Seg) (last : Seg) (r : Record)
    → IsLog w closed last
    → Writable (numbered w.next_lsn r)
    → w.next_lsn + 1 < 2 ^ 64
    → length (encode (numbered w.next_lsn r)) ≤ w.max_seg_size
    → (append fine w r).0 ≡ ok w.next_lsn
      × Extended w closed last (numbered w.next_lsn r) (append fine w r).1
unfolding append
append-Extended w closed last r h v bound fits =
    elim (Bool-cases
      (ltb w.max_seg_size (w.current_size + length (encode (numbered w.next_lsn r))))) [
        | inr e ↦ rw e (refl, stay_lem w closed last (numbered w.next_lsn r) h refl v bound)
        | inl e ↦ rw e (
          (unfold roll_segment create_segment in refl),
          roll_lem w closed last (numbered w.next_lsn r) h bound
              (file_nonempty last.records (
                omega (
                  arith,
                  h.size,
                  ltb→lt w.max_seg_size (w.current_size + length (encode (numbered w.next_lsn r)))
                      e,
                )))
              refl v,
        )
      ]
