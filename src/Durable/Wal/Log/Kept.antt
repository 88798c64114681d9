-- ===== src/Durable/Wal/Log/Kept.antt =====
-- durable-mq/wal: the segments only grow under appends, whatever the operating system does, and an
-- accepted append leaves its whole record in one.
use simon_mq.Base.{
  ℕ, ◌+◌, ◌≡◌, ◌≢◌, refl, ◌∙◌, sym, ap, inl, inr, true, none, some, List, [], ◌++◌, GoString,
  str_eq, str_eq_iff, length, take, ltb, Bool-cases, Option-cases,
}
use mathlib.Core.List.{append_assoc, append-nil}
use simon_mq.Dict.{get, has, put}
use simon_mq.Dict.Laws.{get-put, get-put_self}
use simon_mq.Durable.Record.{Record, encode}
use simon_mq.Durable.Wal.Names.{segment_file_name}
use simon_mq.Durable.Wal.Segments.{Files, create_segment}
use simon_mq.Durable.Wal.Writer
use simon_mq.Durable.Wal.Writer.{
  Writer, is_durable, Io, fine, sync_fails, write_fails, Appended, ok, failed, numbered, or_empty,
  roll_segment, write_record, write_bytes,
}
use simon_mq.Durable.Wal.Log.{Log, off, on, append, syncs, files_of}
use simon_mq.Durable.Wal.Log.Replies.{is_ok}

-- The bytes of a record stand in a file.
abbrev pub InFiles : Files → Record → Type 0
InFiles files r =
    (name : GoString) × (before : List ℕ) × (behind : List ℕ) × (get files name
      ≡ some (before ++ (encode r ++ behind)))

-- Every file is still there, with more behind its bytes.
abbrev pub Grows : Files → Files → Type 0
Grows files files' =
    (name : GoString) (bytes : List ℕ)
    → get files name ≡ some bytes
    → (more : List ℕ) × (get files' name ≡ some (bytes ++ more))

pub same-Grows : (files : Files) → Grows files files
same-Grows files name bytes e = ([], e ∙ ap some (sym (append-nil bytes)))

pub InFiles-grown :
    (files files' : Files) (r : Record) → Grows files files' → InFiles files r → InFiles files' r
InFiles-grown files files' r g (name, before, behind, e) =
    let (more, f) = g name (before ++ (encode r ++ behind)) e in
    (
      name,
      before,
      behind ++ more,
      f
          ∙ ap some (
              append_assoc before (encode r ++ behind) more
              ∙ ap (λ b. before ++ b) (append_assoc (encode r) behind more)),
    )

write_bytes-Grows : (w : Writer) (bytes : List ℕ) → Grows w.sm.files (write_bytes w bytes).sm.files
write_bytes-Grows w bytes name old e = elim (Bool-cases (str_eq w.file name)) [
  | inl same ↦
      let here : get w.sm.files w.file ≡ some old =
        ap (get w.sm.files) ((str_eq_iff w.file name).0 same) ∙ e in
      (
        bytes,
        get-put w.sm.files w.file name (or_empty (get w.sm.files w.file) ++ bytes)
            ∙ rw (same, here) refl,
      )
  | inr other ↦ (
    [],
    get-put w.sm.files w.file name (or_empty (get w.sm.files w.file) ++ bytes)
        ∙ rw other (e ∙ ap some (sym (append-nil old))),
  )
]

roll_segment-Grows : (w : Writer) → Grows w.sm.files (roll_segment w).sm.files
unfolding roll_segment create_segment has
roll_segment-Grows w name old e =
    elim (Option-cases (get w.sm.files (segment_file_name w.next_lsn))) [
      | inl free ↦ rw free ([], fresh_lem free)
      | inr (bytes, there) ↦ rw there (same-Grows w.sm.files name old e)
    ]
  where
    fresh_lem :
        get w.sm.files (segment_file_name w.next_lsn) ≡ none
        → get (put w.sm.files (segment_file_name w.next_lsn) []) name ≡ some (old ++ [])
    fresh_lem free = elim (Bool-cases (str_eq (segment_file_name w.next_lsn) name)) [
      | inl same ↦ absurd (cc (ap (get w.sm.files) ((str_eq_iff _ name).0 same), e, free))
      | inr other ↦
          get-put w.sm.files (segment_file_name w.next_lsn) name []
          ∙ rw other (e ∙ ap some (sym (append-nil old)))
    ]

pub written_there : (w : Writer) (r : Record) → InFiles (write_bytes w (encode r)).sm.files r
written_there w r = (
  w.file,
  or_empty (get w.sm.files w.file),
  [],
  get-put_self w.sm.files w.file (or_empty (get w.sm.files w.file) ++ encode r)
      ∙ ap (λ b. some (or_empty (get w.sm.files w.file) ++ b)) (sym (append-nil (encode r))),
)

write_record_lem :
    (io : Io) (w : Writer) (r : Record)
    → Grows w.sm.files (write_record io w (encode r)).1.sm.files
      × (is_ok (write_record io w (encode r)).0 ≡ true
          → InFiles (write_record io w (encode r)).1.sm.files r)
write_record_lem fine w r = (write_bytes-Grows w (encode r), λ e. written_there w r)
write_record_lem (write_fails k) w r = (write_bytes-Grows w (take k (encode r)), λ e. absurd cc)
write_record_lem sync_fails w r = elim (Bool-cases (is_durable w.mode)) [
  | inl e ↦ rw e (write_bytes-Grows w (encode r), λ f. absurd cc)
  | inr e ↦ rw e (write_bytes-Grows w (encode r), λ f. written_there w r)
]

Grows-trans : (a b c : Files) → Grows a b → Grows b c → Grows a c
Grows-trans a b c g h name bytes e =
    let (more, f) = g name bytes e in
    let (rest, i) = h name (bytes ++ more) f in
    (more ++ rest, i ∙ ap some (append_assoc bytes more rest))

-- In a log with files.
pub append-Grows :
    (io : Io) (log : Log) (r : Record)
    → syncs log ≢ none
    → Grows (files_of log) (files_of (append io log r).1)
      × (is_ok (append io log r).0 ≡ true
          → (lsn : ℕ) × InFiles (files_of (append io log r).1) (record r { lsn = lsn }))
unfolding append Writer.append
append-Grows io (off n) r ne = absurd (ne refl)
append-Grows io (on w rd) r ne =
    elim (Bool-cases
      (ltb w.max_seg_size (w.current_size + length (encode (numbered w.next_lsn r))))) [
        | inl e ↦
            let (more, there) = write_record_lem io (roll_segment w) (numbered w.next_lsn r) in
            rw e (
              Grows-trans w.sm.files (roll_segment w).sm.files _ (roll_segment-Grows w) more,
              λ f. (w.next_lsn, there f),
            )
        | inr e ↦
            let (more, there) = write_record_lem io w (numbered w.next_lsn r) in
            rw e (more, λ f. (w.next_lsn, there f))
      ]
