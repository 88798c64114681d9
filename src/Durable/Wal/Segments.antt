-- ===== src/Durable/Wal/Segments.antt =====
-- durable-mq/wal/segment-mgr.go: the files of the log's directory and the list of its segments. The
-- directory is a map from names to contents and has no subdirectories. The calls of the operating
-- system succeed where the file that they need is there; an absent result is an error that the source
-- returns, or its panic on a malformed name.
use simon_mq.Base.{
  ℕ, zero, suc, ◌+◌, ◌-◌, ◌/◌, ◌%◌, ◌^◌, Bool, true, false, Option, none, some, List, [], ◌∷◌, ◌++◌,
  GoString, codes, str_eq, str_lt, sort, length, take, replicate, ltb, leb, if◌then◌else◌, ◌>>=◌,
  checksum_ieee,
}
use simon_mq.Dict.{Dict, get, has, put, delete}
use simon_mq.Durable.Record.{Record, encode}
use simon_mq.Durable.Wal.Scan.{Scanned, scanned, crashed, scan_segment}
use simon_mq.Durable.Wal.Names.{segment_file_name, first_lsn, has_suffix, wal_suffix}

abbrev pub Files : Type 0
Files = Dict (List ℕ)

abbrev pub default_checkpoint_threshold : ℕ
default_checkpoint_threshold = 4

pub record SegmentManager : Type 0 where
  pub files : Files
  pub segments : List GoString
  pub ckpt_segments : List GoString
  pub ckpt_threshold : ℕ

abbrev pub names_with : GoString → Files → List GoString
names_with suffix [] = []
names_with suffix ((name, bytes) ∷ files) =
    if has_suffix name suffix then name ∷ names_with suffix files else names_with suffix files

abbrev pub ckpt_suffix : GoString
ckpt_suffix = codes ".ckpt"

abbrev pub tmp_suffix : GoString
tmp_suffix = codes ".tmp"

unfoldable pub refresh : SegmentManager → SegmentManager
refresh sm = record sm {
  segments = sort str_lt (names_with wal_suffix sm.files);
  ckpt_segments = sort str_lt (names_with ckpt_suffix sm.files);
}

unfoldable pub new_segment_manager_with_threshold : Files → ℕ → SegmentManager
new_segment_manager_with_threshold files threshold = refresh (record {
  files = files;
  segments = [];
  ckpt_segments = [];
  ckpt_threshold = if ltb threshold 1 then default_checkpoint_threshold else threshold;
})

unfoldable pub should_checkpoint : SegmentManager → Bool
should_checkpoint sm = leb sm.ckpt_threshold (length sm.segments)

-- The segment behind the first one of that name.
unfoldable pub next_after : GoString → List GoString → Option GoString
next_after name [] = none
next_after name (s ∷ []) = none
next_after name (s ∷ t ∷ segs) = if str_eq s name then some t else next_after name (t ∷ segs)

unfoldable pub segment_after : SegmentManager → GoString → Option GoString
segment_after sm name = next_after name sm.segments

unfoldable pub last_of : List GoString → Option GoString
last_of [] = none
last_of (s ∷ []) = some s
last_of (s ∷ t ∷ segs) = last_of (t ∷ segs)

-- A file that is there already keeps its contents.
unfoldable pub create_segment : SegmentManager → ℕ → GoString × SegmentManager
create_segment sm lsn =
    let name = segment_file_name lsn in
    (
      name,
      record sm {
        files = if has sm.files name then sm.files else put sm.files name [];
        segments = sm.segments ++ name ∷ [];
      },
    )

-- Zeros stand behind the old contents where the file grows.
abbrev pub resized : ℕ → List ℕ → List ℕ
resized size bytes =
    if leb size (length bytes) then take size bytes else bytes ++ replicate (size - length bytes) 0

unfoldable pub truncate_segment : SegmentManager → GoString → ℕ → Option SegmentManager
truncate_segment sm name size = do
  bytes ← get sm.files name
  some (record sm { files = put sm.files name (resized size bytes) })

-- The segments all of whose records the next segment's first number exceeds.
unfoldable pub to_delete : ℕ → List GoString → Option (List GoString)
to_delete lsn [] = some []
to_delete lsn (s ∷ []) = some []
to_delete lsn (s ∷ t ∷ segs) = do
  first ← first_lsn t
  if ltb lsn first then some [] else (do rest ← to_delete lsn (t ∷ segs); some (s ∷ rest))

abbrev pub remove_all : Files → List GoString → Files
remove_all files [] = files
remove_all files (name ∷ names) = remove_all (delete files name) names

abbrev listed : GoString → List GoString → Bool
listed name [] = false
listed name (n ∷ names) = if str_eq n name then true else listed name names

abbrev pub kept : List GoString → List GoString → List GoString
kept deleted [] = []
kept deleted (s ∷ segs) = if listed s deleted then kept deleted segs else s ∷ kept deleted segs

unfoldable pub delete_segments_before : SegmentManager → ℕ → Option SegmentManager
delete_segments_before sm lsn = do
  deleted ← to_delete lsn sm.segments
  some (record sm { files = remove_all sm.files deleted; segments = kept deleted sm.segments })

-- The state after recovery; the log's file is named.
pub record RecoveryState : Type 0 where
  pub sm : SegmentManager
  pub next_lsn : ℕ
  pub file : GoString
  pub size : ℕ

abbrev pub lsn_after : ℕ → List Record → ℕ
lsn_after first [] = first
lsn_after first (r ∷ []) = (r.lsn + 1) % 2 ^ 64
lsn_after first (r ∷ s ∷ rs) = lsn_after first (s ∷ rs)

abbrev recover_scanned : SegmentManager → GoString → Option Scanned → Option RecoveryState
recover_scanned sm last none = none
recover_scanned sm last (some crashed) = none
recover_scanned sm last (some (scanned rs valid_end)) = do
  first ← first_lsn last
  truncated ← truncate_segment sm last valid_end
  some (record { sm = truncated; next_lsn = lsn_after first rs; file = last; size = valid_end })

abbrev recover_last : SegmentManager → Option GoString → Option RecoveryState
recover_last sm none =
    let created = create_segment sm 1 in
    some (record { sm = created.1; next_lsn = 1; file = created.0; size = 0 })
recover_last sm (some last) = do
  bytes ← get sm.files last
  recover_scanned sm last (scan_segment bytes)

unfoldable pub recover : SegmentManager → Option RecoveryState
recover sm = recover_last sm (last_of sm.segments)

-- `%08x`
abbrev hex_digit : ℕ → ℕ
hex_digit d = if ltb d 10 then 48 + d else 87 + d

unfoldable pub hex : ℕ → ℕ → GoString
hex zero n = []
hex (suc k) n = hex k (n / 16) ++ hex_digit (n % 16) ∷ []

unfoldable pub checksum_file : List ℕ → GoString
checksum_file bytes = hex 8 (checksum_ieee bytes)

-- The checkpoint files that are kept have the one name.
abbrev other_names : GoString → List GoString → List GoString
other_names keep [] = []
other_names keep (n ∷ names) =
    if str_eq n keep then other_names keep names else n ∷ other_names keep names

unfoldable pub delete_checkpoint_files_except : SegmentManager → GoString → SegmentManager
delete_checkpoint_files_except sm keep = record sm {
  files = remove_all sm.files (other_names keep (sort str_lt (names_with ckpt_suffix sm.files)));
}

unfoldable pub delete_tmp_files : SegmentManager → SegmentManager
delete_tmp_files sm = record sm { files = remove_all sm.files (names_with tmp_suffix sm.files) }

abbrev pub checkpoint_file_name : GoString → GoString
checkpoint_file_name id = codes "checkpoint-" ++ (id ++ ckpt_suffix)

abbrev pub encode_all : List Record → List ℕ
encode_all [] = []
encode_all (r ∷ rs) = encode r ++ encode_all rs

-- The records are written to a temporary file, which then gets its name: the temporary file is
-- gone, and the name and the checksum are returned.
unfoldable pub write_checkpoint_file :
    SegmentManager → GoString → List Record → (GoString × GoString) × SegmentManager
write_checkpoint_file sm id records =
    let name = checkpoint_file_name id in
    (
      (name, checksum_file (encode_all records)),
      record sm { files = put (delete sm.files (name ++ tmp_suffix)) name (encode_all records) },
    )
