-- ===== src/Observations/Cursors.antt =====
-- The application's cursor, packages/db/src/repositories/cursors.ts: how far promotion has come.
use tr4ce_app.Prelude.{
  ℕ, ◌==◌, ◌≡◌, sym, ap, ◌∙◌, Bool, ◌&&◌, Option, none, some, List, [], ◌∷◌, Result, ok, ◌>>=◌,
  find, arith, if◌then◌else◌, >>=-eq-ok, ok_inj,
}
use tr4ce_app.Bytes.{Text, bytes_equal, bytes_to_hex}
use tr4ce_app.Bytes.Equality.{bytes_equal_self}
use tr4ce_app.Observations.Tables.{CursorRow, Tables, Failure}
use tr4ce_app.Observations.Promote.{read_hex}

pub record ApplicationCursor : Type 0 where
  pub chain_id : ℕ
  pub stream_key : Text
  pub block_number : ℕ
  pub block_hash : Text
  pub schema_version : Text

abbrev pub is_cursor : ℕ → Text → CursorRow → Bool
is_cursor chain_id stream_key row =
    row.chain_id == chain_id && bytes_equal row.stream_key stream_key

abbrev pub cursor_of : Option CursorRow → Option ApplicationCursor
cursor_of none = none
cursor_of (some row) = some (record {
  chain_id = row.chain_id;
  stream_key = row.stream_key;
  block_number = row.block_number;
  block_hash = bytes_to_hex row.block_hash;
  schema_version = row.schema_version;
})

unfoldable pub read_application_cursor : ℕ → Text → Tables → Option ApplicationCursor
read_application_cursor chain_id stream_key tables =
    cursor_of (find (λ r. is_cursor chain_id stream_key r) tables.cursors)

-- Also `WriteCursorInput`, whose hash is a text.
unfoldable pub put_cursor : CursorRow → List CursorRow → List CursorRow
put_cursor new [] = new ∷ []
put_cursor new (row ∷ rows) =
    let rest = put_cursor new rows in
    if is_cursor new.chain_id new.stream_key row then new ∷ rows else row ∷ rest

unfoldable pub write_application_cursor : ApplicationCursor → Tables → Result Failure Tables
write_application_cursor input tables = do
  hash ← read_hex input.block_hash
  let row : CursorRow = record {
    chain_id = input.chain_id;
    stream_key = input.stream_key;
    block_number = input.block_number;
    block_hash = hash;
    schema_version = input.schema_version;
  }
  ok (record tables { cursors = put_cursor row tables.cursors })

unfoldable pub rewind_application_cursor : ApplicationCursor → Tables → Result Failure Tables
rewind_application_cursor input tables = write_application_cursor input tables

find-put_cursor :
    (new : CursorRow) (rows : List CursorRow)
    → find (λ r. is_cursor new.chain_id new.stream_key r) (put_cursor new rows) ≡ some new
unfolding put_cursor
find-put_cursor new [] = ground (arith, bytes_equal_self new.stream_key)
find-put_cursor new (r ∷ rows) =
    ground (arith, bytes_equal_self new.stream_key, find-put_cursor new rows)

abbrev pub block_of : Option ApplicationCursor → Option ℕ
block_of none = none
block_of (some cursor) = some cursor.block_number

-- The tables but for the cursor.
pub record OnlyCursor (before after : Tables) : Type 0 where
  pub flows : after.flows ≡ before.flows
  pub snapshots : after.snapshots ≡ before.snapshots
  pub reports : after.reports ≡ before.reports
  pub citations : after.citations ≡ before.citations
  pub invalidations : after.invalidations ≡ before.invalidations

-- The cursor that is written is the one that is read, and nothing else is touched.
pub write_application_cursor-read :
    (input : ApplicationCursor) (tables : Tables) {after : Tables}
    → write_application_cursor input tables ≡ ok after
    → (block_of (read_application_cursor input.chain_id input.stream_key after)
        ≡ some input.block_number)
      × OnlyCursor tables after
unfolding write_application_cursor read_application_cursor
write_application_cursor-read input tables e =
    let (hash, _, e1) = >>=-eq-ok (read_hex input.block_hash) _ e in
    let row : CursorRow = record {
      chain_id = input.chain_id;
      stream_key = input.stream_key;
      block_number = input.block_number;
      block_hash = hash;
      schema_version = input.schema_version;
    } in
    let done = ok_inj e1 in
    (
      ap
            (λ t.
              block_of
                (cursor_of (find (λ r. is_cursor input.chain_id input.stream_key r) t.cursors)))
            (sym done)
          ∙ ap (λ o. block_of (cursor_of o)) (find-put_cursor row tables.cursors),
      record {
        flows = ap (λ t. t.flows) (sym done);
        snapshots = ap (λ t. t.snapshots) (sym done);
        reports = ap (λ t. t.reports) (sym done);
        citations = ap (λ t. t.citations) (sym done);
        invalidations = ap (λ t. t.invalidations) (sym done);
      },
    )
