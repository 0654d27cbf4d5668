-- ===== src/Tests/StorageTests.antt =====
-- The theorems on the message store at concrete inputs.
use kha_app.Prelude.{
  ◌≡◌, ◌⊎◌, refl, true, none, some, [], ◌∷◌, ◌++◌, pos, List, map, Text, codes, select, same_text,
  All,
}
use kha_app.Prelude.Result.{ok, err, Outcome}
use kha_app.Prelude.Dict.{lookup}
use kha_app.Storage.Message.{to_row, scan_message}
use kha_app.Storage.Url.{extract_first_url}
use kha_app.Storage.Url.First.{Skips, Stops, IsUrl, IsTrimmed, HasScheme, extract_first_url_lem}
use kha_app.Storage.Table.{Table, find, write_all}
use kha_app.Storage.Table.Lookup.{view}
use kha_app.Storage.Table.Refines.{promise_all, view-write_all}
use kha_app.Storage.Table.Keys.{IsKeyed}
use kha_app.Storage.Table.Receipts.{Kept, write_all-Kept}
use kha_app.Storage.Query.{scan_messages, get_by_jid, get_recent_chats}
use kha_app.Storage.Query.Pages.Split.{IsChat, IsPage, get_by_jid_lem}
use kha_app.Storage.Query.Recent.{is_newest, get_recent_chats_lem}
use kha_app.Storage.Raw.{sql_text, sql_integer, RawRow, Conversions, scan_raws}
use kha_app.Storage.Schema.{
  Column, text_column, integer_column, created_columns, migrated_columns, RawTable, names,
  has_column, init,
}
use kha_app.Storage.Schema.Migrated.{all_done, init_again}
use kha_app.Storage.Schema.Filled.{IsOld, IsOrder, has_column-row}
use kha_app.Storage.Schema.Readable.{row_of, scan_raws-init}
use kha_app.Tests.Data.{alice, three_rows, some_writes}
use kha_app.Tests.Sorted.{sort_rows, engine}

view-write_all_example :
    view (write_all three_rows some_writes) ≡ promise_all (view three_rows) some_writes
view-write_all_example = view-write_all three_rows some_writes

pub three_rows-IsKeyed : IsKeyed three_rows
unfolding find same_text to_row
three_rows-IsKeyed = (refl, (refl, (refl, tt)))

write_all-Kept_example : Kept three_rows (write_all three_rows some_writes)
write_all-Kept_example = write_all-Kept three_rows some_writes

abbrev link_text : Text
link_text = codes "see https://kha.app."

extract_first_url_lem_example :
    ((extract_first_url link_text ≡ []) × Skips link_text [])
    ⊎ ((pre m post : Text) × (link_text ≡ pre ++ (m ++ post))
        × IsUrl m
        × Skips pre (m ++ post)
        × Stops post
        × IsTrimmed m (extract_first_url link_text)
        × HasScheme (extract_first_url link_text))
extract_first_url_lem_example = extract_first_url_lem link_text

get_recent_chats_lem_example :
    get_recent_chats engine none three_rows
    ≡ ok (scan_messages (sort_rows (select (is_newest three_rows) three_rows)))
get_recent_chats_lem_example = get_recent_chats_lem engine three_rows

get_by_jid_lem_example :
    (chat : Table) × (shown : Table) × IsChat alice three_rows chat
    × IsPage (pos 1) (pos 1) chat shown
    × (get_by_jid engine none alice (pos 1) (pos 1) three_rows ≡ ok (map scan_message shown))
get_by_jid_lem_example = get_by_jid_lem engine alice (pos 1) (pos 1) three_rows

abbrev refuses : Text → Outcome
refuses name = some (codes "read-only database")

-- The table of a first version, with one message.
abbrev first_columns : List Column
first_columns =
    text_column (codes "id")
    ∷ text_column (codes "jid")
    ∷ integer_column (codes "from_me")
    ∷ text_column (codes "text")
    ∷ integer_column (codes "timestamp")
    ∷ []

abbrev first_row : RawRow
first_row =
    (codes "id", sql_text (codes "M1"))
    ∷ (codes "jid", sql_text alice)
    ∷ (codes "from_me", sql_integer (pos 1))
    ∷ (codes "text", sql_text (codes "hi"))
    ∷ (codes "timestamp", sql_integer (pos 100))
    ∷ []

abbrev first_table : RawTable
first_table = record { columns = first_columns; rows = first_row ∷ [] }

abbrev strict : Conversions
strict = record {
  to_string = λ v. err (codes "unsupported");
  to_integer = λ v. err (codes "unsupported");
  to_bytes = λ v. err (codes "unsupported");
}

source-IsOrder : IsOrder migrated_columns
unfolding same_text
source-IsOrder = (
  refl,
  (
    refl,
    (
      refl,
      (
        refl,
        (
          refl,
          (
            refl,
            (refl, (refl, (refl, (refl, (refl, (refl, (refl, (refl, (refl, (refl, tt)))))))))),
          ),
        ),
      ),
    ),
  ),
)

first_row-IsOld : IsOld (names first_columns) first_row
unfolding lookup same_text
first_row-IsOld = record {
  same_names = λ name. has_column-row name first_row;
  id = refl;
  jid = refl;
  from_me = refl;
  text = refl;
  timestamp = refl;
  others = (
    refl,
    (
      refl,
      (
        refl,
        (
          refl,
          (
            refl,
            (
              refl,
              (refl, (refl, (refl, (refl, (refl, (refl, (refl, (refl, (refl, (refl, tt)))))))))),
            ),
          ),
        ),
      ),
    ),
  );
}

scan_raws-init_example :
    (u : RawTable) × ((init none none all_done migrated_columns (some first_table) ≡ (none, some u))
      × (scan_raws strict u.rows ≡ ok (map (λ r. scan_message (row_of r)) first_table.rows)))
scan_raws-init_example =
    scan_raws-init strict migrated_columns first_table source-IsOrder (first_row-IsOld, tt)

two_present :
    All
      (λ c. has_column c.name (names created_columns) ≡ true)
      (integer_column (codes "has_media") ∷ integer_column (codes "is_read") ∷ [])
unfolding has_column same_text
two_present = (refl, (refl, tt))

nothing_missing :
    init none none refuses
      (integer_column (codes "has_media") ∷ integer_column (codes "is_read") ∷ [])
      (some (record { columns = created_columns; rows = [] }))
    ≡ (none, some (record { columns = created_columns; rows = [] }))
nothing_missing = init_again refuses _ _ two_present
