-- ===== src/Storage/Query.antt =====
-- daemon/storage/messages.go: the queries that return several messages. What SQLite decides, the
-- order among equal timestamps and the text functions, is a parameter with the laws that its
-- documentation states.
pub mod Pages
pub mod Recent
use mathlib.Core.List.{Perm}
use kha_app.Prelude.{
  ◌≤ℤ◌, Bool, ◌&&◌, none, some, List, [], ◌∷◌, ◌++◌, map, ℤ, pos, negsuc, pos_part, eqb_ℤ, max_ℤ,
  Text, codes, same_text, take, drop, select, All, if◌then◌else◌,
}
use kha_app.Prelude.Result.{Result, ok, err, Outcome}
use kha_app.Storage.Message.{StoredMessage, Row, scan_message}
use kha_app.Storage.Table.{Table}

-- Newest first.
abbrev pub IsDescending : Table → Type 0
IsDescending [] = Unit
IsDescending (q ∷ t) = All (λ r. r.timestamp ≤ℤ q.timestamp) t × IsDescending t

pub record Engine : Type 0 where
  -- `ORDER BY timestamp DESC`
  pub order : Table → Table
  pub order_perm : (t : Table) → Perm (order t) t
  pub order_descending : (t : Table) → IsDescending (order t)
  -- `LOWER` and `LIKE`
  pub lower : Text → Text
  pub like : Text → Text → Bool

-- A negative LIMIT is no limit.
abbrev pub limited : ℤ → Table → Table
limited (pos n) t = take n t
limited (negsuc n) t = t

-- `LIMIT ? OFFSET ?`; a negative OFFSET is 0.
unfoldable pub page : ℤ → ℤ → Table → Table
page limit offset t = limited limit (drop (pos_part offset) t)

unfoldable pub scan_messages : Table → List StoredMessage
scan_messages = map scan_message

abbrev pub in_chat : Text → Row → Bool
in_chat jid q = same_text jid q.jid

-- One group of `SELECT jid, MAX(timestamp) … GROUP BY jid`.
pub record Group : Type 0 where
  pub jid : Text
  pub max_timestamp : ℤ

unfoldable pub add_group : Row → List Group → List Group
add_group q [] = record { jid = q.jid; max_timestamp = q.timestamp } ∷ []
add_group q (g ∷ gs) =
    if same_text q.jid g.jid
    then record g { max_timestamp = max_ℤ g.max_timestamp q.timestamp } ∷ gs
    else g ∷ add_group q gs

unfoldable pub latest : Table → List Group
unfolding add_group
latest [] = []
latest (q ∷ t) = add_group q (latest t)

-- `ON latest.jid = m.jid AND latest.max_timestamp = m.timestamp`.
abbrev pub joins : Row → Group → Bool
joins m g = same_text g.jid m.jid && eqb_ℤ g.max_timestamp m.timestamp

-- INNER JOIN: a row for every pair that the condition joins.
unfoldable pub join_row : Row → List Group → Table
join_row m [] = []
join_row m (g ∷ gs) = if joins m g then m ∷ join_row m gs else join_row m gs

unfoldable pub join : Table → List Group → Table
unfolding join_row
join [] gs = []
join (m ∷ t) gs = join_row m gs ++ join t gs

module _ (e : Engine) where
  unfoldable pub get_by_jid : Outcome → Text → ℤ → ℤ → Table → Result (List StoredMessage)
  unfolding page scan_messages select
  get_by_jid none jid limit offset t =
      ok (scan_messages (page limit offset (e.order (select (in_chat jid) t))))
  get_by_jid (some x) jid limit offset t = err x

  abbrev pub found_in : Text → Text → Row → Bool
  found_in jid query q = same_text jid q.jid && e.like (e.lower q.text) (e.lower query)

  unfoldable pub search_by_jid : Outcome → Text → Text → ℤ → Table → Result (List StoredMessage)
  unfolding page scan_messages select
  search_by_jid none jid query limit t = ok (
      scan_messages
        (limited limit (e.order (select (found_in jid (codes "%" ++ (query ++ codes "%"))) t))))
  search_by_jid (some x) jid query limit t = err x

  unfoldable pub get_recent_chats : Outcome → Table → Result (List StoredMessage)
  unfolding scan_messages join latest
  get_recent_chats none t = ok (scan_messages (e.order (join t (latest t))))
  get_recent_chats (some x) t = err x
