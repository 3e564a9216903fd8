-- ===== src/GroupDelivery/Table.antt =====
-- The table `group_actions` as its rows in the order of insertion, with its primary key and the unique
-- index on the natural keys of the rows that are not superseded.
pub mod Laws
pub mod Updates
use telegram_presence.Base.{
  ℕ, Bool, false, not, ◌&&◌, ◌||◌, Option, none, some, List, [], ◌∷◌, ◌++◌, ◌==◌, if◌then◌else◌,
  is_some,
}
use telegram_presence.Base.Text.{Text, text_eq}
use telegram_presence.GroupDelivery.{Row, is_superseded}

abbrev pub Table : Type 0
Table = List Row

-- `chat`, `msg_id`, `action`, `intent_key`
pub record NaturalKey : Type 0 where
  pub chat : Text
  pub msg_id : ℕ
  pub action : Text
  pub intent_key : Text

unfoldable pub has_key : NaturalKey → Row → Bool
has_key k r =
    text_eq r.chat k.chat
    && (r.msg_id == k.msg_id)
    && text_eq r.action k.action
    && text_eq r.intent_key k.intent_key
    && not (is_superseded r.status)

unfoldable pub key_of : Row → NaturalKey
key_of r = record { chat = r.chat; msg_id = r.msg_id; action = r.action; intent_key = r.intent_key }

-- `SELECT * … WHERE action_id=?`
unfoldable pub find : Text → Table → Option Row
find id [] = none
find id (r ∷ t) = if text_eq r.action_id id then some r else find id t

-- `SELECT * … WHERE chat=? AND msg_id=? AND action=? AND intent_key=? AND status!='superseded'`
unfoldable pub find_key : NaturalKey → Table → Option Row
unfolding has_key
find_key k [] = none
find_key k (r ∷ t) = if has_key k r then some r else find_key k t

-- Whether the unique index refuses a row beside the rows of other ids.
unfoldable pub collides : Row → Table → Bool
unfolding has_key key_of
collides r [] = false
collides r (q ∷ t) = (not (text_eq q.action_id r.action_id) && has_key (key_of r) q) || collides r t

unfoldable pub conflict : Row → Table → Bool
unfolding collides
conflict r t = not (is_superseded r.status) && collides r t

unfoldable pub replace : Row → Table → Table
replace r [] = []
replace r (q ∷ t) = if text_eq q.action_id r.action_id then r ∷ t else q ∷ replace r t

-- `UPDATE … WHERE action_id=?`; `none` is the `IntegrityError` of the unique index
unfoldable pub update : (Row → Row) → Text → Table → Option Table
unfolding conflict replace
update f id t = elim (find id t) [
  | none ↦ some t
  | some r ↦ if conflict (f r) t then none else some (replace (f r) t)
]

-- `INSERT OR IGNORE`
unfoldable pub insert_or_ignore : Row → Table → Table
insert_or_ignore r t = if is_some (find r.action_id t) || conflict r t then t else t ++ r ∷ []
