-- ===== src/Facts/Repo.antt =====
-- internal/facts/repo.go: the statements on the table of facts, under the constraints of
-- internal/store/migrations/00001_init.sql. The range of the int column `version` is not modelled.
pub mod Writes
use baseline.Store.{
  Tx, pure, raise, guard, Statement, exec, Db, fact_not_found, version_conflict, cannot_revoke,
  Outcome, done, fail, ◌>>=◌, ◌>>◌,
}
use baseline.Prelude.{
  ℕ, suc, ◌+◌, Bool, true, false, ◌&&◌, not, Option, none, some, List, [], ◌∷◌, ◌++◌, length, any,
  contains, if◌then◌else◌, ◌==◌, nat_eq, Text, text_eq, text, is_some, is_int, ℤ,
}
use baseline.Namespaces.{Namespace}
use baseline.Facts.Key.{canonical_key}
use baseline.Facts.{Fact, Status, active, revoked, superseded, is_active, status_eq}
use baseline.Store.Table.{find, modify}

abbrev pub fact_key : Fact → ℕ
fact_key f = f.id

-- facts_active_unique: another active fact has the namespace and the canonical key of `f`.
abbrev pub same_slot : Fact → Fact → Bool
same_slot f g = g.namespace_id == f.namespace_id && g.canonical_key == f.canonical_key

unfoldable pub clashes : Fact → List Fact → Bool
unfolding any
clashes f fs = any (λ g. not (g.id == f.id) && is_active g && same_slot f g) fs

abbrev pub exists_fact : List Fact → ℕ → Bool
exists_fact fs id = is_some (find fact_key id fs)

-- A foreign key: NULL, or the ID of a row.
abbrev pub references : List Fact → Option ℕ → Bool
references fs none = true
references fs (some id) = exists_fact fs id

abbrev pub has_width : Option (List ℕ) → Bool
has_width none = true
has_width (some v) = length v == 768

-- What the schema asks of a row that is written.
unfoldable pub admits : List Fact → Fact → Bool
unfolding clashes find
admits fs f =
    not (is_active f && clashes f fs)
    && references fs f.supersedes_id
    && references fs f.superseded_by_id
    && has_width f.embedding

abbrev pub write_row : (Fact → Fact) → Fact → Db → Option (Bool × Db)
write_row set f db =
    if admits db.facts (set f)
    then some (true, record db { facts = modify fact_key f.id set db.facts })
    else none

-- `UPDATE facts SET … WHERE id = $1 AND …`; the answer says whether a row was affected.
abbrev pub update_row : (Fact → Bool) → (Fact → Fact) → Option Fact → Db → Option (Bool × Db)
update_row where_ set none db = some (false, db)
update_row where_ set (some f) db = if where_ f then write_row set f db else some (false, db)

unfoldable pub update : ℕ → (Fact → Bool) → (ℕ → Fact → Fact) → Statement Bool
unfolding admits modify find
update id where_ set now db = update_row where_ (set now) (find fact_key id db.facts) db

abbrev pub any_row : Fact → Bool
any_row f = true

-- The columns that every status change sets.
abbrev pub stamp : Status → ℕ → Fact → Fact
stamp to now f = record f { status = to; version = f.version + 1; updated_at = now }

abbrev pub with_vector : List ℕ → ℕ → Fact → Fact
with_vector vec now f = record f { embedding = some vec }

abbrev pub activated : List Text → ℕ → Fact → Fact
activated approved_by now f = record (stamp active now f) {
  valid_from = some now;
  approved_by = approved_by;
}

abbrev pub superseded_with : ℕ → ℕ → Fact → Fact
superseded_with new_id now f = record (stamp superseded now f) { superseded_by_id = some new_id }

abbrev pub linked_to : ℕ → ℕ → Fact → Fact
linked_to old_id now f = record f { supersedes_id = some old_id; updated_at = now }

-- `tag.RowsAffected() == 0`.
abbrev pub affected : Bool → Tx (Unit {0})
affected hit = guard hit fact_not_found

abbrev pub or_fact_not_found : Option Fact → Tx Fact
or_fact_not_found none = raise fact_not_found
or_fact_not_found (some f) = pure f

unfoldable pub get : ℕ → Tx Fact
unfolding exec find
get id = do found ← exec (λ now db. some (find fact_key id db.facts, db)); or_fact_not_found found

unfoldable pub first : (Fact → Bool) → List Fact → Option Fact
first p [] = none
first p (f ∷ fs) = if p f then some f else first p fs

unfoldable pub find_active_by_key : ℕ → Text → Tx Fact
unfolding exec first
find_active_by_key ns key = do
  found ← exec (λ now db.
      some
        (first (λ f. f.namespace_id == ns && f.canonical_key == key && is_active f) db.facts, db))
  or_fact_not_found found

abbrev pub has_namespace : Db → ℕ → Bool
has_namespace db ns = is_some (find (λ (n : Namespace). n.id) ns db.namespaces)

-- The row that an INSERT makes of the columns it is given.
abbrev pub new_row : ℕ → ℕ → Fact → Fact
new_row id now f = record f {
  id = id;
  superseded_by_id = none;
  embedding = none;
  approved_by = [];
  version = 1;
  created_at = now;
  updated_at = now;
}

unfoldable pub insert_row : Fact → Statement Fact
unfolding admits find
insert_row f now db =
    let r = new_row db.next_id now f in
    if has_namespace db f.namespace_id && admits db.facts r
    then some (r, record db { facts = db.facts ++ r ∷ []; next_id = suc db.next_id })
    else none

-- The canonical key is derived here, whatever the argument holds.
unfoldable pub insert : Fact → Tx Fact
unfolding exec insert_row
insert f = exec (insert_row (record f { canonical_key = canonical_key f.subject }))

unfoldable pub set_embedding : ℕ → List ℕ → Tx (Unit {0})
unfolding exec update
set_embedding id vec = do exec (update id any_row (with_vector vec)); pure tt

unfoldable pub set_status : ℕ → Status → Tx (Unit {0})
unfolding exec update
set_status id to = do hit ← exec (update id any_row (stamp to)); affected hit

unfoldable pub activate : ℕ → List Text → Tx (Unit {0})
unfolding exec update
activate id approved_by = do hit ← exec (update id any_row (activated approved_by)); affected hit

-- The diagnosis after an UPDATE that affected no row.
abbrev pub diagnose : Outcome Fact → Outcome (Unit {0})
diagnose (done f s) =
    if f.status == active then fail version_conflict s else fail (cannot_revoke f.status) s
diagnose (fail fact_not_found s) = fail fact_not_found s
diagnose (fail _ s) = fail version_conflict s

abbrev pub revoked_or_diagnose : ℕ → Bool → Tx (Unit {0})
revoked_or_diagnose id true s = done tt s
revoked_or_diagnose id false s = diagnose (get id s)

abbrev pub is_current : ℤ → Fact → Bool
is_current expected_version f = is_int f.version expected_version && is_active f

unfoldable pub revoke_with_version : ℕ → ℤ → Tx (Unit {0})
unfolding exec update get
revoke_with_version id expected_version = do
  hit ← exec (update id (is_current expected_version) (stamp revoked))
  revoked_or_diagnose id hit

-- `array_agg(DISTINCT t)`: each tag once, in an order that SQL leaves open.
unfoldable pub distinct_tags : List Text → List Text
unfolding contains
distinct_tags [] = []
distinct_tags (t ∷ ts) = let rest = distinct_tags ts in if contains t ts then rest else t ∷ rest

abbrev pub auto_activated : ℕ → Fact → Fact
auto_activated now f = record (stamp active now f) {
  valid_from = some now;
  tags = distinct_tags (f.tags ++ text "auto:true" ∷ []);
}

unfoldable pub activate_auto : ℕ → Tx (Unit {0})
unfolding exec update distinct_tags
activate_auto id = do hit ← exec (update id any_row auto_activated); affected hit

unfoldable pub supersede : ℕ → ℕ → Tx (Unit {0})
unfolding exec update
supersede old_id new_id = do
  exec (update old_id any_row (superseded_with new_id))
  exec (update new_id any_row (linked_to old_id))
  pure tt
