-- ===== src/Reaper.antt =====
-- internal/reaper/reaper.go: active facts past the end of their validity become expired.
pub mod Pass
use baseline.Store.{Tx, ◌>>=◌, ◌>>◌, pure, exec, in_tx}
use baseline.Prelude.{
  ℕ, ◌+◌, Bool, false, ◌&&◌, Option, none, some, List, [], ◌∷◌, map, length, filter, ltb, leb, text,
}
use baseline.Audit.Writer.{write}
use baseline.Audit.{Event, empty}
use baseline.Facts.Repo
use baseline.Facts.{Fact, expired, is_active}

pub record Result : Type 0 where
  pub expired : ℕ
  pub expiring_soon : ℕ

abbrev pub at_or_before : Option ℕ → ℕ → Bool
at_or_before none t = false
at_or_before (some v) t = leb v t

abbrev pub after : Option ℕ → ℕ → Bool
after none t = false
after (some v) t = ltb t v

-- WHERE status = 'active' AND valid_to IS NOT NULL AND valid_to <= now()
unfoldable pub is_stale : ℕ → Fact → Bool
is_stale now f = is_active f && at_or_before f.valid_to now

-- Time is counted in seconds.
abbrev pub day : ℕ
day = 86400

unfoldable pub is_expiring : ℕ → Fact → Bool
is_expiring now f = is_active f && after f.valid_to now && at_or_before f.valid_to (now + day)

abbrev pub expired_event : ℕ → Event
expired_event id = record {
  principal = text "system:reaper";
  action = text "fact.expired";
  subject_type = text "fact";
  subject_id = id;
  from_state = text "active";
  to_state = text "expired";
  detail = empty;
}

unfoldable pub expire_all : List ℕ → Tx (Unit {0})
unfolding exec Repo.update write
expire_all [] = pure tt
expire_all (id ∷ ids) = do
  exec (Repo.update id Repo.any_row (Repo.stamp expired))
  write (expired_event id)
  expire_all ids

unfoldable pub select_stale : Tx (List ℕ)
unfolding exec filter is_stale
select_stale = exec (λ now db. some (map (λ f. f.id) (filter (is_stale now) db.facts), db))

unfoldable pub count_expiring : Tx ℕ
unfolding exec filter is_expiring
count_expiring = exec (λ now db. some (length (filter (is_expiring now) db.facts), db))

unfoldable pub reap : Tx Result
unfolding in_tx select_stale expire_all count_expiring
reap = in_tx do
  ids ← select_stale
  expire_all ids
  soon ← count_expiring
  pure (record { expired = length ids; expiring_soon = soon })
