-- ===== src/Metrics.antt =====
-- internal/metrics/metrics.go: the gauges, as queries on the tables. A time is in seconds, and what a
-- collection observes is a list.
pub mod Depths
pub mod Ending
use baseline.Facts.{Fact, is_active, status_eq}
use baseline.Prelude.{
  ℕ, suc, ◌+◌, ◌*◌, Bool, true, false, ◌&&◌, ◌||◌, Option, none, some, is_some, List, [], ◌∷◌, ◌++◌,
  map, filter, length, leb, if◌then◌else◌, ◌==◌, nat_eq,
}
use baseline.Promotions.{PromotionRequest, State, pending, in_review, state_eq}
use baseline.Store.{Db, Session, Tx, Outcome, done, fail, exec, on_pool}

pub data Observation : Type 0 where
  facts_active facts_expiring_24h conflicts_open : ℕ → Observation
  promotion_queue_depth : ℕ → ℕ → Observation

abbrev pub ends_by : ℕ → Option ℕ → Bool
ends_by time none = false
ends_by time (some t) = leb t time

abbrev pub is_ending : ℕ → Fact → Bool
is_ending now f = is_active f && ends_by (now + 86_400) f.valid_to

abbrev pub is_waiting : PromotionRequest → Bool
is_waiting p = p.state == pending || p.state == in_review

unfoldable pub count_active : Db → ℕ
unfolding filter
count_active db = length (filter is_active db.facts)

unfoldable pub count_ending : ℕ → Db → ℕ
unfolding filter
count_ending now db = length (filter (is_ending now) db.facts)

unfoldable pub count_conflicts : Db → ℕ
unfolding filter
count_conflicts db = length (filter (λ p. is_waiting p && is_some p.conflict_with) db.promotions)

-- One row more in the group of the namespace.
unfoldable pub bump : ℕ → List (ℕ × ℕ) → List (ℕ × ℕ)
bump ns [] = (ns, 1) ∷ []
bump ns ((k, n) ∷ groups) =
    let rest = bump ns groups in if k == ns then (k, suc n) ∷ groups else (k, n) ∷ rest

-- `GROUP BY`, in the order of one plan; SQL leaves the order open.
unfoldable pub group_open : List PromotionRequest → List (ℕ × ℕ)
unfolding bump
group_open [] = []
group_open (p ∷ ps) =
    let groups = group_open ps in if is_waiting p then bump p.target_namespace_id groups else groups

unfoldable pub scalar : (ℕ → Db → ℕ) → Tx ℕ
unfolding exec on_pool
scalar count = on_pool (exec (λ now db. some (count now db, db)))

-- A query that fails leaves its gauge out.
abbrev pub observed : Outcome ℕ → (ℕ → Observation) → List Observation × Session
observed (done n s) gauge = (gauge n ∷ [], s)
observed (fail e s) gauge = ([], s)

abbrev pub depth_of : ℕ × ℕ → Observation
depth_of (ns, n) = promotion_queue_depth ns n

unfoldable pub observe_queue_depth : Tx (List Observation)
unfolding exec on_pool group_open
observe_queue_depth = on_pool (exec (λ now db. some (map depth_of (group_open db.promotions), db)))

abbrev pub behind :
    List Observation → Outcome (List Observation) → List Observation × Bool × Session
behind seen (done depths s) = (seen ++ depths, true, s)
behind seen (fail e s) = (seen, false, s)

-- One collection: what it observes, and whether the callback returns no error.
unfoldable pub collect_gauges : Session → List Observation × Bool × Session
unfolding scalar count_active count_ending count_conflicts observe_queue_depth
collect_gauges s =
    let (active, s1) = observed (scalar (λ now db. count_active db) s) facts_active in
    let (ending, s2) = observed (scalar count_ending s1) facts_expiring_24h in
    let (conflicts, s3) = observed (scalar (λ now db. count_conflicts db) s2) conflicts_open in
    behind (active ++ ending ++ conflicts) (observe_queue_depth s3)
