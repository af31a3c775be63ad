-- ===== src/Rbac/Resolve/Chain.antt =====
-- internal/rbac/repo.go: what `Resolve` finds readable, against the parent chain of docs/SPEC.md,
-- section 6.
use baseline.Namespaces.{Namespace}
use baseline.Prelude.{
  ℕ, zero, suc, ◌≡◌, subst, ◌⊎◌, ◌↔◌, inl, inr, true, ◌&&◌, not, some, List, [], ◌∷◌, ◌++◌, any,
  length, arith, In, In-append, In-append_left, In-append_right, In-filter, filter-In, any-In,
  In-any, Bool-cases, ◌==◌, nat_eq, eq_of_==, Text, text_eq,
}
use baseline.Rbac.Resolve.{points_to, has_id, is_member, granted, is_fresh, fresh, climb, ancestors}
use baseline.Rbac.Resolve.Climb.{Readable, fresh-In}
use baseline.Store.{Membership}

module _ (principal : Text) (ms : List Membership) (ns : List Namespace) where
  -- What every round keeps.
  record Sweep (seen working : List Namespace) : Type 0 where
    sound : (n : Namespace) → In n seen → Readable principal ms ns n
    below : (n : Namespace) → In n working → In n seen
    full : (n : Namespace) → In n ns → has_id n.id seen ≡ true → In n seen
    closed :
        (n : Namespace)
        → In n seen
        → In n working ⊎ ((m : Namespace) → In m ns → points_to n.parent_id m.id ≡ true → In m seen)
    seeded : (n : Namespace) → In n ns → any (is_member principal n.id) ms ≡ true → In n seen

  granted-Sweep : Sweep (granted principal ms ns) (granted principal ms ns)
  unfolding granted
  granted-Sweep = record {
    sound = λ n i.
        let (j, h) = In-filter (λ k. any (is_member principal k.id) ms) n ns i in Readable.held j h;
    below = λ n i. i;
    full = λ n i h.
        let (k, j, e) = any-In (λ k. k.id == n.id) (granted principal ms ns) h in
        let (_, g) = In-filter (λ k. any (is_member principal k.id) ms) k ns j in
        filter-In (λ k. any (is_member principal k.id) ms) n ns i
          (subst (λ x. any (is_member principal x) ms ≡ true) (eq_of_== k.id n.id e) g);
    closed = λ n i. inl i;
    seeded = λ n i h. filter-In (λ k. any (is_member principal k.id) ms) n ns i h;
  }

  module _ (seen working : List Namespace) (v : Sweep seen working) where
    fresh-Readable : (m : Namespace) → In m (fresh ns seen working) → Readable principal ms ns m
    fresh-Readable m i =
        let (j, h, _) = fresh-In ns seen working m i in
        let (a, k, points) = any-In (λ (a : Namespace). points_to a.parent_id m.id) working h in
        Readable.parent (v.sound a (v.below a k)) j points

    -- A row is kept by its ID alone.
    fresh-full :
        (n : Namespace)
        → In n ns
        → has_id n.id (fresh ns seen working) ≡ true
        → In n (fresh ns seen working)
    unfolding fresh
    fresh-full n i h =
        let (k, j, e) = any-In (λ (k : Namespace). k.id == n.id) (fresh ns seen working) h in
        let (_, f) = In-filter (is_fresh seen working) k ns j in
        filter-In (is_fresh seen working) n ns i (
          subst
            (λ x.
              (any (λ (a : Namespace). points_to a.parent_id x) working && not (has_id x seen))
              ≡ true)
            (eq_of_== k.id n.id e) f)

    has_id-append :
        (id : ℕ) (xs : List Namespace)
        → has_id id (seen ++ xs) ≡ true
        → (has_id id seen ≡ true) ⊎ (has_id id xs ≡ true)
    has_id-append id xs h =
        let (k, j, e) = any-In (λ (k : Namespace). k.id == id) (seen ++ xs) h in
        elim (In-append k seen xs j) [
          | inl l ↦ inl (In-any (λ (k : Namespace). k.id == id) k seen l e)
          | inr r ↦ inr (In-any (λ (k : Namespace). k.id == id) k xs r e)
        ]

    -- The parent of a row of the last round is there after this one.
    parent-In :
        (n m : Namespace)
        → In n working
        → In m ns
        → points_to n.parent_id m.id ≡ true
        → In m (seen ++ fresh ns seen working)
    unfolding fresh
    parent-In n m i j h = elim (Bool-cases (has_id m.id seen)) [
      | inl old ↦ In-append_left m seen (fresh ns seen working) (v.full m j old)
      | inr new ↦
          let points = In-any (λ (a : Namespace). points_to a.parent_id m.id) n working i h in
          In-append_right m seen (fresh ns seen working)
            (filter-In (is_fresh seen working) m ns j (ground (arith, points, new)))
    ]

    fresh-Sweep : Sweep (seen ++ fresh ns seen working) (fresh ns seen working)
    fresh-Sweep =
        let next = fresh ns seen working in
        record {
          sound = λ n i. elim (In-append n seen next i) [
            | inl l ↦ v.sound n l
            | inr r ↦ fresh-Readable n r
          ];
          below = λ n i. In-append_right n seen next i;
          full = λ n i h. elim (has_id-append n.id next h) [
            | inl l ↦ In-append_left n seen next (v.full n i l)
            | inr r ↦ In-append_right n seen next (fresh-full n i r)
          ];
          closed = λ n i. elim (In-append n seen next i) [
            | inl l ↦ inr (λ m j h. elim (v.closed n l) [
              | inl w ↦ parent-In n m w j h
              | inr done ↦ In-append_left m seen next (done m j h)
            ])
            | inr r ↦ inl r
          ];
          seeded = λ n i h. In-append_left n seen next (v.seeded n i h);
        }

  climb-Sweep :
      (fuel : ℕ) (seen working r : List Namespace)
      → Sweep seen working
      → climb fuel ns seen working ≡ some r
      → Sweep r []
  unfolding climb
  climb-Sweep zero seen [] r v h = subst (λ x. Sweep x []) (ground arith) v
  climb-Sweep (suc fuel) seen [] r v h = subst (λ x. Sweep x []) (ground arith) v
  climb-Sweep zero seen (w ∷ working) r v h = cc
  climb-Sweep (suc fuel) seen (w ∷ working) r v h =
      let next = fresh ns seen (w ∷ working) in
      climb-Sweep fuel (seen ++ next) next r (fresh-Sweep seen (w ∷ working) v) h

  Readable-In :
      (r : List Namespace) → Sweep r [] → (n : Namespace) → Readable principal ms ns n → In n r
  Readable-In r v n (Readable.held i h) = v.seeded n i h
  Readable-In r v n (Readable.parent {n = k} d j h) = elim (v.closed k (Readable-In r v k d)) [
    | inl none_left ↦ elim none_left [ ]
    | inr done ↦ done n j h
  ]

  -- The rows of the recursive query are the readable namespaces.
  pub ancestors_iff_Readable :
      (r : List Namespace) (n : Namespace)
      → ancestors principal ms ns ≡ some r
      → In n r ↔ Readable principal ms ns n
  unfolding ancestors
  ancestors_iff_Readable r n h =
      let seed = granted principal ms ns in
      let v = climb-Sweep (length ns) seed seed r granted-Sweep h in (v.sound n, Readable-In r v n)
