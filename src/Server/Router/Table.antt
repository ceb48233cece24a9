-- ===== src/Server/Router/Table.antt =====
-- The router against the table of its routes.
use cwmp_acs_go.Prelude.{
  String, false, List, [], ◌∷◌, ◌≡◌, ◌≢◌, refl, sym, ◌∙◌, ap, inl, inr, In, All, All-In, arith,
  eq_iff, ◌==◌, Bool-cases, subst,
}
use cwmp_acs_go.Server.Router.{
  Route, Routed, calls, answers, search, router, routing_table, method_not_allowed, path_not_found,
}

-- What the routes say of a request: the route of its path and its method is taken; the path has a
-- route, but none with the method; or the path has no route.
pub data Routing (path method : String) (routes : List Route) : Routed → Type 0 where
  matches :
      (r : Route)
      → In r routes
      → r.path ≡ path
      → r.method ≡ method
      → Routing path method routes (calls r.handler)
  wrong_method :
      (r : Route)
      → In r routes
      → r.path ≡ path
      → ((q : Route) → In q routes → q.path ≡ path → q.method ≢ method)
      → Routing path method routes (answers method_not_allowed)
  unknown :
      ((q : Route) → In q routes → q.path ≢ path)
      → Routing path method routes (answers path_not_found)

abbrev HasDistinctPaths : List Route → Type 0
HasDistinctPaths [] = Unit {0}
HasDistinctPaths (r ∷ routes) = All (λ q. q.path ≢ r.path) routes × HasDistinctPaths routes

module _ (path method : String) where
  -- A route of another path in front changes nothing.
  Routing-behind :
      (r : Route) (routes : List Route) (a : Routed)
      → r.path ≢ path
      → Routing path method routes a
      → Routing path method (r ∷ routes) a
  Routing-behind r routes _ other (matches q h e m) = matches q (inr h) e m
  Routing-behind r routes _ other (wrong_method q h e none) = wrong_method q (inr h) e (λ p i.
      elim i [
        | inl same ↦ λ s. absurd (other (ap (λ (x : Route). x.path) same ∙ s))
        | inr i' ↦ none p i'
      ])
  Routing-behind r routes _ other (unknown none) = unknown (λ p i. elim i [
    | inl same ↦ λ s. other (ap (λ (x : Route). x.path) same ∙ s)
    | inr i' ↦ none p i'
  ])

  search-Routing :
      (routes : List Route)
      → HasDistinctPaths routes
      → Routing path method routes (search routes path method)
  unfolding search
  search-Routing [] distinct = unknown (λ q h. absurd h)
  search-Routing (r ∷ routes) (apart, distinct) = elim (Bool-cases (path == r.path)) [
    | inl e ↦
        let own = (eq_iff path r.path).0 e in
        elim (Bool-cases (method == r.method)) [
          | inl m ↦ rw (e, m) (matches r (inl refl) (sym own) (sym ((eq_iff method r.method).0 m)))
          | inr n ↦
              rw (e, n)
                (wrong_method r (inl refl) (sym own) (λ q h p. elim h [
                  | inl same ↦
                      subst (λ (x : Route). x.method ≢ method) same
                        (ground (arith, n, eq_iff method r.method))
                  | inr later ↦
                      absurd
                        (All-In (λ (x : Route). x.path ≢ r.path) q routes apart later (p ∙ own))
                ]))
        ]
    | inr n ↦ rw n (
        Routing-behind r routes _ (ground (arith, n, eq_iff path r.path))
          (search-Routing routes distinct))
  ]

distinct_names : (s t : String) → (s == t) ≡ false → s ≢ t
distinct_names s t h = ground (arith, h, eq_iff s t)

-- A request whose path and method have a route in the router's table goes to the handler of that route;
-- one whose path has a route, but none with its method, is answered with 405; any other with 404.
pub router-Routing : (path method : String) → Routing path method routing_table (router path method)
unfolding router
router-Routing path method = search-Routing path method routing_table (
  (distinct_names _ _ refl, (distinct_names _ _ refl, (distinct_names _ _ refl, tt))),
  (
    (distinct_names _ _ refl, (distinct_names _ _ refl, tt)),
    ((distinct_names _ _ refl, tt), (tt, tt)),
  ),
)
