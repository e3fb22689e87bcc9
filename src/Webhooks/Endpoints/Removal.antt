-- ===== src/Webhooks/Endpoints/Removal.antt =====
-- An endpoint that was deleted.
use node_b2b_orders.Base.{
  String, ◌≡◌, refl, not, none, List, [], ◌∷◌, str_eq, arith, err, Bool-cases, inl, inr,
  Option-cases,
}
use node_b2b_orders.Queries.{find_many, find_first}
use node_b2b_orders.Webhooks.{Endpoint, Tables}
use node_b2b_orders.Webhooks.Endpoints.{owned, endpoint_missing, delete_endpoint, list_deliveries}

find_first-find_many :
    (id tenant : String) (eps : List Endpoint)
    → find_first (owned id tenant) (find_many (λ e. not (str_eq e.id id)) eps) ≡ none
find_first-find_many id tenant [] = refl
find_first-find_many id tenant (ep ∷ rest) = elim (Bool-cases (str_eq ep.id id)) [
  | inl e ↦ rw e (find_first-find_many id tenant rest)
  | inr e ↦ ground (arith, find_first-find_many id tenant rest)
]

-- After a call to delete an endpoint, whether it was there and of the tenant or not, the endpoint's
-- deliveries are refused to the tenant with `not found`.
pub delete_endpoint-list_deliveries :
    (id tenant : String) (t : Tables)
    → list_deliveries id tenant (delete_endpoint id tenant t).1 ≡ err endpoint_missing
unfolding delete_endpoint list_deliveries
delete_endpoint-list_deliveries id tenant t =
    elim (Option-cases (find_first (owned id tenant) t.endpoints)) [
      | inl e ↦ ground (arith)
      | inr (ep, e) ↦ ground (arith, find_first-find_many id tenant t.endpoints)
    ]
