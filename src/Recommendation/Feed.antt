-- ===== src/Recommendation/Feed.antt =====
-- The personalized feed.
use node_b2b_orders.Base.{
  ap, eq_refl, ℕ, ◌≤◌, String, ◌≡◌, ◌≢◌, true, false, List, [], ◌∷◌, ◌++◌, map, length, All, arith,
  Bool-cases, inl, inr,
}
use node_b2b_orders.Queries.{includes, All-append}
use node_b2b_orders.Ranking.{IsDescending}
use node_b2b_orders.Ranking.Laws.{HasDistinct, top-HasDistinct, top_lem}
use node_b2b_orders.Sales.{OrderRow}
use node_b2b_orders.Recommendation.{
  FeedItem, FeedState, see, empty_feed, from_collaborative, from_trending,
  recommendations_for_customer, trending_products, add_unseen, personalized_feed,
}

-- The items of the feed are seen, and their SKUs differ.
abbrev IsFeed : FeedState → Type 0
IsFeed s =
    All (λ f. includes f.sku s.seen ≡ true) s.feed × HasDistinct (λ (f : FeedItem). f.sku) s.feed

seen_more :
    (sku : String) (seen : List String) (feed : List FeedItem)
    → All (λ f. includes f.sku seen ≡ true) feed
    → All (λ f. includes f.sku (sku ∷ seen) ≡ true) feed
seen_more sku seen [] h = tt
seen_more sku seen (f ∷ feed) h = (ground (arith, h.0), seen_more sku seen feed h.1)

-- Those seen differ from one that is not.
unseen_ne :
    (sku : String) (seen : List String) (f : FeedItem)
    → includes sku seen ≡ false
    → includes f.sku seen ≡ true
    → f.sku ≢ sku
unseen_ne sku seen f new old = λ e. cc (ap (λ s. includes s seen) e)

append-HasDistinct :
    (seen : List String) (item : FeedItem) (feed : List FeedItem)
    → includes item.sku seen ≡ false
    → All (λ f. includes f.sku seen ≡ true) feed
    → HasDistinct (λ (f : FeedItem). f.sku) feed
    → HasDistinct (λ (f : FeedItem). f.sku) (feed ++ item ∷ [])
append-HasDistinct seen item [] new old d = (tt, tt)
append-HasDistinct seen item (f ∷ feed) new old d = (
  All-append (λ (g : FeedItem). f.sku ≢ g.sku) feed (item ∷ []) d.0
      (unseen_ne item.sku seen f new old.0, tt),
  append-HasDistinct seen item feed new old.1 d.1,
)

see-IsFeed : (item : FeedItem) (s : FeedState) → IsFeed s → IsFeed (see item s)
unfolding see
see-IsFeed item s h = elim (Bool-cases (includes item.sku s.seen)) [
  | inl old ↦ rw old h
  | inr new ↦ rw new (
    All-append (λ (f : FeedItem). includes f.sku (item.sku ∷ s.seen) ≡ true) s.feed (item ∷ [])
        (seen_more item.sku s.seen s.feed h.0) (ground (arith, eq_refl item.sku), tt),
    append-HasDistinct s.seen item s.feed new h.0 h.1,
  )
]

add_unseen-IsFeed : (items : List FeedItem) (s : FeedState) → IsFeed s → IsFeed (add_unseen items s)
unfolding add_unseen
add_unseen-IsFeed [] s h = h
add_unseen-IsFeed (item ∷ items) s h = add_unseen-IsFeed items (see item s) (see-IsFeed item s h)

-- The feed of a customer has no product twice, is no longer than the limit, and is in descending order
-- of the scores, although it is made of two lists that may share products.
pub personalized_feed_lem :
    (now : ℕ) (tenant customer : String) (limit : ℕ) (rows : List OrderRow)
    → let feed = personalized_feed now tenant customer limit rows in
      HasDistinct (λ (f : FeedItem). f.sku) feed
      × (length feed ≤ limit)
      × IsDescending (λ (f : FeedItem). f.score) feed
unfolding personalized_feed
personalized_feed_lem now tenant customer limit rows =
    let score : FeedItem → ℕ = λ f. f.score in
    let first = map from_collaborative (recommendations_for_customer tenant customer limit rows) in
    let second = map from_trending (trending_products now tenant 30 limit rows) in
    let merged = add_unseen second (add_unseen first empty_feed) in
    let (_, _, short, down, _) = top_lem score limit merged.feed in
    let good : IsFeed merged =
      add_unseen-IsFeed second _ (add_unseen-IsFeed first empty_feed (tt, tt)) in
    (top-HasDistinct score (λ (f : FeedItem). f.sku) limit merged.feed good.1, short, down)
