-- ===== src/Auth/Texts.antt =====
-- `Array.from(new Set(texts)).sort()` of auth.service.ts. Texts are sorted by code points, which is
-- the order of the runtime for the codes of permissions.
use Prim.Native.Nat.{Ordering}
use Prim.Native.String.{compare}
use node_b2b_orders.Base.{
  String, ◌≡◌, refl, ap, ◌∙◌, Bool, true, false, ◌||◌, List, [], ◌∷◌, str_eq, eq_iff, arith,
  Bool-cases, inl, inr,
}
use node_b2b_orders.Queries.{includes, distinct, distinct_from}

abbrev before : String → Ordering → String → List String → List String → List String
before s Ordering.gt t ts rest = t ∷ rest
before s Ordering.lt t ts rest = s ∷ t ∷ ts
before s Ordering.eq t ts rest = s ∷ t ∷ ts

unfoldable pub insert_text : String → List String → List String
insert_text s [] = s ∷ []
insert_text s (t ∷ ts) = before s (compare s t) t ts (insert_text s ts)

unfoldable pub sort_texts : List String → List String
unfolding insert_text
sort_texts [] = []
sort_texts (s ∷ rest) = insert_text s (sort_texts rest)

or_swap : (a b c : Bool) → (a || (b || c)) ≡ (b || (a || c))
or_swap true true c = refl
or_swap true false c = refl
or_swap false b c = refl

includes-before :
    (p s : String) (o : Ordering) (t : String) (ts rest : List String)
    → includes p rest ≡ (str_eq s p || includes p ts)
    → includes p (before s o t ts rest) ≡ (str_eq s p || (str_eq t p || includes p ts))
includes-before p s Ordering.gt t ts rest e =
    ap (λ b. str_eq t p || b) e ∙ or_swap (str_eq t p) (str_eq s p) (includes p ts)
includes-before p s Ordering.lt t ts rest e = refl
includes-before p s Ordering.eq t ts rest e = refl

includes-insert_text :
    (p s : String) (ts : List String)
    → includes p (insert_text s ts) ≡ (str_eq s p || includes p ts)
unfolding insert_text
includes-insert_text p s [] = refl
includes-insert_text p s (t ∷ ts) =
    includes-before p s (compare s t) t ts (insert_text s ts) (includes-insert_text p s ts)

pub includes-sort_texts :
    (p : String) (ts : List String) → includes p (sort_texts ts) ≡ includes p ts
unfolding sort_texts
includes-sort_texts p [] = refl
includes-sort_texts p (t ∷ ts) =
    includes-insert_text p t (sort_texts ts) ∙ ap (λ b. str_eq t p || b) (includes-sort_texts p ts)

-- A text that has been seen adds nothing to what has been seen.
or_seen :
    (p t : String) (seen ts : List String)
    → includes t seen ≡ true
    → (includes p seen || includes p ts) ≡ (includes p seen || (str_eq t p || includes p ts))
or_seen p t seen ts h = elim (Bool-cases (str_eq t p)) [
  | inl same ↦
      let hit : includes p seen ≡ true = rw (← (eq_iff t p).0 same) h in ground (arith, hit, same)
  | inr other ↦ rw other refl
]

-- What has been seen is left out, and the rest is kept.
includes-distinct_from :
    (p : String) (seen ts : List String)
    → (includes p seen || includes p (distinct_from seen ts)) ≡ (includes p seen || includes p ts)
unfolding distinct_from
includes-distinct_from p seen [] = refl
includes-distinct_from p seen (t ∷ ts) = elim (Bool-cases (includes t seen)) [
  | inl old ↦ rw old (includes-distinct_from p seen ts ∙ or_seen p t seen ts old)
  | inr new ↦ let ih = includes-distinct_from p (t ∷ seen) ts in rw new (ground (arith, ih))
]

pub includes-distinct : (p : String) (ts : List String) → includes p (distinct ts) ≡ includes p ts
unfolding distinct
includes-distinct p ts = includes-distinct_from p [] ts
