-- ===== src/Search/Stock.antt =====
-- `parseProductQuery` of src/interfaces/ai/nlp-search.service.ts, and what its filter on the stock does.
use node_b2b_orders.Base.{
  ℕ, String, ◌≡◌, Bool, true, false, ◌||◌, Option, none, some, List, [], ◌∷◌, arith, if◌then◌else◌,
}
use node_b2b_orders.Sorting.{SortOrder, asc, desc}
use node_b2b_orders.Search.{Query}

pub record ParsedProductQuery : Type 0 where
  pub category : Option String
  pub min_price : Option ℕ
  pub max_price : Option ℕ
  pub in_stock : Option Bool
  pub limit : Option ℕ
  pub sort_by : Option String
  pub sort_order : Option SortOrder

-- `entre` overwrites the bounds; `r$` is a maximum where there is no other bound.
abbrev min_price : Query → Option ℕ
min_price q = elim q.entre [ some (low, high) ↦ some low | none ↦ q.above ]

abbrev or_rs : Query → Option ℕ
or_rs q = elim q.above [ some _ ↦ q.below | none ↦ elim q.below [ some n ↦ some n | none ↦ q.rs ] ]

abbrev max_price : Query → Option ℕ
max_price q = elim q.entre [ some (low, high) ↦ some high | none ↦ or_rs q ]

unfoldable pub stock_filter : (String → Bool) → Option Bool
stock_filter has =
    if has "em estoque" || has "disponivel"
    then some true
    else if has "sem estoque" || (has "esgotado" || has "indisponivel")
    then some false
    else none

abbrev categories : List String
categories =
    "eletronico" ∷ "eletronicos" ∷ "informatica" ∷ "moveis" ∷ "movel" ∷ "roupa" ∷ "roupas"
    ∷ "vestuario" ∷ "alimento" ∷ "alimentos" ∷ "bebida" ∷ "bebidas" ∷ "ferramenta" ∷ "ferramentas"
    ∷ "brinquedo" ∷ "brinquedos" ∷ "esporte" ∷ "esportes" ∷ "livro" ∷ "livros" ∷ "papelaria"
    ∷ "escritorio" ∷ "higiene" ∷ "limpeza" ∷ "automotivo" ∷ "jardim" ∷ "pet" ∷ "saude" ∷ "beleza"
    ∷ "cosmetico" ∷ "cosmeticos" ∷ []

abbrev first_word : (String → Bool) → List String → Option String
first_word has [] = none
first_word has (word ∷ rest) =
    let later = first_word has rest in if has word then some word else later

abbrev product_limit : Query → Option ℕ
product_limit q = elim q.top [ some n ↦ some n | none ↦ q.primeiros ]

-- The key of the order, and the order.
abbrev product_sort : (String → Bool) → Option (String × SortOrder)
product_sort has =
    if has "mais vendido" || (has "mais vendidos" || has "popular")
    then some ("sales", desc)
    else if has "mais caro" || has "maior preco"
    then some ("price", desc)
    else if has "mais barato" || has "menor preco"
    then some ("price", asc)
    else if has "melhor avaliado" || (has "mais bem avaliado" || has "melhor nota")
    then some ("rating", desc)
    else if has "mais recente" || (has "lancamento" || has "novo")
    then some ("createdAt", desc)
    else none

abbrev sort_key : Option (String × SortOrder) → Option String
sort_key none = none
sort_key (some (key, order)) = some key

abbrev sort_direction : Option (String × SortOrder) → Option SortOrder
sort_direction none = none
sort_direction (some (key, order)) = some order

unfoldable pub parse_product_query : Query → ParsedProductQuery
unfolding stock_filter
parse_product_query q = record {
  category = first_word q.has categories;
  min_price = min_price q;
  max_price = max_price q;
  in_stock = stock_filter q.has;
  limit = product_limit q;
  sort_by = sort_key (product_sort q.has);
  sort_order = sort_direction (product_sort q.has);
}

-- A query that has `disponivel` asks for what is in stock, also where it has it inside `indisponivel`.
pub unavailable_is_available :
    (has : String → Bool) → has "disponivel" ≡ true → stock_filter has ≡ some true
unfolding stock_filter
unavailable_is_available has inside = rw inside (ground arith)
