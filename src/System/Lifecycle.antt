-- ===== src/System/Lifecycle.antt =====
-- The life of one order, as a specification that names no table: what may happen to the row of an
-- identifier, and which statuses follow each other.
use node_b2b_orders.Base.{ℕ, String, ◌≡◌, ◌⊎◌, inl, inr, refl, ◌∙◌, subst, Option, none, some}
use node_b2b_orders.Schema.{
  Status, created, reserved, confirmed, cancelled, paid, shipped, delivered, Order,
}
use node_b2b_orders.Orders.{total_amount}
use node_b2b_orders.Orders.Transitions.{SameOrder}

-- One change of a row. The worker reserves and cancels without a look at the status.
pub data Change (o o' : Order) : Type 0 where
  reserving : o' ≡ record o { status = reserved } → Change o o'
  confirming :
      o.status ≡ reserved
      → o' ≡ record o { status = confirmed; total_amount = some (total_amount o.items) }
      → Change o o'
  paying : o.status ≡ confirmed → o' ≡ record o { status = paid } → Change o o'
  shipping :
      (code : String) (url : Option String) (now : ℕ)
      → o.status ≡ paid
      → o' ≡ record o {
        status = shipped;
        tracking_code = some code;
        tracking_url = url;
        shipped_at = some now;
      }
      → Change o o'
  delivering :
      (now : ℕ)
      → o.status ≡ shipped
      → o' ≡ record o { status = delivered; delivered_at = some now }
      → Change o o'
  cancelling : o' ≡ record o { status = cancelled } → Change o o'

-- What the row of one identifier goes through.
pub data Lives : Option Order → Option Order → Type 0 where
  idle : {a : Option Order} → Lives a a
  placed :
      {c : Option Order} (o : Order)
      → o.status ≡ created
      → o.total_amount ≡ none
      → o.tracking_code ≡ none
      → o.shipped_at ≡ none
      → o.delivered_at ≡ none
      → Lives (some o) c
      → Lives none c
  changed : {c : Option Order} (o o' : Order) → Change o o' → Lives (some o') c → Lives (some o) c

pub Lives-trans : {a b c : Option Order} → Lives a b → Lives b c → Lives a c
Lives-trans idle k = k
Lives-trans (placed o p q r s t h) k = placed o p q r s t (Lives-trans h k)
Lives-trans (changed o o' d h) k = changed o o' d (Lives-trans h k)

-- The statuses that may follow each other.
infix 40 ◌⇝◌
pub data ◌⇝◌ : Status → Status → Type 0 where
  to_reserved : (s : Status) → s ⇝ reserved
  to_cancelled : (s : Status) → s ⇝ cancelled
  to_confirmed : reserved ⇝ confirmed
  to_paid : confirmed ⇝ paid
  to_shipped : paid ⇝ shipped
  to_delivered : shipped ⇝ delivered

infix 40 ◌⇝*◌
pub data ◌⇝*◌ : Status → Status → Type 0 where
  here : {s : Status} → s ⇝* s
  then : {s t u : Status} → s ⇝ t → t ⇝* u → s ⇝* u

Change-⇝ : (o o' : Order) → Change o o' → o.status ⇝ o'.status
Change-⇝ o o' (reserving e) = rw e (to_reserved o.status)
Change-⇝ o o' (confirming s e) = rw (e, s) to_confirmed
Change-⇝ o o' (paying s e) = rw (e, s) to_paid
Change-⇝ o o' (shipping code url now s e) = rw (e, s) to_shipped
Change-⇝ o o' (delivering now s e) = rw (e, s) to_delivered
Change-⇝ o o' (cancelling e) = rw e (to_cancelled o.status)

Change-SameOrder : (o o' : Order) → Change o o' → SameOrder o o'
Change-SameOrder o o' (reserving e) =
    rw e record { id = refl; tenant = refl; customer = refl; items = refl }
Change-SameOrder o o' (confirming s e) =
    rw e record { id = refl; tenant = refl; customer = refl; items = refl }
Change-SameOrder o o' (paying s e) =
    rw e record { id = refl; tenant = refl; customer = refl; items = refl }
Change-SameOrder o o' (shipping code url now s e) =
    rw e record { id = refl; tenant = refl; customer = refl; items = refl }
Change-SameOrder o o' (delivering now s e) =
    rw e record { id = refl; tenant = refl; customer = refl; items = refl }
Change-SameOrder o o' (cancelling e) =
    rw e record { id = refl; tenant = refl; customer = refl; items = refl }

SameOrder-trans : (o p q : Order) → SameOrder o p → SameOrder p q → SameOrder o q
SameOrder-trans o p q h k = record {
  id = k.id ∙ h.id;
  tenant = k.tenant ∙ h.tenant;
  customer = k.customer ∙ h.customer;
  items = k.items ∙ h.items;
}

-- A row is there, with the identity of the order, in a status that the order may have reached.
abbrev pub Continues : Order → Option Order → Type 0
Continues o row = (o' : Order) × (row ≡ some o') × SameOrder o o' × (o.status ⇝* o'.status)

continued : (o o' : Order) (row : Option Order) → Change o o' → Continues o' row → Continues o row
continued o o' row d (p, e, same, path) =
    (p, e, SameOrder-trans o o' p (Change-SameOrder o o' d) same, then (Change-⇝ o o' d) path)

pub Lives-Continues : (o : Order) (row : Option Order) → Lives (some o) row → Continues o row
Lives-Continues o row idle =
    (o, refl, record { id = refl; tenant = refl; customer = refl; items = refl }, here)
Lives-Continues o row (changed p o' d h) = continued p o' row d (Lives-Continues o' row h)

-- What a status says of the other columns.
abbrev pub Stage : Status → Order → Type 0
Stage created o = (o.tracking_code ≡ none) × (o.shipped_at ≡ none) × (o.delivered_at ≡ none)
Stage reserved o = Unit
Stage cancelled o = Unit
Stage confirmed o = o.total_amount ≡ some (total_amount o.items)
Stage paid o = o.total_amount ≡ some (total_amount o.items)
Stage shipped o =
    (o.total_amount ≡ some (total_amount o.items))
    × (code : String) × (o.tracking_code ≡ some code)
    × (at : ℕ) × (o.shipped_at ≡ some at)
Stage delivered o =
    (o.total_amount ≡ some (total_amount o.items))
    × (code : String) × (o.tracking_code ≡ some code)
    × (at arrived : ℕ) × (o.shipped_at ≡ some at)
    × (o.delivered_at ≡ some arrived)

-- The total is missing or the sum of the items, and the other columns fit the status.
abbrev pub IsSound : Option Order → Type 0
IsSound none = Unit
IsSound (some o) =
    ((o.total_amount ≡ none) ⊎ (o.total_amount ≡ some (total_amount o.items))) × Stage o.status o

stage : (o : Order) (s : Status) → o.status ≡ s → Stage o.status o → Stage s o
stage o s e h = subst (λ t. Stage t o) e h

Change-IsSound : (o o' : Order) → Change o o' → IsSound (some o) → IsSound (some o')
Change-IsSound o o' (reserving e) (t, h) = rw e (t, tt)
Change-IsSound o o' (confirming s e) (t, h) = rw e (inr refl, refl)
Change-IsSound o o' (paying s e) (t, h) = rw e (t, stage o confirmed s h)
Change-IsSound o o' (shipping code url now s e) (t, h) =
    rw e (t, (stage o paid s h, code, refl, now, refl))
Change-IsSound o o' (delivering now s e) (t, h) =
    let (total, code, tracked, at, sent) = stage o shipped s h in
    rw e (t, (total, code, tracked, at, now, sent, refl))
Change-IsSound o o' (cancelling e) (t, h) = rw e (t, tt)

pub Lives-IsSound : (a b : Option Order) → Lives a b → IsSound a → IsSound b
Lives-IsSound a b idle h = h
Lives-IsSound none b (placed o status total tracking sent arrived k) h =
    Lives-IsSound (some o) b k (inl total, rw status (tracking, sent, arrived))
Lives-IsSound (some o) b (changed p o' d k) h =
    Lives-IsSound (some o') b k (Change-IsSound p o' d h)
